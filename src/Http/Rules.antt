-- ===== src/Http/Rules.antt =====
-- Rules for handlers: what holds after a value, and what holds after an early return.
use aime.Base.{◌≡◌, refl, Bool, true, false, if◌then◌else◌}
use aime.Store.Schema.{Db}
use aime.Store.Query.{Conn, Result, ok, err, StoreError}
use aime.Store.Query.Rules.{Ends}
use aime.Http.World.{World, Step, next, stop, Run, proceed, when, answer}

-- After a value the world meets `Q`, after an early return it meets `E`.
abbrev pub Meets :
    {R A : Type 0} → (R → World → Type 0) → (A → World → Type 0) → Step R A × World → Type 0
Meets E Q (next a, w) = Q a w
Meets E Q (stop x, w) = E x w

pub record Runs {R A : Type 0} (E : R → World → Type 0) (Q : A → World → Type 0)
    (r : Step R A × World) : Type 0 where
  pub meets : Meets E Q r

abbrev pub goes_on :
    {R A : Type 0} {E : R → World → Type 0} {Q : A → World → Type 0} {a : A} {w : World}
    → Q a w
    → Runs E Q (next a, w)
goes_on q = record { meets = q }

abbrev pub stops :
    {R A : Type 0} {E : R → World → Type 0} {Q : A → World → Type 0} {x : R} {w : World}
    → E x w
    → Runs E Q (stop x, w)
stops e = record { meets = e }

module _ {R A B : Type 0} (E : R → World → Type 0) (P : A → World → Type 0)
    (Q : B → World → Type 0) where
  pub Runs-bind :
      (f : A → Run R B) (r : Step R A × World)
      → Runs E P r
      → ((a : A) (w : World) → P a w → Runs E Q (f a w))
      → Runs E Q (proceed f r)
  unfolding proceed
  Runs-bind f (next a, w) h k = k a w h.meets
  Runs-bind f (stop x, w) h k = record { meets = h.meets }

  pub Runs-store :
      (S : Db → Type 0) (T : A → Db → Type 0) (w : World) (f : A → Run R B)
      (g : StoreError → Run R B) (r : Result A × Conn)
      → Ends S T r
      → ((a : A) (c : Conn) → T a c.db → Runs E Q (f a (record w { conn = c })))
      → ((e : StoreError) (c : Conn) → S c.db → Runs E Q (g e (record w { conn = c })))
      → Runs E Q (answer w f g r)
  unfolding answer
  Runs-store S T w f g (ok a, c) h k l = k a c h
  Runs-store S T w f g (err e, c) h k l = l e c h

pub Runs-when :
    {R : Type 0} (E : R → World → Type 0) (Q : Unit {0} → World → Type 0) (b : Bool)
    (m : Run R (Unit {0})) (w : World)
    → (b ≡ true → Runs E Q (m w))
    → (b ≡ false → Q tt w)
    → Runs E Q (when b m w)
unfolding when
Runs-when E Q true m w h k = h refl
Runs-when E Q false m w h k = goes_on (k refl)

pub Runs-if :
    {R A : Type 0} (E : R → World → Type 0) (Q : A → World → Type 0) (b : Bool) (m n : Run R A)
    (w : World)
    → (b ≡ true → Runs E Q (m w))
    → (b ≡ false → Runs E Q (n w))
    → Runs E Q ((if b then m else n) w)
Runs-if E Q true m n w h k = h refl
Runs-if E Q false m n w h k = k refl

pub Runs-weaken :
    {R A : Type 0} (E F : R → World → Type 0) (P Q : A → World → Type 0) (r : Step R A × World)
    → Runs E P r
    → ((x : R) (w : World) → E x w → F x w)
    → ((a : A) (w : World) → P a w → Q a w)
    → Runs F Q r
Runs-weaken E F P Q (next a, w) h e q = record { meets = q a w h.meets }
Runs-weaken E F P Q (stop x, w) h e q = record { meets = e x w h.meets }

-- A test whose branch ends the handler.
pub Runs-gate :
    {R A : Type 0} (E : R → World → Type 0) (Q : A → World → Type 0) (b : Bool)
    (m : Run R (Unit {0})) (k : Unit {0} → Run R A) (w : World)
    → (b ≡ true → Runs E (λ _ _. ⊥) (m w))
    → (b ≡ false → Runs E Q (k tt w))
    → Runs E Q (proceed k (when b m w))
unfolding when proceed
Runs-gate E Q true m k w h l = Runs-bind E (λ _ _. ⊥) Q k (m w) (h refl) λ u w' g. absurd g
Runs-gate E Q false m k w h l = l refl

-- A step that is known to go on.
pub Runs-next :
    {R A B : Type 0} (E : R → World → Type 0) (Q : B → World → Type 0) (f : A → Run R B) (a : A)
    (w : World)
    → Runs E Q (f a w)
    → Runs E Q (proceed f (next a, w))
unfolding proceed
Runs-next E Q f a w h = h
