-- ===== src/Base/Member.antt =====
-- Membership in a table, and what the row operations do to it.
use aime.Base.Tests.{if◌then◌else◌, Bool-cases}
use mathlib.Core.Path.{◌≡◌, refl}
use mathlib.Core.Logic.{◌⊎◌, inl, inr}
use mathlib.Core.Bool.{Bool, true, false}
use mathlib.Core.Option.{none, some}
use mathlib.Core.List.{List, [], ◌∷◌}
use native.Mathlib.Omega.{arith}
use aime.Base.Lists.{select, delete, update, first, exists}

module _ {A : Type 0} where
  abbrev pub In : A → List A → Type 0
  In x [] = ⊥
  In x (y ∷ ys) = (x ≡ y) ⊎ In x ys

  pub In-select : (p : A → Bool) (x : A) (xs : List A) → In x (select p xs) → In x xs × (p x ≡ true)
  In-select p x [] h = absurd h
  In-select p x (y ∷ ys) h = ground (arith, In-select p x ys, Bool-cases (p y))

  pub select-In : (p : A → Bool) (x : A) (xs : List A) → In x xs → p x ≡ true → In x (select p xs)
  select-In p x [] h e = absurd h
  select-In p x (y ∷ ys) h e = ground (arith, select-In p x ys, Bool-cases (p y))

  pub In-delete :
      (p : A → Bool) (x : A) (xs : List A) → In x (delete p xs) → In x xs × (p x ≡ false)
  In-delete p x [] h = absurd h
  In-delete p x (y ∷ ys) h = ground (arith, In-delete p x ys, Bool-cases (p y))

  pub delete-In : (p : A → Bool) (x : A) (xs : List A) → In x xs → p x ≡ false → In x (delete p xs)
  delete-In p x [] h e = absurd h
  delete-In p x (y ∷ ys) h e = ground (arith, delete-In p x ys, Bool-cases (p y))

  pub In-update :
      (p : A → Bool) (f : A → A) (y : A) (xs : List A)
      → In y (update p f xs)
      → (x : A) × In x xs × (y ≡ (if p x then f x else x))
  In-update p f y [] h = absurd h
  In-update p f y (x ∷ xs) (inl e) = (x, inl refl, e)
  In-update p f y (x ∷ xs) (inr h) = let (z, i, e) = In-update p f y xs h in (z, inr i, e)

  pub first-some :
      (p : A → Bool) (x : A) (xs : List A) → first p xs ≡ some x → In x xs × (p x ≡ true)
  first-some p x [] h = cc
  first-some p x (y ∷ ys) h = ground (arith, first-some p x ys, Bool-cases (p y))

  pub first-none : (p : A → Bool) (x : A) (xs : List A) → first p xs ≡ none → In x xs → p x ≡ false
  first-none p x [] h i = absurd i
  first-none p x (y ∷ ys) h i = ground (arith, first-none p x ys, Bool-cases (p y))

  pub exists-In :
      (p : A → Bool) (xs : List A) → exists p xs ≡ true → (x : A) × In x xs × (p x ≡ true)
  exists-In p [] h = cc
  exists-In p (y ∷ ys) h = elim (Bool-cases (p y)) [
    | inl e ↦ (y, inl refl, e)
    | inr e ↦ let (x, i, q) = exists-In p ys (rw e at h) in (x, inr i, q)
  ]

  pub In-exists : (p : A → Bool) (x : A) (xs : List A) → In x xs → p x ≡ true → exists p xs ≡ true
  In-exists p x [] i e = absurd i
  In-exists p x (y ∷ ys) i e = ground (arith, In-exists p x ys, Bool-cases (p y))

  pub exists-none :
      (p : A → Bool) (x : A) (xs : List A) → exists p xs ≡ false → In x xs → p x ≡ false
  exists-none p x [] h i = absurd i
  exists-none p x (y ∷ ys) h i = ground (arith, exists-none p x ys, Bool-cases (p y))
