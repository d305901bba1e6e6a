-- ===== src/Store/Query/Completes.antt =====
-- Rules for queries on a connection that fails no statement: they come to a value.
use aime.Base.{◌≡◌, refl, sym, subst, Bool, true, false, arith, [], if◌then◌else◌}
use aime.Store.Schema.{Db}
use aime.Store.Query.{
  PgError, StoreError, Result, ok, err, Conn, Query, Statement, exec, guard, continue,
  apply_statement, rename_error, transaction, end_transaction, round_trip, head_fault, tail_faults,
  ◌>>◌, pg, outage,
}
use aime.Store.Query.Rules.{IsHealthy, Ends}

-- A value, and a connection that is still healthy.
abbrev pub Good : {A : Type 0} → (A → Conn → Type 0) → Result A × Conn → Type 0
Good Q (ok a, c) = IsHealthy c × Q a c
Good Q (err e, c) = ⊥

pub record Completes {A : Type 0} (Q : A → Conn → Type 0) (r : Result A × Conn) : Type 0 where
  pub good : Good Q r

module _ {A : Type 0} (Q : A → Conn → Type 0) where
  applied :
      (s : Result (A × Db)) (c : Conn) (a : A) (db : Db)
      → s ≡ ok (a, db)
      → IsHealthy c
      → Q a (record c { db = db })
      → Good Q (apply_statement c s)
  applied s c a db e h q = subst (λ x. Good Q (apply_statement c x)) (sym e) (h, q)

  pub Completes-exec :
      (s : Statement A) (c : Conn) (a : A) (db : Db)
      → IsHealthy c
      → s c.now c.db ≡ ok (a, db)
      → ((c' : Conn) → c'.db ≡ db → c'.now ≡ c.now → Q a c')
      → Completes Q (exec s c)
  unfolding exec
  Completes-exec s c a db h e q = record {
    good =
        subst
          (λ f. Good Q (
            if head_fault f
            then (err (pg outage), record c { faults = tail_faults f })
            else apply_statement (record c { faults = tail_faults f }) (s c.now c.db)))
          (sym h)
          (applied (s c.now c.db) (record c { faults = [] }) a db e refl
            (q (record c { db = db; faults = [] }) refl refl));
  }

  pub Completes-rename :
      (p : PgError) (e : StoreError) (r : Result A × Conn)
      → Completes Q r
      → Completes Q (rename_error p e r)
  Completes-rename p e (ok a, c) h = record { good = h.good }
  Completes-rename p e (err e', c) h = absurd h.good

module _ {A B : Type 0} (P : A → Conn → Type 0) (Q : B → Conn → Type 0) where
  pub Completes-bind :
      (f : A → Query B) (r : Result A × Conn)
      → Completes P r
      → ((a : A) (c : Conn) → IsHealthy c → P a c → Completes Q (f a c))
      → Completes Q (continue f r)
  Completes-bind f (ok a, c) h k = k a c h.good.0 h.good.1
  Completes-bind f (err e, c) h k = absurd h.good

pub Completes-guard :
    {B : Type 0} (Q : B → Conn → Type 0) (b : Bool) (e : StoreError) (k : Query B) (c : Conn)
    → b ≡ true
    → Completes Q (k c)
    → Completes Q ((guard b e >> k) c)
Completes-guard Q true e k c h q = q
Completes-guard Q false e k c h q = absurd (ground arith)

module _ {A : Type 0} (Q : A → Conn → Type 0) where
  ended : (c : Conn) (r : Result A × Conn) → Completes Q r → Completes Q (end_transaction c r)
  ended c (ok a, c') h = record { good = h.good }
  ended c (err e, c') h = absurd h.good

  -- What the body gives is kept, as long as it only speaks of the tables.
  pub Completes-transaction :
      (m : Query A) (c : Conn)
      → IsHealthy c
      → ((a : A) (x y : Conn) → x.db ≡ y.db → Q a x → Q a y)
      → ((c' : Conn) → IsHealthy c' → c'.db ≡ c.db → c'.now ≡ c.now → Completes Q (m c'))
      → Completes Q (transaction m c)
  unfolding transaction
  Completes-transaction m c h keep body = ended c _ (
      Completes-bind (λ _ x. (x.db ≡ c.db) × (x.now ≡ c.now)) Q _ _
        (Completes-exec _ round_trip c tt c.db h refl (λ _ d n. (d, n)))
        λ _ c₁ h₁ (d, n). Completes-bind Q Q _ _ (body c₁ h₁ d n) λ a c₂ h₂ q.
          Completes-bind (λ _ x. x.db ≡ c₂.db) Q _ _
            (Completes-exec _ round_trip c₂ tt c₂.db h₂ refl (λ _ d n. d))
            λ _ c₃ h₃ e. record { good = (h₃, keep a c₂ c₃ (sym e) q) })

-- A query that completes ends as it is known to end after a value.
pub Completes-Ends :
    {A : Type 0} (P : Db → Type 0) (Q : A → Db → Type 0) (R : A → Conn → Type 0)
    (r : Result A × Conn)
    → Ends P Q r
    → Completes R r
    → Completes (λ a c. Q a c.db) r
Completes-Ends P Q R (ok a, c) q h = record { good = (h.good.0, q) }
Completes-Ends P Q R (err e, c) q h = absurd h.good
