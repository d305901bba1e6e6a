-- ===== src/Store/Query/Rules.antt =====
-- Rules for queries: what holds of the answer and of the tables, whatever the faults.
use aime.Base.{◌≡◌, refl, subst, Bool, true, false, [], if◌then◌else◌}
use aime.Store.Schema.{Db}
use aime.Store.Query.{
  PgError, outage, StoreError, Result, ok, err, Conn, Query, Statement, head_fault, tail_faults,
  exec, pure, guard, continue, apply_statement, rename_error, translate, transaction,
  end_transaction, round_trip, ◌>>◌, pg,
}

-- The connection fails no statement.
abbrev pub IsHealthy : Conn → Type 0
IsHealthy c = c.faults ≡ []

-- After a value the tables meet `Q`, after an error they meet `P`.
abbrev pub Ends : {A : Type 0} → (Db → Type 0) → (A → Db → Type 0) → Result A × Conn → Type 0
Ends P Q (ok a, c) = Q a c.db
Ends P Q (err e, c) = P c.db

module _ {A : Type 0} (P : Db → Type 0) (Q : A → Db → Type 0) where
  apply_statement-Ends :
      (c : Conn) (r : Result (A × Db))
      → P c.db
      → ((a : A) (db : Db) → r ≡ ok (a, db) → Q a db)
      → Ends P Q (apply_statement c r)
  apply_statement-Ends c (ok (a, db)) p q = q a db refl
  apply_statement-Ends c (err e) p q = p

  exec_branch :
      (b : Bool) (c : Conn) (r : Result (A × Db))
      → P c.db
      → ((a : A) (db : Db) → r ≡ ok (a, db) → Q a db)
      → Ends P Q (if b then (err (pg outage), c) else apply_statement c r)
  exec_branch true c r p q = p
  exec_branch false c r p q = apply_statement-Ends c r p q

  pub Ends-exec :
      (s : Statement A) (c : Conn)
      → P c.db
      → ((a : A) (db : Db) → s c.now c.db ≡ ok (a, db) → Q a db)
      → Ends P Q (exec s c)
  unfolding exec
  Ends-exec s c p q =
      exec_branch (head_fault c.faults) (record c { faults = tail_faults c.faults }) (s c.now c.db)
        p q

  pub Ends-rename :
      (p : PgError) (e : StoreError) (r : Result A × Conn)
      → Ends P Q r
      → Ends P Q (rename_error p e r)
  Ends-rename p e (ok a, c) h = h
  Ends-rename p e (err e', c) h = h

  pub Ends-weaken :
      (R : Db → Type 0) (S : A → Db → Type 0) (r : Result A × Conn)
      → Ends R S r
      → ((db : Db) → R db → P db)
      → ((a : A) (db : Db) → S a db → Q a db)
      → Ends P Q r
  Ends-weaken R S (ok a, c) h f g = g a c.db h
  Ends-weaken R S (err e, c) h f g = f c.db h

  -- One statement whose error is renamed.
  pub Ends-translate :
      (p : PgError) (e : StoreError) (s : Statement A) (c : Conn)
      → P c.db
      → ((a : A) (db : Db) → s c.now c.db ≡ ok (a, db) → Q a db)
      → Ends P Q (translate p e (exec s) c)
  Ends-translate p e s c h q = Ends-rename p e (exec s c) (Ends-exec s c h q)

  end_transaction-Ends :
      (c : Conn) (r : Result A × Conn)
      → P c.db
      → Ends (λ _. Unit {0}) Q r
      → Ends P Q (end_transaction c r)
  end_transaction-Ends c (ok a, c') p q = q
  end_transaction-Ends c (err e, c') p q = p

pub Ends-and :
    {A : Type 0} (P : Db → Type 0) (Q R : A → Db → Type 0) (r : Result A × Conn)
    → Ends P Q r
    → Ends P R r
    → Ends P (λ a db. Q a db × R a db) r
Ends-and P Q R (ok a, c) h k = (h, k)
Ends-and P Q R (err e, c) h k = h

module _ {A B : Type 0} (P : Db → Type 0) (R : A → Db → Type 0) (Q : B → Db → Type 0) where
  pub Ends-bind :
      (f : A → Query B) (r : Result A × Conn)
      → Ends P R r
      → ((a : A) (c : Conn) → R a c.db → Ends P Q (f a c))
      → Ends P Q (continue f r)
  Ends-bind f (ok a, c) h k = k a c h
  Ends-bind f (err e, c) h k = h

pub Ends-if :
    {A : Type 0} (P : Db → Type 0) (Q : A → Db → Type 0) (b : Bool) (m n : Query A) (c : Conn)
    → (b ≡ true → Ends P Q (m c))
    → (b ≡ false → Ends P Q (n c))
    → Ends P Q ((if b then m else n) c)
Ends-if P Q true m n c h k = h refl
Ends-if P Q false m n c h k = k refl

pub Ends-check :
    (P : Db → Type 0) (Q : Unit {0} → Db → Type 0) (b : Bool) (e : StoreError) (c : Conn)
    → P c.db
    → (b ≡ true → Q tt c.db)
    → Ends P Q (guard b e c)
Ends-check P Q true e c p q = q refl
Ends-check P Q false e c p q = p

pub Ends-guard :
    {B : Type 0} (P : Db → Type 0) (Q : B → Db → Type 0) (b : Bool) (e : StoreError) (k : Query B)
    (c : Conn)
    → P c.db
    → (b ≡ true → Ends P Q (k c))
    → Ends P Q ((guard b e >> k) c)
Ends-guard P Q true e k c p q = q refl
Ends-guard P Q false e k c p q = p

pub ok-tables :
    {A : Type 0} {a a' : A} {db db' : Db}
    → ◌≡◌ {A = Result (A × Db)} (ok (a, db)) (ok (a', db'))
    → (a ≡ a') × (db ≡ db')
ok-tables e = (cc, cc)

round_trip-Ends :
    (P Q : Db → Type 0) (c : Conn) → P c.db → Q c.db → Ends P (λ _. Q) (exec round_trip c)
round_trip-Ends P Q c p q =
    Ends-exec P (λ _. Q) round_trip c p (λ a db e. subst Q (ok-tables e).1 q)

commit-Ends :
    {A : Type 0} (Q : A → Db → Type 0) (a : A) (c : Conn)
    → Q a c.db
    → Ends (λ _. Unit {0}) Q ((exec round_trip >> pure a) c)
commit-Ends Q a c q =
    Ends-bind (λ _. Unit {0}) (λ _. Q a) Q (λ _. pure a) (exec round_trip c)
      (round_trip-Ends (λ _. Unit {0}) (Q a) c tt q) (λ _ _ h. h)

-- The body of a transaction starts from the same tables; only its success has to be followed.
pub Ends-transaction :
    {A : Type 0} (P : Db → Type 0) (Q : A → Db → Type 0) (m : Query A) (c : Conn)
    → P c.db
    → ((c' : Conn) → c'.db ≡ c.db → Ends (λ _. Unit {0}) Q (m c'))
    → Ends P Q (transaction m c)
unfolding transaction
Ends-transaction P Q m c p body = end_transaction-Ends P Q c _ p (
    Ends-bind (λ _. Unit {0}) (λ _ db. db ≡ c.db) Q _ (exec round_trip c)
      (round_trip-Ends (λ _. Unit {0}) (λ db. db ≡ c.db) c tt refl)
      λ _ c' same. Ends-bind (λ _. Unit {0}) Q Q _ (m c') (body c' same) (commit-Ends Q))
