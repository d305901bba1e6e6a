-- ===== src/Store/Query.antt =====
-- How a query runs: statements that may fail, transactions that roll back, and the errors that the
-- store passes to its callers.
pub mod Rules
pub mod Completes
use aime.Base.{ℕ, Bool, true, false, Option, none, some, List, [], ◌∷◌, if◌then◌else◌}
use aime.Base.Int.{ℤ}
use aime.Store.Schema.{Db}

-- What PostgreSQL or the driver answers besides rows. `outage` stands for every failure of the
-- connection, a timeout included.
pub data PgError : Type 0 where
  outage no_rows unique_violation foreign_key_violation out_of_range : PgError

-- The error values of the package, and any driver error that passes through unchanged.
pub data StoreError : Type 0 where
  not_found email_taken challenge_invalid enrollment_invalid : StoreError
  backup_limit backup_in_use backup_stale backup_boundary storage_quota storage_full : StoreError
  pg : PgError → StoreError

pub data Result (A : Type 0) : Type 0 where
  ok : A → Result A
  err : StoreError → Result A

-- The database as one call sees it: the tables, the clock that `now()` reads, and which of the
-- next statements the connection fails (`true`); past the end of the list none does.
pub record Conn : Type 0 where
  pub db : Db
  pub now : ℤ
  pub faults : List Bool

abbrev pub Query : Type 0 → Type 0
Query A = Conn → Result A × Conn

-- One SQL statement: it gives a value and the new tables, or fails and changes nothing.
abbrev pub Statement : Type 0 → Type 0
Statement A = ℤ → Db → Result (A × Db)

abbrev pub head_fault : List Bool → Bool
head_fault [] = false
head_fault (b ∷ bs) = b

abbrev pub tail_faults : List Bool → List Bool
tail_faults [] = []
tail_faults (b ∷ bs) = bs

abbrev pub pure : {A : Type 0} → A → Query A
pure a c = (ok a, c)

abbrev pub fail : {A : Type 0} → StoreError → Query A
fail e c = (err e, c)

-- What stands behind a query in a function: run after a value, skipped after an error.
abbrev pub continue : {A B : Type 0} → (A → Query B) → Result A × Conn → Result B × Conn
continue f (ok a, c) = f a c
continue f (err e, c) = (err e, c)

infixl 5 ◌>>=◌ ◌>>◌
abbrev pub ◌>>=◌ : {A B : Type 0} → Query A → (A → Query B) → Query B
◌>>=◌ m f c = continue f (m c)

abbrev pub ◌>>◌ : {B : Type 0} → Query (Unit {0}) → Query B → Query B
m >> k = m >>= λ _. k

abbrev pub guard : Bool → StoreError → Query (Unit {0})
guard true e = pure tt
guard false e = fail e

abbrev pub apply_statement : {A : Type 0} → Conn → Result (A × Db) → Result A × Conn
apply_statement c (ok (a, db)) = (ok a, record c { db = db })
apply_statement c (err e) = (err e, c)

-- `pool.Exec` and `pool.QueryRow`: one round trip.
unfoldable pub exec : {A : Type 0} → Statement A → Query A
exec s c =
    let c' = record c { faults = tail_faults c.faults } in
    if head_fault c.faults then (err (pg outage), c') else apply_statement c' (s c.now c.db)

abbrev pub translate_error : PgError → StoreError → StoreError → StoreError
translate_error no_rows e (pg no_rows) = e
translate_error unique_violation e (pg unique_violation) = e
translate_error foreign_key_violation e (pg foreign_key_violation) = e
translate_error _ e e' = e'

-- `if errors.Is(err, …) { return …, e }` behind a query.
abbrev pub rename_error : {A : Type 0} → PgError → StoreError → Result A × Conn → Result A × Conn
rename_error p e (ok a, c) = (ok a, c)
rename_error p e (err e', c) = (err (translate_error p e e'), c)

abbrev pub translate : {A : Type 0} → PgError → StoreError → Query A → Query A
translate p e m c = rename_error p e (m c)

-- `Begin` and `Commit` are round trips of their own.
abbrev pub round_trip : Statement (Unit {0})
round_trip now db = ok (tt, db)

abbrev pub end_transaction : {A : Type 0} → Conn → Result A × Conn → Result A × Conn
end_transaction c (ok a, c') = (ok a, c')
end_transaction c (err e, c') = (err e, record c' { db = c.db })

-- `Begin`, the body, `Commit`; the deferred `Rollback` undoes the body's writes after any error.
unfoldable pub transaction : {A : Type 0} → Query A → Query A
transaction m c = end_transaction c ((exec round_trip >> (m >>= λ a. exec round_trip >> pure a)) c)
