-- ===== src/Store/Billing.antt =====
-- deployables/backend/internal/store/billing.go: balances, the usage ledger, and the settlement of
-- stored bytes.
pub mod Settle
pub mod Ledger
pub mod Charges
pub mod Succeeds
use aime.Base.{
  ℕ, suc, Bool, true, false, not, ◌&&◌, ◌||◌, Option, none, some, List, [], ◌∷◌, map, ◌==◌,
  if◌then◌else◌, ◌^◌,
}
use aime.Base.Lists.{select, update, first, exists}
use aime.Base.Int.{ℤ, pos, ◌+ℤ◌, ◌-ℤ◌, ltb_ℤ, quot, saturate, fits_bigint, fits_integer}
use aime.Base.Bytes.{bytes}
use aime.Base.Float.{Float64, hours}
use aime.Store.Schema.{Account, Backup, UsageEvent, Db}
use aime.Store.Query.{
  no_rows, foreign_key_violation, out_of_range, not_found, pg, ok, err, Query, Statement, exec,
  translate, transaction, pure, ◌>>=◌, ◌>>◌,
}

-- `WHERE id = $1` on accounts.
abbrev pub has_id : ℕ → Account → Bool
has_id i a = a.id == i

abbrev pub account_exists : ℕ → Db → Bool
account_exists i db = exists (has_id i) db.accounts

-- A column of the account's row, as `QueryRow(…).Scan(…)` reads it.
abbrev pub read_account : {A : Type 0} → ℕ → (Account → A) → Statement A
read_account i f now db = elim (first (has_id i) db.accounts) [
  | none ↦ err (pg no_rows)
  | some a ↦ ok (f a, db)
]

unfoldable pub balance : ℕ → Query ℤ
balance account_id = exec (read_account account_id (λ a. a.balance_microcredits))

-- `UPDATE accounts SET balance_microcredits = … RETURNING balance_microcredits`; PostgreSQL
-- refuses a value that does not fit the column.
unfoldable pub set_balance : ℕ → (ℤ → ℤ) → Statement ℤ
set_balance i f now db = elim (first (has_id i) db.accounts) [
  | none ↦ err (pg no_rows)
  | some a ↦
      let b = f a.balance_microcredits in
      if fits_bigint b
      then ok (
        b,
        record db {
          accounts =
              update (has_id i) (λ x. record x { balance_microcredits = f x.balance_microcredits })
                db.accounts;
        },
      )
      else err (pg out_of_range)
]

-- `INSERT INTO usage_events`; `quantity` is an INTEGER column.
unfoldable pub insert_usage : ℕ → UsageEvent → Statement (Unit {0})
insert_usage account_id ev now db =
    if not (fits_integer ev.quantity && fits_bigint ev.cost_microcredits)
    then err (pg out_of_range)
    else if account_exists account_id db
    then ok (
      tt,
      record db {
        usage_events =
            record { id = db.next_usage; account_id = account_id; event = ev; created_at = now }
            ∷ db.usage_events;
        next_usage = suc db.next_usage;
      },
    )
    else err (pg foreign_key_violation)

unfoldable pub charge_tx : ℕ → UsageEvent → Query ℤ
charge_tx account_id ev = do
  b ← exec (set_balance account_id (λ x. x -ℤ ev.cost_microcredits))
  exec (insert_usage account_id ev)
  pure b

unfoldable pub charge : ℕ → UsageEvent → Query ℤ
charge account_id ev = transaction (charge_tx account_id ev)

unfoldable pub add_credits : ℕ → ℤ → Query ℤ
add_credits account_id amount = exec (set_balance account_id (λ x. x +ℤ amount))

abbrev pub sum_sizes : List Backup → ℤ
sum_sizes [] = pos 0
sum_sizes (b ∷ bs) = b.size_bytes +ℤ sum_sizes bs

abbrev pub owned_by : ℕ → Backup → Bool
owned_by i b = b.account_id == i

-- A sum is a NUMERIC; reading it into an int64 fails where it does not fit.
unfoldable pub scan_sum : (Backup → Bool) → Statement ℤ
scan_sum p now db =
    let n = sum_sizes (select p db.backups) in
    if fits_bigint n then ok (n, db) else err (pg out_of_range)

unfoldable pub storage_used : ℕ → Query ℤ
storage_used account_id = exec (scan_sum (owned_by account_id))

abbrev is_billed : Option ℤ → Bool
is_billed none = false
is_billed (some t) = true

abbrev marked_before : ℤ → Option ℤ → Bool
marked_before limit none = true
marked_before limit (some t) = ltb_ℤ t limit

unfoldable pub due_for_billing : ℤ → Statement (List ℕ)
due_for_billing min_age now db = ok (
  map (λ a. a.id)
      (select
        (λ a.
          marked_before (now -ℤ min_age) a.storage_billed_at
          && (is_billed a.storage_billed_at || exists (owned_by a.id) db.backups))
        db.accounts),
  db,
)

unfoldable pub storage_billing_due : ℤ → Query (List ℕ)
storage_billing_due min_age = exec (due_for_billing min_age)

-- `SELECT … FOR UPDATE`
unfoldable pub lock_account : ℕ → Query (Unit {0})
lock_account account_id = translate no_rows not_found (exec (read_account account_id (λ a. tt)))

-- `StoragePricer.StorageCost`: bytes, nanoseconds, microcredits.
abbrev pub StoragePricer : Type 0
StoragePricer = ℤ → ℤ → ℤ

abbrev pub mb : ℕ
mb = 2 ^ 20

unfoldable pub set_billed_at : ℕ → ℤ → Statement (Unit {0})
set_billed_at i at now db = ok (
  tt,
  record db {
    accounts = update (has_id i) (λ a. record a { storage_billed_at = some at }) db.accounts;
  },
)

module _ (fl : Float64) where
  open fl use {of_int, to_int, mul}

  -- `int64(float64(used/mb) * elapsed.Hours())`
  unfoldable pub mb_hours : ℤ → ℤ → ℤ
  mb_hours used elapsed = to_int (mul (of_int (quot used mb)) (hours fl elapsed))

  unfoldable pub storage_event : ℤ → ℤ → ℤ → UsageEvent
  storage_event used elapsed cost = record {
    kind = bytes "storage";
    model = bytes "backup";
    backend = bytes "disk";
    quantity = mb_hours used elapsed;
    unit = bytes "mb_hour";
    cost_microcredits = cost;
  }

  -- The charge for the time since the mark; none at the first settlement of an account.
  unfoldable pub charge_elapsed : ℕ → StoragePricer → ℤ → ℤ → Option ℤ → Query ℤ
  charge_elapsed account_id pricer now used none = pure (pos 0)
  charge_elapsed account_id pricer now used (some billed_at) =
      let elapsed = saturate (now -ℤ billed_at) in
      let cost = pricer used elapsed in
      if ltb_ℤ (pos 0) cost
      then charge_tx account_id (storage_event used elapsed cost) >>= (λ _. pure cost)
      else pure cost

  unfoldable pub settle_storage_tx : ℕ → StoragePricer → ℤ → Query (ℤ × ℤ)
  settle_storage_tx account_id pricer now = do
    billed_at ← exec (read_account account_id (λ a. a.storage_billed_at))
    used ← exec (scan_sum (owned_by account_id))
    cost ← charge_elapsed account_id pricer now used billed_at
    exec (set_billed_at account_id now)
    pure (used, cost)

  unfoldable pub settle_storage : ℕ → StoragePricer → ℤ → Query ℤ
  settle_storage account_id pricer now =
      transaction do lock_account account_id; r ← settle_storage_tx account_id pricer now; pure r.1
