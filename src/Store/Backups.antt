-- ===== src/Store/Backups.antt =====
-- deployables/backend/internal/store/backups.go: the versions of an account's backup, each a full
-- file or a delta against the head before it.
pub mod Transactions
pub mod Chain
pub mod Create
pub mod Admit
pub mod Created
pub mod Remove
pub mod Removed
pub mod Books
pub mod Money
pub mod Allowed
pub mod Succeeds
use aime.Base.{
  ℕ, suc, ◌+◌, ◌-◌, ◌^◌, Bool, true, false, not, ◌&&◌, Option, none, some, List, [], ◌∷◌, map, ◌==◌,
  leb, ltb, if◌then◌else◌,
}
use aime.Base.Lists.{length, select, delete, update, first, exists}
use aime.Base.Int.{ℤ, pos, ◌+ℤ◌, ltb_ℤ, leb_ℤ, int64}
use aime.Base.Bytes.{Bytes}
use aime.Base.Float.{Float64}
use aime.Store.Schema.{Account, Backup, BackupKind, full, delta, Db}
use aime.Store.Query.{
  no_rows, unique_violation, foreign_key_violation, out_of_range, not_found, backup_limit,
  backup_in_use, backup_stale, backup_boundary, storage_quota, storage_full, pg, Result, ok, err,
  Query, Statement, exec, translate, transaction, pure, guard, ◌>>=◌, ◌>>◌,
}
use aime.Store.Billing.{
  has_id, account_exists, owned_by, scan_sum, lock_account, StoragePricer, settle_storage_tx,
}

pub record NewBackup : Type 0 where
  pub parent_id : Option ℕ
  pub storage_path : Bytes
  pub size_bytes : ℤ
  pub checksum : Bytes
  pub meta : Bytes

pub record Quota : Type 0 where
  pub max_versions : ℕ
  pub free_bytes : ℤ
  pub enforce : Bool
  pub total_cap_bytes : ℤ

-- `WHERE id = $1 AND account_id = $2`
abbrev pub is_backup : ℕ → ℕ → Backup → Bool
is_backup account_id id b = (b.id == id) && (b.account_id == account_id)

abbrev pub has_version : ℕ → ℕ → Backup → Bool
has_version account_id version b = (b.account_id == account_id) && (b.version == version)

abbrev pub is_below : ℕ → ℕ → Backup → Bool
is_below account_id version b = (b.account_id == account_id) && ltb b.version version

-- `ORDER BY version DESC`
abbrev pub insert_desc : Backup → List Backup → List Backup
insert_desc b [] = b ∷ []
insert_desc b (x ∷ xs) =
    let rest = insert_desc b xs in if ltb b.version x.version then x ∷ rest else b ∷ x ∷ xs

unfoldable pub sort_desc : List Backup → List Backup
sort_desc [] = []
sort_desc (b ∷ bs) = insert_desc b (sort_desc bs)

unfoldable pub list_backups : ℕ → Query (List Backup)
list_backups account_id =
    exec (λ now db. ok (sort_desc (select (owned_by account_id) db.backups), db))

unfoldable pub count_backups : ℕ → Query ℕ
count_backups account_id =
    exec (λ now db. ok (length (select (owned_by account_id) db.backups), db))

-- `QueryRow` of a backup row.
abbrev pub read_backup : {A : Type 0} → (Backup → Bool) → (Backup → A) → Statement A
read_backup p f now db = elim (first p db.backups) [
  | none ↦ err (pg no_rows)
  | some b ↦ ok (f b, db)
]

unfoldable pub get_backup : ℕ → ℕ → Query Backup
get_backup account_id id =
    translate no_rows not_found (exec (read_backup (is_backup account_id id) (λ b. b)))

-- The version counter is an INTEGER column.
unfoldable pub take_version : ℕ → Statement (ℕ × ℤ)
take_version account_id now db = elim (first (has_id account_id) db.accounts) [
  | none ↦ err (pg no_rows)
  | some a ↦
      if ltb (a.backup_version_seq + 1) (2 ^ 31)
      then ok (
        (a.backup_version_seq + 1, a.balance_microcredits),
        record db {
          accounts =
              update (has_id account_id)
                (λ x. record x { backup_version_seq = x.backup_version_seq + 1 }) db.accounts;
        },
      )
      else err (pg out_of_range)
]

-- `coalesce(max(version), 0)`
unfoldable pub max_version : List Backup → ℕ
max_version [] = 0
max_version (b ∷ bs) = let rest = max_version bs in if ltb rest b.version then b.version else rest

unfoldable pub count_and_head : ℕ → Statement (ℕ × ℕ)
count_and_head account_id now db =
    let rows = select (owned_by account_id) db.backups in ok ((length rows, max_version rows), db)

unfoldable pub parent_exists : Option ℕ → Db → Bool
parent_exists none db = true
parent_exists (some p) db = exists (λ x. x.id == p) db.backups

-- `INSERT INTO backups`, under the table's foreign keys and its unique (account_id, version).
unfoldable pub insert_backup : ℕ → ℕ → BackupKind → NewBackup → Statement Backup
insert_backup account_id version kind nb now db =
    let row : Backup = record {
      id = db.next_backup;
      account_id = account_id;
      version = version;
      kind = kind;
      parent_id = nb.parent_id;
      storage_path = nb.storage_path;
      size_bytes = nb.size_bytes;
      checksum = nb.checksum;
      meta = nb.meta;
      created_at = now;
    } in
    if exists (has_version account_id version) db.backups
    then err (pg unique_violation)
    else if account_exists account_id db && parent_exists nb.parent_id db
    then ok (row, record db { backups = row ∷ db.backups; next_backup = suc db.next_backup })
    else err (pg foreign_key_violation)

-- The quota under the account's lock: a positive balance is asked for above the free bytes.
unfoldable pub over_quota : Quota → ℤ → ℤ → ℤ → Bool
over_quota q balance used size =
    q.enforce && leb_ℤ balance (pos 0) && ltb_ℤ q.free_bytes (int64 (used +ℤ size))

unfoldable pub check_total_cap : Quota → ℤ → Query (Unit {0})
check_total_cap q size =
    if ltb_ℤ (pos 0) q.total_cap_bytes
    then (do
      total ← exec (scan_sum (λ b. true))
      guard (not (ltb_ℤ q.total_cap_bytes (int64 (total +ℤ size)))) storage_full)
    else pure tt

-- A delta builds on the account's newest version.
unfoldable pub check_parent : ℕ → ℕ → Option ℕ → Query BackupKind
check_parent account_id head none = pure full
check_parent account_id head (some p) = do
  parent ←
      translate no_rows not_found (exec (read_backup (is_backup account_id p) (λ b. b.version)))
  guard (parent == head) backup_stale
  pure delta

-- A row of `rest` whose parent is gone.
abbrev pub is_orphan : List Backup → Backup → Bool
is_orphan rest b = elim b.parent_id [ none ↦ false | some p ↦ not (exists (λ x. x.id == p) rest) ]

-- `DELETE FROM backups WHERE p`: the foreign key of `parent_id` is checked at the statement's end.
unfoldable pub delete_rows : (Backup → Bool) → Statement (List Backup)
delete_rows p now db =
    let rest = delete p db.backups in
    if exists (is_orphan rest) rest
    then err (pg foreign_key_violation)
    else ok (select p db.backups, record db { backups = rest })

abbrev returning_one : Backup → Result (List Backup × Db) → Result (Backup × Db)
returning_one b (ok (rows, db)) = ok (b, db)
returning_one b (err e) = err e

-- `DELETE … RETURNING` of one row.
unfoldable pub delete_row : (Backup → Bool) → Statement Backup
unfolding delete_rows
delete_row p now db = elim (first p db.backups) [
  | none ↦ err (pg no_rows)
  | some b ↦ returning_one b (delete_rows p now db)
]

-- `AllStoragePaths`
unfoldable pub all_storage_paths : Query (List Bytes)
all_storage_paths = exec (λ now db. ok (map (λ b. b.storage_path) db.backups, db))
