-- ===== src/Store/Backups/Transactions.antt =====
-- deployables/backend/internal/store/backups.go: `CreateBackup`, `DeleteBackup` and
-- `PruneBackups`. `clock` is what `time.Now()` answers in the body.
use aime.Base.{ℕ, Bool, true, false, not, leb, List}
use aime.Base.Int.{ℤ}
use aime.Base.Float.{Float64}
use aime.Store.Schema.{Backup, BackupKind, full, delta}
use aime.Store.Query.{
  no_rows, foreign_key_violation, not_found, backup_limit, backup_in_use, backup_boundary,
  storage_quota, Query, exec, translate, transaction, guard, ◌>>=◌, ◌>>◌,
}
use aime.Store.Billing.{lock_account, StoragePricer, settle_storage_tx}
use aime.Store.Backups.{
  NewBackup, Quota, is_backup, has_version, is_below, read_backup, take_version, count_and_head,
  over_quota, check_total_cap, check_parent, insert_backup, delete_row, delete_rows,
}

abbrev pub is_full : BackupKind → Bool
is_full full = true
is_full delta = false

module _ (fl : Float64) (account_id : ℕ) where
  -- The part of `CreateBackup` behind the settlement.
  unfoldable pub admit_backup : Quota → NewBackup → ℕ → ℤ → ℤ → Query Backup
  admit_backup q nb version balance used = do
    (count, head) ← exec (count_and_head account_id)
    guard (not (leb q.max_versions count)) backup_limit
    guard (not (over_quota q balance used nb.size_bytes)) storage_quota
    check_total_cap q nb.size_bytes
    kind ← check_parent account_id head nb.parent_id
    translate no_rows not_found (exec (insert_backup account_id version kind nb))

  unfoldable pub create_backup : Quota → StoragePricer → ℤ → NewBackup → Query Backup
  create_backup q pricer clock nb = transaction do
    (version, balance) ← translate no_rows not_found (exec (take_version account_id))
    (used, cost) ← settle_storage_tx fl account_id pricer clock
    admit_backup q nb version balance used

  unfoldable pub delete_backup : ℕ → StoragePricer → ℤ → Query Backup
  delete_backup id pricer clock = transaction do
    lock_account account_id
    r ← settle_storage_tx fl account_id pricer clock
    translate foreign_key_violation backup_in_use
        (translate no_rows not_found (exec (delete_row (is_backup account_id id))))

  unfoldable pub prune_backups : ℕ → StoragePricer → ℤ → Query (List Backup)
  prune_backups before_version pricer clock = transaction do
    lock_account account_id
    r ← settle_storage_tx fl account_id pricer clock
    kind ←
        translate no_rows not_found
          (exec (read_backup (has_version account_id before_version) (λ b. b.kind)))
    guard (is_full kind) backup_boundary
    exec (delete_rows (is_below account_id before_version))
