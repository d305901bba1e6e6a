-- ===== src/Store/Tests.antt =====
-- The store on small tables.
use aime.Store.Query.Completes.{Completes}
use aime.Store.Backups.Allowed.{CanCreate}
use aime.Store.Backups.Succeeds.{create_backup_succeeds}
use aime.Store.Backups.{over_quota}
use aime.Store.Billing.{sum_sizes}
use aime.Store.Billing.Succeeds.{Payable}
use aime.Base.{subst}
use aime.Base.Int.{int64}
use aime.Base.{ℕ, ◌≡◌, refl, Bool, true, inl, inr, Option, none, some, List, [], ◌∷◌, arith}
use aime.Base.Int.{ℤ, pos, ◌+ℤ◌, ◌-ℤ◌, quot, rem, saturate, fits_bigint, fits_integer}
use aime.Base.Bytes.{bytes}
use aime.Base.Float.{hours}
use aime.Base.Rational.{fractions}
use aime.Store.Schema.{Account, Backup, full, delta, UsageEvent, Db}
use aime.Store.Query.{Conn, ok, err, exec, transaction}
use aime.Store.Query.Rules.{Ends}
use aime.Store.Billing.{StoragePricer, charge, settle_storage}
use aime.Store.Billing.Ledger.{Pays}
use aime.Store.Billing.Charges.{Charged, charge-Charged, Settled, settle_storage-Settled}
use aime.Store.Backups.{NewBackup, Quota}
use aime.Store.Backups.Transactions.{create_backup, delete_backup, prune_backups}
use aime.Store.Backups.Chain.{IsChained, IsParent}
use aime.Base.Member.{In}
use aime.Store.Backups.{is_below, delete_rows, take_version, count_and_head, max_version}
use aime.Store.Billing.{
  settle_storage_tx, charge_elapsed, charge_tx, set_balance, insert_usage, scan_sum, set_billed_at,
  storage_event, mb_hours,
}
use aime.Store.Backups.Transactions.{admit_backup}
use aime.Store.Query.{backup_limit, pg, foreign_key_violation}
use aime.Base.Int.{◌*ℤ◌}
use aime.Store.Schema.{BackupKind}
use aime.Store.Backups.Created.{Created, create_backup-Created}
use aime.Store.Backups.Removed.{Deleted, Pruned, delete_backup-Deleted, prune_backups-Pruned}
use aime.Store.Backups.Remove.{delete_rows-boundary}
use aime.Store.Backups.Money.{backup_transactions-Pays}
use aime.Store.Calls.{Call, creates_account, creates_backup, deletes_backup, run, empty}
use aime.Store.Calls.History.{run-empty-IsChained}

-- A microcredit for each stored byte.
abbrev pricer : StoragePricer
pricer used elapsed = used

abbrev quota : Quota
quota = record {
  max_versions = 3;
  free_bytes = pos 100;
  enforce = true;
  total_cap_bytes = pos 1000;
}

abbrev upload : Option ℕ → ℤ → NewBackup
upload parent size = record {
  parent_id = parent;
  storage_path = bytes "1/a.bin";
  size_bytes = size;
  checksum = bytes "c";
  meta = bytes "{}";
}

abbrev history : List (ℤ × List Bool × Call)
history =
    (pos 10, [], creates_account (bytes "a@b.c") [] [])
    ∷ (pos 20, [], creates_backup 1 quota (pos 20) (upload none (pos 40)))
    ∷ (pos 30, [], creates_backup 1 quota (pos 30) (upload (some 1) (pos 50)))
    ∷ (pos 35, true ∷ [], deletes_backup 1 2 (pos 35))
    ∷ []

abbrev pub stored : ℕ → ℕ → BackupKind → Option ℕ → ℤ → Backup
stored id version kind parent size = record {
  id = id;
  account_id = 1;
  version = version;
  kind = kind;
  parent_id = parent;
  storage_path = bytes "1/a.bin";
  size_bytes = size;
  checksum = bytes "c";
  meta = bytes "{}";
  created_at = pos 20;
}

abbrev pub base : Backup
base = stored 1 1 full none (pos 40)

abbrev pub change : Backup
change = stored 2 2 delta (some 1) (pos 50)

abbrev pub next_base : Backup
next_base = stored 3 3 full none (pos 60)

abbrev pub owner : Account
owner = record {
  id = 1;
  email = bytes "a@b.c";
  password_hash = [];
  password_salt = [];
  balance_microcredits = pos 1000;
  created_at = pos 10;
  storage_billed_at = some (pos 30);
  backup_version_seq = 3;
}

-- An account with a full backup, a delta on it, and another full backup.
abbrev pub tables : Db
tables = record empty {
  accounts = owner ∷ [];
  backups = next_base ∷ change ∷ base ∷ [];
  next_account = 2;
  next_backup = 4;
}

abbrev pub conn : Conn
conn = record { db = tables; now = pos 40; faults = [] }

tables_linked :
    (b : Backup) (p : ℕ)
    → In b tables.backups
    → b.parent_id ≡ some p
    → (x : Backup) × (x.id ≡ p) × IsParent tables.backups b x
tables_linked b p (inl e) h = absurd (ground arith)
tables_linked b p (inr (inl e)) h = (
  base,
  ground arith,
  record {
    member = inr (inr (inl refl));
    same_account = ground arith;
    older = ground arith;
    adjacent = λ y m same older. ground arith;
  },
)
tables_linked b p (inr (inr (inl e))) h = absurd (ground arith)
tables_linked b p (inr (inr (inr e))) h = absurd e

pub tables-IsChained : IsChained tables
tables-IsChained = record {
  known = λ a m. ground arith;
  one_counter = λ a a' m m' e. ground arith;
  owned = λ b m. ground arith;
  fresh = λ b m. ground arith;
  id_unique = λ b c m n e. ground arith;
  version_unique = λ b c m n same e. ground arith;
  counted = λ a b m n e. ground arith;
  kinds = λ b m. ground arith;
  linked = tables_linked;
}

-- A fourth version is one too many.
fourth_version :
    (create_backup fractions 1 quota pricer (pos 50) (upload none (pos 5)) conn).0
    ≡ err backup_limit
unfolding create_backup admit_backup take_version settle_storage_tx charge_elapsed charge_tx
    set_balance insert_usage scan_sum set_billed_at count_and_head max_version exec transaction
    storage_event mb_hours hours quot rem saturate fits_bigint fits_integer ◌+ℤ◌ ◌-ℤ◌ ◌*ℤ◌
fourth_version = refl

create_backup-Created_example :
    Ends
      (λ db. db ≡ tables)
      (Created 1 quota (upload (some 3) (pos 5)) tables)
      (create_backup fractions 1 quota pricer (pos 50) (upload (some 3) (pos 5)) conn)
create_backup-Created_example =
    create_backup-Created fractions 1 quota pricer (pos 50) (upload (some 3) (pos 5)) conn
      tables-IsChained

delete_backup-Deleted_example :
    Ends
      (λ db. db ≡ tables)
      (Deleted fractions 1 pricer (pos 50) 2 tables)
      (delete_backup fractions 1 2 pricer (pos 50) conn)
delete_backup-Deleted_example =
    delete_backup-Deleted fractions 1 pricer (pos 50) 2 conn tables-IsChained

prune_backups-Pruned_example :
    Ends
      (λ db. db ≡ tables)
      (Pruned fractions 1 pricer (pos 50) 3 tables)
      (prune_backups fractions 1 3 pricer (pos 50) conn)
prune_backups-Pruned_example =
    prune_backups-Pruned fractions 1 pricer (pos 50) 3 conn tables-IsChained

delete_rows-boundary_example :
    ((full ≡ full)
      → delete_rows (is_below 1 3) (pos 40) tables
        ≡ ok (change ∷ base ∷ [], record tables { backups = next_base ∷ [] }))
    × ((full ≡ delta) → delete_rows (is_below 1 3) (pos 40) tables ≡ err (pg foreign_key_violation))
delete_rows-boundary_example =
    delete_rows-boundary 1 3 tables tables-IsChained next_base (inl refl) refl refl (pos 40)

abbrev event : UsageEvent
event = record {
  kind = bytes "embed";
  model = bytes "m";
  backend = bytes "stub";
  quantity = pos 7;
  unit = bytes "tokens";
  cost_microcredits = pos 140;
}

charge-Charged_example :
    Ends
      (λ db. db ≡ tables)
      (λ b db. Charged 1 event tables b db × Pays tables db)
      (charge 1 event conn)
charge-Charged_example = charge-Charged 1 event conn

settle_storage-Settled_example :
    Ends
      (λ db. db ≡ tables)
      (λ cost db. (used : ℤ) × Settled fractions 1 pricer (pos 50) tables used cost db)
      (settle_storage fractions 1 pricer (pos 50) conn)
settle_storage-Settled_example = settle_storage-Settled fractions 1 pricer (pos 50) conn

backup_transactions-Pays_example :
    Ends
      (Pays tables)
      (λ _. Pays tables)
      (create_backup fractions 1 quota pricer (pos 50) (upload none (pos 5)) conn)
    × Ends (Pays tables) (λ _. Pays tables) (delete_backup fractions 1 2 pricer (pos 50) conn)
    × Ends (Pays tables) (λ _. Pays tables) (prune_backups fractions 1 3 pricer (pos 50) conn)
backup_transactions-Pays_example =
    backup_transactions-Pays fractions 1 pricer (pos 50) quota (upload none (pos 5)) 2 3 conn

run-empty-IsChained_example : IsChained (run fractions pricer history empty)
run-empty-IsChained_example = run-empty-IsChained fractions pricer history

abbrev quota_of_four : Quota
quota_of_four = record quota { max_versions = 4 }

abbrev slow_pricer : StoragePricer
slow_pricer used elapsed = pos 7

the_mark : (at : ℤ) → owner.storage_billed_at ≡ some at → pos 30 ≡ at
the_mark at e = cc

conn-CanCreate :
    CanCreate fractions 1 quota_of_four slow_pricer (pos 50) (upload (some 3) (pos 5)) tables
unfolding scan_sum over_quota max_version fits_bigint fits_integer int64 ◌+ℤ◌ ◌-ℤ◌ storage_event
    mb_hours hours saturate quot rem ◌*ℤ◌
conn-CanCreate = record {
  a = owner;
  settles = record {
    found = refl;
    sum_fits = refl;
    payable = λ at e positive.
        subst
          (λ t.
            Payable owner
              (storage_event fractions (sum_sizes tables.backups) (saturate (pos 50 -ℤ t)) (pos 7)))
          (the_mark at e) (refl, refl);
  };
  counter = omega arith;
  room = omega arith;
  quota = refl;
  cap = λ e. (refl, refl);
  parent = inr (next_base, refl, refl, refl);
}

create_backup_succeeds_example :
    Completes
      (λ b c'. Created 1 quota_of_four (upload (some 3) (pos 5)) conn.db b c'.db)
      (create_backup fractions 1 quota_of_four slow_pricer (pos 50) (upload (some 3) (pos 5)) conn)
create_backup_succeeds_example =
    create_backup_succeeds fractions 1 quota_of_four slow_pricer (pos 50) (upload (some 3) (pos 5))
      conn refl tables-IsChained conn-CanCreate
