-- ===== src/Store/Backups/Books.antt =====
-- deployables/backend/internal/store/backups.go: the statements of the backup transactions keep the
-- ledger.
use aime.Base.{
  ℕ, ◌==◌, ◌≡◌, refl, sym, ap, subst, Bool, Bool-cases, Option-cases, inl, inr, if◌then◌else◌, List,
  arith, ◌+◌,
}
use aime.Base.Lists.{update, first}
use aime.Base.Int.{ℤ}
use aime.Store.Schema.{Backup, BackupKind, Db}
use aime.Store.Query.{Conn, Statement, ok, exec}
use aime.Store.Query.Rules.{Ends-exec}
use aime.Store.Billing.{has_id}
use aime.Store.Billing.Settle.{Then}
use aime.Store.Billing.Ledger.{Pays, first-update}
use aime.Store.Backups.{
  NewBackup, take_version, count_and_head, insert_backup, delete_row, delete_rows,
}

abbrev pub U : Db → Type 0
U _ = Unit {0}

-- The accounts and the ledger of a table set, which is all that `Pays` reads.
same_books :
    (old d e : Db)
    → e.accounts ≡ d.accounts
    → e.usage_events ≡ d.usage_events
    → Pays old d
    → Pays old e
same_books old d e accounts events p = record {
  paid = λ j a h. let (b, found, sum) = p.paid j a h in (b, rw accounts found, rw events sum);
}

pub take_version-Pays :
    (i : ℕ) (now : ℤ) (db new : Db) (r : ℕ × ℤ) → take_version i now db ≡ ok (r, new) → Pays db new
unfolding take_version
take_version-Pays i now db new r h = elim (Option-cases (first (has_id i) db.accounts)) [
  | inl e ↦ absurd (ground arith)
  | inr (a, e) ↦
      let made : record db {
        accounts =
            update (has_id i) (λ x. record x { backup_version_seq = x.backup_version_seq + 1 })
              db.accounts;
      }
          ≡ new =
        ground arith in
      subst (Pays db) made (record {
        paid = λ j b found. (
          (if j == i then record b { backup_version_seq = b.backup_version_seq + 1 } else b),
          first-update i j (λ x. record x { backup_version_seq = x.backup_version_seq + 1 })
              db.accounts (λ _. refl) b found,
          ground (arith, Bool-cases (j == i)),
        );
      })
]

module _ {A : Type 0} (old : Db) (s : Statement A)
    (keeps : (now : ℤ) (db new : Db) (a : A)
      → s now db ≡ ok (a, new)
      → (new.accounts ≡ db.accounts) × (new.usage_events ≡ db.usage_events)) where
  pub exec-Pays : (c : Conn) → Pays old c.db → Then (λ _. Pays old) (exec s c)
  exec-Pays c p =
      Ends-exec U (λ _. Pays old) s c tt
        λ a new e.
          let (accounts, events) = keeps c.now c.db new a e in
          same_books old c.db new accounts events p

pub reads :
    {A : Type 0} (s : Statement A) (now : ℤ) (db new : Db) (a : A)
    → db ≡ new
    → (new.accounts ≡ db.accounts) × (new.usage_events ≡ db.usage_events)
reads s now db new a e = (ap (λ x. x.accounts) (sym e), ap (λ x. x.usage_events) (sym e))

pub count_and_head-keeps :
    (i : ℕ) (now : ℤ) (db new : Db) (a : ℕ × ℕ)
    → count_and_head i now db ≡ ok (a, new)
    → (new.accounts ≡ db.accounts) × (new.usage_events ≡ db.usage_events)
unfolding count_and_head
count_and_head-keeps i now db new a e = (ground arith, ground arith)

pub insert_backup-keeps :
    (i v : ℕ) (k : BackupKind) (nb : NewBackup) (now : ℤ) (db new : Db) (b : Backup)
    → insert_backup i v k nb now db ≡ ok (b, new)
    → (new.accounts ≡ db.accounts) × (new.usage_events ≡ db.usage_events)
unfolding insert_backup
insert_backup-keeps i v k nb now db new b e = (ground arith, ground arith)

pub delete_rows-keeps :
    (p : Backup → Bool) (now : ℤ) (db new : Db) (out : List Backup)
    → delete_rows p now db ≡ ok (out, new)
    → (new.accounts ≡ db.accounts) × (new.usage_events ≡ db.usage_events)
unfolding delete_rows
delete_rows-keeps p now db new out e = (ground arith, ground arith)

pub delete_row-keeps :
    (p : Backup → Bool) (now : ℤ) (db new : Db) (b : Backup)
    → delete_row p now db ≡ ok (b, new)
    → (new.accounts ≡ db.accounts) × (new.usage_events ≡ db.usage_events)
unfolding delete_row
delete_row-keeps p now db new b e = (
  ground (arith, Option-cases (first p db.backups)),
  ground (arith, Option-cases (first p db.backups)),
)
