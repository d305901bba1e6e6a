-- ===== src/Store/Backups/Created.antt =====
-- deployables/backend/internal/store/backups.go, CreateBackup as a whole.
use aime.Store.Query.Rules.{Ends-weaken}
use aime.Store.Billing.{charge_tx}
use aime.Store.Billing.Settle.{mark}
use aime.Store.Schema.{UsageEvent}
use aime.Store.Backups.Chain.{Quiet}
use aime.Base.{ℕ, ◌+◌, ◌≡◌, refl, subst, Option-cases, inl, inr, some, List, arith}
use aime.Base.Lists.{select, first}
use aime.Base.Int.{ℤ}
use aime.Base.Float.{Float64}
use aime.Store.Schema.{Account, Backup, Db}
use aime.Store.Query.{Conn, ok, no_rows, not_found}
use aime.Store.Query.Rules.{Ends, Ends-bind, Ends-translate, Ends-transaction}
use aime.Store.Billing.{has_id, owned_by, sum_sizes, StoragePricer}
use aime.Store.Billing.Settle.{Then, settle_storage_tx-Then}
use aime.Store.Backups.{NewBackup, Quota, take_version}
use aime.Store.Backups.Transactions.{create_backup}
use aime.Store.Backups.Chain.{IsChained, charge_tx-Quiet, marked-Quiet, Quiet-refl}
use aime.Store.Backups.Create.{IsReady, IsReady-Quiet, take_version-IsReady}
use aime.Store.Backups.Admit.{Admitted, admit_backup-Admitted}

abbrev U : Db → Type 0
U _ = Unit {0}

-- The account as it was, and the backup admitted with the next version, against the balance and
-- the bytes stored at the start.
abbrev pub Created : ℕ → Quota → NewBackup → Db → Backup → Db → Type 0
Created i q nb old b new =
    (a : Account) × (first (has_id i) old.accounts ≡ some a)
    × Admitted i (a.backup_version_seq + 1) old.backups q nb a.balance_microcredits
        (sum_sizes (select (owned_by i) old.backups)) b new

take_version-account :
    (i : ℕ) (now : ℤ) (db new : Db) (r : ℕ × ℤ)
    → take_version i now db ≡ ok (r, new)
    → (a : Account) × (first (has_id i) db.accounts ≡ some a)
      × (a.backup_version_seq + 1 ≡ r.0)
      × (a.balance_microcredits ≡ r.1)
unfolding take_version
take_version-account i now db new r h = elim (Option-cases (first (has_id i) db.accounts)) [
  | inl e ↦ absurd (ground arith)
  | inr (a, e) ↦ (a, e, ground arith, ground arith)
]

module _ (fl : Float64) (i : ℕ) (q : Quota) (pricer : StoragePricer) (clock : ℤ)
    (nb : NewBackup) where
  Admitted-after :
      (v : ℕ) (balance used : ℤ) (rows : List Backup) (d new : Db) (b : Backup)
      → IsReady i v rows d
      → Admitted i v d.backups q nb balance used b new
      → Admitted i v rows q nb balance used b new
  Admitted-after v balance used rows d new b ready h =
      subst (λ x. Admitted i v x q nb balance used b new) ready.same_rows h

  IsReady-itself :
      (v : ℕ) (rows : List Backup) (d : Db) → IsReady i v rows d → IsReady i v d.backups d
  IsReady-itself v rows d r = record {
    chained = r.chained;
    same_rows = refl;
    above = r.above;
    counter = r.counter;
    known = r.known;
  }

  charged :
      {rows : List Backup} (v : ℕ) (ev : UsageEvent) (c : Conn)
      → IsReady i v rows c.db
      → Then (λ _. IsReady i v rows) (charge_tx i ev c)
  charged {rows} v ev c p =
      Ends-weaken U (λ _. IsReady i v rows) U (λ _. Quiet c.db) _
        (charge_tx-Quiet c.db i ev c (Quiet-refl c.db)) (λ _ _. tt)
        (λ _ new q. IsReady-Quiet i v rows c.db new q p)

  -- From a chained database, `CreateBackup` either fails and leaves every table as it was, or adds
  -- one row, owned by the account, with the next value of the account's counter for version, and with
  -- the path, size, checksum, metadata and parent that were asked for. The chain invariant holds again; the row is full with no parent, or a delta on the account's newest
  -- version. The account had room for another version, the quota let the bytes in (at the balance
  -- from before the call), and the server's cap, where there is one, is not passed.
  pub create_backup-Created :
      (c : Conn)
      → IsChained c.db
      → Ends (λ db. db ≡ c.db) (Created i q nb c.db) (create_backup fl i q pricer clock nb c)
  unfolding create_backup
  create_backup-Created c h =
      Ends-transaction (λ db. db ≡ c.db) (Created i q nb c.db) _ c refl
        λ c₀ t.
          Ends-bind U T (Created i q nb c.db) _ _
            (Ends-translate U T no_rows not_found (take_version i) c₀ tt λ r new e.
              let e' = subst (λ x. take_version i c₀.now x ≡ ok (r, new)) t e in
              let (a, found, v, balance) = take_version-account i c₀.now c.db new r e' in
              (take_version-IsReady i c₀.now c.db new r h e', (a, found, v, balance)))
            λ r c₁ (ready, (a, found, v, balance)).
              Ends-bind U
                (λ s db. IsReady i r.0 rows db × (s.0 ≡ sum_sizes (select (owned_by i) rows)))
                (Created i q nb c.db) _ _
                (settle_storage_tx-Then fl i pricer clock rows (IsReady i r.0 rows)
                  (λ db p. p.same_rows) (λ ev c' p. charged r.0 ev c' p)
                  (λ db p.
                    IsReady-Quiet i r.0 rows db (mark i clock db)
                      (marked-Quiet db i clock db (Quiet-refl db)) p)
                  c₁ ready)
                λ s c₂ (ready', used).
                  Ends-weaken U (Created i q nb c.db) U (Admitted i r.0 c₂.db.backups q nb r.1 s.0)
                    _
                    (admit_backup-Admitted fl i r.0 q nb r.1 s.0 c₂.db
                      (IsReady-itself r.0 rows c₂.db ready') c₂ refl)
                    (λ _ _. tt)
                    λ b new made. (
                      a,
                      found,
                      rw (v, balance, ← used)
                          (Admitted-after r.0 r.1 s.0 rows c₂.db new b ready' made),
                    )
    where
      rows : List Backup
      rows = c.db.backups

      T : ℕ × ℤ → Db → Type 0
      T r db =
          IsReady i r.0 c.db.backups db
          × ((a : Account) × (first (has_id i) c.db.accounts ≡ some a)
              × (a.backup_version_seq + 1 ≡ r.0)
              × (a.balance_microcredits ≡ r.1))
