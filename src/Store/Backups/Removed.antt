-- ===== src/Store/Backups/Removed.antt =====
-- deployables/backend/internal/store/backups.go: `DeleteBackup` and `PruneBackups` as a whole.
use aime.Base.{
  ℕ, ◌≡◌, refl, sym, ap, subst, ◌∙◌, ◌==◌, Bool, true, false, Option-cases, some, List, arith,
  eq_of_==, &&-true,
}
use aime.Base.Lists.{select, delete, first, exists}
use aime.Base.Member.{In, first-some}
use aime.Base.Int.{ℤ}
use aime.Base.Float.{Float64}
use aime.Store.Schema.{Backup, BackupKind, full, UsageEvent, Db}
use aime.Store.Query.{
  Conn, ok, no_rows, not_found, foreign_key_violation, backup_boundary, backup_in_use,
}
use aime.Store.Query.Rules.{
  Ends, Ends-bind, Ends-exec, Ends-guard, Ends-translate, Ends-rename, Ends-transaction,
  Ends-weaken,
}
use aime.Store.Billing.{StoragePricer, charge_tx, settle_storage_tx}
use aime.Store.Billing.Settle.{Then, mark, settle_storage_tx-Then, lock_account-Then}
use aime.Store.Backups.{
  is_backup, has_version, is_below, is_orphan, delete_row, delete_rows, read_backup,
}
use aime.Store.Backups.Transactions.{delete_backup, prune_backups, is_full}
use aime.Store.Backups.Chain.{
  IsChained, Quiet, Quiet-refl, IsChained-Quiet, charge_tx-Quiet, marked-Quiet,
}
use aime.Store.Backups.Admit.{read_backup-row}
use aime.Store.Backups.Remove.{kept, kept-IsChained, delete_rows-value}

-- What `DeleteBackup` and `PruneBackups` share: the tables at the deletion, after the settlement.
abbrev U : Db → Type 0
U _ = Unit {0}

module _ (fl : Float64) (i : ℕ) (pricer : StoragePricer) (clock : ℤ) where
  pub settled-Then :
      (old : Db) (c : Conn)
      → IsChained old
      → c.db ≡ old
      → Then
          (λ _ db. IsChained db × (db.backups ≡ old.backups))
          (settle_storage_tx fl i pricer clock c)
  settled-Then old c h t =
      Ends-weaken U (λ _ db. IsChained db × (db.backups ≡ old.backups)) U _ _
        (settle_storage_tx-Then fl i pricer clock old.backups P (λ db p. p.1) charged
          (λ db p. quiet db (mark i clock db) (marked-Quiet db i clock db (Quiet-refl db)) p) c
          (subst IsChained (sym t) h, ap (λ x. x.backups) t))
        (λ _ _. tt) (λ _ _ r. r.0)
    where
      P : Db → Type 0
      P db = IsChained db × (db.backups ≡ old.backups)

      quiet : (d e : Db) → Quiet d e → P d → P e
      quiet d e q (g, same) = (IsChained-Quiet d e q g, q.rows ∙ same)

      charged : (ev : UsageEvent) (c : Conn) → P c.db → Then (λ _. P) (charge_tx i ev c)
      charged ev c p =
          Ends-weaken U (λ _. P) U (λ _. Quiet c.db) _
            (charge_tx-Quiet c.db i ev c (Quiet-refl c.db)) (λ _ _. tt)
            (λ _ new q. quiet c.db new q p)

  -- What a deletion answers, and the tables behind it.
  abbrev pub Deleted : ℕ → Db → Backup → Db → Type 0
  Deleted id old b new =
      IsChained new
      × (In b old.backups × (b.id ≡ id) × (b.account_id ≡ i))
      × (new.backups ≡ kept (is_backup i id) old)

  delete_row-value :
      (p : Backup → Bool) (now : ℤ) (db new : Db) (b : Backup)
      → delete_row p now db ≡ ok (b, new)
      → (first p db.backups ≡ some b)
        × (exists (is_orphan (kept p db)) (kept p db) ≡ false)
        × (record db { backups = kept p db } ≡ new)
  unfolding delete_row
  delete_row-value p now db new b h = ground (arith, Option-cases (first p db.backups))

  -- From a chained database, `DeleteBackup` either fails and leaves every table as it was, or
  -- answers the row of that id in that account and deletes just it; the chain invariant holds
  -- again, so no delta has lost its parent.
  pub delete_backup-Deleted :
      (id : ℕ) (c : Conn)
      → IsChained c.db
      → Ends (λ db. db ≡ c.db) (Deleted id c.db) (delete_backup fl i id pricer clock c)
  unfolding delete_backup
  delete_backup-Deleted id c h =
      Ends-transaction (λ db. db ≡ c.db) (Deleted id c.db) _ c refl
        λ c₀ t.
          Ends-bind U (λ _ db. db ≡ c.db) (Deleted id c.db) _ _
            (lock_account-Then (λ db. db ≡ c.db) i c₀ t)
            λ _ c₁ t₁.
              Ends-bind U (λ _ db. IsChained db × (db.backups ≡ c.db.backups)) (Deleted id c.db) _ _
                (settled-Then c.db c₁ h t₁)
                λ _ c₂ (g, same).
                  Ends-rename U (Deleted id c.db) foreign_key_violation backup_in_use _ (
                    Ends-translate U (Deleted id c.db) no_rows not_found
                      (delete_row (is_backup i id)) c₂ tt
                      λ b new e.
                        let (found, closed, made) =
                          delete_row-value (is_backup i id) c₂.now c₂.db new b e in
                        let (m, hit) = first-some (is_backup i id) b c₂.db.backups found in
                        let (ids, owner) = &&-true (b.id == id) (b.account_id == i) hit in
                        (
                          subst IsChained made (kept-IsChained (is_backup i id) c₂.db g closed),
                          (rw same at m, eq_of_== b.id id ids, eq_of_== b.account_id i owner),
                          ap (λ x. x.backups) (sym made) ∙ ap (delete (is_backup i id)) same,
                        ))

  -- What a prune answers, and the tables behind it.
  abbrev pub Pruned : ℕ → Db → List Backup → Db → Type 0
  Pruned n old out new =
      ((f : Backup) × In f old.backups × (f.account_id ≡ i) × (f.version ≡ n) × (f.kind ≡ full))
      × IsChained new
      × (new.backups ≡ kept (is_below i n) old)
      × (out ≡ select (is_below i n) old.backups)

  full_of_is_full : (k : BackupKind) → is_full k ≡ true → k ≡ full
  full_of_is_full k h = ground arith

  -- From a chained database, `PruneBackups` either fails and leaves every table as it was, or the
  -- given version is a full backup of the account; then it answers the account's rows below that
  -- version, deletes just those, and the chain invariant holds again.
  pub prune_backups-Pruned :
      (n : ℕ) (c : Conn)
      → IsChained c.db
      → Ends (λ db. db ≡ c.db) (Pruned n c.db) (prune_backups fl i n pricer clock c)
  unfolding prune_backups
  prune_backups-Pruned n c h =
      Ends-transaction (λ db. db ≡ c.db) (Pruned n c.db) _ c refl
        λ c₀ t.
          Ends-bind U (λ _ db. db ≡ c.db) (Pruned n c.db) _ _
            (lock_account-Then (λ db. db ≡ c.db) i c₀ t)
            λ _ c₁ t₁.
              Ends-bind U (λ _ db. Same db) (Pruned n c.db) _ _ (settled-Then c.db c₁ h t₁)
                λ _ c₂ (g, same).
                  Ends-bind U (λ k db. Row k × Same db) (Pruned n c.db) _ _
                    (Ends-translate U (λ k db. Row k × Same db) no_rows not_found
                      (read_backup (has_version i n) (λ b. b.kind)) c₂ tt
                      λ k new e.
                        let (f, m, hit, fk, t₂) =
                          read_backup-row (has_version i n) (λ b. b.kind) c₂.now c₂.db new k e in
                        let (owner, version) = &&-true (f.account_id == i) (f.version == n) hit in
                        (
                          (
                            f,
                            rw same at m,
                            eq_of_== f.account_id i owner,
                            eq_of_== f.version n version,
                            fk,
                          ),
                          subst Same t₂ (g, same),
                        ))
                    λ k c₃ ((f, m, owner, version, fk), (g₃, same₃)).
                      Ends-guard U (Pruned n c.db) (is_full k) backup_boundary _ c₃ tt λ e.
                        Ends-exec U (Pruned n c.db) (delete_rows (is_below i n)) c₃ tt λ out new d.
                          let (closed, taken, made) =
                            delete_rows-value (is_below i n) c₃.now c₃.db new out d in
                          (
                            (f, m, owner, version, fk ∙ full_of_is_full k e),
                            subst IsChained made (kept-IsChained (is_below i n) c₃.db g₃ closed),
                            ap (λ x. x.backups) (sym made) ∙ ap (delete (is_below i n)) same₃,
                            sym taken ∙ ap (select (is_below i n)) same₃,
                          )
    where
      Same : Db → Type 0
      Same db = IsChained db × (db.backups ≡ c.db.backups)

      Row : BackupKind → Type 0
      Row k = (f : Backup) × In f c.db.backups × (f.account_id ≡ i) × (f.version ≡ n) × (f.kind ≡ k)
