-- ===== src/Store/Backups/Money.antt =====
-- deployables/backend/internal/store/backups.go: the backup transactions keep the ledger.
use aime.Store.Query.Rules.{Ends-and}
use aime.Store.Billing.{charge_tx}
use aime.Store.Schema.{UsageEvent}
use aime.Store.Billing.Charges.{Charged, charge_tx-Charged}
use aime.Base.{ℕ, ◌==◌, ◌≡◌, refl, sym, subst, ◌∙◌, true, not, leb, Option, none, some}
use aime.Base.Int.{ℤ, pos, ltb_ℤ}
use aime.Base.Float.{Float64}
use aime.Store.Schema.{Db}
use aime.Store.Query.{
  Conn, ok, no_rows, not_found, foreign_key_violation, backup_in_use, backup_stale, backup_limit,
  backup_boundary, storage_quota,
}
use aime.Store.Query.Rules.{
  Ends, Ends-bind, Ends-if, Ends-guard, Ends-check, Ends-rename, Ends-translate, Ends-transaction,
  Ends-weaken,
}
use aime.Store.Billing.{scan_sum, StoragePricer, settle_storage_tx}
use aime.Store.Billing.Settle.{
  Then, mark, settle_storage_tx-Then, scan_sum-value, lock_account-Then,
}
use aime.Store.Billing.Ledger.{Pays, Pays-refl, Pays-trans, mark-Pays, charge_tx-Pays}
use aime.Store.Backups.{
  NewBackup, Quota, is_backup, has_version, is_below, read_backup, take_version, count_and_head,
  over_quota, check_total_cap, check_parent, insert_backup, delete_row, delete_rows,
}
use aime.Store.Backups.Admit.{read_backup-row}
use aime.Store.Backups.Transactions.{
  admit_backup, create_backup, delete_backup, prune_backups, is_full,
}
use aime.Store.Backups.Books.{
  U, take_version-Pays, exec-Pays, reads, count_and_head-keeps, insert_backup-keeps,
  delete_rows-keeps, delete_row-keeps,
}

module _ (old : Db) (i : ℕ) where
  check_total_cap-Pays :
      (q : Quota) (size : ℤ) (c : Conn)
      → Pays old c.db
      → Then (λ _. Pays old) (check_total_cap q size c)
  unfolding check_total_cap
  check_total_cap-Pays q size c p =
      Ends-if U (λ _. Pays old) (ltb_ℤ (pos 0) q.total_cap_bytes) _ _ c
        (λ _.
          Ends-bind U (λ _. Pays old) (λ _. Pays old) _ _
            (exec-Pays old (scan_sum (λ b. true))
              (λ now db new n e.
                reads (scan_sum (λ b. true)) now db new n
                  (scan_sum-value (λ b. true) now db new n e).1)
              c p)
            λ n c' p'. Ends-check U (λ _. Pays old) _ _ c' tt (λ _. p'))
        (λ _. p)

  check_parent-Pays :
      (head : ℕ) (parent : Option ℕ) (c : Conn)
      → Pays old c.db
      → Then (λ _. Pays old) (check_parent i head parent c)
  unfolding check_parent
  check_parent-Pays head none c p = p
  check_parent-Pays head (some x) c p =
      Ends-bind U (λ _. Pays old) (λ _. Pays old) _ _
        (Ends-translate U (λ _. Pays old) no_rows not_found
          (read_backup (is_backup i x) (λ b. b.version)) c tt
          λ v new e.
            let (b, m, hit, v', t) =
              read_backup-row (is_backup i x) (λ b. b.version) c.now c.db new v e in
            subst (Pays old) t p)
        λ v c' p'. Ends-guard U (λ _. Pays old) (v == head) backup_stale _ c' tt (λ _. p')

  admit_backup-Pays :
      (fl : Float64) (q : Quota) (nb : NewBackup) (v : ℕ) (balance used : ℤ) (c : Conn)
      → Pays old c.db
      → Then (λ _. Pays old) (admit_backup fl i q nb v balance used c)
  unfolding admit_backup
  admit_backup-Pays fl q nb v balance used c p =
      Ends-bind U (λ _. Pays old) (λ _. Pays old) _ _
        (exec-Pays old (count_and_head i) (count_and_head-keeps i) c p)
        λ r c₁ p₁.
          Ends-guard U (λ _. Pays old) (not (leb q.max_versions r.0)) backup_limit _ c₁ tt
            λ _.
              Ends-guard U (λ _. Pays old) (not (over_quota q balance used nb.size_bytes))
                storage_quota _ c₁ tt
                λ _.
                  Ends-bind U (λ _. Pays old) (λ _. Pays old) _ _
                    (check_total_cap-Pays q nb.size_bytes c₁ p₁)
                    λ _ c₂ p₂.
                      Ends-bind U (λ _. Pays old) (λ _. Pays old) _ _
                        (check_parent-Pays r.1 nb.parent_id c₂ p₂)
                        λ k c₃ p₃.
                          Ends-rename U (λ _. Pays old) no_rows not_found _
                            (exec-Pays old (insert_backup i v k nb) (insert_backup-keeps i v k nb)
                              c₃ p₃)

  settled-Pays :
      (fl : Float64) (pricer : StoragePricer) (clock : ℤ) (c : Conn)
      → Pays old c.db
      → Then (λ _. Pays old) (settle_storage_tx fl i pricer clock c)
  settled-Pays fl pricer clock c p =
      Ends-weaken U (λ _. Pays old) U _ _
        (settle_storage_tx-Then fl i pricer clock c.db.backups
          (λ db. Pays old db × (db.backups ≡ c.db.backups)) (λ db q. q.1)
          (λ ev c' q. charged ev c' q)
          (λ db q. (Pays-trans old db (mark i clock db) q.0 (mark-Pays i clock db), q.1)) c
          (p, refl))
        (λ _ _. tt) (λ _ _ q. q.0.0)
    where
      P : Db → Type 0
      P db = Pays old db × (db.backups ≡ c.db.backups)

      charged : (ev : UsageEvent) (c' : Conn) → P c'.db → Then (λ _. P) (charge_tx i ev c')
      charged ev c' q =
          Ends-weaken U (λ _. P) U _ _
            (Ends-and U (λ _. Pays old) (Charged i ev c'.db) _ (charge_tx-Pays old i ev c' q.0)
              (charge_tx-Charged i ev c'))
            (λ _ _. tt) (λ _ _ (pays, charge). (pays, charge.rows ∙ q.1))

module _ (fl : Float64) (i : ℕ) (pricer : StoragePricer) (clock : ℤ) where
  create_backup-Pays :
      (q : Quota) (nb : NewBackup) (c : Conn)
      → Ends (Pays c.db) (λ _. Pays c.db) (create_backup fl i q pricer clock nb c)
  unfolding create_backup
  create_backup-Pays q nb c =
      Ends-transaction (Pays c.db) (λ _. Pays c.db) _ c (Pays-refl c.db)
        λ c₀ t.
          Ends-bind U (λ _. Pays c.db) (λ _. Pays c.db) _ _
            (Ends-translate U (λ _. Pays c.db) no_rows not_found (take_version i) c₀ tt
              λ r new e.
                take_version-Pays i c₀.now c.db new r
                  (subst (λ x. take_version i c₀.now x ≡ ok (r, new)) t e))
            λ r c₁ p₁.
              Ends-bind U (λ _. Pays c.db) (λ _. Pays c.db) _ _
                (settled-Pays c.db i fl pricer clock c₁ p₁)
                λ s c₂ p₂. admit_backup-Pays c.db i fl q nb r.0 r.1 s.0 c₂ p₂

  delete_backup-Pays :
      (id : ℕ) (c : Conn) → Ends (Pays c.db) (λ _. Pays c.db) (delete_backup fl i id pricer clock c)
  unfolding delete_backup
  delete_backup-Pays id c =
      Ends-transaction (Pays c.db) (λ _. Pays c.db) _ c (Pays-refl c.db)
        λ c₀ t.
          Ends-bind U (λ _. Pays c.db) (λ _. Pays c.db) _ _
            (lock_account-Then (Pays c.db) i c₀ (subst (Pays c.db) (sym t) (Pays-refl c.db)))
            λ _ c₁ p₁.
              Ends-bind U (λ _. Pays c.db) (λ _. Pays c.db) _ _
                (settled-Pays c.db i fl pricer clock c₁ p₁)
                λ _ c₂ p₂.
                  Ends-rename U (λ _. Pays c.db) foreign_key_violation backup_in_use _
                    (Ends-rename U (λ _. Pays c.db) no_rows not_found _
                      (exec-Pays c.db (delete_row (is_backup i id))
                        (delete_row-keeps (is_backup i id)) c₂ p₂))

  prune_backups-Pays :
      (n : ℕ) (c : Conn) → Ends (Pays c.db) (λ _. Pays c.db) (prune_backups fl i n pricer clock c)
  unfolding prune_backups
  prune_backups-Pays n c =
      Ends-transaction (Pays c.db) (λ _. Pays c.db) _ c (Pays-refl c.db)
        λ c₀ t.
          Ends-bind U (λ _. Pays c.db) (λ _. Pays c.db) _ _
            (lock_account-Then (Pays c.db) i c₀ (subst (Pays c.db) (sym t) (Pays-refl c.db)))
            λ _ c₁ p₁.
              Ends-bind U (λ _. Pays c.db) (λ _. Pays c.db) _ _
                (settled-Pays c.db i fl pricer clock c₁ p₁)
                λ _ c₂ p₂.
                  Ends-bind U (λ _. Pays c.db) (λ _. Pays c.db) _ _
                    (Ends-translate U (λ _. Pays c.db) no_rows not_found
                      (read_backup (has_version i n) (λ b. b.kind)) c₂ tt
                      λ k new e.
                        let (b, m, hit, k', t') =
                          read_backup-row (has_version i n) (λ b. b.kind) c₂.now c₂.db new k e in
                        subst (Pays c.db) t' p₂)
                    λ k c₃ p₃.
                      Ends-guard U (λ _. Pays c.db) (is_full k) backup_boundary _ c₃ tt
                        λ _.
                          exec-Pays c.db (delete_rows (is_below i n))
                            (delete_rows-keeps (is_below i n)) c₃ p₃

  -- Uploads, deletions and prunes settle the storage on their way and keep the ledger: for every
  -- account the balance falls by exactly what is booked against it, whether the call succeeds or
  -- fails.
  pub backup_transactions-Pays :
      (q : Quota) (nb : NewBackup) (id n : ℕ) (c : Conn)
      → Ends (Pays c.db) (λ _. Pays c.db) (create_backup fl i q pricer clock nb c)
        × Ends (Pays c.db) (λ _. Pays c.db) (delete_backup fl i id pricer clock c)
        × Ends (Pays c.db) (λ _. Pays c.db) (prune_backups fl i n pricer clock c)
  backup_transactions-Pays q nb id n c =
      (create_backup-Pays q nb c, delete_backup-Pays id c, prune_backups-Pays n c)
