-- ===== src/Store/Backups/Allowed.antt =====
-- deployables/backend/internal/store/backups.go: what an upload needs to be admitted, and the steps
-- of CreateBackup behind the settlement on a healthy connection.
use aime.Base.{
  ℕ, suc, ◌+◌, ◌<◌, ◌^◌, ◌≡◌, refl, ap, ◌∙◌, ◌==◌, ==-refl, not, Bool, true, false, Bool-cases, inl,
  inr, ◌⊎◌, Option, none, some, List, ◌∷◌,
}
use aime.Base.Lists.{select, first, exists, length}
use aime.Base.Member.{first-some, In-exists}
use aime.Base.Int.{ℤ, pos, ◌+ℤ◌, ltb_ℤ, int64, fits_bigint}
use aime.Base.Float.{Float64}
use aime.Store.Schema.{Account, Backup, BackupKind, delta, Db}
use aime.Store.Query.{Conn, ok, exec, guard, pure, no_rows, not_found, storage_full, backup_stale}
use aime.Store.Query.Rules.{IsHealthy}
use aime.Store.Query.Completes.{
  Completes, Completes-exec, Completes-bind, Completes-rename, Completes-guard,
}
use aime.Store.Billing.{owned_by, sum_sizes, scan_sum, account_exists, StoragePricer}
use aime.Store.Billing.Succeeds.{CanSettle}
use aime.Store.Backups.{
  NewBackup, Quota, is_backup, has_version, max_version, over_quota, check_total_cap, check_parent,
  insert_backup, parent_exists, read_backup,
}

-- What an upload needs of its account and of the limits.
pub record CanCreate (fl : Float64) (i : ℕ) (q : Quota) (pricer : StoragePricer) (clock : ℤ)
    (nb : NewBackup) (db : Db) : Type 0 where
  pub a : Account
  pub settles : CanSettle fl i pricer clock db a
  pub counter : a.backup_version_seq + 1 < 2 ^ 31
  pub room : length (select (owned_by i) db.backups) < q.max_versions
  pub quota :
      over_quota q a.balance_microcredits (sum_sizes (select (owned_by i) db.backups)) nb.size_bytes
      ≡ false
  pub cap :
      ltb_ℤ (pos 0) q.total_cap_bytes ≡ true
      → (fits_bigint (sum_sizes (select (λ b. true) db.backups)) ≡ true)
        × (ltb_ℤ q.total_cap_bytes
              (int64 (sum_sizes (select (λ b. true) db.backups) +ℤ nb.size_bytes))
            ≡ false)
  pub parent :
      (nb.parent_id ≡ none)
      ⊎ ((x : Backup) × (nb.parent_id ≡ some x.id)
          × (first (is_backup i x.id) db.backups ≡ some x)
          × (x.version ≡ max_version (select (owned_by i) db.backups)))

pub read_backup-found :
    {A : Type 0} (p : Backup → Bool) (f : Backup → A) (now : ℤ) (db : Db) (x : Backup)
    → first p db.backups ≡ some x
    → read_backup p f now db ≡ ok (f x, db)
read_backup-found p f now db x e = rw (e, read_backup) refl

module _ (i : ℕ) (rows : List Backup) where
  -- The tables that the steps behind the settlement work on.
  abbrev pub On : Conn → Type 0
  On c = (account_exists i c.db ≡ true) × (c.db.backups ≡ rows)

  pub check_total_cap-Completes :
      (q : Quota) (size : ℤ) (c : Conn)
      → IsHealthy c
      → On c
      → (ltb_ℤ (pos 0) q.total_cap_bytes ≡ true
          → (fits_bigint (sum_sizes (select (λ b. true) rows)) ≡ true)
            × (ltb_ℤ q.total_cap_bytes (int64 (sum_sizes (select (λ b. true) rows) +ℤ size))
                ≡ false))
      → Completes (λ _. On) (check_total_cap q size c)
  unfolding check_total_cap scan_sum
  check_total_cap-Completes q size c h (known, same) limit =
      elim (Bool-cases (ltb_ℤ (pos 0) q.total_cap_bytes)) [
        | inl e ↦ rw e (
            Completes-bind (λ t c'. (t ≡ total) × On c') (λ _. On) _ _
              (Completes-exec _ _ c total c.db h (rw (same, (limit e).0) refl)
                λ c' d n. (refl, (ap (account_exists i) d ∙ known, ap (λ db. db.backups) d ∙ same)))
              λ t c' h' (sum, on). within t c' h' sum on (limit e).1)
        | inr e ↦ rw e (record { good = (h, (known, same)) })
      ]
    where
      total : ℤ
      total = sum_sizes (select (λ b. true) rows)

      within :
          (t : ℤ) (c' : Conn)
          → IsHealthy c'
          → t ≡ total
          → On c'
          → ltb_ℤ q.total_cap_bytes (int64 (total +ℤ size)) ≡ false
          → Completes
              (λ _. On)
              (guard (not (ltb_ℤ q.total_cap_bytes (int64 (t +ℤ size)))) storage_full c')
      within t c' h' sum on e = rw (sum, e) (record { good = (h', on) })

  -- What a row may build on.
  abbrev pub IsBase : Option ℕ → Type 0
  IsBase parent =
      (parent ≡ none)
      ⊎ ((x : Backup) × (parent ≡ some x.id)
          × (first (is_backup i x.id) rows ≡ some x)
          × (x.version ≡ max_version (select (owned_by i) rows)))

  pub check_parent-Completes :
      (parent : Option ℕ) (c : Conn)
      → IsHealthy c
      → On c
      → IsBase parent
      → Completes (λ _. On) (check_parent i (max_version (select (owned_by i) rows)) parent c)
  unfolding check_parent
  check_parent-Completes parent c h on (inl e) = rw e (record { good = (h, on) })
  check_parent-Completes parent c h (known, same) (inr (x, e, found, newest)) = rw e (
      Completes-bind (λ v c'. (v ≡ x.version) × On c') (λ _. On) _ _
        (Completes-rename (λ v c'. (v ≡ x.version) × On c') no_rows not_found _
          (Completes-exec _ _ c x.version c.db h
            (read_backup-found (is_backup i x.id) (λ b. b.version) c.now c.db x
              (ap (first (is_backup i x.id)) same ∙ found))
            λ c' d n. (refl, (ap (account_exists i) d ∙ known, ap (λ db. db.backups) d ∙ same))))
        λ v c' h' (version, on).
          Completes-guard (λ _. On) _ backup_stale (pure delta) c'
            (rw (version, newest) (==-refl (max_version (select (owned_by i) rows))))
            (record { good = (h', on) }))

  pub parent_is_there :
      (parent : Option ℕ) (db : Db)
      → db.backups ≡ rows
      → IsBase parent
      → parent_exists parent db ≡ true
  unfolding parent_exists
  parent_is_there parent db same (inl e) = rw e refl
  parent_is_there parent db same (inr (x, e, found, newest)) =
      let (member, is_it) = first-some (is_backup i x.id) x rows found in
      rw (e, same) (In-exists (λ y. y.id == x.id) x rows member (==-refl x.id))

  pub insert_backup-Completes :
      (v : ℕ) (kind : BackupKind) (nb : NewBackup) (c : Conn)
      → IsHealthy c
      → On c
      → IsBase nb.parent_id
      → exists (has_version i v) rows ≡ false
      → Completes (λ _ _. Unit {0}) (exec (insert_backup i v kind nb) c)
  unfolding insert_backup
  insert_backup-Completes v kind nb c h (known, same) base free =
      Completes-exec _ _ c row
        (record c.db { backups = row ∷ c.db.backups; next_backup = suc c.db.next_backup }) h
        (rw
          (
            ap (exists (has_version i v)) same ∙ free,
            known,
            parent_is_there nb.parent_id c.db same base,
          )
          refl)
        (λ _ _ _. tt)
    where
      row : Backup
      row = record {
        id = c.db.next_backup;
        account_id = i;
        version = v;
        kind = kind;
        parent_id = nb.parent_id;
        storage_path = nb.storage_path;
        size_bytes = nb.size_bytes;
        checksum = nb.checksum;
        meta = nb.meta;
        created_at = c.now;
      }
