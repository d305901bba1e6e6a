-- ===== src/Store/Backups/Succeeds.antt =====
-- deployables/backend/internal/store/backups.go: CreateBackup on a healthy connection.
use aime.Base.{
  ℕ, ◌+◌, ◌<◌, ◌^◌, ◌≡◌, refl, sym, ap, subst, ◌∙◌, ◌==◌, ==-refl, eq_of_==, &&-true, leb, ltb, not,
  true, false, Bool-cases, inl, inr, some, List, arith,
}
use aime.Base.Lists.{select, exists, update, length}
use aime.Base.Member.{first-some, exists-In}
use aime.Base.Int.{ℤ, pos, ◌+ℤ◌, ltb_ℤ, int64, fits_bigint}
use aime.Base.Float.{Float64}
use aime.Store.Schema.{Account, Backup, Db}
use aime.Store.Query.{
  Conn, exec, guard, translate, no_rows, not_found, storage_quota, backup_limit, ◌>>=◌, ◌>>◌,
}
use aime.Store.Query.Rules.{IsHealthy}
use aime.Store.Query.Completes.{
  Completes, Completes-exec, Completes-bind, Completes-rename, Completes-guard,
  Completes-transaction, Completes-Ends,
}
use aime.Store.Billing.{
  has_id, owned_by, sum_sizes, account_exists, StoragePricer, settle_storage_tx,
}
use aime.Store.Billing.Ledger.{account, first-update}
use aime.Store.Billing.Succeeds.{CanSettle, Known, settle_storage_tx-Completes}
use aime.Store.Backups.{
  NewBackup, Quota, has_version, take_version, count_and_head, max_version, over_quota,
  check_total_cap, check_parent, insert_backup,
}
use aime.Store.Backups.Transactions.{admit_backup, create_backup}
use aime.Store.Backups.Chain.{IsChained}
use aime.Store.Backups.Created.{Created, create_backup-Created}
use aime.Store.Backups.Allowed.{
  CanCreate, On, check_total_cap-Completes, IsBase, check_parent-Completes, insert_backup-Completes,
}

module _ (fl : Float64) (i : ℕ) (q : Quota) (pricer : StoragePricer) (clock : ℤ)
    (nb : NewBackup) where
  -- The counter is above every version of the account.
  version_is_free :
      (db : Db) (a : Account)
      → IsChained db
      → account i db ≡ some a
      → exists (has_version i (a.backup_version_seq + 1)) db.backups ≡ false
  version_is_free db a chained found =
      elim (Bool-cases (exists (has_version i (a.backup_version_seq + 1)) db.backups)) [
        | inl e ↦
            let (b, member, is_it) =
              exists-In (has_version i (a.backup_version_seq + 1)) db.backups e in
            let (owner, version) = &&-true (b.account_id == i) _ is_it in
            let (known, right_id) = first-some (has_id i) a db.accounts found in
            let below =
              chained.counted a b known member
                (eq_of_== b.account_id i owner ∙ sym (eq_of_== a.id i right_id)) in
            let at = eq_of_== b.version (a.backup_version_seq + 1) version in
            absurd (omega (arith, below, at))
        | inr e ↦ e
      ]

  -- The tables with the counter moved.
  abbrev counted : Db → Db
  counted db = record db {
    accounts =
        update (has_id i) (λ x. record x { backup_version_seq = x.backup_version_seq + 1 })
          db.accounts;
  }

  admit_backup-Completes :
      (v : ℕ) (balance used : ℤ) (rows : List Backup) (c : Conn)
      → IsHealthy c
      → On i rows c
      → length (select (owned_by i) rows) < q.max_versions
      → over_quota q balance used nb.size_bytes ≡ false
      → (ltb_ℤ (pos 0) q.total_cap_bytes ≡ true
          → (fits_bigint (sum_sizes (select (λ b. true) rows)) ≡ true)
            × (ltb_ℤ q.total_cap_bytes
                  (int64 (sum_sizes (select (λ b. true) rows) +ℤ nb.size_bytes))
                ≡ false))
      → IsBase i rows nb.parent_id
      → exists (has_version i v) rows ≡ false
      → Completes (λ _ _. Unit {0}) (admit_backup fl i q nb v balance used c)
  unfolding admit_backup count_and_head
  admit_backup-Completes v balance used rows c h (known, same) room quota limit base free =
      Completes-bind
        (λ r c'.
          (r ≡ (length (select (owned_by i) rows), max_version (select (owned_by i) rows)))
          × On i rows c')
        T _ _
        (Completes-exec _ _ c (length mine, max_version mine) c.db h (rw same refl)
          λ c' d n. (refl, (ap (account_exists i) d ∙ known, ap (λ db. db.backups) d ∙ same)))
        λ r c₁ h₁ (value, on₁). behind r c₁ h₁ value on₁
    where
      T : Backup → Conn → Type 0
      T _ _ = Unit {0}

      mine : List Backup
      mine = select (owned_by i) rows

      roomy : (n m : ℕ) → n < m → not (leb m n) ≡ true
      roomy n m l = ground arith

      behind :
          (r : ℕ × ℕ) (c₁ : Conn)
          → IsHealthy c₁
          → r ≡ (length mine, max_version mine)
          → On i rows c₁
          → Completes T (
              (guard (not (leb q.max_versions r.0)) backup_limit
                  >> (guard (not (over_quota q balance used nb.size_bytes)) storage_quota
                      >> (check_total_cap q nb.size_bytes
                          >> (check_parent i r.1 nb.parent_id >>= λ kind.
                              translate no_rows not_found (exec (insert_backup i v kind nb))))))
                c₁)
      behind r c₁ h₁ value on₁ = rw value (
          Completes-guard T _ backup_limit _ c₁ (roomy (length mine) q.max_versions room) (
            Completes-guard T (not (over_quota q balance used nb.size_bytes)) storage_quota _ c₁
              (ap not quota)
              (Completes-bind (λ _. On i rows) T _ _
                (check_total_cap-Completes i rows q nb.size_bytes c₁ h₁ on₁ limit)
                λ _ c₂ h₂ on₂.
                  Completes-bind (λ _. On i rows) T _ _
                    (check_parent-Completes i rows nb.parent_id c₂ h₂ on₂ base)
                    λ kind c₃ h₃ on₃.
                      Completes-rename T no_rows not_found _
                        (insert_backup-Completes i rows v kind nb c₃ h₃ on₃ base free))))

  counted-CanSettle :
      (db : Db) (a : Account)
      → CanSettle fl i pricer clock db a
      → CanSettle fl i pricer clock
          (counted db)
          (record a { backup_version_seq = a.backup_version_seq + 1 })
  counted-CanSettle db a can = record {
    found =
        rw
          (
            first-update i i (λ x. record x { backup_version_seq = x.backup_version_seq + 1 })
                db.accounts (λ _. refl) a can.found,
            ==-refl i,
          )
          refl;
    sum_fits = can.sum_fits;
    payable = can.payable;
  }

  take_version-Completes :
      (a : Account) (c : Conn)
      → IsHealthy c
      → account i c.db ≡ some a
      → a.backup_version_seq + 1 < 2 ^ 31
      → Completes
          (λ r c'.
            (r ≡ (a.backup_version_seq + 1, a.balance_microcredits)) × (c'.db ≡ counted c.db))
          (exec (take_version i) c)
  unfolding take_version
  take_version-Completes a c h found below =
      Completes-exec _ _ c (a.backup_version_seq + 1, a.balance_microcredits) (counted c.db) h
        (rw (found, take_version, in_range (a.backup_version_seq + 1) below) refl)
        (λ c' d n. (refl, d))
    where
      in_range : (n : ℕ) → n < 2 ^ 31 → ltb n (2 ^ 31) ≡ true
      in_range n l = ground arith

  create_backup-Completes :
      (c : Conn)
      → IsHealthy c
      → IsChained c.db
      → CanCreate fl i q pricer clock nb c.db
      → Completes (λ _ _. Unit {0}) (create_backup fl i q pricer clock nb c)
  unfolding create_backup
  create_backup-Completes c h chained can =
      Completes-transaction T _ c h (λ _ _ _ _ _. tt)
        λ c₀ h₀ d₀ n₀.
          Completes-bind
            (λ r c'.
              (r ≡ (a.backup_version_seq + 1, a.balance_microcredits)) × (c'.db ≡ counted c.db))
            T _ _
            (Completes-rename _ no_rows not_found _ (
              subst
                (λ d.
                  Completes
                    (λ r c'.
                      (r ≡ (a.backup_version_seq + 1, a.balance_microcredits))
                      × (c'.db ≡ counted d))
                    (exec (take_version i) c₀))
                d₀
                (take_version-Completes a c₀ h₀ (ap (account i) d₀ ∙ can.settles.found)
                  can.counter)))
            λ r c₁ h₁ (value, d₁).
              Completes-bind (λ (p : ℤ × ℤ) c'. (p.0 ≡ total) × Known i c₁ c') T _ _
                (subst
                  (λ n.
                    Completes (λ (p : ℤ × ℤ) c'. (p.0 ≡ n) × Known i c₁ c')
                      (settle_storage_tx fl i pricer clock c₁))
                  (ap (λ db. sum_sizes (select (owned_by i) db.backups)) d₁)
                  (settle_storage_tx-Completes fl i pricer clock
                    (record a { backup_version_seq = a.backup_version_seq + 1 }) c₁ h₁
                    (subst
                      (λ d.
                        CanSettle fl i pricer clock d
                          (record a { backup_version_seq = a.backup_version_seq + 1 }))
                      (sym d₁) (counted-CanSettle c.db a can.settles))))
                λ p c₂ h₂ (sum, (known, rows, n₂)).
                  admit r p c₂ h₂ value sum known (rows ∙ ap (λ db. db.backups) d₁)
    where
      T : Backup → Conn → Type 0
      T _ _ = Unit {0}

      a : Account
      a = can.a

      total : ℤ
      total = sum_sizes (select (owned_by i) c.db.backups)

      admit :
          (r : ℕ × ℤ) (p : ℤ × ℤ) (c₂ : Conn)
          → IsHealthy c₂
          → r ≡ (a.backup_version_seq + 1, a.balance_microcredits)
          → p.0 ≡ total
          → account_exists i c₂.db ≡ true
          → c₂.db.backups ≡ c.db.backups
          → Completes T (admit_backup fl i q nb r.0 r.1 p.0 c₂)
      admit r p c₂ h₂ value sum known rows =
          rw (value, sum)
            (admit_backup-Completes (a.backup_version_seq + 1) a.balance_microcredits total
              c.db.backups c₂ h₂ (known, rows) can.room can.quota can.cap can.parent
              (version_is_free c.db a chained can.settles.found))

  -- On a connection that fails no statement, and from a chained database, an upload that its account
  -- and the limits allow succeeds, and the backup is created: the account is there, with room for one
  -- more version and its counter in range, what it owes for storage is payable and the sums fit their
  -- columns, the quota and the server's cap let the bytes in, and there is no parent or the parent is
  -- the account's newest version.
  pub create_backup_succeeds :
      (c : Conn)
      → IsHealthy c
      → IsChained c.db
      → CanCreate fl i q pricer clock nb c.db
      → Completes (λ b c'. Created i q nb c.db b c'.db) (create_backup fl i q pricer clock nb c)
  create_backup_succeeds c h chained can =
      Completes-Ends (λ db. db ≡ c.db) (Created i q nb c.db) (λ _ _. Unit {0}) _
        (create_backup-Created fl i q pricer clock nb c chained)
        (create_backup-Completes c h chained can)
