-- ===== src/Store/Billing/Succeeds.antt =====
-- deployables/backend/internal/store/billing.go: charges and settlements on a healthy connection.
use aime.Base.{
  ℕ, suc, ◌≡◌, refl, sym, ap, subst, ◌∙◌, ◌&&◌, ◌==◌, true, Bool-cases, inl, inr, Option, none,
  some, List, [], ◌∷◌, arith,
}
use aime.Base.Lists.{select, first, exists, update}
use aime.Base.Int.{ℤ, pos, ◌-ℤ◌, ltb_ℤ, saturate, fits_bigint, fits_integer}
use aime.Base.Float.{Float64}
use aime.Store.Schema.{Account, UsageEvent, Db}
use aime.Store.Query.{Conn, Result, ok, err, exec, pure}
use aime.Store.Query.Rules.{IsHealthy}
use aime.Store.Query.Completes.{Completes, Completes-exec, Completes-bind}
use aime.Store.Billing.{
  has_id, owned_by, sum_sizes, account_exists, read_account, set_balance, insert_usage, charge_tx,
  scan_sum, StoragePricer, storage_event, charge_elapsed, set_billed_at, settle_storage_tx,
}
use aime.Base.Member.{first-some, In-exists}
use aime.Store.Billing.Ledger.{account, first-update}

update_known :
    (i : ℕ) (f : Account → Account) (rows : List Account) (a : Account)
    → ((x : Account) → (f x).id ≡ x.id)
    → first (has_id i) rows ≡ some a
    → exists (has_id i) (update (has_id i) f rows) ≡ true
update_known i f rows a same h =
    let (member, is_it) = first-some (has_id i) _ _ (first-update i i f rows same a h) in
    In-exists (has_id i) _ _ member is_it

-- A charge that the columns can hold.
abbrev pub Payable : Account → UsageEvent → Type 0
Payable a ev =
    (fits_bigint (a.balance_microcredits -ℤ ev.cost_microcredits) ≡ true)
    × (fits_integer ev.quantity && fits_bigint ev.cost_microcredits ≡ true)

-- The account is still there, and no backup has changed.
abbrev pub Known : ℕ → Conn → Conn → Type 0
Known i c c' = (account_exists i c'.db ≡ true) × (c'.db.backups ≡ c.db.backups) × (c'.now ≡ c.now)

module _ (i : ℕ) (ev : UsageEvent) where
  set_balance-Completes :
      (a : Account) (c : Conn)
      → IsHealthy c
      → account i c.db ≡ some a
      → fits_bigint (a.balance_microcredits -ℤ ev.cost_microcredits) ≡ true
      → Completes (λ _. Known i c) (exec (set_balance i (λ x. x -ℤ ev.cost_microcredits)) c)
  unfolding set_balance
  set_balance-Completes a c h found fits =
      Completes-exec _ _ c (a.balance_microcredits -ℤ ev.cost_microcredits)
        (record c.db {
          accounts =
              update (has_id i)
                (λ x. record x {
                  balance_microcredits = x.balance_microcredits -ℤ ev.cost_microcredits;
                })
                c.db.accounts;
        })
        h (rw (found, fits, set_balance) refl)
        λ c' d n. (
          ap (account_exists i) d ∙ update_known i _ c.db.accounts a (λ _. refl) found,
          ap (λ db. db.backups) d,
          n,
        )

  insert_usage-Completes :
      (c : Conn)
      → IsHealthy c
      → account_exists i c.db ≡ true
      → fits_integer ev.quantity && fits_bigint ev.cost_microcredits ≡ true
      → Completes (λ _. Known i c) (exec (insert_usage i ev) c)
  unfolding insert_usage
  insert_usage-Completes c h known fits =
      Completes-exec _ _ c tt
        (record c.db {
          usage_events =
              record { id = c.db.next_usage; account_id = i; event = ev; created_at = c.now }
              ∷ c.db.usage_events;
          next_usage = suc c.db.next_usage;
        })
        h (rw (fits, known) refl)
        λ c' d n. (ap (account_exists i) d ∙ known, ap (λ db. db.backups) d, n)

  pub charge_tx-Completes :
      (a : Account) (c : Conn)
      → IsHealthy c
      → account i c.db ≡ some a
      → Payable a ev
      → Completes (λ _. Known i c) (charge_tx i ev c)
  unfolding charge_tx
  charge_tx-Completes a c h found (fits, fields) =
      Completes-bind (λ _. Known i c) (λ _. Known i c) _ _ (set_balance-Completes a c h found fits)
        λ b c₁ h₁ (known, rows, n₁).
          Completes-bind (λ _. Known i c₁) (λ _. Known i c) _ _
            (insert_usage-Completes c₁ h₁ known fields)
            λ _ c₂ h₂ (known', rows', n₂). record { good = (h₂, (known', rows' ∙ rows, n₂ ∙ n₁)) }

-- What a settlement needs of the account: the bytes add up to an int64, and what is owed, if
-- anything, is payable.
pub record CanSettle (fl : Float64) (i : ℕ) (pricer : StoragePricer) (now : ℤ) (db : Db)
    (a : Account) : Type 0 where
  pub found : account i db ≡ some a
  pub sum_fits : fits_bigint (sum_sizes (select (owned_by i) db.backups)) ≡ true
  pub payable :
      (at : ℤ)
      → a.storage_billed_at ≡ some at
      → let used = sum_sizes (select (owned_by i) db.backups) in
        let elapsed = saturate (now -ℤ at) in
        ltb_ℤ (pos 0) (pricer used elapsed) ≡ true
        → Payable a (storage_event fl used elapsed (pricer used elapsed))

module _ (fl : Float64) (i : ℕ) (pricer : StoragePricer) (now : ℤ) where
  charge_elapsed-Completes :
      (used : ℤ) (at : Option ℤ) (a : Account) (c : Conn)
      → IsHealthy c
      → account i c.db ≡ some a
      → ((t : ℤ)
          → at ≡ some t
          → ltb_ℤ (pos 0) (pricer used (saturate (now -ℤ t))) ≡ true
          → Payable a
              (storage_event fl used (saturate (now -ℤ t)) (pricer used (saturate (now -ℤ t)))))
      → account_exists i c.db ≡ true
      → Completes (λ _. Known i c) (charge_elapsed fl i pricer now used at c)
  unfolding charge_elapsed
  charge_elapsed-Completes used none a c h found payable known = record {
    good = (h, (known, refl, refl));
  }
  charge_elapsed-Completes used (some t) a c h found payable known =
      elim (Bool-cases (ltb_ℤ (pos 0) cost)) [
        | inl e ↦ rw e (
            Completes-bind (λ _. Known i c) (λ _. Known i c) (λ _. pure cost) _
              (charge_tx-Completes i ev a c h found (payable t refl e))
              λ _ c' h' k. record { good = (h', k) })
        | inr e ↦ rw e (record { good = (h, (known, refl, refl)) })
      ]
    where
      cost : ℤ
      cost = pricer used (saturate (now -ℤ t))

      ev : UsageEvent
      ev = storage_event fl used (saturate (now -ℤ t)) cost

  exists_found : (db : Db) (a : Account) → account i db ≡ some a → account_exists i db ≡ true
  exists_found db a found =
      let (member, is_it) = first-some (has_id i) a db.accounts found in
      In-exists (has_id i) a db.accounts member is_it

  pub settle_storage_tx-Completes :
      (a : Account) (c : Conn)
      → IsHealthy c
      → CanSettle fl i pricer now c.db a
      → Completes
          (λ (p : ℤ × ℤ) c'. (p.0 ≡ sum_sizes (select (owned_by i) c.db.backups)) × Known i c c')
          (settle_storage_tx fl i pricer now c)
  unfolding settle_storage_tx scan_sum set_billed_at
  settle_storage_tx-Completes a c h can =
      Completes-bind (λ at c'. (at ≡ a.storage_billed_at) × (c'.db ≡ c.db) × (c'.now ≡ c.now)) Q _ _
        (Completes-exec _ _ c a.storage_billed_at c.db h (rw (can.found, read_account) refl)
          λ _ d n. (refl, d, n))
        λ at c₁ h₁ (at_mark, d₁, n₁).
          Completes-bind (λ used c'. (used ≡ total) × (c'.db ≡ c.db) × (c'.now ≡ c.now)) Q _ _
            (Completes-exec _ _ c₁ total c₁.db h₁
              (subst
                (λ d. ◌≡◌ {A = Result (ℤ × Db)} (scan_sum (owned_by i) c₁.now d) (ok (total, d)))
                (sym d₁) (rw can.sum_fits refl))
              λ _ d n. (refl, d ∙ d₁, n ∙ n₁))
            λ used c₂ h₂ (sum, d₂, n₂).
              Completes-bind (λ _. Known i c) Q _ _
                (subst (λ u. Completes (λ _. Known i c) (charge_elapsed fl i pricer now u at c₂))
                  (sym sum)
                  (weaken c₂ d₂ n₂ _ (
                    charge_elapsed-Completes total at a c₂ h₂ (ap (account i) d₂ ∙ can.found)
                      (λ t e. can.payable t (sym at_mark ∙ e))
                      (ap (account_exists i) d₂ ∙ exists_found c.db a can.found))))
                λ cost c₃ h₃ (known, rows, n₃).
                  Completes-bind (λ _. Known i c) Q _ _
                    (Completes-exec _ _ c₃ tt
                      (record c₃.db {
                        accounts =
                            update (has_id i) (λ x. record x { storage_billed_at = some now })
                              c₃.db.accounts;
                      })
                      h₃ refl
                      λ _ d n. (
                        ap (account_exists i) d ∙ update_exists c₃.db.accounts known,
                        ap (λ db. db.backups) d ∙ rows,
                        n ∙ n₃,
                      ))
                    λ _ c₄ h₄ k. record { good = (h₄, (sum, k)) }
    where
      total : ℤ
      total = sum_sizes (select (owned_by i) c.db.backups)

      Q : ℤ × ℤ → Conn → Type 0
      Q p c' = (p.0 ≡ total) × Known i c c'

      weaken :
          (c₂ : Conn)
          → c₂.db ≡ c.db
          → c₂.now ≡ c.now
          → (r : Result ℤ × Conn) → Completes (λ _. Known i c₂) r
          → Completes (λ _. Known i c) r
      weaken c₂ d n (ok x, c') q =
          let (h, known) = q.good in
          let (k, rows, m) = known in
          record { good = (h, (k, rows ∙ ap (λ db. db.backups) d, m ∙ n)) }
      weaken c₂ d n (err e, c') q = absurd q.good

      update_exists :
          (rows : List Account)
          → exists (has_id i) rows ≡ true
          → exists
              (has_id i)
              (update (has_id i) (λ x. record x { storage_billed_at = some now }) rows)
            ≡ true
      update_exists [] e = e
      update_exists (x ∷ xs) e = ground (arith, update_exists xs, Bool-cases (x.id == i))
