-- ===== src/Store/Billing/Settle.antt =====
-- deployables/backend/internal/store/billing.go, settleStorageTx: a property of the tables that a
-- charge and the move of the mark keep is kept by the settlement.
use aime.Base.{ℕ, ◌≡◌, subst, sym, ◌∙◌, ap, Bool, Option, none, some, List, Option-cases, arith}
use aime.Base.Lists.{select, update, first}
use aime.Base.Int.{ℤ, pos, ltb_ℤ, saturate, ◌-ℤ◌}
use aime.Base.Float.{Float64}
use aime.Store.Schema.{Account, Backup, UsageEvent, Db}
use aime.Store.Query.{Conn, Result, ok, no_rows}
use aime.Store.Query.Rules.{Ends, Ends-exec, Ends-bind, Ends-if, Ends-rename, ok-tables}
use aime.Store.Billing.{
  has_id, owned_by, sum_sizes, scan_sum, read_account, charge_tx, charge_elapsed, set_billed_at,
  settle_storage_tx, lock_account, StoragePricer,
}

-- After success the tables meet `Q`.
abbrev pub Then : {A : Type 0} → (A → Db → Type 0) → Result A × Conn → Type 0
Then Q r = Ends (λ _. Unit {0}) Q r

abbrev pub mark : ℕ → ℤ → Db → Db
mark i at db = record db {
  accounts = update (has_id i) (λ a. record a { storage_billed_at = some at }) db.accounts;
}

pub read_tables :
    {A : Type 0} (i : ℕ) (f : Account → A) (now : ℤ) (db db' : Db) (a : A)
    → read_account i f now db ≡ ok (a, db')
    → db ≡ db'
read_tables i f now db db' a h = ground (arith, Option-cases (first (has_id i) db.accounts))

pub scan_sum-value :
    (p : Backup → Bool) (now : ℤ) (db db' : Db) (n : ℤ)
    → scan_sum p now db ≡ ok (n, db')
    → (sum_sizes (select p db.backups) ≡ n) × (db ≡ db')
unfolding scan_sum
scan_sum-value p now db db' n h = ground arith

pub lock_account-Then :
    (P : Db → Type 0) (i : ℕ) (c : Conn) → P c.db → Then (λ _. P) (lock_account i c)
unfolding lock_account
lock_account-Then P i c p =
    Ends-rename (λ _. Unit {0}) (λ _. P) no_rows _ _
      (Ends-exec (λ _. Unit {0}) (λ _. P) _ c tt
        λ a db e. subst P (read_tables i (λ _. tt) c.now c.db db a e) p)

module _ (fl : Float64) (i : ℕ) (pricer : StoragePricer) (now : ℤ) (rows : List Backup)
    (P : Db → Type 0) (same_rows : (db : Db) → P db → db.backups ≡ rows)
    (charged : (ev : UsageEvent) (c : Conn) → P c.db → Then (λ _. P) (charge_tx i ev c))
    (marked : (db : Db) → P db → P (mark i now db)) where
  charge_elapsed-Then :
      (used : ℤ) (billed_at : Option ℤ) (c : Conn)
      → P c.db
      → Then (λ _. P) (charge_elapsed fl i pricer now used billed_at c)
  unfolding charge_elapsed
  charge_elapsed-Then used none c p = p
  charge_elapsed-Then used (some at) c p =
      Ends-if (λ _. Unit {0}) (λ _. P) (ltb_ℤ (pos 0) (pricer used (saturate (now -ℤ at)))) _ _ c
        (λ _. Ends-bind (λ _. Unit {0}) (λ _. P) (λ _. P) _ _ (charged _ c p) (λ _ _ q. q)) (λ _. p)

  -- The settlement answers the bytes stored before it.
  pub settle_storage_tx-Then :
      (c : Conn)
      → P c.db
      → Then
          (λ r db. P db × (r.0 ≡ sum_sizes (select (owned_by i) rows)))
          (settle_storage_tx fl i pricer now c)
  unfolding settle_storage_tx set_billed_at
  settle_storage_tx-Then c p =
      Ends-bind U (λ _. P) Q _ _
        (Ends-exec U (λ _. P) _ c tt (λ a db e. subst P (read_tables i _ c.now c.db db a e) p))
        λ billed_at c₁ p₁.
          Ends-bind U (λ used db. P db × (used ≡ stored)) Q _ _
            (Ends-exec U (λ used db. P db × (used ≡ stored)) _ c₁ tt
              (λ n db e. scanned c₁ n db p₁ e))
            λ used c₂ p₂.
              Ends-bind U (λ _. P) Q _ _ (charge_elapsed-Then used billed_at c₂ p₂.0)
                λ cost c₃ p₃.
                  Ends-bind U (λ _. P) Q _ _
                    (Ends-exec U (λ _. P) _ c₃ tt
                      (λ a db e. subst P (ok-tables e).1 (marked c₃.db p₃)))
                    (λ _ _ p₄. (p₄, p₂.1))
    where
      U : Db → Type 0
      U _ = Unit {0}

      stored : ℤ
      stored = sum_sizes (select (owned_by i) rows)

      Q : ℤ × ℤ → Db → Type 0
      Q r db = P db × (r.0 ≡ stored)

      scanned :
          (c : Conn) (n : ℤ) (db : Db)
          → P c.db
          → scan_sum (owned_by i) c.now c.db ≡ ok (n, db)
          → P db × (n ≡ stored)
      scanned c n db p e =
          let (value, same) = scan_sum-value (owned_by i) c.now c.db db n e in
          (
            subst P same p,
            sym value ∙ ap (λ bs. sum_sizes (select (owned_by i) bs)) (same_rows c.db p),
          )
