-- ===== src/Store/Billing/Charges.antt =====
-- deployables/backend/internal/store/billing.go: what `Charge` and `SettleStorage` charge.
use aime.Base.{
  ℕ, ◌==◌, ◌⊎◌, true, false, ◌≡◌, refl, sym, ap, subst, ◌∙◌, Option-cases, inl, inr, if◌then◌else◌,
  Option, none, some, List, ◌∷◌, arith, ==-refl,
}
use aime.Base.Lists.{first, select, update}
use aime.Base.Int.{ℤ, pos, ◌+ℤ◌, ◌-ℤ◌, ltb_ℤ, saturate}
use aime.Base.Float.{Float64}
use aime.Store.Schema.{Account, UsageEvent, UsageEventRow, Db}
use aime.Store.Query.{Conn, ok}
use aime.Store.Query.Rules.{
  Ends, Ends-exec, Ends-bind, Ends-if, Ends-and, Ends-transaction, ok-tables,
}
use aime.Store.Billing.{
  has_id, owned_by, sum_sizes, scan_sum, read_account, charge_tx, charge, charge_elapsed,
  set_balance, insert_usage, storage_event, set_billed_at, settle_storage_tx, settle_storage,
  StoragePricer,
}
use aime.Store.Billing.Settle.{Then, mark, scan_sum-value, lock_account-Then}
use aime.Store.Billing.Ledger.{
  booked, account, entries, Spares, Spares-trans, first-update_other, mark-Spares, Pays, Pays-refl,
  Pays-trans, first-update, mark-Pays, set_balance-value, insert_usage-value, charge_tx-Pays,
}

abbrev U : Db → Type 0
U _ = Unit {0}

-- A charge of an event to an account: the answer is the balance left, the row of the account has it and
-- is else as before, the event is the new entry of the ledger, and no other account is touched.
pub record Charged (i : ℕ) (ev : UsageEvent) (old : Db) (b : ℤ) (new : Db) : Type 0 where
  pub left :
      (a : Account) × (account i old ≡ some a)
      × (b ≡ a.balance_microcredits -ℤ ev.cost_microcredits)
      × (account i new ≡ some (record a { balance_microcredits = b }))
  pub entered :
      (row : UsageEventRow) × (row.account_id ≡ i)
      × (row.event ≡ ev)
      × (new.usage_events ≡ row ∷ old.usage_events)
  pub spared : Spares i old new
  pub rows : new.backups ≡ old.backups

-- The account's row after a charge.
abbrev less : UsageEvent → Account → Account
less ev x = record x { balance_microcredits = x.balance_microcredits -ℤ ev.cost_microcredits }

skipped :
    (rows : List UsageEventRow) (i j : ℕ) (row : UsageEventRow)
    → (j == row.account_id) ≡ false
    → entries j (row ∷ rows) ≡ entries j rows
skipped rows i j row h = ground arith

both_statements :
    (i : ℕ) (ev : UsageEvent) (id : ℕ) (now : ℤ) (old new : Db) (a : Account) (b : ℤ)
    → account i old ≡ some a
    → b ≡ a.balance_microcredits -ℤ ev.cost_microcredits
    → new.accounts ≡ update (has_id i) (less ev) old.accounts
    → new.usage_events
      ≡ record { id = id; account_id = i; event = ev; created_at = now } ∷ old.usage_events
    → new.backups ≡ old.backups
    → Charged i ev old b new
both_statements i ev id now old new a b found value accounts events rows = record {
  left = (
    a,
    found,
    value,
    rw (accounts, first-update i i (less ev) old.accounts (λ _. refl) a found, ==-refl i, value)
        refl,
  );
  entered = (record { id = id; account_id = i; event = ev; created_at = now }, refl, refl, events);
  spared = λ j h. (
    rw accounts (first-update_other i j (less ev) old.accounts (λ _. refl) h),
    rw events (skipped old.usage_events i j _ h),
  );
  rows = rows;
}

pub charge_tx-Charged :
    (i : ℕ) (ev : UsageEvent) (c : Conn) → Then (Charged i ev c.db) (charge_tx i ev c)
unfolding charge_tx
charge_tx-Charged i ev c =
    Ends-bind U Half (Charged i ev c.db) _ _
      (Ends-exec U Half (set_balance i _) c tt λ b db e.
        let (a, h, value, made) = set_balance-value i _ c.now c.db db b e in
        (
          (a, h, value),
          ap (λ x. x.accounts) made,
          ap (λ x. x.usage_events) made,
          ap (λ x. x.backups) made,
        ))
      λ b c' ((a, found, value), accounts, events, rows).
        Ends-bind U (λ _. Charged i ev c.db b) (Charged i ev c.db) _ _
          (Ends-exec U (λ _. Charged i ev c.db b) (insert_usage i ev) c' tt
            λ u db e.
              let (kept, added, rows') = insert_usage-value i ev c'.now c'.db db u e in
              both_statements i ev c'.db.next_usage c'.now c.db db a b found value (kept ∙ accounts)
                (rw events at added) (rows' ∙ rows))
          (λ _ _ h. h)
  where
    Half : ℤ → Db → Type 0
    Half b db =
        ((a : Account) × (account i c.db ≡ some a)
          × (b ≡ a.balance_microcredits -ℤ ev.cost_microcredits))
        × (db.accounts ≡ update (has_id i) (less ev) c.db.accounts)
        × (db.usage_events ≡ c.db.usage_events)
        × (db.backups ≡ c.db.backups)

-- `Charge` answers the balance that is left, which may be negative, and that is all that changes in the
-- account's row. The event, as given, is the one new entry of the ledger, under that account; the rows
-- and entries of all other accounts are as before, and so are the backups. After an error the tables are
-- as before.
pub charge-Charged :
    (i : ℕ) (ev : UsageEvent) (c : Conn)
    → Ends (λ db. db ≡ c.db) (λ b db. Charged i ev c.db b db × Pays c.db db) (charge i ev c)
unfolding charge
charge-Charged i ev c =
    Ends-transaction (λ db. db ≡ c.db) (λ b db. Charged i ev c.db b db × Pays c.db db) _ c refl
      λ c' t.
        subst (λ d. Then (λ b db. Charged i ev d b db × Pays d db) (charge_tx i ev c')) t
          (Ends-and U (Charged i ev c'.db) (λ _. Pays c'.db) (charge_tx i ev c')
            (charge_tx-Charged i ev c') (charge_tx-Pays c'.db i ev c' (Pays-refl c'.db)))

-- What an account owes for the bytes stored since its mark; nothing before its first mark.
abbrev pub owed : StoragePricer → ℤ → ℤ → Option ℤ → ℤ
owed pricer now used none = pos 0
owed pricer now used (some at) = pricer used (saturate (now -ℤ at))

abbrev pub plus_positive : ℤ → ℤ → ℤ
plus_positive cost x = if ltb_ℤ (pos 0) cost then cost +ℤ x else x

-- A positive cost is one entry of the account, for the bytes stored since the mark; any other is none.
abbrev pub Written : Float64 → ℕ → ℤ → ℤ → Option ℤ → ℤ → Db → Db → Type 0
Written fl i now used at cost old new =
    ((ltb_ℤ (pos 0) cost ≡ true)
      × ((t : ℤ) × (row : UsageEventRow) × (at ≡ some t)
          × (row.account_id ≡ i)
          × (row.event ≡ storage_event fl used (saturate (now -ℤ t)) cost)
          × (new.usage_events ≡ row ∷ old.usage_events)))
    ⊎ ((ltb_ℤ (pos 0) cost ≡ false) × (new.usage_events ≡ old.usage_events))

booked-entered :
    (i : ℕ) (row : UsageEventRow) (old new : Db) (cost : ℤ)
    → row.account_id ≡ i
    → row.event.cost_microcredits ≡ cost
    → new.usage_events ≡ row ∷ old.usage_events
    → booked i new.usage_events ≡ cost +ℤ booked i old.usage_events
booked-entered i row old new cost owner price e = rw (e, owner, ==-refl i, price) refl

-- A settlement: what was owed is the answer, is booked where it is positive, the mark moves, and no
-- other account is touched.
pub record Settled (fl : Float64) (i : ℕ) (pricer : StoragePricer) (now : ℤ) (old : Db)
    (used cost : ℤ) (new : Db) : Type 0 where
  pub stored : used ≡ sum_sizes (select (owned_by i) old.backups)
  pub due :
      (a : Account) × (account i old ≡ some a)
      × (cost ≡ owed pricer now used a.storage_billed_at)
      × Written fl i now used a.storage_billed_at cost old new
  pub moved : (b : Account) × (account i new ≡ some b) × (b.storage_billed_at ≡ some now)
  pub entries : booked i new.usage_events ≡ plus_positive cost (booked i old.usage_events)
  pub pays : Pays old new
  pub spared : Spares i old new
  pub rows : new.backups ≡ old.backups

module _ (fl : Float64) (i : ℕ) (pricer : StoragePricer) (now : ℤ) where
  -- The tables between the charge and the move of the mark.
  abbrev Owed : Db → ℤ → Option ℤ → ℤ → Db → Type 0
  Owed old used at cost db =
      (cost ≡ owed pricer now used at)
      × (booked i db.usage_events ≡ plus_positive cost (booked i old.usage_events))
      × Written fl i now used at cost old db
      × Spares i old db
      × Pays old db
      × (db.backups ≡ old.backups)

  Spares-refl : (db : Db) → Spares i db db
  Spares-refl db j h = (refl, refl)

  charge_elapsed-Owed :
      (used : ℤ) (at : Option ℤ) (c : Conn)
      → Then (Owed c.db used at) (charge_elapsed fl i pricer now used at c)
  unfolding charge_elapsed storage_event
  charge_elapsed-Owed used none c =
      (refl, refl, inr (refl, refl), Spares-refl c.db, Pays-refl c.db, refl)
  charge_elapsed-Owed used (some at) c =
      Ends-if U (Owed c.db used (some at)) (ltb_ℤ (pos 0) cost) _ _ c
        (λ e.
          Ends-bind U (λ b db. Charged i ev c.db b db × Pays c.db db) (Owed c.db used (some at)) _ _
            (Ends-and U (Charged i ev c.db) (λ _. Pays c.db) _ (charge_tx-Charged i ev c)
              (charge_tx-Pays c.db i ev c (Pays-refl c.db)))
            λ b c' (h, pays). bill b c' e h pays)
        (λ e. (refl, rw e, inr (e, refl), Spares-refl c.db, Pays-refl c.db, refl))
    where
      cost : ℤ
      cost = pricer used (saturate (now -ℤ at))

      ev : UsageEvent
      ev = storage_event fl used (saturate (now -ℤ at)) cost

      bill :
          (b : ℤ) (c' : Conn)
          → ltb_ℤ (pos 0) cost ≡ true
          → Charged i ev c.db b c'.db
          → Pays c.db c'.db
          → Owed c.db used (some at) cost c'.db
      bill b c' e h pays =
          let (row, owner, event, events) = h.entered in
          (
            refl,
            rw e (
                booked-entered i row c.db c'.db cost owner (ap (λ x. x.cost_microcredits) event)
                  events),
            inl (e, (at, row, refl, owner, event, events)),
            h.spared,
            pays,
            h.rows,
          )

  read_account-value :
      {A : Type 0} (f : Account → A) (at : ℤ) (db new : Db) (x : A)
      → read_account i f at db ≡ ok (x, new)
      → ((a : Account) × (account i db ≡ some a) × (x ≡ f a)) × (new ≡ db)
  read_account-value f at db new x h = elim (Option-cases (first (has_id i) db.accounts)) [
    | inl e ↦ absurd (ground arith)
    | inr (a, e) ↦ ((a, e, ground arith), ground arith)
  ]

  mark-Settled :
      (old db : Db) (used cost : ℤ) (a : Account)
      → used ≡ sum_sizes (select (owned_by i) old.backups)
      → account i old ≡ some a
      → Owed old used a.storage_billed_at cost db
      → Settled fl i pricer now old used cost (mark i now db)
  mark-Settled old db used cost a stored found (due, entries, written, spared, pays, rows) =
      let (b, found', _) = pays.paid i a found in
      record {
        stored = stored;
        due = (a, found, due, written);
        moved = (
          record b { storage_billed_at = some now },
          rw (
            first-update i i (λ x. record x { storage_billed_at = some now }) db.accounts
                (λ _. refl) b found',
            ==-refl i,
          ),
          refl,
        );
        entries = entries;
        spared = Spares-trans i old db (mark i now db) spared (mark-Spares i now db);
        pays = Pays-trans old db (mark i now db) pays (mark-Pays i now db);
        rows = rows;
      }

  settle_storage_tx-Settled :
      (c : Conn)
      → Then (λ r. Settled fl i pricer now c.db r.0 r.1) (settle_storage_tx fl i pricer now c)
  unfolding settle_storage_tx set_billed_at
  settle_storage_tx-Settled c =
      Ends-bind U R₁ Q _ _
        (Ends-exec U R₁ (read_account i (λ a. a.storage_billed_at)) c tt
          λ at db e. read_account-value (λ a. a.storage_billed_at) c.now c.db db at e)
        λ at c₁ ((a, found, mark_at), t₁).
          Ends-bind U R₂ Q _ _
            (Ends-exec U R₂ (scan_sum (owned_by i)) c₁ tt λ n db e.
              let (value, same) = scan_sum-value (owned_by i) c₁.now c₁.db db n e in
              (sym value ∙ ap (λ d. sum_sizes (select (owned_by i) d.backups)) t₁, sym same ∙ t₁))
            λ used c₂ (stored, t₂).
              Ends-bind U (λ cost db. Owed c₂.db used at cost db) Q _ _
                (charge_elapsed-Owed used at c₂)
                λ cost c₃ owes.
                  Ends-bind U (λ _ db. mark i now c₃.db ≡ db) Q _ _
                    (Ends-exec U (λ _ db. mark i now c₃.db ≡ db) (set_billed_at i now) c₃ tt
                      (λ _ db e. (ok-tables e).1))
                    (λ _ c₄ made. subst (Settled fl i pricer now c.db used cost) made (
                      mark-Settled c.db c₃.db used cost a stored found (
                        subst (λ d. Owed d used a.storage_billed_at cost c₃.db) t₂
                          (subst (λ m. Owed c₂.db used m cost c₃.db) mark_at owes))))
    where
      R₁ : Option ℤ → Db → Type 0
      R₁ at db =
          ((a : Account) × (account i c.db ≡ some a) × (at ≡ a.storage_billed_at)) × (db ≡ c.db)

      R₂ : ℤ → Db → Type 0
      R₂ used db = (used ≡ sum_sizes (select (owned_by i) c.db.backups)) × (db ≡ c.db)

      Q : ℤ × ℤ → Db → Type 0
      Q r = Settled fl i pricer now c.db r.0 r.1

  -- `SettleStorage` answers the price of the account's stored bytes for the time since its mark
  -- (nothing where there is no mark). A positive price is one new entry of the ledger, for the account
  -- and with what was stored and for how long, and is taken from the balance; any other price leaves
  -- the ledger alone. The rows and entries of other accounts are as before, no backup changes, and
  -- the mark stands at the time of the settlement. After an error the tables are as before.
  pub settle_storage-Settled :
      (c : Conn)
      → Ends
          (λ db. db ≡ c.db)
          (λ cost db. (used : ℤ) × Settled fl i pricer now c.db used cost db)
          (settle_storage fl i pricer now c)
  unfolding settle_storage
  settle_storage-Settled c =
      Ends-transaction (λ db. db ≡ c.db)
        (λ cost db. (used : ℤ) × Settled fl i pricer now c.db used cost db) _ c refl
        λ c₀ t.
          Ends-bind U (λ _ db. db ≡ c.db)
            (λ cost db. (used : ℤ) × Settled fl i pricer now c.db used cost db) _ _
            (lock_account-Then (λ db. db ≡ c.db) i c₀ t)
            λ _ c₁ t₁.
              Ends-bind U (λ r. Settled fl i pricer now c.db r.0 r.1)
                (λ cost db. (used : ℤ) × Settled fl i pricer now c.db used cost db) _ _
                (subst
                  (λ d.
                    Then (λ r. Settled fl i pricer now d r.0 r.1)
                      (settle_storage_tx fl i pricer now c₁))
                  t₁ (settle_storage_tx-Settled c₁))
                (λ r c₂ h. (r.0, h))
