-- ===== src/Store/Billing/Ledger.antt =====
-- deployables/backend/internal/store/billing.go: a charge takes from the balance what it books.
use aime.Base.{
  ℕ, ◌==◌, ◌≡◌, refl, ap, ◌∙◌, Bool-cases, Option-cases, inl, inr, if◌then◌else◌, Option, some,
  false, List, [], ◌∷◌, arith,
}
use aime.Base.Lists.{update, first, select}
use aime.Base.Int.{ℤ, pos, ◌+ℤ◌, ◌-ℤ◌, int_laws}
use aime.Store.Schema.{Account, UsageEvent, UsageEventRow, Db}
use aime.Store.Query.{Conn, ok}
use aime.Store.Query.Rules.{Ends-exec, Ends-bind}
use aime.Store.Billing.{has_id, charge_tx, set_balance, insert_usage}
use aime.Store.Billing.Settle.{Then, mark}

abbrev U : Db → Type 0
U _ = Unit {0}

-- What the usage ledger holds against an account.
abbrev pub booked : ℕ → List UsageEventRow → ℤ
booked i [] = pos 0
booked i (e ∷ es) =
    if e.account_id == i then e.event.cost_microcredits +ℤ booked i es else booked i es

abbrev pub account : ℕ → Db → Option Account
account i db = first (has_id i) db.accounts

-- An account and its entries before and after: the balance has lost what was booked.
pub record Pays (old new : Db) : Type 0 where
  pub paid :
      (j : ℕ) (a : Account)
      → account j old ≡ some a
      → (b : Account) × (account j new ≡ some b)
        × (b.balance_microcredits +ℤ booked j new.usage_events
            ≡ a.balance_microcredits +ℤ booked j old.usage_events)

pub Pays-refl : (db : Db) → Pays db db
Pays-refl db = record { paid = λ j a e. (a, e, refl) }

pub Pays-trans : (d e f : Db) → Pays d e → Pays e f → Pays d f
Pays-trans d e f p q = record {
  paid = λ j a h.
      let (b, hb, sb) = p.paid j a h in let (c, hc, sc) = q.paid j b hb in (c, hc, sc ∙ sb);
}

-- The row of another account, and of this one, after an update by id that keeps ids.
pub first-update :
    (i j : ℕ) (f : Account → Account) (xs : List Account)
    → ((a : Account) → (f a).id ≡ a.id)
    → (a : Account) → first (has_id j) xs ≡ some a
    → first (has_id j) (update (has_id i) f xs) ≡ some (if j == i then f a else a)
first-update i j f [] ids a h = absurd (ground arith)
first-update i j f (x ∷ xs) ids a h = ground (arith, ids x, first-update i j f xs ids a)

-- The entries of an account in the usage ledger.
abbrev pub entries : ℕ → List UsageEventRow → List UsageEventRow
entries j = select (λ e. e.account_id == j)

-- The row and the entries of every other account are as before.
abbrev pub Spares : ℕ → Db → Db → Type 0
Spares i old new =
    (j : ℕ)
    → (j == i) ≡ false
    → (account j new ≡ account j old) × (entries j new.usage_events ≡ entries j old.usage_events)

pub Spares-trans : (i : ℕ) (d e f : Db) → Spares i d e → Spares i e f → Spares i d f
Spares-trans i d e f p q j h =
    let (rows, events) = p j h in let (rows', events') = q j h in (rows' ∙ rows, events' ∙ events)

pub first-update_other :
    (i j : ℕ) (f : Account → Account) (xs : List Account)
    → ((a : Account) → (f a).id ≡ a.id)
    → (j == i) ≡ false
    → first (has_id j) (update (has_id i) f xs) ≡ first (has_id j) xs
first-update_other i j f [] ids h = refl
first-update_other i j f (x ∷ xs) ids h = ground (arith, ids x, first-update_other i j f xs ids h)

pub mark-Spares : (i : ℕ) (at : ℤ) (db : Db) → Spares i db (mark i at db)
mark-Spares i at db j h = (first-update_other i j _ db.accounts (λ _. refl) h, refl)

pub mark-Pays : (i : ℕ) (at : ℤ) (db : Db) → Pays db (mark i at db)
mark-Pays i at db = record {
  paid = λ j a h. (
    (if j == i then record a { storage_billed_at = some at } else a),
    first-update i j _ db.accounts (λ _. refl) a h,
    ground (arith, Bool-cases (j == i)),
  );
}

pub set_balance-value :
    (i : ℕ) (f : ℤ → ℤ) (now : ℤ) (db new : Db) (b : ℤ)
    → set_balance i f now db ≡ ok (b, new)
    → (a : Account) × (account i db ≡ some a)
      × (b ≡ f a.balance_microcredits)
      × (new ≡ record db {
        accounts =
            update
              (has_id i)
              (λ x. record x { balance_microcredits = f x.balance_microcredits })
              db.accounts;
      })
unfolding set_balance
set_balance-value i f now db new b h = elim (Option-cases (first (has_id i) db.accounts)) [
  | inl e ↦ absurd (ground arith)
  | inr (a, e) ↦ (a, e, ground arith, ground arith)
]

pub insert_usage-value :
    (i : ℕ) (ev : UsageEvent) (now : ℤ) (db new : Db) (u : Unit {0})
    → insert_usage i ev now db ≡ ok (u, new)
    → (new.accounts ≡ db.accounts)
      × (new.usage_events
          ≡ record { id = db.next_usage; account_id = i; event = ev; created_at = now }
            ∷ db.usage_events)
      × (new.backups ≡ db.backups)
unfolding insert_usage
insert_usage-value i ev now db new u h = ground arith

regroup : (x c y : ℤ) → x -ℤ c +ℤ (c +ℤ y) ≡ x +ℤ y
regroup x c y = omega int_laws

-- After both statements of a charge.
charged-Pays :
    (i : ℕ) (ev : UsageEvent) (id : ℕ) (now : ℤ) (old new : Db)
    → new.accounts
      ≡ update
          (has_id i)
          (λ x. record x { balance_microcredits = x.balance_microcredits -ℤ ev.cost_microcredits })
          old.accounts
    → new.usage_events
      ≡ record { id = id; account_id = i; event = ev; created_at = now } ∷ old.usage_events
    → Pays old new
charged-Pays i ev id now old new accounts events = record {
  paid = λ j a h. (
    (if j == i
        then record a { balance_microcredits = a.balance_microcredits -ℤ ev.cost_microcredits }
        else a),
    rw accounts (first-update i j _ old.accounts (λ _. refl) a h),
    rw events (
        ground
          (arith, regroup a.balance_microcredits ev.cost_microcredits (booked j old.usage_events))),
  );
}

-- Both statements of `chargeTx`: the balance falls by what is booked, for the charged account and,
-- as nothing changes there, for every other.
pub charge_tx-Pays :
    (old : Db) (i : ℕ) (ev : UsageEvent) (c : Conn)
    → Pays old c.db
    → Then (λ _. Pays old) (charge_tx i ev c)
unfolding charge_tx
charge_tx-Pays old i ev c q =
    Ends-bind U (λ _. Owing) (λ _. Pays old) _ _
      (Ends-exec U (λ _. Owing) (set_balance i _) c tt
        λ b db e. let (a, h, _, made) = set_balance-value i _ c.now c.db db b e in debited db made)
      λ b c' (accounts, events).
        Ends-bind U (λ _. Pays old) (λ _. Pays old) _ _
          (Ends-exec U (λ _. Pays old) (insert_usage i ev) c' tt
            λ u db e.
              let (kept, added, _) = insert_usage-value i ev c'.now c'.db db u e in
              Pays-trans old c.db db q (
                charged-Pays i ev c'.db.next_usage c'.now c.db db (kept ∙ accounts) (
                  added
                  ∙ ap
                      (λ es.
                        record {
                          id = c'.db.next_usage;
                          account_id = i;
                          event = ev;
                          created_at = c'.now;
                        }
                        ∷ es)
                      events)))
          (λ _ _ h. h)
  where
    less : Account → Account
    less x = record x { balance_microcredits = x.balance_microcredits -ℤ ev.cost_microcredits }

    Owing : Db → Type 0
    Owing db =
        (db.accounts ≡ update (has_id i) less c.db.accounts) × (db.usage_events ≡ c.db.usage_events)

    debited :
        (db : Db) → db ≡ record c.db { accounts = update (has_id i) less c.db.accounts } → Owing db
    debited db made = (ap (λ x. x.accounts) made, ap (λ x. x.usage_events) made)
