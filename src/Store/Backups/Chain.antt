-- ===== src/Store/Backups/Chain.antt =====
-- deployables/backend/internal/store/backups.go: the invariant of the version chain, and the steps
-- that leave it alone.
use aime.Base.{
  ℕ, ◌≤◌, ◌<◌, ◌≡◌, refl, sym, subst, ◌∙◌, ◌↔◌, Bool-cases, Option-cases, inl, inr, none, some,
  List, arith,
}
use aime.Base.Lists.{update, first}
use aime.Base.Member.{In, In-update}
use aime.Base.Int.{ℤ}
use aime.Store.Schema.{Account, Backup, full, UsageEvent, Db}
use aime.Store.Query.{Conn, ok}
use aime.Store.Query.Rules.{Ends-exec, Ends-bind}
use aime.Store.Billing.{has_id, charge_tx, set_balance, insert_usage}
use aime.Store.Billing.Settle.{Then, mark}

-- The row that a delta builds on: in the same account, older, and with no version in between.
pub record IsParent (rows : List Backup) (b x : Backup) : Type 0 where
  pub member : In x rows
  pub same_account : x.account_id ≡ b.account_id
  pub older : x.version < b.version
  pub adjacent :
      (y : Backup)
      → In y rows
      → y.account_id ≡ b.account_id
      → y.version < b.version
      → y.version ≤ x.version

pub record IsChained (db : Db) : Type 0 where
  pub known : (a : Account) → In a db.accounts → a.id < db.next_account
  pub one_counter :
      (a a' : Account)
      → In a db.accounts
      → In a' db.accounts
      → a.id ≡ a'.id
      → a.backup_version_seq ≡ a'.backup_version_seq
  pub owned : (b : Backup) → In b db.backups → b.account_id < db.next_account
  pub fresh : (b : Backup) → In b db.backups → b.id < db.next_backup
  pub id_unique : (b c : Backup) → In b db.backups → In c db.backups → b.id ≡ c.id → b ≡ c
  pub version_unique :
      (b c : Backup)
      → In b db.backups
      → In c db.backups
      → b.account_id ≡ c.account_id
      → b.version ≡ c.version
      → b ≡ c
  pub counted :
      (a : Account) (b : Backup)
      → In a db.accounts
      → In b db.backups
      → b.account_id ≡ a.id
      → b.version ≤ a.backup_version_seq
  pub kinds : (b : Backup) → In b db.backups → (b.kind ≡ full) ↔ (b.parent_id ≡ none)
  pub linked :
      (b : Backup) (p : ℕ)
      → In b db.backups
      → b.parent_id ≡ some p
      → (x : Backup) × (x.id ≡ p) × IsParent db.backups b x

-- What a charge and the billing mark leave alone.
pub record Quiet (old new : Db) : Type 0 where
  pub rows : new.backups ≡ old.backups
  pub serial : new.next_backup ≡ old.next_backup
  pub owners : new.next_account ≡ old.next_account
  pub accounts :
      (a : Account)
      → In a new.accounts
      → (x : Account) × In x old.accounts
        × (x.id ≡ a.id)
        × (x.backup_version_seq ≡ a.backup_version_seq)

pub Quiet-refl : (db : Db) → Quiet db db
Quiet-refl db = record {
  rows = refl;
  serial = refl;
  owners = refl;
  accounts = λ a i. (a, i, refl, refl);
}

pub Quiet-trans : (d e f : Db) → Quiet d e → Quiet e f → Quiet d f
Quiet-trans d e f q r = record {
  rows = r.rows ∙ q.rows;
  serial = r.serial ∙ q.serial;
  owners = r.owners ∙ q.owners;
  accounts = λ a i.
      let (x, ix, same_id, same_seq) = r.accounts a i in
      let (y, iy, id', seq') = q.accounts x ix in (y, iy, id' ∙ same_id, seq' ∙ same_seq);
}

-- An update of the accounts that keeps ids and counters.
pub Quiet-accounts :
    (db : Db) (i : ℕ) (f : Account → Account)
    → ((a : Account) → (f a).id ≡ a.id)
    → ((a : Account) → (f a).backup_version_seq ≡ a.backup_version_seq)
    → Quiet db (record db { accounts = update (has_id i) f db.accounts })
Quiet-accounts db i f ids seqs = record {
  rows = refl;
  serial = refl;
  owners = refl;
  accounts = λ a m. traced a m;
}
  where
    traced :
        (a : Account)
        → In a (update (has_id i) f db.accounts)
        → (x : Account) × In x db.accounts
          × (x.id ≡ a.id)
          × (x.backup_version_seq ≡ a.backup_version_seq)
    traced a m =
        let (x, ix, e) = In-update (has_id i) f a db.accounts m in
        (
          x,
          ix,
          ground (arith, ids x, Bool-cases (has_id i x)),
          ground (arith, seqs x, Bool-cases (has_id i x)),
        )

pub IsChained-Quiet : (old new : Db) → Quiet old new → IsChained old → IsChained new
IsChained-Quiet old new q h = record {
  known = λ a i.
      let (x, ix, same_id, _) = q.accounts a i in omega (arith, h.known x ix, same_id, q.owners);
  one_counter = λ a a' i i' e.
      let (x, ix, same_id, same_seq) = q.accounts a i in
      let (y, iy, id', seq') = q.accounts a' i' in
      omega (arith, h.one_counter x y ix iy (same_id ∙ e ∙ sym id'), same_seq, seq');
  owned = λ b i. omega (arith, h.owned b (rw q.rows at i), q.owners);
  fresh = λ b i. omega (arith, h.fresh b (rw q.rows at i), q.serial);
  id_unique = λ b c i j. h.id_unique b c (rw q.rows at i) (rw q.rows at j);
  version_unique = λ b c i j. h.version_unique b c (rw q.rows at i) (rw q.rows at j);
  counted = λ a b i j e.
      let (x, ix, same_id, same_seq) = q.accounts a i in
      omega (arith, h.counted x b ix (rw q.rows at j) (e ∙ sym same_id), same_seq);
  kinds = λ b i. h.kinds b (rw q.rows at i);
  linked = λ b p i e.
      let (x, same, parent) = h.linked b p (rw q.rows at i) e in
      (x, same, subst (λ rows. IsParent rows b x) (sym q.rows) parent);
}

mark-Quiet : (i : ℕ) (at : ℤ) (db : Db) → Quiet db (mark i at db)
mark-Quiet i at db = Quiet-accounts db i _ (λ _. refl) (λ _. refl)

pub set_balance-Quiet :
    (i : ℕ) (f : ℤ → ℤ) (now : ℤ) (db new : Db) (b : ℤ)
    → set_balance i f now db ≡ ok (b, new)
    → Quiet db new
unfolding set_balance
set_balance-Quiet i f now db new b h = elim (Option-cases (first (has_id i) db.accounts)) [
  | inl e ↦ absurd (ground arith)
  | inr (a, e) ↦ subst (Quiet db) (ground arith) (
      Quiet-accounts db i (λ x. record x { balance_microcredits = f x.balance_microcredits })
        (λ _. refl) (λ _. refl))
]

insert_usage-Quiet :
    (i : ℕ) (ev : UsageEvent) (now : ℤ) (db new : Db) (u : Unit {0})
    → insert_usage i ev now db ≡ ok (u, new)
    → Quiet db new
unfolding insert_usage
insert_usage-Quiet i ev now db new u h = record {
  rows = ground arith;
  serial = ground arith;
  owners = ground arith;
  accounts = λ a m. (a, subst (In a) (ground arith) m, refl, refl);
}

-- A charge touches neither the versions nor their counters.
pub charge_tx-Quiet :
    (old : Db) (i : ℕ) (ev : UsageEvent) (c : Conn)
    → Quiet old c.db
    → Then (λ _. Quiet old) (charge_tx i ev c)
unfolding charge_tx
charge_tx-Quiet old i ev c q =
    Ends-bind U (λ _. Quiet old) (λ _. Quiet old) _ _
      (Ends-exec U (λ _. Quiet old) _ c tt
        (λ b db e. Quiet-trans old c.db db q (set_balance-Quiet i _ c.now c.db db b e)))
      λ b c' q'.
        Ends-bind U (λ _. Quiet old) (λ _. Quiet old) _ _
          (Ends-exec U (λ _. Quiet old) _ c' tt
            (λ u db e. Quiet-trans old c'.db db q' (insert_usage-Quiet i ev c'.now c'.db db u e)))
          (λ _ _ q''. q'')
  where
    U : Db → Type 0
    U _ = Unit {0}

pub marked-Quiet : (old : Db) (i : ℕ) (at : ℤ) (db : Db) → Quiet old db → Quiet old (mark i at db)
marked-Quiet old i at db q = Quiet-trans old db (mark i at db) q (mark-Quiet i at db)
