-- ===== src/Store/Backups/Create.antt =====
-- deployables/backend/internal/store/backups.go, CreateBackup: the new row extends the chain.
use aime.Base.{
  ℕ, suc, ◌+◌, ◌≤◌, ◌<◌, ◌≡◌, refl, sym, ap, subst, ◌∙◌, ◌==◌, ◌↔◌, Bool-cases, Option-cases, ◌⊎◌,
  inl, inr, if◌then◌else◌, Option, none, some, List, [], ◌∷◌, arith, eq_of_==, ==-refl,
}
use aime.Base.Lists.{update, select, first}
use aime.Base.Member.{In, In-update, select-In, first-some}
use aime.Base.Int.{ℤ}
use aime.Store.Schema.{Account, Backup, BackupKind, full, delta, Db}
use aime.Store.Query.{ok}
use aime.Store.Billing.{has_id, owned_by}
use aime.Store.Backups.{NewBackup, take_version, max_version}
use aime.Store.Backups.Chain.{IsParent, IsChained, Quiet, IsChained-Quiet}

pub max_version-le : (b : Backup) (bs : List Backup) → In b bs → b.version ≤ max_version bs
unfolding max_version
max_version-le b [] i = absurd i
max_version-le b (x ∷ xs) i = ground (arith, max_version-le b xs)

-- The tables that are ready for version `v` of an account: every version so far is below it, and
-- the account's counter stands at it.
pub record IsReady (i v : ℕ) (rows : List Backup) (db : Db) : Type 0 where
  pub chained : IsChained db
  pub same_rows : db.backups ≡ rows
  pub above : (b : Backup) → In b db.backups → b.account_id ≡ i → b.version < v
  pub counter : (a : Account) → In a db.accounts → a.id ≡ i → a.backup_version_seq ≡ v
  pub known : i < db.next_account

pub IsReady-Quiet :
    (i v : ℕ) (rows : List Backup) (old new : Db)
    → Quiet old new
    → IsReady i v rows old
    → IsReady i v rows new
IsReady-Quiet i v rows old new q r = record {
  chained = IsChained-Quiet old new q r.chained;
  same_rows = q.rows ∙ r.same_rows;
  above = λ b m. r.above b (rw q.rows at m);
  counter = λ a m e.
      let (x, ix, same_id, same_seq) = q.accounts a m in
      sym same_seq ∙ r.counter x ix (same_id ∙ e);
  known = omega (arith, r.known, q.owners);
}

-- The accounts after the counter of one was raised.
module _ (i : ℕ) (db : Db) (h : IsChained db) (a : Account)
    (found : first (has_id i) db.accounts ≡ some a) where
  raise : Account → Account
  raise x = record x { backup_version_seq = x.backup_version_seq + 1 }

  raised : Db
  raised = record db { accounts = update (has_id i) raise db.accounts }

  raised_account :
      (y : Account)
      → In y (update (has_id i) raise db.accounts)
      → (x : Account) × In x db.accounts
        × (y.id ≡ x.id)
        × (y.backup_version_seq
            ≡ (if x.id == i then x.backup_version_seq + 1 else x.backup_version_seq))
  unfolding raise
  raised_account y m =
      let (x, ix, e) = In-update (has_id i) raise y db.accounts m in
      (x, ix, ground (arith, Bool-cases (x.id == i)), ground (arith, Bool-cases (x.id == i)))

  raised-IsReady : IsReady i (a.backup_version_seq + 1) db.backups raised
  unfolding raised
  raised-IsReady =
      let (ia, same) = first-some (has_id i) a db.accounts found in
      record {
        chained = record {
          known = λ y m. let (x, ix, e, _) = raised_account y m in omega (arith, h.known x ix, e);
          one_counter = λ y y' m m' e.
              let (x, ix, ex, sx) = raised_account y m in
              let (x', ix', ex', sx') = raised_account y' m' in
              let ids : x.id ≡ x'.id = sym ex ∙ e ∙ ex' in
              ground (arith, h.one_counter x x' ix ix' ids, sx, sx', ids);
          owned = h.owned;
          fresh = h.fresh;
          id_unique = h.id_unique;
          version_unique = h.version_unique;
          counted = λ y b m j e.
              let (x, ix, ex, sx) = raised_account y m in
              ground (arith, h.counted x b ix j (e ∙ ex), sx);
          kinds = h.kinds;
          linked = h.linked;
        };
        same_rows = refl;
        above = λ b m e.
            let seen = h.counted a b ia m (e ∙ sym (eq_of_== a.id i same)) in omega (arith, seen);
        counter = λ y m e.
            let (x, ix, ex, sx) = raised_account y m in
            ground (arith, h.one_counter x a ix ia (sym ex ∙ e ∙ sym (eq_of_== a.id i same)), sx);
        known = ground (arith, h.known a ia, eq_of_== a.id i same);
      }

-- The counter hands out a version above all that the account has.
pub take_version-IsReady :
    (i : ℕ) (now : ℤ) (db new : Db) (r : ℕ × ℤ)
    → IsChained db
    → take_version i now db ≡ ok (r, new)
    → IsReady i r.0 db.backups new
unfolding take_version raised raise
take_version-IsReady i now db new r h e = elim (Option-cases (first (has_id i) db.accounts)) [
  | inl e' ↦ absurd (ground arith)
  | inr (a, e') ↦
      let v : a.backup_version_seq + 1 ≡ r.0 = ground arith in
      let tables : raised i db h a e' ≡ new = ground arith in
      subst (λ n. IsReady i n db.backups new) v
        (subst (IsReady i (a.backup_version_seq + 1) db.backups) tables
          (raised-IsReady i db h a e'))
]

-- What `check_parent` answers: a full backup, or a delta on a row of the newest version.
abbrev pub ParentOk : ℕ → List Backup → Option ℕ → BackupKind → Type 0
ParentOk i rows parent kind =
    ((parent ≡ none) × (kind ≡ full))
    ⊎ ((x : Backup) × In x rows
        × (parent ≡ some x.id)
        × (kind ≡ delta)
        × (x.account_id ≡ i)
        × (x.version ≡ max_version (select (owned_by i) rows)))

-- The row that an insert adds keeps the chain.
module _ (i v : ℕ) (kind : BackupKind) (nb : NewBackup) (db : Db) (row : Backup)
    (ready : IsReady i v db.backups db) (parent : ParentOk i db.backups nb.parent_id kind)
    (at : (row.id ≡ db.next_backup)
      × (row.account_id ≡ i)
      × (row.version ≡ v)
      × (row.kind ≡ kind)
      × (row.parent_id ≡ nb.parent_id)) where
  below_row :
      (y : Backup) → In y db.backups → y.account_id ≡ row.account_id → y.version < row.version
  below_row y m e = omega (arith, ready.above y m (e ∙ at.1), at.2)

  keep-IsParent :
      (b x : Backup) → In b db.backups → IsParent db.backups b x → IsParent (row ∷ db.backups) b x
  keep-IsParent b x m h = record {
    member = inr h.member;
    same_account = h.same_account;
    older = h.older;
    adjacent = λ y n e lt. among y n e lt;
  }
    where
      among :
          (y : Backup)
          → (y ≡ row) ⊎ In y db.backups
          → y.account_id ≡ b.account_id
          → y.version < b.version
          → y.version ≤ x.version
      among y (inl new) e lt = absurd (
          omega
            (arith, below_row b m (sym e ∙ ap (λ z. z.account_id) new), ap (λ z. z.version) new))
      among y (inr old) e lt = h.adjacent y old e lt

  row-IsParent :
      (p : ℕ)
      → row.parent_id ≡ some p
      → (x : Backup) × (x.id ≡ p) × IsParent (row ∷ db.backups) row x
  row-IsParent p e = from parent
    where
      from :
          ParentOk i db.backups nb.parent_id kind
          → (x : Backup) × (x.id ≡ p) × IsParent (row ∷ db.backups) row x
      from (inl (nothing, _)) = absurd (ground (arith, e, at.4, nothing))
      from (inr (x, m, same, _, owner, head)) = (
        x,
        ground (arith, e, at.4, same),
        record {
          member = inr m;
          same_account = owner ∙ sym at.1;
          older = below_row x m (owner ∙ sym at.1);
          adjacent = λ y n e' lt. among y n e' lt;
        },
      )
        where
          among :
              (y : Backup)
              → (y ≡ row) ⊎ In y db.backups
              → y.account_id ≡ row.account_id
              → y.version < row.version
              → y.version ≤ x.version
          among y (inl new) e' lt = absurd (omega (arith, ap (λ z. z.version) new))
          among y (inr old) e' lt = rw head (
              max_version-le y _
                (select-In (owned_by i) y db.backups old (rw (e' ∙ at.1) (==-refl i))))

  pub row-IsChained :
      IsChained (record db { backups = row ∷ db.backups; next_backup = suc db.next_backup })
  row-IsChained = record {
    known = ready.chained.known;
    one_counter = ready.chained.one_counter;
    owned = λ b m. ground (arith, ready.chained.owned b, ready.known);
    fresh = λ b m. ground (arith, ready.chained.fresh b);
    id_unique = λ b c m n e.
        ground (arith, ready.chained.id_unique b c, ready.chained.fresh b, ready.chained.fresh c);
    version_unique =
        λ b c m n e e'. ground (arith, ready.chained.version_unique b c, below_row b, below_row c);
    counted = λ a b m n e. ground (arith, ready.chained.counted a b m, ready.counter a m);
    kinds = λ b m. kept_kind b m;
    linked = λ b p m e. kept_link b p m e;
  }
    where
      kept_kind :
          (b : Backup) → (b ≡ row) ⊎ In b db.backups → (b.kind ≡ full) ↔ (b.parent_id ≡ none)
      kept_kind b (inl new) = (λ e. ground (arith, parent), λ e. ground (arith, parent))
      kept_kind b (inr old) = ready.chained.kinds b old

      kept_link :
          (b : Backup) (p : ℕ)
          → (b ≡ row) ⊎ In b db.backups
          → b.parent_id ≡ some p
          → (x : Backup) × (x.id ≡ p) × IsParent (row ∷ db.backups) b x
      kept_link b p (inl new) e =
          let (x, same, h) = row-IsParent p (ap (λ z. z.parent_id) (sym new) ∙ e) in
          (x, same, subst (λ z. IsParent (row ∷ db.backups) z x) (sym new) h)
      kept_link b p (inr old) e =
          let (x, same, h) = ready.chained.linked b p old e in (x, same, keep-IsParent b x old h)
