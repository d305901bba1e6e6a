-- ===== src/Store/Backups/Remove.antt =====
-- deployables/backend/internal/store/backups.go, DeleteBackup and PruneBackups: what a deletion
-- leaves of the chain.
use native.Mathlib.Decide.{ℕ_discrete}
use aime.Base.{
  ℕ, ◌≤◌, ◌<◌, ◌≡◌, sym, ap, subst, ◌∙◌, ◌==◌, ◌↔◌, Bool, true, false, Bool-cases, Option-cases,
  inl, inr, none, some, List, arith, eq_of_==,
}
use aime.Base.Lists.{select, delete, exists}
use aime.Base.Member.{In, In-delete, delete-In, In-exists, exists-In, exists-none}
use aime.Base.Int.{ℤ}
use aime.Store.Schema.{Backup, full, delta, Db}
use aime.Store.Query.{ok, err, pg, foreign_key_violation}
use aime.Store.Backups.{is_below, is_orphan, delete_rows}
use aime.Store.Backups.Chain.{IsParent, IsChained}

abbrev pub kept : (Backup → Bool) → Db → List Backup
kept p db = delete p db.backups

not_orphan :
    (rest : List Backup) (b : Backup) (p : ℕ)
    → b.parent_id ≡ some p
    → is_orphan rest b ≡ false
    → exists (λ x. x.id == p) rest ≡ true
not_orphan rest b p e h = ground arith

orphan-lost :
    (rest : List Backup) (b : Backup)
    → is_orphan rest b ≡ true
    → (p : ℕ) × (b.parent_id ≡ some p) × (exists (λ x. x.id == p) rest ≡ false)
orphan-lost rest b h = elim (Option-cases b.parent_id) [
  | inl e ↦ absurd (ground arith)
  | inr (p, e) ↦ (p, e, ground arith)
]

delta_of_parent :
    (b : Backup) (p : ℕ)
    → (b.kind ≡ full) ↔ (b.parent_id ≡ none)
    → b.parent_id ≡ some p
    → b.kind ≡ delta
delta_of_parent b p k e = ground arith

ne_of_== : (a b : ℕ) → (a == b) ≡ false → a ≡ b → ⊥
ne_of_== a b h e = ground arith

-- Deleting rows keeps the chain where no delta loses its parent.
pub kept-IsChained :
    (p : Backup → Bool) (db : Db)
    → IsChained db
    → exists (is_orphan (kept p db)) (kept p db) ≡ false
    → IsChained (record db { backups = kept p db })
kept-IsChained p db h closed = record {
  known = h.known;
  one_counter = h.one_counter;
  owned = λ b m. h.owned b (was b m);
  fresh = λ b m. h.fresh b (was b m);
  id_unique = λ b c m n. h.id_unique b c (was b m) (was c n);
  version_unique = λ b c m n. h.version_unique b c (was b m) (was c n);
  counted = λ a b m n. h.counted a b m (was b n);
  kinds = λ b m. h.kinds b (was b m);
  linked = λ b q m e. link b q m e;
}
  where
    was : (b : Backup) → In b (kept p db) → In b db.backups
    was b m = (In-delete p b db.backups m).0

    link :
        (b : Backup) (q : ℕ)
        → In b (kept p db)
        → b.parent_id ≡ some q
        → (x : Backup) × (x.id ≡ q) × IsParent (kept p db) b x
    link b q m e =
        let (x, same, par) = h.linked b q (was b m) e in
        let (y, n, hit) =
          exists-In (λ z. z.id == q) (kept p db)
            (not_orphan (kept p db) b q e
              (exists-none (is_orphan (kept p db)) b (kept p db) closed m)) in
        let one : y ≡ x = h.id_unique y x (was y n) par.member (eq_of_== y.id q hit ∙ sym same) in
        (
          x,
          same,
          record {
            member = subst (λ z. In z (kept p db)) one n;
            same_account = par.same_account;
            older = par.older;
            adjacent = λ z k. par.adjacent z (was z k);
          },
        )

pub delete_rows-value :
    (p : Backup → Bool) (now : ℤ) (db new : Db) (out : List Backup)
    → delete_rows p now db ≡ ok (out, new)
    → (exists (is_orphan (kept p db)) (kept p db) ≡ false)
      × (select p db.backups ≡ out)
      × (record db { backups = kept p db } ≡ new)
unfolding delete_rows
delete_rows-value p now db new out h = ground arith

module _ (i n : ℕ) (db : Db) (h : IsChained db) (f : Backup) (member : In f db.backups)
    (owner : f.account_id ≡ i) (version : f.version ≡ n) where
  abbrev rest : List Backup
  rest = kept (is_below i n) db

  not_below : (b : Backup) → is_below i n b ≡ false → b.account_id ≡ i → n ≤ b.version
  not_below b e same = ground (arith, same)

  below : (x : Backup) → is_below i n x ≡ true → (x.account_id ≡ i) × (x.version < n)
  below x e = ground arith

  -- A row that stays has its parent among the rows that stay, when the boundary is full.
  parent-stays :
      (b x : Backup)
      → f.kind ≡ full
      → b.kind ≡ delta
      → In b rest
      → IsParent db.backups b x
      → is_below i n x ≡ false
  parent-stays b x fk bk m par = elim (Bool-cases (is_below i n x)) [
    | inr e ↦ e
    | inl e ↦
        let (xi, xn) = below x e in
        let (was, stays) = In-delete (is_below i n) b db.backups m in
        let above = not_below b stays (sym par.same_account ∙ xi) in absurd (clash was above xi xn)
  ]
    where
      apart : b ≡ f → ⊥
      apart e = cc (ap (λ z. z.kind) e)

      clash : In b db.backups → n ≤ b.version → x.account_id ≡ i → x.version < n → ⊥
      clash was above xi xn = elim (ℕ_discrete b.version n) [
        | yes e ↦ apart (
            h.version_unique b f was member (sym par.same_account ∙ xi ∙ sym owner)
              (e ∙ sym version))
        | no ne ↦ omega (
          arith,
          par.adjacent f member (owner ∙ sym xi ∙ par.same_account) (omega (arith, version)),
          version,
        )
      ]

  -- From a full version on the chain stands by itself: nothing that stays was built on what goes.
  pub full-closed : f.kind ≡ full → exists (is_orphan rest) rest ≡ false
  full-closed fk = elim (Bool-cases (exists (is_orphan rest) rest)) [
    | inr e ↦ e
    | inl e ↦ absurd (lost e)
  ]
    where
      lost : exists (is_orphan rest) rest ≡ true → ⊥
      lost e =
          let (b, m, o) = exists-In (is_orphan rest) rest e in
          let (p, link, gone) = orphan-lost rest b o in
          let was = (In-delete (is_below i n) b db.backups m).0 in
          let (x, same, par) = h.linked b p was link in
          let is_delta : b.kind ≡ delta = delta_of_parent b p (h.kinds b was) link in
          let stays =
            delete-In (is_below i n) x db.backups par.member (parent-stays b x fk is_delta m par) in
          let missed = exists-none (λ z. z.id == p) x rest gone stays in ne_of_== x.id p missed same

  -- A delta's parent lies below it, so a prune from a delta would cut the chain.
  delta-cut : f.kind ≡ delta → exists (is_orphan rest) rest ≡ true
  delta-cut fk = elim (Option-cases f.parent_id) [
    | inl e ↦ absurd (full_and_delta ((h.kinds f member).1 e))
    | inr (p, e) ↦
        let (x, same, par) = h.linked f p member e in
        let stays = delete-In (is_below i n) f db.backups member (boundary_stays f version) in
        In-exists (is_orphan rest) f rest stays (
          orphaned p e λ y m hit.
            let (was, above) = In-delete (is_below i n) y db.backups m in
            let one = h.id_unique y x was par.member (hit ∙ sym same) in
            let yi = ap (λ z. z.account_id) one ∙ par.same_account ∙ owner in
            omega (arith, not_below y above yi, ap (λ z. z.version) one, par.older, version))
  ]
    where
      full_and_delta : f.kind ≡ full → ⊥
      full_and_delta e = cc fk

      boundary_stays : (g : Backup) → g.version ≡ n → is_below i n g ≡ false
      boundary_stays g e = ground arith

      orphaned :
          (p : ℕ)
          → f.parent_id ≡ some p
          → ((y : Backup) → In y rest → y.id ≡ p → ⊥)
          → is_orphan rest f ≡ true
      orphaned p e nobody = elim (Bool-cases (exists (λ z. z.id == p) rest)) [
        | inr gone ↦ ground arith
        | inl there ↦
            let (y, m, hit) = exists-In (λ z. z.id == p) rest there in
            absurd (nobody y m (eq_of_== y.id p hit))
      ]

  -- The deletion behind a prune, from the row `f` of version `n`: the foreign key lets it through
  -- exactly when `f` is a full backup, and then it takes the rows below `n` and no other.
  pub delete_rows-boundary :
      (now : ℤ)
      → ((f.kind ≡ full)
          → delete_rows (is_below i n) now db
            ≡ ok (select (is_below i n) db.backups, record db { backups = rest }))
        × ((f.kind ≡ delta) → delete_rows (is_below i n) now db ≡ err (pg foreign_key_violation))
  unfolding delete_rows
  delete_rows-boundary now = (λ e. rw (full-closed e), λ e. rw (delta-cut e))
