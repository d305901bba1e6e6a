-- ===== src/Store/Backups/Admit.antt =====
-- deployables/backend/internal/store/backups.go, CreateBackup: what a backup that is admitted meets.
use aime.Base.{
  ℕ, suc, ◌<◌, ◌≡◌, refl, sym, ap, subst, ◌∙◌, ◌==◌, not, Bool, true, false, Option-cases, inl, inr,
  Option, none, some, List, ◌∷◌, arith, leb, eq_of_==, &&-true,
}
use aime.Base.Lists.{select, first, length}
use aime.Base.Member.{In, first-some}
use aime.Base.Int.{ℤ, pos, ltb_ℤ, ◌+ℤ◌, int64}
use aime.Base.Float.{Float64}
use aime.Store.Schema.{Backup, BackupKind, delta, Db}
use aime.Store.Query.{Conn, ok, exec, translate, no_rows, not_found, pure, backup_stale, ◌>>=◌}
use aime.Store.Query.Rules.{Ends-exec, Ends-bind, Ends-if, Ends-guard, Ends-check, Ends-translate}
use aime.Store.Billing.{owned_by, sum_sizes}
use aime.Store.Billing.Settle.{Then, scan_sum-value}
use aime.Store.Backups.{
  NewBackup, Quota, is_backup, read_backup, max_version, count_and_head, over_quota,
  check_total_cap, check_parent, insert_backup,
}
use aime.Store.Backups.Transactions.{admit_backup}
use aime.Store.Backups.Chain.{IsChained}
use aime.Store.Backups.Create.{IsReady, ParentOk, row-IsChained}

abbrev U : Db → Type 0
U _ = Unit {0}

pub read_backup-row :
    {A : Type 0} (p : Backup → Bool) (f : Backup → A) (now : ℤ) (db new : Db) (a : A)
    → read_backup p f now db ≡ ok (a, new)
    → (x : Backup) × In x db.backups × (p x ≡ true) × (f x ≡ a) × (db ≡ new)
read_backup-row p f now db new a h = elim (Option-cases (first p db.backups)) [
  | inl e ↦ absurd (ground arith)
  | inr (x, e) ↦ let (m, q) = first-some p x db.backups e in (x, m, q, ground arith, ground arith)
]

check_parent-Then :
    (i : ℕ) (rows : List Backup) (parent : Option ℕ) (c : Conn)
    → c.db.backups ≡ rows
    → let head = max_version (select (owned_by i) rows) in
      Then (λ kind db. ParentOk i rows parent kind × (db ≡ c.db)) (check_parent i head parent c)
unfolding check_parent
check_parent-Then i rows none c same = (inl (refl, refl), refl)
check_parent-Then i rows (some p) c same =
    Ends-bind U (λ v db. Found v × (db ≡ c.db)) Q _ _
      (Ends-translate U (λ v db. Found v × (db ≡ c.db)) no_rows not_found
        (read_backup (is_backup i p) (λ b. b.version)) c tt
        λ v db e.
          let (x, m, q, fx, t) =
            read_backup-row (is_backup i p) (λ b. b.version) c.now c.db db v e in
          let (ids, owner) = &&-true (x.id == p) (x.account_id == i) q in
          ((x, subst (In x) same m, eq_of_== _ _ ids, eq_of_== _ _ owner, fx), sym t))
      λ v c' (found, t). Ends-guard U Q (v == head) backup_stale (pure delta) c' tt λ e.
        let (x, m, ids, owner, fx) = found in
        (inr (x, m, ap some (sym ids), refl, owner, fx ∙ eq_of_== v head e), t)
  where
    head : ℕ
    head = max_version (select (owned_by i) rows)

    Found : ℕ → Type 0
    Found v = (x : Backup) × In x rows × (x.id ≡ p) × (x.account_id ≡ i) × (x.version ≡ v)

    Q : BackupKind → Db → Type 0
    Q kind db = ParentOk i rows (some p) kind × (db ≡ c.db)

-- The room that the server's cap leaves; no cap leaves all.
abbrev pub FitsCap : Quota → List Backup → ℤ → Type 0
FitsCap q rows size =
    ltb_ℤ (pos 0) q.total_cap_bytes ≡ true
    → ltb_ℤ q.total_cap_bytes (int64 (sum_sizes (select (λ b. true) rows) +ℤ size)) ≡ false

check_total_cap-Then :
    (q : Quota) (size : ℤ) (c : Conn)
    → Then (λ _ db. FitsCap q c.db.backups size × (db ≡ c.db)) (check_total_cap q size c)
unfolding check_total_cap
check_total_cap-Then q size c =
    Ends-if U Q (ltb_ℤ (pos 0) q.total_cap_bytes) _ _ c
      (λ _.
        Ends-bind U R Q _ _
          (Ends-exec U R _ c tt λ n db e.
            let (value, t) = scan_sum-value (λ b. true) c.now c.db db n e in (value, sym t))
          λ n c' (value, t).
            Ends-check U Q (not (ltb_ℤ q.total_cap_bytes (int64 (n +ℤ size)))) _ c' tt
              λ e. ((λ _. rw value (not-true _ e)), t))
      (λ e. ((λ e'. cc), refl))
  where
    R : ℤ → Db → Type 0
    R n db = (sum_sizes (select (λ b. true) c.db.backups) ≡ n) × (db ≡ c.db)

    Q : Unit {0} → Db → Type 0
    Q _ db = FitsCap q c.db.backups size × (db ≡ c.db)

    not-true : (b : Bool) → not b ≡ true → b ≡ false
    not-true true e = sym e
    not-true false e = refl

insert_backup-row :
    (i v : ℕ) (kind : BackupKind) (nb : NewBackup) (now : ℤ) (db new : Db) (row : Backup)
    → insert_backup i v kind nb now db ≡ ok (row, new)
    → ((row.id ≡ db.next_backup)
        × (row.account_id ≡ i)
        × (row.version ≡ v)
        × (row.kind ≡ kind)
        × (row.parent_id ≡ nb.parent_id)
        × (row.size_bytes ≡ nb.size_bytes)
        × (row.storage_path ≡ nb.storage_path)
        × (row.checksum ≡ nb.checksum)
        × (row.meta ≡ nb.meta))
      × (record db { backups = row ∷ db.backups; next_backup = suc db.next_backup } ≡ new)
unfolding insert_backup
insert_backup-row i v kind nb now db new row h = ground arith

-- What holds of a backup that `CreateBackup` has made, and of the limits it was held against.
pub record Admitted (i v : ℕ) (rows : List Backup) (q : Quota) (nb : NewBackup) (balance used : ℤ)
    (b : Backup) (db : Db) : Type 0 where
  pub chained : IsChained db
  pub newest : db.backups ≡ b ∷ rows
  pub owner : b.account_id ≡ i
  pub version : b.version ≡ v
  pub size : b.size_bytes ≡ nb.size_bytes
  pub path : b.storage_path ≡ nb.storage_path
  pub checksum : b.checksum ≡ nb.checksum
  pub meta : b.meta ≡ nb.meta
  pub parent_id : b.parent_id ≡ nb.parent_id
  pub parent : ParentOk i rows b.parent_id b.kind
  pub room : length (select (owned_by i) rows) < q.max_versions
  pub quota : over_quota q balance used nb.size_bytes ≡ false
  pub cap : FitsCap q rows nb.size_bytes

not-leb : (a b : ℕ) → not (leb a b) ≡ true → b < a
not-leb a b h = ground arith

not-true : (b : Bool) → not b ≡ true → b ≡ false
not-true true h = sym h
not-true false h = refl

count_and_head-value :
    (i : ℕ) (now : ℤ) (db new : Db) (r : ℕ × ℕ)
    → count_and_head i now db ≡ ok (r, new)
    → let rows = select (owned_by i) db.backups in
      (length rows ≡ r.0) × (max_version rows ≡ r.1) × (db ≡ new)
unfolding count_and_head
count_and_head-value i now db new r h = ground arith

module _ (fl : Float64) (i v : ℕ) (q : Quota) (nb : NewBackup) (balance used : ℤ) (d : Db)
    (ready : IsReady i v d.backups d) where
  abbrev Goal : Backup → Db → Type 0
  Goal = Admitted i v d.backups q nb balance used

  insert-Admitted :
      (kind : BackupKind) (c : Conn)
      → c.db ≡ d
      → length (select (owned_by i) d.backups) < q.max_versions
      → over_quota q balance used nb.size_bytes ≡ false
      → FitsCap q d.backups nb.size_bytes
      → ParentOk i d.backups nb.parent_id kind
      → Then Goal (translate no_rows not_found (exec (insert_backup i v kind nb)) c)
  insert-Admitted kind c t room quota cap parent =
      Ends-translate U Goal no_rows not_found (insert_backup i v kind nb) c tt λ row new e.
        let (at, made) =
          insert_backup-row i v kind nb c.now d new row
            (subst (λ x. insert_backup i v kind nb c.now x ≡ ok (row, new)) t e) in
        subst (Goal row) made (record {
          chained = row-IsChained i v kind nb d row ready parent (at.0, at.1, at.2, at.3, at.4);
          newest = refl;
          owner = at.1;
          version = at.2;
          size = at.5;
          path = at.6;
          checksum = at.7;
          meta = at.8;
          parent_id = at.4;
          parent = rw (at.3, at.4) parent;
          room = room;
          quota = quota;
          cap = cap;
        })

  parent-Admitted :
      (head : ℕ) (c : Conn)
      → max_version (select (owned_by i) d.backups) ≡ head
      → c.db ≡ d
      → length (select (owned_by i) d.backups) < q.max_versions
      → over_quota q balance used nb.size_bytes ≡ false
      → FitsCap q d.backups nb.size_bytes
      → Then Goal (
          (do
            kind ← check_parent i head nb.parent_id
            translate no_rows not_found (exec (insert_backup i v kind nb)))
            c)
  parent-Admitted head c at_head t room quota cap =
      Ends-bind U (λ kind db. ParentOk i d.backups nb.parent_id kind × (db ≡ c.db)) Goal _ _
        (subst
          (λ h.
            Then (λ kind db. ParentOk i d.backups nb.parent_id kind × (db ≡ c.db))
              (check_parent i h nb.parent_id c))
          at_head (check_parent-Then i d.backups nb.parent_id c (ap (λ x. x.backups) t)))
        λ kind c' (parent, t'). insert-Admitted kind c' (t' ∙ t) room quota cap parent

  pub admit_backup-Admitted :
      (c : Conn) → c.db ≡ d → Then Goal (admit_backup fl i q nb v balance used c)
  unfolding admit_backup
  admit_backup-Admitted c t =
      Ends-bind U (λ r db. (length rows ≡ r.0) × (max_version rows ≡ r.1) × (db ≡ d)) Goal _ _
        (Ends-exec U (λ r db. (length rows ≡ r.0) × (max_version rows ≡ r.1) × (db ≡ d))
          (count_and_head i) c tt
          λ r new e.
            let (n, m, same) =
              count_and_head-value i c.now d new r
                (subst (λ x. count_and_head i c.now x ≡ ok (r, new)) t e) in
            (n, m, sym same))
        λ r c₁ (count, head, t₁). Ends-guard U Goal (not (leb q.max_versions r.0)) _ _ c₁ tt λ e₁.
          Ends-guard U Goal (not (over_quota q balance used nb.size_bytes)) _ _ c₁ tt λ e₂.
            Ends-bind U (λ _ db. FitsCap q c₁.db.backups nb.size_bytes × (db ≡ c₁.db)) Goal _ _
              (check_total_cap-Then q nb.size_bytes c₁)
              λ _ c₂ (cap, t₂).
                parent-Admitted r.1 c₂ head (t₂ ∙ t₁) (rw count (not-leb _ _ e₁)) (not-true _ e₂)
                  (subst (λ x. FitsCap q x nb.size_bytes) (ap (λ x. x.backups) t₁) cap)
    where
      rows : List Backup
      rows = select (owned_by i) d.backups
