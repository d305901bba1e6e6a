-- ===== src/Store/Usage/Groups.antt =====
-- deployables/backend/internal/store/billing.go, UsageSummary: what its groups are to be, and what
-- grouping one event does to the keys.
use aime.Base.{
  ℕ, ◌≤◌, ◌==◌, ◌&&◌, ◌||◌, not, Bool, true, false, ◌≡◌, ◌⊎◌, refl, inl, inr, Bool-cases, &&-true,
  List, [], ◌∷◌, if◌then◌else◌, arith,
}
use aime.Base.Lists.{exists, count, update}
use aime.Base.Member.{In}
use aime.Base.Int.{ℤ, pos, ◌+ℤ◌, ltb_ℤ, int_laws}
use aime.Base.Bytes.{Bytes, bytes_eq, bytes_eq_comm, eq_of_bytes_eq}
use aime.Store.Schema.{UsageEvent, UsageEventRow}
use aime.Store.Usage.{UsageRow, in_group, new_group, add_to_group, insert_group}

-- An event of the account, not older than `since`, with that kind, model and unit.
abbrev pub is_counted : ℕ → ℤ → Bytes → Bytes → Bytes → UsageEventRow → Bool
is_counted i since kind model unit e =
    (e.account_id == i)
    && not (ltb_ℤ e.created_at since)
    && bytes_eq e.event.kind kind
    && bytes_eq e.event.model model
    && bytes_eq e.event.unit unit

abbrev pub is_row : Bytes → Bytes → Bytes → UsageRow → Bool
is_row kind model unit r = bytes_eq kind r.kind && bytes_eq model r.model && bytes_eq unit r.unit

-- A column of the events that `p` picks, summed.
abbrev pub total : (UsageEvent → ℤ) → (UsageEventRow → Bool) → List UsageEventRow → ℤ
total f p [] = pos 0
total f p (e ∷ es) = let rest = total f p es in if p e then f e.event +ℤ rest else rest

-- The row for a kind, a model and a unit.
abbrev pub summary_of : ℕ → ℤ → Bytes → Bytes → Bytes → List UsageEventRow → UsageRow
summary_of i since kind model unit es = record {
  kind = kind;
  model = model;
  unit = unit;
  calls = count (is_counted i since kind model unit) es;
  quantity = total (λ e. e.quantity) (is_counted i since kind model unit) es;
  cost_microcredits = total (λ e. e.cost_microcredits) (is_counted i since kind model unit) es;
}

-- One row for each kind, model and unit that occurs, and no other row.
pub record Summed (i : ℕ) (since : ℤ) (es : List UsageEventRow) (rows : List UsageRow)
    : Type 0 where
  pub exact : (r : UsageRow) → In r rows → r ≡ summary_of i since r.kind r.model r.unit es
  pub complete :
      (kind model unit : Bytes)
      → exists (is_row kind model unit) rows ≡ exists (is_counted i since kind model unit) es
  pub once : (kind model unit : Bytes) → count (is_row kind model unit) rows ≤ 1

pub count-none : {A : Type 0} (p : A → Bool) (xs : List A) → exists p xs ≡ false → count p xs ≡ 0
count-none p [] h = refl
count-none p (x ∷ xs) h = ground (arith, count-none p xs)

pub total-none :
    (f : UsageEvent → ℤ) (p : UsageEventRow → Bool) (es : List UsageEventRow)
    → exists p es ≡ false
    → total f p es ≡ pos 0
total-none f p [] h = refl
total-none f p (e ∷ es) h = ground (arith, total-none f p es)

pub plus_zero : (x : ℤ) → x ≡ x +ℤ pos 0
plus_zero x = omega int_laws

-- Rows that only change what they count keep their keys.
pub count-update :
    (ev : UsageEvent) (kind model unit : Bytes) (q : UsageRow → Bool) (rs : List UsageRow)
    → count (is_row kind model unit) (update q (add_to_group ev) rs)
      ≡ count (is_row kind model unit) rs
count-update ev kind model unit q [] = refl
count-update ev kind model unit q (r ∷ rs) = elim (Bool-cases (q r)) [
  | inl e ↦ rw (e, count-update ev kind model unit q rs) refl
  | inr e ↦ rw (e, count-update ev kind model unit q rs) refl
]

pub exists-update :
    (ev : UsageEvent) (kind model unit : Bytes) (q : UsageRow → Bool) (rs : List UsageRow)
    → exists (is_row kind model unit) (update q (add_to_group ev) rs)
      ≡ exists (is_row kind model unit) rs
exists-update ev kind model unit q [] = refl
exists-update ev kind model unit q (r ∷ rs) = elim (Bool-cases (q r)) [
  | inl e ↦ rw (e, exists-update ev kind model unit q rs) refl
  | inr e ↦ rw (e, exists-update ev kind model unit q rs) refl
]

module _ (before : UsageEvent → UsageRow → Bool) (ev : UsageEvent) where
  pub In-insert_group :
      (r : UsageRow) (rs : List UsageRow)
      → In r (insert_group before ev rs)
      → (r ≡ new_group ev) ⊎ In r rs
  unfolding insert_group
  In-insert_group r [] (inl e) = inl e
  In-insert_group r [] (inr i) = absurd i
  In-insert_group r (x ∷ xs) h = elim (Bool-cases (before ev x)) [
    | inl b ↦ rw b at h
    | inr b ↦ below (rw b at h) (In-insert_group r xs)
  ]
    where
      below :
          In r (x ∷ insert_group before ev xs)
          → (In r (insert_group before ev xs) → (r ≡ new_group ev) ⊎ In r xs)
          → (r ≡ new_group ev) ⊎ In r (x ∷ xs)
      below (inl e) k = inr (inl e)
      below (inr i) k = elim (k i) [ inl e ↦ inl e | inr j ↦ inr (inr j) ]

  pub exists-insert_group :
      (p : UsageRow → Bool) (rs : List UsageRow)
      → exists p (insert_group before ev rs) ≡ p (new_group ev) || exists p rs
  unfolding insert_group
  exists-insert_group p [] = refl
  exists-insert_group p (r ∷ rs) = ground (
    arith,
    exists-insert_group p rs,
    Bool-cases (before ev r),
    Bool-cases (p r),
    Bool-cases (p (new_group ev)),
  )

  pub count-insert_group :
      (p : UsageRow → Bool) (rs : List UsageRow)
      → count p (insert_group before ev rs) ≡ count p (new_group ev ∷ rs)
  unfolding insert_group
  count-insert_group p [] = refl
  count-insert_group p (r ∷ rs) = ground (
    arith,
    count-insert_group p rs,
    Bool-cases (before ev r),
    Bool-cases (p r),
    Bool-cases (p (new_group ev)),
  )

-- The key of an event, from a row's side and from the event's.
unfoldable pub has_key : Bytes → Bytes → Bytes → UsageEvent → Bool
has_key kind model unit ev =
    bytes_eq ev.kind kind && bytes_eq ev.model model && bytes_eq ev.unit unit

pub key_of_new :
    (kind model unit : Bytes) (ev : UsageEvent)
    → is_row kind model unit (new_group ev) ≡ has_key kind model unit ev
unfolding has_key
key_of_new kind model unit ev =
    rw (bytes_eq_comm kind ev.kind, bytes_eq_comm model ev.model, bytes_eq_comm unit ev.unit) refl

pub group_of_key :
    (kind model unit : Bytes) (ev : UsageEvent) (rs : List UsageRow)
    → has_key kind model unit ev ≡ true
    → exists (is_row kind model unit) rs ≡ exists (in_group ev) rs
unfolding has_key
group_of_key kind model unit ev rs h =
    let (ab, c) =
      &&-true (bytes_eq ev.kind kind && bytes_eq ev.model model) (bytes_eq ev.unit unit) h in
    let (a, b) = &&-true (bytes_eq ev.kind kind) (bytes_eq ev.model model) ab in
    rw
      (
        ← eq_of_bytes_eq ev.kind kind a,
        ← eq_of_bytes_eq ev.model model b,
        ← eq_of_bytes_eq ev.unit unit c,
      )
      refl
