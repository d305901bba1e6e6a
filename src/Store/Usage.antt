-- ===== src/Store/Usage.antt =====
-- deployables/backend/internal/store/billing.go: UsageSummary.
pub mod Groups
pub mod Summed
use aime.Base.{
  ℕ, suc, ◌+◌, Bool, true, not, ◌&&◌, ◌≡◌, refl, ◌∙◌, ap, List, [], ◌∷◌, if◌then◌else◌, Bool-cases,
  inl, inr, arith,
}
use aime.Base.Lists.{select, exists, update}
use aime.Base.Int.{ℤ, pos, ◌+ℤ◌, ltb_ℤ, fits_bigint, +ℤ_parts, eq_of_parts}
use aime.Base.Bytes.{Bytes, bytes_eq}
use aime.Base.{◌==◌}
use aime.Store.Schema.{UsageEvent, UsageEventRow}
use aime.Store.Query.{Statement, Query, ok, err, pg, out_of_range, exec}

pub record UsageRow : Type 0 where
  pub kind : Bytes
  pub model : Bytes
  pub unit : Bytes
  pub calls : ℕ
  pub quantity : ℤ
  pub cost_microcredits : ℤ

-- `account_id = $1 AND created_at >= $2`
abbrev pub is_used_by : ℕ → ℤ → UsageEventRow → Bool
is_used_by account_id since e = (e.account_id == account_id) && not (ltb_ℤ e.created_at since)

-- `GROUP BY kind, model, unit`
abbrev pub in_group : UsageEvent → UsageRow → Bool
in_group e r = bytes_eq e.kind r.kind && bytes_eq e.model r.model && bytes_eq e.unit r.unit

abbrev pub new_group : UsageEvent → UsageRow
new_group e = record {
  kind = e.kind;
  model = e.model;
  unit = e.unit;
  calls = 1;
  quantity = e.quantity;
  cost_microcredits = e.cost_microcredits;
}

abbrev pub add_to_group : UsageEvent → UsageRow → UsageRow
add_to_group e r = record r {
  calls = suc r.calls;
  quantity = e.quantity +ℤ r.quantity;
  cost_microcredits = e.cost_microcredits +ℤ r.cost_microcredits;
}

-- `before` is the order of texts in the database's collation, over kind, model and unit.
module _ (before : UsageEvent → UsageRow → Bool) where
  -- A group of its own, at its place in the order.
  unfoldable pub insert_group : UsageEvent → List UsageRow → List UsageRow
  insert_group e [] = new_group e ∷ []
  insert_group e (r ∷ rs) =
      let rest = insert_group e rs in if before e r then new_group e ∷ r ∷ rs else r ∷ rest

  unfoldable pub add_event : UsageEvent → List UsageRow → List UsageRow
  add_event e rs =
      if exists (in_group e) rs then update (in_group e) (add_to_group e) rs else insert_group e rs

  unfoldable pub group_events : List UsageEventRow → List UsageRow
  group_events [] = []
  group_events (e ∷ es) = add_event e.event (group_events es)

  -- A sum that fits no BIGINT does not scan into an int64.
  abbrev pub all_fit : List UsageRow → Bool
  all_fit [] = true
  all_fit (r ∷ rs) = fits_bigint r.quantity && fits_bigint r.cost_microcredits && all_fit rs

  unfoldable pub read_usage : ℕ → ℤ → Statement (List UsageRow)
  read_usage account_id since now db =
      let rows = group_events (select (is_used_by account_id since) db.usage_events) in
      if all_fit rows then ok (rows, db) else err (pg out_of_range)

  unfoldable pub usage_summary : ℕ → ℤ → Query (List UsageRow)
  usage_summary account_id since = exec (read_usage account_id since)
