-- ===== src/Store/Usage/Summed.antt =====
-- deployables/backend/internal/store/billing.go, UsageSummary: the groups against the events that they
-- stand for.
use aime.Base.{
  ℕ, ◌≤◌, ◌&&◌, ◌||◌, Bool, true, false, ◌≡◌, ◌⊎◌, refl, sym, ap, subst, ◌∙◌, inl, inr, Bool-cases,
  List, [], ◌∷◌, if◌then◌else◌, arith,
}
use aime.Base.Lists.{select, exists, count, update}
use aime.Base.Member.{In, In-update, exists-none}
use aime.Base.Int.{ℤ, fits_bigint}
use aime.Base.Bytes.{Bytes, bytes_eq_refl}
use aime.Store.Schema.{UsageEvent, UsageEventRow}
use aime.Store.Query.{Conn, exec, head_fault}
use aime.Store.Query.Rules.{Ends}
use aime.Store.Usage.{
  UsageRow, is_used_by, in_group, new_group, add_to_group, insert_group, add_event, group_events,
  all_fit, read_usage, usage_summary,
}
use aime.Store.Usage.Groups.{
  is_counted, is_row, summary_of, Summed, count-none, total-none, plus_zero, count-update,
  exists-update, In-insert_group, exists-insert_group, count-insert_group, has_key, key_of_new,
  group_of_key,
}

module _ (before : UsageEvent → UsageRow → Bool) (i : ℕ) (since : ℤ) (e : UsageEventRow)
    (es : List UsageEventRow) (rows : List UsageRow) (old : Summed i since es rows) where
  -- An event of another account, or an older one.
  skip-Summed : is_used_by i since e ≡ false → Summed i since (e ∷ es) rows
  skip-Summed h = record {
    exact = λ r m. rw (none_counted r.kind r.model r.unit) (old.exact r m);
    complete = λ k m u. rw (none_counted k m u) (old.complete k m u);
    once = old.once;
  }
    where
      none_counted : (k m u : Bytes) → is_counted i since k m u e ≡ false
      none_counted k m u = ground arith

  module _ (used : is_used_by i since e ≡ true) where
    counted_key : (k m u : Bytes) → is_counted i since k m u e ≡ has_key k m u e.event
    unfolding has_key
    counted_key k m u = ground arith

    -- The event joins the group of its key.
    joined :
        (r x : UsageRow) (b : Bool)
        → In x rows
        → in_group e.event x ≡ b
        → r ≡ (if b then add_to_group e.event x else x)
        → r ≡ summary_of i since r.kind r.model r.unit (e ∷ es)
    unfolding has_key
    joined r x true m g q =
        subst (λ y. y ≡ summary_of i since y.kind y.model y.unit (e ∷ es)) (sym q)
          (rw (counted_key x.kind x.model x.unit, has_key, g)
            (ap (add_to_group e.event) (old.exact x m)))
    joined r x false m g q =
        subst (λ y. y ≡ summary_of i since y.kind y.model y.unit (e ∷ es)) (sym q)
          (rw (counted_key x.kind x.model x.unit, has_key, g) (old.exact x m))

    -- The row of a key that no row had.
    opened :
        exists (in_group e.event) rows ≡ false
        → new_group e.event ≡ summary_of i since e.event.kind e.event.model e.event.unit (e ∷ es)
    unfolding has_key
    opened h =
        let c : exists (is_counted i since e.event.kind e.event.model e.event.unit) es ≡ false =
          sym (old.complete e.event.kind e.event.model e.event.unit) ∙ h in
        rw
          (
            counted_key e.event.kind e.event.model e.event.unit,
            has_key,
            bytes_eq_refl e.event.kind,
            bytes_eq_refl e.event.model,
            bytes_eq_refl e.event.unit,
            count-none _ es c,
            total-none (λ x. x.quantity) _ es c,
            total-none (λ x. x.cost_microcredits) _ es c,
            ← plus_zero e.event.quantity,
            ← plus_zero e.event.cost_microcredits,
          )
          refl

    join-Summed :
        exists (in_group e.event) rows ≡ true
        → Summed i since (e ∷ es) (update (in_group e.event) (add_to_group e.event) rows)
    join-Summed h = record {
      exact = λ r m.
          let (x, at, q) = In-update (in_group e.event) (add_to_group e.event) r rows m in
          joined r x (in_group e.event x) at refl q;
      complete = λ k m u. exists-update e.event k m u (in_group e.event) rows ∙ there k m u;
      once = λ k m u.
          subst (λ n. n ≤ 1) (sym (count-update e.event k m u (in_group e.event) rows))
            (old.once k m u);
    }
      where
        there :
            (k m u : Bytes)
            → exists (is_row k m u) rows
              ≡ is_counted i since k m u e || exists (is_counted i since k m u) es
        there k m u = elim (Bool-cases (has_key k m u e.event)) [
          | inl key ↦ rw (counted_key k m u, key) (group_of_key k m u e.event rows key ∙ h)
          | inr key ↦ rw (counted_key k m u, key) (old.complete k m u)
        ]

    open-Summed :
        exists (in_group e.event) rows ≡ false
        → Summed i since (e ∷ es) (insert_group before e.event rows)
    open-Summed h = record {
      exact = λ r m. elim (In-insert_group before e.event r rows m) [
        | inl q ↦
            subst (λ y. y ≡ summary_of i since y.kind y.model y.unit (e ∷ es)) (sym q) (opened h)
        | inr at ↦ joined r r false at (exists-none (in_group e.event) r rows h at) refl
      ];
      complete = λ k m u.
          rw
            (
              exists-insert_group before e.event (is_row k m u) rows,
              key_of_new k m u e.event,
              counted_key k m u,
              old.complete k m u,
            )
            refl;
      once = λ k m u.
          subst (λ n. n ≤ 1) (sym (count-insert_group before e.event (is_row k m u) rows))
            (single k m u);
    }
      where
        single : (k m u : Bytes) → count (is_row k m u) (new_group e.event ∷ rows) ≤ 1
        single k m u = elim (Bool-cases (has_key k m u e.event)) [
          | inl key ↦
              rw
                (
                  key_of_new k m u e.event,
                  key,
                  count-none (is_row k m u) rows (group_of_key k m u e.event rows key ∙ h),
                )
                (omega arith)
          | inr key ↦ rw (key_of_new k m u e.event, key) (old.once k m u)
        ]

    add-Summed : Summed i since (e ∷ es) (add_event before e.event rows)
    unfolding add_event
    add-Summed = elim (Bool-cases (exists (in_group e.event) rows)) [
      | inl h ↦ rw h (join-Summed h)
      | inr h ↦ rw h (open-Summed h)
    ]

-- A kind, a model and a unit whose sums do not both fit a BIGINT.
abbrev pub TooBig : ℕ → ℤ → List UsageEventRow → Type 0
TooBig i since es =
    (kind model unit : Bytes) × (fits_bigint (summary_of i since kind model unit es).quantity
        && fits_bigint (summary_of i since kind model unit es).cost_microcredits
      ≡ false)

module _ (before : UsageEvent → UsageRow → Bool) (i : ℕ) (since : ℤ) where
  groups-Summed :
      (es : List UsageEventRow)
      → Summed i since es (group_events before (select (is_used_by i since) es))
  unfolding group_events
  groups-Summed [] = record {
    exact = λ r m. absurd m;
    complete = λ k m u. refl;
    once = λ k m u. omega arith;
  }
  groups-Summed (e ∷ es) = elim (Bool-cases (is_used_by i since e)) [
    | inl h ↦ rw h (add-Summed before i since e es _ (groups-Summed es) h)
    | inr h ↦ rw h (skip-Summed before i since e es _ (groups-Summed es) h)
  ]

  unfit :
      (es : List UsageEventRow) (rows : List UsageRow)
      → ((r : UsageRow) → In r rows → r ≡ summary_of i since r.kind r.model r.unit es)
      → all_fit before rows ≡ false
      → TooBig i since es
  unfit es [] exact h = absurd (ground arith)
  unfit es (r ∷ rs) exact h =
      elim (Bool-cases (fits_bigint r.quantity && fits_bigint r.cost_microcredits)) [
        | inl e ↦ unfit es rs (λ x m. exact x (inr m)) (rw e at h)
        | inr e ↦ (
          r.kind,
          r.model,
          r.unit,
          subst (λ x. fits_bigint x.quantity && fits_bigint x.cost_microcredits ≡ false)
              (exact r (inl refl)) e,
        )
      ]

  -- `UsageSummary` changes no table. What it answers has one row for each kind, model and unit among the
  -- events of the account that are not older than `since`, and no other row; a row has the number of
  -- those events with its kind, model and unit, and the sums of their quantities and costs. It fails
  -- only if the statement fails on the connection, or if one of those sums fits no BIGINT.
  pub usage_summary-Summed :
      (c : Conn)
      → Ends
          (λ db. (db ≡ c.db) × ((head_fault c.faults ≡ true) ⊎ TooBig i since c.db.usage_events))
          (λ rows db. (db ≡ c.db) × Summed i since c.db.usage_events rows)
          (usage_summary before i since c)
  unfolding usage_summary exec read_usage
  usage_summary-Summed c =
      let rows = group_events before (select (is_used_by i since) c.db.usage_events) in
      let summed = groups-Summed c.db.usage_events in
      elim (Bool-cases (head_fault c.faults)) [
        | inl e ↦ rw e (refl, inl refl)
        | inr e ↦ elim (Bool-cases (all_fit before rows)) [
          | inl f ↦ rw (e, f) (refl, summed)
          | inr f ↦ rw (e, f) (refl, inr (unfit c.db.usage_events rows summed.exact f))
        ]
      ]
