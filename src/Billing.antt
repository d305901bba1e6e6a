-- ===== src/Billing.antt =====
-- deployables/backend/internal/billing/billing.go: prices, the ledger, and the settlement of idle
-- accounts. `Kind` and `Info` are from internal/encode/encode.go.
pub mod Prices
use aime.Base.{ℕ, suc, ◌+◌, ◌*◌, ◌^◌, Bool, true, false, List, [], ◌∷◌, if◌then◌else◌}
use aime.Base.Int.{ℤ, pos, ◌+ℤ◌, ◌-ℤ◌, ◌*ℤ◌, ltb_ℤ, leb_ℤ, int64, quot}
use aime.Base.Bytes.{Bytes, bytes}
use aime.Base.Float.{Float64}
use aime.Store.Schema.{UsageEvent}
use aime.Store.Query.{Conn, Query, Result, ok, err, StoreError, pure, ◌>>=◌}
use aime.Store.Billing.{balance, charge, mb, storage_billing_due, settle_storage}

-- Microcredits.
pub record Pricing : Type 0 where
  pub embed_per_1k_tokens : ℤ
  pub rerank_per_1k_tokens : ℤ
  pub storage_per_gb_month : ℤ
  pub free_storage_mb : ℤ

abbrev pub default_pricing : Pricing
default_pricing = record {
  embed_per_1k_tokens = pos 20_000;
  rerank_per_1k_tokens = pos 50_000;
  storage_per_gb_month = pos 500_000;
  free_storage_mb = pos 500;
}

pub data Kind : Type 0 where
  embed rerank : Kind

abbrev pub kind_name : Kind → Bytes
kind_name embed = bytes "embed"
kind_name rerank = bytes "rerank"

pub record Info : Type 0 where
  pub backend : Bytes
  pub embed_model : Bytes
  pub embed_dim : ℕ
  pub rerank_model : Bytes

abbrev pub per_1k : Pricing → Kind → ℤ
per_1k p embed = p.embed_per_1k_tokens
per_1k p rerank = p.rerank_per_1k_tokens

-- `cost rounds up so no call is free`, in int64.
unfoldable pub cost : Pricing → Kind → ℤ → ℤ
cost p kind tokens =
    if leb_ℤ tokens (pos 0)
    then pos 0
    else quot (int64 (int64 (tokens *ℤ per_1k p kind) +ℤ pos 999)) 1000

unfoldable pub free_storage_bytes : Pricing → ℤ
free_storage_bytes p = int64 (p.free_storage_mb *ℤ pos mb)

unfoldable pub storage_billable : Pricing → ℤ → Bool
storage_billable p n = ltb_ℤ (free_storage_bytes p) n

abbrev pub gb : ℕ
gb = 2 ^ 30

-- Nanoseconds.
abbrev pub day : ℕ
day = 24 * 3_600_000_000_000

abbrev pub month : ℕ
month = 30 * day

module _ (fl : Float64) where
  open fl use {of_int, to_int, mul, div, ceil}

  unfoldable pub storage_cost : Pricing → ℤ → ℤ → ℤ
  storage_cost p n d =
      let over = int64 (n -ℤ free_storage_bytes p) in
      if leb_ℤ over (pos 0)
      then pos 0
      else if leb_ℤ d (pos 0)
      then pos 0
      else let gb_months =
          mul (div (of_int over) (of_int (pos gb))) (div (of_int d) (of_int (pos month))) in
        to_int (ceil (mul gb_months (of_int p.storage_per_gb_month)))

pub record Receipt : Type 0 where
  pub cost_microcredits : ℤ
  pub balance_microcredits : ℤ

pub data BillingError : Type 0 where
  insufficient_credits : BillingError
  store_failed : StoreError → BillingError

pub record Ledger : Type 0 where
  pub pricing : Pricing
  pub enforce : Bool

-- Whether the account may go on: `false` is `ErrInsufficientCredits`.
unfoldable pub precheck : Ledger → ℕ → Query Bool
precheck l account_id =
    if l.enforce then (do b ← balance account_id; pure (ltb_ℤ (pos 0) b)) else pure true

abbrev pub model_for : Kind → Info → Bytes
model_for embed info = info.embed_model
model_for rerank info = info.rerank_model

unfoldable pub charge_usage : Ledger → ℕ → Kind → Info → ℤ → Query Receipt
charge_usage l account_id kind info tokens = do
  b ← charge account_id (record {
    kind = kind_name kind;
    model = model_for kind info;
    backend = info.backend;
    quantity = tokens;
    unit = bytes "tokens";
    cost_microcredits = cost l.pricing kind tokens;
  })
  pure (record { cost_microcredits = cost l.pricing kind tokens; balance_microcredits = b })

pub record StorageBillingReport : Type 0 where
  pub accounts : ℕ
  pub microcredits : ℤ

abbrev pub no_report : StorageBillingReport
no_report = record { accounts = 0; microcredits = pos 0 }

abbrev pub add_to_report : StorageBillingReport → ℤ → StorageBillingReport
add_to_report rep c = record {
  accounts = suc rep.accounts;
  microcredits = int64 (rep.microcredits +ℤ c);
}

module _ (fl : Float64) (l : Ledger) (now : ℤ) where
  -- The report comes back with an error as well: what was settled stays settled.
  unfoldable pub settle_each :
      List ℕ
      → StorageBillingReport
      → Conn
      → Result StorageBillingReport × StorageBillingReport × Conn
  settle_each [] rep c = (ok rep, rep, c)
  settle_each (id ∷ ids) rep c =
      let (r, c') = settle_storage fl id (storage_cost fl l.pricing) now c in
      elim r [ ok paid ↦ settle_each ids (add_to_report rep paid) c' | err e ↦ (err e, rep, c') ]

  unfoldable pub bill_storage : Conn → Result StorageBillingReport × StorageBillingReport × Conn
  bill_storage c =
      let (r, c') = storage_billing_due (pos day) c in
      elim r [ ok due ↦ settle_each due no_report c' | err e ↦ (err e, no_report, c') ]
