-- ===== src/Http/Charging.antt =====
-- deployables/backend/internal/httpapi/infer.go: what runInference books, on every way out.
use aime.Base.{ℕ, ◌≡◌, ◌⊎◌, true, some}
use aime.Base.Lists.{first}
use aime.Base.Int.{ℤ, pos, ◌<ℤ◌}
use aime.Base.Bytes.{bytes}
use aime.Billing.{Ledger, Kind, kind_name, Info, model_for, Receipt, cost}
use aime.Store.Schema.{Account, UsageEvent, Db}
use aime.Store.Billing.{has_id}
use aime.Store.Billing.Ledger.{Pays}
use aime.Store.Billing.Charges.{Charged}
use aime.Http.World.{World}
use aime.Http.Infer.{InferError, ModelRun, finished, no_receipt}

-- A balance above zero.
abbrev pub HasCredit : ℕ → Db → Type 0
HasCredit i db =
    (a : Account) × (first (has_id i) db.accounts ≡ some a) × (pos 0 <ℤ a.balance_microcredits)

module _ (ledger : Ledger) where
  -- The entry for a call of a model.
  abbrev pub usage_event : Kind → Info → ℤ → UsageEvent
  usage_event kind info tokens = record {
    kind = kind_name kind;
    model = model_for kind info;
    backend = info.backend;
    quantity = tokens;
    unit = bytes "tokens";
    cost_microcredits = cost ledger.pricing kind tokens;
  }

  -- The receipt of a charge that went through.
  abbrev pub Booked : ℕ → Kind → Info → ℤ → Db → Receipt → Db → Type 0
  Booked i kind info tokens old receipt new =
      (receipt.cost_microcredits ≡ cost ledger.pricing kind tokens)
      × Charged i (usage_event kind info tokens) old receipt.balance_microcredits new
      × Pays old new

  module _ {A : Type 0} (info : Info) (i : ℕ) (kind : Kind) (model : ModelRun A) (old : World) where
    abbrev Same : World → Type 0
    Same w = w.conn.db ≡ old.conn.db

    -- A result goes out: of a run of the model, to an account with credit where that is enforced,
    -- booked and paid for, or with an empty receipt and nothing booked.
    pub record InferEnd (r : A × ℤ × Receipt) (new : World) : Type 0 where
      pub ran : model ≡ finished r.0 r.1
      pub credit : ledger.enforce ≡ true → HasCredit i old.conn.db
      pub outcome :
          Booked i kind info r.1 old.conn.db r.2 new.conn.db
          ⊎ ((r.2 ≡ no_receipt) × (new.conn.db ≡ old.conn.db))

    abbrev E : InferError → World → Type 0
    E _ = Same
