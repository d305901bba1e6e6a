-- ===== src/Http/Infer.antt =====
-- deployables/backend/internal/httpapi/infer.go, embed.go and rerank.go, with the limits of
-- internal/encode/encode.go: the checks before a model runs, and the charge behind it. How the model
-- answers is an argument.
use aime.Base.{ℕ, suc, not, ltb, ◌==◌, Option, none, some, List, [], ◌∷◌, if◌then◌else◌}
use aime.Base.Lists.{length}
use aime.Base.Int.{ℤ, pos}
use aime.Base.Bytes.{Bytes, bytes}
use aime.Billing.{Ledger, Kind, kind_name, Info, Receipt, precheck, charge_usage}
use aime.Store.Query.{StoreError}
use aime.Http.World.{
  billing_rejected, inference, charge_failure, charged, silent, respond, error, Response, Run, give,
  return_early, raise_count, when, on_store, ◌>>=◌, ◌>>◌,
}
use aime.Http.Login.{Text}

abbrev pub max_texts : ℕ
max_texts = 64

abbrev pub max_text_chars : ℕ
max_text_chars = 8192

pub data InputError : Type 0 where
  no_input empty_input input_too_long : InputError
  too_many_inputs : ℕ → InputError
  at_index : InputError → ℕ → InputError

module _ (text : Text) where
  open text use {runes, trim_space}

  unfoldable pub validate_text : Bytes → Option InputError
  validate_text t =
      if length (trim_space t) == 0
      then some empty_input
      else if ltb max_text_chars (runes t)
      then some input_too_long
      else none

  abbrev validate_each : ℕ → List Bytes → Option InputError
  validate_each i [] = none
  validate_each i (t ∷ ts) =
      let rest = validate_each (suc i) ts in
      elim (validate_text t) [ none ↦ rest | some e ↦ some (at_index e i) ]

  unfoldable pub validate_texts : List Bytes → Option InputError
  validate_texts ts =
      if length ts == 0
      then some no_input
      else if ltb max_texts (length ts)
      then some (too_many_inputs (length ts))
      else validate_each 0 ts

-- Why no result goes out.
pub data InferError : Type 0 where
  insufficient_credits canceled deadline_exceeded not_implemented failed : InferError
  store_failed : StoreError → InferError

-- What the wait for a slot and the model came to.
pub data ModelRun (A : Type 0) : Type 0 where
  finished : A → ℤ → ModelRun A
  broke : InferError → ModelRun A

abbrev pub infer_outcome : InferError → Bytes
infer_outcome deadline_exceeded = bytes "timeout"
infer_outcome _ = bytes "error"

-- `withInferSlot`, and the counter that is raised once for each time the model is asked.
unfoldable pub with_infer_slot : {A : Type 0} → Kind → ModelRun A → Run InferError (A × ℤ)
with_infer_slot kind (finished a tokens) =
    raise_count (inference (kind_name kind) (bytes "ok")) >> give (a, tokens)
with_infer_slot kind (broke e) =
    raise_count (inference (kind_name kind) (infer_outcome e)) >> return_early e

abbrev pub no_receipt : Receipt
no_receipt = record { cost_microcredits = pos 0; balance_microcredits = pos 0 }

module _ (ledger : Ledger) (info : Info) where
  -- precheck, slot, charge. A failed charge does not hold the result back.
  unfoldable pub run_inference :
      {A : Type 0} → ℕ → Kind → ModelRun A → Run InferError (A × ℤ × Receipt)
  run_inference account_id kind model = do
    allowed ← on_store (precheck ledger account_id) give (λ e. return_early (store_failed e))
    when (not allowed)
        (raise_count (billing_rejected (kind_name kind)) >> return_early insufficient_credits)
    (a, tokens) ← with_infer_slot kind model
    on_store (charge_usage ledger account_id kind info tokens)
        (λ receipt.
          raise_count (charged (kind_name kind) receipt.cost_microcredits)
          >> give (a, tokens, receipt))
        (λ e. raise_count (charge_failure (kind_name kind)) >> give (a, tokens, no_receipt))

-- `writeInferError`
unfoldable pub infer_response : InferError → Response
infer_response canceled = silent
infer_response insufficient_credits = respond 402 (error (bytes "insufficient credits"))
infer_response deadline_exceeded = respond 504 (error (bytes "inference timeout"))
infer_response not_implemented = respond 501 (error (bytes "backend not available"))
infer_response failed = respond 500 (error (bytes "internal"))
infer_response (store_failed e) = respond 500 (error (bytes "internal"))
