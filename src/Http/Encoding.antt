-- ===== src/Http/Encoding.antt =====
-- deployables/backend/internal/httpapi/embed.go and rerank.go: the handlers around runInference.
use aime.Base.{ℕ, Bool, Option, none, some, List, [], ◌++◌, map}
use aime.Base.Int.{ℤ, pos, pos_part, ltb_ℤ}
use aime.Base.Bytes.{Bytes, bytes}
use aime.Base.Decimal.{format_int}
use aime.Billing.{Ledger, Kind, embed, rerank, Info, Receipt}
use aime.Http.World.{
  embedded, reranked, InferUsage, Response, World, Step, next, stop, Handler, Identity, give, reply,
  fail_with, decoded, identified, ◌>>=◌, ◌>>◌, reject_if,
}
use aime.Http.Login.{Text}
use aime.Http.Infer.{
  InputError, no_input, empty_input, input_too_long, too_many_inputs, at_index, validate_text,
  validate_texts, InferError, ModelRun, run_inference, infer_response,
}
use aime.Http.Rank.{Hit, rank}

abbrev number : ℕ → Bytes
number n = format_int (pos n)

-- `Error()` of the errors of `ValidateTexts`.
unfoldable pub input_message : InputError → Bytes
input_message no_input = bytes "no input"
input_message empty_input = bytes "empty input"
input_message input_too_long = bytes "input too long: max 8192 chars"
input_message (too_many_inputs n) = bytes "too many inputs: " ++ (number n ++ bytes ", max 64")
input_message (at_index e i) = input_message e ++ (bytes " (index " ++ (number i ++ bytes ")"))

-- A check of the input that fails is answered by its message.
abbrev pub checked : Bytes → Option InputError → Handler (Unit {0})
checked label none = give tt
checked label (some e) = fail_with 400 (label ++ input_message e)

-- `if err != nil { s.writeInferError(w, err); return }`
unfoldable pub or_infer_error : {A : Type 0} → Step InferError A × World → Step Response A × World
or_infer_error (next a, w) = (next a, w)
or_infer_error (stop e, w) = (stop (infer_response e), w)

abbrev pub usage : ℤ → Receipt → InferUsage
usage tokens receipt = record {
  input_tokens = tokens;
  cost_microcredits = receipt.cost_microcredits;
  balance_microcredits = receipt.balance_microcredits;
}

abbrev pub pair_of : Hit ℕ → ℕ × ℕ
pair_of h = (h.index, h.score)

pub record RerankRequest : Type 0 where
  pub query : Bytes
  pub docs : List Bytes
  pub top_k : ℤ

module _ (text : Text) (ledger : Ledger) (info : Info) where
  abbrev pub inferred : {A : Type 0} → ℕ → Kind → ModelRun A → Handler (A × ℤ × Receipt)
  inferred account_id kind model w =
      or_infer_error (run_inference ledger info account_id kind model w)

  -- POST /v1/embed
  unfoldable pub handle_embed :
      Option Identity → Option (List Bytes) → ModelRun (List (List ℕ)) → Handler (Unit {0})
  handle_embed ctx body model = do
    me ← identified ctx
    texts ← decoded body
    checked [] (validate_texts text texts)
    (vectors, tokens, receipt) ← inferred me.account_id embed model
    reply 200 (embedded info.embed_model info.embed_dim vectors (usage tokens receipt))

  -- POST /v1/rerank; `gt` is Go's `>` on the bits of two float32.
  unfoldable pub handle_rerank :
      (ℕ → ℕ → Bool)
      → Option Identity
      → Option RerankRequest
      → ModelRun (List ℕ)
      → Handler (Unit {0})
  handle_rerank gt ctx body model = do
    me ← identified ctx
    req ← decoded body
    checked (bytes "query: ") (validate_text text req.query)
    checked (bytes "docs: ") (validate_texts text req.docs)
    reject_if (ltb_ℤ req.top_k (pos 0)) 400 (bytes "top_k must be >= 0")
    (scores, tokens, receipt) ← inferred me.account_id rerank model
    reply 200 (
        reranked info.rerank_model (map pair_of (rank gt (pos_part req.top_k) scores))
          (usage tokens receipt))
