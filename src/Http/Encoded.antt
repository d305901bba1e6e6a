-- ===== src/Http/Encoded.antt =====
-- deployables/backend/internal/httpapi/embed.go and rerank.go: what their requests come to.
use aime.Base.{ℕ, ◌==◌, Bool, false, ◌≡◌, Option, none, some, List, map}
use aime.Base.Int.{ℤ, pos, pos_part, ltb_ℤ}
use aime.Base.Bytes.{Bytes}
use aime.Billing.{Ledger, embed, rerank, Info, Receipt}
use aime.Http.World.{embedded, reranked, Response, respond, silent, World, Identity}
use aime.Http.Login.{Text}
use aime.Http.Infer.{validate_text, validate_texts, ModelRun}
use aime.Http.Charging.{InferEnd}
use aime.Http.Rank.{rank}
use aime.Http.Encoding.{usage, RerankRequest, pair_of}

-- A result goes out.
abbrev pub is_ok : Response → Bool
is_ok (respond code body) = code == 200
is_ok silent = false

module _ (text : Text) (ledger : Ledger) (info : Info) where
  -- No result, and nothing booked.
  abbrev pub Refused : World → Response → World → Type 0
  Refused old r new = (is_ok r ≡ false) × (new.conn.db ≡ old.conn.db)

  -- The vectors of valid texts, for the account of a session, with what was booked.
  pub record Embedded (ctx : Option Identity) (body : Option (List Bytes))
      (model : ModelRun (List (List ℕ))) (old : World) (r : Response) (new : World) : Type 0 where
    pub me : Identity
    pub texts : List Bytes
    pub vectors : List (List ℕ)
    pub tokens : ℤ
    pub receipt : Receipt
    pub session : ctx ≡ some me
    pub request : body ≡ some texts
    pub valid : validate_texts text texts ≡ none
    pub response :
        r ≡ respond 200 (embedded info.embed_model info.embed_dim vectors (usage tokens receipt))
    pub booked : InferEnd ledger info me.account_id embed model old (vectors, tokens, receipt) new

  -- The hits of valid documents for a valid query, best first, with what was booked.
  pub record Reranked (gt : ℕ → ℕ → Bool) (ctx : Option Identity) (body : Option RerankRequest)
      (model : ModelRun (List ℕ)) (old : World) (r : Response) (new : World) : Type 0 where
    pub me : Identity
    pub req : RerankRequest
    pub scores : List ℕ
    pub tokens : ℤ
    pub receipt : Receipt
    pub session : ctx ≡ some me
    pub request : body ≡ some req
    pub query_valid : validate_text text req.query ≡ none
    pub docs_valid : validate_texts text req.docs ≡ none
    pub top_k_valid : ltb_ℤ req.top_k (pos 0) ≡ false
    pub response :
        r
        ≡ respond 200 (
            reranked info.rerank_model
              (map pair_of (rank gt (pos_part req.top_k) scores))
              (usage tokens receipt))
    pub booked : InferEnd ledger info me.account_id rerank model old (scores, tokens, receipt) new
