-- ===== src/Encode/Open.antt =====
-- deployables/backend/internal/encode/encode.go and onnx.go: Open, with the sessions that are open
-- behind it. The two warm-up runs answer as arguments say.
use aime.Base.{ℕ, ◌==◌, ◌||◌, not, ◌≡◌, refl, Bool, true, false, List, [], ◌∷◌, if◌then◌else◌}
use aime.Base.Lists.{delete}
use aime.Base.Bytes.{Bytes, bytes, bytes_eq}
use aime.Encode.Onnx.{
  Outcome, done, failed, panicked, EncodeError, bad_pooling, library_failed, not_implemented,
  unknown_backend, Runtime, Model, check_model_dir, open_model,
}

pub record Onnx : Type 0 where
  pub pooling : Bytes
  pub embed : Model
  pub rerank : Model
  pub embed_dim : ℕ

pub data Encoder : Type 0 where
  stub : Encoder
  onnx : Onnx → Encoder

-- The sessions of the embedding and of the reranking model.
pub data Session : Type 0 where
  embed_session rerank_session : Session

abbrev pub Opening : Type 0
Opening = Outcome Encoder × List Session

abbrev pub both : List Session
both = embed_session ∷ rerank_session ∷ []

abbrev pub last_dim : List ℕ → ℕ
last_dim [] = 0
last_dim (d ∷ []) = d
last_dim (d ∷ e ∷ ds) = last_dim (e ∷ ds)

abbrev pub is_same : Session → Session → Bool
is_same embed_session embed_session = true
is_same rerank_session rerank_session = true
is_same a b = false

-- `close`, of one model after the other.
abbrev pub close : List Session → List Session → List Session
close [] live = live
close (s ∷ ss) live = close ss (delete (is_same s) live)

-- A step with the sessions that are open, those that the code closes when the step fails, and what
-- comes behind it.
abbrev pub step : {A : Type 0} → Outcome A → List Session → List Session → (A → Opening) → Opening
step (done a) live closed f = f a
step (failed e) live closed f = (failed e, close closed live)
step panicked live closed f = (panicked, live)

-- `return nil, err` before a session is open.
abbrev pub give_up : EncodeError → Opening
give_up e = (failed e, [])

module _ (rt : Runtime) (warm_embed : Model → Outcome ℕ)
    (warm_rerank : Model → Outcome (Unit {0})) where
  -- The dimension that the graph does not say is the length of the vector of the warm-up.
  unfoldable pub warm_up : Bytes → Model → Model → Opening
  warm_up pooling e r = step (warm_embed e) both both λ n. step (warm_rerank r) both both λ u. (
    done (
        onnx (record {
          pooling = pooling;
          embed = e;
          rerank = r;
          embed_dim = if last_dim e.out_dims == 0 then n else last_dim e.out_dims;
        })),
    both,
  )

  unfoldable pub open_models : Bytes → Bytes → Opening
  open_models model_dir pooling = step (open_model rt model_dir (bytes "embed")) [] [] λ e.
      step (open_model rt model_dir (bytes "rerank")) (embed_session ∷ []) (embed_session ∷ [])
        λ r. warm_up pooling e r

  unfoldable pub open_onnx : Bytes → Bytes → Opening
  open_onnx model_dir pooling =
      step (check_model_dir rt model_dir (bytes "embed" ∷ bytes "rerank" ∷ [])) [] [] λ u.
        if not (bytes_eq pooling (bytes "cls") || bytes_eq pooling (bytes "mean"))
        then give_up bad_pooling
        else if not rt.initializes
        then give_up library_failed
        else if not rt.options
        then give_up library_failed
        else open_models model_dir pooling

  -- `Open`; `tagged` says whether the program is built with the tag `onnx`.
  unfoldable pub open_encoder : Bool → Bytes → Bytes → Bytes → Opening
  open_encoder tagged backend model_dir pooling =
      if bytes_eq backend (bytes "stub")
      then (done stub, [])
      else if bytes_eq backend (bytes "onnx")
      then if tagged then open_onnx model_dir pooling else give_up not_implemented
      else if bytes_eq backend (bytes "hailo")
      then give_up not_implemented
      else give_up unknown_backend

  -- An encoder has just the sessions that it uses, and an error leaves none open.
  abbrev pub OpenEnd : Opening → Type 0
  OpenEnd (done stub, live) = live ≡ []
  OpenEnd (done (onnx o), live) = live ≡ both
  OpenEnd (failed e, live) = live ≡ []
  OpenEnd (panicked, live) = Unit

  step-OpenEnd :
      {A : Type 0} (o : Outcome A) (live closed : List Session) (f : A → Opening)
      → close closed live ≡ []
      → ((a : A) → OpenEnd (f a))
      → OpenEnd (step o live closed f)
  step-OpenEnd (done a) live closed f e h = h a
  step-OpenEnd (failed x) live closed f e h = e
  step-OpenEnd panicked live closed f e h = tt

  either-OpenEnd : (b : Bool) (x y : Opening) → OpenEnd x → OpenEnd y → OpenEnd (if b then x else y)
  either-OpenEnd true x y p q = p
  either-OpenEnd false x y p q = q

  open_onnx-OpenEnd : (model_dir pooling : Bytes) → OpenEnd (open_onnx model_dir pooling)
  unfolding open_onnx open_models warm_up
  open_onnx-OpenEnd model_dir pooling =
      step-OpenEnd (check_model_dir rt model_dir _) [] [] _ refl λ u.
        either-OpenEnd (not (bytes_eq pooling (bytes "cls") || bytes_eq pooling (bytes "mean"))) _ _
          refl
          (either-OpenEnd (not rt.initializes) _ _ refl (
            either-OpenEnd (not rt.options) _ _ refl (
              step-OpenEnd (open_model rt model_dir (bytes "embed")) [] [] _ refl λ e.
                step-OpenEnd (open_model rt model_dir (bytes "rerank")) (embed_session ∷ [])
                  (embed_session ∷ []) _ refl
                  λ r.
                    step-OpenEnd (warm_embed e) both both _ refl
                      λ n. step-OpenEnd (warm_rerank r) both both _ refl λ u. refl)))

  -- Whatever the files and the libraries answer, an opening that fails leaves no session open, and one
  -- that succeeds has those of its encoder: none for the stub, two for ONNX.
  pub open_encoder-OpenEnd :
      (tagged : Bool) (backend model_dir pooling : Bytes)
      → OpenEnd (open_encoder tagged backend model_dir pooling)
  unfolding open_encoder
  open_encoder-OpenEnd tagged backend model_dir pooling =
      either-OpenEnd (bytes_eq backend (bytes "stub")) _ _ refl (
        either-OpenEnd (bytes_eq backend (bytes "onnx")) _ _
          (either-OpenEnd tagged _ _ (open_onnx-OpenEnd model_dir pooling) refl)
          (either-OpenEnd (bytes_eq backend (bytes "hailo")) _ _ refl refl))
