-- ===== src/Encode/Infer.antt =====
-- deployables/backend/internal/encode/onnx.go: a run of a graph, Embed and Rerank, and the pooling.
use aime.Base.{
  ℕ, zero, suc, ◌+◌, ◌*◌, ◌/◌, leb, not, ◌==◌, Bool, Option, List, [], ◌∷◌, map, if◌then◌else◌,
}
use aime.Base.Lists.{length}
use aime.Base.Bytes.{Bytes, bytes, bytes_eq}
use aime.Encode.Batch.{Encoding, Batch, replicate, build_batch}
use aime.Encode.Onnx.{
  Outcome, done, failed, panicked, ◌>>=◌, or_fail, unless, library_failed, canceled, bad_shape,
  too_few_values, Model,
}

-- float32 and float64.
pub record Floats (F D : Type 0) : Type 0 where
  pub zero_32 : F
  pub zero_64 : D
  pub is_zero : D → Bool
  pub add : D → D → D
  pub square : F → D
  pub divide : D → ℕ → D
  pub inverse_root : D → F
  pub scale : F → F → F
  pub to_64 : F → D
  pub to_32 : D → F

module _ {A : Type 0} where
  abbrev pub drop : ℕ → List A → List A
  drop n [] = []
  drop zero (x ∷ xs) = x ∷ xs
  drop (suc n) (x ∷ xs) = drop n xs

  abbrev pub take : ℕ → List A → List A
  take n [] = []
  take zero (x ∷ xs) = []
  take (suc n) (x ∷ xs) = x ∷ take n xs

  -- `xs[from : from+n]`
  abbrev pub slice : ℕ → ℕ → List A → Outcome (List A)
  slice from n xs = if leb (from + n) (length xs) then done (take n (drop from xs)) else panicked

abbrev pub first_or_panic : {A : Type 0} → List A → Outcome A
first_or_panic [] = panicked
first_or_panic (x ∷ xs) = done x

module _ {F D : Type 0} (fl : Floats F D) where
  open fl use {zero_32, zero_64, is_zero, add, square, divide, inverse_root, scale, to_64, to_32}

  -- `acc[i] += float64(x)` over a token's vector.
  abbrev pub add_token : List D → List F → List D
  add_token [] xs = []
  add_token (a ∷ acc) [] = a ∷ acc
  add_token (a ∷ acc) (x ∷ xs) = add a (to_64 x) ∷ add_token acc xs

  -- The sum of the vectors of the tokens that the mask shows, and their number.
  unfoldable pub pool_from : ℕ → ℕ → List F → List ℕ → List D → ℕ → Outcome (List D × ℕ)
  pool_from t dim row [] acc n = done (acc, n)
  pool_from t dim row (m ∷ ms) acc n =
      let masked = pool_from (suc t) dim row ms acc n in
      let shown = slice (t * dim) dim row >>= λ tok.
      pool_from (suc t) dim row ms (add_token acc tok) (suc n) in
      if m == 0 then masked else shown

  abbrev pub averaged : ℕ → List D × ℕ → List F
  averaged dim (acc, zero) = replicate dim zero_32
  averaged dim (acc, suc n) = map (λ a. to_32 (divide a (suc n))) acc

  unfoldable pub mean_pool : List F → List ℕ → ℕ → Outcome (List F)
  mean_pool row mask dim =
      pool_from 0 dim row mask (replicate dim zero_64) 0 >>= λ r. done (averaged dim r)

  abbrev pub square_sum : D → List F → D
  square_sum s [] = s
  square_sum s (x ∷ xs) = square_sum (add s (square x)) xs

  unfoldable pub l2_normalize : List F → List F
  l2_normalize v =
      let s = square_sum zero_64 v in if is_zero s then v else map (λ x. scale x (inverse_root s)) v

  -- The array of an input, by the name that the graph has for it.
  abbrev pub input_data : Batch → Bytes → List ℕ
  input_data b name =
      if bytes_eq name (bytes "input_ids")
      then b.ids
      else if bytes_eq name (bytes "attention_mask")
      then b.mask
      else if bytes_eq name (bytes "token_type_ids")
      then b.types
      else []

  -- A tensor: its shape, and its values in one list.
  abbrev pub Tensor : Type 0
  Tensor = List ℕ × List F

  module _ (gone : Bool) (session : List (List ℕ) → ℕ → ℕ → Option Tensor) (m : Model) where
    -- `gone` says that the request is cancelled; `session` gets the inputs in the graph's order and
    -- their shape.
    unfoldable pub run_model : List Encoding → Outcome (Tensor × Batch)
    run_model es = do
      u ← unless (not gone) canceled
      out ← or_fail library_failed (
          session (map (input_data (build_batch es m.pad_id)) m.inputs) (length es)
            ((build_batch es m.pad_id).seq))
      done (out, build_batch es m.pad_id)

    unfoldable pub encode_all :
        {T : Type 0} → (T → Option Encoding) → List T → Outcome (List Encoding)
    encode_all enc [] = done []
    encode_all enc (t ∷ ts) = do
      e ← or_fail library_failed (enc t)
      es ← encode_all enc ts
      done (e ∷ es)

    -- The vector of one row; `cls` takes its first token.
    unfoldable pub row_vector : Bool → ℕ → List F → Batch → ℕ → Outcome (List F)
    row_vector cls dim values b r = do
      row ← slice (r * b.seq * dim) (b.seq * dim) values
      v ←
          if cls
          then slice 0 dim row
          else slice (r * b.seq) b.seq b.mask >>= λ mask. mean_pool row mask dim
      done (l2_normalize v)

    unfoldable pub row_vectors : Bool → ℕ → List F → Batch → ℕ → ℕ → Outcome (List (List F))
    row_vectors cls dim values b r zero = done []
    row_vectors cls dim values b r (suc rows) = do
      v ← row_vector cls dim values b r
      vs ← row_vectors cls dim values b (suc r) rows
      done (v ∷ vs)

    abbrev pub last_of_three : List ℕ → Outcome ℕ
    last_of_three (rows ∷ seq ∷ dim ∷ []) = done dim
    last_of_three _ = failed bad_shape

    -- `Embed`: a vector for each text, and the tokens.
    unfoldable pub embed :
        (Bytes → Option Encoding) → Bool → List Bytes → Outcome (List (List F) × ℕ)
    embed encode_single cls texts = do
      es ← encode_all encode_single texts
      ((shape, values), b) ← run_model es
      dim ← last_of_three shape
      vs ← row_vectors cls dim values b 0 b.rows
      done (vs, b.tokens)

    unfoldable pub scores_from : List F → ℕ → ℕ → ℕ → Outcome (List F)
    scores_from values stride i zero = done []
    scores_from values stride i (suc n) = do
      s ← first_or_panic (drop (i * stride) values)
      ss ← scores_from values stride (suc i) n
      done (s ∷ ss)

    -- `Rerank`: a score for each document, and the tokens. No document is a division by zero.
    unfoldable pub rerank :
        (Bytes × Bytes → Option Encoding) → Bytes → List Bytes → Outcome (List F × ℕ)
    rerank encode_pair query docs = do
      es ← encode_all encode_pair (map (λ d. (query, d)) docs)
      ((shape, values), b) ← run_model es
      u ← unless (leb b.rows (length values)) too_few_values
      u ← if b.rows == 0 then panicked else done tt
      ss ← scores_from values (length values / b.rows) 0 b.rows
      done (ss, b.tokens)
