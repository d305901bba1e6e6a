-- ===== src/Encode/Onnx.antt =====
-- deployables/backend/internal/encode/onnx.go: opening the two models, embedding and reranking. The
-- ONNX runtime, the tokenizer and the files of a model directory answer as arguments say.
use aime.Base.{
  ℕ, ◌&&◌, ◌||◌, Bool, true, false, Option, none, some, List, [], ◌∷◌, ◌++◌, if◌then◌else◌,
}
use aime.Base.Bytes.{Bytes, bytes, bytes_eq}

pub data EncodeError : Type 0 where
  no_model_file missing_tokenizer bad_pooling library_failed no_outputs unexpected_input :
      EncodeError
  canceled bad_shape too_few_values not_implemented unknown_backend : EncodeError

-- A value, an error, or a panic of Go for an index out of range.
pub data Outcome (A : Type 0) : Type 0 where
  done : A → Outcome A
  failed : EncodeError → Outcome A
  panicked : Outcome A

infixl 5 ◌>>=◌
unfoldable pub ◌>>=◌ : {A B : Type 0} → Outcome A → (A → Outcome B) → Outcome B
done a >>= f = f a
failed e >>= f = failed e
panicked >>= f = panicked

abbrev pub or_fail : {A : Type 0} → EncodeError → Option A → Outcome A
or_fail e none = failed e
or_fail e (some a) = done a

abbrev pub unless : Bool → EncodeError → Outcome (Unit {0})
unless true e = done tt
unless false e = failed e

-- What `GetInputOutputInfo` says of a graph: the names of the inputs, and the dimensions of each
-- output, 0 for one that is not fixed.
pub record Graph : Type 0 where
  pub inputs : List Bytes
  pub outputs : List (List ℕ)

-- The files below the model directory, and what the libraries answer for them.
pub record Runtime : Type 0 where
  pub file_exists : Bytes → Bool
  pub initializes : Bool
  pub options : Bool
  pub graph : Bytes → Option Graph
  pub tokenizer : Bytes → Option (Bytes → Option ℕ)
  pub session : Bytes → Bool
  pub config_name : Bytes → Option Bytes

pub record Model : Type 0 where
  pub name : Bytes
  pub inputs : List Bytes
  pub pad_id : ℕ
  pub out_dims : List ℕ

-- `filepath.Join` of names that are clean.
abbrev pub below : Bytes → Bytes → Bytes
below dir name = dir ++ (47 ∷ name)

abbrev pub pad_token : (Bytes → Option ℕ) → ℕ
pad_token ids = elim (ids (bytes "[PAD]")) [
  | some id ↦ id
  | none ↦ elim (ids (bytes "<pad>")) [ some id ↦ id | none ↦ 0 ]
]

abbrev pub is_input : Bytes → Bool
is_input n =
    bytes_eq n (bytes "input_ids")
    || bytes_eq n (bytes "attention_mask")
    || bytes_eq n (bytes "token_type_ids")

abbrev pub all_inputs : List Bytes → Bool
all_inputs [] = true
all_inputs (n ∷ ns) = is_input n && all_inputs ns

abbrev pub first_output : List (List ℕ) → Outcome (List ℕ)
first_output [] = failed no_outputs
first_output (dims ∷ rest) = done dims

module _ (rt : Runtime) where
  open rt use {file_exists, initializes, options, graph, tokenizer, session, config_name}

  unfoldable pub find_model_file : Bytes → Outcome Bytes
  find_model_file dir =
      if file_exists (below dir (bytes "model.onnx"))
      then done (below dir (bytes "model.onnx"))
      else if file_exists (below dir (bytes "onnx/model.onnx"))
      then done (below dir (bytes "onnx/model.onnx"))
      else failed no_model_file

  unfoldable pub check_model_dir : Bytes → List Bytes → Outcome (Unit {0})
  check_model_dir model_dir [] = done tt
  check_model_dir model_dir (sub ∷ subs) = do
    path ← find_model_file (below model_dir sub)
    u ←
        unless (file_exists (below (below model_dir sub) (bytes "tokenizer.json")))
          missing_tokenizer
    check_model_dir model_dir subs

  -- `config_name` is the name in config.json, if it is there, reads, and is not empty.
  unfoldable pub model_name : Bytes → Bytes → Bytes
  model_name dir base = elim (config_name dir) [ none ↦ bytes "onnx-" ++ base | some n ↦ n ]

  -- `openModel`: without an error a session is open.
  unfoldable pub open_model : Bytes → Bytes → Outcome Model
  open_model model_dir sub = do
    path ← find_model_file (below model_dir sub)
    g ← or_fail library_failed (graph path)
    dims ← first_output g.outputs
    u ← unless (all_inputs g.inputs) unexpected_input
    ids ← or_fail library_failed (tokenizer (below (below model_dir sub) (bytes "tokenizer.json")))
    u ← unless (session path) library_failed
    done (record {
      name = model_name (below model_dir sub) sub;
      inputs = g.inputs;
      pad_id = pad_token ids;
      out_dims = dims;
    })
