-- ===== src/Tests/Encoder.antt =====
-- The encoder over small models, with numbers for floats.
use aime.Base.{
  ℕ, ◌+◌, ◌*◌, ◌/◌, ◌==◌, ◌<◌, ◌≡◌, refl, subst, true, false, Option, none, some, List, [], ◌∷◌,
  ◌++◌, arith, map,
}
use aime.Base.Bytes.{Bytes, bytes}
use aime.Base.Lists.{length}
use aime.Encode.Batch.{Token, Encoding, build_batch, replicate}
use aime.Encode.Layout.{padded, length-replicate, IsBatch, build_batch-IsBatch}
use aime.Encode.Onnx.{library_failed, Model, Runtime, done, failed}
use aime.Encode.Infer.{Floats, Tensor, embed, rerank, mean_pool}
use aime.Encode.Answers.{Meets, Answers, pairs_of, rerank-Answers, mean_pool-padded}
use aime.Encode.Embedded.{IsRegular, Vectors, embed-Vectors}
use aime.Encode.Open.{OpenEnd, open_encoder, open_encoder-OpenEnd}

abbrev token : ℕ → Token
token id = record { id = id; mask = 1; type_id = 0 }

-- A text of a token for each byte.
abbrev tokenize : Bytes → Option Encoding
tokenize [] = none
tokenize (c ∷ cs) = some (map token (c ∷ cs))

abbrev tokenize_pair : Bytes × Bytes → Option Encoding
tokenize_pair (q, d) = some (map token (q ++ d))

build_batch-IsBatch_example :
    IsBatch 9
      (map token (1 ∷ 2 ∷ []) ∷ map token (3 ∷ []) ∷ [])
      (build_batch (map token (1 ∷ 2 ∷ []) ∷ map token (3 ∷ []) ∷ []) 9)
build_batch-IsBatch_example =
    build_batch-IsBatch (map token (1 ∷ 2 ∷ []) ∷ map token (3 ∷ []) ∷ []) 9

abbrev numbers : Floats ℕ ℕ
numbers = record {
  zero_32 = 0;
  zero_64 = 0;
  is_zero = λ n. n == 0;
  add = λ a b. a + b;
  square = λ a. a * a;
  divide = λ a n. a / n;
  inverse_root = λ a. 1;
  scale = λ a b. a * b;
  to_64 = λ a. a;
  to_32 = λ a. a;
}

mean_pool-padded_example :
    mean_pool numbers (1 ∷ 2 ∷ 3 ∷ 4 ∷ []) (padded 2 0 (1 ∷ [])) 2
    ≡ mean_pool numbers (1 ∷ 2 ∷ 3 ∷ 4 ∷ []) (1 ∷ []) 2
mean_pool-padded_example = mean_pool-padded numbers (1 ∷ 2 ∷ 3 ∷ 4 ∷ []) (1 ∷ []) 2 2

abbrev model : Model
model = record { name = bytes "m"; inputs = bytes "input_ids" ∷ []; pad_id = 0; out_dims = [] }

-- A session that answers ones, in a dimension of 2.
abbrev session : List (List ℕ) → ℕ → ℕ → Option (Tensor numbers)
session arrays rows seq = some (rows ∷ seq ∷ 2 ∷ [], replicate (rows * seq * 2) 1)

rerank-Answers_example :
    Meets
      (Answers numbers false session model tokenize_pair
        (pairs_of (bytes "q") (bytes "a" ∷ bytes "bc" ∷ [])))
      (rerank numbers false session model tokenize_pair (bytes "q") (bytes "a" ∷ bytes "bc" ∷ []))
rerank-Answers_example =
    rerank-Answers numbers false session model tokenize_pair (bytes "q")
      (bytes "a" ∷ bytes "bc" ∷ []) (omega arith)

some_inj : {A : Type 0} {a b : A} → some a ≡ some b → a ≡ b
some_inj e = cc

session-IsRegular : IsRegular numbers false session model
session-IsRegular = record {
  shaped = λ arrays rows seq out e.
      subst
        (λ (o : Tensor numbers).
          (dim : ℕ) × (o.0 ≡ rows ∷ seq ∷ dim ∷ []) × (length o.1 ≡ rows * seq * dim))
        (some_inj e) (2, refl, length-replicate (rows * seq * 2) 1);
}

tokenize-full : (t : Bytes) (e : Encoding) → tokenize t ≡ some e → 0 < length e
tokenize-full [] e h = absurd (ground arith)
tokenize-full (c ∷ cs) e h = subst (λ x. 0 < length x) (some_inj h) (omega arith)

embed-Vectors_example :
    Meets
      (Vectors numbers false session model tokenize (bytes "a" ∷ bytes "bc" ∷ []))
      (embed numbers false session model tokenize false (bytes "a" ∷ bytes "bc" ∷ []))
embed-Vectors_example =
    embed-Vectors numbers false session model tokenize false (bytes "a" ∷ bytes "bc" ∷ [])
      session-IsRegular tokenize-full (omega arith)

abbrev runtime : Runtime
runtime = record {
  file_exists = λ path. true;
  initializes = true;
  options = true;
  graph =
      λ path. some (record { inputs = bytes "input_ids" ∷ []; outputs = (0 ∷ 0 ∷ 384 ∷ []) ∷ [] });
  tokenizer = λ path. some (λ t. none);
  session = λ path. true;
  config_name = λ dir. none;
}

open_encoder-OpenEnd_example :
    OpenEnd runtime
      (λ m. done 384)
      (λ m. failed library_failed)
      (open_encoder runtime
        (λ m. done 384)
        (λ m. failed library_failed)
        true
        (bytes "onnx")
        (bytes "models")
        (bytes "cls"))
open_encoder-OpenEnd_example =
    open_encoder-OpenEnd runtime (λ m. done 384) (λ m. failed library_failed) true (bytes "onnx")
      (bytes "models") (bytes "cls")
