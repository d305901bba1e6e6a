-- ===== src/Encode/Batch.antt =====
-- deployables/backend/internal/encode/onnx.go: buildBatch, which writes encodings into flat arrays.
use aime.Base.{ℕ, zero, suc, ◌+◌, ◌-◌, ◌*◌, ltb, List, [], ◌∷◌, map, if◌then◌else◌}
use aime.Base.Lists.{length}

-- A token of an encoding. The tokenizer gives the ids, the attention mask and the types of a text as
-- lists of one length.
pub record Token : Type 0 where
  pub id : ℕ
  pub mask : ℕ
  pub type_id : ℕ

abbrev pub Encoding : Type 0
Encoding = List Token

pub record Batch : Type 0 where
  pub ids : List ℕ
  pub mask : List ℕ
  pub types : List ℕ
  pub rows : ℕ
  pub seq : ℕ
  pub tokens : ℕ

abbrev pub max : ℕ → ℕ → ℕ
max a b = if ltb a b then b else a

-- The longest encoding.
unfoldable pub longest : ℕ → List Encoding → ℕ
longest seq [] = seq
longest seq (e ∷ es) = longest (max seq (length e)) es

module _ {A : Type 0} where
  abbrev pub replicate : ℕ → A → List A
  replicate zero x = []
  replicate (suc n) x = x ∷ replicate n x

  -- `xs[i] = x`; nothing is written past the end, where Go panics.
  abbrev pub set : ℕ → A → List A → List A
  set i x [] = []
  set zero x (y ∷ ys) = x ∷ ys
  set (suc i) x (y ∷ ys) = y ∷ set i x ys

  -- The values of a loop at consecutive indices.
  abbrev pub write_from : ℕ → List A → List A → List A
  write_from i [] ys = ys
  write_from i (x ∷ xs) ys = write_from (suc i) xs (set i x ys)

abbrev pub sum : List ℕ → ℕ
sum [] = 0
sum (x ∷ xs) = x + sum xs

-- One turn of the loop over the encodings: the tokens from `off` on, then the padding of the ids.
unfoldable pub write_row : ℕ → ℕ → Encoding → Batch → Batch
write_row pad_id off e b = record b {
  ids =
      write_from (off + length e) (replicate (b.seq - length e) pad_id)
        (write_from off (map (λ t. t.id) e) b.ids);
  mask = write_from off (map (λ t. t.mask) e) b.mask;
  types = write_from off (map (λ t. t.type_id) e) b.types;
  tokens = b.tokens + sum (map (λ t. t.mask) e);
}

unfoldable pub write_rows : ℕ → ℕ → List Encoding → Batch → Batch
write_rows pad_id r [] b = b
write_rows pad_id r (e ∷ es) b = write_rows pad_id (suc r) es (write_row pad_id (r * b.seq) e b)

abbrev pub blank : ℕ → ℕ → Batch
blank rows seq = record {
  ids = replicate (rows * seq) 0;
  mask = replicate (rows * seq) 0;
  types = replicate (rows * seq) 0;
  rows = rows;
  seq = seq;
  tokens = 0;
}

unfoldable pub build_batch : List Encoding → ℕ → Batch
build_batch es pad_id = write_rows pad_id 0 es (blank (length es) (longest 0 es))
