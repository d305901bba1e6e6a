-- ===== src/Encode/Stub.antt =====
-- deployables/backend/internal/encode/stub.go: the fake backend. `strings.Fields`, `ToLower` and `Trim`
-- are parameters, and so is the vector that the random generator makes of a text.
use aime.Base.{
  ℕ, suc, ◌+◌, ◌/◌, ◌≤◌, ◌≡◌, refl, ◌==◌, Bool, true, Option, none, some, List, [], ◌∷◌,
  if◌then◌else◌, Bool-cases, arith,
}
use aime.Base.Lists.{length, exists, count}
use aime.Base.Bytes.{Bytes, bytes_eq, bytes_eq_refl}

pub record Words : Type 0 where
  pub fields : Bytes → List Bytes
  pub to_lower : Bytes → Bytes
  pub trim : Bytes → Bytes

-- A score as hits of a number of words.
pub record Overlap : Type 0 where
  pub hits : ℕ
  pub words : ℕ

abbrev pub has_word : List Bytes → Bytes → Bool
has_word set w = exists (bytes_eq w) set

abbrev pub insert : Bytes → List Bytes → List Bytes
insert w set = if has_word set w then set else w ∷ set

-- `overlap`, with no words for the 0 of an empty set.
unfoldable pub overlap : List Bytes → List Bytes → Overlap
overlap query doc =
    if length query == 0
    then record { hits = 0; words = 0 }
    else if length doc == 0
    then record { hits = 0; words = 0 }
    else record { hits = count (has_word doc) query; words = length query }

module _ (text : Words) where
  open text use {fields, to_lower, trim}

  unfoldable pub approx_tokens : Bytes → ℕ
  approx_tokens t = let n = length (fields t) in n + (n + 2) / 3

  abbrev pub add_words : List Bytes → List Bytes → List Bytes
  add_words [] set = set
  add_words (w ∷ ws) set =
      let rest = add_words ws set in
      let more = add_words ws (insert (trim w) set) in if length (trim w) == 0 then rest else more

  unfoldable pub word_set : Bytes → List Bytes
  word_set t = add_words (fields (to_lower t)) []

  module _ (gone : ℕ → Bool) where
    -- `gone` says at which text the request is cancelled, which drops what was done.
    unfoldable pub embed_from : {V : Type 0} → (Bytes → V) → ℕ → List Bytes → Option (List V × ℕ)
    embed_from vector i [] = some ([], 0)
    embed_from vector i (t ∷ ts) =
        let rest = embed_from vector (suc i) ts in
        if gone i
        then none
        else elim rest [ none ↦ none | some r ↦ some (vector t ∷ r.0, approx_tokens t + r.1) ]

    unfoldable pub rerank_from : ℕ → Bytes → List Bytes → Option (List Overlap × ℕ)
    rerank_from i query [] = some ([], 0)
    rerank_from i query (d ∷ ds) =
        let rest = rerank_from (suc i) query ds in
        if gone i then none else elim rest [
          | none ↦ none
          | some r ↦ some (
            overlap (word_set query) (word_set d) ∷ r.0,
            approx_tokens query + approx_tokens d + r.1,
          )
        ]

count-le : (p : Bytes → Bool) (xs : List Bytes) → count p xs ≤ length xs
count-le p [] = omega arith
count-le p (x ∷ xs) = ground (arith, count-le p xs, Bool-cases (p x))

-- Every word of a set is in a larger one.
count-own :
    (before xs : List Bytes)
    → ((w : Bytes) → has_word xs w ≡ true → has_word before w ≡ true)
    → count (has_word before) xs ≡ length xs
count-own before [] h = refl
count-own before (x ∷ xs) h =
    rw (h x (rw (bytes_eq_refl x) refl), count-own before xs (λ w i. h w (ground (arith, i)))) refl

-- The score of the stub is a part of the query's words, and all of them for a text with the same words.
overlap_bounds :
    (query doc : List Bytes)
    → ((overlap query doc).hits ≤ (overlap query doc).words)
      × ((overlap query query).hits ≡ (overlap query query).words)
unfolding overlap
overlap_bounds query doc = (
  ground (arith, count-le (has_word doc) query),
  ground (arith, count-own query query (λ w i. i)),
)
