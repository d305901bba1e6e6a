-- ===== src/Encode/Answers.antt =====
-- deployables/backend/internal/encode/onnx.go: what Embed and Rerank answer, whatever the models say.
use aime.Base.{
  ℕ, zero, suc, ◌+◌, ◌-◌, ◌*◌, ◌/◌, ◌≤◌, ◌<◌, leb, not, ◌==◌, ◌≡◌, refl, ap, ◌∙◌, inl, inr,
  Bool-cases, arith, Bool, true, false, Option, none, some, List, [], ◌∷◌, ◌++◌, map, if◌then◌else◌,
}
use native.Mathlib.Omega.{div_any}
use native.Mathlib.Nat.{div-eq-sub-div}
use aime.Base.Lists.{length}
use aime.Base.Bytes.{Bytes}
use aime.Encode.Batch.{Encoding, Batch, replicate, build_batch}
use aime.Encode.Layout.{padded, build_batch-IsBatch, attended}
use aime.Encode.Onnx.{
  Outcome, done, failed, panicked, ◌>>=◌, or_fail, unless, too_few_values, EncodeError, Model,
}
use aime.Encode.Infer.{
  Floats, input_data, drop, take, slice, first_or_panic, add_token, pool_from, averaged, mean_pool,
  Tensor, run_model, encode_all, scores_from, rerank,
}

-- A value meets `P`, and nothing panics.
abbrev pub Meets : {A : Type 0} → (A → Type 0) → Outcome A → Type 0
Meets P (done a) = P a
Meets P (failed e) = Unit
Meets P panicked = ⊥

pub Meets-bind :
    {A B : Type 0} (P : A → Type 0) (Q : B → Type 0) (f : A → Outcome B) (o : Outcome A)
    → Meets P o
    → ((a : A) → P a → Meets Q (f a))
    → Meets Q (o >>= f)
unfolding ◌>>=◌
Meets-bind P Q f (done a) h k = k a h
Meets-bind P Q f (failed e) h k = tt
Meets-bind P Q f panicked h k = absurd h

pub Meets-or_fail :
    {A : Type 0} (e : EncodeError) (o : Option A) → Meets (λ a. o ≡ some a) (or_fail e o)
Meets-or_fail e none = tt
Meets-or_fail e (some a) = refl

Meets-unless : (b : Bool) (e : EncodeError) → Meets (λ u. b ≡ true) (unless b e)
Meets-unless true e = refl
Meets-unless false e = tt

-- The value that is met is the outcome's.
pub Meets-known :
    {A : Type 0} (P : A → Type 0) (o : Outcome A) → Meets P o → Meets (λ a. (o ≡ done a) × P a) o
Meets-known P (done a) h = (refl, h)
Meets-known P (failed e) h = tt
Meets-known P panicked h = h

bind-ext :
    {A B : Type 0} (f g : A → Outcome B) (o : Outcome A)
    → ((a : A) → f a ≡ g a)
    → (o >>= f) ≡ (o >>= g)
unfolding ◌>>=◌
bind-ext f g (done a) h = h a
bind-ext f g (failed e) h = refl
bind-ext f g panicked h = refl

le_of_leb : (a b : ℕ) → leb a b ≡ true → a ≤ b
le_of_leb a b h = ground arith

abbrev pub pairs_of : Bytes → List Bytes → List (Bytes × Bytes)
pairs_of query docs = map (λ d. (query, d)) docs

length-pairs : (query : Bytes) (docs : List Bytes) → length (pairs_of query docs) ≡ length docs
length-pairs query [] = refl
length-pairs query (d ∷ ds) = omega (arith, length-pairs query ds)

nonzero : (n : ℕ) → 0 < n → Meets (λ u. Unit) (if n == 0 then panicked else done tt)
nonzero n h = elim (Bool-cases (n == 0)) [ inl e ↦ absurd (ground arith) | inr e ↦ rw e tt ]

module _ {A : Type 0} where
  length-drop : (n : ℕ) (xs : List A) → length (drop n xs) ≡ length xs - n
  length-drop n [] = omega arith
  length-drop zero (x ∷ xs) = omega arith
  length-drop (suc n) (x ∷ xs) = omega (arith, length-drop n xs)

  length-take : (n : ℕ) (xs : List A) → n ≤ length xs → length (take n xs) ≡ n
  length-take n [] h = omega (arith, h)
  length-take zero (x ∷ xs) h = refl
  length-take (suc n) (x ∷ xs) h = omega (arith, h, length-take n xs)

  pub slice-Meets :
      (from n : ℕ) (xs : List A)
      → from + n ≤ length xs
      → Meets (λ ys. length ys ≡ n) (slice from n xs)
  slice-Meets from n xs h = elim (Bool-cases (leb (from + n) (length xs))) [
    | inl e ↦ rw e (length-take n (drop from xs) (omega (arith, h, length-drop from xs)))
    | inr e ↦ absurd (ground arith)
  ]

  first-Meets :
      (n : ℕ) (xs : List A) → n < length xs → Meets (λ x. Unit {0}) (first_or_panic (drop n xs))
  first-Meets n [] h = omega (arith, h)
  first-Meets zero (x ∷ xs) h = tt
  first-Meets (suc n) (x ∷ xs) h = first-Meets n xs (omega (arith, h))

module _ {F D : Type 0} (fl : Floats F D) where
  pool-padding :
      (k t dim : ℕ) (row : List F) (ms : List ℕ) (acc : List D) (n : ℕ)
      → pool_from fl t dim row (ms ++ replicate k 0) acc n ≡ pool_from fl t dim row ms acc n
  unfolding pool_from
  pool-padding zero t dim row [] acc n = refl
  pool-padding (suc k) t dim row [] acc n = pool-padding k (suc t) dim row [] acc n
  pool-padding k t dim row (m ∷ ms) acc n = elim (Bool-cases (m == 0)) [
    | inl e ↦ rw e (pool-padding k (suc t) dim row ms acc n)
    | inr e ↦ rw e (
        bind-ext _ _ (slice (t * dim) dim row)
          λ tok. pool-padding k (suc t) dim row ms (add_token fl acc tok) (suc n))
  ]

  -- The mean does not depend on the padding of a row.
  pub mean_pool-padded :
      (row : List F) (ms : List ℕ) (seq dim : ℕ)
      → mean_pool fl row (padded seq 0 ms) dim ≡ mean_pool fl row ms dim
  unfolding mean_pool
  mean_pool-padded row ms seq dim =
      ap (λ o. o >>= λ r. done (averaged fl dim r))
        (pool-padding (seq - length ms) 0 dim row ms (replicate dim fl.zero_64) 0)

  module _ (gone : Bool) (session : List (List ℕ) → ℕ → ℕ → Option (Tensor fl)) (m : Model) where
    pub encode_all-Meets :
        {T : Type 0} (enc : T → Option Encoding) (ts : List T)
        → Meets (λ es. length es ≡ length ts) (encode_all fl gone session m enc ts)
    unfolding encode_all
    encode_all-Meets enc [] = refl
    encode_all-Meets enc (t ∷ ts) =
        Meets-bind (λ e. enc t ≡ some e) _ _ (or_fail _ (enc t)) (Meets-or_fail _ (enc t))
          λ e q.
            Meets-bind (λ es. length es ≡ length ts) _ _ (encode_all fl gone session m enc ts)
              (encode_all-Meets enc ts) λ es h. omega (arith, h)

    -- A tensor that the session answered to the batch of the encodings.
    abbrev pub Ran : List Encoding → Tensor fl × Batch → Type 0
    Ran es (out, b) =
        (b ≡ build_batch es m.pad_id)
        × (session (map (input_data fl b) m.inputs) (length es) b.seq ≡ some out)

    pub run_model-Meets : (es : List Encoding) → Meets (Ran es) (run_model fl gone session m es)
    unfolding run_model
    run_model-Meets es =
        Meets-bind _ _ _ (unless (not gone) _) (Meets-unless (not gone) _)
          λ u q. Meets-bind _ _ _ (or_fail _ _) (Meets-or_fail _ _) λ out q. (refl, q)

    scores_from-Meets :
        (values : List F) (stride i n : ℕ)
        → 0 < stride
        → (i + n) * stride ≤ length values
        → Meets (λ ss. length ss ≡ n) (scores_from fl gone session m values stride i n)
    unfolding scores_from
    scores_from-Meets values stride i zero p h = refl
    scores_from-Meets values stride i (suc n) p h =
        Meets-bind _ _ _ (first_or_panic (drop (i * stride) values))
          (first-Meets (i * stride) values (omega (arith, p, h)))
          λ s u.
            Meets-bind (λ ss. length ss ≡ n) _ _
              (scores_from fl gone session m values stride (suc i) n)
              (scores_from-Meets values stride (suc i) n p (omega (arith, h)))
              λ ss q. omega (arith, q)

    -- A text's encodings, the batch's tokens.
    abbrev pub Billed : {T : Type 0} → (T → Option Encoding) → List T → ℕ → Type 0
    Billed enc ts n =
        (es : List Encoding) × (encode_all fl gone session m enc ts ≡ done es) × (n ≡ attended es)

    abbrev pub Answers : {T : Type 0} → (T → Option Encoding) → List T → List F × ℕ → Type 0
    Answers enc ts (ss, n) = (length ss ≡ length ts) × Billed enc ts n

    stride-le : (n k : ℕ) → 0 < n → n ≤ k → (0 < k / n) × (n * (k / n) ≤ k)
    stride-le n k p h = (omega (arith, div-eq-sub-div p h), omega (arith, div_any k n))

    -- A rerank of some documents never panics, whatever the model answers; a result has a score for each
    -- document and counts the tokens that the attention masks show.
    pub rerank-Answers :
        (encode_pair : Bytes × Bytes → Option Encoding) (query : Bytes) (docs : List Bytes)
        → 0 < length docs
        → Meets
            (Answers encode_pair (pairs_of query docs))
            (rerank fl gone session m encode_pair query docs)
    unfolding rerank
    rerank-Answers enc query docs some_docs =
        let pairs = pairs_of query docs in
        Meets-bind _ _ _ (encode_all fl gone session m enc pairs)
          (Meets-known _ _ (encode_all-Meets enc pairs))
          λ es g. Meets-bind _ _ _ (run_model fl gone session m es) (run_model-Meets es) λ r ran.
            let count = ap (λ b. b.rows) ran.0 ∙ (build_batch-IsBatch es m.pad_id).rows in
            let size = length r.0.1 in
            Meets-bind _ _ _ (unless (leb r.1.rows size) too_few_values)
              (Meets-unless (leb r.1.rows size) too_few_values)
              λ u enough.
                let some_rows : 0 < r.1.rows =
                  omega (arith, some_docs, count, g.1, length-pairs query docs) in
                Meets-bind (λ u. Unit) _ _ (if r.1.rows == 0 then panicked else done tt)
                  (nonzero r.1.rows some_rows)
                  λ u' v.
                    let (positive, within) =
                      stride-le r.1.rows size some_rows (le_of_leb r.1.rows size enough) in
                    Meets-bind (λ ss. length ss ≡ r.1.rows) _ _
                      (scores_from fl gone session m r.0.1 (size / r.1.rows) 0 r.1.rows)
                      (scores_from-Meets r.0.1 (size / r.1.rows) 0 r.1.rows positive
                        (omega (arith, within)))
                      λ ss q. (
                        q ∙ count ∙ g.1,
                        (
                          es,
                          g.0,
                          ap (λ b. b.tokens) ran.0 ∙ (build_batch-IsBatch es m.pad_id).tokens,
                        ),
                      )
