-- ===== src/Encode/Embedded.antt =====
-- deployables/backend/internal/encode/onnx.go: Embed over a runtime that keeps its word.
use aime.Base.{
  ℕ, zero, suc, ◌+◌, ◌*◌, ◌≤◌, ◌<◌, ◌==◌, ◌≡◌, refl, sym, ◌∙◌, subst, inl, inr, Bool-cases, arith,
  Bool, true, false, Option, some, List, [], ◌∷◌, map, if◌then◌else◌,
}
use aime.Base.Lists.{length, length-append, All}
use aime.Base.Bytes.{Bytes}
use aime.Encode.Batch.{Encoding, Batch, Token}
use aime.Encode.Layout.{
  padded, layout, IsBatch, build_batch-IsBatch, length-padded, length-map, suc_mul,
}
use aime.Encode.Onnx.{Outcome, done, failed, panicked, ◌>>=◌, or_fail, Model}
use aime.Encode.Infer.{
  Floats, slice, add_token, pool_from, mean_pool, Tensor, run_model, encode_all, row_vector,
  row_vectors, last_of_three, embed,
}
use aime.Encode.Answers.{
  Meets, Meets-bind, Meets-or_fail, Meets-known, slice-Meets, encode_all-Meets, run_model-Meets,
  Billed, Ran,
}

Meets-any : {A : Type 0} (P : A → Type 0) (o : Outcome A) → Meets P o → Meets (λ a. Unit) o
Meets-any P (done a) h = tt
Meets-any P (failed e) h = tt
Meets-any P panicked h = h

le_mul : (n d : ℕ) → 0 < n → d ≤ n * d
le_mul zero d h = absurd (omega (arith, h))
le_mul (suc n) d h = omega (arith, suc_mul n d)

length-layout :
    (seq pad : ℕ) (f : Token → ℕ) (es : List Encoding)
    → All (λ e. length e ≤ seq) es
    → length (layout seq pad f es) ≡ length es * seq
length-layout seq pad f [] h = omega arith
length-layout seq pad f (e ∷ es) (h, hs) = omega (
  arith,
  length-append (padded seq pad (map f e)) (layout seq pad f es),
  length-padded seq pad (map f e) (omega (arith, h, length-map f e)),
  length-layout seq pad f es hs,
  suc_mul (length es) seq,
)

module _ {F D : Type 0} (fl : Floats F D) where
  pool_from-Meets :
      (t dim : ℕ) (row : List F) (ms : List ℕ) (acc : List D) (n : ℕ)
      → (t + length ms) * dim ≤ length row
      → Meets (λ r. Unit) (pool_from fl t dim row ms acc n)
  unfolding pool_from
  pool_from-Meets t dim row [] acc n h = tt
  pool_from-Meets t dim row (m ∷ ms) acc n h = elim (Bool-cases (m == 0)) [
    | inl e ↦ rw e (pool_from-Meets (suc t) dim row ms acc n (omega (arith, h)))
    | inr e ↦ rw e (
        Meets-bind (λ tok. length tok ≡ dim) _ _ (slice (t * dim) dim row)
          (slice-Meets (t * dim) dim row (omega (arith, h)))
          λ tok q.
            pool_from-Meets (suc t) dim row ms (add_token fl acc tok) (suc n) (omega (arith, h)))
  ]

  module _ (gone : Bool) (session : List (List ℕ) → ℕ → ℕ → Option (Tensor fl)) (m : Model) where
    row_vector-Meets :
        (cls : Bool) (dim : ℕ) (values : List F) (b : Batch) (r : ℕ)
        → 0 < b.seq
        → r * b.seq * dim + b.seq * dim ≤ length values
        → r * b.seq + b.seq ≤ length b.mask
        → Meets (λ v. Unit) (row_vector fl gone session m cls dim values b r)
    unfolding row_vector mean_pool
    row_vector-Meets cls dim values b r p h k =
        Meets-bind (λ row. length row ≡ b.seq * dim) _ _
          (slice (r * b.seq * dim) (b.seq * dim) values) (slice-Meets _ _ values h)
          λ row q. Meets-bind (λ v. Unit) _ _ _ (pooled cls row q) λ v u. tt
      where
        pooled :
            (cls : Bool) (row : List F)
            → length row ≡ b.seq * dim
            → Meets
                (λ v. Unit)
                (if cls
                  then slice 0 dim row
                  else slice (r * b.seq) b.seq b.mask >>= λ mask. mean_pool fl row mask dim)
        pooled true row q =
            Meets-any _ (slice 0 dim row)
              (slice-Meets 0 dim row (rw q (omega (arith, le_mul b.seq dim p))))
        pooled false row q =
            Meets-bind (λ mask. length mask ≡ b.seq) _ _ (slice (r * b.seq) b.seq b.mask)
              (slice-Meets _ _ b.mask k)
              λ mask e.
                Meets-bind (λ r. Unit) _ _ (pool_from fl 0 dim row mask _ 0)
                  (pool_from-Meets 0 dim row mask _ 0 (rw (e, q) (omega arith))) λ r u. tt

    row_vectors-Meets :
        (cls : Bool) (dim : ℕ) (values : List F) (b : Batch) (r n : ℕ)
        → 0 < b.seq
        → (r + n) * b.seq * dim ≤ length values
        → (r + n) * b.seq ≤ length b.mask
        → Meets (λ vs. length vs ≡ n) (row_vectors fl gone session m cls dim values b r n)
    unfolding row_vectors
    row_vectors-Meets cls dim values b r zero p h k = refl
    row_vectors-Meets cls dim values b r (suc n) p h k =
        Meets-bind _ _ _ (row_vector fl gone session m cls dim values b r)
          (row_vector-Meets cls dim values b r p (omega (arith, h)) (omega (arith, k)))
          λ v u.
            Meets-bind (λ vs. length vs ≡ n) _ _
              (row_vectors fl gone session m cls dim values b (suc r) n)
              (row_vectors-Meets cls dim values b (suc r) n p (omega (arith, h)) (omega (arith, k)))
              λ vs q. omega (arith, q)

    -- The session answers a tensor of rows, sequence and dimension, with all its values.
    pub record IsRegular : Type 0 where
      pub shaped :
          (arrays : List (List ℕ)) (rows seq : ℕ) (out : Tensor fl)
          → session arrays rows seq ≡ some out
          → (dim : ℕ) × (out.0 ≡ rows ∷ seq ∷ dim ∷ []) × (length out.1 ≡ rows * seq * dim)

    longest-positive :
        (es : List Encoding) (seq : ℕ)
        → 0 < length es
        → All (λ e. 0 < length e) es
        → All (λ e. length e ≤ seq) es
        → 0 < seq
    longest-positive [] seq p a b = omega (arith, p)
    longest-positive (e ∷ es) seq p (a, r) (b, q) = omega (arith, a, b)

    last_of_three-Meets :
        (es : List Encoding) (r : Tensor fl × Batch)
        → IsRegular
        → Ran fl gone session m es r
        → Meets
            (λ dim. length r.0.1 ≡ length es * r.1.seq * dim)
            (last_of_three fl gone session m r.0.0)
    last_of_three-Meets es r regular (built, ran) =
        let (dim, e, size) = regular.shaped _ _ _ _ ran in rw e size

    vectors-Meets :
        (cls : Bool) (dim : ℕ) (values : List F) (b : Batch) (es : List Encoding)
        → IsBatch m.pad_id es b
        → 0 < length es
        → All (λ e. 0 < length e) es
        → length values ≡ length es * b.seq * dim
        → Meets (λ vs. length vs ≡ b.rows) (row_vectors fl gone session m cls dim values b 0 b.rows)
    vectors-Meets cls dim values b es batch some_texts full size =
        row_vectors-Meets cls dim values b 0 b.rows
          (longest-positive es b.seq some_texts full batch.fits)
          (rw (size, batch.rows) (omega arith))
          (rw (batch.mask, length-layout b.seq 0 (λ t. t.mask) es batch.fits, batch.rows)
            (omega arith))

    encode_all-full :
        {T : Type 0} (enc : T → Option Encoding) (ts : List T)
        → ((t : T) (e : Encoding) → enc t ≡ some e → 0 < length e)
        → Meets (All (λ e. 0 < length e)) (encode_all fl gone session m enc ts)
    unfolding encode_all
    encode_all-full enc [] h = tt
    encode_all-full enc (t ∷ ts) h =
        Meets-bind (λ e. enc t ≡ some e) _ _ (or_fail _ (enc t)) (Meets-or_fail _ (enc t))
          λ e q.
            Meets-bind (All (λ e. 0 < length e)) _ _ (encode_all fl gone session m enc ts)
              (encode_all-full enc ts h) λ es a. (h t e q, a)

    abbrev pub Vectors : (Bytes → Option Encoding) → List Bytes → List (List F) × ℕ → Type 0
    Vectors enc texts (vs, n) = (length vs ≡ length texts) × Billed fl gone session m enc texts n

    -- Over a session that answers all values of a tensor of rows, sequence and dimension, and a tokenizer
    -- that gives no empty encoding, embedding some texts never panics; a result has a vector for each
    -- text and counts the tokens that the attention masks show.
    pub embed-Vectors :
        (encode_single : Bytes → Option Encoding) (cls : Bool) (texts : List Bytes)
        → IsRegular
        → ((t : Bytes) (e : Encoding) → encode_single t ≡ some e → 0 < length e)
        → 0 < length texts
        → Meets (Vectors encode_single texts) (embed fl gone session m encode_single cls texts)
    unfolding embed
    embed-Vectors enc cls texts regular full some_texts =
        Meets-bind _ _ _ (encode_all fl gone session m enc texts)
          (Meets-known _ _ (encode_all-Meets fl gone session m enc texts))
          λ es g.
            Meets-bind _ _ _ (run_model fl gone session m es) (run_model-Meets fl gone session m es)
              λ r ran.
                let batch : IsBatch m.pad_id es r.1 =
                  subst (IsBatch m.pad_id es) (sym ran.0) (build_batch-IsBatch es m.pad_id) in
                Meets-bind (λ dim. length r.0.1 ≡ length es * r.1.seq * dim) _ _
                  (last_of_three fl gone session m r.0.0) (last_of_three-Meets es r regular ran)
                  λ dim size.
                    Meets-bind (λ vs. length vs ≡ r.1.rows) _ _
                      (row_vectors fl gone session m cls dim r.0.1 r.1 0 r.1.rows)
                      (vectors-Meets cls dim r.0.1 r.1 es batch (omega (arith, some_texts, g.1))
                        (subst (Meets (All (λ e. 0 < length e))) g.0
                          (encode_all-full enc texts full))
                        size)
                      λ vs q. (q ∙ batch.rows ∙ g.1, (es, g.0, batch.tokens))
