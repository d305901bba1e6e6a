-- ===== src/Encode/Layout.antt =====
-- deployables/backend/internal/encode/onnx.go: the arrays of a batch hold one padded row for each
-- encoding, in order.
use aime.Base.{
  ℕ, zero, suc, ◌+◌, ◌-◌, ◌*◌, ◌≤◌, ◌≡◌, refl, sym, subst, ap, ◌∙◌, List, [], ◌∷◌, ◌++◌, map, arith,
}
use mathlib.Core.List.{append_assoc}
use aime.Base.Lists.{length, length-append, All}
use aime.Encode.Batch.{
  Token, Encoding, Batch, max, longest, replicate, set, write_from, sum, write_row, write_rows,
  blank, build_batch,
}

module _ {A : Type 0} where
  set-append :
      (p : List A) (x y : A) (ys : List A) → set (length p) x (p ++ (y ∷ ys)) ≡ p ++ (x ∷ ys)
  set-append [] x y ys = refl
  set-append (z ∷ p) x y ys = ap (λ l. z ∷ l) (set-append p x y ys)

  -- A run of writes over values of which there are as many.
  write_from-append :
      (n : ℕ) (p xs ys zs : List A)
      → n ≡ length p
      → length xs ≡ length ys
      → write_from n xs (p ++ (ys ++ zs)) ≡ p ++ (xs ++ zs)
  write_from-append n p [] [] zs h e = refl
  write_from-append n p [] (y ∷ ys) zs h e = absurd (omega (arith, e))
  write_from-append n p (x ∷ xs) [] zs h e = absurd (omega (arith, e))
  write_from-append n p (x ∷ xs) (y ∷ ys) zs h e =
      ap (λ l. write_from (suc n) xs l)
        (ap (λ k. set k x (p ++ (y ∷ (ys ++ zs)))) h
          ∙ set-append p x y (ys ++ zs)
          ∙ sym (append_assoc p (x ∷ []) (ys ++ zs)))
      ∙ write_from-append (suc n) (p ++ (x ∷ [])) xs ys zs
          (omega (arith, h, length-append p (x ∷ []))) (omega (arith, e))
      ∙ append_assoc p (x ∷ []) (xs ++ zs)

  replicate-append :
      (m n k : ℕ) (x : A) → k ≡ m + n → replicate k x ≡ replicate m x ++ replicate n x
  replicate-append zero n k x e = ap (λ i. replicate i x) (omega (arith, e))
  replicate-append (suc m) n zero x e = absurd (omega (arith, e))
  replicate-append (suc m) n (suc k) x e =
      ap (λ l. x ∷ l) (replicate-append m n k x (omega (arith, e)))

  regroup : (p x y z : List A) → (p ++ (x ++ y)) ++ z ≡ p ++ (x ++ (y ++ z))
  regroup p x y z = append_assoc p (x ++ y) z ∙ ap (λ l. p ++ l) (append_assoc x y z)

  shift : (p x y z : List A) → (p ++ (x ++ y)) ++ z ≡ (p ++ x) ++ (y ++ z)
  shift p x y z = regroup p x y z ∙ sym (append_assoc p x (y ++ z))

  pub length-replicate : (n : ℕ) (x : A) → length (replicate n x) ≡ n
  length-replicate zero x = refl
  length-replicate (suc n) x = omega (arith, length-replicate n x)

  pub length-map : {B : Type 0} (f : A → B) (xs : List A) → length (map f xs) ≡ length xs
  length-map f [] = refl
  length-map f (x ∷ xs) = omega (arith, length-map f xs)

-- Values, and what fills their row.
abbrev pub padded : ℕ → ℕ → List ℕ → List ℕ
padded seq pad xs = xs ++ replicate (seq - length xs) pad

module _ (n seq rest pad : ℕ) (p xs : List ℕ) (at : n ≡ length p) (fits : length xs ≤ seq) where
  -- A row of zeros that is written from its start.
  row-written :
      write_from n xs (p ++ replicate (seq + rest) 0) ≡ (p ++ padded seq 0 xs) ++ replicate rest 0
  row-written =
      ap (λ l. write_from n xs (p ++ l))
        (replicate-append (length xs) (seq - length xs + rest) (seq + rest) 0 (omega (arith, fits)))
      ∙ write_from-append n p xs (replicate (length xs) 0) _ at
          (sym (length-replicate (length xs) 0))
      ∙ ap (λ l. p ++ (xs ++ l))
          (replicate-append (seq - length xs) rest (seq - length xs + rest) 0 refl)
      ∙ sym (regroup p xs (replicate (seq - length xs) 0) (replicate rest 0))

  -- The padding over the zeros of a written row.
  row-padded :
      write_from
        (n + length xs)
        (replicate (seq - length xs) pad)
        ((p ++ padded seq 0 xs) ++ replicate rest 0)
      ≡ (p ++ padded seq pad xs) ++ replicate rest 0
  row-padded =
      ap (λ l. write_from (n + length xs) (replicate (seq - length xs) pad) l)
        (shift p xs (replicate (seq - length xs) 0) (replicate rest 0))
      ∙ write_from-append (n + length xs) (p ++ xs) (replicate (seq - length xs) pad)
          (replicate (seq - length xs) 0) (replicate rest 0) (omega (arith, at, length-append p xs))
          (length-replicate (seq - length xs) pad ∙ sym (length-replicate (seq - length xs) 0))
      ∙ sym (shift p xs (replicate (seq - length xs) pad) (replicate rest 0))

  -- A row of which the number of values is given.
  row-both :
      (k : ℕ)
      → k ≡ length xs
      → write_from
          (n + k)
          (replicate (seq - k) pad)
          (write_from n xs (p ++ replicate (seq + rest) 0))
        ≡ (p ++ padded seq pad xs) ++ replicate rest 0
  row-both k e =
      ap
        (λ i.
          write_from (n + i) (replicate (seq - i) pad)
            (write_from n xs (p ++ replicate (seq + rest) 0)))
        e
      ∙ ap (λ l. write_from (n + length xs) (replicate (seq - length xs) pad) l) row-written
      ∙ row-padded

-- The rows of an array, one for each encoding, in order.
abbrev pub layout : ℕ → ℕ → (Token → ℕ) → List Encoding → List ℕ
layout seq pad f [] = []
layout seq pad f (e ∷ es) = padded seq pad (map f e) ++ layout seq pad f es

abbrev pub attended : List Encoding → ℕ
attended [] = 0
attended (e ∷ es) = sum (map (λ t. t.mask) e) + attended es

-- A batch whose rows up to `r` are written.
record IsWritten (rest : ℕ) (p q s : List ℕ) (b : Batch) : Type 0 where
  ids : b.ids ≡ p ++ replicate rest 0
  mask : b.mask ≡ q ++ replicate rest 0
  types : b.types ≡ s ++ replicate rest 0

write_row-IsWritten :
    (pad off rest : ℕ) (e : Encoding) (p q s : List ℕ) (b : Batch)
    → off ≡ length p
    → off ≡ length q
    → off ≡ length s
    → length e ≤ b.seq
    → IsWritten (b.seq + rest) p q s b
    → IsWritten rest
        (p ++ padded b.seq pad (map (λ t. t.id) e))
        (q ++ padded b.seq 0 (map (λ t. t.mask) e))
        (s ++ padded b.seq 0 (map (λ t. t.type_id) e))
        (write_row pad off e b)
unfolding write_row
write_row-IsWritten pad off rest e p q s b hp hq hs fits w = record {
  ids = rw w.ids (
      row-both off b.seq rest pad p (map (λ t. t.id) e) hp
        (omega (arith, fits, length-map (λ t. t.id) e)) (length e)
        (sym (length-map (λ t. t.id) e)));
  mask = rw w.mask (
      row-written off b.seq rest pad q (map (λ t. t.mask) e) hq
        (omega (arith, fits, length-map (λ t. t.mask) e)));
  types = rw w.types (
      row-written off b.seq rest pad s (map (λ t. t.type_id) e) hs
        (omega (arith, fits, length-map (λ t. t.type_id) e)));
}

pub length-padded : (seq pad : ℕ) (xs : List ℕ) → length xs ≤ seq → length (padded seq pad xs) ≡ seq
length-padded seq pad xs h = omega (
  arith,
  h,
  length-append xs (replicate (seq - length xs) pad),
  length-replicate (seq - length xs) pad,
)

abbrev Fits : ℕ → List Encoding → Type 0
Fits seq es = All (λ e. length e ≤ seq) es

-- The batch behind the loop.
record IsLaid (pad : ℕ) (es : List Encoding) (p q s : List ℕ) (b t : Batch) : Type 0 where
  ids : t.ids ≡ p ++ layout b.seq pad (λ x. x.id) es
  mask : t.mask ≡ q ++ layout b.seq 0 (λ x. x.mask) es
  types : t.types ≡ s ++ layout b.seq 0 (λ x. x.type_id) es
  tokens : t.tokens ≡ b.tokens + attended es
  rows : t.rows ≡ b.rows
  seq : t.seq ≡ b.seq

pub suc_mul : (n m : ℕ) → suc n * m ≡ m + n * m
suc_mul n m = omega arith

nothing : (n : ℕ) (p xs : List ℕ) → n ≡ 0 → xs ≡ p ++ replicate n 0 → xs ≡ p ++ []
nothing n p xs e h = h ∙ ap (λ k. p ++ replicate k 0) e

-- The end of the first row behind `p`.
next_row :
    (r seq pad : ℕ) (p xs : List ℕ)
    → r * seq ≡ length p
    → length xs ≤ seq
    → suc r * seq ≡ length (p ++ padded seq pad xs)
next_row r seq pad p xs h fits =
    omega
      (arith, h, suc_mul r seq, length-append p (padded seq pad xs), length-padded seq pad xs fits)

write_rows-IsLaid :
    (pad r : ℕ) (es : List Encoding) (p q s : List ℕ) (b : Batch)
    → r * b.seq ≡ length p
    → r * b.seq ≡ length q
    → r * b.seq ≡ length s
    → Fits b.seq es
    → IsWritten (length es * b.seq) p q s b
    → IsLaid pad es p q s b (write_rows pad r es b)
unfolding write_rows write_row
write_rows-IsLaid pad r [] p q s b hp hq hs fits w = record {
  ids = nothing (0 * b.seq) p b.ids (omega arith) w.ids;
  mask = nothing (0 * b.seq) q b.mask (omega arith) w.mask;
  types = nothing (0 * b.seq) s b.types (omega arith) w.types;
  tokens = omega arith;
  rows = refl;
  seq = refl;
}
write_rows-IsLaid pad r (e ∷ es) p q s b hp hq hs (fit, fits) w =
    let v =
      write_row-IsWritten pad (r * b.seq) (length es * b.seq) e p q s b hp hq hs fit
        (subst (λ n. IsWritten n p q s b) (suc_mul (length es) b.seq) w) in
    let k =
      write_rows-IsLaid pad (suc r) es _ _ _ (write_row pad (r * b.seq) e b)
        (next_row r b.seq pad p _ hp (omega (arith, fit, length-map (λ t. t.id) e)))
        (next_row r b.seq 0 q _ hq (omega (arith, fit, length-map (λ t. t.mask) e)))
        (next_row r b.seq 0 s _ hs (omega (arith, fit, length-map (λ t. t.type_id) e))) fits v in
    record {
      ids = k.ids ∙ append_assoc p _ _;
      mask = k.mask ∙ append_assoc q _ _;
      types = k.types ∙ append_assoc s _ _;
      tokens = omega (arith, k.tokens);
      rows = k.rows;
      seq = k.seq;
    }

longest-le : (seq : ℕ) (es : List Encoding) → seq ≤ longest seq es
unfolding longest
longest-le seq [] = omega arith
longest-le seq (e ∷ es) = ground (arith, longest-le (max seq (length e)) es)

longest-Fits : (seq : ℕ) (es : List Encoding) → Fits (longest seq es) es
unfolding longest
longest-Fits seq [] = tt
longest-Fits seq (e ∷ es) =
    (ground (arith, longest-le (max seq (length e)) es), longest-Fits (max seq (length e)) es)

-- Each encoding has a row of the three arrays, in order: its values, and behind them the padding.
pub record IsBatch (pad : ℕ) (es : List Encoding) (b : Batch) : Type 0 where
  pub rows : b.rows ≡ length es
  pub fits : All (λ e. length e ≤ b.seq) es
  pub ids : b.ids ≡ layout b.seq pad (λ x. x.id) es
  pub mask : b.mask ≡ layout b.seq 0 (λ x. x.mask) es
  pub types : b.types ≡ layout b.seq 0 (λ x. x.type_id) es
  pub tokens : b.tokens ≡ attended es

-- The flat arrays that `buildBatch` writes index by index are the padded rows one behind the other,
-- no encoding is longer than a row, and the tokens are the sum of the attention masks.
pub build_batch-IsBatch : (es : List Encoding) (pad : ℕ) → IsBatch pad es (build_batch es pad)
unfolding build_batch
build_batch-IsBatch es pad =
    let seq = longest 0 es in
    let b = blank (length es) seq in
    let k =
      write_rows-IsLaid pad 0 es [] [] [] b (omega arith) (omega arith) (omega arith)
        (longest-Fits 0 es) (record { ids = refl; mask = refl; types = refl }) in
    record {
      rows = k.rows;
      fits = subst (λ n. Fits n es) (sym k.seq) (longest-Fits 0 es);
      ids = k.ids ∙ ap (λ n. layout n pad (λ x. x.id) es) (sym k.seq);
      mask = k.mask ∙ ap (λ n. layout n 0 (λ x. x.mask) es) (sym k.seq);
      types = k.types ∙ ap (λ n. layout n 0 (λ x. x.type_id) es) (sym k.seq);
      tokens = omega (arith, k.tokens);
    }
