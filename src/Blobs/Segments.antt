-- ===== src/Blobs/Segments.antt =====
-- deployables/backend/internal/blobs/blobs.go: the segments of the paths that resolve joins.
use aime.Base.{ℕ, true, false, List, [], ◌∷◌, ◌++◌, ◌≡◌, refl, sym, ◌∙◌, ap, inl, inr, Bool-cases}
use mathlib.Core.List.{append_assoc, append-nil}
use aime.Base.Lists.{exists, All}
use aime.Base.Bytes.{Bytes, bytes, bytes_eq}
use aime.Blobs.Paths.{slash, split, into_head, is_idle, clean, drop_last, slashed, is_slash}

-- A name in a directory.
pub record IsName (s : Bytes) : Type 0 where
  pub busy : is_idle s ≡ false
  pub forward : bytes_eq s (bytes "..") ≡ false
  pub solid : exists is_slash s ≡ false

abbrev pub IsSolid : Bytes → Type 0
IsSolid s = exists is_slash s ≡ false

into_head-IsSolid :
    (c : ℕ) (ss : List Bytes) → is_slash c ≡ false → All IsSolid ss → All IsSolid (into_head c ss)
into_head-IsSolid c [] e a = (rw e refl, tt)
into_head-IsSolid c (t ∷ ts) e (a, rest) = (rw e a, rest)

-- No segment holds a slash.
pub split-IsSolid : (s : Bytes) → All IsSolid (split s)
split-IsSolid [] = (refl, tt)
split-IsSolid (c ∷ cs) = elim (Bool-cases (is_slash c)) [
  | inl e ↦ rw e (refl, split-IsSolid cs)
  | inr e ↦ rw e (into_head-IsSolid c (split cs) e (split-IsSolid cs))
]

pub All-append : (xs ys : List Bytes) → All IsName xs → All IsName ys → All IsName (xs ++ ys)
All-append [] ys a b = b
All-append (x ∷ xs) ys (a, rest) b = (a, All-append xs ys rest b)

drop_last-names : (ss : List Bytes) → All IsName ss → All IsName (drop_last ss)
drop_last-names [] a = tt
drop_last-names (s ∷ []) a = tt
drop_last-names (s ∷ t ∷ ss) (a, rest) = (a, drop_last-names (t ∷ ss) rest)

pub clean-names :
    (before ss : List Bytes) → All IsName before → All IsSolid ss → All IsName (clean before ss)
clean-names before [] a b = a
clean-names before (s ∷ ss) a (b, bs) = elim (Bool-cases (is_idle s)) [
  | inl e ↦ rw e (clean-names before ss a bs)
  | inr e ↦ elim (Bool-cases (bytes_eq s (bytes ".."))) [
    | inl f ↦ rw (e, f) (clean-names (drop_last before) ss (drop_last-names before a) bs)
    | inr f ↦
        rw (e, f)
          (clean-names (before ++ s ∷ []) ss
            (All-append before (s ∷ []) a (record { busy = e; forward = f; solid = b }, tt)) bs)
  ]
]

-- Names are clean.
pub clean-id : (before ss : List Bytes) → All IsName ss → clean before ss ≡ before ++ ss
clean-id before [] a = sym (append-nil before)
clean-id before (s ∷ ss) (a, rest) =
    rw (a.busy, a.forward) (clean-id (before ++ s ∷ []) ss rest ∙ append_assoc before (s ∷ []) ss)

split-cons : (s : Bytes) → (t : Bytes) × (ts : List Bytes) × (split s ≡ t ∷ ts)
split-cons [] = ([], [], refl)
split-cons (c ∷ cs) = elim (Bool-cases (is_slash c)) [
  | inl e ↦ rw e ([], split cs, refl)
  | inr e ↦ let (t, ts, q) = split-cons cs in rw (e, q) (c ∷ t, ts, refl)
]

into_head-append :
    (c : ℕ) (ss us : List Bytes) (t : Bytes) (ts : List Bytes)
    → ss ≡ t ∷ ts
    → into_head c (ss ++ us) ≡ into_head c ss ++ us
into_head-append c ss us t ts q = rw q refl

pub split_at_slash : (a b : Bytes) → split (a ++ (slash ∷ b)) ≡ split a ++ split b
split_at_slash [] b = refl
split_at_slash (c ∷ cs) b = elim (Bool-cases (is_slash c)) [
  | inl e ↦ rw e (ap (λ l. [] ∷ l) (split_at_slash cs b))
  | inr e ↦
      let (t, ts, q) = split-cons cs in
      rw (e, split_at_slash cs b) (into_head-append c (split cs) (split b) t ts q)
]

true-not-false : true ≡ false → ⊥
true-not-false h = cc

pub split_solid : (s : Bytes) → IsSolid s → split s ≡ s ∷ []
split_solid [] h = refl
split_solid (c ∷ cs) h = elim (Bool-cases (is_slash c)) [
  | inl e ↦ absurd (true-not-false (rw e at h))
  | inr e ↦ rw (e, split_solid cs (rw e at h)) refl
]

-- The segments of names behind a name.
pub split_names :
    (s : Bytes) (ss : List Bytes) → IsSolid s → All IsName ss → split (s ++ slashed ss) ≡ s ∷ ss
split_names s [] h a = rw (append-nil s) (split_solid s h)
split_names s (t ∷ ts) h (a, rest) =
    split_at_slash s (t ++ slashed ts) ∙ rw (split_solid s h, split_names t ts a.solid rest) refl

pub slashed-append : (xs ys : List Bytes) → slashed (xs ++ ys) ≡ slashed xs ++ slashed ys
slashed-append [] ys = refl
slashed-append (x ∷ xs) ys =
    ap (λ l. slash ∷ l)
      (ap (λ l. x ++ l) (slashed-append xs ys) ∙ sym (append_assoc x (slashed xs) (slashed ys)))
