-- ===== src/Blobs/Inside.antt =====
-- deployables/backend/internal/blobs/blobs.go: what resolve answers, and which paths it answers.
use aime.Base.{
  true, false, ◌||◌, ◌==◌, none, some, List, [], ◌∷◌, ◌++◌, ◌≡◌, refl, ap, inl, inr, Bool-cases,
  arith, &&-true, eq_of_==, subst,
}
use mathlib.Core.List.{append_assoc}
use aime.Base.Lists.{exists, All}
use aime.Base.Bytes.{Bytes, bytes_eq}
use aime.Blobs.Paths.{
  slash, is_slash, split, clean, slashed, render, join, has_prefix, has_dots, is_abs, resolve,
}
use aime.Blobs.Segments.{IsName, clean-names, split-IsSolid}

-- Behind a segment comes a slash or nothing.
abbrev Ends : Bytes → Type 0
Ends [] = Unit
Ends (c ∷ cs) = c ≡ slash

prefix_segment :
    (r s x y : Bytes)
    → exists is_slash r ≡ false
    → exists is_slash s ≡ false
    → Ends y
    → has_prefix (r ++ (slash ∷ x)) (s ++ y) ≡ true
    → (r ≡ s) × (has_prefix (slash ∷ x) y ≡ true)
prefix_segment [] [] x y a b e h = (refl, h)
prefix_segment [] (d ∷ s) x y a b e h = absurd (ground arith)
prefix_segment (c ∷ r) [] x [] a b e h = absurd (ground arith)
prefix_segment (c ∷ r) [] x (d ∷ y) a b e h = absurd (ground arith)
prefix_segment (c ∷ r) (d ∷ s) x y a b e h =
    let (same, rest) = &&-true (c == d) _ h in
    let (tail, next) = prefix_segment r s x y (ground arith) (ground arith) e rest in
    (rw (eq_of_== c d same, tail) refl, next)

slashed-Ends : (ss : List Bytes) → Ends (slashed ss)
slashed-Ends [] = tt
slashed-Ends (s ∷ ss) = refl

slashed-slash : (rs : List Bytes) → (x : Bytes) × (slashed rs ++ (slash ∷ []) ≡ slash ∷ x)
slashed-slash [] = ([], refl)
slashed-slash (r ∷ rs) = (_, refl)

prefix-segments :
    (rs ss : List Bytes)
    → All IsName rs
    → All IsName ss
    → has_prefix (slashed rs ++ (slash ∷ [])) (slashed ss) ≡ true
    → (t : Bytes) × (ts : List Bytes) × (ss ≡ rs ++ (t ∷ ts))
prefix-segments [] [] a b h = absurd (ground arith)
prefix-segments [] (s ∷ ss) a b h = (s, ss, refl)
prefix-segments (r ∷ rs) [] a b h = absurd (ground arith)
prefix-segments (r ∷ rs) (s ∷ ss) (a, p) (b, q) h =
    let (x, e) = slashed-slash rs in
    let (same, rest) =
      prefix_segment r s x (slashed ss) a.solid b.solid (slashed-Ends ss) (split_off x e) in
    let (t, ts, q) = prefix-segments rs ss p q (rw e rest) in (t, ts, rw (same, q) refl)
  where
    split_off :
        (x : Bytes)
        → slashed rs ++ (slash ∷ []) ≡ slash ∷ x
        → has_prefix (r ++ (slash ∷ x)) (s ++ slashed ss) ≡ true
    split_off x e = rw (append_assoc r (slashed rs) (slash ∷ []), e) at h

-- Where a path stands: below the root, with names for its segments.
pub record IsInside (root : List Bytes) (p : Bytes) : Type 0 where
  pub first : Bytes
  pub rest : List Bytes
  pub names : All IsName (root ++ (first ∷ rest))
  pub rendered : p ≡ slashed (root ++ (first ∷ rest))

module _ (r : Bytes) (rs : List Bytes) (named : All IsName (r ∷ rs)) where
  abbrev root : Bytes
  root = slashed (r ∷ rs)

  inside :
      (rel : Bytes)
      → has_prefix (root ++ (slash ∷ [])) (join root rel) ≡ true
      → IsInside (r ∷ rs) (join root rel)
  inside rel h =
      of_segments (clean [] (split (root ++ (slash ∷ rel))))
        (clean-names [] (split (root ++ (slash ∷ rel))) tt (split-IsSolid (root ++ (slash ∷ rel))))
        h
    where
      too_short : (xs : Bytes) → has_prefix (xs ++ (slash ∷ [])) [] ≡ true → ⊥
      too_short [] h = cc
      too_short (x ∷ xs) h = cc

      of_segments :
          (segments : List Bytes)
          → All IsName segments
          → has_prefix (root ++ (slash ∷ [])) (render segments) ≡ true
          → IsInside (r ∷ rs) (render segments)
      of_segments [] a h = absurd (too_short (r ++ slashed rs) h)
      of_segments (s ∷ ss) a h =
          let (t, ts, e) = prefix-segments (r ∷ rs) (s ∷ ss) named a h in
          record { first = t; rest = ts; names = subst (All IsName) e a; rendered = ap slashed e }

  -- Whatever `rel` is, the path that `resolve` answers lies below the root: the root's names, and at
  -- least one more, none of them empty, a dot, two dots or with a slash.
  pub resolve-IsInside : (rel p : Bytes) → resolve root rel ≡ some p → IsInside (r ∷ rs) p
  unfolding resolve
  resolve-IsInside rel p h = elim (Bool-cases (bytes_eq rel [] || has_dots rel || is_abs rel)) [
    | inl e ↦ absurd (none-some (rw e at h))
    | inr e ↦ elim (Bool-cases (has_prefix (root ++ (slash ∷ [])) (join root rel))) [
      | inl f ↦ subst (IsInside (r ∷ rs)) (some_inj (rw (e, f) at h)) (inside rel f)
      | inr f ↦ absurd (none-some (rw (e, f) at h))
    ]
  ]
    where
      none-some : {q : Bytes} → none ≡ some q → ⊥
      none-some e = cc

      some_inj : {a b : Bytes} → some a ≡ some b → a ≡ b
      some_inj e = cc
