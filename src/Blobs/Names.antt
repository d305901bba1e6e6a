-- ===== src/Blobs/Names.antt =====
-- deployables/backend/internal/blobs/blobs.go: the paths that Write makes up.
use aime.Base.{
  ℕ, true, false, ◌||◌, some, List, [], ◌∷◌, ◌++◌, ◌≡◌, refl, sym, ◌∙◌, ap, Bool-cases, arith,
  ==-refl, subst,
}
use mathlib.Core.List.{append_assoc}
use aime.Base.Lists.{exists, All}
use aime.Base.Int.{pos}
use aime.Base.Bytes.{Bytes, bytes, bytes_eq}
use aime.Base.Decimal.{format_int, Starts, format_int-Starts, is_low, format_int-high}
use aime.Blobs.Paths.{
  slash, is_slash, split, clean, slashed, render, join, has_prefix, has_dots, is_abs, resolve,
}
use aime.Blobs.Segments.{
  IsName, All-append, clean-id, split_names, split_solid, slashed-append, split_at_slash,
}
use aime.Blobs.Disk.{blob_name}

-- Digits and letters stand above the dot and the slash.
abbrev pub IsHigh : Bytes → Type 0
IsHigh s = exists is_low s ≡ false

high-solid : (s t : Bytes) → IsHigh s → exists is_slash t ≡ false → exists is_slash (s ++ t) ≡ false
high-solid [] t h k = k
high-solid (c ∷ cs) t h k = ground (arith, high-solid cs t, Bool-cases (is_low c))

high-alone : (s : Bytes) → IsHigh s → exists is_slash s ≡ false
high-alone [] h = refl
high-alone (c ∷ cs) h = ground (arith, high-alone cs, Bool-cases (is_low c))

high-dots : (s t : Bytes) → IsHigh s → has_dots (s ++ t) ≡ has_dots t
high-dots [] t h = refl
high-dots (c ∷ []) [] h = refl
high-dots (c ∷ []) (d ∷ t) h = ground arith
high-dots (c ∷ d ∷ cs) t h = ground (arith, high-dots (d ∷ cs) t)

has_dots-slash : (s : Bytes) → has_dots (slash ∷ s) ≡ has_dots s
has_dots-slash [] = refl
has_dots-slash (c ∷ cs) = refl

high-IsName :
    (c : ℕ) (cs : Bytes) → is_low c ≡ false → exists is_slash (c ∷ cs) ≡ false → IsName (c ∷ cs)
unfolding bytes_eq
high-IsName c cs h k = record { busy = ground arith; forward = ground arith; solid = k }

plain_path :
    (f x : Bytes)
    → Starts f
    → has_dots (f ++ x) ≡ false
    → (bytes_eq (f ++ x) [] || has_dots (f ++ x) || is_abs (f ++ x)) ≡ false
unfolding bytes_eq
plain_path f x (c, cs, low, e) h = rw (h, e) (ground arith)

number-IsName : (n : ℕ) → IsName (format_int (pos n))
number-IsName n =
    let (c, cs, low, e) = format_int-Starts n in
    subst IsName (sym e) (
      high-IsName c cs (ground arith) (
        subst (λ s. exists is_slash s ≡ false) e
          (high-alone (format_int (pos n)) (format_int-high n))))

file-IsName : (s : Bytes) → IsHigh s → IsName (s ++ bytes ".bin")
unfolding bytes_eq
file-IsName [] h = record { busy = refl; forward = refl; solid = refl }
file-IsName (c ∷ cs) h =
    high-IsName c (cs ++ bytes ".bin") (ground arith) (high-solid (c ∷ cs) (bytes ".bin") h refl)

has_prefix-append : (p x : Bytes) → has_prefix p (p ++ x) ≡ true
has_prefix-append [] x = refl
has_prefix-append (c ∷ p) x = rw (==-refl c) (has_prefix-append p x)

module _ (r : Bytes) (rs : List Bytes) (named : All IsName (r ∷ rs)) (hex : Bytes → Bytes)
    (digits : (s : Bytes) → IsHigh (hex s)) where
  abbrev root : Bytes
  root = slashed (r ∷ rs)

  abbrev pub place : ℕ → Bytes → List Bytes
  place owner rnd = format_int (pos owner) ∷ (hex rnd ++ bytes ".bin") ∷ []

  place-names : (owner : ℕ) (rnd : Bytes) → All IsName (place owner rnd)
  place-names owner rnd = (number-IsName owner, (file-IsName (hex rnd) (digits rnd), tt))

  split-blob_name : (owner : ℕ) (rnd : Bytes) → split (blob_name hex owner rnd) ≡ place owner rnd
  split-blob_name owner rnd =
      split_at_slash (format_int (pos owner)) (hex rnd ++ bytes ".bin")
      ∙ rw
          (
            split_solid (format_int (pos owner)) (number-IsName owner).solid,
            split_solid (hex rnd ++ bytes ".bin") (file-IsName (hex rnd) (digits rnd)).solid,
          )
          refl

  split-root : split root ≡ [] ∷ r ∷ rs
  split-root = ap (λ l. [] ∷ l) (split_names r rs named.0.solid named.1)

  segments :
      (owner : ℕ) (rnd : Bytes)
      → split (root ++ (slash ∷ blob_name hex owner rnd)) ≡ [] ∷ ((r ∷ rs) ++ place owner rnd)
  segments owner rnd =
      split_at_slash root (blob_name hex owner rnd)
      ∙ ap (λ ss. ss ++ split (blob_name hex owner rnd)) split-root
      ∙ ap (λ ss. ([] ∷ r ∷ rs) ++ ss) (split-blob_name owner rnd)

  -- The path of a new file: two names below the root.
  pub join-blob_name :
      (owner : ℕ) (rnd : Bytes)
      → join root (blob_name hex owner rnd) ≡ slashed ((r ∷ rs) ++ place owner rnd)
  unfolding bytes_eq
  join-blob_name owner rnd =
      ap (λ ss. render (clean [] ss)) (segments owner rnd)
      ∙ ap render (
          clean-id [] ((r ∷ rs) ++ place owner rnd)
            (All-append (r ∷ rs) (place owner rnd) named (place-names owner rnd)))

  place_prefix :
      (ss : List Bytes) (s : Bytes)
      → has_prefix (root ++ (slash ∷ [])) (slashed ((r ∷ rs) ++ (s ∷ ss))) ≡ true
  place_prefix ss s =
      subst (λ p. has_prefix (root ++ (slash ∷ [])) p ≡ true)
        (append_assoc root (slash ∷ []) (s ++ slashed ss) ∙ sym (slashed-append (r ∷ rs) (s ∷ ss)))
        (has_prefix-append (root ++ (slash ∷ [])) (s ++ slashed ss))

  blob_name-dots : (owner : ℕ) (rnd : Bytes) → has_dots (blob_name hex owner rnd) ≡ false
  blob_name-dots owner rnd =
      high-dots (format_int (pos owner)) (slash ∷ (hex rnd ++ bytes ".bin")) (format_int-high owner)
      ∙ has_dots-slash (hex rnd ++ bytes ".bin")
      ∙ high-dots (hex rnd) (bytes ".bin") (digits rnd)

  -- `Write` makes up paths that `resolve` answers, as two names below the root, when the encoding of
  -- the random bytes has only digits and letters.
  pub resolve-blob_name :
      (owner : ℕ) (rnd : Bytes)
      → resolve root (blob_name hex owner rnd) ≡ some (slashed ((r ∷ rs) ++ place owner rnd))
  unfolding resolve
  resolve-blob_name owner rnd =
      rw
        (
          plain_path (format_int (pos owner)) (slash ∷ (hex rnd ++ bytes ".bin"))
              (format_int-Starts owner) (blob_name-dots owner rnd),
          join-blob_name owner rnd,
          place_prefix ((hex rnd ++ bytes ".bin") ∷ []) (format_int (pos owner)),
        )
        refl
