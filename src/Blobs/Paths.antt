-- ===== src/Blobs/Paths.antt =====
-- deployables/backend/internal/blobs/blobs.go: resolve, with the part of path/filepath that it uses.
use aime.Base.{
  ℕ, Bool, true, false, ◌&&◌, ◌||◌, ◌==◌, Option, none, some, List, [], ◌∷◌, ◌++◌, if◌then◌else◌,
}
use aime.Base.Bytes.{Bytes, bytes, bytes_eq}

abbrev pub slash : ℕ
slash = 47

abbrev dot : ℕ
dot = 46

-- A byte before the first segment, or before the first byte of it.
abbrev pub into_head : ℕ → List Bytes → List Bytes
into_head c [] = (c ∷ []) ∷ []
into_head c (s ∷ ss) = (c ∷ s) ∷ ss

abbrev pub is_slash : ℕ → Bool
is_slash c = c == slash

-- The segments between slashes.
abbrev pub split : Bytes → List Bytes
split [] = [] ∷ []
split (c ∷ cs) = let rest = split cs in if is_slash c then [] ∷ rest else into_head c rest

-- A segment that `filepath.Clean` drops.
abbrev pub is_idle : Bytes → Bool
is_idle s = bytes_eq s [] || bytes_eq s (bytes ".")

abbrev pub drop_last : List Bytes → List Bytes
drop_last [] = []
drop_last (s ∷ []) = []
drop_last (s ∷ t ∷ ss) = s ∷ drop_last (t ∷ ss)

-- `filepath.Clean` of an absolute path: `..` takes the segment before it away.
abbrev pub clean : List Bytes → List Bytes → List Bytes
clean before [] = before
clean before (s ∷ ss) =
    let dropped = clean before ss in
    let upwards = clean (drop_last before) ss in
    let kept = clean (before ++ s ∷ []) ss in
    if is_idle s then dropped else if bytes_eq s (bytes "..") then upwards else kept

abbrev pub slashed : List Bytes → Bytes
slashed [] = []
slashed (s ∷ ss) = slash ∷ s ++ slashed ss

-- The absolute path of segments.
abbrev pub render : List Bytes → Bytes
render [] = bytes "/"
render (s ∷ ss) = slashed (s ∷ ss)

-- `filepath.Join` behind an absolute path.
abbrev pub join : Bytes → Bytes → Bytes
join root rel = render (clean [] (split (root ++ slash ∷ rel)))

-- `strings.HasPrefix`
abbrev pub has_prefix : Bytes → Bytes → Bool
has_prefix [] s = true
has_prefix (p ∷ ps) [] = false
has_prefix (p ∷ ps) (c ∷ cs) = (p == c) && has_prefix ps cs

-- `strings.Contains(rel, "..")`
abbrev pub has_dots : Bytes → Bool
has_dots [] = false
has_dots (c ∷ []) = false
has_dots (c ∷ d ∷ cs) = ((c == dot) && (d == dot)) || has_dots (d ∷ cs)

-- `filepath.IsAbs`
abbrev pub is_abs : Bytes → Bool
is_abs [] = false
is_abs (c ∷ cs) = is_slash c

-- `none` is ErrBadPath.
unfoldable pub resolve : Bytes → Bytes → Option Bytes
resolve root rel =
    if bytes_eq rel [] || has_dots rel || is_abs rel
    then none
    else if has_prefix (root ++ slash ∷ []) (join root rel)
    then some (join root rel)
    else none
