-- ===== src/Blobs/Sweep/Kept.antt =====
-- deployables/backend/internal/blobs/blobs.go: what Sweep leaves and what it removes.
use aime.Base.{
  Bool, true, false, List, [], ◌∷◌, ◌≡◌, ◌≢◌, refl, ◌∙◌, sym, ap, subst, inl, inr, Bool-cases,
  arith, if◌then◌else◌,
}
use aime.Base.Lists.{exists}
use aime.Base.Member.{In, exists-none, exists-In}
use aime.Base.Int.{ℤ, ◌-ℤ◌}
use aime.Base.Bytes.{Bytes, eq_of_bytes_eq}
use aime.Blobs.Disk.{directory, Entry, Disk, is_at, is_under, os_remove}
use aime.Blobs.Removal.{
  os_remove-below, os_remove-kept, os_remove-gone, os_remove-stuck, Shrinks, Shrinks-refl,
  os_remove-Shrinks,
}
use aime.Blobs.Sweep.{
  SweepResult, no_files, Swept, is_left, is_unreadable, walk, is_owner_dir, remove_dirs, end_sweep,
  sweep,
}

-- A disk has one entry at a path.
abbrev pub IsDistinct : List Entry → Type 0
IsDistinct es = (x y : Entry) → In x es → In y es → x.path ≡ y.path → x ≡ y

clash : {b : Bool} → b ≡ true → b ≡ false → ⊥
clash q h = cc

owner-directory : (root : Bytes) (e : Entry) → is_owner_dir root e ≡ true → e.kind ≡ directory
owner-directory root e h = ground arith

all-none :
    (p : Entry → Bool) (es : List Entry)
    → ((e : Entry) → In e es → p e ≡ false)
    → exists p es ≡ false
all-none p es h = elim (Bool-cases (exists p es)) [
  | inl e ↦ let (x, i, q) = exists-In p es e in absurd (clash q (h x i))
  | inr e ↦ e
]

-- Nothing keeps the system from removing the entry.
pub record IsFree (d : Disk) (x : Entry) : Type 0 where
  pub movable : d.stuck x.path ≡ false
  pub bare : (e : Entry) → In e d.entries → is_under x.path e ≡ false

IsFree-os_remove : (p : Bytes) (d : Disk) (x : Entry) → IsFree d x → IsFree (os_remove p d).1 x
IsFree-os_remove p d x f = record {
  movable = os_remove-stuck p x.path d ∙ f.movable;
  bare = λ e i. f.bare e (os_remove-below p d e i);
}

module _ (root : Bytes) (keep : Bytes → Bool) (cutoff : ℤ) where
  abbrev left : Entry → Bool
  left = is_left root keep cutoff

  walk-Shrinks :
      (es : List Entry) (res : SweepResult) (d : Disk)
      → Shrinks d (walk root keep cutoff es res d).disk
  unfolding walk
  walk-Shrinks [] res d = Shrinks-refl d
  walk-Shrinks (e ∷ es) res d = elim (Bool-cases (is_unreadable e)) [
    | inl u ↦ rw u (Shrinks-refl d)
    | inr u ↦ elim (Bool-cases (left e)) [
      | inl l ↦ rw (u, l) (walk-Shrinks es res d)
      | inr l ↦ rw (u, l) (os_remove-Shrinks e.path d _ (walk-Shrinks es _ _))
    ]
  ]

  -- What the walk removes is at the path of an entry that it does not leave.
  walk-kept :
      (es : List Entry) (res : SweepResult) (d : Disk) (x : Entry)
      → In x d.entries
      → ((e : Entry) → In e es → left e ≡ false → is_at e.path x ≡ false)
      → In x (walk root keep cutoff es res d).disk.entries
  unfolding walk
  walk-kept [] res d x i h = i
  walk-kept (e ∷ es) res d x i h = elim (Bool-cases (is_unreadable e)) [
    | inl u ↦ rw u i
    | inr u ↦ elim (Bool-cases (left e)) [
      | inl l ↦ rw (u, l) (walk-kept es res d x i (λ y j. h y (inr j)))
      | inr l ↦
          rw (u, l)
            (walk-kept es _ _ x (os_remove-kept e.path d x i (h e (inl refl) l))
              (λ y j. h y (inr j)))
    ]
  ]

  -- A walk to the end leaves nothing at the path of a file that it does not leave.
  walk-gone :
      (es : List Entry) (res : SweepResult) (d : Disk) (x : Entry)
      → IsFree d x
      → (walk root keep cutoff es res d).failed ≡ false
      → In x es
      → left x ≡ false
      → (e : Entry) → In e (walk root keep cutoff es res d).disk.entries
      → is_at x.path e ≡ false
  unfolding walk
  walk-gone [] res d x free ends i l e j = absurd i
  walk-gone (y ∷ es) res d x free ends i l e j = elim (Bool-cases (is_unreadable y)) [
    | inl u ↦ absurd (clash refl (rw u at ends))
    | inr u ↦ elim (Bool-cases (left y)) [
      | inl m ↦ elim i [
        | inl same ↦ absurd (clash m (ap left (sym same) ∙ l))
        | inr k ↦ walk-gone es res d x free (rw (u, m) at ends) k l e (rw (u, m) at j)
      ]
      | inr m ↦ elim i [
        | inl same ↦
            let f = subst (IsFree d) same free in
            subst (λ z. is_at z.path e ≡ false) (sym same)
              (os_remove-gone y.path d f.movable (all-none (is_under y.path) d.entries f.bare) e
                ((walk-Shrinks es _ _).below e (rw (u, m) at j)))
        | inr k ↦
            walk-gone es _ _ x (IsFree-os_remove y.path d x free) (rw (u, m) at ends) k l e
              (rw (u, m) at j)
      ]
    ]
  ]

-- Directories alone go with the directories.
remove_dirs-Shrinks :
    (root : Bytes) (es : List Entry) (d : Disk) → Shrinks d (remove_dirs root es d)
unfolding remove_dirs
remove_dirs-Shrinks root [] d = Shrinks-refl d
remove_dirs-Shrinks root (e ∷ es) d = elim (Bool-cases (is_owner_dir root e)) [
  | inl o ↦ rw o (os_remove-Shrinks e.path d _ (remove_dirs-Shrinks root es _))
  | inr o ↦ rw o (remove_dirs-Shrinks root es d)
]

remove_dirs-kept :
    (root : Bytes) (es : List Entry) (d : Disk) (x : Entry)
    → In x d.entries
    → ((e : Entry) → In e es → is_owner_dir root e ≡ true → is_at e.path x ≡ false)
    → In x (remove_dirs root es d).entries
unfolding remove_dirs
remove_dirs-kept root [] d x i h = i
remove_dirs-kept root (e ∷ es) d x i h = elim (Bool-cases (is_owner_dir root e)) [
  | inl o ↦ rw o (
      remove_dirs-kept root es _ x (os_remove-kept e.path d x i (h e (inl refl) o))
        (λ y j. h y (inr j)))
  | inr o ↦ rw o (remove_dirs-kept root es d x i (λ y j. h y (inr j)))
]

-- What a sweep does to a disk: it adds nothing, it leaves what is no directory and is young, kept, or
-- no regular file, and when it ends without an error, no other regular file that the system lets go
-- remains.
pub record Sweeps (root : Bytes) (keep : Bytes → Bool) (cutoff : ℤ) (d : Disk) (r : Swept)
    : Type 0 where
  pub below : (e : Entry) → In e r.disk.entries → In e d.entries
  pub left :
      (e : Entry)
      → In e d.entries
      → e.kind ≢ directory
      → is_left root keep cutoff e ≡ true
      → In e r.disk.entries
  pub gone :
      r.failed ≡ false
      → (e : Entry) → In e d.entries
      → is_left root keep cutoff e ≡ false
      → IsFree d e
      → exists (is_at e.path) r.disk.entries ≡ false

module _ (root : Bytes) (keep : Bytes → Bool) (cutoff : ℤ) (d : Disk)
    (distinct : IsDistinct d.entries) where
  abbrev walked : Swept
  walked = walk root keep cutoff d.entries no_files d

  apart : (x y : Entry) → In x d.entries → In y d.entries → x ≢ y → is_at x.path y ≡ false
  apart x y i j n = elim (Bool-cases (is_at x.path y)) [
    | inl e ↦ absurd (n (distinct x y i j (eq_of_bytes_eq x.path y.path e)))
    | inr e ↦ e
  ]

  walked-left :
      (e : Entry) → In e d.entries → is_left root keep cutoff e ≡ true → In e walked.disk.entries
  walked-left e i l =
      walk-kept root keep cutoff d.entries no_files d e i
        λ y j m. apart y e j i λ same. clash l (ap (left root keep cutoff) (sym same) ∙ m)

  walked-Sweeps : Sweeps root keep cutoff d walked
  walked-Sweeps = record {
    below = (walk-Shrinks root keep cutoff d.entries no_files d).below;
    left = λ e i n l. walked-left e i l;
    gone = λ ok e i l free.
        all-none _ _ (walk-gone root keep cutoff d.entries no_files d e free ok i l);
  }

  dirs-Sweeps :
      Sweeps root keep cutoff d
        (record walked { disk = remove_dirs root walked.disk.entries walked.disk })
  dirs-Sweeps =
      let s = remove_dirs-Shrinks root walked.disk.entries walked.disk in
      let w = walked-Sweeps in
      record {
        below = λ e i. w.below e (s.below e i);
        left = λ e i n l.
            remove_dirs-kept root walked.disk.entries walked.disk e (walked-left e i l) λ y j o.
              apart y e (w.below y j) i
                λ same. n (ap (λ z. z.kind) (sym same) ∙ owner-directory root y o);
        gone = λ ok e i l free.
            all-none _ _ λ y j. exists-none _ y _ (w.gone ok e i l free) (s.below y j);
      }

-- `Sweep`, at any time and with any set of paths to keep, meets that on a disk with one entry at a
-- path.
pub sweep-Sweeps :
    (root : Bytes) (listed : Bool) (keep : Bytes → Bool) (min_age now : ℤ) (d : Disk)
    → IsDistinct d.entries
    → Sweeps root keep (now -ℤ min_age) d (sweep root listed keep min_age now d)
unfolding sweep
sweep-Sweeps root listed keep min_age now d distinct =
    either (walk root keep (now -ℤ min_age) d.entries no_files d).failed _ _ w (ends listed)
  where
    either :
        (b : Bool) (x y : Swept)
        → Sweeps root keep (now -ℤ min_age) d x
        → Sweeps root keep (now -ℤ min_age) d y
        → Sweeps root keep (now -ℤ min_age) d (if b then x else y)
    either true x y p q = p
    either false x y p q = q

    w : Sweeps root keep (now -ℤ min_age) d (walk root keep (now -ℤ min_age) d.entries no_files d)
    w = walked-Sweeps root keep (now -ℤ min_age) d distinct

    ends :
        (b : Bool)
        → Sweeps root keep
            (now -ℤ min_age)
            d
            (end_sweep root b (walk root keep (now -ℤ min_age) d.entries no_files d))
    ends true = dirs-Sweeps root keep (now -ℤ min_age) d distinct
    ends false = record { below = w.below; left = w.left; gone = λ h. absurd (clash refl h) }

walk_ends :
    (root : Bytes) (keep : Bytes → Bool) (cutoff : ℤ) (es : List Entry) (res : SweepResult)
    (d : Disk)
    → ((x : Entry) → In x es → is_unreadable x ≡ false)
    → (walk root keep cutoff es res d).failed ≡ false
unfolding walk
walk_ends root keep cutoff [] res d h = refl
walk_ends root keep cutoff (e ∷ es) res d h = elim (Bool-cases (is_left root keep cutoff e)) [
  | inl l ↦ rw (h e (inl refl), l) (walk_ends root keep cutoff es res d (λ x i. h x (inr i)))
  | inr l ↦ rw (h e (inl refl), l) (walk_ends root keep cutoff es _ _ (λ x i. h x (inr i)))
]

-- A sweep ends without an error where every directory can be listed.
pub sweep_ends :
    (root : Bytes) (listed : Bool) (keep : Bytes → Bool) (min_age now : ℤ) (d : Disk)
    → listed ≡ true
    → ((x : Entry) → In x d.entries → is_unreadable x ≡ false)
    → (sweep root listed keep min_age now d).failed ≡ false
unfolding sweep
sweep_ends root listed keep min_age now d readable h =
    either (walk root keep (now -ℤ min_age) d.entries no_files d).failed _ _ ends (rw readable ends)
  where
    ends : (walk root keep (now -ℤ min_age) d.entries no_files d).failed ≡ false
    ends = walk_ends root keep (now -ℤ min_age) d.entries no_files d h

    either :
        (b : Bool) (x y : Swept)
        → x.failed ≡ false
        → y.failed ≡ false
        → (if b then x else y).failed ≡ false
    either true x y p q = p
    either false x y p q = q
