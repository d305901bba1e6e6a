-- ===== src/Blobs/Sweep.antt =====
-- deployables/backend/internal/blobs/blobs.go: Sweep.
pub mod Kept
use aime.Base.{
  ℕ, suc, ◌+◌, Bool, true, false, not, ◌&&◌, ◌||◌, ◌==◌, List, [], ◌∷◌, ◌++◌, if◌then◌else◌,
}
use aime.Base.Lists.{length, exists, delete}
use aime.Base.Int.{ℤ, pos, ◌+ℤ◌, ltb_ℤ, int64, ◌-ℤ◌}
use aime.Base.Bytes.{Bytes}
use aime.Blobs.Paths.{slash, has_prefix}
use aime.Blobs.Disk.{
  directory, unreadable, regular, irregular, vanished, Entry, Disk, is_at, is_under, Removal,
  removed, os_remove,
}

pub record SweepResult : Type 0 where
  pub files : ℕ
  pub bytes : ℤ

abbrev pub no_files : SweepResult
no_files = record { files = 0; bytes = pos 0 }

-- How `Sweep` ends: with a result, and an error or none.
pub record Swept : Type 0 where
  pub result : SweepResult
  pub failed : Bool
  pub disk : Disk

-- `filepath.Rel` of a path below the root.
abbrev pub drop_prefix : Bytes → Bytes → Bytes
drop_prefix [] s = s
drop_prefix (p ∷ ps) [] = []
drop_prefix (p ∷ ps) (c ∷ cs) = drop_prefix ps cs

abbrev pub rel_to : Bytes → Bytes → Bytes
rel_to root path = drop_prefix (root ++ slash ∷ []) path

abbrev pub count_removal : Entry → SweepResult → Removal → SweepResult
count_removal e res removed = record {
  files = suc res.files;
  bytes = int64 (res.bytes +ℤ pos (length e.content));
}
count_removal e res _ = res

abbrev pub is_unreadable : Entry → Bool
is_unreadable e = elim (e.kind) [ unreadable ↦ true | _ ↦ false ]

module _ (root : Bytes) (keep : Bytes → Bool) (cutoff : ℤ) where
  -- An entry that the walk leaves where it is.
  abbrev pub is_left : Entry → Bool
  is_left e = elim (e.kind) [
    | regular ↦ ltb_ℤ cutoff e.mod_time || keep (rel_to root e.path)
    | _ ↦ true
  ]

  -- The walk over the entries that it meets, which a directory that cannot be listed ends.
  unfoldable pub walk : List Entry → SweepResult → Disk → Swept
  walk [] res d = record { result = res; failed = false; disk = d }
  walk (e ∷ es) res d =
      let on = walk es res d in
      let (removal, d') = os_remove e.path d in
      let behind = walk es (count_removal e res removal) d' in
      if is_unreadable e
      then record { result = res; failed = true; disk = d }
      else if is_left e
      then on
      else behind

-- A directory directly below the root.
abbrev pub is_owner_dir : Bytes → Entry → Bool
is_owner_dir root e = elim (e.kind) [
  | directory ↦ is_under root e && not (exists (λ c. c == slash) (rel_to root e.path))
  | _ ↦ false
]

-- Each directory that is empty goes.
unfoldable pub remove_dirs : Bytes → List Entry → Disk → Disk
remove_dirs root [] d = d
remove_dirs root (e ∷ es) d =
    let on = remove_dirs root es d in
    let behind = remove_dirs root es (os_remove e.path d).1 in
    if is_owner_dir root e then behind else on

-- Behind a walk to its end, the directories; `listed` says whether the root can be read again.
abbrev pub end_sweep : Bytes → Bool → Swept → Swept
end_sweep root false walked = record walked { failed = true }
end_sweep root true walked = record walked {
  disk = remove_dirs root walked.disk.entries walked.disk;
}

-- `Sweep`
unfoldable pub sweep : Bytes → Bool → (Bytes → Bool) → ℤ → ℤ → Disk → Swept
sweep root listed keep min_age now d =
    let walked = walk root keep (now -ℤ min_age) d.entries no_files d in
    if walked.failed then walked else end_sweep root listed walked
