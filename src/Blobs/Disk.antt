-- ===== src/Blobs/Disk.antt =====
-- deployables/backend/internal/blobs/blobs.go: Write, Open and Remove. A file is
-- named by its absolute path.
use aime.Base.{
  ℕ, Bool, true, false, not, ◌||◌, Option, none, some, List, [], ◌∷◌, ◌++◌, if◌then◌else◌,
}
use aime.Base.Lists.{length, first, exists, delete}
use aime.Base.Int.{ℤ, pos}
use aime.Base.Bytes.{Bytes, bytes, bytes_eq}
use aime.Base.Decimal.{format_int}
use aime.Blobs.Paths.{slash, has_prefix, join, resolve}

-- What the walk meets: a directory, one whose listing fails, a regular file, anything else (a symbolic
-- link), and a file whose `Info` fails.
pub data EntryKind : Type 0 where
  directory unreadable regular irregular vanished : EntryKind

pub record Entry : Type 0 where
  pub path : Bytes
  pub kind : EntryKind
  pub content : Bytes
  pub mod_time : ℤ

-- What stands below the root, in the order of the walk, and the paths that the system refuses to
-- remove.
pub record Disk : Type 0 where
  pub entries : List Entry
  pub stuck : Bytes → Bool

abbrev pub is_at : Bytes → Entry → Bool
is_at path e = bytes_eq path e.path

-- An entry of a directory, or of one below it.
abbrev pub is_under : Bytes → Entry → Bool
is_under dir e = has_prefix (dir ++ slash ∷ []) e.path

pub data Removal : Type 0 where
  removed no_entry denied : Removal

-- `os.Remove`: a directory goes only when it is empty.
unfoldable pub os_remove : Bytes → Disk → Removal × Disk
os_remove path d =
    if not (exists (is_at path) d.entries)
    then (no_entry, d)
    else if d.stuck path || exists (is_under path) d.entries
    then (denied, d)
    else (removed, record d { entries = delete (is_at path) d.entries })

abbrev pub entry : Bytes → EntryKind → Bytes → ℤ → Entry
entry path kind content now = record { path = path; kind = kind; content = content; mod_time = now }

-- `MkdirAll` below the root.
abbrev pub make_dir : Bytes → ℤ → Disk → Disk
make_dir dir now d =
    if exists (is_at dir) d.entries
    then d
    else record d { entries = entry dir directory [] now ∷ d.entries }

abbrev pub put : Bytes → Bytes → ℤ → Disk → Disk
put path content now d = record d {
  entries = entry path regular content now ∷ delete (is_at path) d.entries;
}

-- Which system calls of a `Write` fail.
pub record Faults : Type 0 where
  pub mkdir : Bool
  pub rand : Bool
  pub open_part : Bool
  pub copy : Bool
  pub sync : Bool
  pub close : Bool
  pub rename : Bool

pub record Blob : Type 0 where
  pub rel : Bytes
  pub size : ℤ
  pub sum : Bytes

pub data Outcome (A E : Type 0) : Type 0 where
  success : A → Outcome A E
  failure : E → Outcome A E

pub data BlobError : Type 0 where
  bad_path not_exist denied_by_system exists_already system_failed : BlobError

-- `Open`: the root is made, and a file is written into it and removed again. `abs` is what
-- `filepath.Abs` answers, and the two flags say whether the root or the file cannot be made.
unfoldable pub open_root : Option Bytes → Bool → Bool → ℤ → Disk → Outcome Bytes BlobError × Disk
open_root none no_dir no_probe now d = (failure system_failed, d)
open_root (some root) no_dir no_probe now d =
    let probe = root ++ (slash ∷ bytes ".probe") in
    if no_dir || no_probe
    then (failure system_failed, d)
    else (success root, (os_remove probe (put probe [] now d)).1)

-- The path of a new blob below the root.
abbrev pub blob_name : (Bytes → Bytes) → ℕ → Bytes → Bytes
blob_name hex owner rnd = format_int (pos owner) ++ (slash ∷ (hex rnd ++ bytes ".bin"))

abbrev pub part_of : Bytes → Bytes
part_of final = final ++ bytes ".part"

module _ (root : Bytes) (sha256 hex : Bytes → Bytes) where
  -- The part file is renamed when all went well, and removed when something failed.
  abbrev pub commit : Bool → Bytes → Bytes → ℤ → Disk → Outcome Blob BlobError × Disk
  commit true rel content now d = (failure system_failed, (os_remove (part_of (join root rel)) d).1)
  commit false rel content now d = (
    success (record { rel = rel; size = pos (length content); sum = hex (sha256 content) }),
    put (join root rel) content now
        (record d { entries = delete (is_at (part_of (join root rel))) d.entries }),
  )

  -- `content` is what came before the stream ended or broke. `O_EXCL` refuses a part file that is
  -- there.
  unfoldable pub write : Faults → ℕ → Bytes → Bytes → ℤ → Disk → Outcome Blob BlobError × Disk
  write f owner rnd content now d =
      let rel = blob_name hex owner rnd in
      let part = part_of (join root rel) in
      let made = make_dir (join root (format_int (pos owner))) now d in
      if f.mkdir
      then (failure system_failed, d)
      else if f.rand || f.open_part
      then (failure system_failed, made)
      else if exists (is_at part) made.entries
      then (failure exists_already, made)
      else commit (f.copy || f.sync || f.close || f.rename) rel content now
          (put part content now made)

abbrev pub opened : Option Entry → Outcome Bytes BlobError
opened none = failure not_exist
opened (some e) = success e.content

abbrev pub removal_result : Removal × Disk → Outcome (Unit {0}) BlobError × Disk
removal_result (denied, d) = (failure denied_by_system, d)
removal_result (_, d) = (success tt, d)

module _ (root : Bytes) where
  -- `Open`, and all that the file holds.
  unfoldable pub read_blob : Bytes → Disk → Outcome Bytes BlobError
  read_blob rel d = elim (resolve root rel) [
    | none ↦ failure bad_path
    | some p ↦ opened (first (is_at p) d.entries)
  ]

  -- `Remove`: a file that is not there is no error.
  unfoldable pub remove_blob : Bytes → Disk → Outcome (Unit {0}) BlobError × Disk
  remove_blob rel d = elim (resolve root rel) [
    | none ↦ (failure bad_path, d)
    | some p ↦ removal_result (os_remove p d)
  ]
