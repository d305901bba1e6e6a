-- ===== src/Tests/Files.antt =====
-- The blobs on a small disk.
use aime.Base.{◌≡◌, refl, sym, ◌∙◌, true, false, Bool, List, [], ◌∷◌, arith, inl, inr}
use aime.Base.Int.{pos, ◌-ℤ◌}
use aime.Base.Lists.{exists, All}
use aime.Base.Member.{In}
use aime.Base.Bytes.{Bytes, bytes, bytes_eq}
use aime.Blobs.Paths.{slashed, resolve}
use aime.Blobs.Segments.{IsName}
use aime.Blobs.Inside.{IsInside, resolve-IsInside}
use aime.Blobs.Disk.{directory, regular, Entry, entry, Disk, Faults, is_at, is_under, write}
use aime.Blobs.Written.{WriteEnd, write-WriteEnd}
use aime.Blobs.Sweep.{sweep, is_unreadable}
use aime.Blobs.Sweep.Kept.{IsDistinct, IsFree, Sweeps, sweep-Sweeps}
use aime.Server.{Background, run_backup_sweep}
use aime.Server.Sweeping.{SweepEnd, run_backup_sweep-SweepEnd, run_backup_sweep_clears}
use aime.Tests.{world}

abbrev segments : List Bytes
segments = bytes "b" ∷ []

abbrev root : Bytes
root = slashed segments

segments-names : All IsName segments
unfolding bytes_eq
segments-names = (record { busy = refl; forward = refl; solid = refl }, tt)

abbrev hex : Bytes → Bytes
hex s = bytes "0a"

abbrev sha256 : Bytes → Bytes
sha256 s = s

resolve-IsInside_example : IsInside segments (bytes "/b/1/a.bin")
unfolding resolve bytes_eq
resolve-IsInside_example =
    resolve-IsInside (bytes "b") [] segments-names (bytes "1//a.bin") (bytes "/b/1/a.bin") refl

abbrev owner_dir : Entry
owner_dir = entry (bytes "/b/1") directory [] (pos 5)

-- The file of a row, and one that no row names.
abbrev stored : Entry
stored = entry (bytes "/b/1/a.bin") regular (bytes "abc") (pos 10)

abbrev orphan : Entry
orphan = entry (bytes "/b/1/x.bin") regular (bytes "abc") (pos 10)

abbrev disk : Disk
disk = record { entries = owner_dir ∷ stored ∷ orphan ∷ []; stuck = λ p. false }

disk-IsDistinct : IsDistinct disk.entries
disk-IsDistinct x y (inl p) (inl q) e = p ∙ sym q
disk-IsDistinct x y (inl p) (inr (inl q)) e = absurd (ground arith)
disk-IsDistinct x y (inl p) (inr (inr (inl q))) e = absurd (ground arith)
disk-IsDistinct x y (inr (inl p)) (inl q) e = absurd (ground arith)
disk-IsDistinct x y (inr (inl p)) (inr (inl q)) e = p ∙ sym q
disk-IsDistinct x y (inr (inl p)) (inr (inr (inl q))) e = absurd (ground arith)
disk-IsDistinct x y (inr (inr (inl p))) (inl q) e = absurd (ground arith)
disk-IsDistinct x y (inr (inr (inl p))) (inr (inl q)) e = absurd (ground arith)
disk-IsDistinct x y (inr (inr (inl p))) (inr (inr (inl q))) e = p ∙ sym q
disk-IsDistinct x y (inr (inr (inr p))) j e = absurd p
disk-IsDistinct x y (inl p) (inr (inr (inr q))) e = absurd q
disk-IsDistinct x y (inr (inl p)) (inr (inr (inr q))) e = absurd q
disk-IsDistinct x y (inr (inr (inl p))) (inr (inr (inr q))) e = absurd q

-- What each entry has.
each :
    (p : Entry → Bool)
    → p owner_dir ≡ false
    → p stored ≡ false
    → p orphan ≡ false
    → (e : Entry) → In e disk.entries
    → p e ≡ false
each p a b c e (inl q) = rw q a
each p a b c e (inr (inl q)) = rw q b
each p a b c e (inr (inr (inl q))) = rw q c
each p a b c e (inr (inr (inr q))) = absurd q

abbrev no_faults : Faults
no_faults = record {
  mkdir = false;
  rand = false;
  open_part = false;
  copy = false;
  sync = false;
  close = false;
  rename = false;
}

write-WriteEnd_example :
    WriteEnd
      (bytes "b")
      []
      segments-names
      sha256
      hex
      (λ s. refl)
      no_faults
      1
      []
      (bytes "new")
      (pos 90)
      disk
      (write root sha256 hex no_faults 1 [] (bytes "new") (pos 90) disk)
write-WriteEnd_example =
    write-WriteEnd (bytes "b") [] segments-names sha256 hex (λ s. refl) no_faults 1 [] (bytes "new")
      (pos 90) disk

abbrev background : Background
background = record { conn = world.conn; disk = disk; metrics = [] }

run_backup_sweep-SweepEnd_example :
    SweepEnd root
      (pos 50)
      (pos 100)
      background
      (run_backup_sweep root true (pos 50) (pos 100) background)
run_backup_sweep-SweepEnd_example =
    run_backup_sweep-SweepEnd root true (pos 50) (pos 100) background disk-IsDistinct

orphan-IsFree : IsFree disk orphan
orphan-IsFree = record { movable = refl; bare = each (is_under orphan.path) refl refl refl }

run_backup_sweep_clears_example :
    exists
      (is_at orphan.path)
      (run_backup_sweep root true (pos 50) (pos 100) background).disk.entries
    ≡ false
unfolding ◌-ℤ◌ bytes_eq
run_backup_sweep_clears_example =
    run_backup_sweep_clears root true (pos 50) (pos 100) background disk-IsDistinct orphan refl refl
      (each is_unreadable refl refl refl) (inr (inr (inl refl))) refl refl refl orphan-IsFree

sweep-Sweeps_example :
    Sweeps root
      (λ rel. false)
      (pos 100 -ℤ pos 50)
      disk
      (sweep root true (λ rel. false) (pos 50) (pos 100) disk)
sweep-Sweeps_example = sweep-Sweeps root true (λ rel. false) (pos 50) (pos 100) disk disk-IsDistinct
