-- ===== src/Blobs/Written.antt =====
-- deployables/backend/internal/blobs/blobs.go: what a Write leaves behind.
use aime.Base.{
  ℕ, Bool, true, false, ◌||◌, List, ◌∷◌, ◌≡◌, ◌⊎◌, some, ◌∙◌, refl, ap, sym, inl, inr, Bool-cases,
  arith,
}
use aime.Base.Lists.{exists, delete, length, first, All}
use aime.Base.Int.{ℤ, pos}
use aime.Base.Member.{In, In-delete, delete-In}
use aime.Base.Decimal.{format_int}
use aime.Base.Bytes.{Bytes, bytes_eq_refl}
use aime.Blobs.Paths.{join, slashed, resolve}
use aime.Blobs.Segments.{IsName}
use aime.Blobs.Names.{IsHigh, resolve-blob_name, join-blob_name}
use aime.Blobs.Disk.{
  directory, Entry, Disk, is_at, os_remove, make_dir, put, Faults, Blob, Outcome, success, failure,
  BlobError, blob_name, part_of, write, read_blob, opened,
}
use aime.Blobs.Removal.{os_remove-below, os_remove-kept}

read_resolved :
    (root rel p : Bytes) (d : Disk)
    → resolve root rel ≡ some p
    → read_blob root rel d ≡ opened (first (is_at p) d.entries)
unfolding read_blob
read_resolved root rel p d e = rw (read_blob, e) refl

-- Nothing but directories and the part file is new, and only the part file can be gone.
pub record IsUnseen (part : Bytes) (d d' : Disk) : Type 0 where
  pub added :
      (e : Entry) → In e d'.entries → In e d.entries ⊎ (e.kind ≡ directory) ⊎ (e.path ≡ part)
  pub kept : (e : Entry) → In e d.entries → is_at part e ≡ false → In e d'.entries

module _ (part : Bytes) where
  IsUnseen-refl : (d : Disk) → IsUnseen part d d
  IsUnseen-refl d = record { added = λ e i. inl i; kept = λ e i n. i }

  make_dir-IsUnseen : (dir : Bytes) (now : ℤ) (d : Disk) → IsUnseen part d (make_dir dir now d)
  make_dir-IsUnseen dir now d = elim (Bool-cases (exists (is_at dir) d.entries)) [
    | inl e ↦ rw e (IsUnseen-refl d)
    | inr e ↦ rw e (record {
      added = λ x i. elim i [ inl same ↦ rw same (inr (inl refl)) | inr j ↦ inl j ];
      kept = λ x i n. inr i;
    })
  ]

  put-IsUnseen :
      (content : Bytes) (now : ℤ) (d d' : Disk)
      → IsUnseen part d d'
      → IsUnseen part d (put part content now d')
  put-IsUnseen content now d d' u = record {
    added = λ x i. elim i [
      | inl same ↦ rw same (inr (inr refl))
      | inr j ↦ u.added x (In-delete (is_at part) x d'.entries j).0
    ];
    kept = λ x i n. inr (delete-In (is_at part) x d'.entries (u.kept x i n) n);
  }

  os_remove-IsUnseen : (d d' : Disk) → IsUnseen part d d' → IsUnseen part d (os_remove part d').1
  os_remove-IsUnseen d d' u = record {
    added = λ x i. u.added x (os_remove-below part d' x i);
    kept = λ x i n. os_remove-kept part d' x (u.kept x i n) n;
  }

  finished-kept :
      (final content : Bytes) (now : ℤ) (d d' : Disk)
      → IsUnseen part d d'
      → (e : Entry) → In e d.entries
      → is_at part e ≡ false
      → is_at final e ≡ false
      → In e
          (put final content now (record d' { entries = delete (is_at part) d'.entries })).entries
  finished-kept final content now d d' u e i n m =
      inr (delete-In (is_at final) e _ (delete-In (is_at part) e _ (u.kept e i n) n) m)

-- Some system call of the list fails.
abbrev pub is_faulty : Faults → Bool
is_faulty f = f.mkdir || f.rand || f.open_part || f.copy || f.sync || f.close || f.rename

module _ (r : Bytes) (rs : List Bytes) (named : All IsName (r ∷ rs)) (sha256 hex : Bytes → Bytes)
    (digits : (s : Bytes) → IsHigh (hex s)) (f : Faults) (owner : ℕ) (rnd content : Bytes) (now : ℤ)
    (d : Disk) where
  abbrev root : Bytes
  root = slashed (r ∷ rs)

  abbrev final : Bytes
  final = join root (blob_name hex owner rnd)

  abbrev made : Disk
  made = make_dir (join root (format_int (pos owner))) now d

  -- How a `Write` ends.
  abbrev pub WriteEnd : Outcome Blob BlobError × Disk → Type 0
  WriteEnd (success b, d') =
      (b ≡ record {
        rel = blob_name hex owner rnd;
        size = pos (length content);
        sum = hex (sha256 content);
      })
      × (read_blob root b.rel d' ≡ success content)
      × ((e : Entry)
          → In e d.entries
          → is_at (part_of final) e ≡ false
          → is_at final e ≡ false
          → In e d'.entries)
  WriteEnd (failure x, d') =
      ((is_faulty f ≡ true) ⊎ (exists (is_at (part_of final)) made.entries ≡ true))
      × IsUnseen (part_of final) d d'

  made-IsUnseen : IsUnseen (part_of final) d made
  made-IsUnseen = make_dir-IsUnseen (part_of final) (join root (format_int (pos owner))) now d

  resolves : resolve root (blob_name hex owner rnd) ≡ some final
  resolves =
      resolve-blob_name r rs named hex digits owner rnd
      ∙ ap some (sym (join-blob_name r rs named hex digits owner rnd))

  written-read :
      (d' : Disk)
      → read_blob root (blob_name hex owner rnd) (put final content now d') ≡ success content
  written-read d' =
      read_resolved root (blob_name hex owner rnd) final (put final content now d') resolves
      ∙ rw (bytes_eq_refl final) refl

  -- After a `Write` that succeeds, the file can be read back under the path that it returns, with all that
  -- came in, and the size and the checksum are the content's; one that fails met a failing call or a
  -- part file, and leaves no file but the part file behind. What stood on the disk stays, but for the
  -- part file and a file at the new path. The random bytes' encoding has only digits and letters.
  pub write-WriteEnd : WriteEnd (write root sha256 hex f owner rnd content now d)
  unfolding write
  write-WriteEnd = elim (Bool-cases f.mkdir) [
    | inl e ↦ rw e (inl (ground arith), IsUnseen-refl (part_of final) d)
    | inr e ↦ elim (Bool-cases (f.rand || f.open_part)) [
      | inl g ↦ rw (e, g) (inl (ground arith), made-IsUnseen)
      | inr g ↦ elim (Bool-cases (exists (is_at (part_of final)) made.entries)) [
        | inl h ↦ rw (e, g, h) (inr h, made-IsUnseen)
        | inr h ↦ elim (Bool-cases (f.copy || f.sync || f.close || f.rename)) [
          | inl k ↦
              rw (e, g, h, k)
                (
                  inl (ground arith),
                  os_remove-IsUnseen (part_of final) d _
                      (put-IsUnseen (part_of final) content now d made made-IsUnseen),
                )
          | inr k ↦
              rw (e, g, h, k)
                (
                  refl,
                  written-read _,
                  finished-kept (part_of final) final content now d _
                      (put-IsUnseen (part_of final) content now d made made-IsUnseen),
                )
        ]
      ]
    ]
  ]
