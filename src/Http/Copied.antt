-- ===== src/Http/Copied.antt =====
-- deployables/backend/internal/httpapi/backup.go: the headers of a download, sent with an upload.
use aime.Base.{
  ℕ, ◌<◌, ◌≤◌, ◌≡◌, ◌^◌, refl, Bool, true, false, not, Option, none, some, [], ◌∷◌, arith,
  Bool-cases, inl, inr, Option-cases, subst, ap, ◌∙◌, ltb,
}
use aime.Base.Lists.{length, exists}
use aime.Base.Int.{pos}
use aime.Base.Bytes.{Bytes, bytes}
use aime.Base.Decimal.{Starts, format_int-Starts, format_int, parse_int-format_int, parse_int}
use aime.Config.{value_or}
use aime.Store.Schema.{Backup}
use aime.Http.Backups.{file_headers, positive_id, parent_text}
use aime.Http.Uploads.{
  taken, bad, is_printable, is_object, checked_meta, parent_of, parse_backup_meta,
  parse_backup_parent, max_backup_meta,
}

-- A BIGSERIAL id, where there is one.
abbrev pub IsId : Option ℕ → Type 0
IsId none = Unit
IsId (some id) = (0 < id) × (id < 2 ^ 63)

-- What is used of `json.Compact`: what it writes stands for itself, is no longer than what it read,
-- and has no other bytes.
pub record Compacts (compact : Bytes → Option Bytes) : Type 0 where
  pub stable : (raw out : Bytes) → compact raw ≡ some out → compact out ≡ some out
  pub shorter : (raw out : Bytes) → compact raw ≡ some out → length out ≤ length raw
  pub same_bytes :
      (p : ℕ → Bool) (raw out : Bytes)
      → compact raw ≡ some out
      → exists p raw ≡ false
      → exists p out ≡ false
  pub object : compact (bytes "{}") ≡ some (bytes "{}")

parse_text :
    (bs : Bytes) → Starts bs → parse_backup_parent bs ≡ parent_of (positive_id (parse_int bs))
unfolding parse_backup_parent
parse_text bs (c, cs, h, e) = rw e refl

parse_parent :
    (id : ℕ) → 0 < id → id < 2 ^ 63 → parse_backup_parent (format_int (pos id)) ≡ taken (some id)
parse_parent id low high =
    rw
      (
        parse_text (format_int (pos id)) (format_int-Starts id),
        parse_int-format_int (pos id) (high, omega arith),
      )
      (ground arith)

-- What a header that is taken went through.
record IsMeta (compact : Bytes → Option Bytes) (raw out : Bytes) : Type 0 where
  short : ltb max_backup_meta (length raw) ≡ false
  printable : exists (λ x. not (is_printable x)) raw ≡ false
  compacted : compact raw ≡ some out
  object : is_object out ≡ true

taken_inj : {A : Type 0} {a b : A} → taken a ≡ taken b → a ≡ b
taken_inj h = cc

none_taken : parse_backup_parent [] ≡ taken none
unfolding parse_backup_parent
none_taken = refl

module _ (compact : Bytes → Option Bytes) where
  checked-IsMeta : (raw out : Bytes) → checked_meta compact raw ≡ taken out → IsMeta compact raw out
  checked-IsMeta raw out h = elim (Bool-cases (ltb max_backup_meta (length raw))) [
    | inl a ↦ absurd (bad_taken (rw a at h))
    | inr a ↦ elim (Bool-cases (exists (λ x. not (is_printable x)) raw)) [
      | inl b ↦ absurd (bad_taken (rw (a, b) at h))
      | inr b ↦ elim (Option-cases (compact raw)) [
        | inl c ↦ absurd (bad_taken (rw (a, b, c) at h))
        | inr (o, c) ↦ elim (Bool-cases (is_object o)) [
          | inl d ↦
              let same = taken_inj (rw (a, b, c, d) at h) in
              record {
                short = a;
                printable = b;
                compacted = c ∙ ap some same;
                object = subst (λ x. is_object x ≡ true) same d;
              }
          | inr d ↦ absurd (bad_taken (rw (a, b, c, d) at h))
        ]
      ]
    ]
  ]
    where
      bad_taken : {m : Bytes} → bad m ≡ taken out → ⊥
      bad_taken e = cc

  IsMeta-taken : (raw out : Bytes) → IsMeta compact raw out → checked_meta compact raw ≡ taken out
  IsMeta-taken raw out k = rw (k.short, k.printable, k.compacted, k.object) refl

  object_checked :
      (out : Bytes)
      → is_object out ≡ true
      → parse_backup_meta compact out ≡ checked_meta compact out
  unfolding parse_backup_meta
  object_checked [] h = cc
  object_checked (c ∷ cs) h = refl

  module _ (laws : Compacts compact) where
    again : (raw out : Bytes) → IsMeta compact raw out → parse_backup_meta compact out ≡ taken out
    again raw out k =
        object_checked out k.object
        ∙ IsMeta-taken out out (record {
          short = ground (arith, k.short, laws.shorter raw out k.compacted);
          printable = laws.same_bytes _ raw out k.compacted k.printable;
          compacted = laws.stable raw out k.compacted;
          object = k.object;
        })

    parse_meta :
        (raw out : Bytes)
        → parse_backup_meta compact raw ≡ taken out
        → parse_backup_meta compact out ≡ taken out
    unfolding parse_backup_meta
    parse_meta [] out h =
        subst (λ x. parse_backup_meta compact x ≡ taken x) (taken_inj h) (rw laws.object refl)
    parse_meta (c ∷ cs) out h = again (c ∷ cs) out (checked-IsMeta (c ∷ cs) out h)

    -- A backup whose metadata was taken from a header, and whose parent, if it has one, has an id of the
    -- database, goes out with headers that an upload takes for the same metadata and the same parent, when
    -- compacting JSON is stable, does not lengthen it and brings in no byte.
    pub file_headers-taken :
        (b : Backup) (raw : Bytes)
        → parse_backup_meta compact raw ≡ taken b.meta
        → IsId b.parent_id
        → (parse_backup_meta compact (file_headers b).meta_header ≡ taken b.meta)
          × (parse_backup_parent (value_or [] (file_headers b).parent_header) ≡ taken b.parent_id)
    unfolding file_headers
    file_headers-taken b raw h id = (parse_meta raw b.meta h, parent b.parent_id id)
      where
        parent :
            (p : Option ℕ) → IsId p → parse_backup_parent (value_or [] (parent_text p)) ≡ taken p
        parent none i = none_taken
        parent (some p) (low, high) = parse_parent p low high
