-- ===== src/Http/UploadOutcome.antt =====
-- deployables/backend/internal/httpapi/backup.go: what an upload leaves behind, on every way out.
use aime.Base.{
  ℕ, ◌==◌, ◌≡◌, refl, sym, ap, subst, ◌∙◌, inl, inr, ◌⊎◌, ◌∷◌, [], Bool, true, false, not, ◌&&◌,
  Option, none, some, arith, if◌then◌else◌,
}
use aime.Base.Lists.{exists}
use aime.Base.Int.{ℤ, ◌+ℤ◌, int64}
use aime.Base.Bytes.{Bytes, bytes_eq, bytes_eq_refl, eq_of_bytes_eq}
use aime.Base.Float.{Float64}
use aime.Config.{Config}
use aime.Billing.{Ledger, precheck, storage_cost}
use aime.Store.Schema.{Backup}
use aime.Store.Query.{
  Query, StoreError, not_found, email_taken, challenge_invalid, enrollment_invalid, backup_limit,
  backup_in_use, backup_stale, backup_boundary, storage_quota, storage_full, pg,
}
use aime.Store.Query.Rules.{Ends}
use aime.Store.Billing.{storage_used}
use aime.Store.Backups.{NewBackup, Quota, count_backups}
use aime.Store.Backups.Transactions.{create_backup}
use aime.Store.Backups.Created.{Created, create_backup-Created}
use aime.Store.Backups.Chain.{IsChained}
use aime.Http.World.{
  Response, World, Step, answer, give, on_store, raise_count, remove_file, Metric,
}
use aime.Http.Rules.{Runs, goes_on, stops, Runs-bind, Runs-store, Runs-when, Runs-gate, Runs-weaken}
use aime.Http.Backups.{Operation, rejected_with, broken}
use aime.Http.Uploads.{
  parse_backup_meta, parse_backup_parent, taken, Upload, stored, check_headers, check_account,
  record_upload, created_or_refused, backup_quota, reject_storage, discard_and,
}
use aime.Http.Frame.{
  Frame, Frame-refl, Frame-conn, Refused, Reads, storage_used-Reads, count_backups-Reads,
  precheck-Reads, parsed_header-Refused, delete-none, Recorded,
}

module _ (fl : Float64) (cfg : Config) (ledger : Ledger) (compact : Bytes → Option Bytes)
    (up : Upload) (old : World) where
  abbrev pub E : Bytes × Response → World → Type 0
  E = Refused old

  refuse :
      {n : ℕ} {m : Bytes} (w : World)
      → (n == 201) ≡ false
      → Frame old w
      → Runs E (λ (_ : Unit {0}) _. ⊥) (rejected_with n m w)
  refuse w h f = stops (h, f)

  -- The metadata and the parent that go on are those of the headers.
  abbrev pub Headers : Bytes × Option ℕ → Type 0
  Headers h =
      (parse_backup_meta compact up.meta_header ≡ taken h.0)
      × (parse_backup_parent up.parent_header ≡ taken h.1)

  pub check_headers-Refused :
      Runs E (λ h w. Headers h × Frame old w) (check_headers fl cfg ledger compact up old)
  unfolding check_headers
  check_headers-Refused =
      Runs-gate E Q _ _ _ old (λ _. refuse old refl same)
        λ _.
          Runs-gate E Q _ _ _ old (λ _. refuse old refl same)
            λ _.
              Runs-gate E Q _ _ _ old (λ _. refuse old refl same)
                λ _.
                  Runs-bind E
                    (λ m w. (parse_backup_meta compact up.meta_header ≡ taken m) × Frame old w) Q _
                    _ (parsed_header-Refused _ old old same)
                    λ meta w (mt, f).
                      Runs-gate E Q _ _ _ w (λ _. refuse w refl f)
                        λ _.
                          Runs-bind E
                            (λ m w. (parse_backup_parent up.parent_header ≡ taken m) × Frame old w)
                            Q _ _ (parsed_header-Refused _ old w f)
                            λ parent w' (pr, f'). goes_on ((mt, pr), f')
    where
      Q : Bytes × Option ℕ → World → Type 0
      Q h w = Headers h × Frame old w

      same : Frame old old
      same = Frame-refl old

  -- A query that only reads, whose error ends the upload.
  reading :
      {A B : Type 0} (q : Query A) (Q : B → World → Type 0) (f : A → Operation B)
      (g : StoreError → Operation B) (w : World)
      → Reads q
      → Frame old w
      → ((a : A) (w' : World) → Frame old w' → Runs E Q (f a w'))
      → ((e : StoreError) (w' : World) → Frame old w' → Runs E Q (g e w'))
      → Runs E Q (answer w f g (q w.conn))
  reading q Q f g w reads fr k l =
      Runs-store E (λ _. Frame old) Q (λ db. db ≡ w.conn.db) (λ _ db. db ≡ w.conn.db) w f g
        (q w.conn) (reads w.conn)
        (λ a c e. k a (record w { conn = c }) (Frame-conn old w c fr (e ∙ fr.tables)))
        (λ e c t. l e (record w { conn = c }) (Frame-conn old w c fr (t ∙ fr.tables)))

  raise_count-Frame :
      (m : Metric) (w : World)
      → Frame old w
      → Runs E (λ (_ : Unit {0}). Frame old) (raise_count m w)
  raise_count-Frame m w f = goes_on (record {
    tables = f.tables;
    files = f.files;
    stuck = f.stuck;
    slots = f.slots;
    accounts = f.accounts;
  })

  reject_storage-Refused :
      {A : Type 0} (w : World) → Frame old w → Runs E (λ (_ : A) _. ⊥) (reject_storage w)
  reject_storage-Refused w f =
      Runs-bind E (λ _. Frame old) (λ _ _. ⊥) _ _ (raise_count-Frame _ w f)
        λ _ w' g. stops (refl, g)

  pub check_account-Refused :
      (i : ℕ) (size : ℤ) (w : World)
      → Frame old w
      → Runs E (λ _. Frame old) (check_account fl cfg ledger compact i size w)
  unfolding check_account
  check_account-Refused i size w f =
      Runs-bind E (λ _. Frame old) Q _ _
        (reading (storage_used i) (λ _. Frame old) give (λ _. broken) w (storage_used-Reads i) f
          (λ _ _ g. goes_on g) (λ _ _ g. stops (refl, g)))
        λ used w₁ f₁.
          Runs-bind E (λ _. Frame old) Q _ _
            (Runs-when E (λ _. Frame old) _ _ w₁
              (λ _.
                reading (precheck ledger i) (λ _. Frame old) _ _ w₁ (precheck-Reads ledger i) f₁
                  (λ b w' g. passes b w' g) (λ _ _ g. stops (refl, g)))
              (λ _. f₁))
            λ _ w₂ f₂.
              Runs-bind E (λ _. Frame old) Q _ _
                (reading (count_backups i) (λ _. Frame old) give (λ _. broken) w₂
                  (count_backups-Reads i) f₂ (λ _ _ g. goes_on g) (λ _ _ g. stops (refl, g)))
                λ n w₃ f₃. Runs-gate E Q _ _ _ w₃ (λ _. refuse w₃ refl f₃) λ _. goes_on f₃
    where
      Q : ℤ → World → Type 0
      Q _ = Frame old

      passes :
          (b : Bool) (w' : World)
          → Frame old w'
          → Runs E (λ (_ : Unit {0}). Frame old) ((if b then give tt else reject_storage) w')
      passes true w' g = goes_on g
      passes false w' g =
          Runs-weaken E E (λ _ _. ⊥) (λ _. Frame old) _ (reject_storage-Refused w' g) (λ _ _ h. h)
            (λ _ _ h. absurd h)

  created_or_refused-Refused :
      (parent : Option ℕ) (e : StoreError) (w : World)
      → Frame old w
      → Runs E (λ (_ : Backup) _. ⊥) (created_or_refused fl cfg ledger compact parent e w)
  created_or_refused-Refused none not_found w f = stops (refl, f)
  created_or_refused-Refused (some p) not_found w f = stops (refl, f)
  created_or_refused-Refused parent email_taken w f = stops (refl, f)
  created_or_refused-Refused parent challenge_invalid w f = stops (refl, f)
  created_or_refused-Refused parent enrollment_invalid w f = stops (refl, f)
  created_or_refused-Refused parent backup_limit w f = stops (refl, f)
  created_or_refused-Refused parent backup_in_use w f = stops (refl, f)
  created_or_refused-Refused parent backup_stale w f = stops (refl, f)
  created_or_refused-Refused parent backup_boundary w f = stops (refl, f)
  created_or_refused-Refused parent storage_quota w f = reject_storage-Refused w f
  created_or_refused-Refused parent storage_full w f = stops (refl, f)
  created_or_refused-Refused parent (pg p) w f = stops (refl, f)

  module _ (rel : Bytes) (fresh : exists (bytes_eq rel) old.files ≡ false)
      (removable : old.stuck rel ≡ false) where
    -- The new file is there, and nothing else has changed.
    abbrev pub Held : World → Type 0
    Held = Frame (record old { files = rel ∷ old.files })

    discard-Frame : (w : World) → Held w → Runs E (λ (_ : Unit {0}). Frame old) (remove_file rel w)
    discard-Frame w h = goes_on (record {
      tables = h.tables;
      files = rw (
        ap (λ s. s rel) h.stuck ∙ removable,
        h.files,
        bytes_eq_refl rel,
        delete-none (bytes_eq rel) old.files fresh,
      );
      stuck = h.stuck;
      slots = h.slots;
      accounts = h.accounts;
    })

    discard_and-Refused :
        {A : Type 0} (m : Operation A) (w : World)
        → Held w
        → ((w' : World) → Frame old w' → Runs E (λ _ _. ⊥) (m w'))
        → Runs E (λ _ _. ⊥) (discard_and fl cfg ledger compact rel m w)
    discard_and-Refused m w h k =
        Runs-bind E (λ _. Frame old) (λ _ _. ⊥) _ _ (discard-Frame w h) λ _ w' f. k w' f

    module _ (i : ℕ) (size : ℤ) (sum : Bytes) where
      abbrev pub Q₀ : Unit {0} → World → Type 0
      Q₀ _ _ = ⊥

      abbrev pub Result₁ : Bytes × Response → World → Type 0
      Result₁ x w =
          Recorded compact i (backup_quota fl cfg ledger compact) up (stored rel size sum) old x w
          ⊎ Refused old x w

      discarded :
          {B : Type 0} (Q : B → World → Type 0) (r : Step (Bytes × Response) B × World)
          → Runs E (λ (_ : B) _. ⊥) r
          → Runs Result₁ Q r
      discarded Q r h = Runs-weaken E Result₁ (λ _ _. ⊥) Q r h (λ _ _ g. inr g) (λ _ _ g. absurd g)

      -- What `CreateBackup` made of the row, with everything but the tables as before.
      abbrev Made : NewBackup → Backup → World → Type 0
      Made nb b w =
          Created i (backup_quota fl cfg ledger compact) nb old.conn.db b w.conn.db
          × (w.files ≡ rel ∷ old.files)
          × (w.upload_slots ≡ old.upload_slots)
          × (w.uploading ≡ old.uploading)

      create_backup-Made :
          (nb : NewBackup) (clock : ℤ) (w : World)
          → IsChained old.conn.db
          → Held w
          → Runs Result₁ (Made nb) (
              on_store
                (create_backup fl i
                  (backup_quota fl cfg ledger compact)
                  (storage_cost fl ledger.pricing)
                  clock
                  nb)
                give
                (λ e.
                  discard_and fl cfg ledger compact rel
                    (created_or_refused fl cfg ledger compact nb.parent_id e))
                w)
      create_backup-Made nb clock w chained h =
          Runs-store Result₁ (Made nb) (Made nb) (λ db. db ≡ old.conn.db)
            (λ b db. Created i q nb old.conn.db b db) w _ _ _
            (subst
              (λ d.
                Ends (λ db. db ≡ d) (Created i q nb d)
                  (create_backup fl i q (storage_cost fl ledger.pricing) clock nb w.conn))
              h.tables
              (create_backup-Created fl i q (storage_cost fl ledger.pricing) clock nb w.conn
                (subst IsChained (sym h.tables) chained)))
            (λ b c made. goes_on (made, h.files, h.slots, h.accounts))
            (λ e c t. discarded (Made nb) _ (
              discard_and-Refused _ (record w { conn = c })
                (record {
                  tables = t;
                  files = h.files;
                  stuck = h.stuck;
                  slots = h.slots;
                  accounts = h.accounts;
                })
                (created_or_refused-Refused nb.parent_id e)))
        where
          q : Quota
          q = backup_quota fl cfg ledger compact

      matches : (b c : Bool) → not b && not c ≡ false → (b ≡ true) ⊎ (c ≡ true)
      matches b c h = ground arith

      declared :
          not (bytes_eq up.checksum_header []) && not (bytes_eq up.checksum_header sum) ≡ false
          → (up.checksum_header ≡ []) ⊎ (up.checksum_header ≡ sum)
      declared h =
          elim (matches (bytes_eq up.checksum_header []) (bytes_eq up.checksum_header sum) h) [
            | inl e ↦ inl (eq_of_bytes_eq up.checksum_header [] e)
            | inr e ↦ inr (eq_of_bytes_eq up.checksum_header sum e)
          ]

      pub record_upload-Result :
          (meta : Bytes) (parent : Option ℕ) (used clock : ℤ) (w : World)
          → Headers (meta, parent)
          → IsChained old.conn.db
          → Held w
          → Runs Result₁ Q₀ (
              record_upload fl cfg ledger compact i up (meta, parent) used (rel, size, sum) clock w)
      unfolding record_upload
      record_upload-Result meta parent used clock w (mt, pr) chained h =
          Runs-bind Result₁ (λ _. Held) Q₀ _ _
            (goes_on (record {
              tables = h.tables;
              files = h.files;
              stuck = h.stuck;
              slots = h.slots;
              accounts = h.accounts;
            }))
            λ _ w₁ h₁.
              Runs-gate Result₁ Q₀ _ _ _ w₁
                (λ _. discarded Q₀ _ (discard_and-Refused _ w₁ h₁ (λ w' f. refuse w' refl f)))
                λ positive.
                  Runs-gate Result₁ Q₀ _ _ _ w₁
                    (λ _. discarded Q₀ _ (discard_and-Refused _ w₁ h₁ (λ w' f. refuse w' refl f)))
                    λ same_sum.
                      Runs-bind Result₁ (Made nb) Q₀ _ _ (create_backup-Made nb clock w₁ chained h₁)
                        λ b w₂ (made, files, slots, accounts). stops (
                          inl (
                            rel,
                            sum,
                            size,
                            nb,
                            b,
                            int64 (used +ℤ size),
                            refl,
                            refl,
                            refl,
                            refl,
                            refl,
                            mt,
                            pr,
                            ground arith,
                            declared same_sum,
                            made,
                            files,
                            slots,
                            accounts,
                          ))
        where
          nb : NewBackup
          nb = record {
            parent_id = parent;
            storage_path = rel;
            size_bytes = size;
            checksum = sum;
            meta = meta;
          }
