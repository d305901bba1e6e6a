-- ===== src/Http/Uploads.antt =====
-- deployables/backend/internal/httpapi/backup.go: handleUploadBackup, with the headers it reads and
-- the slot that it holds. What streams in, and what the file system answers, are arguments.
use aime.Base.{
  ℕ, suc, ◌-◌, ◌*◌, ◌^◌, not, ◌&&◌, ◌||◌, leb, ltb, ◌==◌, Bool, false, Option, none, some, [], ◌∷◌,
  if◌then◌else◌,
}
use aime.Base.Lists.{length, delete, exists}
use aime.Base.Int.{ℤ, pos, pos_part, ◌+ℤ◌, ◌*ℤ◌, ltb_ℤ, leb_ℤ, int64}
use aime.Base.Bytes.{Bytes, bytes, bytes_eq}
use aime.Base.Float.{Float64}
use aime.Config.{Config}
use aime.Base.Decimal.{parse_int}
use aime.Billing.{Ledger, storage_billable, storage_cost, free_storage_bytes, precheck}
use aime.Store.Schema.{Backup}
use aime.Store.Query.{
  StoreError, not_found, backup_limit, backup_stale, storage_quota, storage_full,
}
use aime.Store.Billing.{storage_used}
use aime.Store.Backups.{Quota, count_backups}
use aime.Store.Backups.Transactions.{create_backup}
use aime.Http.World.{
  backup_bytes, billing_rejected, error, uploaded, Response, respond, World, Step, next, Handler,
  Identity, give, return_early, raise_count, when, on_store, remove_file, ◌>>=◌, ◌>>◌,
}
use aime.Http.Backups.{Operation, rejected_with, broken, done, owner, counted, positive_id}

abbrev pub max_backup_meta : ℕ
max_backup_meta = 4 * 1024

-- What a header is taken for, or the text of the 400.
pub data Parsed (A : Type 0) : Type 0 where
  taken : A → Parsed A
  bad : Bytes → Parsed A

abbrev pub is_printable : ℕ → Bool
is_printable c = leb 32 c && leb c 126

abbrev pub is_object : Bytes → Bool
is_object [] = false
is_object (c ∷ cs) = c == 123

abbrev pub object_meta : Option Bytes → Parsed Bytes
object_meta none = bad (bytes "X-Backup-Meta must be a json object")
object_meta (some out) =
    if is_object out then taken out else bad (bytes "X-Backup-Meta must be a json object")

-- `compact` is `json.Compact`, `none` for what is no JSON.
abbrev pub checked_meta : (Bytes → Option Bytes) → Bytes → Parsed Bytes
checked_meta compact raw =
    if ltb max_backup_meta (length raw)
    then bad (bytes "X-Backup-Meta too large, max 4096 bytes")
    else if exists (λ x. not (is_printable x)) raw
    then bad (bytes "X-Backup-Meta must be printable ascii, base64 binary values")
    else object_meta (compact raw)

unfoldable pub parse_backup_meta : (Bytes → Option Bytes) → Bytes → Parsed Bytes
parse_backup_meta compact [] = taken (bytes "{}")
parse_backup_meta compact (c ∷ cs) = checked_meta compact (c ∷ cs)

abbrev pub parent_of : Option ℕ → Parsed (Option ℕ)
parent_of none = bad (bytes "X-Backup-Parent must be a backup id")
parent_of (some id) = taken (some id)

unfoldable pub parse_backup_parent : Bytes → Parsed (Option ℕ)
parse_backup_parent [] = taken none
parse_backup_parent (c ∷ cs) = parent_of (positive_id (parse_int (c ∷ cs)))

abbrev is_hex_digit : ℕ → Bool
is_hex_digit c = (leb 48 c && leb c 57) || (leb 97 c && leb c 102) || (leb 65 c && leb c 70)

-- `hex.DecodeString` refuses an odd length and any other character.
unfoldable pub is_hex_sha256 : Bytes → Bool
is_hex_sha256 s = (length s == 64) && not (exists (λ c. not (is_hex_digit c)) s)

abbrev pub parsed_header : {A : Type 0} → Parsed A → Operation A
parsed_header (bad message) = rejected_with 400 message
parsed_header (taken a) = give a

-- `acquireUpload`: a slot of the server, then the account's place.
unfoldable pub acquire_upload : ℕ → ℕ → World → Option World
acquire_upload concurrency account_id w =
    if not (ltb w.upload_slots concurrency)
    then none
    else if exists (λ a. a == account_id) w.uploading
    then none
    else some (record w { upload_slots = suc w.upload_slots; uploading = account_id ∷ w.uploading })

-- What `acquireUpload` returns for the deferred call.
unfoldable pub release_upload : ℕ → World → World
release_upload account_id w = record w {
  upload_slots = w.upload_slots - 1;
  uploading = delete (λ a. a == account_id) w.uploading;
}

abbrev pub in_slot :
    ℕ → Operation (Unit {0}) → World → Option World → Step (Bytes × Response) (Unit {0}) × World
in_slot account_id m w none = rejected_with 429 (bytes "an upload is already running") w
in_slot account_id m w (some w') = let (s, w'') = m w' in (s, release_upload account_id w'')

-- The rest of the handler, under `defer release()`.
unfoldable pub while_uploading : ℕ → ℕ → Operation (Unit {0}) → Operation (Unit {0})
while_uploading concurrency account_id m w =
    in_slot account_id m w (acquire_upload concurrency account_id w)

-- How `Blobs.Write` ended: the file's path, the bytes that came, and their SHA-256 in hex.
pub data Written : Type 0 where
  too_big write_failed : Written
  stored : Bytes → ℤ → Bytes → Written

-- What the request declares in its headers: `Content-Length` (-1 for none), and the three headers,
-- the checksum in lower case.
pub record Upload : Type 0 where
  pub content_length : ℤ
  pub meta_header : Bytes
  pub checksum_header : Bytes
  pub parent_header : Bytes

-- The labels and the responses of a failed `Precheck` or of a missing balance.
abbrev pub reject_storage : {A : Type 0} → Operation A
reject_storage =
    raise_count (billing_rejected (bytes "backup"))
    >> rejected_with 402 (bytes "insufficient credits")

unfoldable pub max_upload_bytes : Config → ℤ
max_upload_bytes cfg = int64 (cfg.max_backup_mb *ℤ pos (2 ^ 20))

-- `Blobs.Write`: only a complete file shows up under the root.
abbrev pub write_blob : Written → Operation (Bytes × ℤ × Bytes)
write_blob too_big w = rejected_with 413 (bytes "backup too large") w
write_blob write_failed w = broken w
write_blob (stored rel size sum) w = (next (rel, size, sum), record w { files = rel ∷ w.files })

module _ (fl : Float64) (cfg : Config) (ledger : Ledger) (compact : Bytes → Option Bytes) where
  unfoldable pub backup_quota : Quota
  backup_quota = record {
    max_versions = pos_part cfg.backup_max_versions;
    free_bytes = free_storage_bytes ledger.pricing;
    enforce = cfg.billing_enforce;
    total_cap_bytes = int64 (cfg.backup_total_cap_gb *ℤ pos (2 ^ 30));
  }

  abbrev pub created_or_refused : Option ℕ → StoreError → Operation Backup
  created_or_refused parent backup_limit =
      rejected_with 409 (bytes "backup limit reached, delete one first")
  created_or_refused parent storage_quota = reject_storage
  created_or_refused parent storage_full = rejected_with 507 (bytes "server storage is full")
  created_or_refused (some p) not_found = rejected_with 400 (bytes "unknown parent backup")
  created_or_refused none not_found =
      return_early (bytes "error", respond 401 (error (bytes "unauthorized")))
  created_or_refused parent backup_stale =
      rejected_with 409 (bytes "parent is not the latest backup, pull first")
  created_or_refused parent _ = broken

  -- What is refused before any byte is read.
  unfoldable pub check_headers : Upload → Operation (Bytes × Option ℕ)
  check_headers up = do
    when (ltb_ℤ up.content_length (pos 0)) (rejected_with 411 (bytes "Content-Length required"))
    when (ltb_ℤ (max_upload_bytes cfg) up.content_length)
        (rejected_with 413 (bytes "backup too large"))
    when (leb_ℤ up.content_length (pos 0)) (rejected_with 400 (bytes "empty body"))
    meta ← parsed_header (parse_backup_meta compact up.meta_header)
    when (not (bytes_eq up.checksum_header []) && not (is_hex_sha256 up.checksum_header))
        (rejected_with 400 (bytes "X-Backup-Checksum must be hex sha256"))
    parent ← parsed_header (parse_backup_parent up.parent_header)
    give (meta, parent)

  -- The cheap early rejections, which `CreateBackup` repeats under the account's lock.
  unfoldable pub check_account : ℕ → ℤ → Operation ℤ
  check_account account_id size = do
    used ← on_store (storage_used account_id) give (λ _. broken)
    when (storage_billable ledger.pricing (int64 (used +ℤ size))) (
        on_store (precheck ledger account_id) (λ b. if b then give tt else reject_storage)
          (λ _. broken))
    n ← on_store (count_backups account_id) give (λ _. broken)
    when (leb_ℤ cfg.backup_max_versions (pos n))
        (rejected_with 409 (bytes "backup limit reached, delete one first"))
    give used

  abbrev pub discard_and : {A : Type 0} → Bytes → Operation A → Operation A
  discard_and rel m = remove_file rel >> m

  -- The body is on the disk; a row is made for it, or it goes again.
  unfoldable pub record_upload :
      ℕ → Upload → Bytes × Option ℕ → ℤ → Bytes × ℤ × Bytes → ℤ → Operation (Unit {0})
  record_upload account_id up (meta, parent) used (rel, size, sum) clock = do
    raise_count (backup_bytes (bytes "in") size)
    when (leb_ℤ size (pos 0)) (discard_and rel (rejected_with 400 (bytes "empty body")))
    when (not (bytes_eq up.checksum_header []) && not (bytes_eq up.checksum_header sum))
        (discard_and rel (rejected_with 400 (bytes "checksum mismatch")))
    b ←
        on_store
          (create_backup fl account_id backup_quota (storage_cost fl ledger.pricing) clock (record {
            parent_id = parent;
            storage_path = rel;
            size_bytes = size;
            checksum = sum;
            meta = meta;
          }))
          give (λ e. discard_and rel (created_or_refused parent e))
    done 201 (uploaded b (int64 (used +ℤ size)))

  -- POST /v1/backups
  unfoldable pub handle_upload_backup : Option Identity → Upload → Written → ℤ → Handler (Unit {0})
  handle_upload_backup ctx up written clock = counted (bytes "upload") do
    account_id ← owner (bytes "error") ctx
    headers ← check_headers up
    used ← check_account account_id up.content_length
    while_uploading (pos_part cfg.backup_concurrency) account_id
        do file ← write_blob written; record_upload account_id up headers used file clock
