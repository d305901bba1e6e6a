-- ===== src/Http/Backups.antt =====
-- deployables/backend/internal/httpapi/backup.go: list, download, delete and prune. Each handler
-- answers with a label for the counter `backup_op`, which a deferred call raises on every way out.
use aime.Base.{ℕ, ◌==◌, Option, none, some, List, [], ◌∷◌, map, ◌++◌, if◌then◌else◌}
use aime.Base.Lists.{length, exists}
use aime.Base.Int.{ℤ, pos, negsuc, ◌+ℤ◌, int64}
use aime.Base.Bytes.{Bytes, bytes, bytes_eq}
use aime.Base.Float.{Float64}
use aime.Base.Decimal.{parse_int, format_int}
use aime.Store.Schema.{Backup}
use aime.Store.Query.{not_found, backup_in_use, backup_boundary}
use aime.Store.Billing.{StoragePricer}
use aime.Store.Backups.{list_backups, get_backup}
use aime.Store.Backups.Transactions.{delete_backup, prune_backups}
use aime.Http.World.{
  backup_op, backup_bytes, Body, FileHeaders, error, no_content, backup_list, file, pruned,
  Response, respond, World, Step, next, stop, Run, Handler, Identity, give, return_early, reply,
  internal, raise_count, on_store, identified, remove_file, remove_files, ◌>>=◌, ◌>>◌,
}

-- A handler's label for the counter, and its response.
abbrev pub Operation : Type 0 → Type 0
Operation A = Run (Bytes × Response) A

abbrev pub rejected_with : {A : Type 0} → ℕ → Bytes → Operation A
rejected_with status message = return_early (bytes "rejected", respond status (error message))

abbrev pub broken_with : {A : Type 0} → ℕ → Bytes → Operation A
broken_with status message = return_early (bytes "error", respond status (error message))

abbrev pub broken : {A : Type 0} → Operation A
broken = broken_with 500 (bytes "internal")

abbrev pub done : {A : Type 0} → ℕ → Body → Operation A
done status body = return_early (bytes "ok", respond status body)

-- `AccountFromContext` behind a label.
abbrev pub owner : Bytes → Option Identity → Operation ℕ
owner label none = return_early (label, respond 401 (error (bytes "unauthorized")))
owner label (some me) = give me.account_id

abbrev pub finish :
    Bytes → Step (Bytes × Response) (Unit {0}) × World → Step Response (Unit {0}) × World
finish op (next u, w) = (next u, w)
finish op (stop (label, r), w) = (stop r, record w { metrics = backup_op op label ∷ w.metrics })

-- The deferred `IncBackupOp`.
unfoldable pub counted : Bytes → Operation (Unit {0}) → Handler (Unit {0})
counted op m w = finish op (m w)

-- The sum of `SizeBytes` in int64.
unfoldable pub total_size : List Backup → ℤ → ℤ
total_size [] n = n
total_size (b ∷ bs) n = total_size bs (int64 (n +ℤ b.size_bytes))

-- GET /v1/backups
unfoldable pub handle_list_backups : Option Identity → Handler (Unit {0})
handle_list_backups ctx = do
  me ← identified ctx
  list ← on_store (list_backups me.account_id) give (λ _. internal)
  reply 200 (backup_list list (total_size list (pos 0)))

-- `strconv.ParseInt` of a positive number.
abbrev pub positive_id : Option ℤ → Option ℕ
positive_id none = none
positive_id (some (negsuc n)) = none
positive_id (some (pos n)) = if n == 0 then none else some n

unfoldable pub backup_id_from_path : Option Identity → Bytes → Operation (ℕ × ℕ)
backup_id_from_path ctx path = do
  account_id ← owner (bytes "rejected") ctx
  elim (positive_id (parse_int path)) [
    | none ↦ rejected_with 400 (bytes "invalid backup id")
    | some id ↦ give (account_id, id)
  ]

abbrev found_file : Backup → Operation (Unit {0})
found_file b w =
    if exists (bytes_eq b.storage_path) w.files
    then (next tt, w)
    else broken_with 500 (bytes "backup unavailable") w

abbrev pub parent_text : Option ℕ → Option Bytes
parent_text none = none
parent_text (some p) = some (format_int (pos p))

-- What a download declares in its headers.
unfoldable pub file_headers : Backup → FileHeaders
file_headers b = record {
  disposition =
      bytes "attachment; filename=\"backup-v" ++ format_int (pos b.version) ++ bytes ".bin\"";
  checksum_header = b.checksum;
  meta_header = b.meta;
  parent_header = parent_text b.parent_id;
}

-- GET /v1/backups/{id}
unfoldable pub handle_download_backup : Option Identity → Bytes → Handler (Unit {0})
handle_download_backup ctx path = counted (bytes "download") do
  (account_id, id) ← backup_id_from_path ctx path
  b ←
      on_store (get_backup account_id id) give
        (λ e. elim e [ not_found ↦ rejected_with 404 (bytes "unknown backup") | _ ↦ broken ])
  found_file b
  raise_count (backup_bytes (bytes "out") b.size_bytes)
  done 200 (file (file_headers b) b)

module _ (fl : Float64) (pricer : StoragePricer) (clock : ℤ) where
  -- DELETE /v1/backups/{id}: the row goes first, then the file.
  unfoldable pub handle_delete_backup : Option Identity → Bytes → Handler (Unit {0})
  handle_delete_backup ctx path = counted (bytes "delete") do
    (account_id, id) ← backup_id_from_path ctx path
    b ← on_store (delete_backup fl account_id id pricer clock) give (λ e. elim e [
      | not_found ↦ rejected_with 404 (bytes "unknown backup")
      | backup_in_use ↦
          rejected_with 409 (bytes "backup is the parent of a delta, delete the delta first")
      | _ ↦ broken
    ])
    remove_file b.storage_path
    done 204 no_content

  -- DELETE /v1/backups?before_version=N
  unfoldable pub handle_prune_backups : Option Identity → Bytes → Handler (Unit {0})
  handle_prune_backups ctx param = counted (bytes "prune") do
    account_id ← owner (bytes "error") ctx
    before ← elim (positive_id (parse_int param)) [
      | none ↦ rejected_with 400 (bytes "before_version must be a version number")
      | some n ↦ give n
    ]
    rows ← on_store (prune_backups fl account_id before pricer clock) give (λ e. elim e [
      | not_found ↦ rejected_with 404 (bytes "unknown version")
      | backup_boundary ↦
          rejected_with 409 (bytes "before_version is a delta; prune from a full backup")
      | _ ↦ broken
    ])
    remove_files (map (λ b. b.storage_path) rows)
    done 200 (pruned (length rows) (total_size rows (pos 0)))
