-- ===== src/Http/UploadResult.antt =====
-- deployables/backend/internal/httpapi/backup.go: handleUploadBackup as a whole, its slot included.
use aime.Base.{ℕ, ◌≡◌, refl, sym, ap, subst, ◌∙◌, inl, inr, ◌∷◌, List, false, Option, none, some}
use aime.Base.Lists.{exists}
use aime.Base.Int.{ℤ, pos_part}
use aime.Base.Bytes.{Bytes, bytes, bytes_eq}
use aime.Base.Float.{Float64}
use aime.Config.{Config}
use aime.Billing.{Ledger}
use aime.Store.Backups.{Quota}
use aime.Store.Backups.Chain.{IsChained}
use aime.Http.World.{Response, World, Step, next, stop, Identity, Metric, ◌>>=◌}
use aime.Http.Rules.{Runs, goes_on, stops, Runs-bind, Runs-next, Runs-weaken}
use aime.Http.Backups.{Operation, finish, counted}
use aime.Http.Uploads.{
  parse_backup_meta, parse_backup_parent, taken, Upload, Written, too_big, write_failed, stored,
  write_blob, record_upload, handle_upload_backup, backup_quota,
}
use aime.Http.Frame.{status_is_created, Frame, Frame-refl, IsFresh, Refused}
use aime.Http.UploadOutcome.{
  Headers, check_headers-Refused, check_account-Refused, record_upload-Result,
}
use aime.Http.SlotEnd.{Ended, Ended-Frame, inside, while_uploading-Ended}

recounted :
    (old new : World) (ms : List Metric) → Frame old new → Frame old (record new { metrics = ms })
recounted old new ms f = record {
  tables = f.tables;
  files = f.files;
  stuck = f.stuck;
  slots = f.slots;
  accounts = f.accounts;
}

IsFresh-same :
    (written : Written) (old w : World)
    → w.files ≡ old.files
    → w.stuck ≡ old.stuck
    → IsFresh written old
    → IsFresh written w
IsFresh-same too_big old w f g h = tt
IsFresh-same write_failed old w f g h = tt
IsFresh-same (stored rel size sum) old w f g (fresh, removable) =
    (ap (exists (bytes_eq rel)) f ∙ fresh, ap (λ s. s rel) g ∙ removable)

module _ (fl : Float64) (cfg : Config) (ledger : Ledger) (compact : Bytes → Option Bytes) where
  -- How a request to upload ends: recorded for the account of the session, or refused.
  abbrev pub UploadEnd : Option Identity → Upload → Written → World → Response → World → Type 0
  UploadEnd none up written old r new = (status_is_created r ≡ false) × Frame old new
  UploadEnd (some me) up written old r new =
      (label : Bytes) × Ended compact me.account_id (backup_quota fl cfg ledger compact) up written
        old (label, r) new

  body :
      (i : ℕ) (up : Upload) (written : Written) (clock : ℤ) (meta : Bytes) (parent : Option ℕ)
      (used : ℤ) (w : World)
      → (parse_backup_meta compact up.meta_header ≡ taken meta)
        × (parse_backup_parent up.parent_header ≡ taken parent)
      → IsChained w.conn.db
      → IsFresh written w
      → Runs
          (Ended compact i (backup_quota fl cfg ledger compact) up written w)
          (λ _ _. ⊥)
          ((write_blob written >>= λ file.
              record_upload fl cfg ledger compact i up (meta, parent) used file clock)
            w)
  body i up too_big clock meta parent used w asked chained fresh =
      Runs-bind _ (λ _ _. ⊥) (λ _ _. ⊥) _ _ (stops (inr (refl, Frame-refl w))) λ _ _ h. absurd h
  body i up write_failed clock meta parent used w asked chained fresh =
      Runs-bind _ (λ _ _. ⊥) (λ _ _. ⊥) _ _ (stops (inr (refl, Frame-refl w))) λ _ _ h. absurd h
  body i up (stored rel size sum) clock meta parent used w asked chained (fresh, removable) =
      Runs-bind _
        (λ file w'. (file ≡ (rel, size, sum)) × Frame (record w { files = rel ∷ w.files }) w')
        (λ _ _. ⊥) _ _ (goes_on (refl, Frame-refl _))
        λ file w' (e, f).
          subst
            (λ file.
              Runs (Ended compact i (backup_quota fl cfg ledger compact) up (stored rel size sum) w)
                (λ _ _. ⊥)
                (record_upload fl cfg ledger compact i up (meta, parent) used file clock w'))
            (sym e)
            (record_upload-Result fl cfg ledger compact up w rel fresh removable i size sum meta
              parent used clock w' asked chained f)

  counted-End :
      (op : Bytes) (m : Operation (Unit {0})) (w : World) (E : Bytes × Response → World → Type 0)
      → ((x : Bytes × Response) (new : World) (ms : List Metric)
          → E x new
          → E x (record new { metrics = ms }))
      → Runs E (λ _ _. ⊥) (m w)
      → Runs (λ r new. (label : Bytes) × E (label, r) new) (λ _ _. ⊥) (counted op m w)
  unfolding counted
  counted-End op m w E keep h = finished (m w) h
    where
      finished :
          (r : Step (Bytes × Response) (Unit {0}) × World)
          → Runs E (λ _ _. ⊥) r
          → Runs (λ x new. (label : Bytes) × E (label, x) new) (λ _ _. ⊥) (finish op r)
      finished (next u, new) h = absurd h.meets
      finished (stop (label, x), new) h = stops (label, keep (label, x) new _ h.meets)

  -- From a chained database, and with a fresh path for the file, which the file system lets the server
  -- remove, a request to upload always ends with a response. Either it is the 201 of a session: then the
  -- file came in full, is not empty and has the declared checksum, if one is declared; `CreateBackup` made
  -- the row, for the account of the session, with that path, size and checksum and with the metadata and
  -- the parent of the headers; and the file stands beside the files there were. Or it is another response (or none, to a client that is gone), and
  -- tables and files are as before. Either way the slots taken and the accounts that upload are as
  -- before.
  pub handle_upload_backup-UploadEnd :
      (ctx : Option Identity) (up : Upload) (written : Written) (clock : ℤ) (w : World)
      → IsChained w.conn.db
      → IsFresh written w
      → Runs
          (UploadEnd ctx up written w)
          (λ _ _. ⊥)
          (handle_upload_backup fl cfg ledger compact ctx up written clock w)
  unfolding handle_upload_backup
  handle_upload_backup-UploadEnd none up written clock w chained fresh =
      Runs-weaken (λ r new. (label : Bytes) × Refused w (label, r) new)
        (UploadEnd none up written w) (λ _ _. ⊥) (λ _ _. ⊥) _
        (counted-End (bytes "upload") _ w (Refused w)
          (λ x new ms (status, f). (status, recounted w new ms f))
          (Runs-bind (Refused w) (λ _ _. ⊥) (λ _ _. ⊥) _ _ (stops (refl, Frame-refl w))
            λ _ _ h. absurd h))
        (λ r new (label, h). h) (λ _ _ h. h)
  handle_upload_backup-UploadEnd (some me) up written clock w chained fresh =
      counted-End (bytes "upload") _ w E keep (
        Runs-next E (λ _ _. ⊥) _ me.account_id w
          (Runs-bind E Taken (λ _ _. ⊥) _ _
            (Runs-weaken (Refused w) E Taken Taken _
              (check_headers-Refused fl cfg ledger compact up w) (λ _ _ h. inr h) (λ _ _ h. h))
            λ (meta, parent) w₁ (asked, f₁).
              Runs-bind E (λ _. Frame w) (λ _ _. ⊥) _ _
                (Runs-weaken (Refused w) E (λ _. Frame w) (λ _. Frame w) _
                  (check_account-Refused fl cfg ledger compact up w me.account_id up.content_length
                    w₁ f₁)
                  (λ _ _ h. inr h) (λ _ _ h. h))
                λ used w₂ f₂.
                  Runs-weaken (Ended compact me.account_id q up written w₂) E (λ _ _. ⊥) (λ _ _. ⊥)
                    _
                    (while_uploading-Ended compact me.account_id q up written
                      (pos_part cfg.backup_concurrency) _ w₂
                      (body me.account_id up written clock meta parent used
                        (inside compact me.account_id q up written w₂) asked
                        (subst IsChained (sym f₂.tables) chained)
                        (IsFresh-same written w _ f₂.files f₂.stuck fresh)))
                    (λ x new h. Ended-Frame compact me.account_id q up written w w₂ x new f₂ h)
                    (λ _ _ h. h)))
    where
      q : Quota
      q = backup_quota fl cfg ledger compact

      Taken : Bytes × Option ℕ → World → Type 0
      Taken h w' = Headers fl cfg ledger compact up w h × Frame w w'

      E : Bytes × Response → World → Type 0
      E = Ended compact me.account_id q up written w

      keep :
          (x : Bytes × Response) (new : World) (ms : List Metric)
          → E x new
          → E x (record new { metrics = ms })
      keep x new ms (inl h) = inl h
      keep x new ms (inr (status, f)) = inr (status, recounted w new ms f)
