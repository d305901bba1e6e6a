-- ===== src/Store/Calls.antt =====
-- Every call of deployables/backend/internal/store that writes, and histories of such calls. A
-- call runs on the tables that the one before it has left, at its own time, under its own faults.
pub mod Chain
pub mod Untouched
pub mod History
use aime.Base.{ℕ, Bool, Option, List, [], ◌∷◌}
use aime.Base.Int.{ℤ}
use aime.Base.Bytes.{Bytes}
use aime.Base.Float.{Float64}
use aime.Store.Schema.{UsageEvent, Db}
use aime.Store.Query.{Conn, Result}
use aime.Store.Billing.{charge, add_credits, settle_storage, StoragePricer}
use aime.Store.Backups.{NewBackup, Quota}
use aime.Store.Backups.Transactions.{create_backup, delete_backup, prune_backups}
use aime.Store.Accounts.{create_account, update_password, delete_account}
use aime.Store.Devices.{create_device, touch_device_last_seen, rename_device, delete_device}
use aime.Store.Auth.{
  create_challenge, consume_challenge, create_enrollment_token, consume_enrollment_token,
  create_session, delete_session, delete_sessions,
}
use aime.Store.Maintenance.{purge_expired}

-- The clock of a backup call is what `time.Now()` answers in it.
pub data Call : Type 0 where
  creates_account : Bytes → Bytes → Bytes → Call
  updates_password : ℕ → Bytes → Bytes → Call
  deletes_account : ℕ → Call
  charges : ℕ → UsageEvent → Call
  adds_credits : ℕ → ℤ → Call
  settles : ℕ → ℤ → Call
  creates_backup : ℕ → Quota → ℤ → NewBackup → Call
  deletes_backup prunes : ℕ → ℕ → ℤ → Call
  creates_device : ℕ → Bytes → Bytes → Bytes → Call
  touches_device : ℕ → Call
  renames_device : ℕ → ℕ → Bytes → Call
  deletes_device : ℕ → ℕ → Call
  creates_challenge : ℕ → Bytes → ℤ → Call
  consumes_challenge : ℕ → Bytes → Call
  creates_enrollment : ℕ → Bytes → Bytes → ℤ → Call
  consumes_enrollment : Bytes → Call
  creates_session : ℕ → ℕ → Bytes → ℤ → Call
  deletes_session : Bytes → Call
  deletes_sessions : ℕ → Option Bytes → Call
  purges : Call

-- What is left of a call when its answer is dropped.
abbrev pub tables : {A : Type 0} → Result A × Conn → Db
tables r = r.1.db

module _ (fl : Float64) (pricer : StoragePricer) where
  unfoldable pub step : Call → Conn → Db
  step (creates_account email hash salt) c = tables (create_account email hash salt c)
  step (updates_password id hash salt) c = tables (update_password id hash salt c)
  step (deletes_account id) c = tables (delete_account id c)
  step (charges id ev) c = tables (charge id ev c)
  step (adds_credits id amount) c = tables (add_credits id amount c)
  step (settles id clock) c = tables (settle_storage fl id pricer clock c)
  step (creates_backup id q clock nb) c = tables (create_backup fl id q pricer clock nb c)
  step (deletes_backup account id clock) c = tables (delete_backup fl account id pricer clock c)
  step (prunes account version clock) c = tables (prune_backups fl account version pricer clock c)
  step (creates_device account name alg key) c = tables (create_device account name alg key c)
  step (touches_device id) c = tables (touch_device_last_seen id c)
  step (renames_device account id name) c = tables (rename_device account id name c)
  step (deletes_device account id) c = tables (delete_device account id c)
  step (creates_challenge device nonce ttl) c = tables (create_challenge device nonce ttl c)
  step (consumes_challenge id nonce) c = tables (consume_challenge id nonce c)
  step (creates_enrollment account hash source ttl) c =
      tables (create_enrollment_token account hash source ttl c)
  step (consumes_enrollment hash) c = tables (consume_enrollment_token hash c)
  step (creates_session account device hash ttl) c =
      tables (create_session account device hash ttl c)
  step (deletes_session hash) c = tables (delete_session hash c)
  step (deletes_sessions account keep) c = tables (delete_sessions account keep c)
  step purges c = tables (purge_expired c)

  -- The time and the faults of each call.
  unfoldable pub run : List (ℤ × List Bool × Call) → Db → Db
  run [] db = db
  run ((now, faults, call) ∷ rest) db =
      run rest (step call (record { db = db; now = now; faults = faults }))

-- The tables that the migrations create.
abbrev pub empty : Db
empty = record {
  accounts = [];
  devices = [];
  auth_challanges = [];
  enrollment_tokens = [];
  sessions = [];
  usage_events = [];
  backups = [];
  next_account = 1;
  next_device = 1;
  next_challange = 1;
  next_enrollment = 1;
  next_session = 1;
  next_usage = 1;
  next_backup = 1;
}
