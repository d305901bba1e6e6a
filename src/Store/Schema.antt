-- ===== src/Store/Schema.antt =====
-- The tables of deployables/backend/cmd/server/migrations, after all three migrations, and the row
-- types of deployables/backend/internal/store. Times are nanoseconds on one axis. Each table hands
-- out its BIGSERIAL ids from a counter; PostgreSQL does not take an id back when a transaction
-- rolls back, which only leaves gaps.
use aime.Base.{ℕ, Bool, Option, List}
use aime.Base.Int.{ℤ}
use aime.Base.Bytes.{Bytes}

pub record Account : Type 0 where
  pub id : ℕ
  pub email : Bytes
  pub password_hash : Bytes
  pub password_salt : Bytes
  pub balance_microcredits : ℤ
  pub created_at : ℤ
  pub storage_billed_at : Option ℤ
  pub backup_version_seq : ℕ

pub record Device : Type 0 where
  pub id : ℕ
  pub account_id : ℕ
  pub name : Bytes
  pub pq_alg : Bytes
  pub public_key : Bytes
  pub created_at : ℤ
  pub last_seen : Option ℤ

pub record ChallengeRow : Type 0 where
  pub id : ℕ
  pub device_id : ℕ
  pub nonce : Bytes
  pub expires_at : ℤ
  pub used : Bool

pub record EnrollmentToken : Type 0 where
  pub id : ℕ
  pub account_id : ℕ
  pub token_hash : Bytes
  pub source : Bytes
  pub expires_at : ℤ
  pub used : Bool
  pub created_at : ℤ

pub record SessionRow : Type 0 where
  pub id : ℕ
  pub account_id : ℕ
  pub device_id : ℕ
  pub token_hash : Bytes
  pub expires_at : ℤ
  pub created_at : ℤ

pub record UsageEvent : Type 0 where
  pub kind : Bytes
  pub model : Bytes
  pub backend : Bytes
  pub quantity : ℤ
  pub unit : Bytes
  pub cost_microcredits : ℤ

pub record UsageEventRow : Type 0 where
  pub id : ℕ
  pub account_id : ℕ
  pub event : UsageEvent
  pub created_at : ℤ

-- `BackupFull` and `BackupDelta`.
pub data BackupKind : Type 0 where
  full delta : BackupKind

pub record Backup : Type 0 where
  pub id : ℕ
  pub account_id : ℕ
  pub version : ℕ
  pub kind : BackupKind
  pub parent_id : Option ℕ
  pub storage_path : Bytes
  pub size_bytes : ℤ
  pub checksum : Bytes
  pub meta : Bytes
  pub created_at : ℤ

pub record Db : Type 0 where
  pub accounts : List Account
  pub devices : List Device
  pub auth_challanges : List ChallengeRow
  pub enrollment_tokens : List EnrollmentToken
  pub sessions : List SessionRow
  pub usage_events : List UsageEventRow
  pub backups : List Backup
  pub next_account : ℕ
  pub next_device : ℕ
  pub next_challange : ℕ
  pub next_enrollment : ℕ
  pub next_session : ℕ
  pub next_usage : ℕ
  pub next_backup : ℕ
