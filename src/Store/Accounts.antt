-- ===== src/Store/Accounts.antt =====
-- deployables/backend/internal/store/accounts.go: accounts, credentials, and the deletion that
-- cascades.
use aime.Base.{ℕ, suc, Bool, true, false, none, some, List, ◌∷◌, map, ◌==◌, if◌then◌else◌}
use aime.Base.Lists.{select, delete, update, first, exists}
use aime.Base.Int.{pos}
use aime.Base.Bytes.{Bytes, bytes_eq}
use aime.Store.Schema.{Account, Device, SessionRow}
use aime.Store.Query.{
  no_rows, unique_violation, foreign_key_violation, not_found, email_taken, pg, ok, err, Query,
  Statement, exec, translate, transaction, pure, fail, ◌>>=◌, ◌>>◌,
}
use aime.Store.Billing.{has_id, owned_by, read_account}
use aime.Store.Backups.{is_orphan}

abbrev pub has_email : Bytes → Account → Bool
has_email e a = bytes_eq a.email e

-- `INSERT INTO accounts`, under the unique email.
unfoldable pub insert_account : Bytes → Bytes → Bytes → Statement ℕ
insert_account email hash salt now db =
    if exists (has_email email) db.accounts
    then err (pg unique_violation)
    else ok (
      db.next_account,
      record db {
        accounts =
            record {
              id = db.next_account;
              email = email;
              password_hash = hash;
              password_salt = salt;
              balance_microcredits = pos 0;
              created_at = now;
              storage_billed_at = none;
              backup_version_seq = 0;
            }
            ∷ db.accounts;
        next_account = suc db.next_account;
      },
    )

unfoldable pub create_account : Bytes → Bytes → Bytes → Query ℕ
create_account email hash salt =
    translate unique_violation email_taken (exec (insert_account email hash salt))

unfoldable pub account_by_email : Bytes → Query Account
account_by_email email = translate no_rows not_found (
    exec λ now db. elim (first (has_email email) db.accounts) [
      | none ↦ err (pg no_rows)
      | some a ↦ ok (a, db)
    ])

-- `AccountByID`
unfoldable pub account_by_id : ℕ → Query Account
account_by_id id = translate no_rows not_found (exec (read_account id (λ a. a)))

-- `AccountAuth`: the hash and the salt of the password.
unfoldable pub account_auth : ℕ → Query (Bytes × Bytes)
account_auth id =
    translate no_rows not_found (exec (read_account id (λ a. (a.password_hash, a.password_salt))))

-- `Exec` of an update or a delete; `RowsAffected() == 0` answers `ErrNotFound`.
abbrev pub require_affected : Bool → Query (Unit {0})
require_affected true = pure tt
require_affected false = fail not_found

unfoldable pub set_password : ℕ → Bytes → Bytes → Statement Bool
set_password id hash salt now db = ok (
  exists (has_id id) db.accounts,
  record db {
    accounts =
        update (has_id id) (λ a. record a { password_hash = hash; password_salt = salt })
          db.accounts;
  },
)

unfoldable pub update_password : ℕ → Bytes → Bytes → Query (Unit {0})
update_password id hash salt = exec (set_password id hash salt) >>= require_affected

-- The devices of the account, whose sessions and challenges go with them.
abbrev pub device_of : ℕ → Device → Bool
device_of i d = d.account_id == i

abbrev pub has_device : ℕ → Device → Bool
has_device i d = d.id == i

abbrev pub session_of : ℕ → SessionRow → Bool
session_of i s = s.account_id == i

abbrev pub is_among : List Device → ℕ → Bool
is_among ds i = exists (has_device i) ds

-- `DELETE FROM accounts` with `ON DELETE CASCADE` on every table that names an account; the
-- sessions and challenges of its devices go as well.
unfoldable pub cascade_account : ℕ → Statement Bool
cascade_account id now db =
    let gone = select (device_of id) db.devices in
    let rest = delete (owned_by id) db.backups in
    if exists (is_orphan rest) rest
    then err (pg foreign_key_violation)
    else ok (
      exists (has_id id) db.accounts,
      record db {
        accounts = delete (has_id id) db.accounts;
        devices = delete (device_of id) db.devices;
        auth_challanges = delete (λ c. is_among gone c.device_id) db.auth_challanges;
        enrollment_tokens = delete (λ t. t.account_id == id) db.enrollment_tokens;
        sessions = delete (λ s. is_among gone s.device_id) (delete (session_of id) db.sessions);
        usage_events = delete (λ e. e.account_id == id) db.usage_events;
        backups = rest;
      },
    )

-- The paths are read before the rows go.
unfoldable pub delete_account : ℕ → Query (List Bytes)
delete_account id = transaction do
  paths ← exec (λ now db. ok (map (λ b. b.storage_path) (select (owned_by id) db.backups), db))
  found ← exec (cascade_account id)
  require_affected found
  pure paths
