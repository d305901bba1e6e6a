-- ===== src/Store/Devices.antt =====
-- deployables/backend/internal/store/devices.go: the devices of an account.
use aime.Base.{ℕ, suc, Bool, ◌&&◌, none, some, List, [], ◌∷◌, ◌==◌, if◌then◌else◌}
use aime.Base.Lists.{select, delete, update, first, exists}
use aime.Base.Int.{ltb_ℤ}
use aime.Base.Bytes.{Bytes}
use aime.Store.Schema.{Device}
use aime.Store.Query.{
  no_rows, foreign_key_violation, not_found, pg, ok, err, Query, Statement, exec, translate, ◌>>=◌,
}
use aime.Store.Billing.{account_exists}
use aime.Store.Accounts.{device_of, has_device, require_affected}

unfoldable pub insert_device : ℕ → Bytes → Bytes → Bytes → Statement ℕ
insert_device account_id name pq_alg public_key now db =
    if account_exists account_id db
    then ok (
      db.next_device,
      record db {
        devices =
            record {
              id = db.next_device;
              account_id = account_id;
              name = name;
              pq_alg = pq_alg;
              public_key = public_key;
              created_at = now;
              last_seen = none;
            }
            ∷ db.devices;
        next_device = suc db.next_device;
      },
    )
    else err (pg foreign_key_violation)

unfoldable pub create_device : ℕ → Bytes → Bytes → Bytes → Query ℕ
create_device account_id name pq_alg public_key =
    exec (insert_device account_id name pq_alg public_key)

unfoldable pub get_device : ℕ → Query Device
get_device id = translate no_rows not_found (
    exec λ now db. elim (first (has_device id) db.devices) [
      | none ↦ err (pg no_rows)
      | some d ↦ ok (d, db)
    ])

unfoldable pub touch_device_last_seen : ℕ → Query (Unit {0})
touch_device_last_seen id = exec λ now db. ok (
  tt,
  record db {
    devices = update (has_device id) (λ d. record d { last_seen = some now }) db.devices;
  },
)

-- `ORDER BY created_at`; equal times keep the table's order.
abbrev pub insert_by_age : Device → List Device → List Device
insert_by_age d [] = d ∷ []
insert_by_age d (x ∷ xs) =
    let rest = insert_by_age d xs in
    if ltb_ℤ x.created_at d.created_at then x ∷ rest else d ∷ x ∷ xs

abbrev pub sort_by_age : List Device → List Device
sort_by_age [] = []
sort_by_age (d ∷ ds) = insert_by_age d (sort_by_age ds)

unfoldable pub list_devices : ℕ → Query (List Device)
list_devices account_id =
    exec λ now db. ok (sort_by_age (select (device_of account_id) db.devices), db)

-- `WHERE id = $1 AND account_id = $2`
abbrev pub is_device : ℕ → ℕ → Device → Bool
is_device account_id id d = (d.id == id) && (d.account_id == account_id)

unfoldable pub set_name : ℕ → ℕ → Bytes → Statement Bool
set_name account_id id name now db = ok (
  exists (is_device account_id id) db.devices,
  record db {
    devices = update (is_device account_id id) (λ d. record d { name = name }) db.devices;
  },
)

unfoldable pub rename_device : ℕ → ℕ → Bytes → Query (Unit {0})
rename_device account_id id name = exec (set_name account_id id name) >>= require_affected

-- `ON DELETE CASCADE` takes the sessions and the challenges of the deleted rows.
unfoldable pub cascade_device : ℕ → ℕ → Statement Bool
cascade_device account_id id now db =
    let found = exists (is_device account_id id) db.devices in
    ok (
      found,
      record db {
        devices = delete (is_device account_id id) db.devices;
        auth_challanges = delete (λ c. found && (c.device_id == id)) db.auth_challanges;
        sessions = delete (λ s. found && (s.device_id == id)) db.sessions;
      },
    )

unfoldable pub delete_device : ℕ → ℕ → Query (Unit {0})
delete_device account_id id = exec (cascade_device account_id id) >>= require_affected
