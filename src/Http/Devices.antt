-- ===== src/Http/Devices.antt =====
-- deployables/backend/internal/httpapi/devices.go: the devices of the account. The identifier in
-- the path is an argument, `none` where it does not parse.
use aime.Base.{ℕ, not, ◌==◌, Option, none, some, map}
use aime.Base.Bytes.{Bytes, bytes}
use aime.Store.Devices.{list_devices, rename_device, delete_device}
use aime.Http.World.{
  auth_event, no_content, device_list, Handler, Identity, give, reply, fail_with, internal,
  reject_if, raise_count, decoded, on_store, if_missing, identified, ◌>>=◌, ◌>>◌,
}
use aime.Http.Login.{Text, valid_device_name}

-- GET /v1/devices: each device, and whether the request comes from it.
unfoldable pub handle_list_devices : Option Identity → Handler (Unit {0})
handle_list_devices ctx = do
  me ← identified ctx
  devices ← on_store (list_devices me.account_id) give (λ _. internal)
  reply 200 (device_list (map (λ d. (d, d.id == me.device_id)) devices))

-- What `strconv.ParseInt` answers, if it is a positive number.
abbrev pub path_id : Option ℕ → Bytes → Handler ℕ
path_id none message = fail_with 400 message
path_id (some id) message = reject_if (id == 0) 400 message >> give id

unfoldable pub device_id_from_path : Option Identity → Option ℕ → Handler (ℕ × ℕ)
device_id_from_path ctx path = do
  me ← identified ctx
  id ← path_id path (bytes "invalid device id")
  give (me.account_id, id)

-- PATCH /v1/devices/{id}
unfoldable pub handle_rename_device :
    Text → Option Identity → Option ℕ → Option Bytes → Handler (Unit {0})
handle_rename_device text ctx path req = do
  (account_id, id) ← device_id_from_path ctx path
  name ← decoded req
  reject_if (not (valid_device_name text name)) 400 (bytes "name must be 2..64 characters")
  on_store (rename_device account_id id (text.trim_space name)) give
      (if_missing (fail_with 404 (bytes "unknown device")))
  reply 204 no_content

-- DELETE /v1/devices/{id}
unfoldable pub handle_delete_device : Option Identity → Option ℕ → Handler (Unit {0})
handle_delete_device ctx path = do
  (account_id, id) ← device_id_from_path ctx path
  on_store (delete_device account_id id) give (if_missing (fail_with 404 (bytes "unknown device")))
  raise_count (auth_event (bytes "device_delete"))
  reply 204 no_content
