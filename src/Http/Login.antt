-- ===== src/Http/Login.antt =====
-- deployables/backend/internal/httpapi/auth.go: sign up, login, enrollment and the challenge
-- handshake. What a request carries, and what the clock and the random source answer, are
-- arguments.
use aime.Base.{ℕ, Bool, true, false, not, ◌&&◌, ◌||◌, ltb, leb, ◌==◌, Option, none, some, [], ◌*◌}
use aime.Base.Lists.{length}
use aime.Base.Int.{ℤ, pos, ◌+ℤ◌}
use aime.Base.Bytes.{Bytes, bytes}
use aime.Auth.{
  Crypto, Verdict, accepted, rejected, verify_device_signature, hash_password, verify_password,
  hash_token,
}
use aime.Store.Schema.{Account}
use aime.Store.Query.{StoreError, email_taken, enrollment_invalid, challenge_invalid}
use aime.Store.Accounts.{create_account, account_by_email}
use aime.Store.Auth.{
  create_enrollment_token, consume_enrollment_token, create_challenge, consume_challenge,
  create_session,
}
use aime.Store.Devices.{create_device, get_device, touch_device_last_seen}
use aime.Http.World.{
  auth_event, account_created, enrollment, device_created, challange, verified, silent, Handler,
  give, return_early, reply, fail_with, unauthorized, internal, reject_if, when, raise_count,
  decoded, on_store, best_effort, if_missing, ◌>>=◌, ◌>>◌,
}

abbrev pub second : ℕ
second = 1_000_000_000

abbrev pub challange_ttl : ℤ
challange_ttl = pos (2 * 60 * second)

abbrev pub enrollment_ttl : ℤ
enrollment_ttl = pos (10 * 60 * second)

abbrev pub session_ttl : ℤ
session_ttl = pos (20 * 24 * 3600 * second)

abbrev pub min_password_len : ℕ
min_password_len = 12

-- How the wait for a hashing slot ended.
pub data ArgonSlot : Type 0 where
  acquired timed_out client_gone : ArgonSlot

unfoldable pub with_argon : ArgonSlot → Handler (Unit {0})
with_argon acquired = give tt
with_argon timed_out = fail_with 503 (bytes "busy, retry shortly")
with_argon client_gone = return_early silent

-- What the standard library makes of a text: the address that `mail.ParseAddress` finds, the text in
-- lower case, the number of its runes, and the text without the space around it.
pub record Text : Type 0 where
  pub parse_address : Bytes → Option Bytes
  pub to_lower : Bytes → Bytes
  pub runes : Bytes → ℕ
  pub trim_space : Bytes → Bytes

-- `store.Account{}`, which a failed lookup leaves, with the hash and the salt drawn at the start.
abbrev placeholder : Bytes × Bytes → Account
placeholder (hash, salt) = record {
  id = 0;
  email = [];
  password_hash = hash;
  password_salt = salt;
  balance_microcredits = pos 0;
  created_at = pos 0;
  storage_billed_at = none;
  backup_version_seq = 0;
}

abbrev pub refuse_login : Handler (Unit {0})
refuse_login =
    raise_count (auth_event (bytes "login_fail")) >> fail_with 401 (bytes "invalid password")

-- `errors.Is(err, ErrChallengeInvalid)` answered by `m`, any other error by a 500.
abbrev pub if_redeemed : {A : Type 0} → Handler A → StoreError → Handler A
if_redeemed m challenge_invalid = m
if_redeemed m _ = internal

abbrev pub require_accepted : Verdict → Handler (Unit {0})
require_accepted accepted = give tt
require_accepted (rejected e) = raise_count (auth_event (bytes "verify_fail")) >> unauthorized

module _ (text : Text) where
  open text use {parse_address, to_lower, runes, trim_space}

  abbrev lowered : Option Bytes → Option Bytes
  lowered none = none
  lowered (some address) = some (to_lower address)

  unfoldable pub normalize_email : Bytes → Option Bytes
  normalize_email email = lowered (parse_address email)

  unfoldable pub valid_device_name : Bytes → Bool
  valid_device_name name = let n = runes (trim_space name) in leb 2 n && leb n 64

  abbrev email_of : Bytes → Handler Bytes
  email_of raw = elim (normalize_email raw) [
    | none ↦ fail_with 400 (bytes "invalid email")
    | some email ↦ give email
  ]

module _ (crypto : Crypto) (text : Text) where
  open text use {runes}

  -- POST /v1/accounts: email and password.
  unfoldable pub handle_create_account :
      Option (Bytes × Bytes) → ArgonSlot → Bytes → Handler (Unit {0})
  handle_create_account req slot salt = do
    (address, password) ← decoded req
    email ← email_of text address
    reject_if (ltb (runes password) min_password_len) 400 (bytes "password too short")
    with_argon slot
    on_store (create_account email (hash_password crypto password salt) salt)
        (λ id. raise_count (auth_event (bytes "signup")) >> reply 201 (account_created id))
        (λ e. elim e [
          | email_taken ↦ fail_with 409 (bytes "email already registred")
          | _ ↦ internal
        ])

  -- POST /v1/auth/password: email and password. An unknown email is checked against a hash that
  -- the server draws at its start, at the cost of a real check.
  unfoldable pub handle_login_password :
      Option (Bytes × Bytes) → ArgonSlot → Bytes × Bytes → Bytes → ℤ → Handler (Unit {0})
  handle_login_password req slot dummy token clock = do
    (address, password) ← decoded req
    email ← email_of text address
    (account, known) ←
        on_store (account_by_email email) (λ a. give (a, true))
          (if_missing (give (placeholder dummy, false)))
    with_argon slot
    let valid = verify_password crypto password account.password_hash account.password_salt
    when (not valid || not known) refuse_login
    raise_count (auth_event (bytes "login_ok"))
    on_store
        (create_enrollment_token account.id (hash_token crypto token) (bytes "password")
          enrollment_ttl)
        (λ _. reply 200 (enrollment token (clock +ℤ enrollment_ttl))) (λ _. internal)

  -- POST /v1/devices: enrollment token, name and public key.
  unfoldable pub handle_create_device : Option (Bytes × Bytes × Bytes) → Handler (Unit {0})
  handle_create_device req = do
    (token, name, key) ← decoded req
    reject_if (not (valid_device_name text name)) 400 (bytes "name must be 2..64 characters")
    reject_if (not (length key == crypto.public_key_size)) 400 (bytes "invalid public key")
    account_id ← on_store (consume_enrollment_token (hash_token crypto token)) give (λ e. elim e [
      | enrollment_invalid ↦ fail_with 401 (bytes "invalid enrollment token")
      | _ ↦ internal
    ])
    id ← on_store (create_device account_id name (bytes "ml-dsa-65") key) give (λ _. internal)
    raise_count (auth_event (bytes "enroll"))
    reply 201 (device_created id)

  -- POST /v1/auth/challange: a device.
  unfoldable pub handle_challange : Option ℕ → Bytes → Handler (Unit {0})
  handle_challange req nonce = do
    device_id ← decoded req
    on_store (create_challenge device_id nonce challange_ttl) (λ id. reply 201 (challange id nonce))
        (if_missing (fail_with 404 (bytes "unknown device")))

  -- POST /v1/auth/verify: challenge, nonce and signature.
  unfoldable pub handle_verify : Option (ℕ × Bytes × Bytes) → Bytes → ℤ → Handler (Unit {0})
  handle_verify req token clock = do
    (id, nonce, signature) ← decoded req
    reject_if (not (length nonce == 32)) 400 (bytes "invalid nonce")
    ch ← on_store (consume_challenge id nonce) give (
        if_redeemed (
          raise_count (auth_event (bytes "verify_fail"))
          >> fail_with 400 (bytes "invalid challange")))
    dev ←
        on_store (get_device ch.device_id) give
          (if_missing (fail_with 400 (bytes "invalid device id")))
    require_accepted (verify_device_signature crypto dev.public_key ch.nonce signature)
    raise_count (auth_event (bytes "verify_ok"))
    on_store (create_session dev.account_id dev.id (hash_token crypto token) session_ttl) give
        (λ _. internal)
    best_effort (touch_device_last_seen dev.id)
    reply 200 (verified token (clock +ℤ session_ttl))
