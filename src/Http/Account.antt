-- ===== src/Http/Account.antt =====
-- deployables/backend/internal/httpapi/account.go: what the owner of a session does to the account,
-- and handleMintEnrollment of auth.go.
use aime.Base.{ℕ, not, ltb, Option, none, some}
use aime.Base.Int.{ℤ, ◌+ℤ◌}
use aime.Base.Bytes.{Bytes, bytes}
use aime.Auth.{Crypto, hash_password, verify_password, hash_token}
use aime.Store.Accounts.{account_by_id, account_auth, update_password, delete_account}
use aime.Store.Auth.{create_enrollment_token, delete_session, delete_sessions}
use aime.Http.World.{
  auth_event, no_content, account_info, enrollment, revoked, Handler, Identity, give, reply,
  unauthorized, internal, reject_if, when, raise_count, decoded, on_store, best_effort, if_missing,
  identified, remove_files, ◌>>=◌, ◌>>◌,
}
use aime.Http.Login.{ArgonSlot, with_argon, Text, refuse_login, enrollment_ttl, min_password_len}

-- GET /v1/account
unfoldable pub handle_get_account : Option Identity → Handler (Unit {0})
handle_get_account ctx = do
  me ← identified ctx
  on_store (account_by_id me.account_id)
      (λ a. reply 200 (account_info a.id a.email a.balance_microcredits a.created_at))
      (if_missing unauthorized)

-- POST /v1/auth/logout
unfoldable pub handle_logout : Option Identity → Handler (Unit {0})
handle_logout ctx = do
  me ← identified ctx
  on_store (delete_session me.token_hash) give (λ _. internal)
  raise_count (auth_event (bytes "logout"))
  reply 204 no_content

-- POST /v1/auth/logout-all
unfoldable pub handle_logout_all : Option Identity → Handler (Unit {0})
handle_logout_all ctx = do
  me ← identified ctx
  n ← on_store (delete_sessions me.account_id none) give (λ _. internal)
  raise_count (auth_event (bytes "logout_all"))
  reply 200 (revoked n)

module _ (crypto : Crypto) where
  -- Every destructive action on an account passes here.
  unfoldable pub verify_account_password : ℕ → Bytes → ArgonSlot → Handler (Unit {0})
  verify_account_password account_id password slot = do
    (hash, salt) ← on_store (account_auth account_id) give (if_missing unauthorized)
    with_argon slot
    when (not (verify_password crypto password hash salt)) refuse_login

  -- POST /v1/enrollment-tokens
  unfoldable pub handle_mint_enrollment :
      Option Identity → Option Bytes → ArgonSlot → Bytes → ℤ → Handler (Unit {0})
  handle_mint_enrollment ctx req slot token clock = do
    me ← identified ctx
    password ← decoded req
    verify_account_password me.account_id password slot
    on_store
        (create_enrollment_token me.account_id (hash_token crypto token) (bytes "qr")
          enrollment_ttl)
        (λ _. reply 201 (enrollment token (clock +ℤ enrollment_ttl))) (λ _. internal)

  -- POST /v1/account/password: the current and the new password. Every other session is revoked.
  unfoldable pub handle_change_password :
      Text
      → Option Identity
      → Option (Bytes × Bytes)
      → ArgonSlot
      → ArgonSlot
      → Bytes
      → Handler (Unit {0})
  handle_change_password text ctx req slot slot' salt = do
    me ← identified ctx
    (current, new) ← decoded req
    reject_if (ltb (text.runes new) min_password_len) 400 (bytes "password too short")
    verify_account_password me.account_id current slot
    with_argon slot'
    on_store (update_password me.account_id (hash_password crypto new salt) salt) give
        (λ _. internal)
    best_effort (delete_sessions me.account_id (some me.token_hash))
    raise_count (auth_event (bytes "password_change"))
    reply 204 no_content

  -- DELETE /v1/account
  unfoldable pub handle_delete_account :
      Option Identity → Option Bytes → ArgonSlot → Handler (Unit {0})
  handle_delete_account ctx req slot = do
    me ← identified ctx
    password ← decoded req
    verify_account_password me.account_id password slot
    paths ← on_store (delete_account me.account_id) give (if_missing unauthorized)
    remove_files paths
    raise_count (auth_event (bytes "account_delete"))
    reply 204 no_content
