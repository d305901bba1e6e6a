-- ===== src/Store/Auth.antt =====
-- deployables/backend/internal/store/auth.go and enrollments.go: challenges, enrollment tokens and
-- sessions.
use aime.Base.{ℕ, suc, Bool, true, false, not, ◌&&◌, Option, none, some, ◌∷◌, ◌==◌, if◌then◌else◌}
use aime.Base.Lists.{length, select, delete, update, first, exists}
use aime.Base.Int.{ℤ, ◌+ℤ◌, ltb_ℤ}
use aime.Base.Bytes.{Bytes, bytes_eq}
use aime.Store.Schema.{ChallengeRow, EnrollmentToken, SessionRow}
use aime.Store.Query.{
  no_rows, unique_violation, foreign_key_violation, not_found, challenge_invalid,
  enrollment_invalid, pg, ok, err, Query, Statement, exec, translate, pure, ◌>>=◌,
}
use aime.Store.Billing.{account_exists}
use aime.Store.Accounts.{has_device, session_of}

pub record Challenge : Type 0 where
  pub id : ℕ
  pub device_id : ℕ
  pub nonce : Bytes

pub record Session : Type 0 where
  pub account_id : ℕ
  pub device_id : ℕ
  pub expires : ℤ

unfoldable pub insert_challenge : ℕ → Bytes → ℤ → Statement ℕ
insert_challenge device_id nonce ttl now db =
    if exists (has_device device_id) db.devices
    then ok (
      db.next_challange,
      record db {
        auth_challanges =
            record {
              id = db.next_challange;
              device_id = device_id;
              nonce = nonce;
              expires_at = now +ℤ ttl;
              used = false;
            }
            ∷ db.auth_challanges;
        next_challange = suc db.next_challange;
      },
    )
    else err (pg foreign_key_violation)

unfoldable pub create_challenge : ℕ → Bytes → ℤ → Query ℕ
create_challenge device_id nonce ttl =
    translate foreign_key_violation not_found (exec (insert_challenge device_id nonce ttl))

-- `WHERE id = $1 AND nonce = $2 AND NOT used AND expires_at > now()`
abbrev pub is_open_challenge : ℕ → Bytes → ℤ → ChallengeRow → Bool
is_open_challenge id nonce now c =
    (c.id == id) && bytes_eq c.nonce nonce && not c.used && ltb_ℤ now c.expires_at

unfoldable pub use_challenge : ℕ → Bytes → Statement ℕ
use_challenge id nonce now db = elim (first (is_open_challenge id nonce now) db.auth_challanges) [
  | none ↦ err (pg no_rows)
  | some c ↦ ok (
    c.device_id,
    record db {
      auth_challanges =
          update (is_open_challenge id nonce now) (λ x. record x { used = true })
            db.auth_challanges;
    },
  )
]

unfoldable pub consume_challenge : ℕ → Bytes → Query Challenge
consume_challenge id nonce = do
  device_id ← translate no_rows challenge_invalid (exec (use_challenge id nonce))
  pure (record { id = id; device_id = device_id; nonce = nonce })

unfoldable pub insert_enrollment : ℕ → Bytes → Bytes → ℤ → Statement (Unit {0})
insert_enrollment account_id token_hash source ttl now db =
    if exists (λ t. bytes_eq t.token_hash token_hash) db.enrollment_tokens
    then err (pg unique_violation)
    else if account_exists account_id db
    then ok (
      tt,
      record db {
        enrollment_tokens =
            record {
              id = db.next_enrollment;
              account_id = account_id;
              token_hash = token_hash;
              source = source;
              expires_at = now +ℤ ttl;
              used = false;
              created_at = now;
            }
            ∷ db.enrollment_tokens;
        next_enrollment = suc db.next_enrollment;
      },
    )
    else err (pg foreign_key_violation)

unfoldable pub create_enrollment_token : ℕ → Bytes → Bytes → ℤ → Query (Unit {0})
create_enrollment_token account_id token_hash source ttl =
    exec (insert_enrollment account_id token_hash source ttl)

-- `WHERE token_hash = $1 AND NOT used AND expires_at > now()`
abbrev pub is_open_token : Bytes → ℤ → EnrollmentToken → Bool
is_open_token token_hash now t =
    bytes_eq t.token_hash token_hash && not t.used && ltb_ℤ now t.expires_at

unfoldable pub use_enrollment : Bytes → Statement ℕ
use_enrollment token_hash now db =
    elim (first (is_open_token token_hash now) db.enrollment_tokens) [
      | none ↦ err (pg no_rows)
      | some t ↦ ok (
        t.account_id,
        record db {
          enrollment_tokens =
              update (is_open_token token_hash now) (λ x. record x { used = true })
                db.enrollment_tokens;
        },
      )
    ]

unfoldable pub consume_enrollment_token : Bytes → Query ℕ
consume_enrollment_token token_hash =
    translate no_rows enrollment_invalid (exec (use_enrollment token_hash))

abbrev pub has_token : Bytes → SessionRow → Bool
has_token h s = bytes_eq s.token_hash h

unfoldable pub insert_session : ℕ → ℕ → Bytes → ℤ → Statement (Unit {0})
insert_session account_id device_id token_hash ttl now db =
    if exists (has_token token_hash) db.sessions
    then err (pg unique_violation)
    else if account_exists account_id db && exists (has_device device_id) db.devices
    then ok (
      tt,
      record db {
        sessions =
            record {
              id = db.next_session;
              account_id = account_id;
              device_id = device_id;
              token_hash = token_hash;
              expires_at = now +ℤ ttl;
              created_at = now;
            }
            ∷ db.sessions;
        next_session = suc db.next_session;
      },
    )
    else err (pg foreign_key_violation)

unfoldable pub create_session : ℕ → ℕ → Bytes → ℤ → Query (Unit {0})
create_session account_id device_id token_hash ttl =
    exec (insert_session account_id device_id token_hash ttl)

-- `WHERE token_hash = $1 AND expires_at > now()`
abbrev pub is_live_session : Bytes → ℤ → SessionRow → Bool
is_live_session h now s = has_token h s && ltb_ℤ now s.expires_at

unfoldable pub read_session : Bytes → Statement Session
read_session h now db = elim (first (is_live_session h now) db.sessions) [
  | none ↦ err (pg no_rows)
  | some s ↦
      ok (record { account_id = s.account_id; device_id = s.device_id; expires = s.expires_at }, db)
]

unfoldable pub session_by_token_hash : Bytes → Query Session
session_by_token_hash h = translate no_rows not_found (exec (read_session h))

unfoldable pub delete_session : Bytes → Query (Unit {0})
delete_session h = exec λ now db. ok (tt, record db { sessions = delete (has_token h) db.sessions })

-- `$2::bytea IS NULL OR token_hash <> $2`
abbrev pub not_kept : Option Bytes → SessionRow → Bool
not_kept none s = true
not_kept (some keep) s = not (has_token keep s)

abbrev pub is_revoked : ℕ → Option Bytes → SessionRow → Bool
is_revoked account_id keep s = session_of account_id s && not_kept keep s

unfoldable pub delete_sessions : ℕ → Option Bytes → Query ℕ
delete_sessions account_id keep = exec λ now db. ok (
  length (select (is_revoked account_id keep) db.sessions),
  record db { sessions = delete (is_revoked account_id keep) db.sessions },
)
