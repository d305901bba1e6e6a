-- ===== src/Store/Calls/Untouched.antt =====
-- The store calls that touch no account, backup or counter keep the version chain.
use aime.Base.{ℕ, Option-cases, Option, arith, inl, inr}
use aime.Base.Lists.{first}
use aime.Base.Int.{ℤ}
use aime.Base.Bytes.{Bytes}
use aime.Store.Query.{
  Conn, Statement, exec, no_rows, not_found, foreign_key_violation, challenge_invalid,
  enrollment_invalid,
}
use aime.Store.Query.Rules.{Ends, Ends-bind}
use aime.Store.Backups.Chain.{IsChained}
use aime.Store.Devices.{
  insert_device, create_device, touch_device_last_seen, set_name, rename_device, cascade_device,
  delete_device,
}
use aime.Store.Auth.{
  insert_challenge, create_challenge, use_challenge, consume_challenge, insert_enrollment,
  create_enrollment_token, use_enrollment, consume_enrollment_token, insert_session, create_session,
  delete_session, delete_sessions, is_open_challenge, is_open_token,
}
use aime.Store.Maintenance.{purge_challenges, purge_enrollments, purge_sessions, purge_expired}
use aime.Store.Calls.{tables}
use aime.Store.Calls.Chain.{
  Calm, untouched, IsChained-tables, exec-IsChained, translate-IsChained, affected-IsChained,
}

insert_device-Calm : (i : ℕ) (name alg key : Bytes) → Calm (insert_device i name alg key)
unfolding insert_device
insert_device-Calm i name alg key now db new a e =
    untouched db new (ground arith, ground arith, ground arith, ground arith)

set_name-Calm : (i d : ℕ) (name : Bytes) → Calm (set_name i d name)
unfolding set_name
set_name-Calm i d name now db new a e =
    untouched db new (ground arith, ground arith, ground arith, ground arith)

cascade_device-Calm : (i d : ℕ) → Calm (cascade_device i d)
unfolding cascade_device
cascade_device-Calm i d now db new a e =
    untouched db new (ground arith, ground arith, ground arith, ground arith)

insert_challenge-Calm : (d : ℕ) (nonce : Bytes) (ttl : ℤ) → Calm (insert_challenge d nonce ttl)
unfolding insert_challenge
insert_challenge-Calm d nonce ttl now db new a e =
    untouched db new (ground arith, ground arith, ground arith, ground arith)

use_challenge-Calm : (d : ℕ) (nonce : Bytes) → Calm (use_challenge d nonce)
unfolding use_challenge
use_challenge-Calm d nonce now db new a e h =
    elim (Option-cases (first (is_open_challenge d nonce now) db.auth_challanges)) [
      | inl none_open ↦ absurd (ground arith)
      | inr (x, found) ↦ untouched db new (ground arith, ground arith, ground arith, ground arith) h
    ]

insert_enrollment-Calm :
    (i : ℕ) (hash source : Bytes) (ttl : ℤ) → Calm (insert_enrollment i hash source ttl)
unfolding insert_enrollment
insert_enrollment-Calm i hash source ttl now db new a e =
    untouched db new (ground arith, ground arith, ground arith, ground arith)

use_enrollment-Calm : (hash : Bytes) → Calm (use_enrollment hash)
unfolding use_enrollment
use_enrollment-Calm hash now db new a e h =
    elim (Option-cases (first (is_open_token hash now) db.enrollment_tokens)) [
      | inl none_open ↦ absurd (ground arith)
      | inr (x, found) ↦ untouched db new (ground arith, ground arith, ground arith, ground arith) h
    ]

insert_session-Calm : (i d : ℕ) (hash : Bytes) (ttl : ℤ) → Calm (insert_session i d hash ttl)
unfolding insert_session
insert_session-Calm i d hash ttl now db new a e =
    untouched db new (ground arith, ground arith, ground arith, ground arith)

-- The calls on devices, challenges, tokens and sessions.
pub devices-IsChained :
    (i d : ℕ) (name alg key : Bytes) (c : Conn)
    → IsChained c.db
    → IsChained (tables (create_device i name alg key c))
      × IsChained (tables (touch_device_last_seen d c))
      × IsChained (tables (rename_device i d name c))
      × IsChained (tables (delete_device i d c))
unfolding create_device touch_device_last_seen rename_device delete_device
devices-IsChained i d name alg key c h = (
  IsChained-tables _ (exec-IsChained _ c (insert_device-Calm i name alg key) h),
  IsChained-tables _ (
      exec-IsChained _ c
        (λ now db new a e.
          untouched db new (ground arith, ground arith, ground arith, ground arith))
        h),
  IsChained-tables _ (affected-IsChained _ c (set_name-Calm i d name) h),
  IsChained-tables _ (affected-IsChained _ c (cascade_device-Calm i d) h),
)

pub challenges-IsChained :
    (d : ℕ) (nonce : Bytes) (ttl : ℤ) (c : Conn)
    → IsChained c.db
    → IsChained (tables (create_challenge d nonce ttl c))
      × IsChained (tables (consume_challenge d nonce c))
unfolding create_challenge consume_challenge
challenges-IsChained d nonce ttl c h = (
  IsChained-tables _ (
      translate-IsChained foreign_key_violation not_found _ c (insert_challenge-Calm d nonce ttl)
        h),
  IsChained-tables _ (
      Ends-bind IsChained (λ _. IsChained) (λ _. IsChained) _ _
        (translate-IsChained no_rows challenge_invalid _ c (use_challenge-Calm d nonce) h)
        (λ _ _ g. g)),
)

pub tokens-IsChained :
    (i d : ℕ) (hash source : Bytes) (ttl : ℤ) (keep : Option Bytes) (c : Conn)
    → IsChained c.db
    → IsChained (tables (create_enrollment_token i hash source ttl c))
      × IsChained (tables (consume_enrollment_token hash c))
      × IsChained (tables (create_session i d hash ttl c))
      × IsChained (tables (delete_session hash c))
      × IsChained (tables (delete_sessions i keep c))
unfolding create_enrollment_token consume_enrollment_token create_session delete_session
    delete_sessions
tokens-IsChained i d hash source ttl keep c h = (
  IsChained-tables _ (exec-IsChained _ c (insert_enrollment-Calm i hash source ttl) h),
  IsChained-tables _
      (translate-IsChained no_rows enrollment_invalid _ c (use_enrollment-Calm hash) h),
  IsChained-tables _ (exec-IsChained _ c (insert_session-Calm i d hash ttl) h),
  IsChained-tables _ (
      exec-IsChained _ c
        (λ now db new a e.
          untouched db new (ground arith, ground arith, ground arith, ground arith))
        h),
  IsChained-tables _ (
      exec-IsChained _ c
        (λ now db new a e.
          untouched db new (ground arith, ground arith, ground arith, ground arith))
        h),
)

pub purge_expired-IsChained : (c : Conn) → IsChained c.db → IsChained (tables (purge_expired c))
unfolding purge_expired purge_challenges purge_enrollments purge_sessions
purge_expired-IsChained c h = IsChained-tables _ (
    Ends-bind IsChained (λ _. IsChained) (λ _. IsChained) _ _ (purged purge_challenges c calm₁ h)
      λ _ c₁ h₁.
        Ends-bind IsChained (λ _. IsChained) (λ _. IsChained) _ _
          (purged purge_enrollments c₁ calm₂ h₁)
          λ _ c₂ h₂.
            Ends-bind IsChained (λ _. IsChained) (λ _. IsChained) _ _
              (purged purge_sessions c₂ calm₃ h₂) (λ _ _ g. g))
  where
    purged :
        (s : Statement ℕ) (c : Conn)
        → Calm s
        → IsChained c.db
        → Ends IsChained (λ _. IsChained) (exec s c)
    purged s c calm h = exec-IsChained s c calm h

    calm₁ : Calm purge_challenges
    calm₁ now db new a e = untouched db new (ground arith, ground arith, ground arith, ground arith)

    calm₂ : Calm purge_enrollments
    calm₂ now db new a e = untouched db new (ground arith, ground arith, ground arith, ground arith)

    calm₃ : Calm purge_sessions
    calm₃ now db new a e = untouched db new (ground arith, ground arith, ground arith, ground arith)
