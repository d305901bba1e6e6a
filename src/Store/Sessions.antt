-- ===== src/Store/Sessions.antt =====
-- deployables/backend/internal/store/auth.go: the sessions as a client of the store sees them, a map
-- from token hashes, beside the table that holds them.
pub mod Unique
pub mod Refines
use aime.Base.{
  ℕ, Bool, true, false, not, ◌&&◌, ◌==◌, Option, none, some, List, [], ◌∷◌, if◌then◌else◌,
}
use aime.Base.Lists.{first}
use aime.Base.Int.{ℤ, ◌+ℤ◌, ltb_ℤ}
use aime.Base.Bytes.{Bytes, bytes_eq}
use aime.Store.Schema.{SessionRow}
use aime.Store.Query.{
  Conn, Result, ok, err, pg, not_found, unique_violation, foreign_key_violation, head_fault,
  tail_faults, StoreError, no_rows, outage, out_of_range,
}
use aime.Store.Auth.{
  Session, create_session, delete_session, delete_sessions, session_by_token_hash, has_token,
}

-- What the server asks of the sessions, and what it learns.
pub data SessionOp : Type 0 where
  open_session : ℕ → ℕ → Bytes → ℤ → SessionOp
  close_session : Bytes → SessionOp
  close_sessions : ℕ → Option Bytes → SessionOp
  find_session : Bytes → SessionOp

pub data Answer : Type 0 where
  opened closed missing failed : Answer
  found : Session → Answer
  refused : StoreError → Answer

-- An operation at its time.
pub record Event : Type 0 where
  pub time : ℤ
  pub op : SessionOp

abbrev pub Sessions : Type 0
Sessions = Bytes → Option Session

abbrev pub session_in : SessionRow → Session
session_in s = record { account_id = s.account_id; device_id = s.device_id; expires = s.expires_at }

abbrev pub map_session : Option SessionRow → Option Session
map_session none = none
map_session (some s) = some (session_in s)

-- The map that a table stands for.
abbrev pub view : List SessionRow → Sessions
view rows h = map_session (first (has_token h) rows)

-- `$2::bytea IS NULL OR token_hash <> $2`
abbrev pub is_kept : Option Bytes → Bytes → Bool
is_kept none h = false
is_kept (some keep) h = bytes_eq h keep

abbrev pub dropped : ℕ → Option Bytes → Bytes → Option Session → Option Session
dropped account_id keep h none = none
dropped account_id keep h (some s) =
    if (s.account_id == account_id) && not (is_kept keep h) then none else some s

abbrev pub live : ℤ → Option Session → Answer
live now none = refused not_found
live now (some s) = if ltb_ℤ now s.expires then found s else refused not_found

module _ (owns : ℕ → ℕ → Bool) where
  abbrev add : ℕ → ℕ → Bytes → ℤ → Sessions → Option Session → Answer × Sessions
  add account_id device_id h expires m (some s) = (refused (pg unique_violation), m)
  add account_id device_id h expires m none =
      if owns account_id device_id
      then (
        opened,
        λ k.
            if bytes_eq h k
            then some (record { account_id = account_id; device_id = device_id; expires = expires })
            else m k,
      )
      else (refused (pg foreign_key_violation), m)

  -- The abstract sessions: what an operation answers, and the map behind it.
  unfoldable pub on_map : ℤ → SessionOp → Sessions → Answer × Sessions
  on_map now (open_session account_id device_id h ttl) m =
      add account_id device_id h (now +ℤ ttl) m (m h)
  on_map now (close_session h) m = (closed, λ k. if bytes_eq k h then none else m k)
  on_map now (close_sessions account_id keep) m = (closed, λ k. dropped account_id keep k (m k))
  on_map now (find_session h) m = (live now (m h), m)

  -- A failing connection changes nothing.
  unfoldable pub replay : List Event → List Bool → Sessions → List Answer
  replay [] faults m = []
  replay (e ∷ es) faults m =
      let (a, m') = if head_fault faults then (refused (pg outage), m) else on_map e.time e.op m in
      a ∷ replay es (tail_faults faults) m'

abbrev pub answered : {A : Type 0} → (A → Answer) → Result A × Conn → Answer × Conn
answered f (ok a, c) = (f a, c)
answered f (err e, c) = (refused e, c)

-- The same operation as a call of the store.
unfoldable pub on_store : SessionOp → Conn → Answer × Conn
on_store (open_session account_id device_id h ttl) c =
    answered (λ _. opened) (create_session account_id device_id h ttl c)
on_store (close_session h) c = answered (λ _. closed) (delete_session h c)
on_store (close_sessions account_id keep) c =
    answered (λ _. closed) (delete_sessions account_id keep c)
on_store (find_session h) c = answered found (session_by_token_hash h c)

unfoldable pub run_events : List Event → Conn → List Answer
run_events [] c = []
run_events (e ∷ es) c =
    let (a, c') = on_store e.op (record c { now = e.time }) in a ∷ run_events es c'
