-- ===== src/Http/Redeemed.antt =====
-- deployables/backend/internal/store/auth.go and devices.go: what the statements behind handleVerify
-- leave in the tables.
use aime.Base.{
  ℕ, ◌≡◌, refl, ap, ◌∙◌, inl, inr, ◌∷◌, [], List, true, ◌&&◌, none, some, Bool-cases, Option-cases,
  arith,
}
use aime.Base.Lists.{update, first, exists}
use aime.Base.Int.{ℤ, ◌≤ℤ◌, ◌+ℤ◌}
use aime.Base.Bytes.{Bytes}
use aime.Store.Schema.{ChallengeRow, SessionRow, Db}
use aime.Store.Query.{
  Conn, ok, StoreError, no_rows, not_found, email_taken, challenge_invalid, enrollment_invalid,
  backup_limit, backup_in_use, backup_stale, backup_boundary, storage_quota, storage_full, pg,
}
use aime.Store.Query.Rules.{Ends, Ends-exec, Ends-bind, Ends-translate}
use aime.Store.Accounts.{has_device}
use aime.Store.Billing.{account_exists}
use aime.Store.Auth.{
  has_token, is_open_challenge, use_challenge, consume_challenge, create_session, insert_session,
}
use aime.Store.Devices.{get_device, touch_device_last_seen}
use aime.Http.World.{Response, World, Handler, if_missing, internal}
use aime.Http.Rules.{Runs}
use aime.Http.Login.{if_redeemed}

abbrev pub Now : Db → Type 0
Now _ = Unit {0}

-- A challenge that was redeemed: open before, and never again at that time or later.
pub record Redeemed (id : ℕ) (nonce : Bytes) (now : ℤ) (old new : Db) (device_id : ℕ) : Type 0 where
  pub was_open :
      (c : ChallengeRow) × (first (is_open_challenge id nonce now) old.auth_challanges ≡ some c)
      × (c.device_id ≡ device_id)
  pub closed : (t : ℤ) → now ≤ℤ t → first (is_open_challenge id nonce t) new.auth_challanges ≡ none
  pub sessions : new.sessions ≡ old.sessions
  pub devices : new.devices ≡ old.devices

pub update-closes :
    (id : ℕ) (nonce : Bytes) (now t : ℤ) (cs : List ChallengeRow)
    → now ≤ℤ t
    → first
        (is_open_challenge id nonce t)
        (update (is_open_challenge id nonce now) (λ x. record x { used = true }) cs)
      ≡ none
update-closes id nonce now t [] h = refl
update-closes id nonce now t (c ∷ cs) h = ground (arith, update-closes id nonce now t cs h)

pub use_challenge-Redeemed :
    (id : ℕ) (nonce : Bytes) (now : ℤ) (db new : Db) (device_id : ℕ)
    → use_challenge id nonce now db ≡ ok (device_id, new)
    → Redeemed id nonce now db new device_id
unfolding use_challenge
use_challenge-Redeemed id nonce now db new device_id h =
    elim (Option-cases (first (is_open_challenge id nonce now) db.auth_challanges)) [
      | inl e ↦ absurd (ground arith)
      | inr (c, e) ↦
          let rows : new.auth_challanges
              ≡ update (is_open_challenge id nonce now) (λ x. record x { used = true })
                  db.auth_challanges =
            ground arith in
          record {
            was_open = (c, e, ground arith);
            closed = λ t later.
                ap (first (is_open_challenge id nonce t)) rows
                ∙ update-closes id nonce now t db.auth_challanges later;
            sessions = ground arith;
            devices = ground arith;
          }
    ]

pub consume_challenge-Redeemed :
    (id : ℕ) (nonce : Bytes) (c : Conn)
    → Ends
        (λ db. db ≡ c.db)
        (λ ch db. Redeemed id nonce c.now c.db db ch.device_id × (ch.nonce ≡ nonce))
        (consume_challenge id nonce c)
unfolding consume_challenge
consume_challenge-Redeemed id nonce c =
    Ends-bind (λ db. db ≡ c.db) (λ d db. Redeemed id nonce c.now c.db db d)
      (λ ch db. Redeemed id nonce c.now c.db db ch.device_id × (ch.nonce ≡ nonce)) _ _
      (Ends-translate (λ db. db ≡ c.db) (λ d db. Redeemed id nonce c.now c.db db d) no_rows
        challenge_invalid (use_challenge id nonce) c refl
        λ d db e. use_challenge-Redeemed id nonce c.now c.db db d e)
      λ d c' r. (r, refl)

-- The device that `GetDevice` reads.
pub get_device-found :
    (id : ℕ) (c : Conn)
    → Ends
        (λ db. db ≡ c.db)
        (λ d db. (first (has_device id) c.db.devices ≡ some d) × (db ≡ c.db))
        (get_device id c)
unfolding get_device
get_device-found id c =
    Ends-translate (λ db. db ≡ c.db)
      (λ d db. (first (has_device id) c.db.devices ≡ some d) × (db ≡ c.db)) no_rows not_found _ c
      refl
      λ d db e. elim (Option-cases (first (has_device id) c.db.devices)) [
        | inl none_found ↦ absurd (ground arith)
        | inr (x, found) ↦ (found ∙ ap some (ground arith), ground arith)
      ]

-- A session that was opened for an account, a device and a token, before those there were.
abbrev pub Opened : ℕ → ℕ → Bytes → List SessionRow → Db → Type 0
Opened account_id device_id h old db =
    (s : SessionRow) × (db.sessions ≡ s ∷ old)
    × (s.account_id ≡ account_id)
    × (s.device_id ≡ device_id)
    × (s.token_hash ≡ h)

pub insert_session-Opened :
    (account_id device_id : ℕ) (h : Bytes) (ttl now : ℤ) (old new : Db) (u : Unit {0})
    → insert_session account_id device_id h ttl now old ≡ ok (u, new)
    → Opened account_id device_id h old.sessions new × (new.auth_challanges ≡ old.auth_challanges)
unfolding insert_session
insert_session-Opened account_id device_id h ttl now old new u e =
    elim (Bool-cases (exists (has_token h) old.sessions)) [
      | inl taken ↦ absurd (ground arith)
      | inr free ↦
          elim (Bool-cases
            (account_exists account_id old && exists (has_device device_id) old.devices)) [
              | inl known ↦ (
                (
                  record {
                    id = old.next_session;
                    account_id = account_id;
                    device_id = device_id;
                    token_hash = h;
                    expires_at = now +ℤ ttl;
                    created_at = now;
                  },
                  ground arith,
                  refl,
                  refl,
                  refl,
                ),
                ground arith,
              )
              | inr unknown ↦ absurd (ground arith)
            ]
    ]

pub create_session-Opened :
    (account_id device_id : ℕ) (h : Bytes) (ttl : ℤ) (c : Conn)
    → Ends
        (λ db. db ≡ c.db)
        (λ _ db.
          Opened account_id device_id h c.db.sessions db
          × (db.auth_challanges ≡ c.db.auth_challanges))
        (create_session account_id device_id h ttl c)
unfolding create_session
create_session-Opened account_id device_id h ttl c =
    Ends-exec (λ db. db ≡ c.db) _ (insert_session account_id device_id h ttl) c refl
      λ u db e. insert_session-Opened account_id device_id h ttl c.now c.db db u e

pub touch-keeps :
    (id : ℕ) (c : Conn)
    → Ends
        (λ db. (db.sessions ≡ c.db.sessions) × (db.auth_challanges ≡ c.db.auth_challanges))
        (λ _ db. (db.sessions ≡ c.db.sessions) × (db.auth_challanges ≡ c.db.auth_challanges))
        (touch_device_last_seen id c)
unfolding touch_device_last_seen
touch-keeps id c = Ends-exec _ _ _ c (refl, refl) λ _ db e. (ground arith, ground arith)

module _ {A : Type 0} (E : Response → World → Type 0) (Q : A → World → Type 0) where
  pub if_missing-Runs :
      (e : StoreError) (m : Handler A) (w : World)
      → Runs E Q (m w)
      → Runs E Q (internal w)
      → Runs E Q (if_missing m e w)
  if_missing-Runs not_found m w h k = h
  if_missing-Runs email_taken m w h k = k
  if_missing-Runs challenge_invalid m w h k = k
  if_missing-Runs enrollment_invalid m w h k = k
  if_missing-Runs backup_limit m w h k = k
  if_missing-Runs backup_in_use m w h k = k
  if_missing-Runs backup_stale m w h k = k
  if_missing-Runs backup_boundary m w h k = k
  if_missing-Runs storage_quota m w h k = k
  if_missing-Runs storage_full m w h k = k
  if_missing-Runs (pg p) m w h k = k

  pub if_redeemed-Runs :
      (e : StoreError) (m : Handler A) (w : World)
      → Runs E Q (m w)
      → Runs E Q (internal w)
      → Runs E Q (if_redeemed m e w)
  if_redeemed-Runs not_found m w h k = k
  if_redeemed-Runs email_taken m w h k = k
  if_redeemed-Runs challenge_invalid m w h k = h
  if_redeemed-Runs enrollment_invalid m w h k = k
  if_redeemed-Runs backup_limit m w h k = k
  if_redeemed-Runs backup_in_use m w h k = k
  if_redeemed-Runs backup_stale m w h k = k
  if_redeemed-Runs backup_boundary m w h k = k
  if_redeemed-Runs storage_quota m w h k = k
  if_redeemed-Runs storage_full m w h k = k
  if_redeemed-Runs (pg p) m w h k = k
