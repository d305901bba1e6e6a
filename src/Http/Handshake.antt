-- ===== src/Http/Handshake.antt =====
-- deployables/backend/internal/httpapi/auth.go: the steps of handleVerify.
use aime.Base.{ℕ, ◌==◌, ◌≡◌, refl, ap, ◌∙◌, ◌∷◌, List, false, some}
use aime.Base.Lists.{first}
use aime.Base.Bytes.{Bytes, bytes}
use aime.Auth.{Verdict, accepted, rejected}
use aime.Store.Schema.{ChallengeRow, Device}
use aime.Store.Accounts.{has_device}
use aime.Store.Auth.{Challenge, consume_challenge, create_session}
use aime.Store.Devices.{get_device, touch_device_last_seen}
use aime.Http.World.{
  error, Response, respond, World, give, on_store, raise_count, best_effort, auth_event, if_missing,
  internal, fail_with, Metric, ◌>>◌,
}
use aime.Http.Rules.{Runs, goes_on, stops, Runs-bind, Runs-store}
use aime.Http.Login.{session_ttl, if_redeemed, require_accepted}
use aime.Http.Redeemed.{
  Redeemed, consume_challenge-Redeemed, get_device-found, Opened, create_session-Opened,
  touch-keeps, if_missing-Runs, if_redeemed-Runs,
}

-- The sessions are as before.
abbrev pub Closed : World → World → Type 0
Closed old w = w.conn.db.sessions ≡ old.conn.db.sessions

-- A refusal, which leaves the sessions, ends in `V`.
module _ (token_hash : Bytes) (old : World) (V : Response → World → Type 0)
    (refusal : (n : ℕ) (m : Bytes) (w : World)
      → (n == 200) ≡ false
      → Closed old w
      → V (respond n (error m)) w) where
  pub refused :
      {A : Type 0} {Q : A → World → Type 0} {n : ℕ} {m : Bytes} (w : World)
      → (n == 200) ≡ false
      → Closed old w
      → Runs V Q (fail_with n m w)
  refused w h f = stops (refusal _ _ w h f)

  count_and_refuse :
      {A : Type 0} {Q : A → World → Type 0} (x : Metric) (n : ℕ) (m : Bytes) (w : World)
      → (n == 200) ≡ false
      → Closed old w
      → Runs V Q ((raise_count x >> fail_with n m) w)
  count_and_refuse {Q} x n m w h f =
      Runs-bind V (λ _. Closed old) Q _ _ (goes_on f) λ _ w' g. refused w' h g

  pub require_accepted-Runs :
      (v : Verdict) (w : World)
      → Closed old w
      → Runs V (λ _ w'. (v ≡ accepted) × (w'.conn.db ≡ w.conn.db)) (require_accepted v w)
  require_accepted-Runs accepted w f = goes_on (refl, refl)
  require_accepted-Runs (rejected e) w f = count_and_refuse _ 401 _ w refl f

  pub redeem :
      (id : ℕ) (nonce : Bytes)
      → Runs V
          (λ ch w.
            Redeemed id nonce old.conn.now old.conn.db w.conn.db ch.device_id × (ch.nonce ≡ nonce))
          (on_store
            (consume_challenge id nonce)
            give
            (if_redeemed (
              raise_count (auth_event (bytes "verify_fail"))
              >> fail_with 400 (bytes "invalid challange")))
            old)
  redeem id nonce =
      Runs-store V Q Q (λ db. db ≡ old.conn.db)
        (λ ch db. Redeemed id nonce old.conn.now old.conn.db db ch.device_id × (ch.nonce ≡ nonce))
        old _ _ _ (consume_challenge-Redeemed id nonce old.conn) (λ ch c h. goes_on h)
        λ e c t.
          if_redeemed-Runs V Q e _ (record old { conn = c })
            (count_and_refuse _ 400 _ (record old { conn = c }) refl (ap (λ db. db.sessions) t))
            (refused (record old { conn = c }) refl (ap (λ db. db.sessions) t))
    where
      Q : Challenge → World → Type 0
      Q ch w =
          Redeemed id nonce old.conn.now old.conn.db w.conn.db ch.device_id × (ch.nonce ≡ nonce)

  pub find :
      (id : ℕ) (w : World)
      → Closed old w
      → Runs V
          (λ d w'. (first (has_device id) w.conn.db.devices ≡ some d) × (w'.conn.db ≡ w.conn.db))
          (on_store (get_device id) give (if_missing (fail_with 400 (bytes "invalid device id"))) w)
  find id w f =
      Runs-store V Q Q (λ db. db ≡ w.conn.db)
        (λ d db. (first (has_device id) w.conn.db.devices ≡ some d) × (db ≡ w.conn.db)) w _ _ _
        (get_device-found id w.conn) (λ d c h. goes_on h)
        λ e c t.
          if_missing-Runs V Q e _ (record w { conn = c })
            (refused (record w { conn = c }) refl (ap (λ db. db.sessions) t ∙ f))
            (refused (record w { conn = c }) refl (ap (λ db. db.sessions) t ∙ f))
    where
      Q : Device → World → Type 0
      Q d w' = (first (has_device id) w.conn.db.devices ≡ some d) × (w'.conn.db ≡ w.conn.db)

  pub open_session :
      (d : Device) (w : World) {cs : List ChallengeRow}
      → Closed old w
      → w.conn.db.auth_challanges ≡ cs
      → Runs V
          (λ _ w'.
            Opened d.account_id d.id (token_hash) old.conn.db.sessions w'.conn.db
            × (w'.conn.db.auth_challanges ≡ cs))
          (on_store
            (create_session d.account_id d.id (token_hash) session_ttl)
            give
            (λ _. internal)
            w)
  open_session d w {cs} f same =
      Runs-store V Q Q (λ db. db ≡ w.conn.db)
        (λ _ db.
          Opened d.account_id d.id (token_hash) w.conn.db.sessions db
          × (db.auth_challanges ≡ w.conn.db.auth_challanges))
        w _ _ _ (create_session-Opened d.account_id d.id (token_hash) session_ttl w.conn)
        (λ _ c ((s, e, a, b, h), k). goes_on ((s, e ∙ ap (λ ss. s ∷ ss) f, a, b, h), k ∙ same))
        (λ e c t. refused (record w { conn = c }) refl (ap (λ db. db.sessions) t ∙ f))
    where
      Q : Unit {0} → World → Type 0
      Q _ w' =
          Opened d.account_id d.id (token_hash) old.conn.db.sessions w'.conn.db
          × (w'.conn.db.auth_challanges ≡ cs)

  pub touch :
      (d : Device) (w : World)
      → Runs V
          (λ _ w'.
            (w'.conn.db.sessions ≡ w.conn.db.sessions)
            × (w'.conn.db.auth_challanges ≡ w.conn.db.auth_challanges))
          (best_effort (touch_device_last_seen d.id) w)
  touch d w =
      Runs-store V Q Q
        (λ db.
          (db.sessions ≡ w.conn.db.sessions) × (db.auth_challanges ≡ w.conn.db.auth_challanges))
        (λ _ db.
          (db.sessions ≡ w.conn.db.sessions) × (db.auth_challanges ≡ w.conn.db.auth_challanges))
        w _ _ _ (touch-keeps d.id w.conn) (λ _ c h. goes_on h) (λ _ c h. goes_on h)
    where
      Q : Unit {0} → World → Type 0
      Q _ w' =
          (w'.conn.db.sessions ≡ w.conn.db.sessions)
          × (w'.conn.db.auth_challanges ≡ w.conn.db.auth_challanges)
