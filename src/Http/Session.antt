-- ===== src/Http/Session.antt =====
-- deployables/backend/internal/httpapi/middleware.go: what RequireAuth lets through.
use aime.Base.{
  true, false, ◌≡◌, ◌⊎◌, inl, inr, refl, &&-true, Option, none, some, Option-cases, Bool-cases, [],
  ◌∷◌,
}
use aime.Base.Int.{ltb_ℤ}
use aime.Base.Lists.{first}
use aime.Base.Member.{In, first-some}
use aime.Base.Bytes.{Bytes, eq_of_bytes_eq}
use aime.Auth.{Crypto, hash_token}
use aime.Store.Schema.{SessionRow}
use aime.Store.Query.{Conn, exec, head_fault, tail_faults}
use aime.Store.Auth.{session_by_token_hash, read_session, is_live_session, has_token}
use aime.Http.World.{World, Response, Step, Handler, Identity, require_auth, answer}
use aime.Http.Rules.{Runs, stops}
use aime.Http.Encoded.{is_ok}

-- The row of a session that is live.
pub record IsLive (crypto : Crypto) (token : Option Bytes) (w : World) (me : Identity)
    : Type 0 where
  pub bearer : Bytes
  pub row : SessionRow
  pub sent : token ≡ some bearer
  pub member : In row w.conn.db.sessions
  pub hashed : row.token_hash ≡ hash_token crypto bearer
  pub live : ltb_ℤ w.conn.now row.expires_at ≡ true
  pub identity : me ≡ record {
    account_id = row.account_id;
    token_hash = hash_token crypto bearer;
    device_id = row.device_id;
  }

module _ (crypto : Crypto) {A : Type 0} (handler : Option Identity → Handler A) (w : World) where
  -- The handler runs for the session of the token, on the same tables.
  pub record LetThrough (token : Option Bytes) (r : Step Response A × World) : Type 0 where
    pub me : Identity
    pub conn : Conn
    pub session : IsLive crypto token w me
    pub tables : conn.db ≡ w.conn.db
    pub runs : r ≡ handler (some me) (record w { conn = conn })

  abbrev pub Denied : Step Response A × World → Type 0
  Denied r = Runs (λ x w'. (is_ok x ≡ false) × (w'.conn.db ≡ w.conn.db)) (λ _ _. ⊥) r

  -- A handler behind RequireAuth runs only for the bearer of a session's token, before the session
  -- expires, and with that session's account and device; any other request is refused and changes no
  -- table.
  pub require_auth-LetThrough :
      (token : Option Bytes)
      → LetThrough token (require_auth crypto token handler w)
        ⊎ Denied (require_auth crypto token handler w)
  unfolding require_auth answer session_by_token_hash exec read_session
  require_auth-LetThrough none = inr (stops (refl, refl))
  require_auth-LetThrough (some []) = inr (stops (refl, refl))
  require_auth-LetThrough (some (b ∷ bs)) =
      let h = hash_token crypto (b ∷ bs) in
      elim (Bool-cases (head_fault w.conn.faults)) [
        | inl f ↦ rw f (inr (stops (refl, refl)))
        | inr f ↦ elim (Option-cases (first (is_live_session h w.conn.now) w.conn.db.sessions)) [
          | inl e ↦ rw (f, read_session, e) (inr (stops (refl, refl)))
          | inr (s, e) ↦
              let (member, test) =
                first-some (is_live_session h w.conn.now) s w.conn.db.sessions e in
              let (same, live) = &&-true (has_token h s) (ltb_ℤ w.conn.now s.expires_at) test in
              rw (f, read_session, e)
                (inl (record {
                  me = record {
                    account_id = s.account_id;
                    token_hash = h;
                    device_id = s.device_id;
                  };
                  conn = record w.conn { faults = tail_faults w.conn.faults };
                  session = record {
                    bearer = b ∷ bs;
                    row = s;
                    sent = refl;
                    member = member;
                    hashed = eq_of_bytes_eq s.token_hash h same;
                    live = live;
                    identity = refl;
                  };
                  tables = refl;
                  runs = refl;
                }))
        ]
      ]
