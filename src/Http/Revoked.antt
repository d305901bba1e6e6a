-- ===== src/Http/Revoked.antt =====
-- deployables/backend/internal/httpapi/auth.go and devices.go: logout and logout-all, and the requests
-- behind them.
use aime.Base.{
  arith, ℕ, ◌==◌, ◌≢◌, Bool, true, false, ◌≡◌, ◌⊎◌, inl, inr, refl, sym, subst, ◌∙◌, ap, ==-refl,
  Option, none, some, Bool-cases, List,
}
use aime.Base.Lists.{delete}
use aime.Base.Member.{In, In-delete}
use aime.Base.Bytes.{Bytes, bytes_eq, bytes_eq_refl}
use aime.Auth.{Crypto, hash_token}
use aime.Store.Schema.{SessionRow}
use aime.Store.Query.{head_fault, exec}
use aime.Store.Accounts.{session_of}
use aime.Store.Auth.{delete_session, delete_sessions, has_token, is_revoked}
use aime.Http.World.{World, respond, no_content, Handler, Identity, require_auth, proceed, answer}
use aime.Http.Rules.{Runs, stops}
use aime.Http.Encoded.{is_ok}
use aime.Http.Session.{LetThrough, Denied, require_auth-LetThrough}
use aime.Http.Account.{handle_logout, handle_logout_all}

-- A session token that no row has is no session.
abbrev HasNoRow : Bytes → List SessionRow → Type 0
HasNoRow h rows = (s : SessionRow) → In s rows → has_token h s ≡ false

some_inj : {a b : Bytes} → some a ≡ some b → a ≡ b
some_inj e = cc

all_revoked :
    (account_id : ℕ) (s : SessionRow)
    → is_revoked account_id none s ≡ false
    → session_of account_id s ≡ false
all_revoked account_id s h = ground arith

clash : {b : Bool} → b ≡ true → b ≡ false → ⊥
clash q h = cc

module _ (crypto : Crypto) {A : Type 0} (handler : Option Identity → Handler A) where
  -- Every request with the token is refused while no session is added.
  abbrev pub Shuts : Bytes → List SessionRow → Type 0
  Shuts bearer rows =
      (v : World)
      → ((s : SessionRow) → In s v.conn.db.sessions → In s rows)
      → Denied crypto handler v (require_auth crypto (some bearer) handler v)

  no_row-Shuts :
      (bearer : Bytes) (rows : List SessionRow)
      → HasNoRow (hash_token crypto bearer) rows
      → Shuts bearer rows
  no_row-Shuts bearer rows none_left v below =
      elim (require_auth-LetThrough crypto handler v (some bearer)) [
        | inr d ↦ d
        | inl l ↦
            let k = l.session in
            absurd (
              clash
                (subst (λ x. bytes_eq x (hash_token crypto bearer) ≡ true)
                  (sym (k.hashed ∙ ap (hash_token crypto) (some_inj (sym k.sent))))
                  (bytes_eq_refl (hash_token crypto bearer)))
                (none_left k.row (below k.row k.member)))
      ]

  -- A logout that is answered by a 204 shuts the session's token out for good, until a session
  -- is added; any other answer leaves the tables as they were.
  pub handle_logout-Shuts :
      (bearer : Bytes) (me : Identity) (w : World)
      → me.token_hash ≡ hash_token crypto bearer
      → Runs
          (λ r new.
            ((r ≡ respond 204 no_content) × Shuts bearer new.conn.db.sessions)
            ⊎ ((r ≢ respond 204 no_content) × (new.conn.db ≡ w.conn.db)))
          (λ _ _. ⊥)
          (handle_logout (some me) w)
  unfolding handle_logout proceed answer delete_session exec
  handle_logout-Shuts bearer me w h = elim (Bool-cases (head_fault w.conn.faults)) [
    | inl f ↦ rw f (stops (inr ((λ e. cc), refl)))
    | inr f ↦ rw f (
        stops (
          inl (
            refl,
            no_row-Shuts bearer (delete (has_token me.token_hash) w.conn.db.sessions) λ s i.
                subst (λ x. has_token x s ≡ false) h
                  (In-delete (has_token me.token_hash) s w.conn.db.sessions i).1,
          )))
  ]

  -- No request runs the handler for a session of the account while no session is added.
  abbrev pub ShutsAll : ℕ → List SessionRow → Type 0
  ShutsAll account_id rows =
      (v : World) (token : Option Bytes)
      → ((s : SessionRow) → In s v.conn.db.sessions → In s rows)
      → Denied crypto handler v (require_auth crypto token handler v)
        ⊎ ((l : LetThrough crypto handler v token (require_auth crypto token handler v))
            × (l.me.account_id ≢ account_id))

  no_rows-ShutsAll :
      (account_id : ℕ) (rows : List SessionRow)
      → ((s : SessionRow) → In s rows → session_of account_id s ≡ false)
      → ShutsAll account_id rows
  no_rows-ShutsAll account_id rows none_left v token below =
      elim (require_auth-LetThrough crypto handler v token) [
        | inr d ↦ inl d
        | inl l ↦
            let k = l.session in
            inr (
              l,
              λ e.
                  clash
                    (subst (λ x. (x == account_id) ≡ true)
                      (sym (sym (ap (λ (i : Identity). i.account_id) k.identity) ∙ e))
                      (==-refl account_id))
                    (none_left k.row (below k.row k.member)),
            )
      ]

  -- A logout of all devices that is answered by a 200 shuts every session of the account out for good,
  -- until a session is added; any other answer leaves the tables as they were.
  pub handle_logout_all-ShutsAll :
      (me : Identity) (w : World)
      → Runs
          (λ r new.
            ((is_ok r ≡ true) × ShutsAll me.account_id new.conn.db.sessions)
            ⊎ ((is_ok r ≡ false) × (new.conn.db ≡ w.conn.db)))
          (λ _ _. ⊥)
          (handle_logout_all (some me) w)
  unfolding handle_logout_all proceed answer delete_sessions exec
  handle_logout_all-ShutsAll me w = elim (Bool-cases (head_fault w.conn.faults)) [
    | inl f ↦ rw f (stops (inr (refl, refl)))
    | inr f ↦ rw f (
        stops (
          inl (
            refl,
            no_rows-ShutsAll me.account_id
                (delete (is_revoked me.account_id none) w.conn.db.sessions)
                λ s i.
                  all_revoked me.account_id s
                    (In-delete (is_revoked me.account_id none) s w.conn.db.sessions i).1,
          )))
  ]
