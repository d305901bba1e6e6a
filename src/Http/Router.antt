-- ===== src/Http/Router.antt =====
-- deployables/backend/internal/httpapi/router.go: the routes, and what stands before their handlers.
use aime.Base.{
  ◌&&◌, ◌||◌, Bool, true, false, ◌≡◌, ◌⊎◌, inl, inr, refl, sym, subst, Bool-cases, &&-true, Option,
  none, List, [], ◌∷◌, arith,
}
use aime.Base.Member.{In}
use aime.Base.Bytes.{Bytes, bytes, bytes_eq}
use aime.Auth.{Crypto}
use aime.Http.World.{World, Handler, Identity, require_auth, proceed, when}
use aime.Http.Rules.{stops}
use aime.Http.Limiter.{rate_limit}
use aime.Http.Session.{LetThrough, Denied, require_auth-LetThrough}

-- No wrapper, `strict`, `public`, `auth`, and `strict` around `auth`.
pub data Guard : Type 0 where
  open_to_all strict public auth strict_auth : Guard

pub record Route : Type 0 where
  pub method : Bytes
  pub pattern : Bytes
  pub guard : Guard

abbrev route : Bytes → Bytes → Guard → Route
route method pattern guard = record { method = method; pattern = pattern; guard = guard }

-- `Routes`
unfoldable pub routes : List Route
routes =
    route (bytes "GET") (bytes "/healthz") open_to_all
    ∷ route (bytes "GET") (bytes "/readyz") open_to_all
    ∷ route (bytes "GET") (bytes "/metrics") open_to_all
    ∷ route (bytes "POST") (bytes "/v1/accounts") strict
    ∷ route (bytes "POST") (bytes "/v1/auth/password") strict
    ∷ route (bytes "POST") (bytes "/v1/devices") public
    ∷ route (bytes "POST") (bytes "/v1/auth/challange") public
    ∷ route (bytes "POST") (bytes "/v1/auth/verify") public
    ∷ route (bytes "POST") (bytes "/v1/auth/logout") auth
    ∷ route (bytes "POST") (bytes "/v1/auth/logout-all") auth
    ∷ route (bytes "POST") (bytes "/v1/enrollment-tokens") strict_auth
    ∷ route (bytes "GET") (bytes "/v1/devices") auth
    ∷ route (bytes "PATCH") (bytes "/v1/devices/{id}") auth
    ∷ route (bytes "DELETE") (bytes "/v1/devices/{id}") auth
    ∷ route (bytes "GET") (bytes "/v1/account") auth
    ∷ route (bytes "GET") (bytes "/v1/account/usage") auth
    ∷ route (bytes "POST") (bytes "/v1/account/password") strict_auth
    ∷ route (bytes "DELETE") (bytes "/v1/account") strict_auth
    ∷ route (bytes "POST") (bytes "/v1/embed") auth
    ∷ route (bytes "POST") (bytes "/v1/rerank") auth
    ∷ route (bytes "GET") (bytes "/v1/backups") auth
    ∷ route (bytes "POST") (bytes "/v1/backups") auth
    ∷ route (bytes "GET") (bytes "/v1/backups/{id}") auth
    ∷ route (bytes "DELETE") (bytes "/v1/backups/{id}") auth
    ∷ route (bytes "DELETE") (bytes "/v1/backups") auth
    ∷ []

-- The request for which no session is asked: health and metrics, sign up and the ways to log in.
abbrev pub is_public : Route → Bool
is_public r =
    (bytes_eq r.method (bytes "GET")
      && (bytes_eq r.pattern (bytes "/healthz")
          || bytes_eq r.pattern (bytes "/readyz")
          || bytes_eq r.pattern (bytes "/metrics")))
    || (bytes_eq r.method (bytes "POST")
        && (bytes_eq r.pattern (bytes "/v1/accounts")
            || bytes_eq r.pattern (bytes "/v1/auth/password")
            || bytes_eq r.pattern (bytes "/v1/devices")
            || bytes_eq r.pattern (bytes "/v1/auth/challange")
            || bytes_eq r.pattern (bytes "/v1/auth/verify")))

-- A handler behind its wrappers; `allowed` is what the limiter of the wrapper says.
unfoldable pub guarded :
    Crypto
    → Guard
    → Bool
    → Option Bytes
    → (Option Identity → Handler (Unit {0}))
    → Handler (Unit {0})
guarded crypto open_to_all allowed token handler = handler none
guarded crypto strict allowed token handler = rate_limit allowed (handler none)
guarded crypto public allowed token handler = rate_limit allowed (handler none)
guarded crypto auth allowed token handler = require_auth crypto token handler
guarded crypto strict_auth allowed token handler =
    rate_limit allowed (require_auth crypto token handler)

abbrev asks_session : Guard → Bool
asks_session auth = true
asks_session strict_auth = true
asks_session _ = false

abbrev all_ask : List Route → Bool
all_ask [] = true
all_ask (r ∷ rs) = (is_public r || asks_session r.guard) && all_ask rs

all_ask-In :
    (rs : List Route) (r : Route)
    → all_ask rs ≡ true
    → In r rs
    → is_public r ≡ false
    → asks_session r.guard ≡ true
all_ask-In [] r a i p = absurd i
all_ask-In (x ∷ xs) r a (inr i) p =
    let (h, t) = &&-true (is_public x || asks_session x.guard) (all_ask xs) a in
    all_ask-In xs r t i p
all_ask-In (x ∷ xs) r a (inl e) p =
    let (h, t) = &&-true (is_public x || asks_session x.guard) (all_ask xs) a in
    one r (subst (λ y. (is_public y || asks_session y.guard) ≡ true) (sym e) h) p
  where
    one :
        (y : Route)
        → (is_public y || asks_session y.guard) ≡ true
        → is_public y ≡ false
        → asks_session y.guard ≡ true
    one y h p = rw p at h

routes_ask : all_ask routes ≡ true
unfolding routes bytes_eq
routes_ask = refl

module _ (crypto : Crypto) (allowed : Bool) (token : Option Bytes)
    (handler : Option Identity → Handler (Unit {0})) (w : World) where
  guarded-LetThrough :
      (g : Guard)
      → asks_session g ≡ true
      → LetThrough crypto handler w token (guarded crypto g allowed token handler w)
        ⊎ Denied crypto handler w (guarded crypto g allowed token handler w)
  unfolding guarded rate_limit proceed when
  guarded-LetThrough open_to_all h = absurd (ground arith)
  guarded-LetThrough strict h = absurd (ground arith)
  guarded-LetThrough public h = absurd (ground arith)
  guarded-LetThrough auth h = require_auth-LetThrough crypto handler w token
  guarded-LetThrough strict_auth h = elim (Bool-cases allowed) [
    | inl e ↦ rw e (require_auth-LetThrough crypto handler w token)
    | inr e ↦ rw e (inr (stops (refl, refl)))
  ]

  -- Behind every route but those of health, metrics, sign up and login, whatever the limiter says, the
  -- handler runs only for the bearer of a live session, or the request is refused and no table changes.
  pub routes-LetThrough :
      (r : Route)
      → In r routes
      → is_public r ≡ false
      → LetThrough crypto handler w token (guarded crypto r.guard allowed token handler w)
        ⊎ Denied crypto handler w (guarded crypto r.guard allowed token handler w)
  routes-LetThrough r i p = guarded-LetThrough r.guard (all_ask-In routes r routes_ask i p)
