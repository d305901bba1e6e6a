-- ===== src/Tests/Requests.antt =====
-- Requests of a live session, and the usage of an account.
use aime.Base.{◌≡◌, ◌⊎◌, ◌≢◌, refl, true, false, Bool, Option, some, List, [], ◌∷◌, inl, inr}
use aime.Base.Bytes.{Bytes, bytes, bytes_eq}
use aime.Auth.{hash_token}
use aime.Base.Int.{ℤ, pos}
use aime.Store.Schema.{UsageEvent, UsageEventRow, SessionRow}
use aime.Store.Query.{Conn, head_fault}
use aime.Store.Query.Rules.{Ends}
use aime.Store.Usage.{UsageRow, usage_summary}
use aime.Store.Usage.Groups.{Summed}
use aime.Store.Usage.Summed.{TooBig, usage_summary-Summed}
use aime.Http.World.{World, Handler, Identity, require_auth, reply, respond, no_content}
use aime.Http.Rules.{Runs}
use aime.Http.Encoding.{RerankRequest}
use aime.Http.Encoded.{is_ok}
use aime.Http.Session.{LetThrough, Denied, require_auth-LetThrough}
use aime.Http.Account.{handle_logout, handle_logout_all}
use aime.Http.Revoked.{Shuts, ShutsAll, handle_logout-Shuts, handle_logout_all-ShutsAll}
use aime.Http.Router.{Route, routes, auth, guarded, routes-LetThrough}
use aime.Tests.{world, me, crypto}

abbrev event : Bytes → ℤ → UsageEventRow
event kind price = record {
  id = 1;
  account_id = 1;
  event = record {
    kind = kind;
    model = bytes "m";
    backend = bytes "stub";
    quantity = pos 10;
    unit = bytes "tokens";
    cost_microcredits = price;
  };
  created_at = pos 20;
}

abbrev events : List UsageEventRow
events =
    event (bytes "embed") (pos 3)
    ∷ event (bytes "rerank") (pos 4)
    ∷ event (bytes "embed") (pos 5)
    ∷ []

abbrev before : UsageEvent → UsageRow → Bool
before e r = true

abbrev used : Conn
used = record world.conn { db = record world.conn.db { usage_events = events } }

usage_summary-Summed_example :
    Ends
      (λ db.
        (db ≡ used.db) × ((head_fault used.faults ≡ true) ⊎ TooBig 1 (pos 10) used.db.usage_events))
      (λ rows db. (db ≡ used.db) × Summed 1 (pos 10) used.db.usage_events rows)
      (usage_summary before 1 (pos 10) used)
usage_summary-Summed_example = usage_summary-Summed before 1 (pos 10) used

abbrev texts : List Bytes
texts = bytes "a" ∷ bytes "b" ∷ []

abbrev question : RerankRequest
question = record { query = bytes "q"; docs = texts; top_k = pos 1 }

abbrev session : SessionRow
session = record {
  id = 1;
  account_id = 1;
  device_id = 1;
  token_hash = bytes "t";
  expires_at = pos 100;
  created_at = pos 10;
}

abbrev known : World
known = record world {
  conn = record world.conn { db = record world.conn.db { sessions = session ∷ [] } };
}

abbrev handler : Option Identity → Handler (Unit {0})
handler ctx = reply 204 no_content

require_auth-LetThrough_example :
    LetThrough crypto handler known
      (some (bytes "t"))
      (require_auth crypto (some (bytes "t")) handler known)
    ⊎ Denied crypto handler known (require_auth crypto (some (bytes "t")) handler known)
require_auth-LetThrough_example = require_auth-LetThrough crypto handler known (some (bytes "t"))

abbrev list_devices : Route
list_devices = record { method = bytes "GET"; pattern = bytes "/v1/devices"; guard = auth }

routes-LetThrough_example :
    LetThrough crypto handler known
      (some (bytes "t"))
      (guarded crypto auth true (some (bytes "t")) handler known)
    ⊎ Denied crypto handler known (guarded crypto auth true (some (bytes "t")) handler known)
unfolding routes bytes_eq
routes-LetThrough_example =
    routes-LetThrough crypto true (some (bytes "t")) handler known list_devices
      (inr (inr (inr (inr (inr (inr (inr (inr (inr (inr (inr (inl refl)))))))))))) refl

-- The token of the session `me` acts on, as hash and as sent.
abbrev own_session : SessionRow
own_session = record session { token_hash = bytes "h" }

abbrev own : World
own = record world {
  conn = record world.conn { db = record world.conn.db { sessions = own_session ∷ session ∷ [] } };
}

handle_logout-Shuts_example :
    Runs
      (λ r new.
        ((r ≡ respond 204 no_content) × Shuts crypto handler (bytes "h") new.conn.db.sessions)
        ⊎ ((r ≢ respond 204 no_content) × (new.conn.db ≡ own.conn.db)))
      (λ _ _. ⊥)
      (handle_logout (some me) own)
unfolding hash_token
handle_logout-Shuts_example = handle_logout-Shuts crypto handler (bytes "h") me own refl

handle_logout_all-ShutsAll_example :
    Runs
      (λ r new.
        ((is_ok r ≡ true) × ShutsAll crypto handler me.account_id new.conn.db.sessions)
        ⊎ ((is_ok r ≡ false) × (new.conn.db ≡ own.conn.db)))
      (λ _ _. ⊥)
      (handle_logout_all (some me) own)
handle_logout_all-ShutsAll_example = handle_logout_all-ShutsAll crypto handler me own
