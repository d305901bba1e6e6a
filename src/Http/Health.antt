-- ===== src/Http/Health.antt =====
-- deployables/backend/internal/httpapi/health.go: the two probes, and Ping of internal/store/store.go.
use aime.Base.{
  ap, sym, ◌∙◌, suc, ℕ, ltb, arith, Bool-cases, inl, inr, Bool, true, false, ◌≡◌, refl, Option,
  none, some, List, [], ◌∷◌, if◌then◌else◌,
}
use aime.Base.Lists.{length}
use aime.Base.Int.{ℤ, pos, negsuc, ◌-ℤ◌, ltb_ℤ, saturate}
use aime.Base.Bytes.{bytes}
use aime.Store.Query.{Conn, Query, Result, ok, err, StoreError, exec, pg, outage}
use aime.Http.World.{World, Response, Step, Handler, stop, respond, reply, service_status}

-- `Ping`
unfoldable pub ping : Query (Unit {0})
ping = exec λ now db. ok (tt, db)

unfoldable pub handle_health : Handler (Unit {0})
handle_health = reply 200 (service_status (bytes "healthy"))

-- The verdict that requests share, and when it was found.
pub record Ready : Type 0 where
  pub at : ℤ
  pub verdict : Option StoreError

-- `time.Time{}`: the start of the year 1.
abbrev pub zero_time : ℤ
zero_time = negsuc 62_135_596_799_999_999_999

abbrev pub unprobed : Ready
unprobed = record { at = zero_time; verdict = none }

abbrev pub ready_cache_for : ℤ
ready_cache_for = pos 1_000_000_000

abbrev pub is_due : ℤ → Ready → Bool
is_due now ready = ltb_ℤ ready_cache_for (saturate (now -ℤ ready.at))

abbrev pub error_of : {A : Type 0} → Result A → Option StoreError
error_of (ok a) = none
error_of (err e) = some e

-- The section under the lock: `now` and `after` are the clock before and behind the ping.
unfoldable pub refresh : ℤ → ℤ → Ready → Conn → Ready × Conn
refresh now after ready c =
    let (r, c') = ping c in
    if is_due now ready then (record { at = after; verdict = error_of r }, c') else (ready, c)

abbrev pub ready_response : Option StoreError → Handler (Unit {0})
ready_response (some e) = reply 503 (service_status (bytes "degraded"))
ready_response none = reply 200 (service_status (bytes "ready"))

unfoldable pub handle_ready : ℤ → ℤ → Ready → World → Ready × (Step Response (Unit {0}) × World)
handle_ready now after ready w =
    let (ready', c) = refresh now after ready w.conn in
    (ready', ready_response ready'.verdict (record w { conn = c }))

-- A request on a connection: the clock at its start and behind a ping, and how the connection's next
-- round trips end.
pub record Request : Type 0 where
  pub now : ℤ
  pub after : ℤ
  pub fails : Bool
  pub later : List Bool
  pub base : World

abbrev pub before_request : Request → World
before_request r = record r.base { conn = record r.base.conn { faults = r.fails ∷ r.later } }

abbrev pub served : Request → Ready → Ready × (Step Response (Unit {0}) × World)
served r ready = handle_ready r.now r.after ready (before_request r)

-- The database has been asked: the request has used up the next round trip.
abbrev pub has_pinged : Request → World → Bool
has_pinged r w = ltb (length w.conn.faults) (suc (length r.later))

-- The pings that were seen, the last one first: the clock before and behind, and whether it failed.
pub record Probe : Type 0 where
  pub before : ℤ
  pub behind : ℤ
  pub failed : Bool

abbrev pub seen : Request → World → List Probe → List Probe
seen r w ps =
    if has_pinged r w
    then record { before = r.now; behind = r.after; failed = r.fails } ∷ ps
    else ps

-- Requests one after the other, at any times and on any connections.
pub data Served : Ready → List Probe → Type 0 where
  idle : Served unprobed []
  request :
      (r : Request) (ready : Ready) (ps : List Probe)
      → Served ready ps
      → Served (served r ready).0 (seen r (served r ready).1.1 ps)

abbrev pub last_at : List Probe → ℤ
last_at [] = zero_time
last_at (p ∷ ps) = p.behind

-- More than a second, as `time.Since` tells it, has passed since the last ping.
abbrev pub is_late : ℤ → List Probe → Bool
is_late now ps = ltb_ℤ (pos 1_000_000_000) (saturate (now -ℤ last_at ps))

-- More than a second from the end of a ping to the start of the next.
abbrev pub Spaced : List Probe → Type 0
Spaced [] = Unit {0}
Spaced (p ∷ ps) = (is_late p.before ps ≡ true) × Spaced ps

-- What the last ping found; none was made, and none is due, only within a second of the year 1.
abbrev pub answer_of : List Probe → Response
answer_of [] = respond 200 (service_status (bytes "ready"))
answer_of (p ∷ ps) =
    if p.failed
    then respond 503 (service_status (bytes "degraded"))
    else respond 200 (service_status (bytes "ready"))

abbrev failed_before : List Probe → Bool
failed_before [] = false
failed_before (p ∷ ps) = p.failed

abbrev found : Bool → Option StoreError
found true = some (pg outage)
found false = none

-- The cache is what the last ping left.
abbrev Matches : Ready → List Probe → Type 0
Matches ready ps = (ready.at ≡ last_at ps) × (ready.verdict ≡ found (failed_before ps))

-- One request, from a cache that matches the pings seen.
abbrev One : Request → List Probe → Ready × (Step Response (Unit {0}) × World) → Type 0
One r ps (ready, (s, w)) =
    (has_pinged r w ≡ is_late r.now ps)
    × Matches ready (seen r w ps)
    × (s ≡ stop (answer_of (seen r w ps)))

answer_found :
    (b : Bool) (w : World) (p : Probe) (ps : List Probe)
    → p.failed ≡ b
    → (ready_response (found b) w).0 ≡ stop (answer_of (p ∷ ps))
answer_found true w p ps e = rw e refl
answer_found false w p ps e = rw e refl

answer_cached :
    (ps : List Probe) (w : World)
    → (ready_response (found (failed_before ps)) w).0 ≡ stop (answer_of ps)
answer_cached [] w = refl
answer_cached (p ∷ ps) w = answer_found p.failed w p ps refl

ltb-suc : (n : ℕ) → ltb n (suc n) ≡ true
ltb-suc n = ground arith

ltb_irrefl : (n : ℕ) → ltb n n ≡ false
ltb_irrefl n = ground arith

same_world : (v : Option StoreError) (w : World) → (ready_response v w).1 ≡ w
same_world (some e) w = refl
same_world none w = refl

due_late :
    (now : ℤ) (ready : Ready) (ps : List Probe)
    → ready.at ≡ last_at ps
    → is_due now ready ≡ is_late now ps
due_late now ready ps e = ap (λ t. ltb_ℤ (pos 1_000_000_000) (saturate (now -ℤ t))) e

one : (r : Request) (ready : Ready) (ps : List Probe) → Matches ready ps → One r ps (served r ready)
unfolding handle_ready refresh ping exec
one r ready ps (at, verdict) = elim (Bool-cases (is_late r.now ps)) [
  | inl e ↦ elim (Bool-cases r.fails) [
    | inl f ↦
        rw (due_late r.now ready ps at, e, f, ltb-suc (length r.later)) (refl, (refl, refl), refl)
    | inr f ↦
        rw (due_late r.now ready ps at, e, f, ltb-suc (length r.later)) (refl, (refl, refl), refl)
  ]
  | inr e ↦
      rw
        (
          due_late r.now ready ps at,
          e,
          same_world ready.verdict (before_request r),
          ltb_irrefl (suc (length r.later)),
          verdict,
        )
        (refl, (at, refl), answer_cached ps (before_request r))
]

Served-Matches : (ready : Ready) (ps : List Probe) → Served ready ps → Matches ready ps
Served-Matches ready ps idle = (refl, refl)
Served-Matches ready ps (request r ready' ps' p) =
    (one r ready' ps' (Served-Matches ready' ps' p)).1

grow-Spaced :
    (r : Request) (w : World) (ps : List Probe)
    → has_pinged r w ≡ is_late r.now ps
    → Spaced ps
    → Spaced (seen r w ps)
grow-Spaced r w ps e h = elim (Bool-cases (has_pinged r w)) [
  | inl p ↦ rw p (sym e ∙ p, h)
  | inr p ↦ rw p h
]

served-Spaced : (ready : Ready) (ps : List Probe) → Served ready ps → Spaced ps
served-Spaced ready ps idle = tt
served-Spaced ready ps (request r ready' ps' p) =
    grow-Spaced r (served r ready').1.1 ps' (one r ready' ps' (Served-Matches ready' ps' p)).0
      (served-Spaced ready' ps' p)

-- Whenever requests for readiness come, and on whatever connections: a request uses up a round trip, for
-- its ping, exactly if more than a second has passed since the last ping, as `time.Since` tells it, so
-- more than a second lies between any two; and it answers what the last ping found, its own if it made
-- one: 200 after a success, 503 after a failure.
pub handle_ready-Spaced :
    (ready : Ready) (ps : List Probe) (r : Request)
    → Served ready ps
    → let (s, w) = (served r ready).1 in
      (has_pinged r w ≡ is_late r.now ps)
      × (s ≡ stop (answer_of (seen r w ps)))
      × Spaced (seen r w ps)
handle_ready-Spaced ready ps r p =
    let (pinged, _, answer) = one r ready ps (Served-Matches ready ps p) in
    (pinged, answer, grow-Spaced r (served r ready).1.1 ps pinged (served-Spaced ready ps p))
