-- ===== src/Http/Slots.antt =====
-- deployables/backend/internal/httpapi/backup.go: acquireUpload and the function that it returns, in
-- the atomic steps that requests interleave: an operation on the channel `uploadSem`, or a section
-- under `uploadMu`.
use aime.Http.World.{World}
use aime.Http.Uploads.{release_upload}
use aime.Base.{
  Option, none, some, ◌⊎◌, ℕ, suc, ◌-◌, ◌≤◌, ◌==◌, ltb, Bool, true, false, List, [], ◌∷◌, ◌++◌, ◌≡◌,
  if◌then◌else◌,
}
use aime.Base.Lists.{delete, exists, count}

-- Where a request stands: in the channel and not yet in the map, on its way out since the account
-- is busy, in the map, out of the map again, and out of the channel.
pub data Phase : Type 0 where
  holding backing_out uploading leaving gone : Phase

pub record Request : Type 0 where
  pub account_id : ℕ
  pub phase : Phase

-- The number of values in the channel, the keys of the map, and the requests behind them.
pub record Slots : Type 0 where
  pub taken : ℕ
  pub busy : List ℕ
  pub requests : List Request

abbrev pub is_account : ℕ → ℕ → Bool
is_account account_id a = a == account_id

-- A request's next atomic step: its own phase, the channel and the map behind it.
unfoldable pub advance : Request → ℕ → List ℕ → Request × ℕ × List ℕ
advance r taken busy = elim (r.phase) [
  | holding ↦
      if exists (is_account r.account_id) busy
      then (record r { phase = backing_out }, taken, busy)
      else (record r { phase = uploading }, taken, r.account_id ∷ busy)
  | backing_out ↦ (record r { phase = gone }, taken - 1, busy)
  | uploading ↦ (record r { phase = leaving }, taken, delete (is_account r.account_id) busy)
  | leaving ↦ (record r { phase = gone }, taken - 1, busy)
  | gone ↦ (r, taken, busy)
]

-- `case s.uploadSem <- struct{}{}` is taken while the channel has room.
unfoldable pub arrived : ℕ → Slots → Slots
arrived account_id s = record {
  taken = suc s.taken;
  busy = s.busy;
  requests = record { account_id = account_id; phase = holding } ∷ s.requests;
}

abbrev pub placed : List Request → List Request → Request × ℕ × List ℕ → Slots
placed before after (r, taken, busy) = record {
  taken = taken;
  busy = busy;
  requests = before ++ r ∷ after;
}

-- One atomic step of any request.
pub data Turn (concurrency : ℕ) : Slots → Slots → Type 0 where
  arrive :
      (account_id : ℕ) (s : Slots)
      → ltb s.taken concurrency ≡ true
      → Turn concurrency s (arrived account_id s)
  move :
      (before after : List Request) (r : Request) (taken : ℕ) (busy : List ℕ)
      → Turn concurrency
          (record { taken = taken; busy = busy; requests = before ++ r ∷ after })
          (placed before after (advance r taken busy))

abbrev pub idle : Slots
idle = record { taken = 0; busy = []; requests = [] }

pub data Reachable (concurrency : ℕ) : Slots → Type 0 where
  start : Reachable concurrency idle
  later : {s t : Slots} → Reachable concurrency s → Turn concurrency s t → Reachable concurrency t

-- The requests that stand in the channel, and those of one account whose body streams.
abbrev pub has_slot : Request → Bool
has_slot r = elim (r.phase) [ gone ↦ false | _ ↦ true ]

abbrev pub uploads_for : ℕ → Request → Bool
uploads_for account_id r = elim (r.phase) [
  | uploading ↦ is_account account_id r.account_id
  | _ ↦ false
]

-- The channel counts the requests that hold a slot, within its capacity, and an account's key is in
-- the map once for its upload.
pub record Kept (concurrency : ℕ) (s : Slots) : Type 0 where
  pub bounded : s.taken ≤ concurrency
  pub counted : s.taken ≡ count has_slot s.requests
  pub keys : (a : ℕ) → count (is_account a) s.busy ≡ count (uploads_for a) s.requests
  pub single : (a : ℕ) → count (is_account a) s.busy ≤ 1

-- Several turns one behind the other.
pub data Turns (concurrency : ℕ) : Slots → Slots → Type 0 where
  done : (s : Slots) → Turns concurrency s s
  turn : {s t u : Slots} → Turn concurrency s t → Turns concurrency t u → Turns concurrency s u

-- The part of the server's state that the slots are.
abbrev pub slots_of : World → List Request → Slots
slots_of w requests = record { taken = w.upload_slots; busy = w.uploading; requests = requests }

abbrev pub request : ℕ → Phase → Request
request account_id phase = record { account_id = account_id; phase = phase }

-- What the turns of one call of `acquireUpload` come to when no other request has one between them.
abbrev pub CallTurns : ℕ → ℕ → World → List Request → Option World → Type 0
CallTurns concurrency account_id w requests none =
    (ltb w.upload_slots concurrency ≡ false)
    ⊎ Turns concurrency (slots_of w requests) (slots_of w (request account_id gone ∷ requests))
CallTurns concurrency account_id w requests (some w') =
    Turns concurrency (slots_of w requests) (slots_of w' (request account_id uploading ∷ requests))
    × Turns concurrency (slots_of w' (request account_id uploading ∷ requests))
        (slots_of (release_upload account_id w') (request account_id gone ∷ requests))
