-- ===== src/Http/World.antt =====
-- What a handler of deployables/backend/internal/httpapi works on, and how it runs: respond.go, and
-- the account that middleware.go puts into a request's context.
use aime.Base.{ℕ, Bool, true, false, Option, none, some, List, [], ◌∷◌, if◌then◌else◌}
use aime.Base.Lists.{delete}
use aime.Base.Int.{ℤ}
use aime.Base.Bytes.{Bytes, bytes, bytes_eq}
use aime.Auth.{Crypto, hash_token}
use aime.Store.Schema.{Backup, Device}
use aime.Store.Query.{Conn, Query, Result, ok, err, StoreError, not_found}
use aime.Store.Auth.{session_by_token_hash}
use aime.Store.Usage.{UsageRow}

-- The counters of internal/metrics that handlers raise, with their labels.
pub data Metric : Type 0 where
  auth_event : Bytes → Metric
  backup_op : Bytes → Bytes → Metric
  backup_bytes : Bytes → ℤ → Metric
  billing_rejected : Bytes → Metric
  rate_limited : Metric
  inference : Bytes → Bytes → Metric
  charge_failure : Bytes → Metric
  charged : Bytes → ℤ → Metric

-- The headers of a download.
pub record FileHeaders : Type 0 where
  pub disposition : Bytes
  pub checksum_header : Bytes
  pub meta_header : Bytes
  pub parent_header : Option Bytes

-- `usageRes`
pub record InferUsage : Type 0 where
  pub input_tokens : ℤ
  pub cost_microcredits : ℤ
  pub balance_microcredits : ℤ

-- The payloads of the responses. A float32 is given by its bits.
pub data Body : Type 0 where
  no_content : Body
  error : Bytes → Body
  account_created : ℕ → Body
  enrollment : Bytes → ℤ → Body
  device_created : ℕ → Body
  challange : ℕ → Bytes → Body
  verified : Bytes → ℤ → Body
  account_info : ℕ → Bytes → ℤ → ℤ → Body
  device_list : List (Device × Bool) → Body
  revoked : ℕ → Body
  backup_list : List Backup → ℤ → Body
  uploaded : Backup → ℤ → Body
  file : FileHeaders → Backup → Body
  pruned : ℕ → ℤ → Body
  embedded : Bytes → ℕ → List (List ℕ) → InferUsage → Body
  reranked : Bytes → List (ℕ × ℕ) → InferUsage → Body
  service_status : Bytes → Body
  usage_report : ℤ → List UsageRow → ℤ → ℤ → Body

pub data Response : Type 0 where
  respond : ℕ → Body → Response
  -- Nothing is written: the client is gone.
  silent : Response

-- The database, the counters (newest first), the files under the blob root and those of them that
-- the file system refuses to remove, and the uploads in flight.
pub record World : Type 0 where
  pub conn : Conn
  pub metrics : List Metric
  pub files : List Bytes
  pub stuck : Bytes → Bool
  pub upload_slots : ℕ
  pub uploading : List ℕ

-- A function goes on with a value, or returns early.
pub data Step (R A : Type 0) : Type 0 where
  next : A → Step R A
  stop : R → Step R A

abbrev pub Run : Type 0 → Type 0 → Type 0
Run R A = World → Step R A × World

abbrev pub Handler : Type 0 → Type 0
Handler A = Run Response A

abbrev pub give : {R A : Type 0} → A → Run R A
give a w = (next a, w)

abbrev pub return_early : {R A : Type 0} → R → Run R A
return_early r w = (stop r, w)

abbrev pub reply : {A : Type 0} → ℕ → Body → Handler A
reply status body = return_early (respond status body)

-- `writeError`
abbrev pub fail_with : {A : Type 0} → ℕ → Bytes → Handler A
fail_with status message = reply status (error message)

-- `writeUnauthorized`
abbrev pub unauthorized : {A : Type 0} → Handler A
unauthorized = fail_with 401 (bytes "unauthorized")

-- A database error that the handler does not name is logged and answered by a 500.
abbrev pub internal : {A : Type 0} → Handler A
internal = fail_with 500 (bytes "internal")

unfoldable pub proceed : {R A B : Type 0} → (A → Run R B) → Step R A × World → Step R B × World
proceed f (next a, w) = f a w
proceed f (stop r, w) = (stop r, w)

infixl 5 ◌>>=◌ ◌>>◌
abbrev pub ◌>>=◌ : {R A B : Type 0} → Run R A → (A → Run R B) → Run R B
◌>>=◌ m f w = proceed f (m w)

abbrev pub ◌>>◌ : {R B : Type 0} → Run R (Unit {0}) → Run R B → Run R B
m >> k = m >>= λ _. k

-- `if b { … }`
unfoldable pub when : {R : Type 0} → Bool → Run R (Unit {0}) → Run R (Unit {0})
when true m = m
when false m = give tt

-- `if bad { writeError(…); return }`
abbrev pub reject_if : Bool → ℕ → Bytes → Handler (Unit {0})
reject_if bad status message = when bad (fail_with status message)

abbrev pub raise_count : {R : Type 0} → Metric → Run R (Unit {0})
raise_count m w = (next tt, record w { metrics = m ∷ w.metrics })

-- A body that does not decode is answered by `decodeJSON` itself.
abbrev pub decoded : {A : Type 0} → Option A → Handler A
decoded none = fail_with 400 (bytes "invalid json")
decoded (some a) = give a

unfoldable pub answer :
    {R A B : Type 0}
    → World
    → (A → Run R B)
    → (StoreError → Run R B)
    → Result A × Conn
    → Step R B × World
answer w f g (ok a, c) = f a (record w { conn = c })
answer w f g (err e, c) = g e (record w { conn = c })

-- A call of the store, with what the handler does after a value and after an error.
abbrev pub on_store : {R A B : Type 0} → Query A → (A → Run R B) → (StoreError → Run R B) → Run R B
on_store q f g w = answer w f g (q w.conn)

-- A call of the store whose error is only logged.
abbrev pub best_effort : {R A : Type 0} → Query A → Run R (Unit {0})
best_effort q = on_store q (λ _. give tt) (λ _. give tt)

-- `errors.Is(err, ErrNotFound)` answered by `m`, any other error by a 500.
abbrev pub if_missing : {A : Type 0} → Handler A → StoreError → Handler A
if_missing m not_found = m
if_missing m _ = internal

-- `Blobs.Remove` whose error is only logged.
abbrev pub remove_file : {R : Type 0} → Bytes → Run R (Unit {0})
remove_file path w =
    (next tt, record w { files = if w.stuck path then w.files else delete (bytes_eq path) w.files })

abbrev pub remove_files : {R : Type 0} → List Bytes → Run R (Unit {0})
remove_files [] = give tt
remove_files (p ∷ ps) = remove_file p >> remove_files ps

-- What `RequireAuth` puts into the context: the account, the hash of the token, the device.
pub record Identity : Type 0 where
  pub account_id : ℕ
  pub token_hash : Bytes
  pub device_id : ℕ

-- `AccountFromContext`
abbrev pub identified : Option Identity → Handler Identity
identified none = unauthorized
identified (some me) = give me

-- The token of the `Authorization` header: `none` without the `Bearer ` prefix.
unfoldable pub require_auth :
    {A : Type 0} → Crypto → Option Bytes → (Option Identity → Handler A) → Handler A
require_auth crypto none handler = unauthorized
require_auth crypto (some []) handler = unauthorized
require_auth crypto (some (b ∷ bs)) handler =
    let h = hash_token crypto (b ∷ bs) in
    on_store (session_by_token_hash h)
      (λ s.
        handler
          (some (record { account_id = s.account_id; token_hash = h; device_id = s.device_id })))
      (if_missing unauthorized)
