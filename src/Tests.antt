-- ===== src/Tests.antt =====
-- Requests and settings on small data.
mod Uploads
mod Probes
mod Sessions
mod Files
mod Encoder
mod Requests
use aime.Http.Guarded.{GuardEnd, Erased, handle_delete_account-GuardEnd}
use aime.Http.Login.{acquired}
use aime.Http.Account.{handle_delete_account}
use aime.Base.{
  ℕ, ltb, ◌≡◌, ◌<◌, ◌≤◌, ◌*◌, ◌+◌, ◌-◌, refl, Bool, true, false, Option, none, some, List, [], ◌∷◌,
  arith, if◌then◌else◌,
}
use aime.Base.Lists.{length, All, exists}
use aime.Base.Int.{negsuc, ℤ, pos, int64, ◌*ℤ◌}
use aime.Base.Bytes.{Bytes, bytes, bytes_eq}
use aime.Base.Rational.{fractions}
use aime.Auth.{Crypto}
use aime.Billing.{
  embed, Info, Ledger, default_pricing, cost, storage_cost, storage_billable, free_storage_bytes,
}
use aime.Billing.Prices.{cost_rounds_up, storage_cost-free}
use aime.Config.{Config, Loads, IsValid, load, load-IsValid}
use aime.Store.Schema.{Device, ChallengeRow}
use aime.Store.Backups.Chain.{IsChained}
use aime.Store.Tests.{tables, conn, tables-IsChained}
use aime.Http.World.{World, Identity}
use aime.Http.Login.{Text, handle_verify}
use aime.Http.Rules.{Runs}
use aime.Http.Uploads.{Upload, stored, handle_upload_backup}
use aime.Http.UploadResult.{UploadEnd, handle_upload_backup-UploadEnd}
use aime.Http.Verified.{VerifyEnd, handle_verify-VerifyEnd}
use aime.Http.Rank.{Hit, IsOrder, IsRanked, IsScored, rank, take, rank-IsRanked}
use aime.Http.Limiter.{Bucket, IpLimiter, started, called, allow, max_tracked, allow-Bounded}

cost_rounds_up_example :
    (c : ℕ) × (cost default_pricing embed (pos 7) ≡ pos c)
    × (7 * 20_000 ≤ c * 1000)
    × (c * 1000 < 7 * 20_000 + 1000)
cost_rounds_up_example = cost_rounds_up default_pricing embed 7 20_000 refl (omega arith)

storage_cost-free_example :
    storage_cost fractions default_pricing (pos 1_000_000) (negsuc 4) ≡ pos 0
unfolding storage_billable free_storage_bytes int64 ◌*ℤ◌
storage_cost-free_example =
    storage_cost-free fractions default_pricing 1_000_000 500 (negsuc 4) refl (omega arith) refl

-- A parser of durations that knows the two defaults.
abbrev parse_duration : Bytes → Option ℤ
parse_duration v =
    if bytes_eq v (bytes "30m")
    then some (pos 1_800_000_000_000)
    else if bytes_eq v (bytes "30s")
    then some (pos 30_000_000_000)
    else none

abbrev environment : Bytes → Option Bytes
environment key =
    if bytes_eq key (bytes "DATABASE_URL") then some (bytes "postgres://db/aime") else none

load-IsValid_example : Loads IsValid (load parse_duration environment)
load-IsValid_example = load-IsValid parse_duration environment

abbrev config : Config
config = record {
  http_addr = bytes ":8080";
  database_url = bytes "postgres://db/aime";
  env = bytes "dev";
  backend = bytes "onnx";
  model_dir = bytes "./models";
  pooling = bytes "cls";
  onnx_lib = [];
  max_backup_mb = pos 1;
  backup_dir = bytes "./backups";
  backup_max_versions = pos 10;
  backup_timeout = pos 1_800_000_000_000;
  backup_concurrency = pos 4;
  backup_total_cap_gb = pos 0;
  auth_concurrency = pos 4;
  infer_concurrency = pos 2;
  infer_timeout = pos 30_000_000_000;
  trust_proxy = false;
  billing_enforce = true;
}

abbrev ledger : Ledger
ledger = record { pricing = default_pricing; enforce = true }

abbrev me : Identity
me = record { account_id = 1; token_hash = bytes "h"; device_id = 1 }

abbrev device : Device
device = record {
  id = 1;
  account_id = 1;
  name = bytes "laptop";
  pq_alg = bytes "ml-dsa-65";
  public_key = bytes "key";
  created_at = pos 10;
  last_seen = none;
}

abbrev nonce : Bytes
nonce = bytes "0123456789abcdef0123456789abcdef"

abbrev challenge : ChallengeRow
challenge = record { id = 1; device_id = 1; nonce = nonce; expires_at = pos 100; used = false }

abbrev world : World
world = record {
  conn = record conn {
    db = record tables { devices = device ∷ []; auth_challanges = challenge ∷ [] };
  };
  metrics = [];
  files = bytes "1/a.bin" ∷ [];
  stuck = λ _. false;
  upload_slots = 0;
  uploading = [];
}

abbrev request : Upload
request = record {
  content_length = pos 9;
  meta_header = [];
  checksum_header = [];
  parent_header = bytes "3";
}

-- The chain only reads accounts, backups and counters.
world-IsChained : IsChained world.conn.db
world-IsChained = record {
  known = tables-IsChained.known;
  one_counter = tables-IsChained.one_counter;
  owned = tables-IsChained.owned;
  fresh = tables-IsChained.fresh;
  id_unique = tables-IsChained.id_unique;
  version_unique = tables-IsChained.version_unique;
  counted = tables-IsChained.counted;
  kinds = tables-IsChained.kinds;
  linked = tables-IsChained.linked;
}

is_new : exists (bytes_eq (bytes "1/b.bin")) world.files ≡ false
unfolding bytes_eq
is_new = refl

handle_upload_backup-UploadEnd_example :
    Runs
      (UploadEnd fractions config ledger
        (λ x. some x)
        (some me)
        request
        (stored (bytes "1/b.bin") (pos 9) (bytes "c"))
        world)
      (λ _ _. ⊥)
      (handle_upload_backup fractions config ledger
        (λ x. some x)
        (some me)
        request
        (stored (bytes "1/b.bin") (pos 9) (bytes "c"))
        (pos 50)
        world)
handle_upload_backup-UploadEnd_example =
    handle_upload_backup-UploadEnd fractions config ledger (λ x. some x) (some me) request
      (stored (bytes "1/b.bin") (pos 9) (bytes "c")) (pos 50) world world-IsChained (is_new, refl)

-- A signature is accepted if it repeats the nonce.
abbrev crypto : Crypto
crypto = record {
  sha256 = λ x. x;
  argon2 = λ p s. p;
  public_key_size = 3;
  unmarshals = λ _. true;
  mldsa_verify = λ key n ctx sig. bytes_eq n sig;
}

abbrev text : Text
text = record {
  parse_address = λ x. some x;
  to_lower = λ x. x;
  runes = length;
  trim_space = λ x. x;
}

handle_verify-VerifyEnd_example :
    Runs
      (VerifyEnd crypto text (some (1, nonce, nonce)) (bytes "t") (pos 50) world)
      (λ _ _. ⊥)
      (handle_verify crypto text (some (1, nonce, nonce)) (bytes "t") (pos 50) world)
handle_verify-VerifyEnd_example =
    handle_verify-VerifyEnd crypto text (some (1, nonce, nonce)) (bytes "t") (pos 50) world

abbrev info : Info
info = record {
  backend = bytes "stub";
  embed_model = bytes "e";
  embed_dim = 384;
  rerank_model = bytes "r";
}

abbrev gt : ℕ → ℕ → Bool
gt a b = ltb b a

gt-IsOrder : IsOrder gt
gt-IsOrder = record { asymmetric = λ a b h. ground arith; cotransitive = λ a b c h. ground arith }

rank-IsRanked_example :
    (hits : List (Hit ℕ)) × IsRanked gt hits
    × (length hits ≡ 3)
    × All (IsScored gt (1 ∷ 5 ∷ 5 ∷ [])) hits
    × (rank gt 2 (1 ∷ 5 ∷ 5 ∷ []) ≡ take 2 hits)
rank-IsRanked_example = rank-IsRanked gt gt-IsOrder 2 (1 ∷ 5 ∷ 5 ∷ [])

-- A bucket that holds five calls and is never filled again.
abbrev bucket : Bucket
bucket = record { State = ℕ; fresh = 5; allow_one = λ now n. (ltb 0 n, n - 1) }

abbrev limiter : IpLimiter bucket
limiter = (allow bucket (bytes "1.2.3.4") (pos 9) (record { seen = []; last_sweep = pos 0 })).1

allow-Bounded_example : length limiter.seen ≤ max_tracked
allow-Bounded_example =
    allow-Bounded bucket limiter (
      called (record { seen = []; last_sweep = pos 0 }) (bytes "1.2.3.4") (pos 9) (started (pos 0)))

handle_delete_account-GuardEnd_example :
    Runs
      (GuardEnd crypto 1 world (Erased crypto me (some []) acquired world))
      (λ _ _. ⊥)
      (handle_delete_account crypto (some me) (some []) acquired world)
handle_delete_account-GuardEnd_example =
    handle_delete_account-GuardEnd crypto me (some []) acquired world
