-- ===== src/Config.antt =====
-- deployables/backend/internal/config/config.go: the settings from the environment.
use aime.Base.{
  ◌≡◌, refl, inl, inr, Bool-cases, arith, Bool, true, false, not, ◌&&◌, Option, none, some, List,
  [], ◌∷◌, if◌then◌else◌,
}
use aime.Base.Lists.{exists}
use aime.Base.Int.{ℤ, pos, ◌≤ℤ◌, ltb_ℤ}
use aime.Base.Bytes.{Bytes, bytes, bytes_eq}
use aime.Base.Decimal.{parse_int}

pub record Config : Type 0 where
  pub http_addr : Bytes
  pub database_url : Bytes
  pub env : Bytes
  pub backend : Bytes
  pub model_dir : Bytes
  pub pooling : Bytes
  pub onnx_lib : Bytes
  pub max_backup_mb : ℤ
  pub backup_dir : Bytes
  pub backup_max_versions : ℤ
  pub backup_timeout : ℤ
  pub backup_concurrency : ℤ
  pub backup_total_cap_gb : ℤ
  pub auth_concurrency : ℤ
  pub infer_concurrency : ℤ
  pub infer_timeout : ℤ
  pub trust_proxy : Bool
  pub billing_enforce : Bool

-- `os.LookupEnv`
abbrev pub Environment : Type 0
Environment = Bytes → Option Bytes

abbrev pub value_or : Bytes → Option Bytes → Bytes
value_or fallback none = fallback
value_or fallback (some v) = v

unfoldable pub getenv : Environment → Bytes → Bytes → Bytes
getenv environment key fallback = value_or fallback (environment key)

-- The variable that `Load` refuses, and the value that its message names.
pub data Loaded (A : Type 0) : Type 0 where
  loaded : A → Loaded A
  refused : Bytes → Bytes → Loaded A

unfoldable pub then_load : {A B : Type 0} → Loaded A → (A → Loaded B) → Loaded B
then_load (loaded a) f = f a
then_load (refused key v) f = refused key v

infixl 5 ◌>>=◌ ◌>>◌
abbrev ◌>>=◌ : {A B : Type 0} → Loaded A → (A → Loaded B) → Loaded B
m >>= f = then_load m f

abbrev ◌>>◌ : {B : Type 0} → Loaded (Unit {0}) → Loaded B → Loaded B
m >> k = m >>= λ _. k

abbrev is_one_of : List Bytes → Bytes → Bool
is_one_of vs v = exists (bytes_eq v) vs

abbrev refuse_if : Bool → Bytes → Bytes → Loaded (Unit {0})
refuse_if true key v = refused key v
refuse_if false key v = loaded tt

-- `strconv.ParseBool`
unfoldable pub parse_bool : Bytes → Option Bool
parse_bool v =
    if is_one_of
      (bytes "1" ∷ bytes "t" ∷ bytes "T" ∷ bytes "TRUE" ∷ bytes "true" ∷ bytes "True" ∷ []) v
    then some true
    else if is_one_of
        (bytes "0" ∷ bytes "f" ∷ bytes "F" ∷ bytes "FALSE" ∷ bytes "false" ∷ bytes "False" ∷ []) v
    then some false
    else none

-- A number that is at least `least`.
abbrev at_least : ℤ → Bytes → Bytes → Option ℤ → Loaded ℤ
at_least least key v none = refused key v
at_least least key v (some n) = if ltb_ℤ n least then refused key v else loaded n

abbrev parsed : {A : Type 0} → Bytes → Bytes → Option A → Loaded A
parsed key v none = refused key v
parsed key v (some a) = loaded a

module _ (parse_duration : Bytes → Option ℤ) (environment : Environment) where
  abbrev variable : Bytes → Bytes → Bytes
  variable = getenv environment

  -- `Atoi(getenv(key, fallback))` with a lower bound; the message repeats the variable itself.
  abbrev int_at_least : ℤ → Bytes → Bytes → Loaded ℤ
  int_at_least least key fallback =
      at_least least key (variable key (bytes "")) (parse_int (variable key fallback))

  abbrev duration_above_zero : Bytes → Bytes → Loaded ℤ
  duration_above_zero key fallback =
      at_least (pos 1) key (variable key (bytes "")) (parse_duration (variable key fallback))

  abbrev bool_of : Bytes → Bytes → Loaded Bool
  bool_of key fallback = parsed key (variable key (bytes "")) (parse_bool (variable key fallback))

  unfoldable pub load : Loaded Config
  load = do
    let http_addr = variable (bytes "HTTP_ADDR") (bytes ":8080")
    database_url ← parsed (bytes "DATABASE_URL") [] (environment (bytes "DATABASE_URL"))
    let env = variable (bytes "APP_ENV") (bytes "dev")
    refuse_if (not (is_one_of (bytes "dev" ∷ bytes "int" ∷ bytes "prod" ∷ []) env))
        (bytes "APP_ENV") env
    let backend = variable (bytes "BACKEND") (bytes "onnx")
    refuse_if (bytes_eq env (bytes "prod") && bytes_eq backend (bytes "stub")) (bytes "BACKEND")
        backend
    let pooling = variable (bytes "EMBED_POOLING") (bytes "cls")
    refuse_if (not (is_one_of (bytes "cls" ∷ bytes "mean" ∷ []) pooling)) (bytes "EMBED_POOLING")
        pooling
    max_backup_mb ← int_at_least (pos 1) (bytes "MAX_BACKUP_MB") (bytes "1024")
    backup_max_versions ← int_at_least (pos 1) (bytes "BACKUP_MAX_VERSIONS") (bytes "10")
    backup_timeout ← duration_above_zero (bytes "BACKUP_TIMEOUT") (bytes "30m")
    backup_concurrency ← int_at_least (pos 1) (bytes "BACKUP_CONCURRENCY") (bytes "4")
    backup_total_cap_gb ← int_at_least (pos 0) (bytes "BACKUP_TOTAL_CAP_GB") (bytes "0")
    auth_concurrency ← int_at_least (pos 1) (bytes "AUTH_CONCURRENCY") (bytes "4")
    infer_concurrency ← int_at_least (pos 1) (bytes "INFER_CONCURRENCY") (bytes "2")
    infer_timeout ← duration_above_zero (bytes "INFER_TIMEOUT") (bytes "30s")
    trust_proxy ← bool_of (bytes "TRUST_PROXY") (bytes "false")
    billing_enforce ← bool_of (bytes "BILLING_ENFORCE") (bytes "true")
    loaded (record {
      http_addr = http_addr;
      database_url = database_url;
      env = env;
      backend = backend;
      model_dir = variable (bytes "MODEL_DIR") (bytes "./models");
      pooling = pooling;
      onnx_lib = variable (bytes "ONNXRUNTIME_LIB") (bytes "");
      max_backup_mb = max_backup_mb;
      backup_dir = variable (bytes "BACKUP_DIR") (bytes "./backups");
      backup_max_versions = backup_max_versions;
      backup_timeout = backup_timeout;
      backup_concurrency = backup_concurrency;
      backup_total_cap_gb = backup_total_cap_gb;
      auth_concurrency = auth_concurrency;
      infer_concurrency = infer_concurrency;
      infer_timeout = infer_timeout;
      trust_proxy = trust_proxy;
      billing_enforce = billing_enforce;
    })

-- What a predicate says of the settings, if they load.
abbrev pub Holds : {A : Type 0} → (A → Type 0) → Loaded A → Type 0
Holds P (loaded a) = P a
Holds P (refused key v) = Unit

pub record Loads {A : Type 0} (P : A → Type 0) (m : Loaded A) : Type 0 where
  pub holds : Holds P m

pub record IsValid (c : Config) : Type 0 where
  pub known_env : is_one_of (bytes "dev" ∷ bytes "int" ∷ bytes "prod" ∷ []) c.env ≡ true
  pub no_stub_in_prod : bytes_eq c.env (bytes "prod") && bytes_eq c.backend (bytes "stub") ≡ false
  pub known_pooling : is_one_of (bytes "cls" ∷ bytes "mean" ∷ []) c.pooling ≡ true
  pub some_mb : pos 1 ≤ℤ c.max_backup_mb
  pub some_versions : pos 1 ≤ℤ c.backup_max_versions
  pub some_uploads : pos 1 ≤ℤ c.backup_concurrency
  pub cap_not_negative : pos 0 ≤ℤ c.backup_total_cap_gb
  pub some_hashes : pos 1 ≤ℤ c.auth_concurrency
  pub some_calls : pos 1 ≤ℤ c.infer_concurrency
  pub upload_time : pos 1 ≤ℤ c.backup_timeout
  pub infer_time : pos 1 ≤ℤ c.infer_timeout

module _ {A B : Type 0} (P : A → Type 0) (Q : B → Type 0) where
  Loads-bind :
      (m : Loaded A) (f : A → Loaded B)
      → Loads P m
      → ((a : A) → P a → Loads Q (f a))
      → Loads Q (m >>= f)
  unfolding then_load
  Loads-bind (loaded a) f h k = k a h.holds
  Loads-bind (refused key v) f h k = record { holds = tt }

Loads-refuse_if : (b : Bool) (key v : Bytes) → Loads (λ _. b ≡ false) (refuse_if b key v)
Loads-refuse_if true key v = record { holds = tt }
Loads-refuse_if false key v = record { holds = refl }

Loads-parsed : {A : Type 0} (key v : Bytes) (o : Option A) → Loads (λ _. Unit {0}) (parsed key v o)
Loads-parsed key v none = record { holds = tt }
Loads-parsed key v (some a) = record { holds = tt }

Loads-at_least :
    (least : ℤ) (key v : Bytes) (o : Option ℤ) → Loads (λ n. least ≤ℤ n) (at_least least key v o)
Loads-at_least least key v none = record { holds = tt }
Loads-at_least least key v (some n) = elim (Bool-cases (ltb_ℤ n least)) [
  | inl e ↦ record { holds = rw e tt }
  | inr e ↦ record { holds = rw e (ground arith) }
]

make-IsValid :
    (c : Config)
    → is_one_of (bytes "dev" ∷ bytes "int" ∷ bytes "prod" ∷ []) c.env ≡ true
    → bytes_eq c.env (bytes "prod") && bytes_eq c.backend (bytes "stub") ≡ false
    → is_one_of (bytes "cls" ∷ bytes "mean" ∷ []) c.pooling ≡ true
    → pos 1 ≤ℤ c.max_backup_mb
    → pos 1 ≤ℤ c.backup_max_versions
    → pos 1 ≤ℤ c.backup_concurrency
    → pos 0 ≤ℤ c.backup_total_cap_gb
    → pos 1 ≤ℤ c.auth_concurrency
    → pos 1 ≤ℤ c.infer_concurrency
    → pos 1 ≤ℤ c.backup_timeout
    → pos 1 ≤ℤ c.infer_timeout
    → IsValid c
make-IsValid cfg a b c d e f g h i j k = record {
  known_env = a;
  no_stub_in_prod = b;
  known_pooling = c;
  some_mb = d;
  some_versions = e;
  some_uploads = f;
  cap_not_negative = g;
  some_hashes = h;
  some_calls = i;
  upload_time = j;
  infer_time = k;
}

not-false : (b : Bool) → not b ≡ false → b ≡ true
not-false b h = ground arith

module _ (parse_duration : Bytes → Option ℤ) (environment : Environment) where
  int_at_least-Loads :
      (least : ℤ) (key fallback : Bytes)
      → Loads (λ n. least ≤ℤ n) (int_at_least parse_duration environment least key fallback)
  int_at_least-Loads least key fallback =
      Loads-at_least least key (getenv environment key (bytes ""))
        (parse_int (getenv environment key fallback))

  duration_above_zero-Loads :
      (key fallback : Bytes)
      → Loads (λ n. pos 1 ≤ℤ n) (duration_above_zero parse_duration environment key fallback)
  duration_above_zero-Loads key fallback =
      Loads-at_least (pos 1) key (getenv environment key (bytes ""))
        (parse_duration (getenv environment key fallback))

  -- The settings that load are valid: the environment is known, production does not run the stub,
  -- the pooling is known, no limit is below one (the total cap may be zero), no timeout is zero or
  -- negative.
  pub load-IsValid : Loads IsValid (load parse_duration environment)
  unfolding load
  load-IsValid =
      Loads-bind (λ _. Unit {0}) IsValid _ _ (Loads-parsed _ _ _)
        λ url _.
          Loads-bind (λ _. _) IsValid _ _ (Loads-refuse_if _ _ _)
            λ _ env.
              Loads-bind (λ _. _) IsValid _ _ (Loads-refuse_if _ _ _)
                λ _ no_stub.
                  Loads-bind (λ _. _) IsValid _ _ (Loads-refuse_if _ _ _)
                    λ _ pooling.
                      Loads-bind _ IsValid _ _
                        (int_at_least-Loads (pos 1) (bytes "MAX_BACKUP_MB") (bytes "1024"))
                        λ _ a.
                          Loads-bind _ IsValid _ _
                            (int_at_least-Loads (pos 1) (bytes "BACKUP_MAX_VERSIONS") (bytes "10"))
                            λ _ b.
                              Loads-bind _ IsValid _ _
                                (duration_above_zero-Loads (bytes "BACKUP_TIMEOUT") (bytes "30m"))
                                λ _ c.
                                  Loads-bind _ IsValid _ _
                                    (int_at_least-Loads (pos 1) (bytes "BACKUP_CONCURRENCY")
                                      (bytes "4"))
                                    λ _ d.
                                      Loads-bind _ IsValid _ _
                                        (int_at_least-Loads (pos 0) (bytes "BACKUP_TOTAL_CAP_GB")
                                          (bytes "0"))
                                        λ _ e.
                                          Loads-bind _ IsValid _ _
                                            (int_at_least-Loads (pos 1) (bytes "AUTH_CONCURRENCY")
                                              (bytes "4"))
                                            λ _ f.
                                              Loads-bind _ IsValid _ _
                                                (int_at_least-Loads (pos 1)
                                                  (bytes "INFER_CONCURRENCY") (bytes "2"))
                                                λ _ g.
                                                  Loads-bind _ IsValid _ _
                                                    (duration_above_zero-Loads
                                                      (bytes "INFER_TIMEOUT") (bytes "30s"))
                                                    λ _ h.
                                                      Loads-bind (λ _. Unit {0}) IsValid _ _
                                                        (Loads-parsed _ _ _)
                                                        λ _ _.
                                                          Loads-bind (λ _. Unit {0}) IsValid _ _
                                                            (Loads-parsed _ _ _)
                                                            λ _ _. record {
                                                            holds =
                                                            make-IsValid _ (not-false _ env) no_stub
                                                            (not-false _ pooling) a b d e f g c h;
                                                            }
