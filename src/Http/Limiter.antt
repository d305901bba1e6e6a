-- ===== src/Http/Limiter.antt =====
-- deployables/backend/internal/httpapi/ratelimit.go: a token bucket for each client address. The
-- bucket itself is golang.org/x/time/rate, a parameter.
use aime.Base.{
  ℕ, ◌≤◌, ◌≡◌, refl, inl, inr, Bool, true, not, leb, Bool-cases, arith, Option, none, some, List,
  [], ◌∷◌, if◌then◌else◌,
}
use aime.Base.Lists.{length, delete, update, first}
use aime.Base.Int.{ℤ, pos, ◌-ℤ◌, ltb_ℤ, saturate}
use aime.Base.Bytes.{Bytes, bytes_eq, bytes}
use aime.Http.World.{rate_limited, Handler, raise_count, fail_with, when, ◌>>◌}

-- `rate.NewLimiter` with the limiter's rate and burst, and `AllowN(now, 1)`.
pub record Bucket : Type 1 where
  pub State : Type 0
  pub fresh : State
  pub allow_one : ℤ → State → Bool × State

-- Nanoseconds.
abbrev pub evict_after : ℤ
evict_after = pos 600_000_000_000

abbrev pub max_tracked : ℕ
max_tracked = 10_000

module _ (bucket : Bucket) where
  open bucket use {State, fresh, allow_one}

  pub record IpEntry : Type 0 where
    pub ip : Bytes
    pub lim : State
    pub last : ℤ

  pub record IpLimiter : Type 0 where
    pub seen : List IpEntry
    pub last_sweep : ℤ

  abbrev pub is_ip : Bytes → IpEntry → Bool
  is_ip ip e = bytes_eq e.ip ip

  abbrev pub is_stale : ℤ → ℤ → Bool
  is_stale now t = ltb_ℤ evict_after (saturate (now -ℤ t))

  -- Idle entries go at the first call after `evict_after`.
  unfoldable pub evict : ℤ → IpLimiter → IpLimiter
  evict now l =
      if is_stale now l.last_sweep
      then record { seen = delete (λ e. is_stale now e.last) l.seen; last_sweep = now }
      else l

  -- `AllowN` on the bucket of a tracked address.
  abbrev draw : Bytes → ℤ → IpEntry → IpLimiter → Bool × IpLimiter
  draw ip now e l = (
    (allow_one now e.lim).0,
    record l {
      seen = update (is_ip ip) (λ x. record x { lim = (allow_one now e.lim).1; last = now }) l.seen;
    },
  )

  -- A new address beyond `max_tracked` is let through, untracked.
  abbrev admit : Bytes → ℤ → IpLimiter → Option IpEntry → Bool × IpLimiter
  admit ip now l (some e) = draw ip now e l
  admit ip now l none =
      let e : IpEntry = record { ip = ip; lim = fresh; last = now } in
      if leb max_tracked (length l.seen)
      then (true, l)
      else draw ip now e (record l { seen = e ∷ l.seen })

  unfoldable pub allow : Bytes → ℤ → IpLimiter → Bool × IpLimiter
  unfolding evict
  allow ip now l = let l' = evict now l in admit ip now l' (first (is_ip ip) l'.seen)

  length-update :
      (p : IpEntry → Bool) (f : IpEntry → IpEntry) (es : List IpEntry)
      → length (update p f es) ≡ length es
  length-update p f [] = refl
  length-update p f (e ∷ es) = ground (arith, length-update p f es)

  length-delete : (p : IpEntry → Bool) (es : List IpEntry) → length (delete p es) ≤ length es
  length-delete p [] = omega arith
  length-delete p (e ∷ es) = ground (arith, length-delete p es)

  -- A call, among calls from any addresses at any times.
  pub data Reached : IpLimiter → Type 0 where
    started : (at : ℤ) → Reached (record { seen = []; last_sweep = at })
    called : (l : IpLimiter) (ip : Bytes) (now : ℤ) → Reached l → Reached (allow ip now l).1

  length-evict : (now : ℤ) (l : IpLimiter) → length (evict now l).seen ≤ length l.seen
  unfolding evict
  length-evict now l = elim (Bool-cases (is_stale now l.last_sweep)) [
    | inl e ↦ rw e (length-delete (λ x. is_stale now x.last) l.seen)
    | inr e ↦ rw e (omega arith)
  ]

  length-admit :
      (ip : Bytes) (now : ℤ) (l : IpLimiter) (o : Option IpEntry)
      → length l.seen ≤ max_tracked
      → length (admit ip now l o).1.seen ≤ max_tracked
  length-admit ip now l (some e) h = omega (
    arith,
    length-update (is_ip ip) (λ x. record x { lim = (allow_one now e.lim).1; last = now }) l.seen,
  )
  length-admit ip now l none h = elim (Bool-cases (leb max_tracked (length l.seen))) [
    | inl e ↦ rw e h
    | inr e ↦ rw e (grind (arith, length-update))
  ]

  -- Whatever addresses call and whenever, the limiter never tracks more than `max_tracked`.
  pub allow-Bounded : (l : IpLimiter) → Reached l → length l.seen ≤ max_tracked
  unfolding allow
  allow-Bounded l (started at) = omega arith
  allow-Bounded l (called l' ip now r) =
      length-admit ip now (evict now l') _ (omega (arith, length-evict now l', allow-Bounded l' r))

-- `RateLimit`: the handler behind it runs only if the bucket allows it.
unfoldable pub rate_limit : Bool → Handler (Unit {0}) → Handler (Unit {0})
rate_limit allowed handler =
    when (not allowed) (raise_count rate_limited >> fail_with 429 (bytes "too many requests"))
    >> handler
