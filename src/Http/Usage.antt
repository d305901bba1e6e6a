-- ===== src/Http/Usage.antt =====
-- deployables/backend/internal/httpapi/account.go: handleGetUsage.
use aime.Base.{◌||◌, Bool, Option, none, some, List, [], ◌∷◌, if◌then◌else◌}
use aime.Base.Int.{ℤ, pos, ◌+ℤ◌, ◌-ℤ◌, ◌*ℤ◌, ltb_ℤ, int64}
use aime.Base.Bytes.{Bytes, bytes}
use aime.Base.Decimal.{parse_int}
use aime.Store.Schema.{UsageEvent}
use aime.Store.Usage.{UsageRow, usage_summary}
use aime.Http.World.{
  usage_report, Handler, Identity, give, reply, fail_with, internal, on_store, identified, ◌>>=◌,
}

abbrev pub usage_days_default : ℤ
usage_days_default = pos 30

abbrev pub usage_days_max : ℤ
usage_days_max = pos 365

-- 24 hours in nanoseconds.
abbrev day : ℤ
day = pos 86_400_000_000_000

abbrev bad_days : Handler ℤ
bad_days = fail_with 400 (bytes "days must be 1..365")

abbrev in_range : Option ℤ → Handler ℤ
in_range none = bad_days
in_range (some n) = if ltb_ℤ n (pos 1) || ltb_ℤ usage_days_max n then bad_days else give n

unfoldable pub usage_days : Bytes → Handler ℤ
usage_days [] = give usage_days_default
usage_days (c ∷ cs) = in_range (parse_int (c ∷ cs))

-- The totals in int64.
unfoldable pub usage_total : List UsageRow → ℤ → ℤ → ℤ × ℤ
usage_total [] calls cost = (calls, cost)
usage_total (r ∷ rs) calls cost =
    usage_total rs (int64 (calls +ℤ pos r.calls)) (int64 (cost +ℤ r.cost_microcredits))

-- GET /v1/account/usage
unfoldable pub handle_get_usage :
    (UsageEvent → UsageRow → Bool) → ℤ → Option Identity → Bytes → Handler (Unit {0})
handle_get_usage before clock ctx query = do
  me ← identified ctx
  days ← usage_days query
  rows ← on_store (usage_summary before me.account_id (clock -ℤ days *ℤ day)) give (λ _. internal)
  reply 200 (
      usage_report (clock -ℤ days *ℤ day) rows (usage_total rows (pos 0) (pos 0)).0
        (usage_total rows (pos 0) (pos 0)).1)
