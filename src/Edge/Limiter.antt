-- ===== src/Edge/Limiter.antt =====
-- internal/middleware/ratelimit.go: the three limiters, on the counters that all replicas share. Limits and
-- divisors are natural numbers; `decimal` prints an identifier as `%d` does.
use Prim.Native.String.{◌++◌ as append}
use sendly.Common.{
  ℕ, ◌/◌, String, Bool, not, ◌||◌, ◌==◌, string_eq, ltb, leb, Option, none, some, if◌then◌else◌,
  Result, pure, try, handle, with_option, ◌>>=◌, ℤ, is_nonpos,
}
use sendly.Models.{Time, Error}
use sendly.AccountStatus.Status.{standard_rate_limits}
use sendly.Coordination.Store.{Store, check_rate_limit}
use sendly.Edge.Request.{CnsUser, Request, Outcome, next, aborted}
use sendly.Edge.Account.{user_allows}

pub record RateLimiter : Type 0 where
  pub max_per_min : ℕ
  pub window : Time
  pub key_prefix : String
  pub restricted_divisor : ℕ

unfoldable pub restricted_limit : Option CnsUser → ℕ → ℕ → Time → ℕ
unfolding user_allows
restricted_limit user max divisor now =
    if leb divisor 1 || user_allows user standard_rate_limits now
    then max
    else if ltb (max / divisor) 1
    then 1
    else max / divisor

abbrev pub signed_in : Option CnsUser → Option CnsUser
signed_in none = none
signed_in (some u) = if is_nonpos u.id then none else some u

abbrev pub route_of : Request → String
route_of r = if r.full_path == "" then r.path else r.full_path

-- `none` where the address is unknown.
unfoldable pub rate_limit_key : (ℤ → String) → Request → String → Option String
rate_limit_key decimal r key_prefix = elim (signed_in r.user) [
  | some u ↦
      some
        (append key_prefix (append "user:" (append (decimal u.id) (append ":route:" (route_of r)))))
  | none ↦
      if r.client_ip == "unknown"
      then none
      else some
          (append key_prefix (append "ip:" (append r.client_ip (append ":route:" (route_of r)))))
]

module _ {W : Type 0} (decimal : ℤ → String) (now : Time) (rl : RateLimiter) (r : Request) where
  -- The check of the counter for a key.
  unfoldable pub checked : String → Store W (Result Error Bool)
  unfolding check_rate_limit restricted_limit
  checked key = try (
      check_rate_limit now key (restricted_limit r.user rl.max_per_min rl.restricted_divisor now)
        rl.window)

  -- An unknown address and a failing database let the request through.
  unfoldable pub handler : String → Store W Outcome
  unfolding rate_limit_key checked
  handler refusal = with_option (rate_limit_key decimal r rl.key_prefix) (pure next) (λ key. do
    answer ← checked key
    handle answer (λ allowed. pure (if not allowed then aborted 429 refusal else next))
        (λ e. pure next))

  unfoldable pub standard_handler : Store W Outcome
  unfolding handler
  standard_handler = handler "RATE_LIMITED"

  unfoldable pub download_handler : Store W Outcome
  unfolding handler
  download_handler = handler "DOWNLOAD_RATE_LIMITED"

  -- Neither an unknown address nor a failing database lets the request through.
  unfoldable pub strict_handler : Store W Outcome
  unfolding rate_limit_key checked
  strict_handler =
      with_option (rate_limit_key decimal r rl.key_prefix) (pure (aborted 400 "UNKNOWN_IP")) (λ key.
        do
          answer ← checked key
          handle answer (λ allowed. pure (if not allowed then aborted 429 "RATE_LIMITED" else next))
              (λ e. pure (aborted 503 "SERVICE_ERROR")))
