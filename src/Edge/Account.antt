-- ===== src/Edge/Account.antt =====
-- internal/middleware/account_status.go, internal/middleware/tiers.go. `now` is the clock.
use sendly.Common.{
  ℕ, String, Bool, true, false, not, ◌&&◌, ◌||◌, ◌==◌, nat_eq, string_eq, Option, none, some, List,
  [], ◌∷◌, if◌then◌else◌, exists,
}
use sendly.Models.{Time}
use sendly.AccountStatus.Text.{codes, same_codes}
use sendly.AccountStatus.Status.{
  Status, active, Capability, use_sendly, member_link_tier, allows, info_effective,
}
use sendly.Edge.Request.{CnsUser, Request, Outcome, next, aborted, suspended_page, has_prefix}

unfoldable pub user_status : Option CnsUser → Time → Status
unfolding info_effective
user_status none now = active
user_status (some u) now = info_effective u.account_status now

unfoldable pub user_allows : Option CnsUser → Capability → Time → Bool
unfolding user_status
user_allows user capability now = allows (user_status user now) capability

abbrev pub is_nobody : Option CnsUser → Bool
is_nobody none = true
is_nobody (some u) = false

unfoldable pub require_capability : Capability → Time → Request → Outcome
unfolding user_allows
require_capability capability now r =
    if not (is_nobody r.user) && not (user_allows r.user capability now)
    then aborted 403 "ACCOUNT_RESTRICTED"
    else next

abbrev pub suspended_allowed_prefixes : List String
suspended_allowed_prefixes = "/static/" ∷ "/auth/" ∷ "/webhooks/" ∷ "/.well-known/" ∷ []

abbrev pub suspended_allowed_paths : List String
suspended_allowed_paths =
    "/health" ∷ "/livez" ∷ "/readyz" ∷ "/robots.txt" ∷ "/sitemap.xml" ∷ "/tos" ∷ "/privacy"
    ∷ "/legal-notice" ∷ []

abbrev pub api_prefixes : List String
api_prefixes = "/api/" ∷ "/android/" ∷ "/desktop/" ∷ []

-- A path among some, and a path behind a prefix among some.
unfoldable pub is_one_of : List String → List ℕ → Bool
unfolding codes same_codes
is_one_of paths path = exists (λ p. same_codes (codes p) path) paths

unfoldable pub starts_with_one_of : List String → List ℕ → Bool
unfolding codes
starts_with_one_of prefixes path = exists (λ p. has_prefix (codes p) path) prefixes

unfoldable pub suspended_allowed : List ℕ → Bool
unfolding is_one_of starts_with_one_of
suspended_allowed path =
    is_one_of suspended_allowed_paths path || starts_with_one_of suspended_allowed_prefixes path

-- `strings.TrimSuffix(prefix, "/")`
unfoldable pub trim_slash : List ℕ → List ℕ
trim_slash [] = []
trim_slash (c ∷ []) = if c == b'/' then [] else c ∷ []
trim_slash (c ∷ d ∷ cs) = c ∷ trim_slash (d ∷ cs)

unfoldable pub is_api_path : List ℕ → Bool
unfolding codes same_codes trim_slash
is_api_path path =
    exists (λ p. has_prefix (codes p) path || same_codes path (trim_slash (codes p))) api_prefixes

-- `has_page` is `renderSuspended != nil`.
unfoldable pub account_status_gate : Bool → Time → Request → Outcome
unfolding user_allows suspended_allowed is_api_path codes
account_status_gate has_page now r =
    if is_nobody r.user || user_allows r.user use_sendly now
    then next
    else if suspended_allowed (codes r.path)
    then next
    else if is_api_path (codes r.path) || not has_page || not (r.method == "GET")
    then aborted 403 "ACCOUNT_SUSPENDED"
    else suspended_page

pub record Tier : Type 0 where
  pub max_file_size : ℕ
  pub allowed_durations : List String

-- The limits of the configuration.
pub record Config : Type 0 where
  pub max_file_size : ℕ
  pub auth_max_file_size : ℕ

abbrev pub guest_tier : Config → Tier
guest_tier cfg = record { max_file_size = cfg.max_file_size; allowed_durations = "7d" ∷ [] }

abbrev pub auth_tier : Config → Tier
auth_tier cfg = record { max_file_size = cfg.auth_max_file_size; allowed_durations = "90d" ∷ [] }

unfoldable pub get_tier : Config → Option CnsUser → Time → Tier
unfolding user_allows
get_tier cfg user now =
    if not (is_nobody user) && user_allows user member_link_tier now
    then auth_tier cfg
    else guest_tier cfg

unfoldable pub is_duration_allowed : Tier → String → Bool
is_duration_allowed t d = exists (λ allowed. d == allowed) t.allowed_durations
