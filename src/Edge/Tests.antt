-- ===== src/Edge/Tests.antt =====
-- Runs of the theorems on the middleware.
use sendly.Common.{true, ◌≡◌, ◌≤◌, refl, none, some, List, [], ◌∷◌, Db, pos, arith, String}
use sendly.AccountStatus.Text.{
  codes, trim_space, trim_left, trim_right, all_space, to_lower, same_codes,
}
use sendly.AccountStatus.Status.{parse, info_effective}
use sendly.Coordination.Store.{Tables, truncate}
use sendly.Edge.Request.{CnsUser, Request, next, aborted}
use sendly.Edge.Account.{
  account_status_gate, user_allows, user_status, is_api_path, suspended_allowed,
}
use sendly.Edge.Gate.{account_status_gate-closed}
use sendly.Edge.Limiter.{RateLimiter}
use sendly.Edge.Passes.{Visit, passed, passed-at_most}

abbrev suspended_user : CnsUser
suspended_user = record {
  id = pos 7;
  username = "u";
  account_status = some (record { status = "suspended"; expires_at = none });
}

abbrev request : Request
request = record {
  user = some suspended_user;
  method = "POST";
  path = "/api/upload";
  full_path = "/api/upload";
  client_ip = "1.2.3.4";
}

account_status_gate-closed_example :
    (is_api_path (codes "/api/upload") ≡ true
      → account_status_gate true 5 request ≡ aborted 403 "ACCOUNT_SUSPENDED")
    × (account_status_gate true 5 request ≡ next → suspended_allowed (codes "/api/upload") ≡ true)
unfolding user_allows user_status info_effective parse codes trim_space trim_left trim_right
    all_space to_lower same_codes
account_status_gate-closed_example = account_status_gate-closed true 5 request refl refl

abbrev empty : Db (Tables (Unit {0}))
empty = record {
  faults = [];
  tables = record { counters = []; refreshes = []; runs = []; rest = tt };
}

abbrev limiter : RateLimiter
limiter = record { max_per_min = 1; window = 10; key_prefix = "strict:"; restricted_divisor = 4 }

abbrev visits : List Visit
visits =
    record { now = 12; rl = limiter; request = request }
    ∷ record { now = 15; rl = limiter; request = request }
    ∷ []

abbrev key : String
key = "strict:user:7:route:/api/upload"

passed-at_most_example : passed (λ n. "7") key visits empty ≤ 1
unfolding truncate
passed-at_most_example =
    passed-at_most (λ n. "7") key 10 1 visits empty
      ((λ e. (refl, omega arith, omega arith)), ((λ e. (refl, omega arith, omega arith)), tt))
