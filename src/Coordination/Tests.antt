-- ===== src/Coordination/Tests.antt =====
-- Runs of the theorems on what the replicas share.
use sendly.Common.{
  Bool, true, ◌≡◌, ◌≤◌, refl, some, List, [], ◌∷◌, ok, err, Db, arith, pure, raise, handle,
  with_option, ◌>>=◌, statement, query, transaction, end_transaction,
}
use sendly.Models.{Bytes, driver, Time}
use sendly.Coordination.Store.{
  Tables, truncate, check_rate_limit, purge_rate_limit_counters, purge_token_refresh_results,
  shared_refresh, refresh_now,
}
use sendly.Coordination.Limits
use sendly.Coordination.Jobs
use sendly.Coordination.Refreshes

abbrev empty : Db (Tables (Unit {0}))
empty = record {
  faults = [];
  tables = record {
    counters = [];
    refreshes = [];
    runs = record { name = "purge"; last_run_at = 3 } ∷ [];
    rest = tt;
  };
}

abbrev checks : List Limits.Call
checks =
    Limits.check 5 "k" 7 10
    ∷ Limits.check 12 "k" 2 10
    ∷ Limits.check 13 "j" 9 10
    ∷ Limits.check 15 "k" 2 10
    ∷ Limits.purge 19 30
    ∷ Limits.check 19 "k" 2 10
    ∷ Limits.check 21 "k" 2 10
    ∷ []

-- Two of the three requests in the window are allowed, and two in other windows.
two_allowed : Limits.allowed_in "k" 10 checks empty ≡ 2
unfolding Limits.allowed_in truncate check_rate_limit purge_rate_limit_counters statement pure ◌>>=◌
two_allowed = refl

allowed-at_most_example : Limits.allowed_in "k" 10 checks empty ≤ 2
unfolding truncate
allowed-at_most_example = Limits.allowed-at_most "k" 10 2 0 checks empty (
  (λ e. (omega arith, λ e. omega arith)),
  (
    (λ e. (omega arith, λ e. omega arith)),
    (
      (λ e. absurd (cc)),
      (
        (λ e. (omega arith, λ e. omega arith)),
        (
          (λ e. omega arith),
          ((λ e. (omega arith, λ e. omega arith)), ((λ e. (omega arith, λ e. omega arith)), tt)),
        ),
      ),
    ),
  ),
)

abbrev job : Time → Jobs.JobCall (Unit {0})
job now = record { now = now; lock_free = true; name = "purge"; interval = 5; fn = λ w. w }

run_times-spaced_example :
    Jobs.SpacedAfter 5 (some 3) (Jobs.run_times "purge" (job 4 ∷ job 9 ∷ job 10 ∷ []) empty)
run_times-spaced_example =
    Jobs.run_times-spaced "purge" 5 (job 4 ∷ job 9 ∷ job 10 ∷ []) empty (refl, tt)
      ((λ e. refl), ((λ e. refl), ((λ e. refl), tt)))

shared_refresh-once_example : ◌≡◌ {A = Bytes × Bool} (b'a' ∷ [], true) (b'a' ∷ [], true)
unfolding shared_refresh refresh_now transaction end_transaction query statement pure raise handle
    with_option ◌>>=◌ purge_token_refresh_results
shared_refresh-once_example =
    Refreshes.shared_refresh-once 1 "t" 9 (ok (b'a' ∷ [])) empty (b'a' ∷ [])
      (Refreshes.purge 4 ∷ []) 5 9 (err driver) (b'a' ∷ [], true) refl (ground arith, tt)
      (ground arith) refl
