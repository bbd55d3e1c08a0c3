-- ===== src/Coordination/Store.antt =====
-- internal/storage/coordination.go: the counters of the rate limits, the results of refreshes and the
-- runs of the jobs. `now` is both the clock of the replica and the database's NOW(). Whether
-- `pg_try_advisory_lock` gives the lock is an argument.
use sendly.Common.{
  ℕ, ◌+◌, ◌-◌, ◌%◌, String, Bool, true, false, not, ◌&&◌, ◌==◌, nat_eq, string_eq, ltb, leb, Option,
  none, some, List, ◌∷◌, if◌then◌else◌, find, exists, update, delete, count, Result, Action, pure,
  with_option, handle, raise, modify, ◌>>=◌, ◌>>◌, Db, statement, query, transaction,
}
use sendly.Models.{Time, Bytes, Error, driver}

pub record RateLimitCounter : Type 0 where
  pub key : String
  pub window_start : Time
  pub count : ℕ

pub record TokenRefreshResult : Type 0 where
  pub token_id : String
  pub sealed : Bytes
  pub expires_at : Time

pub record JobRun : Type 0 where
  pub name : String
  pub last_run_at : Time

-- `W` is the rest of the database, and whatever else a job changes.
pub record Tables (W : Type 0) : Type 0 where
  pub counters : List RateLimitCounter
  pub refreshes : List TokenRefreshResult
  pub runs : List JobRun
  pub rest : W

abbrev pub Store : Type 0 → Type 0 → Type 0
Store W A = Action Error (Db (Tables W)) A

-- `Truncate`, which leaves a time alone where the window is not positive.
unfoldable pub truncate : Time → Time → Time
truncate now window = if window == 0 then now else now - now % window

abbrev pub counts : String → RateLimitCounter → Bool
counts key c = c.key == key

abbrev pub counted_again : Time → RateLimitCounter → RateLimitCounter
counted_again start c = record c {
  count = if c.window_start == start then c.count + 1 else 1;
  window_start = start;
}

abbrev pub count_of : Option RateLimitCounter → ℕ
count_of none = 1
count_of (some c) = c.count

abbrev pub is_token : String → TokenRefreshResult → Bool
is_token token_id r = r.token_id == token_id

abbrev pub is_job : String → JobRun → Bool
is_job name j = j.name == name

-- The `WHERE` of the `DO UPDATE`.
abbrev pub is_due : Time → String → Time → JobRun → Bool
is_due now name interval j = is_job name j && leb (j.last_run_at + interval) now

module _ {W : Type 0} where
  -- `INSERT … ON CONFLICT (key) DO UPDATE … RETURNING count`
  abbrev pub count_request : String → Time → Tables W → ℕ × Tables W
  count_request key start t =
      if exists (counts key) t.counters
      then (
        count_of (find (counts key) (update (counts key) (counted_again start) t.counters)),
        record t { counters = update (counts key) (counted_again start) t.counters },
      )
      else (
        1,
        record t { counters = record { key = key; window_start = start; count = 1 } ∷ t.counters },
      )

  unfoldable pub check_rate_limit : Time → String → ℕ → Time → Store W Bool
  unfolding truncate
  check_rate_limit now key max_requests window = do
    n ← statement driver (count_request key (truncate now window))
    pure (leb n max_requests)

  unfoldable pub purge_rate_limit_counters : Time → Time → Store W ℕ
  purge_rate_limit_counters now older_than =
      let test = λ (c : RateLimitCounter). ltb (c.window_start + older_than) now in
      statement driver
        (λ t. (count test t.counters, record t { counters = delete test t.counters }))

  -- `ON CONFLICT (token_id) DO UPDATE`
  abbrev pub store_result : TokenRefreshResult → Tables W → Unit {0} × Tables W
  store_result r t =
      if exists (is_token r.token_id) t.refreshes
      then (
        tt,
        record t {
          refreshes =
              update (is_token r.token_id)
                (λ old. record old { sealed = r.sealed; expires_at = r.expires_at }) t.refreshes;
        },
      )
      else (tt, record t { refreshes = r ∷ t.refreshes })

  unfoldable pub refresh_now : Time → String → Time → Result Error Bytes → Store W (Bytes × Bool)
  refresh_now now token_id ttl refreshed =
      handle refreshed
        (λ sealed. do
          statement driver (
              store_result
                (record { token_id = token_id; sealed = sealed; expires_at = now + ttl }))
          pure (sealed, false))
        raise

  -- `refreshed` is what a call of `refresh` would answer.
  unfoldable pub shared_refresh : Time → String → Time → Result Error Bytes → Store W (Bytes × Bool)
  shared_refresh now token_id ttl refreshed = transaction driver (do
    query driver (λ t. tt)
    found ← query driver (λ t. find (λ r. is_token token_id r && ltb now r.expires_at) t.refreshes)
    with_option found (refresh_now now token_id ttl refreshed) (λ r. pure (r.sealed, true)))

  unfoldable pub purge_token_refresh_results : Time → Store W ℕ
  purge_token_refresh_results now =
      let test = λ (r : TokenRefreshResult). ltb r.expires_at now in
      statement driver
        (λ t. (count test t.refreshes, record t { refreshes = delete test t.refreshes }))

  -- Whether the run was claimed: `RETURNING name` has a row then.
  abbrev pub claim_run : Time → String → Time → Tables W → Bool × Tables W
  claim_run now name interval t =
      if exists (is_job name) t.runs
      then (
        exists (is_due now name interval) t.runs,
        record t {
          runs = update (is_due now name interval) (λ j. record j { last_run_at = now }) t.runs;
        },
      )
      else (true, record t { runs = record { name = name; last_run_at = now } ∷ t.runs })

  -- What the job does, which reports nothing.
  abbrev pub work : (W → W) → Db (Tables W) → Db (Tables W)
  work fn db = record db { tables = record db.tables { rest = fn db.tables.rest } }

  -- Whether `fn` ran.
  unfoldable pub run_job : Time → Bool → String → Time → (W → W) → Store W Bool
  run_job now lock_free name interval fn = do
    query driver (λ t. tt)
    locked ← query driver (λ t. lock_free)
    if not locked then pure false else do
      claimed ← statement driver (claim_run now name interval)
      if not claimed then pure false else do modify (work fn); pure true
