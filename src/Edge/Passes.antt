-- ===== src/Edge/Passes.antt =====
-- internal/middleware/ratelimit.go: the requests that the strict limiter lets through.
use native.Mathlib.Nat.{div-le_self}
use sendly.Common.{
  ℕ, ◌+◌, ◌-◌, ◌/◌, ◌≤◌, String, Bool, true, false, not, ◌&&◌, ◌||◌, ◌≡◌, refl, ap, inl, inr, ◌==◌,
  string_eq, nat_eq, ltb, leb, Option, none, some, List, [], ◌∷◌, if◌then◌else◌, All, arith,
  Bool-cases, Option-cases, Result, ok, err, pure, try, handle, with_option, ◌>>=◌, Db, ℤ,
}
use sendly.Models.{Time, Error}
use sendly.AccountStatus.Status.{standard_rate_limits}
use sendly.Coordination.Store.{Tables, truncate, check_rate_limit}
use sendly.Coordination.Limits
use sendly.Edge.Request.{CnsUser, Request, Outcome, next, aborted}
use sendly.Edge.Account.{user_allows}
use sendly.Edge.Limiter.{RateLimiter, restricted_limit, rate_limit_key, checked, strict_handler}

floored :
    (q max : ℕ)
    → q ≤ max
    → 1 ≤ max
    → (1 ≤ (if ltb q 1 then 1 else q)) × ((if ltb q 1 then 1 else q) ≤ max)
floored q max h some_allowed = ground arith

-- The limit of a restricted account is at least one request and never above the common one.
pub restricted_limit-within :
    (user : Option CnsUser) (max divisor : ℕ) (now : Time)
    → 1 ≤ max
    → (1 ≤ restricted_limit user max divisor now) × (restricted_limit user max divisor now ≤ max)
unfolding restricted_limit
restricted_limit-within user max divisor now some_allowed =
    elim (Bool-cases (leb divisor 1 || user_allows user standard_rate_limits now)) [
      | inl free ↦ rw free (some_allowed, omega arith)
      | inr bound ↦ rw bound (floored (max / divisor) max (div-le_self max divisor) some_allowed)
    ]

pub record Visit : Type 0 where
  pub now : Time
  pub rl : RateLimiter
  pub request : Request

abbrev pub is_next : Result Error Outcome → Bool
is_next (ok next) = true
is_next r = false

abbrev pub has_key : Option String → String → Bool
has_key none key = false
has_key (some k) key = k == key

module _ (decimal : ℤ → String) where
  abbrev pub key_of : Visit → Option String
  key_of v = rate_limit_key decimal v.request v.rl.key_prefix

  abbrev pub InWindow : String → Time → ℕ → Visit → Type 0
  InWindow key start max v =
      has_key (key_of v) key ≡ true
      → (truncate v.now v.rl.window ≡ start) × (1 ≤ v.rl.max_per_min) × (v.rl.max_per_min ≤ max)

  inside_call :
      (key : String) (start : Time) (max : ℕ) (v : Visit) (k : String)
      → key_of v ≡ some k
      → InWindow key start max v
      → Limits.In key start max (
          Limits.check v.now k
            (restricted_limit v.request.user v.rl.max_per_min v.rl.restricted_divisor v.now)
            v.rl.window)
  inside_call key start max v k known inside mine =
      let (now_in, some_allowed, at_most) = inside (rw known mine) in
      let within =
        restricted_limit-within v.request.user v.rl.max_per_min v.rl.restricted_divisor v.now
          some_allowed in
      (now_in, omega (arith, within.1, at_most))

module _ {W : Type 0} (decimal : ℤ → String) where
  abbrev visited : Visit → Db (Tables W) → Result Error Outcome × Db (Tables W)
  visited v db = strict_handler decimal v.now v.rl v.request db

  -- How many of the visits with the key are let through.
  unfoldable pub passed : String → List Visit → Db (Tables W) → ℕ
  passed key [] db = 0
  passed key (v ∷ vs) db =
      (if has_key (key_of decimal v) key && is_next (visited v db).0 then 1 else 0)
      + passed key vs (visited v db).1

  -- One visit is one check of the counter, and passes only if that allows it.
  visit-checks :
      (key : String) (v : Visit) (k : String) (db : Db (Tables W))
      → key_of decimal v ≡ some k
      → ((visited v db).1
          ≡ (check_rate_limit v.now k
              (restricted_limit v.request.user v.rl.max_per_min v.rl.restricted_divisor v.now)
              v.rl.window
              db).1)
        × (is_next (visited v db).0 ≡ true
            → Limits.is_allowed
                (check_rate_limit v.now k
                  (restricted_limit v.request.user v.rl.max_per_min v.rl.restricted_divisor v.now)
                  v.rl.window
                  db).0
              ≡ true)
  unfolding strict_handler checked with_option try pure handle ◌>>=◌
  visit-checks key v k db e = rw e (
      after (
        check_rate_limit v.now k
          (restricted_limit v.request.user v.rl.max_per_min v.rl.restricted_divisor v.now)
          v.rl.window db))
    where
      after :
          (x : Result Error Bool × Db (Tables W))
          → ((handle {E = Error} x.0
                (λ allowed. pure (if not allowed then aborted 429 "RATE_LIMITED" else next))
                (λ e. pure (aborted 503 "SERVICE_ERROR"))
                x.1).1
              ≡ x.1)
            × (is_next
                    (handle {E = Error} x.0
                      (λ allowed. pure (if not allowed then aborted 429 "RATE_LIMITED" else next))
                      (λ e. pure (aborted 503 "SERVICE_ERROR"))
                      x.1).0
                  ≡ true
                → Limits.is_allowed x.0 ≡ true)
      after (ok true, db') = (refl, λ h. refl)
      after (ok false, db') = (refl, λ h. absurd (cc))
      after (err x, db') = (refl, λ h. absurd (cc))

  unknown_lem :
      (v : Visit) (db : Db (Tables W))
      → key_of decimal v ≡ none
      → visited v db ≡ (ok (aborted 400 "UNKNOWN_IP"), db)
  unfolding strict_handler with_option pure
  unknown_lem v db e = rw e refl

  -- The strict limiter lets at most the limit of requests through that have one key and fall in one
  -- window, whichever accounts are restricted and whichever statements fail.
  pub passed-at_most :
      (key : String) (start : Time) (max : ℕ) (vs : List Visit) (db : Db (Tables W))
      → All (InWindow decimal key start max) vs
      → passed key vs db ≤ max - Limits.used key start db
  unfolding passed
  passed-at_most key start max [] db inside = omega arith
  passed-at_most key start max (v ∷ vs) db inside = elim (Option-cases (key_of decimal v)) [
    | inl unknown ↦
        rw (unknown_lem v db unknown, unknown)
          (ground (arith, passed-at_most key start max vs db inside.1))
    | inr (k, known) ↦
        let limit =
          restricted_limit v.request.user v.rl.max_per_min v.rl.restricted_divisor v.now in
        let call = Limits.check v.now k limit v.rl.window in
        let (same, counted) = visit-checks key v k db known in
        let used_same = ap (λ (d : Db (Tables W)). Limits.used key start d) same in
        let own = inside_call decimal key start max v k known inside.0 in
        rw known (
          ground (
            arith,
            counted,
            used_same,
            Limits.call_used key start max call db own,
            passed-at_most key start max vs (visited v db).1 inside.1,
          ))
  ]
