-- ===== src/Coordination/Limits.antt =====
-- internal/storage/coordination.go: the fixed windows of CheckRateLimit.
use sendly.Common.{
  ℕ, ◌+◌, ◌-◌, ◌≤◌, ◌<◌, String, Bool, true, false, ◌&&◌, ◌≡◌, ◌⊎◌, refl, ap, ◌∙◌, inl, inr, ◌==◌,
  nat_eq, string_eq, ltb, Option, none, some, List, [], ◌∷◌, if◌then◌else◌, find, exists, delete,
  arith, Bool-cases, Result, ok, err, pure, ◌>>=◌, Db, is_faulty, statement, ==→eq,
}
use sendly.Common.Keyed.{
  find-update, find-update_other, change_if, none-exists, find-exists, find-some,
}
use sendly.Models.{Time, Error}
use sendly.Coordination.Store.{
  RateLimitCounter, Tables, truncate, counts, counted_again, count_request, check_rate_limit,
  purge_rate_limit_counters,
}

pub data Call : Type 0 where
  check : Time → String → ℕ → Time → Call
  purge : Time → Time → Call

abbrev pub is_allowed : Result Error Bool → Bool
is_allowed (ok b) = b
is_allowed (err e) = false

-- The counter of a window.
abbrev pub used_by : Time → Option RateLimitCounter → ℕ
used_by start none = 0
used_by start (some c) = if c.window_start == start then c.count else 0

-- What a call has to be so that it says something of one key and one window.
abbrev pub In : String → Time → ℕ → Call → Type 0
In key start max (check now k m window) =
    (k == key) ≡ true → (truncate now window ≡ start) × (m ≤ max)
In key start max (purge now older_than) = now ≤ start + older_than

-- A purge of windows that started long ago does not touch the counter of a running window.
purged :
    (key : String) (start now older_than : Time) (cs : List RateLimitCounter)
    → now ≤ start + older_than
    → used_by start (find (counts key) cs)
      ≤ used_by start (
          find
            (counts key)
            (delete (λ (c : RateLimitCounter). ltb (c.window_start + older_than) now) cs))
purged key start now older_than [] h = omega arith
purged key start now older_than (c ∷ cs) h =
    ground (arith, purged key start now older_than cs h, nat_eq.reflects c.window_start start)

-- The requests with the key come in the order of their windows, from the window `at` on, and those in the
-- window `start` have a limit up to `max`; a purge spares that window, until a later one has begun.
abbrev pub Timely : String → Time → ℕ → Time → List Call → Type 0
Timely key start max at [] = Unit
Timely key start max at (check now k m window ∷ calls) =
    ((k == key) ≡ true → (at ≤ truncate now window) × (truncate now window ≡ start → m ≤ max))
    × Timely key start max (if k == key then truncate now window else at) calls
Timely key start max at (purge now older_than ∷ calls) =
    (at ≤ start → now ≤ start + older_than) × Timely key start max at calls

module _ {W : Type 0} where
  abbrev pub used : String → Time → Db (Tables W) → ℕ
  used key start db = used_by start (find (counts key) db.tables.counters)

  abbrev pub called : Call → Db (Tables W) → Db (Tables W)
  called (check now key max window) db = (check_rate_limit now key max window db).1
  called (purge now older_than) db = (purge_rate_limit_counters now older_than db).1

  -- Whether a call allows a request with the key.
  abbrev pub is_allowed_by : String → Call → Db (Tables W) → Bool
  is_allowed_by key (check now k max window) db =
      if k == key then is_allowed (check_rate_limit now k max window db).0 else false
  is_allowed_by key (purge now older_than) db = false

  counted :
      (key : String) (start : Time) (t : Tables W) (o : Option RateLimitCounter)
      → find (counts key) t.counters ≡ o
      → ((count_request key start t).0 ≡ used_by start o + 1)
        × (used_by start (find (counts key) (count_request key start t).1.counters)
            ≡ used_by start o + 1)
  counted key start t none e =
      let absent = none-exists (counts key) t.counters e in
      rw absent (refl, ground (arith, string_eq.reflects key key))
  counted key start t (some c) e =
      let there = find-exists (counts key) t.counters c e in
      let after =
        find-update (counts key) (counts key) (counted_again start) t.counters (λ x. refl) in
      let mine = find-some (counts key) t.counters c e in
      let now_at = after ∙ ap (change_if (counts key) (counted_again start)) e in
      rw (there, now_at, mine)
        (ground (arith, nat_eq.reflects start start), ground (arith, nat_eq.reflects start start))

  counted_other :
      (key k : String) (start : Time) (t : Tables W)
      → (k == key) ≡ false
      → find (counts key) (count_request k start t).1.counters ≡ find (counts key) t.counters
  counted_other key k start t e = elim (Bool-cases (exists (counts k) t.counters)) [
    | inl there ↦ rw there (
        find-update_other (counts key) (counts k) (counted_again start) t.counters (λ x. refl)
          (λ x hit. apart x hit))
    | inr absent ↦ rw (absent, e) refl
  ]
    where
      apart : (x : RateLimitCounter) → counts key x ≡ true → counts k x ≡ false
      apart x hit = ground (
        arith,
        ==→eq x.key key hit,
        string_eq.reflects x.key k,
        string_eq.reflects k key,
        string_eq.reflects x.key key,
      )

  -- What one call does to the counter of the window.
  pub call_used :
      (key : String) (start : Time) (max : ℕ) (c : Call) (db : Db (Tables W))
      → In key start max c
      → ((is_allowed_by key c db ≡ false) × (used key start db ≤ used key start (called c db)))
        ⊎ ((is_allowed_by key c db ≡ true → used key start db + 1 ≤ max)
            × (used key start (called c db) ≡ used key start db + 1))
  unfolding check_rate_limit purge_rate_limit_counters statement pure ◌>>=◌
  call_used key start max (check now k m window) db inside =
      elim (Bool-cases (is_faulty db.faults)) [
        | inl bad ↦ inl (ground (arith, bad))
        | inr good ↦ elim (Bool-cases (k == key)) [
          | inl mine ↦
              let (now_in, m_is) = inside mine in
              let k_is = ==→eq k key mine in
              inr (
                (λ passed.
                    ground (arith, now_in, m_is, k_is, good, counted key start db.tables _ refl)),
                ground (arith, now_in, k_is, good, counted key start db.tables _ refl),
              )
          | inr other ↦ inl (
              ground
                (arith, other, good, counted_other key k (truncate now window) db.tables other))
        ]
      ]
  call_used key start max (purge now older_than) db inside =
      elim (Bool-cases (is_faulty db.faults)) [
        | inl bad ↦ inl (ground (arith, bad))
        | inr good ↦
            inl (
              refl,
              ground (arith, good, purged key start now older_than db.tables.counters inside),
            )
      ]

  -- How many of the calls allow a request with the key in the window.
  abbrev pub is_allowed_in : String → Time → Call → Db (Tables W) → Bool
  is_allowed_in key start (check now k max window) db =
      is_allowed_by key (check now k max window) db && truncate now window == start
  is_allowed_in key start (purge now older_than) db = false

  unfoldable pub allowed_in : String → Time → List Call → Db (Tables W) → ℕ
  allowed_in key start [] db = 0
  allowed_in key start (c ∷ calls) db =
      (if is_allowed_in key start c db then 1 else 0) + allowed_in key start calls (called c db)

  -- Once a later window has begun, the window gets nothing more.
  late_none :
      (key : String) (start : Time) (max : ℕ) (at : Time) (calls : List Call) (db : Db (Tables W))
      → start < at
      → Timely key start max at calls
      → allowed_in key start calls db ≡ 0
  unfolding allowed_in
  late_none key start max at [] db late timely = refl
  late_none key start max at (check now k m window ∷ calls) db late timely =
      elim (Bool-cases (k == key)) [
        | inl mine ↦ ground (
          arith,
          mine,
          timely.0 mine,
          late_none key start max (truncate now window) calls (called (check now k m window) db),
          rw mine at timely.1,
        )
        | inr other ↦ ground (
          arith,
          other,
          late_none key start max at calls (called (check now k m window) db) late,
          rw other at timely.1,
        )
      ]
  late_none key start max at (purge now older_than ∷ calls) db late timely =
      ground
        (arith, late_none key start max at calls (called (purge now older_than) db) late timely.1)

  -- What the window has left bounds what it gets, until a later one has begun.
  window_lem :
      (key : String) (start : Time) (max : ℕ) (calls : List Call) (db : Db (Tables W))
      → Timely key start max start calls
      → allowed_in key start calls db ≤ max - used key start db
  unfolding allowed_in
  window_lem key start max [] db timely = omega arith
  window_lem key start max (check now k m window ∷ calls) db timely =
      let call = check now k m window in
      elim (Bool-cases (k == key)) [
        | inr other ↦ ground (
          arith,
          other,
          call_used key start max call db (λ mine. absurd (cc)),
          window_lem key start max calls (called call db) (rw other at timely.1),
        )
        | inl mine ↦ elim (Bool-cases (truncate now window == start)) [
          | inl same ↦
              let now_in = ==→eq (truncate now window) start same in
              ground (
                arith,
                mine,
                same,
                call_used key start max call db (λ e. (now_in, (timely.0 mine).1 now_in)),
                window_lem key start max calls (called call db) (rw (mine, now_in) at timely.1),
              )
          | inr later ↦ ground (
            arith,
            mine,
            later,
            late_none key start max (truncate now window) calls (called call db)
                (ground (arith, later, timely.0 mine)) (rw mine at timely.1),
          )
        ]
      ]
  window_lem key start max (purge now older_than ∷ calls) db timely = ground (
    arith,
    call_used key start max (purge now older_than) db (timely.0 (omega arith)),
    window_lem key start max calls (called (purge now older_than) db) timely.1,
  )

  -- At most `max` of the requests with one key that fall in one window are allowed, on all replicas
  -- together, where the requests with that key reach the database in the order of their windows, whatever
  -- other requests, purges that spare the running window, and failed statements come between.
  pub allowed-at_most :
      (key : String) (start : Time) (max : ℕ) (at : Time) (calls : List Call) (db : Db (Tables W))
      → Timely key start max at calls
      → allowed_in key start calls db ≤ max
  unfolding allowed_in
  allowed-at_most key start max at [] db timely = omega arith
  allowed-at_most key start max at (check now k m window ∷ calls) db timely =
      let call = check now k m window in
      elim (Bool-cases (k == key)) [
        | inr other ↦ ground (
          arith,
          other,
          allowed-at_most key start max at calls (called call db) (rw other at timely.1),
        )
        | inl mine ↦ elim (Bool-cases (truncate now window == start)) [
          | inr another ↦ ground (
            arith,
            mine,
            another,
            allowed-at_most key start max (truncate now window) calls (called call db)
                (rw mine at timely.1),
          )
          | inl same ↦
              let now_in = ==→eq (truncate now window) start same in
              let all = window_lem key start max (call ∷ calls) db (
                (λ e. (omega (arith, now_in), (timely.0 mine).1)),
                rw mine (rw mine at timely.1),
              ) in
              omega (arith, all)
        ]
      ]
  allowed-at_most key start max at (purge now older_than ∷ calls) db timely =
      ground
        (arith, allowed-at_most key start max at calls (called (purge now older_than) db) timely.1)
