-- ===== src/Users/Profiles.antt =====
-- internal/storage/users.go: NextUserState on profiles that arrive out of order.
use sendly.Common.{
  String, Bool, true, false, ◌&&◌, ◌≡◌, ◌≢◌, ◌≤◌, ◌<◌, refl, sym, ◌∙◌, ap, inl, inr, Option, none,
  some, ◌==◌, nat_eq, string_eq, if◌then◌else◌, arith, Bool-cases,
}
use sendly.Models.{Time}
use sendly.Users.User.{
  User, active, inactive, user_status_eq, is_stale, CnsUserProfile, next_user_state, observed_by,
  not_before, take_profile, confirms_newer, synced, take_lock, settle,
}

-- What a page shows of a user, and when CNS said so.
abbrev pub shown : User → String × Option String × Option Time
shown u = (u.username, u.avatar_url, u.profile_observed_at)

shown-settle : (now : Time) (u : User) → shown (settle now u) ≡ shown u
shown-settle now u = elim (Bool-cases (u.status == active)) [
  | inl is ↦ rw is refl
  | inr isnt ↦ rw isnt refl
]

shown-lock :
    (lock : Option Bool) (newer : Bool) (u : User) → shown (take_lock lock newer u) ≡ shown u
shown-lock (some true) newer u = refl
shown-lock (some false) newer u = refl
shown-lock none newer u =
    elim (Bool-cases (u.status == inactive && is_stale u.inactive_reason && newer)) [
      | inl back ↦ rw back refl
      | inr stays ↦ rw stays refl
    ]

shown-synced : (newer : Bool) (at : Time) (u : User) → shown (synced newer at u) ≡ shown u
shown-synced true at u = refl
shown-synced false at u = refl

-- The profile as the three columns take it.
avatar : String → Option String
avatar url = if url == "" then none else some url

take :
    Time
    → CnsUserProfile
    → String × Option String × Option Time
    → String × Option String × Option Time
unfolding avatar
take at p x = if not_before at x.2 then (p.username, avatar p.avatar_url, some at) else x

shown-take :
    (at : Time) (p : CnsUserProfile) (u : User) → shown (take_profile at p u) ≡ take at p (shown u)
unfolding take avatar
shown-take at p u = elim (Bool-cases (not_before at u.profile_observed_at)) [
  | inl newer ↦ rw newer refl
  | inr older ↦ rw older refl
]

-- The order of two profiles does not matter.
take-swap :
    (a b : Time) (p q : CnsUserProfile) (x : String × Option String × Option Time)
    → a ≢ b
    → take b q (take a p x) ≡ take a p (take b q x)
unfolding take
take-swap a b p q (name, url, none) differ = ground arith
take-swap a b p q (name, url, some t) differ = ground arith

settled_clock : (now at : Time) → 0 < at → at ≤ now → observed_by now at ≡ at
settled_clock now at lt le = ground arith

shown-next :
    (u : User) (p : CnsUserProfile) (lock : Option Bool) (now : Time)
    → 0 < p.observed_at
    → p.observed_at ≤ now
    → shown (next_user_state (some u) p lock now) ≡ take p.observed_at p (shown u)
shown-next u p lock now lt le =
    let at = observed_by now p.observed_at in
    let newer = confirms_newer at (some u) in
    shown-settle now (take_lock lock newer (synced newer at (take_profile at p u)))
    ∙ shown-lock lock newer (synced newer at (take_profile at p u))
    ∙ shown-synced newer at (take_profile at p u)
    ∙ shown-take at p u
    ∙ ap (λ t. take t p (shown u)) (settled_clock now p.observed_at lt le)

-- Two profiles of a user that were observed at different times leave the same name, avatar and time
-- of observation in whichever order they arrive, whatever they say of the account's lock.
pub next_user_state-converges :
    (u : User) (p q : CnsUserProfile) (lock lock' : Option Bool) (first second : Time)
    → 0 < p.observed_at
    → 0 < q.observed_at
    → p.observed_at ≤ first
    → q.observed_at ≤ first
    → first ≤ second
    → p.observed_at ≢ q.observed_at
    → shown (next_user_state (some (next_user_state (some u) p lock first)) q lock' second)
      ≡ shown (next_user_state (some (next_user_state (some u) q lock' first)) p lock second)
next_user_state-converges u p q lock lock' first second lp lq le le' later differ =
    shown-next (next_user_state (some u) p lock first) q lock' second lq (omega arith)
    ∙ ap (λ x. take q.observed_at q x) (shown-next u p lock first lp le)
    ∙ take-swap p.observed_at q.observed_at p q (shown u) differ
    ∙ sym (ap (λ x. take p.observed_at p x) (shown-next u q lock' first lq le'))
    ∙ sym (shown-next (next_user_state (some u) q lock' first) p lock second lp (omega arith))
