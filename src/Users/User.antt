-- ===== src/Users/User.antt =====
-- internal/models/user.go, and the two functions of internal/storage/users.go that compute a row.
use sendly.Common.{
  ℕ, String, Bool, true, false, ◌&&◌, ◌||◌, ◌==◌, nat_eq, string_eq, ltb, leb, Option, none, some,
  if◌then◌else◌, nat_beq, Eq, arith, ◌≡◌, ◌↔◌, ℤ,
}
use sendly.Models.{Time}
use sendly.AccountStatus.Status.{Status, parse, effective}

pub data UserStatus : Type 0 where
  active inactive deleted : UserStatus

abbrev user_status_code : UserStatus → ℕ
user_status_code active = 0
user_status_code inactive = 1
user_status_code deleted = 2

abbrev pub user_status_beq : UserStatus → UserStatus → Bool
user_status_beq a b = nat_beq (user_status_code a) (user_status_code b)

pub user_status_beq_iff : (a b : UserStatus) → (user_status_beq a b ≡ true) ↔ (a ≡ b)
user_status_beq_iff a b = ground arith

instance abbrev pub user_status_eq : Eq UserStatus
user_status_eq = record { beq = user_status_beq; reflects = user_status_beq_iff }

pub data InactiveReason : Type 0 where
  locked stale : InactiveReason

pub record User : Type 0 where
  pub cns_user_id : ℤ
  pub username : String
  pub avatar_url : Option String
  pub status : UserStatus
  pub inactive_reason : Option InactiveReason
  pub created_at : Time
  pub last_synced_at : Time
  pub profile_observed_at : Option Time
  pub deactivated_at : Option Time
  pub deleted_at : Option Time
  pub account_status : String
  pub account_status_expires_at : Option Time
  pub account_status_observed_at : Option Time

-- `EffectiveAccountStatus`
abbrev pub effective_account_status : User → Time → Status
effective_account_status u now = effective (parse u.account_status) u.account_status_expires_at now

pub record CnsAccountStatus : Type 0 where
  pub status : Status
  pub expires_at : Option Time
  pub observed_at : Time

pub record CnsUserProfile : Type 0 where
  pub cns_user_id : ℤ
  pub username : String
  pub avatar_url : String
  pub observed_at : Time
  pub account_status : Option CnsAccountStatus

-- `User{}` with an identifier.
abbrev pub blank_user : ℤ → User
blank_user id = record {
  cns_user_id = id;
  username = "";
  avatar_url = none;
  status = active;
  inactive_reason = none;
  created_at = 0;
  last_synced_at = 0;
  profile_observed_at = none;
  deactivated_at = none;
  deleted_at = none;
  account_status = "";
  account_status_expires_at = none;
  account_status_observed_at = none;
}

-- An observation that is missing or lies in the future counts as made now.
abbrev pub observed_by : Time → Time → Time
observed_by now observed_at = if observed_at == 0 || ltb now observed_at then now else observed_at

-- `!valid || !at.Before(time)`
abbrev pub not_before : Time → Option Time → Bool
not_before at none = true
not_before at (some t) = leb t at

-- The name and the avatar, from a profile that is not older than the one they came from.
abbrev pub take_profile : Time → CnsUserProfile → User → User
take_profile at p u =
    if not_before at u.profile_observed_at
    then record u {
      username = p.username;
      avatar_url = if p.avatar_url == "" then none else some p.avatar_url;
      profile_observed_at = some at;
    }
    else u

abbrev pub confirms_newer : Time → Option User → Bool
confirms_newer at none = true
confirms_newer at (some u) = ltb u.last_synced_at at

abbrev pub is_stale : Option InactiveReason → Bool
is_stale (some stale) = true
is_stale r = false

-- The `switch` on `locked`.
abbrev pub take_lock : Option Bool → Bool → User → User
take_lock (some true) newer u = record u { status = inactive; inactive_reason = some locked }
take_lock (some false) newer u = record u { status = active }
take_lock none newer u =
    if u.status == inactive && is_stale u.inactive_reason && newer
    then record u { status = active }
    else u

abbrev pub or_now : Time → Option Time → Option Time
or_now now none = some now
or_now now (some t) = some t

-- The end of `NextUserState`.
abbrev pub settle : Time → User → User
settle now u =
    if u.status == active
    then record u { inactive_reason = none; deactivated_at = none }
    else record u { deactivated_at = or_now now u.deactivated_at }

abbrev pub base_user : Option User → ℤ → User
base_user none id = blank_user id
base_user (some u) id = u

abbrev pub synced : Bool → Time → User → User
synced newer at u = if newer then record u { last_synced_at = at } else u

abbrev pub next_user_state : Option User → CnsUserProfile → Option Bool → Time → User
next_user_state cur p lock now =
    let at = observed_by now p.observed_at in
    let newer = confirms_newer at cur in
    settle now
      (take_lock lock newer (synced newer at (take_profile at p (base_user cur p.cns_user_id))))

-- `DeletedUserState`
abbrev pub deleted_user_state : Option User → ℤ → Time → User
deleted_user_state none id now = record (blank_user id) {
  last_synced_at = now;
  deactivated_at = some now;
  status = deleted;
  deleted_at = some now;
}
deleted_user_state (some u) id now = record (blank_user id) {
  created_at = u.created_at;
  last_synced_at = u.last_synced_at;
  deactivated_at = or_now now u.deactivated_at;
  status = deleted;
  deleted_at = some now;
}
