-- ===== src/UserCache/Sync.antt =====
-- internal/services/user_cache.go: the refresh of one row, and the reconciliation job. The mirror of the
-- status in CNS (`PatchServiceData`) changes nothing here and its errors are only logged, and so are
-- the errors of these calls.
use sendly.Common.{
  ℕ, ◌-◌, ◌*◌, String, Bool, true, false, not, ◌&&◌, ◌||◌, ◌==◌, nat_eq, string_eq, ltb, Option,
  none, some, if◌then◌else◌, Result, pure, try, handle, with_option, ◌>>=◌, ℤ,
}
use sendly.Models.{Time, Error, user_not_found, hour}
use sendly.AccountStatus.Status.{Info, parse, text_of}
use sendly.Users.User.{deleted, user_status_eq, User}
use sendly.Users.Store.{
  Store, get_user, record_cns_profile, record_account_status, deactivate_stale_users,
  purge_cns_webhook_events,
}
use sendly.UserCache.Service.{Cns, verify_with_directory}

abbrev ⊤ : Type 0
⊤ = Unit {0}

pub record CnsServiceProfile : Type 0 where
  pub id : ℤ
  pub username : String
  pub avatar : String
  pub is_active : Bool
  pub locked : Bool

abbrev pub is_unknown : Error → Bool
is_unknown user_not_found = true
is_unknown e = false

-- A row that needs no refresh.
abbrev pub is_fresh : Time → Time → User → Bool
is_fresh now ttl u = u.status == deleted || ltb (now - u.last_synced_at) ttl

module _ (lower : String → String) (now : Time) where
  unfoldable pub fetch : Result Error CnsServiceProfile → Store ⊤
  fetch answer =
      handle answer
        (λ p. do
          r ← try (
              record_cns_profile lower now
                (record {
                  cns_user_id = p.id;
                  username = p.username;
                  avatar_url = p.avatar;
                  observed_at = now;
                  account_status = none;
                })
                (some (not p.is_active || p.locked)))
          pure tt)
        (λ e. pure tt)

  -- `answer` is what `GetServiceProfile` answers.
  unfoldable pub sync_if_stale : Time → ℤ → Result Error CnsServiceProfile → Store ⊤
  unfolding fetch
  sync_if_stale ttl id answer = do
    existing ← try (get_user id)
    handle existing (λ u. if is_fresh now ttl u then pure tt else fetch answer)
        (λ e. if not (is_unknown e) then pure tt else fetch answer)

abbrev pub same_expiry : Option Time → Option Time → Bool
same_expiry none none = true
same_expiry none (some t) = false
same_expiry (some s) none = false
same_expiry (some s) (some t) = s == t

-- `RecordAccountStatus` of the service.
unfoldable pub note_account_status : Time → ℤ → Option Info → Store ⊤
note_account_status now id info = with_option info (pure tt) (λ i. do
  existing ← try (get_user id)
  handle existing
      (λ u.
        if u.account_status == text_of (parse i.status)
          && same_expiry u.account_status_expires_at i.expires_at
        then pure tt
        else do
          r ← try (
              record_account_status now id
                (record { status = parse i.status; expires_at = i.expires_at; observed_at = now }))
          pure tt)
      (λ e. pure tt))

abbrev pub webhook_event_retention : Time
webhook_event_retention = 7 * 24 * hour

pub record Config : Type 0 where
  pub user_cache_recheck : Time
  pub user_cache_stale_after : Time
  pub user_cache_max_deletions_per_run : ℤ

unfoldable pub reconcile : (String → String) → Time → Cns → (ℕ → Bool) → Config → Store ⊤
reconcile lower now cns cancelled cfg = do
  verified ← try (
      verify_with_directory lower now cns cancelled (now - cfg.user_cache_recheck)
        cfg.user_cache_max_deletions_per_run)
  stale ← try (deactivate_stale_users now (now - cfg.user_cache_stale_after))
  purged ← try (purge_cns_webhook_events (now - webhook_event_retention))
  pure tt
