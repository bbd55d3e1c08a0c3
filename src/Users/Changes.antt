-- ===== src/Users/Changes.antt =====
-- What changes the cache of users: profiles, webhooks and the jobs.
use sendly.Common.{String, Bool, List, [], ◌∷◌, Option, ℤ, Db}
use sendly.Models.{Time}
use sendly.Users.User.{CnsUserProfile, CnsAccountStatus}
use sendly.Users.Store.{
  Tables, record_cns_profile, mark_user_deleted, record_account_status, apply_cns_user_updated,
  apply_cns_user_deleted, purge_cns_webhook_events, deactivate_stale_users,
}

pub data Change : Type 0 where
  profile : CnsUserProfile → Option Bool → Change
  deletion : ℤ → Change
  account : ℤ → CnsAccountStatus → Change
  updated_event : String → CnsUserProfile → Change
  deleted_event : String → ℤ → Change
  purge_events deactivate_stale : Time → Change

module _ (lower : String → String) where
  unfoldable pub apply : Time → Change → Db Tables → Db Tables
  apply now (profile p lock) db = (record_cns_profile lower now p lock db).1
  apply now (deletion id) db = (mark_user_deleted now id db).1
  apply now (account id s) db = (record_account_status now id s db).1
  apply now (updated_event event_id p) db = (apply_cns_user_updated lower now event_id p db).1
  apply now (deleted_event event_id id) db = (apply_cns_user_deleted now event_id id db).1
  apply now (purge_events cutoff) db = (purge_cns_webhook_events cutoff db).1
  apply now (deactivate_stale before) db = (deactivate_stale_users now before db).1

  unfoldable pub apply_all : List (Time × Change) → Db Tables → Db Tables
  apply_all [] db = db
  apply_all ((now, change) ∷ changes) db = apply_all changes (apply now change db)
