-- ===== src/Users/Final.antt =====
-- internal/storage/users.go: the row of a deleted user, under every change.
use sendly.Common.{String, ◌≡◌, refl, some, List, [], ◌∷◌, find, arith, Db, ℤ}
use sendly.Common.Keeps.{
  OnTables, Keeps-statement, Keeps-bind, Keeps-pure, Keeps-with_option, Keeps-transaction,
}
use sendly.Models.{Time}
use sendly.Users.User.{deleted, User}
use sendly.Users.Store.{
  Tables, is_user, record_cns_profile, mark_user_deleted, apply_cns_user_updated,
  apply_cns_user_deleted, purge_cns_webhook_events, deactivate_stale_users, gone_stale,
}
use sendly.Users.Changes.{
  Change, profile, deletion, account, updated_event, deleted_event, purge_events, deactivate_stale,
  apply, apply_all,
}
use sendly.Users.Tombstone.{
  Unchanged, spared, record_profile-Spares, mark_deleted-Spares, status-Spares, event-Spares,
}

module _ (lower : String → String) (id : ℤ) (dead : User) (is_deleted : dead.status ≡ deleted) where
  apply-Unchanged :
      (now : Time) (change : Change) (db : Db Tables)
      → OnTables (Unchanged id dead is_deleted) db
      → OnTables (Unchanged id dead is_deleted) (apply lower now change db)
  unfolding apply record_cns_profile mark_user_deleted apply_cns_user_updated apply_cns_user_deleted
      purge_cns_webhook_events deactivate_stale_users
  apply-Unchanged now (profile p lock) db h =
      (Keeps-transaction _ _ (record_profile-Spares id dead is_deleted lower now p lock)).at db h
  apply-Unchanged now (deletion k) db h =
      (Keeps-transaction _ _ (mark_deleted-Spares id dead is_deleted now k)).at db h
  apply-Unchanged now (account k s) db h = (status-Spares id dead is_deleted now k s).at db h
  apply-Unchanged now (updated_event event_id p) db h =
      (event-Spares id dead is_deleted now event_id "user.updated" _ (
          Keeps-bind _ _ (record_profile-Spares id dead is_deleted lower now p _) (λ u.
            Keeps-with_option _ _ _ (Keeps-pure _)
              (λ s. status-Spares id dead is_deleted now _ s)))).at
        db h
  apply-Unchanged now (deleted_event event_id k) db h =
      (event-Spares id dead is_deleted now event_id "user.deleted" _
          (Keeps-bind _ _ (mark_deleted-Spares id dead is_deleted now k) (λ b. Keeps-pure _))).at
        db h
  apply-Unchanged now (purge_events cutoff) db h = (Keeps-statement _ _ (λ t h. h)).at db h
  apply-Unchanged now (deactivate_stale before) db h =
      (Keeps-statement _ _ (λ t h.
          spared id dead is_deleted _ (gone_stale now) t.users (λ x. refl) (ground arith) h)).at
        db h

  applied :
      (changes : List (Time × Change)) (db : Db Tables)
      → OnTables (Unchanged id dead is_deleted) db
      → OnTables (Unchanged id dead is_deleted) (apply_all lower changes db)
  unfolding apply_all
  applied [] db h = h
  applied ((now, change) ∷ changes) db h =
      applied changes (apply lower now change db) (apply-Unchanged now change db h)

-- Deletion is final: once the row of a user is deleted, no sequence of profiles, deletions, webhooks
-- and jobs changes it, whichever statements fail.
pub apply_all-deleted :
    (lower : String → String) (id : ℤ) (dead : User) (changes : List (Time × Change))
    (db : Db Tables)
    → dead.status ≡ deleted
    → find (is_user id) db.tables.users ≡ some dead
    → find (is_user id) (apply_all lower changes db).tables.users ≡ some dead
apply_all-deleted lower id dead changes db is_deleted h =
    (applied lower id dead is_deleted changes db (record { on = h })).on
