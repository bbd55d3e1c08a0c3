-- ===== src/Users/Tests.antt =====
-- Runs of the theorems on the cache of users.
use sendly.Common.{
  true, false, ◌≡◌, ◌≢◌, refl, none, some, List, [], ◌∷◌, find, ok, Db, pos, arith, pure,
}
use sendly.Models.{Time}
use sendly.Users.User.{deleted, User, CnsUserProfile, blank_user, next_user_state}
use sendly.Users.Store.{Tables, is_user, apply_webhook_event}
use sendly.Users.Changes.{Change, profile, deletion, deactivate_stale, apply_all}
use sendly.Users.Final.{apply_all-deleted}
use sendly.Users.Profiles.{shown, next_user_state-converges}
use sendly.Users.Events.{apply_webhook_event-again}

abbrev gone : User
gone = record (blank_user (pos 1)) { status = deleted; deleted_at = some 7 }

abbrev early : CnsUserProfile
early = record {
  cns_user_id = pos 1;
  username = "old";
  avatar_url = "";
  observed_at = 3;
  account_status = none;
}

abbrev late : CnsUserProfile
late = record early { username = "new"; observed_at = 5 }

abbrev db_gone : Db Tables
db_gone = record {
  faults = [];
  tables = record {
    users = gone ∷ [];
    files = [];
    events = record { event_id = "e"; event_type = "user.deleted"; received_at = 7 } ∷ [];
  };
}

abbrev changes : List (Time × Change)
changes = (8, profile late (some false)) ∷ (9, deletion (pos 1)) ∷ (9, deactivate_stale 9) ∷ []

apply_all-deleted_example :
    find (is_user (pos 1)) (apply_all (λ name. name) changes db_gone).tables.users ≡ some gone
apply_all-deleted_example = apply_all-deleted (λ name. name) (pos 1) gone changes db_gone refl refl

next_user_state-converges_example :
    shown (next_user_state (some (next_user_state (some gone) early none 6)) late none 8)
    ≡ shown (next_user_state (some (next_user_state (some gone) late none 6)) early none 8)
next_user_state-converges_example =
    next_user_state-converges gone early late none none 6 8 (ground arith) (ground arith)
      (ground arith) (ground arith) (ground arith) (ground arith)

apply_webhook_event-again_example :
    ((apply_webhook_event 8 "e" "user.updated" (pure tt) db_gone).1.tables ≡ db_gone.tables)
    × ((apply_webhook_event 8 "e" "user.updated" (pure tt) db_gone).0 ≢ ok true)
apply_webhook_event-again_example =
    apply_webhook_event-again 8 "e" "user.updated" (pure tt) db_gone refl

abbrev named : User
named = record (blank_user (pos 2)) { username = "n"; profile_observed_at = some 5 }
