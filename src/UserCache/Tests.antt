-- ===== src/UserCache/Tests.antt =====
-- Runs of the theorems on the cache service.
use sendly.Common.{
  true, false, refl, none, [], ◌∷◌, ok, err, Db, pos, pure, try, handle, with_option, ◌>>=◌,
  statement, query,
}
use sendly.Common.Keeps.{OnTables}
use sendly.Models.{driver}
use sendly.Users.User.{blank_user}
use sendly.Users.Store.{Tables}
use sendly.Users.Alive.{Alive}
use sendly.UserCache.Service.{
  Cns, DirectoryResult, verify_with_directory, verify_batches, confirm_found, list_users_to_verify,
  delete_missing,
}
use sendly.UserCache.Sync.{Config, reconcile}
use sendly.UserCache.Verified.{reconcile-Alive}
use sendly.UserCache.Limits.{Limited, verify_with_directory-Limited}

-- CNS answers no user in a batch, and user 1 alone.
abbrev cns : Cns
cns = record {
  directory_configured = true;
  get_public_users = λ i ids. ok [];
  batch_at = λ i. 50;
  get_public_user = λ id. err driver;
  looked_up_at = λ id. 60;
}

abbrev db : Db Tables
db = record {
  faults = [];
  tables = record {
    users =
        record (blank_user (pos 1)) { last_synced_at = 5 }
        ∷ record (blank_user (pos 2)) { last_synced_at = 6 }
        ∷ [];
    files = [];
    events = [];
  };
}

abbrev held : DirectoryResult
held = record {
  skipped = false;
  confirmed = 0;
  deleted = 0;
  missing = 2;
  mass_deletion_held = true;
  error = none;
}

verify_with_directory-Limited_example :
    Limited 1 held db (verify_with_directory (λ s. s) 70 cns (λ i. false) 40 (pos 1) db).1
unfolding verify_with_directory verify_batches confirm_found list_users_to_verify delete_missing try
    handle with_option pure query statement ◌>>=◌
verify_with_directory-Limited_example =
    verify_with_directory-Limited (λ s. s) 70 cns (λ i. false) 40 1 db held refl

abbrev config : Config
config = record {
  user_cache_recheck = 10;
  user_cache_stale_after = 20;
  user_cache_max_deletions_per_run = pos 5;
}

reconcile-Alive_example :
    OnTables (Alive (pos 1)) (reconcile (λ s. s) 70 cns (λ i. false) config db).1
reconcile-Alive_example =
    (reconcile-Alive (pos 1) (λ s. s) 70 cns (λ i. false) config (λ e. cc)).at db
      (record { on = refl })
