-- ===== src/UserCache/Service.antt =====
-- internal/services/user_cache.go, and ListUsersToVerify of internal/storage/users.go. What CNS answers
-- and the clock at each of its calls are parameters.
use sendly.Common.{
  ℕ, zero, suc, ◌+◌, String, Bool, true, false, not, ◌&&◌, ◌||◌, ◌==◌, nat_eq, string_eq, int_eq,
  ltb, Option, none, some, List, [], ◌∷◌, ◌++◌, map, if◌then◌else◌, length, take, select, find,
  Result, pure, try, handle, with_option, ◌>>=◌, query, ℤ, pos, negsuc,
}
use sendly.Models.{Time, Error, driver, cns_user_not_found}
use sendly.Users.User.{deleted, user_status_eq, User, CnsUserProfile}
use sendly.Users.Store.{Store, record_cns_profile, mark_user_deleted}

pub record CnsPublicProfile : Type 0 where
  pub id : ℤ
  pub username : String
  pub avatar : Option String

pub record UserSyncCursor : Type 0 where
  pub last_synced_at : Time
  pub cns_user_id : ℤ

abbrev pub int_ltb : ℤ → ℤ → Bool
int_ltb (negsuc a) (negsuc b) = ltb b a
int_ltb (negsuc a) (pos b) = true
int_ltb (pos a) (negsuc b) = false
int_ltb (pos a) (pos b) = ltb a b

-- `(last_synced_at, cns_user_id) > …`
abbrev pub is_after : Time → ℤ → User → Bool
is_after t id u = ltb t u.last_synced_at || (t == u.last_synced_at && int_ltb id u.cns_user_id)

-- `ORDER BY last_synced_at, cns_user_id`
insert_user_by : User → List User → List User
insert_user_by u [] = u ∷ []
insert_user_by u (v ∷ vs) =
    let rest = insert_user_by u vs in
    if is_after u.last_synced_at u.cns_user_id v then u ∷ v ∷ vs else v ∷ rest

order_users : List User → List User
order_users [] = []
order_users (u ∷ us) = insert_user_by u (order_users us)

abbrev pub to_verify : Time → UserSyncCursor → User → Bool
to_verify synced_before after u =
    not (u.status == deleted)
    && ltb u.last_synced_at synced_before
    && is_after after.last_synced_at after.cns_user_id u

unfoldable pub list_users_to_verify : Time → UserSyncCursor → ℕ → Store (List User)
unfolding order_users insert_user_by
list_users_to_verify synced_before after limit =
    query driver (λ t. take limit (order_users (select (to_verify synced_before after) t.users)))

abbrev pub or_empty : Option String → String
or_empty none = ""
or_empty (some s) = s

abbrev pub public_profile_to_cns : CnsPublicProfile → Time → CnsUserProfile
public_profile_to_cns p observed_at = record {
  cns_user_id = p.id;
  username = p.username;
  avatar_url = or_empty p.avatar;
  observed_at = observed_at;
  account_status = none;
}

abbrev pub directory_max_batches : ℕ
directory_max_batches = 20

abbrev pub cns_directory_batch_max : ℕ
cns_directory_batch_max = 100

-- What one pass has found so far.
pub record Pass : Type 0 where
  pub confirmed : ℕ
  pub missing : List ℤ
  pub error : Option Error

pub record DirectoryResult : Type 0 where
  pub skipped : Bool
  pub confirmed : ℕ
  pub deleted : ℕ
  pub missing : ℕ
  pub mass_deletion_held : Bool
  pub error : Option Error

-- What CNS answers: the batch lookup number `i`, with the clock before it, and the lookup of one user.
pub record Cns : Type 0 where
  pub directory_configured : Bool
  pub get_public_users : ℕ → List ℤ → Result Error (List CnsPublicProfile)
  pub batch_at : ℕ → Time
  pub get_public_user : ℤ → Result Error CnsPublicProfile
  pub looked_up_at : ℤ → Time

abbrev pub is_profile_of : ℤ → CnsPublicProfile → Bool
is_profile_of id p = p.id == id

-- `errors.Is(err, ErrCNSUserNotFound)`
abbrev pub is_gone : Error → Bool
is_gone cns_user_not_found = true
is_gone e = false

abbrev pub failed : Pass → Error → Pass
failed pass e = record pass { error = some e }

abbrev pub has_failed : Pass → Bool
has_failed pass = elim pass.error [ none ↦ false | some e ↦ true ]

abbrev pub nobody : List User → Bool
nobody [] = true
nobody (u ∷ us) = false

-- The cursor behind the last row.
abbrev pub cursor_behind : UserSyncCursor → List User → UserSyncCursor
cursor_behind cursor [] = cursor
cursor_behind cursor (u ∷ us) =
    cursor_behind (record { last_synced_at = u.last_synced_at; cns_user_id = u.cns_user_id }) us

abbrev pub stopped : DirectoryResult → Bool
stopped r = elim r.error [ none ↦ false | some e ↦ true ]

-- `maxDeletions >= 0 && len(missing) > maxDeletions`
abbrev pub is_too_many : ℤ → ℕ → Bool
is_too_many (pos n) missing = ltb n missing
is_too_many (negsuc n) missing = false

abbrev pub result_of : Pass → ℕ → DirectoryResult
result_of pass missing = record {
  skipped = false;
  confirmed = pass.confirmed;
  deleted = 0;
  missing = missing;
  mass_deletion_held = false;
  error = pass.error;
}

abbrev pub first_cursor : UserSyncCursor
first_cursor = record { last_synced_at = 0; cns_user_id = pos 0 }

abbrev pub empty_pass : Pass
empty_pass = record { confirmed = 0; missing = []; error = none }

module _ (lower : String → String) (now : Time) (cns : Cns) where
  -- The loop over the identifiers of one batch.
  unfoldable pub confirm_found : Time → List CnsPublicProfile → List ℤ → Pass → Store Pass
  confirm_found at found [] pass = pure pass
  confirm_found at found (id ∷ ids) pass =
      with_option (find (is_profile_of id) found)
        (confirm_found at found ids (record pass { missing = pass.missing ++ (id ∷ []) }))
        (λ profile. do
          r ← try (record_cns_profile lower now (public_profile_to_cns profile at) none)
          handle r
              (λ u. confirm_found at found ids (record pass { confirmed = pass.confirmed + 1 }))
              (λ e. pure (failed pass e)))

  -- The loop over the batches: `rounds` are left, and number `i` comes next.
  unfoldable pub verify_batches : (ℕ → Bool) → Time → ℕ → ℕ → UserSyncCursor → Pass → Store Pass
  unfolding confirm_found list_users_to_verify
  verify_batches cancelled before zero i cursor pass = pure pass
  verify_batches cancelled before (suc rounds) i cursor pass = if cancelled i then pure pass else do
    listed ← try (list_users_to_verify before cursor cns_directory_batch_max)
    handle listed
        (λ rows.
          if nobody rows
          then pure pass
          else handle (cns.get_public_users i (map User.cns_user_id rows))
              (λ found. do
                pass' ← confirm_found (cns.batch_at i) found (map User.cns_user_id rows) pass
                if has_failed pass' || ltb (length rows) cns_directory_batch_max
                    then pure pass'
                    else verify_batches cancelled before rounds (suc i) (cursor_behind cursor rows)
                        pass')
              (λ e. pure (failed pass e)))
        (λ e. pure (failed pass e))

  -- The `default` of the `switch`: CNS has the user after all.
  unfoldable pub confirm_one : ℤ → DirectoryResult → CnsPublicProfile → Store DirectoryResult
  confirm_one id result profile = do
    r ←
        try
          (record_cns_profile lower now (public_profile_to_cns profile (cns.looked_up_at id)) none)
    handle r (λ u. pure (record result { confirmed = result.confirmed + 1 }))
        (λ e. pure (record result { error = some e }))

  -- The other cases: CNS says that the user is gone, or fails.
  unfoldable pub delete_one : ℤ → DirectoryResult → Error → Store DirectoryResult
  delete_one id result e = if not (is_gone e) then pure (record result { error = some e }) else do
    r ← try (mark_user_deleted now id)
    handle r
        (λ newly. pure (if newly then record result { deleted = result.deleted + 1 } else result))
        (λ x. pure (record result { error = some x }))

  -- What is done with a user whom the batches did not return.
  unfoldable pub look_up : ℤ → DirectoryResult → Store DirectoryResult
  unfolding confirm_one delete_one
  look_up id result = handle (cns.get_public_user id) (confirm_one id result) (delete_one id result)

  unfoldable pub look_up_all : List ℤ → DirectoryResult → Store DirectoryResult
  unfolding look_up
  look_up_all [] result = pure result
  look_up_all (id ∷ ids) result = do
    result' ← look_up id result
    if stopped result' then pure result' else look_up_all ids result'

  unfoldable pub delete_missing : ℤ → Pass → Store DirectoryResult
  unfolding look_up_all
  delete_missing max_deletions pass =
      if has_failed pass
      then pure (result_of pass 0)
      else if is_too_many max_deletions (length pass.missing)
      then pure (record (result_of pass (length pass.missing)) { mass_deletion_held = true })
      else look_up_all pass.missing (result_of pass (length pass.missing))

  unfoldable pub verify_with_directory : (ℕ → Bool) → Time → ℤ → Store DirectoryResult
  unfolding verify_batches delete_missing
  verify_with_directory cancelled before max_deletions =
      if not cns.directory_configured
      then pure (record (result_of empty_pass 0) { skipped = true })
      else do
        pass ← verify_batches cancelled before directory_max_batches 0 first_cursor empty_pass
        delete_missing max_deletions pass
