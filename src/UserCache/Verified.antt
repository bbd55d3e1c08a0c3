-- ===== src/UserCache/Verified.antt =====
-- internal/services/user_cache.go: whom a reconciliation marks as deleted.
use sendly.Common.{
  ℕ, zero, suc, String, Bool, false, not, ◌||◌, ◌≡◌, ◌≢◌, refl, ap, sym, ◌∙◌, inl, inr, none, List,
  [], ◌∷◌, ◌==◌, int_eq, ==→eq, map, find, length, ltb, arith, Bool-cases, Result, ok, err, handle,
  ℤ,
}
use sendly.Common.Keeps.{
  Keeps-bind, Keeps-query, Keeps-statement, Keeps-pure, Keeps-if, Keeps-try, Keeps-handle,
  Keeps-with_option,
}
use sendly.Models.{Time, Error, cns_user_not_found}
use sendly.Users.User.{user_status_eq, User}
use sendly.Users.Store.{
  Store, mark_user_deleted, deactivate_stale_users, purge_cns_webhook_events, gone_stale,
}
use sendly.Users.Alive.{Revives, record_cns_profile-alive, mark_user_deleted-alive, updated}
use sendly.UserCache.Service.{
  Cns, CnsPublicProfile, UserSyncCursor, Pass, DirectoryResult, is_profile_of, is_gone, has_failed,
  nobody, confirm_found, confirm_one, delete_one, list_users_to_verify, verify_batches, look_up,
  look_up_all, stopped, is_too_many, delete_missing, verify_with_directory, cns_directory_batch_max,
  directory_max_batches, first_cursor, empty_pass,
}
use sendly.UserCache.Sync.{Config, reconcile}

module _ (id : ℤ) (lower : String → String) (now : Time) (cns : Cns) where
  confirm-Alive :
      (at : Time) (found : List CnsPublicProfile) (ids : List ℤ) (pass : Pass)
      → Revives id (confirm_found lower now cns at found ids pass)
  unfolding confirm_found
  confirm-Alive at found [] pass = Keeps-pure _
  confirm-Alive at found (k ∷ ks) pass =
      Keeps-with_option (find (is_profile_of k) found) _ _ (confirm-Alive at found ks _) (λ profile.
        Keeps-bind _ _ (Keeps-try _ (record_cns_profile-alive id lower now _ none))
          (λ r. Keeps-handle r _ _ (λ u. confirm-Alive at found ks _) (λ e. Keeps-pure _)))

  pub batches-Alive :
      (cancelled : ℕ → Bool) (before : Time) (rounds i : ℕ) (cursor : UserSyncCursor) (pass : Pass)
      → Revives id (verify_batches lower now cns cancelled before rounds i cursor pass)
  unfolding verify_batches list_users_to_verify
  batches-Alive cancelled before zero i cursor pass = Keeps-pure _
  batches-Alive cancelled before (suc rounds) i cursor pass =
      Keeps-if (cancelled i) _ _ (λ e. Keeps-pure _)
        (λ e. Keeps-bind _ _ (Keeps-try _ (Keeps-query _ _)) (λ listed.
          Keeps-handle listed _ _
            (λ rows.
              Keeps-if (nobody rows) _ _ (λ e. Keeps-pure _)
                (λ e.
                  Keeps-handle (cns.get_public_users i (map User.cns_user_id rows)) _ _
                    (λ found. Keeps-bind _ _ (confirm-Alive _ found _ pass) (λ pass'.
                      Keeps-if (has_failed pass' || ltb (length rows) cns_directory_batch_max) _ _
                        (λ e. Keeps-pure _)
                        (λ e. batches-Alive cancelled before rounds (suc i) _ pass')))
                    (λ e. Keeps-pure _)))
            (λ e. Keeps-pure _)))

  -- CNS does not say that the user is gone.
  abbrev pub Kept : Type 0
  Kept = cns.get_public_user id ≢ err cns_user_not_found

  gone_lem : (e : Error) → not (is_gone e) ≡ false → e ≡ cns_user_not_found
  gone_lem e h = ground arith

  marked-Alive :
      Kept
      → (k : ℤ) (e : Error) → cns.get_public_user k ≡ err e
      → not (is_gone e) ≡ false
      → Revives id (mark_user_deleted now k)
  marked-Alive kept k e answer gone = elim (Bool-cases (k == id)) [
    | inl same ↦ absurd (
        kept (
          ap cns.get_public_user (sym (==→eq k id same))
          ∙ answer
          ∙ ap (λ (x : Error). err x) (gone_lem e gone)))
    | inr other ↦ mark_user_deleted-alive id now k other
  ]

  answered-Alive :
      (k : ℤ) (answer : Result Error CnsPublicProfile)
      (good : CnsPublicProfile → Store DirectoryResult) (bad : Error → Store DirectoryResult)
      → cns.get_public_user k ≡ answer
      → ((p : CnsPublicProfile) → Revives id (good p))
      → ((e : Error) → cns.get_public_user k ≡ err e → Revives id (bad e))
      → Revives id (handle answer good bad)
  unfolding handle
  answered-Alive k (ok p) good bad same kg kb = kg p
  answered-Alive k (err e) good bad same kg kb = kb e same

  look_up-Alive :
      Kept → (k : ℤ) (result : DirectoryResult) → Revives id (look_up lower now cns k result)
  unfolding look_up confirm_one delete_one
  look_up-Alive kept k result =
      answered-Alive k (cns.get_public_user k) _ _ refl
        (λ p.
          Keeps-bind _ _ (Keeps-try _ (record_cns_profile-alive id lower now _ none))
            (λ r. Keeps-handle r _ _ (λ u. Keeps-pure _) (λ e. Keeps-pure _)))
        (λ e answer.
          Keeps-if (not (is_gone e)) _ _ (λ c. Keeps-pure _)
            (λ gone.
              Keeps-bind _ _ (Keeps-try _ (marked-Alive kept k e answer gone))
                (λ r. Keeps-handle r _ _ (λ u. Keeps-pure _) (λ e. Keeps-pure _))))

  look_up_all-Alive :
      Kept
      → (ids : List ℤ) (result : DirectoryResult)
      → Revives id (look_up_all lower now cns ids result)
  unfolding look_up_all
  look_up_all-Alive kept [] result = Keeps-pure _
  look_up_all-Alive kept (k ∷ ks) result = Keeps-bind _ _ (look_up-Alive kept k result) (λ result'.
      Keeps-if (stopped result') _ _ (λ e. Keeps-pure _) (λ e. look_up_all-Alive kept ks result'))

  verify-Alive :
      Kept
      → (cancelled : ℕ → Bool) (before : Time) (max_deletions : ℤ)
      → Revives id (verify_with_directory lower now cns cancelled before max_deletions)
  unfolding verify_with_directory delete_missing
  verify-Alive kept cancelled before max_deletions =
      Keeps-if (not cns.directory_configured) _ _ (λ e. Keeps-pure _)
        (λ e.
          Keeps-bind _ _
            (batches-Alive cancelled before directory_max_batches 0 first_cursor empty_pass)
            (λ pass.
              Keeps-if (has_failed pass) _ _ (λ e. Keeps-pure _)
                (λ e.
                  Keeps-if (is_too_many max_deletions (length pass.missing)) _ _ (λ e. Keeps-pure _)
                    (λ e. look_up_all-Alive kept pass.missing _))))

-- A reconciliation marks a user as deleted only where CNS answers the lookup of that user with
-- "not found": whatever else CNS answers, and whichever statements fail, a user who is not deleted
-- stays so otherwise.
pub reconcile-Alive :
    (id : ℤ) (lower : String → String) (now : Time) (cns : Cns) (cancelled : ℕ → Bool)
    (cfg : Config)
    → cns.get_public_user id ≢ err cns_user_not_found
    → Revives id (reconcile lower now cns cancelled cfg)
unfolding reconcile deactivate_stale_users purge_cns_webhook_events
reconcile-Alive id lower now cns cancelled cfg kept =
    Keeps-bind _ _ (Keeps-try _ (verify-Alive id lower now cns kept cancelled _ _)) (λ v.
      Keeps-bind _ _
        (Keeps-try _ (
          Keeps-statement _ _
            (λ t h. updated id _ (gone_stale now) t.users (λ u hit was. ground arith) h)))
        (λ s. Keeps-bind _ _ (Keeps-try _ (Keeps-statement _ _ (λ t h. h))) (λ p. Keeps-pure _)))
