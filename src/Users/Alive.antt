-- ===== src/Users/Alive.antt =====
-- internal/storage/users.go: a user who is not deleted, under single statements.
use sendly.Common.{
  String, Bool, true, false, not, ◌&&◌, ◌≡◌, refl, Option, none, some, List, [], ◌∷◌, ◌==◌, nat_eq,
  string_eq, int_eq, exists, update, arith, ℤ,
}
use sendly.Common.Keeps.{
  Keeps, OnTables, Keeps-statement, Keeps-query, Keeps-bind, Keeps-raise_if, Keeps-pure,
  Keeps-or_raise, Keeps-with_option, Keeps-if, Keeps-transaction,
}
use sendly.Models.{Time}
use sendly.Users.User.{
  active, deleted, user_status_eq, User, CnsUserProfile, next_user_state, deleted_user_state,
}
use sendly.Users.Store.{
  Tables, Store, is_user, lock_user, create_user, lock_or_create_user, written_over, write_user,
  demote_name_holders, demoted, is_outdated_holder, record_locked, record_profile,
  record_cns_profile, forget_owner, delete_locked, mark_deleted, mark_user_deleted,
}

-- A row that says that the user is deleted.
abbrev pub is_tombstone : ℤ → User → Bool
is_tombstone id u = u.cns_user_id == id && u.status == deleted

next-alive :
    (cur : User) (p : CnsUserProfile) (lock : Option Bool) (now : Time)
    → (cur.status == deleted) ≡ false
    → ((next_user_state (some cur) p lock now).status == deleted) ≡ false
next-alive cur p none now h = ground (arith, h)
next-alive cur p (some true) now h = ground (arith, h)
next-alive cur p (some false) now h = ground (arith, h)

new-alive :
    (p : CnsUserProfile) (lock : Option Bool) (now : Time)
    → ((next_user_state none p lock now).status == deleted) ≡ false
new-alive p none now = ground arith
new-alive p (some true) now = ground arith
new-alive p (some false) now = ground arith

module _ (id : ℤ) where
  abbrev pub Alive : Tables → Type 0
  Alive t = exists (is_tombstone id) t.users ≡ false

  abbrev pub Revives : {A : Type 0} → Store A → Type 0
  Revives m = Keeps (OnTables Alive) m

  -- An update whose rows are no tombstones of the user stays so.
  pub updated :
      (test : User → Bool) (f : User → User) (us : List User)
      → ((u : User) → test u ≡ true → is_tombstone id u ≡ false → is_tombstone id (f u) ≡ false)
      → exists (is_tombstone id) us ≡ false
      → exists (is_tombstone id) (update test f us) ≡ false
  updated test f [] k h = refl
  updated test f (u ∷ us) k h = ground (arith, k u, updated test f us k)

  lock_or_create-alive :
      (now : Time) (k : ℤ) (row : User)
      → is_tombstone id row ≡ false
      → Revives (lock_or_create_user now k row)
  unfolding lock_or_create_user create_user lock_user
  lock_or_create-alive now k row fresh = Keeps-bind _ _ (Keeps-query _ _) (λ cur.
      Keeps-with_option _ _ _
        (Keeps-bind _ _ (Keeps-statement _ _ (λ t h. ground (arith, fresh, h))) (λ created.
          Keeps-if created _ _ (λ e. Keeps-pure _)
            (λ e.
              Keeps-bind _ _ (Keeps-query _ _)
                (λ o. Keeps-bind _ _ (Keeps-or_raise _ _) (λ u. Keeps-pure _)))))
        (λ u. Keeps-pure _))

  write-alive :
      (u : User)
      → ((v : User)
          → is_user u.cns_user_id v ≡ true
          → is_tombstone id v ≡ false
          → is_tombstone id (written_over u v) ≡ false)
      → Revives (write_user u)
  unfolding write_user
  write-alive u k =
      Keeps-statement _ _ (λ t h. updated (is_user u.cns_user_id) (written_over u) t.users k h)

  module _ (lower : String → String) where
    demote-alive : (now : Time) (u : User) → Revives (demote_name_holders lower now u)
    unfolding demote_name_holders
    demote-alive now u =
        Keeps-if (not (u.status == active)) _ _ (λ e. Keeps-pure _)
          (λ e. Keeps-with_option _ _ _ (Keeps-pure _) (λ at. Keeps-statement _ _ (λ t h.
            updated (is_outdated_holder lower u at) (demoted lower now) t.users
              (λ v hit was. ground arith) h)))

    locked-alive :
        (now : Time) (p : CnsUserProfile) (lock : Option Bool) (row : User × Bool)
        → Revives (record_locked lower now p lock row)
    unfolding record_locked
    locked-alive now p lock (cur, created) =
        Keeps-if created _ _ (λ e. demote-alive now cur)
          (λ e.
            Keeps-if (cur.status == deleted) _ _ (λ d. Keeps-pure _)
              (λ d.
                Keeps-bind _ _
                  (write-alive (next_user_state (some cur) p lock now)
                    (λ v hit was. ground (arith, next-alive cur p lock now d)))
                  (λ u. demote-alive now _)))

    pub record_cns_profile-alive :
        (now : Time) (p : CnsUserProfile) (lock : Option Bool)
        → Revives (record_cns_profile lower now p lock)
    unfolding record_cns_profile record_profile
    record_cns_profile-alive now p lock = Keeps-transaction _ _ (
        Keeps-bind _ _ (Keeps-raise_if _ _) (λ u.
          Keeps-bind _ _
            (lock_or_create-alive now p.cns_user_id (next_user_state none p lock now)
              (ground (arith, new-alive p lock now)))
            (λ row. locked-alive now p lock row)))

  forget-alive : (k : ℤ) → Revives (forget_owner k)
  unfolding forget_owner
  forget-alive k = Keeps-bind _ _ (Keeps-statement _ _ (λ t h. h)) (λ u. Keeps-pure _)

  pub mark_user_deleted-alive :
      (now : Time) (k : ℤ) → (k == id) ≡ false → Revives (mark_user_deleted now k)
  unfolding mark_user_deleted mark_deleted delete_locked
  mark_user_deleted-alive now k other = Keeps-transaction _ _ (
      Keeps-bind _ _ (Keeps-raise_if _ _) (λ u.
        Keeps-bind _ _
          (lock_or_create-alive now k (deleted_user_state none k now) (ground (arith, other)))
          (λ row.
            Keeps-if row.1 _ _ (λ e. forget-alive k)
              (λ e.
                Keeps-if (row.0.status == deleted) _ _ (λ d. Keeps-pure _)
                  (λ d.
                    Keeps-bind _ _
                      (write-alive (deleted_user_state (some row.0) k now) (λ v hit was. ground (
                        arith,
                        int_eq.reflects v.cns_user_id k,
                        int_eq.reflects v.cns_user_id id,
                        int_eq.reflects k k,
                        other,
                      )))
                      (λ u. forget-alive k))))))
