-- ===== src/Users/Tombstone.antt =====
-- internal/storage/users.go: the row of a deleted user, under single statements.
use sendly.Common.{
  String, Bool, true, false, not, ◌≡◌, refl, sym, subst, ◌∙◌, inl, inr, Option, none, some, List,
  ◌==◌, nat_eq, string_eq, int_eq, ==→eq, ==_refl, find, exists, update, arith, Bool-cases,
  Option-cases, Result, ok, pure, or_raise, with_option, ◌>>=◌, Db, is_faulty, later, statement,
  query, ℤ,
}
use sendly.Common.Keeps.{
  Keeps, OnTables, Keeps-statement, Keeps-query, Keeps-bind, Keeps-raise_if, Keeps-pure,
  Keeps-or_raise, Keeps-with_option, Keeps-if, Keeps-transaction,
}
use sendly.Common.KeepsInto.{Keeps-bind_with}
use sendly.Common.Keyed.{find-update, none-exists, find-some, find-exists}
use sendly.Models.{Time, Error}
use sendly.Users.User.{
  active, deleted, user_status_eq, User, CnsUserProfile, CnsAccountStatus, next_user_state,
  deleted_user_state,
}
use sendly.Users.Store.{
  Tables, Store, is_user, lock_user, insert_user, create_user, lock_or_create_user, written_over,
  write_user, demote_name_holders, record_locked, record_profile, forget_owner, delete_locked,
  mark_deleted, record_account_status, apply_webhook_event, is_outdated_holder, demoted,
  with_status,
}

next_user_state-id :
    (u : User) (p : CnsUserProfile) (lock : Option Bool) (now : Time)
    → (next_user_state (some u) p lock now).cns_user_id ≡ u.cns_user_id
next_user_state-id u p none now = ground arith
next_user_state-id u p (some true) now = ground arith
next_user_state-id u p (some false) now = ground arith

new_user-id :
    (p : CnsUserProfile) (lock : Option Bool) (now : Time)
    → (next_user_state none p lock now).cns_user_id ≡ p.cns_user_id
new_user-id p none now = ground arith
new_user-id p (some true) now = ground arith
new_user-id p (some false) now = ground arith

not_same : (a b c : ℤ) → a ≡ c → (b == c) ≡ false → (a == b) ≡ false
not_same a b c same other = elim (Bool-cases (a == b)) [
  | inl eq ↦
      absurd (let eq' = ==→eq a b eq in let bad = rw (sym eq', same, ==_refl c) at other in cc)
  | inr ne ↦ ne
]

module _ (id : ℤ) (dead : User) (is_deleted : dead.status ≡ deleted) where
  -- The row of `id` is still the one that was there.
  abbrev pub Unchanged : Tables → Type 0
  Unchanged t = find (is_user id) t.users ≡ some dead

  abbrev pub Spares : {A : Type 0} → Store A → Type 0
  Spares m = Keeps (OnTables Unchanged) m

  -- An update that keeps identifiers and passes over the row.
  pub spared :
      (test : User → Bool) (f : User → User) (us : List User)
      → ((u : User) → (f u).cns_user_id ≡ u.cns_user_id)
      → test dead ≡ false
      → find (is_user id) us ≡ some dead
      → find (is_user id) (update test f us) ≡ some dead
  spared test f us same miss h =
      find-update (is_user id) test f us (λ u. rw (same u) refl) ∙ rw (h, miss) refl

  -- What is known of the row that is locked, and may have been inserted just now.
  abbrev Locked : ℤ → User × Bool → Type 0
  Locked k (cur, created) = (cur.cns_user_id ≡ k) × (k ≡ id → cur ≡ dead)

  insert-Unchanged :
      (now : Time) (row : User) (t : Tables) → Unchanged t → Unchanged (insert_user now row t).1
  insert-Unchanged now row t h = elim (Bool-cases (row.cns_user_id == id)) [
    | inl same ↦
        let own = ==→eq row.cns_user_id id same in
        let taken = find-exists (is_user id) t.users dead h in ground (arith, own)
    | inr other ↦ ground arith
  ]

  lock_or_create-Spares : (now : Time) (k : ℤ) (row : User) → Spares (lock_or_create_user now k row)
  unfolding lock_or_create_user create_user lock_user
  lock_or_create-Spares now k row = Keeps-bind _ _ (Keeps-query _ _) (λ cur.
      Keeps-with_option _ _ _
        (Keeps-bind _ _ (Keeps-statement _ _ (λ t h. insert-Unchanged now row t h)) (λ created.
          Keeps-if created _ _ (λ e. Keeps-pure _)
            (λ e.
              Keeps-bind _ _ (Keeps-query _ _)
                (λ o. Keeps-bind _ _ (Keeps-or_raise _ _) (λ u. Keeps-pure _)))))
        (λ u. Keeps-pure _))

  answer_eq : (a b : User × Bool) → ◌≡◌ {A = Result Error (User × Bool)} (ok a) (ok b) → a ≡ b
  answer_eq a b e = cc

  fresh :
      (k : ℤ) (u : User) (t : Tables)
      → u.cns_user_id ≡ k
      → Unchanged t
      → find (is_user k) t.users ≡ none
      → Locked k (u, true)
  fresh k u t same h absent = (same, λ own. absurd (let absent' = rw own at absent in cc))

  known :
      (k : ℤ) (u : User) (t : Tables)
      → Unchanged t
      → find (is_user k) t.users ≡ some u
      → Locked k (u, false)
  known k u t h there = (
    ==→eq u.cns_user_id k (find-some (is_user k) t.users u there),
    λ own. let there' = rw own at there in ground arith,
  )

  create-Locked :
      (now : Time) (k : ℤ) (row : User) (db : Db Tables) (a : User × Bool)
      → row.cns_user_id ≡ k
      → OnTables Unchanged db
      → find (is_user k) db.tables.users ≡ none
      → (create_user now k row db).0 ≡ ok a
      → Locked k a
  unfolding create_user lock_user query statement or_raise pure ◌>>=◌
  create-Locked now k row db a same h absent e = elim (Bool-cases (is_faulty db.faults)) [
    | inl bad ↦ absurd (let e' = rw bad at e in cc)
    | inr good ↦
        let clear : exists (is_user row.cns_user_id) db.tables.users ≡ false =
          rw same (none-exists (is_user k) db.tables.users absent) in
        let e' = rw (good, clear) at e in
        subst (Locked k) (answer_eq (row, true) a e') (fresh k row db.tables same h.on absent)
  ]

  lock_or_create-Locked :
      (now : Time) (k : ℤ) (row : User) (db : Db Tables) (a : User × Bool)
      → row.cns_user_id ≡ k
      → OnTables Unchanged db
      → (lock_or_create_user now k row db).0 ≡ ok a
      → Locked k a
  unfolding lock_or_create_user lock_user with_option query statement pure ◌>>=◌
  lock_or_create-Locked now k row db a same h e = elim (Bool-cases (is_faulty db.faults)) [
    | inl bad ↦ absurd (let e' = rw bad at e in cc)
    | inr good ↦ elim (Option-cases (find (is_user k) db.tables.users)) [
      | inl absent ↦
          let e' = rw (good, absent) at e in
          create-Locked now k row (record { faults = later db.faults; tables = db.tables }) a same
            (record { on = h.on }) absent e'
      | inr (u, there) ↦
          let e' = rw (good, there) at e in
          subst (Locked k) (answer_eq (u, false) a e') (known k u db.tables h.on there)
    ]
  ]

  write-Unchanged :
      (u : User) (t : Tables)
      → (u.cns_user_id == id) ≡ false
      → Unchanged t
      → Unchanged (record t { users = update (is_user u.cns_user_id) (written_over u) t.users })
  write-Unchanged u t other h =
      spared (is_user u.cns_user_id) (written_over u) t.users (λ x. refl)
        (not_same dead.cns_user_id u.cns_user_id id
          (==→eq dead.cns_user_id id (find-some (is_user id) t.users dead h)) other)
        h

  demote-Spares :
      (lower : String → String) (now : Time) (u : User) → Spares (demote_name_holders lower now u)
  unfolding demote_name_holders
  demote-Spares lower now u =
      Keeps-if (not (u.status == active)) _ _ (λ e. Keeps-pure _)
        (λ e. Keeps-with_option _ _ _ (Keeps-pure _) (λ at. Keeps-statement _ _ (λ t h.
          spared (is_outdated_holder lower u at) (demoted lower now) t.users (λ x. refl)
            (ground arith) h)))

  -- The row that is written over is not the deleted one.
  not_dead :
      (k : ℤ) (cur : User)
      → Locked k (cur, false)
      → (cur.status == deleted) ≡ false
      → (cur.cns_user_id == id) ≡ false
  not_dead k cur lock live = elim (Bool-cases (cur.cns_user_id == id)) [
    | inl own ↦
        absurd (let same = lock.1 (sym lock.0 ∙ ==→eq cur.cns_user_id id own) in ground arith)
    | inr other ↦ other
  ]

  record_locked-Spares :
      (lower : String → String) (now : Time) (k : ℤ) (p : CnsUserProfile) (lock : Option Bool)
      (cur : User) (created : Bool)
      → Locked k (cur, created)
      → Spares (record_locked lower now p lock (cur, created))
  unfolding record_locked write_user
  record_locked-Spares lower now k p lock cur true l = demote-Spares lower now cur
  record_locked-Spares lower now k p lock cur false l =
      Keeps-if (cur.status == deleted) _ _ (λ e. Keeps-pure _)
        (λ live.
          Keeps-bind _ _
            (Keeps-statement _ _ (λ t h.
              write-Unchanged (next_user_state (some cur) p lock now) t
                (rw (next_user_state-id cur p lock now) (not_dead k cur l live)) h))
            (λ u. demote-Spares lower now _))

  pub record_profile-Spares :
      (lower : String → String) (now : Time) (p : CnsUserProfile) (lock : Option Bool)
      → Spares (record_profile lower now p lock)
  unfolding record_profile
  record_profile-Spares lower now p lock = Keeps-bind _ _ (Keeps-raise_if _ _) (λ u.
      Keeps-bind_with {Φ = Locked p.cns_user_id} _ _ (lock_or_create-Spares now p.cns_user_id _)
        (λ db a h e. lock_or_create-Locked now p.cns_user_id _ db a (new_user-id p lock now) h e)
        (λ a l. record_locked-Spares lower now p.cns_user_id p lock a.0 a.1 l))

  forget_owner-Spares : (k : ℤ) → Spares (forget_owner k)
  unfolding forget_owner
  forget_owner-Spares k = Keeps-bind _ _ (Keeps-statement _ _ (λ t h. h)) (λ u. Keeps-pure _)

  delete_locked-Spares :
      (now : Time) (k : ℤ) (cur : User) (created : Bool)
      → Locked k (cur, created)
      → Spares (delete_locked now k (cur, created))
  unfolding delete_locked write_user
  delete_locked-Spares now k cur true l = forget_owner-Spares k
  delete_locked-Spares now k cur false l =
      Keeps-if (cur.status == deleted) _ _ (λ e. Keeps-pure _)
        (λ live.
          Keeps-bind _ _
            (Keeps-statement _ _ (λ t h.
              write-Unchanged (deleted_user_state (some cur) k now) t
                (rw (sym l.0) (not_dead k cur l live)) h))
            (λ u. forget_owner-Spares k))

  pub mark_deleted-Spares : (now : Time) (k : ℤ) → Spares (mark_deleted now k)
  unfolding mark_deleted
  mark_deleted-Spares now k = Keeps-bind _ _ (Keeps-raise_if _ _) (λ u.
      Keeps-bind_with {Φ = Locked k} _ _ (lock_or_create-Spares now k _)
        (λ db a h e. lock_or_create-Locked now k _ db a refl h e)
        (λ a l. delete_locked-Spares now k a.0 a.1 l))

  pub status-Spares :
      (now : Time) (k : ℤ) (s : CnsAccountStatus) → Spares (record_account_status now k s)
  unfolding record_account_status
  status-Spares now k s =
      Keeps-statement _ _ (λ t h. spared _ (with_status s _) t.users (λ x. refl) (ground arith) h)

  pub event-Spares :
      (now : Time) (event_id event_type : String) (apply : Store (Unit {0}))
      → Spares apply
      → Spares (apply_webhook_event now event_id event_type apply)
  unfolding apply_webhook_event
  event-Spares now event_id event_type apply k = Keeps-transaction _ _ (
      Keeps-bind _ _ (Keeps-statement _ _ (λ t h. ground arith))
        (λ new. Keeps-if new _ _ (λ e. Keeps-bind _ _ k (λ u. Keeps-pure _)) (λ e. Keeps-pure _)))
