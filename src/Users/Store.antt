-- ===== src/Users/Store.antt =====
-- internal/storage/users.go: the statements. `lower` is the database's LOWER, and `now` both the clock
-- of the replica and the database's NOW().
use sendly.Common.{
  ℕ, ◌*◌, String, Bool, true, false, not, ◌&&◌, ◌||◌, ◌==◌, nat_eq, string_eq, int_eq, ltb, Option,
  none, some, List, ◌∷◌, if◌then◌else◌, find, exists, update, delete, count, Action, pure, raise_if,
  or_raise, with_option, ◌>>=◌, ◌>>◌, Db, statement, query, transaction, ℤ, pos, is_nonpos,
}
use sendly.Models.{Time, File, Error, driver, message, user_not_found, second}
use sendly.AccountStatus.Text.{codes, all_space}
use sendly.AccountStatus.Status.{text_of}
use sendly.Users.User.{
  active, inactive, deleted, user_status_eq, stale, User, CnsAccountStatus, CnsUserProfile,
  observed_by, not_before, next_user_state, deleted_user_state, or_now,
}

pub record WebhookEvent : Type 0 where
  pub event_id : String
  pub event_type : String
  pub received_at : Time

pub record Tables : Type 0 where
  pub users : List User
  pub files : List File
  pub events : List WebhookEvent

abbrev pub Store : Type 0 → Type 0
Store A = Action Error (Db Tables) A

abbrev ⊤ : Type 0
⊤ = Unit {0}

abbrev pub is_user : ℤ → User → Bool
is_user id u = u.cns_user_id == id

unfoldable pub get_user : ℤ → Store User
get_user id = do
  found ← query driver (λ t. find (is_user id) t.users)
  or_raise found user_not_found

-- The Unix epoch, in nanoseconds since Go's zero time.
abbrev pub epoch : Time
epoch = 62135596800 * second

unfoldable pub lock_user : ℤ → Store (Option User)
lock_user id = query driver (λ t. find (is_user id) t.users)

-- The row as the `INSERT` writes it, with the defaults of the columns that it leaves out.
abbrev pub inserted_row : Time → User → User
inserted_row now u = record u {
  created_at = now;
  account_status = "active";
  account_status_expires_at = none;
  account_status_observed_at = none;
}

-- `ON CONFLICT (cns_user_id) DO NOTHING`
abbrev pub insert_user : Time → User → Tables → Bool × Tables
insert_user now u t =
    if exists (is_user u.cns_user_id) t.users
    then (false, t)
    else (true, record t { users = inserted_row now u ∷ t.users })

-- The row, and whether it was inserted just now.
unfoldable pub create_user : Time → ℤ → User → Store (User × Bool)
create_user now id row = do
  created ← statement driver (insert_user now row)
  if created then pure (row, true) else do
    again ← lock_user id
    u ← or_raise again (message "user row vanished during upsert")
    pure (u, false)

unfoldable pub lock_or_create_user : Time → ℤ → User → Store (User × Bool)
lock_or_create_user now id row = do
  cur ← lock_user id
  with_option cur (create_user now id row) (λ u. pure (u, false))

-- The columns that `writeUser` sets.
abbrev pub written_over : User → User → User
written_over u old = record old {
  username = u.username;
  avatar_url = u.avatar_url;
  status = u.status;
  inactive_reason = u.inactive_reason;
  last_synced_at = u.last_synced_at;
  profile_observed_at = u.profile_observed_at;
  deactivated_at = u.deactivated_at;
  deleted_at = u.deleted_at;
}

unfoldable pub write_user : User → Store ⊤
write_user u =
    statement driver
      (λ t. (tt, record t { users = update (is_user u.cns_user_id) (written_over u) t.users }))

-- `profile_observed_at IS NULL OR profile_observed_at < $7`
abbrev pub is_older : Time → Option Time → Bool
is_older at none = true
is_older at (some t) = ltb t at

module _ (lower : String → String) where
  -- Another active row that holds the name of `u`, from an older profile.
  abbrev pub is_outdated_holder : User → Time → User → Bool
  is_outdated_holder u at other =
      lower other.username == lower u.username
      && not (other.cns_user_id == u.cns_user_id)
      && other.status == active
      && is_older at other.profile_observed_at

  abbrev pub demoted : Time → User → User
  demoted now u = record u {
    status = inactive;
    inactive_reason = some stale;
    deactivated_at = or_now now u.deactivated_at;
    last_synced_at = epoch;
  }

  -- The `UPDATE`, for an active row with an observation.
  abbrev pub demote_at : Time → User → Option Time → Tables → Tables
  demote_at now u none t = t
  demote_at now u (some at) t = record t {
    users = update (is_outdated_holder u at) (demoted now) t.users;
  }

  unfoldable pub demote_name_holders : Time → User → Store ⊤
  demote_name_holders now u =
      if not (u.status == active)
      then pure tt
      else with_option u.profile_observed_at (pure tt)
          (λ at. statement driver (λ t. (tt, demote_at now u (some at) t)))

  -- What `recordProfile` does with the row that it has locked.
  unfoldable pub record_locked : Time → CnsUserProfile → Option Bool → User × Bool → Store ⊤
  record_locked now p lock (cur, created) =
      if created then demote_name_holders now cur else if cur.status == deleted then pure tt else do
        write_user (next_user_state (some cur) p lock now)
        demote_name_holders now (next_user_state (some cur) p lock now)

  unfoldable pub record_profile : Time → CnsUserProfile → Option Bool → Store ⊤
  unfolding all_space codes
  record_profile now p lock = do
    raise_if (is_nonpos p.cns_user_id || all_space (codes p.username))
        (message "cns profile needs a user id and a username")
    row ← lock_or_create_user now p.cns_user_id (next_user_state none p lock now)
    record_locked now p lock row

  unfoldable pub record_cns_profile : Time → CnsUserProfile → Option Bool → Store ⊤
  record_cns_profile now p lock = transaction driver (record_profile now p lock)

abbrev pub owns : ℤ → File → Bool
owns id f = elim f.owner_cns_user_id [ none ↦ false | some n ↦ pos n == id ]

abbrev pub nameless : File → File
nameless f = record f { owner_cns_user_name = none }

-- Files keep a copy of the owner's name.
unfoldable pub forget_owner : ℤ → Store Bool
forget_owner id = do
  statement driver (λ t. (tt, record t { files = update (owns id) nameless t.files }))
  pure true

-- What `markDeleted` does with the row that it has locked.
unfoldable pub delete_locked : Time → ℤ → User × Bool → Store Bool
delete_locked now id (cur, created) =
    if created
    then forget_owner id
    else if cur.status == deleted
    then pure false
    else do write_user (deleted_user_state (some cur) id now); forget_owner id

unfoldable pub mark_deleted : Time → ℤ → Store Bool
mark_deleted now id = do
  raise_if (is_nonpos id) (message "cns user id must be positive")
  row ← lock_or_create_user now id (deleted_user_state none id now)
  delete_locked now id row

unfoldable pub mark_user_deleted : Time → ℤ → Store Bool
mark_user_deleted now id = transaction driver (mark_deleted now id)

-- `status <> 'deleted'`, and no later observation of the account's status.
abbrev pub takes_status : ℤ → Time → User → Bool
takes_status id at u =
    is_user id u && not (u.status == deleted) && not_before at u.account_status_observed_at

abbrev pub with_status : CnsAccountStatus → Time → User → User
with_status s at u = record u {
  account_status = text_of s.status;
  account_status_expires_at = s.expires_at;
  account_status_observed_at = some at;
}

unfoldable pub record_account_status : Time → ℤ → CnsAccountStatus → Store ⊤
record_account_status now id s =
    let at = observed_by now s.observed_at in
    statement driver
      (λ t. (tt, record t { users = update (takes_status id at) (with_status s at) t.users }))

abbrev pub insert_event : WebhookEvent → Tables → Bool × Tables
insert_event e t =
    if exists (λ (x : WebhookEvent). x.event_id == e.event_id) t.events
    then (false, t)
    else (true, record t { events = e ∷ t.events })

-- `applyWebhookEvent`: whether the event was applied just now.
unfoldable pub apply_webhook_event : Time → String → String → Store ⊤ → Store Bool
apply_webhook_event now event_id event_type apply = transaction driver (do
  fresh ←
      statement driver
        (insert_event (record { event_id = event_id; event_type = event_type; received_at = now }))
  if fresh then apply >> pure true else pure false)

unfoldable pub apply_cns_user_updated :
    (String → String) → Time → String → CnsUserProfile → Store Bool
apply_cns_user_updated lower now event_id p = apply_webhook_event now event_id "user.updated" (do
  record_profile lower now p none
  with_option p.account_status (pure tt) (record_account_status now p.cns_user_id))

unfoldable pub apply_cns_user_deleted : Time → String → ℤ → Store Bool
apply_cns_user_deleted now event_id id =
    apply_webhook_event now event_id "user.deleted" (do newly ← mark_deleted now id; pure tt)

unfoldable pub purge_cns_webhook_events : Time → Store ℕ
purge_cns_webhook_events cutoff = statement driver (λ t. (
  count (λ (e : WebhookEvent). ltb e.received_at cutoff) t.events,
  record t { events = delete (λ (e : WebhookEvent). ltb e.received_at cutoff) t.events },
))

abbrev pub gone_stale : Time → User → User
gone_stale now u = record u {
  status = inactive;
  inactive_reason = some stale;
  deactivated_at = some now;
}

unfoldable pub deactivate_stale_users : Time → Time → Store ℕ
deactivate_stale_users now stale_before =
    let test = λ (u : User). u.status == active && ltb u.last_synced_at stale_before in
    statement driver
      (λ t. (count test t.users, record t { users = update test (gone_stale now) t.users }))
