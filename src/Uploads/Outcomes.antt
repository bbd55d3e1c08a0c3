-- ===== src/Uploads/Outcomes.antt =====
-- What the statements of internal/storage/upload_sessions.go do to the session that they name.
use mathlib.Core.Option
use sendly.Common.{
  String, Bool, true, false, ◌&&◌, ◌≡◌, ◌≢◌, refl, Option, none, some, nat_eq, string_eq,
  if◌then◌else◌, find, count, ok, err, arith, Db, statement, eq_iff, is_faulty,
}
use sendly.Common.Keyed.{
  Distinct, keep_if, change_if, count_if, find-keyed, count-keyed, find-update, find-some,
}
use sendly.Models.{driver}
use sendly.Uploads.Session.{state_eq, UploadSession, Tables}
use sendly.Uploads.Store.{has_id, update_sessions, update_returning}

abbrev pub session_of : String → Tables → Option UploadSession
session_of session_id t = find (has_id session_id) t.sessions

-- The primary key of `upload_sessions`.
abbrev pub IsKeyed : Tables → Type 0
IsKeyed t = Distinct (λ (s : UploadSession). s.session_id) t.sessions

-- Whether there is a session, and it passes a test.
abbrev pub holds : (UploadSession → Bool) → Option UploadSession → Bool
holds q none = false
holds q (some s) = q s

-- What one statement answers, or leaves: the first if the driver fails it.
abbrev pub unless_faulty {ℓ} : {A : Type ℓ} → Db Tables → A → A → A
unless_faulty db before after = if is_faulty db.faults then before else after

-- A statement on the session `session_id`, where `q` is the rest of its condition.
module _ (session_id : String) (q : UploadSession → Bool) (f : UploadSession → UploadSession)
    (same : (s : UploadSession) → (f s).session_id ≡ s.session_id) (db : Db Tables) where
  abbrev pub at : UploadSession → Bool
  at s = has_id session_id s && q s

  count-at :
      IsKeyed db.tables → count at db.tables.sessions ≡ count_if q (session_of session_id db.tables)
  count-at = count-keyed (λ (s : UploadSession). s.session_id) session_id q db.tables.sessions

  pub update_sessions_answer :
      IsKeyed db.tables
      → (update_sessions at f db).0
        ≡ unless_faulty db (err driver) (ok (count_if q (session_of session_id db.tables)))
  unfolding update_sessions statement
  update_sessions_answer keyed = ground (arith, count-at keyed)

  other_row : (k : String) → k ≢ session_id → (s : UploadSession) → has_id k s ≡ true → at s ≡ false
  other_row k ne s h = ground (arith, eq_iff s.session_id k, eq_iff s.session_id session_id)

  has_id_same : (k : String) (s : UploadSession) → has_id k (f s) ≡ has_id k s
  has_id_same k s = rw same

  own_row :
      (o : Option UploadSession)
      → session_of session_id db.tables ≡ o
      → change_if at f o ≡ change_if q f o
  own_row none found = refl
  own_row (some s) found = rw (find-some (has_id session_id) db.tables.sessions s found)

  pub update_sessions_self :
      session_of session_id (update_sessions at f db).1.tables
      ≡ unless_faulty db
          (session_of session_id db.tables)
          (change_if q f (session_of session_id db.tables))
  unfolding update_sessions statement
  update_sessions_self = ground (
    arith,
    find-update (has_id session_id) at f db.tables.sessions (has_id_same session_id),
    own_row (session_of session_id db.tables) refl,
  )

  miss :
      (k : String)
      → k ≢ session_id
      → (o : Option UploadSession) → session_of k db.tables ≡ o
      → change_if at f o ≡ o
  miss k ne none found = refl
  miss k ne (some s) found = rw (other_row k ne s (find-some (has_id k) db.tables.sessions s found))

  pub update_sessions_other :
      (k : String)
      → k ≢ session_id
      → session_of k (update_sessions at f db).1.tables ≡ session_of k db.tables
  unfolding update_sessions statement
  update_sessions_other k ne = ground (
    arith,
    find-update (has_id k) at f db.tables.sessions (has_id_same k),
    miss k ne (session_of k db.tables) refl,
  )

  find-at :
      IsKeyed db.tables → find at db.tables.sessions ≡ keep_if q (session_of session_id db.tables)
  find-at = find-keyed (λ (s : UploadSession). s.session_id) session_id q db.tables.sessions

  pub update_returning_answer :
      IsKeyed db.tables
      → (update_returning at f db).0
        ≡ unless_faulty db
            (err driver)
            (ok (Option.map f (keep_if q (session_of session_id db.tables))))
  unfolding update_returning statement
  update_returning_answer keyed = ground (arith, find-at keyed)

  pub update_returning_tables : (update_returning at f db).1 ≡ (update_sessions at f db).1
  unfolding update_returning update_sessions statement
  update_returning_tables = ground arith
