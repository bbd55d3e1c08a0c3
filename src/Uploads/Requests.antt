-- ===== src/Uploads/Requests.antt =====
-- Requests of replicas on the upload sessions, one after another, as the statements order them.
use sendly.Common.{◌/◌, ℕ, String, Bool, ◌≢◌, List, [], ◌∷◌, Db}
use sendly.Models.{Time}
use sendly.Uploads.Session.{
  Tables, UploadSession, upload_session_ttl, upload_pending_ttl, assembly_lease,
}
use sendly.Uploads.Store.{
  create_upload_session, record_chunk, start_assembly, claim_assembly, renew_assembly,
  finish_assembly, fail_assembly, release_assembly, mark_upload_finalized, delete_upload_session,
  take_expired_upload_sessions,
}

pub data Request : Type 0 where
  create : UploadSession → Request
  chunk : String → ℕ → Request
  start : String → Request
  claim renew finish release : String → String → Request
  fail : String → String → String → Request
  finalize cancel : String → Request
  cleanup : (String → Bool) → ℕ → Request

-- The statement that a request runs, with the durations of internal/services/upload.go.
unfoldable pub perform : Time → Request → Db Tables → Db Tables
perform now (create s) db = (create_upload_session now s upload_session_ttl db).1
perform now (chunk sid i) db = (record_chunk now sid i upload_session_ttl db).1
perform now (start sid) db = (start_assembly now sid upload_pending_ttl db).1
perform now (claim sid owner) db = (claim_assembly now sid owner assembly_lease db).1
perform now (renew sid owner) db = (renew_assembly now sid owner assembly_lease db).1
perform now (finish sid owner) db = (finish_assembly now sid owner (upload_pending_ttl / 2) db).1
perform now (release sid owner) db = (release_assembly sid owner db).1
perform now (fail sid owner text) db = (fail_assembly now sid owner text db).1
perform now (finalize sid) db = (mark_upload_finalized now sid db).1
perform now (cancel sid) db = (delete_upload_session sid db).1
perform now (cleanup locked limit) db = (take_expired_upload_sessions now locked limit db).1

unfoldable pub run : List (Time × Request) → Db Tables → Db Tables
run [] db = db
run ((now, r) ∷ rs) db = run rs (perform now r db)

-- A request of another replica than `owner`, or one that does not end `owner`'s work on the session;
-- and no new session takes the identifier of this one.
abbrev pub IsForeign : String → String → Request → Type 0
IsForeign session_id owner (create s) = s.session_id ≢ session_id
IsForeign session_id owner (claim sid o) = o ≢ owner
IsForeign session_id owner (renew sid o) = o ≢ owner
IsForeign session_id owner (finish sid o) = o ≢ owner
IsForeign session_id owner (release sid o) = o ≢ owner
IsForeign session_id owner (fail sid o text) = o ≢ owner
IsForeign session_id owner _ = Unit
