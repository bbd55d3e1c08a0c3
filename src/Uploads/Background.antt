-- ===== src/Uploads/Background.antt =====
-- internal/services/upload.go: the assembly of an upload. A goroutine is an action of its own, which the
-- caller starts.
use sendly.Common.{
  ℕ, String, Bool, false, ◌==◌, nat_eq, string_eq, Option, none, some, List, [], ◌∷◌, if◌then◌else◌,
  exists, delete, pure, gets, or_raise, try, modify, handle, with_option, ◌>>=◌, ◌>>◌,
}
use Prim.Native.Nat.{◌/◌}
use mathlib.Core.Option
use sendly.Models.{Time, Error, session_not_found}
use sendly.Uploads.Session.{
  UploadState, uploading, assembling, assembled, finalized, failed, state_eq, UploadSession,
  upload_pending_ttl, assembly_lease,
}
use sendly.Uploads.Store
use sendly.Uploads.Disk
use sendly.Uploads.Disk.{Disk}
use sendly.Uploads.Serve.{World, Serve, ⊤, on_db, on_disk, logged}

-- `done`
unfoldable pub done : String → Serve ⊤
done session_id =
    modify (λ (w : World). record w { running = delete (λ k. k == session_id) w.running })

-- The end of `startAssembly`: without the lease it does nothing.
unfoldable pub claimed_or_done : String → Option UploadSession → Serve (Option UploadSession)
claimed_or_done session_id claimed =
    with_option claimed (done session_id >> pure none) (λ s. pure (some s))

-- `startAssembly`: the session that the goroutine assembles, if the lease was free.
unfoldable pub start_assembly : Time → String → String → Serve (Option UploadSession)
start_assembly now owner session_id = do
  busy ← gets (λ (w : World). exists (λ k. k == session_id) w.running)
  if busy then pure none else do
    modify (λ (w : World). record w { running = session_id ∷ w.running })
    r ← try (on_db (Store.claim_assembly now session_id owner assembly_lease))
    handle r (claimed_or_done session_id) (λ e. done session_id >> pure none)

pub record UploadCompleteResponse : Type 0 where
  pub session_id : String
  pub file_id : String
  pub pending_expires_at : Time

-- The response, and the session that the background assembles from here on.
unfoldable pub complete_upload :
    Time → String → String → Serve (UploadCompleteResponse × Option UploadSession)
complete_upload now owner session_id = do
  s ← on_db (Store.start_assembly now session_id upload_pending_ttl)
  background ← if s.state == assembling then start_assembly now owner session_id else pure none
  pure (
    record { session_id = session_id; file_id = s.file_id; pending_expires_at = s.expires_at },
    background,
  )

-- The closure `record`: `fn` again until it succeeds, or fails after the deadline. `late` tells of
-- each failure whether it came after; where the list ends, the next one does.
unfoldable pub recording : {A : Type 0} → List Bool → Serve A → Serve (Option A)
recording [] fn = do r ← try fn; handle r (λ a. pure (some a)) (λ e. pure none)
recording (over ∷ late) fn = do
  r ← try fn
  handle r (λ a. pure (some a)) (λ e. if over then pure none else recording late fn)

-- The first case of the `switch`: the chunks go once the database has the blob.
unfoldable pub assembled_ok : Time → String → List Bool → UploadSession → Serve ⊤
assembled_ok now owner late s = do
  finished ←
      recording late (on_db (Store.finish_assembly now s.session_id owner (upload_pending_ttl / 2)))
  if Option.get_or finished false
      then logged (on_disk (Disk.delete_chunks s.session_id))
      else pure tt

-- The other cases: interrupted by a shutdown or a lost lease, or failed for good.
unfoldable pub assembled_err : Time → String → Bool → String → List Bool → UploadSession → Serve ⊤
assembled_err now owner interrupted text late s =
    if interrupted
    then logged (recording late (on_db (Store.release_assembly s.session_id owner)))
    else logged (recording late (on_db (Store.fail_assembly now s.session_id owner text)))

-- `assemble`, and `done` behind it. `cancelled` is the context during the copy, `interrupted` the
-- context after it, and `text` stands for `err.Error()`.
unfoldable pub assemble :
    Time → String → (ℕ → Bool) → Bool → (Error → String) → List Bool → UploadSession → Serve ⊤
assemble now owner cancelled interrupted text late s = do
  r ← try (on_disk (Disk.assemble_chunks cancelled s.session_id s.file_id s.total_chunks))
  handle r (λ u. assembled_ok now owner late s)
      (λ e. assembled_err now owner interrupted (text e) late s)
  done s.session_id

-- What `GetAssemblyStatus` answers: "pending", "done", or "error:" and a message.
pub data AssemblyStatus : Type 0 where
  pending ready : AssemblyStatus
  broken : Option String → AssemblyStatus

-- The `switch` on the state.
abbrev pub status_of : UploadState → Option String → Option AssemblyStatus
status_of assembled e = some ready
status_of finalized e = some ready
status_of failed e = some (broken e)
status_of assembling e = some pending
status_of uploading e = none

unfoldable pub get_assembly_status : Time → String → Serve AssemblyStatus
get_assembly_status now session_id = do
  s ← on_db (Store.get_upload_session now session_id)
  or_raise (status_of s.state s.error) session_not_found

unfoldable pub start_all : Time → String → List String → Serve (List (Option UploadSession))
start_all now owner [] = pure []
start_all now owner (id ∷ ids) = do
  s ← start_assembly now owner id
  rest ← start_all now owner ids
  pure (s ∷ rest)

-- `resumeOrphanedAssemblies`: the sessions that the background assembles from here on.
unfoldable pub resume_orphaned_assemblies : Time → String → Serve (List (Option UploadSession))
resume_orphaned_assemblies now owner = do
  r ← try (on_db (Store.list_orphaned_assemblies now 10))
  handle r (start_all now owner) (λ e. pure [])
