-- ===== src/Uploads/Calls.antt =====
-- The calls that clients, the background of a replica and its loops make of the upload service.
use sendly.Common.{ℕ, String, Bool, List, [], ◌∷◌, Option, ℤ}
use sendly.Models.{Time, Bytes, Error}
use sendly.Uploads.Session.{UploadSession}
use sendly.Uploads.Serve.{World}
use sendly.Uploads.Receive.{UploadInitRequest, init_upload, upload_chunk, get_upload_progress}
use sendly.Uploads.Background.{
  complete_upload, assemble, get_assembly_status, resume_orphaned_assemblies,
}
use sendly.Uploads.Expiry.{cancel_upload, cleanup_expired_sessions}
use sendly.Uploads.Finalize.{FinalizeUploadOptions, finalize_upload_with_options}

-- With each call what it reads from outside: drawn identifiers, a context that is cancelled, how long the
-- outcome of an assembly may be recorded again, and what other replicas do within it.
pub data Call : Type 0 where
  init : (ℕ → String) → String → UploadInitRequest → String → ℕ → Call
  chunk : String → ℤ → Bytes → Call
  complete : String → String → Call
  assembly : String → (ℕ → Bool) → Bool → (Error → String) → List Bool → UploadSession → Call
  status progress : String → Call
  cancel : (String → World → World) → String → Call
  finalize : (World → World) → (ℕ → String) → String → String → Option FinalizeUploadOptions → Call
  cleanup : (String → World → World) → ℕ → (String → Bool) → Call
  resume : String → Call

-- The state that a call leaves.
unfoldable pub serve : Time → Call → World → World
serve now (init ids sid req ip max) w = (init_upload ids sid now req ip max w).1
serve now (chunk sid i content) w = (upload_chunk now sid i content w).1
serve now (complete owner sid) w = (complete_upload now owner sid w).1
serve now (assembly owner cancelled interrupted text late s) w =
    (assemble now owner cancelled interrupted text late s w).1
serve now (status sid) w = (get_assembly_status now sid w).1
serve now (progress sid) w = (get_upload_progress now sid w).1
serve now (cancel others sid) w = (cancel_upload others now sid w).1
serve now (finalize others codes sid duration opts) w =
    (finalize_upload_with_options others codes now sid duration opts w).1
serve now (cleanup others rounds locked) w = (cleanup_expired_sessions others rounds now locked w).1
serve now (resume owner) w = (resume_orphaned_assemblies now owner w).1

unfoldable pub serve_all : List (Time × Call) → World → World
serve_all [] w = w
serve_all ((now, call) ∷ calls) w = serve_all calls (serve now call w)
