-- ===== src/Uploads/Expiry.antt =====
-- internal/services/upload.go: sessions that are cancelled or expire, and their files. `others` is what
-- other replicas and requests do between the lookup of a file, by its identifier, and the deletion of its
-- blob.
use sendly.Common.{
  ℕ, zero, suc, String, Bool, true, false, not, ◌==◌, nat_eq, string_eq, ltb, List, [], ◌∷◌,
  if◌then◌else◌, length, Result, err, pure, raise, try, handle, modify, ◌>>=◌, ◌>>◌,
}
use sendly.Models.{Time, File, Error, session_not_found, file_not_found}
use sendly.Uploads.Session.{finalized, state_eq, UploadSession}
use sendly.Uploads.Store
use sendly.Uploads.Disk
use sendly.Uploads.Disk.{Disk}
use sendly.Uploads.Serve.{World, Serve, ⊤, on_db, on_disk, logged, get_file_for_admin}

abbrev pub is_file_not_found : Result Error File → Bool
is_file_not_found (err file_not_found) = true
is_file_not_found r = false

-- `removeSessionFiles`: the chunks of a dropped session and, unless it was finalized into a file, its
-- blob.
unfoldable pub remove_session_files : (String → World → World) → UploadSession → Serve ⊤
remove_session_files others s = do
  logged (on_disk (Disk.delete_chunks s.session_id))
  there ← on_disk (Disk.file_exists s.file_id)
  if not there then pure tt else do
    r ← try (on_db (get_file_for_admin s.file_id))
    modify (others s.file_id)
    if is_file_not_found r then logged (on_disk (Disk.delete_file s.file_id)) else pure tt

unfoldable pub remove_all : (String → World → World) → List UploadSession → Serve ⊤
remove_all others [] = pure tt
remove_all others (s ∷ rest) = remove_session_files others s >> remove_all others rest

-- `cleanupExpiredSessions`: batches of 100, as long as they are full; `rounds` bounds them.
unfoldable pub cleanup_expired_sessions :
    (String → World → World) → ℕ → Time → (String → Bool) → Serve ⊤
cleanup_expired_sessions others zero now locked = pure tt
cleanup_expired_sessions others (suc rounds) now locked = do
  r ← try (on_db (Store.take_expired_upload_sessions now locked 100))
  handle r
      (λ taken.
        remove_all others taken
        >> (if ltb (length taken) 100
            then pure tt
            else cleanup_expired_sessions others rounds now locked))
      (λ e. pure tt)

abbrev pub is_session_not_found : Error → Bool
is_session_not_found session_not_found = true
is_session_not_found e = false

unfoldable pub cancel_upload : (String → World → World) → Time → String → Serve ⊤
cancel_upload others now session_id = do
  r ← try (on_db (Store.get_upload_session now session_id))
  handle r
      (λ s.
        if s.state == finalized
        then pure tt
        else on_db (Store.delete_upload_session session_id) >> remove_session_files others s)
      (λ e. if is_session_not_found e then on_disk (Disk.delete_chunks session_id) else raise e)
