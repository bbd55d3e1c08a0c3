-- ===== src/Uploads/KeepStored.antt =====
-- internal/services/upload.go: files and their blobs while uploads arrive and are assembled.
use sendly.Common.{
  ℕ, zero, suc, String, Bool, false, not, List, [], ◌∷◌, ◌==◌, nat_eq, string_eq, Result, ok, err,
  ℤ,
}
use sendly.Common.Keeps.{
  Keeps, Keeps-query, Keeps-bind, Keeps-raise_if, Keeps-pure, Keeps-raise, Keeps-or_raise,
  Keeps-try, Keeps-modify, Keeps-gets, Keeps-handle, Keeps-with_option, Keeps-if,
}
use sendly.Models.{Time, Error, Bytes}
use sendly.Uploads.Session.{UploadSession, state_eq, assembling}
use mathlib.Core.Option
use sendly.Uploads.Store.{count_uploaded_chunks}
use sendly.Uploads.NewFiles
use sendly.Uploads.Serve.{Serve, ⊤}
use sendly.Uploads.Receive.{
  UploadInitRequest, reserve, try_file_id, answer_attempt, make_chunk_dir, init_upload, note_chunk,
  upload_chunk, get_upload_progress, is_taken,
}
use sendly.Uploads.Background.{
  done, claimed_or_done, start_assembly, complete_upload, recording, assembled_ok, assembled_err,
  assemble, get_assembly_status, start_all, resume_orphaned_assemblies,
}
use sendly.Uploads.Stored.{
  AllStored, AllStored-on_db, AllStored-on_disk, Keeps-logged, Keeps-wrapped,
  create_chunk_dir-KeepsBlobs, delete_chunks-KeepsBlobs, file_exists-KeepsBlobs,
  save_chunk-KeepsBlobs, assemble_chunks-KeepsBlobs,
}

try_file_id-AllStored : (now : Time) (s : UploadSession) → Keeps AllStored (try_file_id now s)
unfolding try_file_id
try_file_id-AllStored now s =
    Keeps-bind _ _ (AllStored-on_disk _ (file_exists-KeepsBlobs _)) (λ taken.
      Keeps-if taken _ _ (λ e. Keeps-raise _)
        (λ e. AllStored-on_db _ (λ id. NewFiles.create_upload_session-AddsNone id _ _ _)))

attempt-AllStored :
    (last : Bool) (s : UploadSession) (r : Result Error ⊤) (again : Serve UploadSession)
    → Keeps AllStored again
    → Keeps AllStored (answer_attempt last s r again)
unfolding answer_attempt
attempt-AllStored last s (ok u) again k = Keeps-pure _
attempt-AllStored last s (err e) again k =
    Keeps-if (not (is_taken e)) _ _ (λ c. Keeps-raise _)
      (λ c. Keeps-if last _ _ (λ d. Keeps-raise _) (λ d. k))

reserve-AllStored :
    (ids : ℕ → String) (now : Time) (s : UploadSession) (client_id : String) (retries attempt : ℕ)
    → Keeps AllStored (reserve ids now s client_id retries attempt)
unfolding reserve
reserve-AllStored ids now s client_id zero attempt =
    Keeps-bind _ _ (Keeps-try _ (try_file_id-AllStored _ _))
      (λ r. attempt-AllStored _ _ r _ (Keeps-raise _))
reserve-AllStored ids now s client_id (suc retries) attempt =
    Keeps-bind _ _ (Keeps-try _ (try_file_id-AllStored _ _))
      (λ r. attempt-AllStored _ _ r _ (reserve-AllStored ids now s client_id retries (suc attempt)))

make_chunk_dir-AllStored : (k : String) → Keeps AllStored (make_chunk_dir k)
unfolding make_chunk_dir
make_chunk_dir-AllStored k =
    Keeps-bind _ _ (Keeps-try _ (AllStored-on_disk _ (create_chunk_dir-KeepsBlobs _))) (λ r.
      Keeps-handle _ _ _ (λ u. Keeps-pure _)
        (λ e.
          Keeps-bind _ _
            (Keeps-logged _ _
              (AllStored-on_db _ (λ id. NewFiles.delete_upload_session-AddsNone id _)))
            (λ u. Keeps-raise _)))

pub init-AllStored :
    (ids : ℕ → String) (k : String) (now : Time) (req : UploadInitRequest) (ip : String) (max : ℕ)
    → Keeps AllStored (init_upload ids k now req ip max)
unfolding init_upload
init-AllStored ids k now req ip max = Keeps-bind _ _ (Keeps-raise_if _ _) (λ u.
    Keeps-bind _ _ (Keeps-raise_if _ _) (λ u.
      Keeps-bind _ _ (reserve-AllStored _ _ _ _ _ _)
        (λ s. Keeps-bind _ _ (make_chunk_dir-AllStored k) (λ u. Keeps-pure _))))

note_chunk-AllStored : (now : Time) (k : String) (i : ℕ) → Keeps AllStored (note_chunk now k i)
unfolding note_chunk
note_chunk-AllStored now k i =
    Keeps-bind _ _
      (Keeps-try _ (AllStored-on_db _ (λ id. NewFiles.record_chunk-AddsNone id _ _ _ _)))
      (λ r. Keeps-handle _ _ _ (λ u. Keeps-pure _) (λ e. Keeps-raise _))

pub chunk-AllStored :
    (now : Time) (k : String) (i : ℤ) (content : Bytes)
    → Keeps AllStored (upload_chunk now k i content)
unfolding upload_chunk
chunk-AllStored now k i content =
    Keeps-bind _ _ (AllStored-on_db _ (λ id. NewFiles.get_upload_session-AddsNone id _ _)) (λ s.
      Keeps-bind _ _ (Keeps-or_raise _ _) (λ n. Keeps-bind _ _ (Keeps-raise_if _ _) (λ u.
        Keeps-bind _ _ (Keeps-wrapped _ _ _ (AllStored-on_disk _ (save_chunk-KeepsBlobs _ _ _)))
          (λ u. note_chunk-AllStored now k n))))

done-AllStored : (k : String) → Keeps AllStored (done k)
unfolding done
done-AllStored k = Keeps-modify _ (λ w h. record { stored = h.stored })

start-AllStored : (now : Time) (owner k : String) → Keeps AllStored (start_assembly now owner k)
unfolding start_assembly claimed_or_done
start-AllStored now owner k = Keeps-bind _ _ (Keeps-gets _) (λ busy.
    Keeps-if busy _ _ (λ e. Keeps-pure _)
      (λ e. Keeps-bind _ _ (Keeps-modify _ (λ w h. record { stored = h.stored })) (λ u.
        Keeps-bind _ _
          (Keeps-try _ (AllStored-on_db _ (λ id. NewFiles.claim_assembly-AddsNone id _ _ _ _)))
          (λ r.
            Keeps-handle _ _ _
              (λ o.
                Keeps-with_option _ _ _ (Keeps-bind _ _ (done-AllStored k) (λ u. Keeps-pure _))
                  (λ s. Keeps-pure _))
              (λ e. Keeps-bind _ _ (done-AllStored k) (λ u. Keeps-pure _))))))

pub complete-AllStored :
    (now : Time) (owner k : String) → Keeps AllStored (complete_upload now owner k)
unfolding complete_upload
complete-AllStored now owner k =
    Keeps-bind _ _ (AllStored-on_db _ (λ id. NewFiles.start_assembly-AddsNone id _ _ _)) (λ s.
      Keeps-bind _ _
        (Keeps-if (s.state == assembling) _ _ (λ e. start-AllStored now owner k)
          (λ e. Keeps-pure _))
        (λ b. Keeps-pure _))

recording-AllStored :
    {A : Type 0} (late : List Bool) (m : Serve A)
    → Keeps AllStored m
    → Keeps AllStored (recording late m)
unfolding recording
recording-AllStored [] m k =
    Keeps-bind _ _ (Keeps-try _ k) (λ r. Keeps-handle _ _ _ (λ a. Keeps-pure _) (λ e. Keeps-pure _))
recording-AllStored (over ∷ late) m k = Keeps-bind _ _ (Keeps-try _ k) (λ r.
    Keeps-handle _ _ _ (λ a. Keeps-pure _)
      (λ e. Keeps-if over _ _ (λ c. Keeps-pure _) (λ c. recording-AllStored late m k)))

assembled_ok-AllStored :
    (now : Time) (owner : String) (late : List Bool) (s : UploadSession)
    → Keeps AllStored (assembled_ok now owner late s)
unfolding assembled_ok
assembled_ok-AllStored now owner late s =
    Keeps-bind _ _
      (recording-AllStored late _
        (AllStored-on_db _ (λ id. NewFiles.finish_assembly-AddsNone id _ _ _ _)))
      (λ finished.
        Keeps-if (Option.get_or finished false) _ _
          (λ e. Keeps-logged _ _ (AllStored-on_disk _ (delete_chunks-KeepsBlobs _)))
          (λ e. Keeps-pure _))

assembled_err-AllStored :
    (now : Time) (owner : String) (interrupted : Bool) (text : String) (late : List Bool)
    (s : UploadSession)
    → Keeps AllStored (assembled_err now owner interrupted text late s)
unfolding assembled_err
assembled_err-AllStored now owner interrupted text late s =
    Keeps-if interrupted _ _
      (λ e. Keeps-logged _ _ (
        recording-AllStored late _
          (AllStored-on_db _ (λ id. NewFiles.release_assembly-AddsNone id _ _))))
      (λ e. Keeps-logged _ _ (
        recording-AllStored late _
          (AllStored-on_db _ (λ id. NewFiles.fail_assembly-AddsNone id _ _ _ _))))

pub assemble-AllStored :
    (now : Time) (owner : String) (cancelled : ℕ → Bool) (interrupted : Bool)
    (text : Error → String) (late : List Bool) (s : UploadSession)
    → Keeps AllStored (assemble now owner cancelled interrupted text late s)
unfolding assemble
assemble-AllStored now owner cancelled interrupted text late s =
    Keeps-bind _ _ (Keeps-try _ (AllStored-on_disk _ (assemble_chunks-KeepsBlobs _ _ _ _))) (λ r.
      Keeps-bind _ _
        (Keeps-handle _ _ _ (λ u. assembled_ok-AllStored _ _ _ _)
          (λ e. assembled_err-AllStored _ _ _ _ _ _))
        (λ u. done-AllStored _))

pub status-AllStored : (now : Time) (k : String) → Keeps AllStored (get_assembly_status now k)
unfolding get_assembly_status
status-AllStored now k =
    Keeps-bind _ _ (AllStored-on_db _ (λ id. NewFiles.get_upload_session-AddsNone id _ _))
      (λ s. Keeps-or_raise _ _)

pub progress-AllStored : (now : Time) (k : String) → Keeps AllStored (get_upload_progress now k)
unfolding get_upload_progress count_uploaded_chunks
progress-AllStored now k =
    Keeps-bind _ _ (AllStored-on_db _ (λ id. NewFiles.get_upload_session-AddsNone id _ _))
      (λ s. Keeps-bind _ _ (AllStored-on_db _ (λ id. Keeps-query _ _)) (λ n. Keeps-pure _))

start_all-AllStored :
    (now : Time) (owner : String) (ks : List String) → Keeps AllStored (start_all now owner ks)
unfolding start_all
start_all-AllStored now owner [] = Keeps-pure _
start_all-AllStored now owner (k ∷ ks) =
    Keeps-bind _ _ (start-AllStored now owner k)
      (λ s. Keeps-bind _ _ (start_all-AllStored now owner ks) (λ rest. Keeps-pure _))

pub resume-AllStored :
    (now : Time) (owner : String) → Keeps AllStored (resume_orphaned_assemblies now owner)
unfolding resume_orphaned_assemblies
resume-AllStored now owner =
    Keeps-bind _ _ (Keeps-try _ (AllStored-on_db _ (λ id. NewFiles.list_orphaned-AddsNone id _ _)))
      (λ r. Keeps-handle _ _ _ (λ ks. start_all-AllStored now owner ks) (λ e. Keeps-pure _))
