-- ===== src/Uploads/AlwaysStored.antt =====
-- internal/services/upload.go: files and their blobs under finalize and under any calls.
use sendly.Common.{
  ℕ, zero, suc, String, not, ◌≡◌, inl, inr, Option, List, [], ◌∷◌, ◌==◌, nat_eq, string_eq,
  Bool-cases, Option-cases, All, ok, pure, raise, try, handle, ◌>>=◌, is_faulty, statement, query,
  find, or_raise,
}
use sendly.Common.Keeps.{
  Keeps, Keeps-bind, Keeps-raise_if, Keeps-pure, Keeps-raise, Keeps-try, Keeps-handle,
  Keeps-with_option, Keeps-if, Keeps-modify,
}
use sendly.Common.KeepsInto.{Keeps-bind_into}
use sendly.Common.Keyed.{find-exists}
use sendly.Models.{Time, File}
use sendly.Uploads.Session.{UploadSession, finalized, state_eq}
use sendly.Uploads.Disk.{is_blob, get_file_size}
use sendly.Uploads.NewFiles
use sendly.Uploads.Serve.{World, on_disk, wrapped}
use sendly.Uploads.Finalize.{
  FinalizeUploadOptions, unique_code, generate_unique_numeric_code, identity_envelope_for,
  identity_envelope_of, track_upload, written, lost_race, create_file, repeated, not_there,
  finalize_upload_with_options,
}
use sendly.Uploads.Stored.{
  Stored, AllStored, Stored-on_db, AllStored-on_db, AllStored-on_disk, Keeps-logged, Keeps-wrapped,
  get_file_size-KeepsBlobs,
}
use sendly.Uploads.Calls.{
  Call, init, chunk, complete, assembly, status, progress, cancel, finalize, cleanup, resume, serve,
  serve_all,
}
use sendly.Uploads.KeepStored
use sendly.Uploads.DropStored
use sendly.Uploads.DropStored.{Gaps}

-- A size means that the blob is there.
sized :
    (text f : String) (w : World) (n : ℕ)
    → AllStored w
    → (wrapped text (on_disk (get_file_size f)) w).0 ≡ ok n
    → Stored f (wrapped text (on_disk (get_file_size f)) w).1
unfolding wrapped on_disk get_file_size try handle query statement or_raise pure raise ◌>>=◌
sized text f w n h e = elim (Bool-cases (is_faulty w.disk.faults)) [
  | inl bad ↦ absurd (let e' = rw bad at e in cc)
  | inr good ↦ elim (Option-cases (find (is_blob f) w.disk.tables.blobs)) [
    | inl absent ↦ absurd (let e' = rw (good, absent) at e in cc)
    | inr (b, there) ↦
        rw (good, there)
          (record {
            stored = h.stored;
            ready = find-exists (is_blob f) w.disk.tables.blobs b there;
          })
  ]
]

module _ (f : String) where
  unique-Stored :
      (codes : ℕ → String) (i rounds : ℕ) → Keeps (Stored f) (unique_code codes i rounds)
  unfolding unique_code
  unique-Stored codes i zero = Keeps-raise _
  unique-Stored codes i (suc rounds) =
      Keeps-bind _ _
        (Keeps-wrapped _ _ _
          (Stored-on_db f _ (λ id o. NewFiles.numeric_code_exists-AddsNone id _)))
        (λ taken.
          Keeps-if (not taken) _ _ (λ e. Keeps-pure _) (λ e. unique-Stored codes (suc i) rounds))

  identity_for-Stored :
      (now : Time) (id : String) (user : ℕ) (o : FinalizeUploadOptions)
      → Keeps (Stored f) (identity_envelope_for now id user o)
  unfolding identity_envelope_for
  identity_for-Stored now id user o = Keeps-bind _ _ (Keeps-raise_if _ _) (λ u.
      Keeps-bind _ _
        (Keeps-try _ (Stored-on_db f _ (λ id o. NewFiles.get_active_key-AddsNone id _)))
        (λ r.
          Keeps-handle _ _ _ (λ key. Keeps-bind _ _ (Keeps-raise_if _ _) (λ u. Keeps-pure _))
            (λ e. Keeps-raise _)))

  identity_of-Stored :
      (now : Time) (id : String) (opts : Option FinalizeUploadOptions)
      → Keeps (Stored f) (identity_envelope_of now id opts)
  unfolding identity_envelope_of
  identity_of-Stored now id opts =
      Keeps-with_option _ _ _ (Keeps-pure _)
        (λ x. let (user, o) = x in identity_for-Stored now id user o)

  track-Stored : (bytes : ℕ) (ip : String) → Keeps (Stored f) (track_upload bytes ip)
  unfolding track_upload
  track-Stored zero ip = Keeps-pure _
  track-Stored (suc bytes) ip =
      Keeps-logged _ _ (Stored-on_db f _ (λ id o. NewFiles.record_upload-AddsNone id _ _))

  written-Stored : (now : Time) (k : String) (file : File) → Keeps (Stored f) (written now k file)
  unfolding written
  written-Stored now k file = Keeps-bind _ _ (track-Stored _ _) (λ u.
      Keeps-bind _ _
        (Keeps-logged _ _
          (Stored-on_db f _ (λ id o. NewFiles.mark_upload_finalized-AddsNone id _ _)))
        (λ u. Keeps-pure _))

  lost_race-Stored : (k : String) → Keeps (Stored f) (lost_race k)
  unfolding lost_race
  lost_race-Stored k =
      Keeps-bind _ _
        (Keeps-try _ (Stored-on_db f _ (λ id o. NewFiles.get_file_for_admin-AddsNone id _)))
        (λ r. Keeps-handle _ _ _ (λ e. Keeps-pure _) (λ e. Keeps-raise _))

module _ (others : World → World)
    (kept : (f : String) (w : World) → Stored f w → Stored f (others w)) (codes : ℕ → String)
    (now : Time) (k duration : String) (opts : Option FinalizeUploadOptions) where
  create_file-AllStored :
      (s : UploadSession) → Keeps AllStored (create_file others codes now k duration opts s)
  unfolding create_file generate_unique_numeric_code
  create_file-AllStored s =
      Keeps-bind _ _ (Keeps-handle _ _ _ (λ u. Keeps-pure _) (λ e. Keeps-raise _)) (λ u.
        Keeps-bind _ _ (Keeps-handle _ _ _ (λ u. Keeps-pure _) (λ e. Keeps-raise _)) (λ expires_at.
          Keeps-bind_into _ _
            (Keeps-wrapped _ _ _ (AllStored-on_disk _ (get_file_size-KeepsBlobs _)))
            (sized _ s.file_id)
            (λ size. Keeps-bind _ _ (unique-Stored s.file_id codes 0 10) (λ code.
              Keeps-bind _ _ (identity_of-Stored s.file_id now s.file_id opts) (λ envelope.
                Keeps-bind _ _ (Keeps-modify _ (kept s.file_id)) (λ u.
                  Keeps-bind _ _
                    (Keeps-try _ (
                      Stored-on_db s.file_id _
                        (λ id other. NewFiles.create_file-AddsNone id _ _ _ other)))
                    (λ r.
                      Keeps-handle _ _ _ (λ u. written-Stored s.file_id now k _)
                        (λ e. lost_race-Stored s.file_id _))))))
            (λ w h. record { stored = h.stored })))

  repeated-AllStored :
      (s : UploadSession) (existing : File) → Keeps AllStored (repeated now k s existing)
  unfolding repeated
  repeated-AllStored s existing =
      Keeps-bind _ _
        (Keeps-if (not (s.state == finalized)) _ _
          (λ e.
            Keeps-logged _ _
              (AllStored-on_db _ (λ id. NewFiles.mark_upload_finalized-AddsNone id _ _)))
          (λ e. Keeps-pure _))
        (λ u. Keeps-pure _)

  finalize-AllStored :
      Keeps AllStored (finalize_upload_with_options others codes now k duration opts)
  unfolding finalize_upload_with_options
  finalize-AllStored =
      Keeps-bind _ _
        (Keeps-try _ (AllStored-on_db _ (λ id. NewFiles.get_upload_session-AddsNone id _ _)))
        (λ found. Keeps-bind _ _ (Keeps-handle _ _ _ (λ s. Keeps-pure _) (λ e. Keeps-raise _)) (λ s.
          Keeps-bind _ _
            (Keeps-try _ (AllStored-on_db _ (λ id. NewFiles.get_file_for_admin-AddsNone id _)))
            (λ r. Keeps-handle _ _ _ (repeated-AllStored s) (λ e.
              Keeps-if (not_there e) _ _ (λ c. create_file-AllStored s) (λ c. Keeps-raise _)))))

-- What others do within a call: nothing that matters but in two gaps. Between the lookup of a file and
-- the deletion of its blob no row of it is written, and between the size of a blob and the row of its
-- file the blob stays.
abbrev pub Undisturbed : Call → Type 0
Undisturbed (cancel others sid) = Gaps others
Undisturbed (cleanup others rounds locked) = Gaps others
Undisturbed (finalize others codes sid duration opts) =
    (f : String) (w : World) → Stored f w → Stored f (others w)
Undisturbed _ = Unit

serve-AllStored :
    (now : Time) (call : Call) (w : World)
    → Undisturbed call
    → AllStored w
    → AllStored (serve now call w)
unfolding serve
serve-AllStored now (init ids sid req ip max) w q h =
    (KeepStored.init-AllStored ids sid now req ip max).at w h
serve-AllStored now (chunk sid i content) w q h =
    (KeepStored.chunk-AllStored now sid i content).at w h
serve-AllStored now (complete owner sid) w q h =
    (KeepStored.complete-AllStored now owner sid).at w h
serve-AllStored now (assembly owner cancelled interrupted text late s) w q h =
    (KeepStored.assemble-AllStored now owner cancelled interrupted text late s).at w h
serve-AllStored now (status sid) w q h = (KeepStored.status-AllStored now sid).at w h
serve-AllStored now (progress sid) w q h = (KeepStored.progress-AllStored now sid).at w h
serve-AllStored now (cancel others sid) w q h =
    (DropStored.cancel-AllStored others q now sid).at w h
serve-AllStored now (finalize others codes sid duration opts) w q h =
    (finalize-AllStored others q codes now sid duration opts).at w h
serve-AllStored now (cleanup others rounds locked) w q h =
    (DropStored.cleanup-AllStored others q rounds now locked).at w h
serve-AllStored now (resume owner) w q h = (KeepStored.resume-AllStored now owner).at w h

-- If every file has its blob on the volume, then it does after any calls of the upload service,
-- whichever of their statements and system calls fail, and whatever others do in two gaps of a call that
-- leaves every file its blob too, if they write no row of a file between its lookup and the deletion of
-- its blob, and delete no blob between the reading of its size and the writing of its row.
pub serve_all-AllStored :
    (calls : List (Time × Call)) (w : World)
    → All (λ (c : Time × Call). Undisturbed c.1) calls
    → AllStored w
    → AllStored (serve_all calls w)
unfolding serve_all
serve_all-AllStored [] w q h = h
serve_all-AllStored ((now, call) ∷ calls) w q h =
    serve_all-AllStored calls (serve now call w) q.1 (serve-AllStored now call w q.0 h)
