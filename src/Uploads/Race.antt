-- ===== src/Uploads/Race.antt =====
-- internal/services/upload.go: a finalize that comes between the lookup of a file and the deletion of its
-- blob.
use sendly.Common.{
  String, Bool, true, false, ◌≡◌, refl, List, [], ◌∷◌, string_eq, exists, delete, arith, pure,
  or_raise, try, modify, ◌>>=◌, statement, query,
}
use sendly.Common.Keyed.{find-none}
use sendly.Uploads.Session.{UploadSession, Tables}
use sendly.Uploads.Disk.{Blob, Volume, is_blob, delete_chunks, delete_file, file_exists}
use sendly.Uploads.Files.{has_file_id}
use sendly.Uploads.Serve.{World, on_db, on_disk, logged, get_file_for_admin}
use sendly.Uploads.Stored.{has_blob}
use sendly.Uploads.Expiry.{remove_session_files}

abbrev pub has_row : String → World → Bool
has_row id w = exists (has_file_id id) w.db.tables.files

none_left : (k : String) (bs : List Blob) → exists (is_blob k) (delete (is_blob k) bs) ≡ false
none_left k [] = refl
none_left k (b ∷ bs) = ground (arith, none_left k bs)

-- A world in which nothing fails.
abbrev pub sound : Tables → Volume → List String → World
sound t v running = record {
  db = record { faults = []; tables = t };
  disk = record { faults = []; tables = v };
  running = running;
}

-- The world in which others act: the chunks are gone, and the file has been looked up.
abbrev pub asked : UploadSession → Tables → Volume → List String → World
asked s t v running = record (sound t v running) {
  disk = (delete_chunks s.session_id (record { faults = []; tables = v })).1;
}

-- A finalize that writes the row of a file after the session of the upload was dropped and the file was
-- looked up leaves the row, and the blob is deleted all the same: the file cannot be read any more.
pub remove_session_files-late :
    (others : String → World → World) (s : UploadSession) (t : Tables) (v : Volume)
    (running : List String)
    → has_row s.file_id (sound t v running) ≡ false
    → has_blob s.file_id v ≡ true
    → (others s.file_id (asked s t v running)).disk.faults ≡ []
    → has_row s.file_id (others s.file_id (asked s t v running)) ≡ true
    → (has_row s.file_id (remove_session_files others s (sound t v running)).1 ≡ true)
      × (has_blob s.file_id (remove_session_files others s (sound t v running)).1.disk.tables
          ≡ false)
unfolding remove_session_files logged on_db on_disk delete_chunks delete_file file_exists
    get_file_for_admin try query statement or_raise modify pure ◌>>=◌
remove_session_files-late others s t v running row blob clean written =
    let absent = find-none (has_file_id s.file_id) t.files row in
    rw (blob, absent, clean)
      (written, none_left s.file_id (others s.file_id (asked s t v running)).disk.tables.blobs)
