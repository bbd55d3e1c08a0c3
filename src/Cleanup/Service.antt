-- ===== src/Cleanup/Service.antt =====
-- internal/services/cleanup.go, the listings and cleanups of internal/storage/filesystem.go, and the
-- statements on deleted files of internal/storage/postgres.go. Temporary files of assemblies are not in
-- the model of the volume, so `CleanupStaleAssemblies` is left out.
use sendly.Common.{
  ℕ, ◌+◌, ◌-◌, ◌*◌, String, Bool, true, false, not, ◌&&◌, ◌||◌, ◌==◌, nat_eq, string_eq, ltb,
  Option, none, some, List, [], ◌∷◌, map, if◌then◌else◌, select, exists, update, count, Result, ok,
  err, pure, try, handle, modify, ◌>>=◌, ◌>>◌, statement, query,
}
use sendly.Models.{Time, File, Error, driver, file_not_found, minute}
use sendly.Uploads.Store.{Store, upload_session_refs}
use sendly.Uploads.Disk.{Os, Blob, delete_file, delete_chunks, file_exists}
use sendly.Uploads.Serve.{World, Serve, ⊤, on_db, on_disk, logged, get_file_for_admin}

abbrev pub orphan_min_age : Time
orphan_min_age = 15 * minute

abbrev pub is_past : Time → File → Bool
is_past now f = ltb f.expires_at now && not f.is_deleted

unfoldable pub delete_expired_files : Time → Store ℕ
delete_expired_files now = statement driver (λ t. (
  count (is_past now) t.files,
  record t {
    files =
        update (is_past now) (λ f. record f { is_deleted = true; deleted_at = some now }) t.files;
  },
))

unfoldable pub get_deleted_files : Store (List File)
get_deleted_files = query driver (λ t. select File.is_deleted t.files)

unfoldable pub get_all_file_ids : Os (List String)
get_all_file_ids = query driver (λ v. map (λ (b : Blob). b.file_id) v.blobs)

unfoldable pub get_all_session_ids : Os (List String)
get_all_session_ids = query driver (λ v. v.chunk_dirs)

abbrev pub is_active : List String → String → Bool
is_active sessions k = exists (λ s. s == k) sessions

-- `os.Stat`, whose error or a directory that is too young leaves the directory alone.
abbrev pub is_young : Time → (String → Option Time) → String → Bool
is_young now touched k = elim (touched k) [ none ↦ true | some t ↦ ltb (now - t) orphan_min_age ]

-- The loop over the directories, and how many it has deleted.
unfoldable pub delete_orphaned_chunks :
    Time → (String → Option Time) → List String → List String → Os ℕ
delete_orphaned_chunks now touched active [] = pure 0
delete_orphaned_chunks now touched active (k ∷ ks) = do
  gone ←
      if is_active active k || is_young now touched k
      then pure 0
      else do r ← try (delete_chunks k); pure (elim r [ ok u ↦ 1 | err e ↦ 0 ])
  rest ← delete_orphaned_chunks now touched active ks
  pure (gone + rest)

unfoldable pub cleanup_old_chunks : Time → (String → Option Time) → List String → Os ℕ
unfolding delete_orphaned_chunks get_all_session_ids
cleanup_old_chunks now touched active = do
  ids ← get_all_session_ids
  delete_orphaned_chunks now touched active ids

unfoldable pub cleanup_orphaned_chunks : Time → (String → Option Time) → Serve ℕ
unfolding cleanup_old_chunks
cleanup_orphaned_chunks now touched = do
  refs ← on_db upload_session_refs
  on_disk (cleanup_old_chunks now touched refs.0)

-- The files among the deleted ones whose blob is still there.
unfoldable pub with_blobs : List File → Serve (List String)
with_blobs [] = pure []
with_blobs (f ∷ fs) = do
  there ← on_disk (file_exists f.id)
  rest ← with_blobs fs
  pure (if there then f.id ∷ rest else rest)

unfoldable pub list_deleted_files : Serve (List String)
unfolding get_deleted_files with_blobs
list_deleted_files = do files ← on_db get_deleted_files; with_blobs files

unfoldable pub delete_blobs : List String → Serve ⊤
delete_blobs [] = pure tt
delete_blobs (id ∷ ids) = logged (on_disk (delete_file id)) >> delete_blobs ids

abbrev pub is_not_found : Error → Bool
is_not_found file_not_found = true
is_not_found e = false

-- The answer of the database on a blob that no session has.
unfoldable pub delete_unknown : String → Result Error File → Serve ℕ
delete_unknown id (ok f) = pure 0
delete_unknown id (err e) =
    if not (is_not_found e)
    then pure 0
    else do r ← try (on_disk (delete_file id)); pure (elim r [ ok u ↦ 1 | err x ↦ 0 ])

-- `others` is what other replicas do between the lookup of a file and the deletion of its blob.
unfoldable pub delete_orphan : (String → World → World) → List String → String → Serve ℕ
unfolding delete_unknown
delete_orphan others sessions id =
    if is_active sessions id
    then pure 0
    else do r ← try (on_db (get_file_for_admin id)); modify (others id); delete_unknown id r

unfoldable pub delete_orphaned_files :
    (String → World → World) → List String → List String → Serve ℕ
unfolding delete_orphan
delete_orphaned_files others sessions [] = pure 0
delete_orphaned_files others sessions (id ∷ ids) = do
  gone ← delete_orphan others sessions id
  rest ← delete_orphaned_files others sessions ids
  pure (gone + rest)

-- `elsewhere` is what the other replicas do between the two readings.
unfoldable pub cleanup_orphaned_files : (World → World) → (String → World → World) → Serve ℕ
unfolding delete_orphaned_files get_all_file_ids
cleanup_orphaned_files elsewhere others = do
  refs ← on_db upload_session_refs
  modify elsewhere
  ids ← on_disk get_all_file_ids
  delete_orphaned_files others refs.1 ids

unfoldable pub delete_deleted : Serve ⊤
unfolding list_deleted_files delete_blobs
delete_deleted = do deleted ← try list_deleted_files; handle deleted delete_blobs (λ e. pure tt)

-- `purges` are the purges of coordination.go and `RunRetention`, whose own modules have them.
unfoldable pub perform_cleanup :
    Time → (String → Option Time) → Serve ⊤ → (World → World) → (String → World → World) → Serve ⊤
unfolding delete_expired_files delete_deleted cleanup_orphaned_chunks cleanup_orphaned_files
perform_cleanup now touched purges elsewhere others = do
  logged (on_db (delete_expired_files now))
  delete_deleted
  logged (cleanup_orphaned_chunks now touched)
  purges
  logged (cleanup_orphaned_files elsewhere others)
