-- ===== src/Uploads/Receive.antt =====
-- internal/services/upload.go: an upload begins and its chunks arrive.
use sendly.Common.{
  ℕ, zero, suc, String, Bool, true, false, not, ◌&&◌, ◌==◌, nat_eq, string_eq, ltb, leb, Option,
  none, some, if◌then◌else◌, Result, ok, err, pure, raise, or_raise, raise_if, try, handle, ◌>>=◌,
  ◌>>◌, ℤ, pos, negsuc,
}
use sendly.Models.{
  Time, Bytes, Error, message, file_too_large, invalid_file_id, file_id_taken, invalid_chunk,
  upload_not_accepting, is_valid_file_id,
}
use sendly.Uploads.Session.{uploading, state_eq, UploadSession, upload_session_ttl}
use sendly.Uploads.Store
use sendly.Uploads.Disk
use sendly.Uploads.Disk.{Disk}
use sendly.Uploads.Serve.{Serve, ⊤, on_db, on_disk, logged, wrapped}

pub record UploadInitRequest : Type 0 where
  pub file_name : String
  pub file_size : ℕ
  pub total_chunks : ℕ
  pub chunk_size : ℕ
  pub file_id : String

pub record UploadInitResponse : Type 0 where
  pub session_id : String
  pub file_id : String
  pub chunk_size : ℕ
  pub total_chunks : ℕ

-- One round of the loop of `InitUpload`: the identifier is taken if its blob exists.
unfoldable pub try_file_id : Time → UploadSession → Serve ⊤
try_file_id now s = do
  taken ← on_disk (Disk.file_exists s.file_id)
  if taken
      then raise file_id_taken
      else on_db (Store.create_upload_session now s upload_session_ttl)

abbrev pub is_taken : Error → Bool
is_taken file_id_taken = true
is_taken e = false

-- What the loop does with the outcome of a round, where `again` is the next round.
unfoldable pub answer_attempt :
    Bool → UploadSession → Result Error ⊤ → Serve UploadSession → Serve UploadSession
answer_attempt last s (ok u) again = pure s
answer_attempt last s (err e) again =
    if not (is_taken e)
    then raise (message "error creating upload session")
    else if last
    then raise e
    else again

-- The session under the identifier of a round: the client's, or one drawn from `ids`, which stands
-- for `GenerateID`.
abbrev pub named : (ℕ → String) → String → ℕ → UploadSession → UploadSession
named ids client_id attempt s = record s {
  file_id = if client_id == "" then ids attempt else client_id;
}

-- The loop, with `retries` rounds left after this one: `attempt >= 2` ends it, and a client's own
-- identifier is tried once.
unfoldable pub reserve : (ℕ → String) → Time → UploadSession → String → ℕ → ℕ → Serve UploadSession
reserve ids now s client_id zero attempt = do
  r ← try (try_file_id now (named ids client_id attempt s))
  answer_attempt true (named ids client_id attempt s) r (raise file_id_taken)
reserve ids now s client_id (suc retries) attempt = do
  r ← try (try_file_id now (named ids client_id attempt s))
  answer_attempt (not (client_id == "")) (named ids client_id attempt s) r
      (reserve ids now s client_id retries (suc attempt))

abbrev pub new_session : Time → UploadInitRequest → String → String → UploadSession
new_session now req session_id uploader_ip = record {
  session_id = session_id;
  file_id = "";
  original_name = req.file_name;
  total_size = req.file_size;
  total_chunks = req.total_chunks;
  chunk_size = req.chunk_size;
  uploader_ip = uploader_ip;
  state = uploading;
  error = none;
  expires_at = 0;
  created_at = now;
  assembly_owner = none;
  assembly_lease_until = none;
  updated_at = 0;
}

-- `CreateChunkDir`, which undoes the session where it fails.
unfoldable pub make_chunk_dir : String → Serve ⊤
make_chunk_dir session_id = do
  r ← try (on_disk (Disk.create_chunk_dir session_id))
  handle r (λ u. pure tt)
      (λ e.
        logged (on_db (Store.delete_upload_session session_id))
        >> raise (message "error creating chunk directory"))

-- `session_id` stands for `GenerateSessionID`.
unfoldable pub init_upload :
    (ℕ → String) → String → Time → UploadInitRequest → String → ℕ → Serve UploadInitResponse
init_upload ids session_id now req uploader_ip max_file_size = do
  raise_if (ltb max_file_size req.file_size) file_too_large
  raise_if (not (req.file_id == "") && not (is_valid_file_id req.file_id)) invalid_file_id
  s ← reserve ids now (new_session now req session_id uploader_ip) req.file_id 2 0
  make_chunk_dir session_id
  pure (record {
    session_id = session_id;
    file_id = s.file_id;
    chunk_size = req.chunk_size;
    total_chunks = req.total_chunks;
  })

-- A chunk index in the upload: `chunkIndex < 0 || chunkIndex >= session.TotalChunks` is none.
abbrev pub index_of : ℤ → ℕ → Option ℕ
index_of (pos i) total = if leb total i then none else some i
index_of (negsuc i) total = none

abbrev pub is_not_accepting : Error → Bool
is_not_accepting upload_not_accepting = true
is_not_accepting e = false

unfoldable pub note_chunk : Time → String → ℕ → Serve ⊤
note_chunk now session_id i = do
  r ← try (on_db (Store.record_chunk now session_id i upload_session_ttl))
  handle r (λ u. pure tt)
      (λ e. raise (if is_not_accepting e then e else message "error marking chunk as uploaded"))

unfoldable pub upload_chunk : Time → String → ℤ → Bytes → Serve ⊤
upload_chunk now session_id chunk_index content = do
  s ← on_db (Store.get_upload_session now session_id)
  i ← or_raise (index_of chunk_index s.total_chunks) invalid_chunk
  raise_if (not (s.state == uploading)) upload_not_accepting
  n ← wrapped "error saving chunk" (on_disk (Disk.save_chunk session_id i content))
  note_chunk now session_id i

unfoldable pub get_upload_progress : Time → String → Serve (ℕ × ℕ)
get_upload_progress now session_id = do
  s ← on_db (Store.get_upload_session now session_id)
  uploaded ← on_db (Store.count_uploaded_chunks session_id)
  pure (uploaded, s.total_chunks)
