-- ===== src/Uploads/Disk.antt =====
-- internal/storage/filesystem.go: the chunks and the blobs on the shared volume. A call of the
-- operating system fails and changes nothing, or succeeds, as a statement of the database does.
-- Temporary files are written, and removed on every error path, under names that nothing else reads.
use sendly.Common.{
  ℕ, zero, suc, String, Bool, true, false, not, ◌&&◌, ◌==◌, nat_eq, string_eq, Option, none, some,
  List, [], ◌∷◌, ◌++◌, if◌then◌else◌, length, find, exists, delete, ok, err, Action, pure, or_raise,
  raise_if, try, ◌>>=◌, ◌>>◌, Db, statement, query,
}
use sendly.Models.{Bytes, Error, driver, message, context_canceled}

pub record StoredChunk : Type 0 where
  pub session_id : String
  pub chunk_index : ℕ
  pub content : Bytes

pub record Blob : Type 0 where
  pub file_id : String
  pub content : Bytes

pub record Volume : Type 0 where
  pub chunk_dirs : List String
  pub chunks : List StoredChunk
  pub blobs : List Blob

abbrev pub Disk : Type 0
Disk = Db Volume

abbrev pub Os : Type 0 → Type 0
Os A = Action Error Disk A

abbrev ⊤ : Type 0
⊤ = Unit {0}

abbrev pub is_dir : String → String → Bool
is_dir session_id d = d == session_id

abbrev pub is_stored : String → ℕ → StoredChunk → Bool
is_stored session_id i c = c.session_id == session_id && c.chunk_index == i

abbrev pub is_blob : String → Blob → Bool
is_blob file_id b = b.file_id == file_id

-- `os.MkdirAll`
abbrev pub add_dir : String → Volume → Volume
add_dir session_id v = record v {
  chunk_dirs =
      if exists (is_dir session_id) v.chunk_dirs then v.chunk_dirs else session_id ∷ v.chunk_dirs;
}

-- `os.Rename` into place, over an earlier copy.
abbrev pub put_chunk : String → ℕ → Bytes → Volume → Volume
put_chunk session_id i content v = record v {
  chunks =
      record { session_id = session_id; chunk_index = i; content = content }
      ∷ delete (is_stored session_id i) v.chunks;
}

abbrev pub put_blob : String → Bytes → Volume → Volume
put_blob file_id content v = record v {
  blobs = record { file_id = file_id; content = content } ∷ delete (is_blob file_id) v.blobs;
}

-- A call that changes nothing that is modelled, but may fail.
abbrev pub call : Error → Os ⊤
call e = statement e (λ v. (tt, v))

unfoldable pub create_chunk_dir : String → Os ⊤
create_chunk_dir session_id = statement driver (λ v. (tt, add_dir session_id v))

unfoldable pub save_chunk : String → ℕ → Bytes → Os ℕ
save_chunk session_id i content = do
  statement driver (λ v. (tt, add_dir session_id v))
  call driver  -- os.CreateTemp
  call driver  -- io.Copy
  call driver  -- tmp.Close
  statement driver (λ v. (tt, put_chunk session_id i content v))
  pure (length content)

unfoldable pub delete_chunks : String → Os ⊤
delete_chunks session_id = statement driver (λ v. (
  tt,
  record v {
    chunk_dirs = delete (is_dir session_id) v.chunk_dirs;
    chunks = delete (λ (c : StoredChunk). c.session_id == session_id) v.chunks;
  },
))

-- The loop over the chunks from `i` on, with `rounds` of them left; `cancelled i` is `ctx.Err() != nil`
-- before chunk `i`.
unfoldable pub copy_chunks : (ℕ → Bool) → String → ℕ → ℕ → Bytes → Os Bytes
copy_chunks cancelled session_id i zero out = pure out
copy_chunks cancelled session_id i (suc rounds) out = do
  raise_if (cancelled i) context_canceled
  opened ← query (message "failed to open chunk") (λ v. find (is_stored session_id i) v.chunks)
  chunk ← or_raise opened (message "failed to open chunk")
  call (message "failed to copy chunk")
  copy_chunks cancelled session_id (suc i) rounds (out ++ chunk.content)

-- The entries of the session's directory: which indices are there.
abbrev pub present : String → ℕ → Volume → Bool
present session_id i v = exists (is_stored session_id i) v.chunks

-- The loop that looks for a chunk that is missing, over `rounds` indices from `i` on.
unfoldable pub all_present : String → ℕ → ℕ → Volume → Bool
all_present session_id i zero v = true
all_present session_id i (suc rounds) v =
    present session_id i v && all_present session_id (suc i) rounds v

-- `os.ReadDir`, which fails where there is no directory, and the check of its entries.
abbrev pub listing : String → ℕ → Volume → Option Bool
listing session_id total v =
    if exists (is_dir session_id) v.chunk_dirs
    then some (all_present session_id 0 total v)
    else none

unfoldable pub assemble_chunks : (ℕ → Bool) → String → String → ℕ → Os ⊤
assemble_chunks cancelled session_id file_id total = do
  entries ← query (message "failed to read chunk directory") (listing session_id total)
  complete ← or_raise entries (message "failed to read chunk directory")
  raise_if (not complete) (message "chunk is missing")
  call (message "failed to create final file")
  content ← copy_chunks cancelled session_id 0 total []
  call (message "failed to sync final file")
  call (message "failed to close final file")
  statement (message "failed to move final file into place") (λ v. (tt, put_blob file_id content v))

-- `os.Stat` answers; any error reads as a file that is not there.
unfoldable pub file_exists : String → Os Bool
file_exists file_id = do
  r ← try (query driver (λ v. exists (is_blob file_id) v.blobs))
  pure (elim r [ ok found ↦ found | err e ↦ false ])

unfoldable pub get_file_size : String → Os ℕ
get_file_size file_id = do
  found ← query driver (λ v. find (is_blob file_id) v.blobs)
  blob ← or_raise found driver
  pure (length blob.content)

-- A file that is not there is no error.
unfoldable pub delete_file : String → Os ⊤
delete_file file_id =
    statement driver (λ v. (tt, record v { blobs = delete (is_blob file_id) v.blobs }))
