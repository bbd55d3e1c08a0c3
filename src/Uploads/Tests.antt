-- ===== src/Uploads/Tests.antt =====
-- Runs of the upload theorems: one upload, its replicas, its chunks and its volume.
use sendly.Common.{
  String, true, false, ◌≡◌, ◌≢◌, refl, none, some, List, [], ◌∷◌, ok, Db, inl, arith, exists,
  ==_refuted, statement, query, transaction, ◌>>=◌, string_eq,
}
use sendly.Models.{Time}
use sendly.Uploads.Session.{uploading, assembling, UploadSession, Tables}
use sendly.Uploads.Store.{
  claim_assembly, fail_assembly, release_assembly, start_assembly, record_chunk, is_chunk,
  update_returning, start_locked, count_uploaded_chunks,
}
use sendly.Uploads.Outcomes.{session_of}
use sendly.Uploads.Requests.{Request, claim, finish, fail, cleanup as cleaning, run}
use sendly.Uploads.Exclusive.{lease-exclusive}
use sendly.Uploads.Chunks.{start_assembly_complete}
use sendly.Uploads.Disk.{Disk, assemble_chunks}
use sendly.Uploads.Assembly.{Assembled, assemble_chunks-atomic}
use sendly.Uploads.Serve.{World}
use sendly.Uploads.Calls.{Call, complete, cleanup, cancel, finalize, serve_all}
use sendly.Uploads.Stored.{AllStored, has_blob}
use sendly.Uploads.AlwaysStored.{serve_all-AllStored}
use sendly.Uploads.Live.{take_expired-live}
use sendly.Uploads.Store.{take_expired_upload_sessions}
use sendly.Common.{
  pure, raise, or_raise, raise_if, handle, try, modify, with_option, end_transaction,
}
use sendly.Models.{parse_finalize_duration}
use sendly.Uploads.Session.{assembled}
use sendly.Uploads.Store.{get_upload_session, mark_upload_finalized, update_sessions}
use sendly.Uploads.Disk.{get_file_size, file_exists, delete_chunks, delete_file}
use sendly.Uploads.Serve.{on_db, on_disk, logged, wrapped, get_file_for_admin}
use sendly.Uploads.Files.{
  create_file_with_envelope, constrained, numeric_code_exists, record_upload,
}
use sendly.Uploads.Finalize.{
  finalize_upload_with_options, create_file, generate_unique_numeric_code, unique_code,
  identity_envelope_of, written, lost_race, track_upload,
}
use sendly.Uploads.Recorded.{has_file}
use sendly.Uploads.DropStored.{Gaps}
use sendly.Uploads.Expiry.{remove_session_files}
use sendly.Uploads.Sealed.{start_assembly-seals}
use sendly.Uploads.Race.{has_row, remove_session_files-late}
use sendly.Uploads.Answers.{finalize-recorded}
use sendly.Uploads.Fence.{lost_lease-harmless}

abbrev upload_a : UploadSession
upload_a = record {
  session_id = "a";
  file_id = "f";
  original_name = "n";
  total_size = 2;
  total_chunks = 1;
  chunk_size = 2;
  uploader_ip = "ip";
  state = assembling;
  error = none;
  expires_at = 1000;
  created_at = 0;
  assembly_owner = some "one";
  assembly_lease_until = some 50;
  updated_at = 0;
}

abbrev tables_a : Tables
tables_a = record {
  sessions = upload_a ∷ [];
  chunks = [];
  files = [];
  file_key_envelopes = [];
  file_access_key_envelopes = [];
  identity_keys = [];
  total_uploaded = 0;
  total_processed = 0;
  uploads_by_ip = [];
}

abbrev db_a : Db Tables
db_a = record { faults = []; tables = tables_a }

lost_lease-harmless_example :
    (session_of "a" (fail_assembly 9 "a" "two" "x" db_a).1.tables ≡ session_of "a" tables_a)
    × (session_of "a" (release_assembly "a" "two" db_a).1.tables ≡ session_of "a" tables_a)
lost_lease-harmless_example = lost_lease-harmless 9 "a" "two" "x" "a" db_a refl

-- The upload before it is complete, and before its assembly is claimed.
abbrev filling : Db Tables
filling = record {
  faults = [];
  tables = record tables_a {
    sessions =
        record upload_a { state = uploading; assembly_owner = none; assembly_lease_until = none }
        ∷ [];
    chunks = record { session_id = "a"; chunk_index = 0 } ∷ [];
  };
}

abbrev free : Db Tables
free = record {
  faults = [];
  tables = record tables_a {
    sessions = record upload_a { assembly_owner = none; assembly_lease_until = none } ∷ [];
  };
}

abbrev rivals : List (Time × Request)
rivals = (3, claim "a" "two") ∷ (4, finish "a" "two") ∷ (5, cleaning (λ k. false) 100) ∷ []

lease-exclusive_example :
    (claim_assembly 6 "a" "two" 30 (run rivals (claim_assembly 2 "a" "one" 30 free).1)).0
    ≢ ok (some upload_a)
unfolding claim_assembly update_returning statement
lease-exclusive_example =
    lease-exclusive 2 6 "a" "one" "two" 30 30 free
      (record upload_a {
        assembly_owner = some "one";
        assembly_lease_until = some 32;
        updated_at = 2;
      })
      upload_a rivals (refl, tt) refl
      (
        (ground arith, ==_refuted "two" "one" refl),
        ((ground arith, ==_refuted "two" "one" refl), ((ground arith, tt), tt)),
      )
      (ground arith) (==_refuted "two" "one" refl)

start_assembly-complete_example : exists (is_chunk "a" 0) filling.tables.chunks ≡ true
unfolding start_assembly start_locked count_uploaded_chunks update_returning transaction query
    statement ◌>>=◌
start_assembly-complete_example =
    start_assembly_complete 9 "a" 50 filling
      (record upload_a { state = uploading; assembly_owner = none; assembly_lease_until = none })
      (record upload_a {
        state = assembling;
        assembly_owner = none;
        assembly_lease_until = none;
        expires_at = 59;
        updated_at = 9;
      })
      0 refl (inl refl) (record { distinct = (refl, tt); in_range = ((λ h. ground arith), tt) })
      refl (ground arith)

abbrev disk_a : Disk
disk_a = record {
  faults = false ∷ false ∷ true ∷ [];
  tables = record {
    chunk_dirs = "a" ∷ [];
    chunks = record { session_id = "a"; chunk_index = 0; content = 1 ∷ [] } ∷ [];
    blobs = [];
  };
}

assemble_chunks-atomic_example :
    Assembled "a" "f" 1 disk_a.tables (assemble_chunks (λ i. false) "a" "f" 1 disk_a)
assemble_chunks-atomic_example = assemble_chunks-atomic (λ i. false) "a" "f" 1 disk_a

abbrev world_a : World
world_a = record { db = filling; disk = disk_a; running = [] }

abbrev calls : List (Time × Call)
calls =
    (9, complete "one" "a")
    ∷ (10, finalize (λ w. w) (λ i. "1") "a" "24h" none)
    ∷ (11, cancel (λ f w. w) "a")
    ∷ (9000, cleanup (λ f w. w) 3 (λ k. false))
    ∷ []

abbrev quiet : Gaps (λ f w. w)
quiet f = record { stored = λ w h. h; no_row = λ w h. h }

serve_all-AllStored_example : AllStored (serve_all calls world_a)
serve_all-AllStored_example =
    serve_all-AllStored calls world_a (tt, ((λ f w h. h), (quiet, (quiet, tt))))
      (record { stored = λ id h. cc })

take_expired-live_example :
    session_of "a" (take_expired_upload_sessions 9 (λ k. false) 100 db_a).1.tables ≡ some upload_a
take_expired-live_example =
    take_expired-live 9 "a" (λ k. false) 100 db_a upload_a (refl, tt) refl refl

-- The upload once its blob is complete.
abbrev complete_a : World
complete_a = record {
  db = record {
    faults = [];
    tables = record tables_a { sessions = record upload_a { state = assembled } ∷ [] };
  };
  disk = record {
    faults = [];
    tables = record {
      chunk_dirs = [];
      chunks = [];
      blobs = record { file_id = "f"; content = 1 ∷ 2 ∷ [] } ∷ [];
    };
  };
  running = [];
}

-- Another request finalizes the upload first, with the code 7.
abbrev first_one : World → World
first_one w = (finalize_upload_with_options (λ w. w) (λ i. "7") 9 "a" "24h" none w).1

finalize-recorded_example :
    (◌≡◌ {A = String} "f" "f")
    × (has_file "f" "7"
          (finalize_upload_with_options first_one
            (λ i. "1")
            9
            "a"
            "24h"
            none
            complete_a).1.db.tables
        ≡ true)
unfolding finalize_upload_with_options create_file generate_unique_numeric_code unique_code
    identity_envelope_of written lost_race track_upload get_upload_session get_file_for_admin
    numeric_code_exists get_file_size create_file_with_envelope constrained record_upload
    mark_upload_finalized update_sessions wrapped on_db on_disk logged pure raise or_raise raise_if
    handle try modify with_option query statement transaction end_transaction ◌>>=◌
    parse_finalize_duration
finalize-recorded_example =
    finalize-recorded first_one (λ i. "1") 9 "a" "24h" none complete_a
      (record upload_a { state = assembled }) (record { file_id = "f"; numeric_code = "7" }) refl
      refl

remove_session_files-late_example :
    (has_row "f" (remove_session_files (λ f. first_one) upload_a complete_a).1 ≡ true)
    × (has_blob "f" (remove_session_files (λ f. first_one) upload_a complete_a).1.disk.tables
        ≡ false)
unfolding remove_session_files finalize_upload_with_options create_file generate_unique_numeric_code
    unique_code identity_envelope_of written lost_race track_upload get_upload_session
    get_file_for_admin numeric_code_exists get_file_size create_file_with_envelope constrained
    record_upload mark_upload_finalized update_sessions wrapped on_db on_disk logged pure raise
    or_raise raise_if handle try modify with_option query statement transaction end_transaction
    file_exists delete_chunks delete_file ◌>>=◌ parse_finalize_duration
remove_session_files-late_example =
    remove_session_files-late (λ f. first_one) upload_a complete_a.db.tables complete_a.disk.tables
      [] refl refl refl refl

-- Its assembly begins and fails, and then a chunk comes.
abbrev after_start : List (Time × Request)
after_start = (10, claim "a" "one") ∷ (11, fail "a" "one" "x") ∷ []

start_assembly-seals_example :
    ((record_chunk 12 "a" 0 9 (run after_start (start_assembly 9 "a" 50 filling).1)).0 ≢ ok tt)
    × ((record_chunk 12 "a" 0 9 (run after_start (start_assembly 9 "a" 50 filling).1)).1.tables
        ≡ (run after_start (start_assembly 9 "a" 50 filling).1).tables)
unfolding start_assembly start_locked count_uploaded_chunks update_returning raise_if or_raise pure
    transaction end_transaction query statement ◌>>=◌
start_assembly-seals_example =
    start_assembly-seals 9 12 "a" 50 0 9
      (record upload_a {
        state = assembling;
        assembly_owner = none;
        assembly_lease_until = none;
        expires_at = 59;
        updated_at = 9;
      })
      after_start filling (refl, tt) refl (tt, (tt, tt))
