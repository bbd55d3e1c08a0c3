-- ===== src/Cleanup/Tests.antt =====
-- Runs of the theorems on the cleanup.
use sendly.Common.{true, false, ◌≡◌, refl, none, some, [], ◌∷◌, pure, inl}
use sendly.Models.{File}
use sendly.Uploads.Session.{assembled, UploadSession, Tables}
use sendly.Uploads.Disk.{Disk}
use sendly.Uploads.Serve.{World}
use sendly.Uploads.Stored.{has_blob}
use sendly.Common.Keeps.{Keeps-pure}
use sendly.Cleanup.Service.{cleanup_orphaned_files, cleanup_orphaned_chunks, perform_cleanup}
use sendly.Cleanup.Blobs.{cleanup_orphaned_files-keeps}
use sendly.Cleanup.Chunks.{chunks_of, cleanup_orphaned_chunks-keeps}
use sendly.Cleanup.Live.{Live, perform_cleanup-Live}
use sendly.Cleanup.Race.{cleanup_orphaned_files-late}

abbrev upload : UploadSession
upload = record {
  session_id = "s";
  file_id = "f";
  original_name = "n";
  total_size = 1;
  total_chunks = 1;
  chunk_size = 1;
  uploader_ip = "";
  state = assembled;
  error = none;
  expires_at = 1000;
  created_at = 0;
  assembly_owner = none;
  assembly_lease_until = none;
  updated_at = 0;
}

abbrev kept_file : File
kept_file = record {
  id = "g";
  numeric_code = "1";
  original_name = "n";
  size_bytes = 1;
  uploader_ip = "";
  owner_cns_user_id = none;
  owner_cns_user_name = none;
  tunnel_id = none;
  expires_at = 50;
  created_at = 1;
  report_count = 0;
  is_deleted = false;
  deleted_at = none;
}

abbrev disk : Disk
disk = record {
  faults = [];
  tables = record {
    chunk_dirs = "s" ∷ "t" ∷ [];
    chunks = record { session_id = "s"; chunk_index = 0; content = [] } ∷ [];
    blobs = record { file_id = "f"; content = [] } ∷ record { file_id = "g"; content = [] } ∷ [];
  };
}

abbrev tables : Tables
tables = record {
  sessions = upload ∷ [];
  chunks = [];
  files = kept_file ∷ [];
  file_key_envelopes = [];
  file_access_key_envelopes = [];
  identity_keys = [];
  total_uploaded = 0;
  total_processed = 0;
  uploads_by_ip = [];
}

abbrev world : World
world = record { db = record { faults = []; tables = tables }; disk = disk; running = [] }

abbrev before : World
before = record {
  db = record { faults = []; tables = record tables { sessions = [] } };
  disk = disk;
  running = [];
}

cleanup_orphaned_files-keeps_example :
    has_blob "f" (cleanup_orphaned_files (λ w. w) (λ k w. w) world).1.disk.tables ≡ true
cleanup_orphaned_files-keeps_example =
    cleanup_orphaned_files-keeps (λ w. w) (λ k w. w) "f" world (inl refl) (λ v h. h) (λ v h. h)
      (λ k v h. h) (λ k v h. h) refl

cleanup_orphaned_chunks-keeps_example :
    chunks_of "s" (cleanup_orphaned_chunks 9 (λ k. some 0) world).1.disk.tables
    ≡ chunks_of "s" disk.tables
cleanup_orphaned_chunks-keeps_example = cleanup_orphaned_chunks-keeps 9 (λ k. some 0) "s" world refl

perform_cleanup-Live_example :
    Live "g" (perform_cleanup 9 (λ k. some 0) (pure tt) (λ w. w) (λ k w. w) world).1
perform_cleanup-Live_example =
    perform_cleanup-Live "g" 9 (λ k. some 0) (pure tt) (λ w. w) (λ k w. w) world (Keeps-pure tt)
      (λ v h. h) (λ k v h. h) (λ v h. h) (record { blob = λ e. refl; keys = (refl, tt) })

cleanup_orphaned_files-late_example :
    has_blob "f" (cleanup_orphaned_files (λ w. world) (λ k w. w) before).1.disk.tables ≡ false
cleanup_orphaned_files-late_example =
    cleanup_orphaned_files-late (λ w. world) "f" before refl refl
      (record { db = refl; disk = refl; row = refl }) refl refl
