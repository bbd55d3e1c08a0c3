-- ===== src/Retention/Tests.antt =====
-- Runs of the theorems on retention.
use sendly.Common.{true, false, ◌≡◌, refl, none, [], ◌∷◌, Db, arith, count}
use sendly.Models.{File}
use sendly.Retention.Store.{Tables, is_old_total, purge_upload_ips}
use sendly.Retention.Run.{Config, purge, run_retention}
use sendly.Retention.Kept.{Kept}
use sendly.Retention.AlwaysKept.{run_retention-keeps}
use sendly.Retention.Drained.{purge_upload_ips-ends}

abbrev gone_file : File
gone_file = record {
  id = "a";
  numeric_code = "1";
  original_name = "n";
  size_bytes = 1;
  uploader_ip = "";
  owner_cns_user_id = none;
  owner_cns_user_name = none;
  tunnel_id = none;
  expires_at = 5;
  created_at = 1;
  report_count = 0;
  is_deleted = true;
  deleted_at = none;
}

abbrev live_file : File
live_file = record gone_file { id = "b"; is_deleted = false }

abbrev db : Db Tables
db = record {
  faults = [];
  tables = record {
    files = gone_file ∷ live_file ∷ [];
    key_envelopes = "a" ∷ "b" ∷ [];
    recipient_key_envelopes = [];
    access_key_envelopes = [];
    transfers = [];
    desktop_files = [];
    ip_totals = record { ip = "x"; updated_at = 3 } ∷ record { ip = "y"; updated_at = 90 } ∷ [];
    reports = record { id = 1; file_id = "b"; created_at = 2 } ∷ [];
    rejections = [];
    tunnels = [];
  };
}

abbrev config : Config
config = record {
  file_record_retention = 10;
  report_retention = 10;
  upload_ip_retention = 10;
  tunnel_rejection_retention = 0;
}

run_retention-keeps_example :
    Kept config 100 db.tables
      (run_retention (λ id. 0) (λ id. false) (λ k i. false) config 100 db).1.tables
run_retention-keeps_example =
    run_retention-keeps (λ id. 0) (λ id. false) (λ k i. false) config 100 db
      (record {
        files = (refl, (refl, tt));
        totals = (refl, (refl, tt));
        reports = (refl, tt);
        rejections = tt;
      })

purge_upload_ips-ends_example :
    ((purge 100 (λ i. false) purge_upload_ips 10 db).0 ≡ 1)
    × (count (is_old_total 90) (purge 100 (λ i. false) purge_upload_ips 10 db).1.tables.ip_totals
        ≡ 0)
purge_upload_ips-ends_example =
    purge_upload_ips-ends 100 10 db (omega arith) refl (refl, (refl, tt)) (ground arith)
