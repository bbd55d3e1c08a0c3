-- ===== src/Retention/AlwaysKept.antt =====
-- internal/services/retention.go, internal/storage/retention.go: a whole run.
use sendly.Common.{ℕ, String, Bool, refl, nat_eq, string_eq, Db}
use sendly.Models.{Time, File}
use sendly.Retention.Store.{
  Tables, purge_deleted_files, purge_upload_ips, purge_closed_reports, purge_tunnel_rejections,
}
use sendly.Retention.Run.{Config, run_retention}
use sendly.Retention.Kept.{Kept, Keys, Going-on}
use sendly.Retention.Rounds.{purge-keeps}
use sendly.Retention.KeptOthers.{totals-Going, reports-Going, rejections-Going}
use sendly.Retention.KeptFiles.{files-Going}
use sendly.Retention.Batch.{each_found}

module _ (cfg : Config) (now : Time) (t0 : Tables) where
  going :
      (collate : String → ℕ) (taken : String → Bool) (cancelled : ℕ → ℕ → Bool) (db : Db Tables)
      → Going-on cfg now t0 db
      → Going-on cfg now t0 (run_retention collate taken cancelled cfg now db).1
  unfolding run_retention
  going collate taken cancelled db h =
      purge-keeps (Going-on cfg now t0) now (cancelled 3)
        (λ cutoff. purge_tunnel_rejections cutoff now) cfg.tunnel_rejection_retention _
        (rejections-Going cfg now t0 500)
        (purge-keeps (Going-on cfg now t0) now (cancelled 2) purge_upload_ips
          cfg.upload_ip_retention _ (totals-Going cfg now t0 500)
          (purge-keeps (Going-on cfg now t0) now (cancelled 1)
            (λ cutoff. purge_closed_reports cutoff now) cfg.report_retention _
            (reports-Going cfg now t0 500)
            (purge-keeps (Going-on cfg now t0) now (cancelled 0) (purge_deleted_files collate taken)
              cfg.file_record_retention db (files-Going cfg now t0 collate taken 500) h)))

-- Retention takes only rows that are past their period: whichever statements and commits fail and
-- wherever it is cancelled, the files that are not deleted or not long enough, the rows that depend on
-- them, recent totals, reports that are recent or on a file that can be downloaded, and rejections that
-- are recent or of an open session, are all there afterwards, in their order.
pub run_retention-keeps :
    (collate : String → ℕ) (taken : String → Bool) (cancelled : ℕ → ℕ → Bool) (cfg : Config)
    (now : Time) (db : Db Tables)
    → Keys db.tables
    → Kept cfg now db.tables (run_retention collate taken cancelled cfg now db).1.tables
run_retention-keeps collate taken cancelled cfg now db keys =
    (going cfg now db.tables collate taken cancelled db (record {
      on = record {
        kept = record {
          files = refl;
          totals = refl;
          reports = refl;
          rejections = refl;
          tunnels = refl;
          rows = record {
            key_envelopes = refl;
            recipient_key_envelopes = refl;
            access_key_envelopes = refl;
            transfers = refl;
            desktop_files = refl;
          };
        };
        keys = keys;
        known = each_found File.id db.tables.files keys.files;
      };
    })).on.kept
