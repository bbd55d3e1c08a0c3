-- ===== src/Retention/Kept.antt =====
-- internal/services/retention.go, internal/storage/retention.go: the rows that no purge may take.
use sendly.Common.{
  ◌-◌, String, Bool, not, ◌&&◌, ◌≡◌, some, List, ◌==◌, nat_eq, string_eq, select, find, exists, All,
  Db,
}
use sendly.Common.Keyed.{Distinct, keyed}
use sendly.Common.Keeps.{OnTables}
use sendly.Models.{Time, File}
use sendly.Retention.Store.{
  Tables, IpTotal, Report, Rejection, is_purgeable, is_old_total, is_closed, is_settled,
}
use sendly.Retention.Run.{Config}

-- A file that may be purged.
abbrev pub is_purged : Time → List File → String → Bool
is_purged cutoff fs id = exists (λ (f : File). f.id == id && is_purgeable cutoff f) fs

-- The rows that depend on files that may not be purged.
pub record KeptRows (cutoff : Time) (t0 t : Tables) : Type 0 where
  pub key_envelopes :
      select (λ id. not (is_purged cutoff t0.files id)) t.key_envelopes
      ≡ select (λ id. not (is_purged cutoff t0.files id)) t0.key_envelopes
  pub recipient_key_envelopes :
      select (λ id. not (is_purged cutoff t0.files id)) t.recipient_key_envelopes
      ≡ select (λ id. not (is_purged cutoff t0.files id)) t0.recipient_key_envelopes
  pub access_key_envelopes :
      select (λ id. not (is_purged cutoff t0.files id)) t.access_key_envelopes
      ≡ select (λ id. not (is_purged cutoff t0.files id)) t0.access_key_envelopes
  pub transfers :
      select (λ id. not (is_purged cutoff t0.files id)) t.transfers
      ≡ select (λ id. not (is_purged cutoff t0.files id)) t0.transfers
  pub desktop_files :
      select (λ id. not (is_purged cutoff t0.files id)) t.desktop_files
      ≡ select (λ id. not (is_purged cutoff t0.files id)) t0.desktop_files

-- What is to be kept of the tables `t0` by a run at `now`.
pub record Kept (cfg : Config) (now : Time) (t0 t : Tables) : Type 0 where
  pub files :
      select (λ f. not (is_purgeable (now - cfg.file_record_retention) f)) t.files
      ≡ select (λ f. not (is_purgeable (now - cfg.file_record_retention) f)) t0.files
  pub totals :
      select (λ r. not (is_old_total (now - cfg.upload_ip_retention) r)) t.ip_totals
      ≡ select (λ r. not (is_old_total (now - cfg.upload_ip_retention) r)) t0.ip_totals
  pub reports :
      select (λ r. not (is_closed (now - cfg.report_retention) now t0.files r)) t.reports
      ≡ select (λ r. not (is_closed (now - cfg.report_retention) now t0.files r)) t0.reports
  pub rejections :
      select
        (λ r. not (is_settled (now - cfg.tunnel_rejection_retention) now t0.tunnels r))
        t.rejections
      ≡ select
          (λ r. not (is_settled (now - cfg.tunnel_rejection_retention) now t0.tunnels r))
          t0.rejections
  pub tunnels : t.tunnels ≡ t0.tunnels
  pub rows : KeptRows (now - cfg.file_record_retention) t0 t

-- The primary keys.
pub record Keys (t : Tables) : Type 0 where
  pub files : Distinct File.id t.files
  pub totals : Distinct IpTotal.ip t.ip_totals
  pub reports : Distinct Report.id t.reports
  pub rejections : Distinct Rejection.id t.rejections

pub record Going (cfg : Config) (now : Time) (t0 t : Tables) : Type 0 where
  pub kept : Kept cfg now t0 t
  pub keys : Keys t
  pub known : All (λ f. find (keyed File.id f.id) t0.files ≡ some f) t.files

module _ (cfg : Config) (now : Time) (t0 : Tables) where
  abbrev pub Going-on : Db Tables → Type 0
  Going-on = OnTables (Going cfg now t0)
