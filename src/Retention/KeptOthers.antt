-- ===== src/Retention/KeptOthers.antt =====
-- internal/services/retention.go, internal/storage/retention.go: the purges of totals, reports and rejections.
use sendly.Common.{
  ℕ, ◌-◌, String, Bool, true, not, ◌&&◌, subst, ◌≡◌, refl, ap, ◌∙◌, sym, List, [], ◌∷◌, ltb, nat_eq,
  string_eq, select, exists, arith, Db,
}
use mathlib.Core.Path.{fun_ext}
use sendly.Common.Keyed.{Distinct-delete}
use sendly.Common.Keeps.{Keeps-statement}
use sendly.Models.{Time, File, driver}
use sendly.Retention.Batch.{batch-only, select-delete}
use sendly.Retention.Store.{
  Tables, IpTotal, Report, Rejection, is_purgeable, purge_upload_ips, purge_closed_reports,
  purge_tunnel_rejections, is_old_total, is_live_file, is_closed, is_settled, delete_totals,
  delete_reports, delete_rejections,
}
use sendly.Retention.Run.{Config}
use sendly.Retention.Kept.{Going-on}
use sendly.Retention.Rounds.{counted-keeps}

exists-select :
    {A : Type 0} (p q : A → Bool) (xs : List A)
    → ((x : A) → p x ≡ true → q x ≡ true)
    → exists p (select q xs) ≡ exists p xs
exists-select p q [] h = refl
exists-select p q (x ∷ xs) h = ground (arith, h x, exists-select p q xs h)

-- Files that can be downloaded stay, so the same reports are closed.
same_closed :
    (cutoff cutoff' now : Time) (fs fs0 : List File)
    → select (λ f. not (is_purgeable cutoff' f)) fs ≡ select (λ f. not (is_purgeable cutoff' f)) fs0
    → is_closed cutoff now fs ≡ is_closed cutoff now fs0
same_closed cutoff cutoff' now fs fs0 same =
    fun_ext (λ r. ap (λ b. ltb r.created_at cutoff && not b) (live r.file_id))
  where
    within :
        (id : String) (f : File)
        → is_live_file now id f ≡ true
        → not (is_purgeable cutoff' f) ≡ true
    within id f h = ground arith

    live : (id : String) → exists (is_live_file now id) fs ≡ exists (is_live_file now id) fs0
    live id =
        sym (exists-select (is_live_file now id) (λ f. not (is_purgeable cutoff' f)) fs (within id))
        ∙ ap (exists (is_live_file now id)) same
        ∙ exists-select (is_live_file now id) (λ f. not (is_purgeable cutoff' f)) fs0 (within id)

module _ (cfg : Config) (now : Time) (t0 : Tables) where
  pub totals-Going :
      (n : ℕ) (db : Db Tables)
      → (Going-on cfg now t0) db
      → (Going-on cfg now t0) (purge_upload_ips (now - cfg.upload_ip_retention) n db).1
  unfolding purge_upload_ips
  totals-Going n db h = counted-keeps (Going-on cfg now t0) _ (
      (Keeps-statement driver (delete_totals (now - cfg.upload_ip_retention) n) (λ t g. record {
        known = g.known;
        kept = record {
          rows = record {
            key_envelopes = g.kept.rows.key_envelopes;
            recipient_key_envelopes = g.kept.rows.recipient_key_envelopes;
            access_key_envelopes = g.kept.rows.access_key_envelopes;
            transfers = g.kept.rows.transfers;
            desktop_files = g.kept.rows.desktop_files;
          };
          files = g.kept.files;
          reports = g.kept.reports;
          rejections = g.kept.rejections;
          tunnels = g.kept.tunnels;
          totals =
              select-delete (is_old_total (now - cfg.upload_ip_retention)) _ t.ip_totals (
                batch-only IpTotal.ip _ (is_old_total (now - cfg.upload_ip_retention)) n t.ip_totals
                  g.keys.totals)
              ∙ g.kept.totals;
        };
        keys = record {
          files = g.keys.files;
          reports = g.keys.reports;
          rejections = g.keys.rejections;
          totals = Distinct-delete IpTotal.ip _ t.ip_totals g.keys.totals;
        };
      })).at
        db h)

  pub reports-Going :
      (n : ℕ) (db : Db Tables)
      → (Going-on cfg now t0) db
      → (Going-on cfg now t0) (purge_closed_reports (now - cfg.report_retention) now n db).1
  unfolding purge_closed_reports
  reports-Going n db h = counted-keeps (Going-on cfg now t0) _ (
      (Keeps-statement driver (delete_reports (now - cfg.report_retention) now n) (λ t g.
          let cutoff = now - cfg.report_retention in
          let same =
            same_closed cutoff (now - cfg.file_record_retention) now t.files t0.files
              g.kept.files in
          record {
            known = g.known;
            kept = record {
              rows = record {
                key_envelopes = g.kept.rows.key_envelopes;
                recipient_key_envelopes = g.kept.rows.recipient_key_envelopes;
                access_key_envelopes = g.kept.rows.access_key_envelopes;
                transfers = g.kept.rows.transfers;
                desktop_files = g.kept.rows.desktop_files;
              };
              files = g.kept.files;
              totals = g.kept.totals;
              rejections = g.kept.rejections;
              tunnels = g.kept.tunnels;
              reports =
                  subst
                    (λ test.
                      select (λ r. not (test r)) (delete_reports cutoff now n t).1.reports
                      ≡ select (λ r. not (test r)) t.reports)
                    same
                    (select-delete (is_closed cutoff now t.files) _ t.reports (
                      batch-only Report.id _ (is_closed cutoff now t.files) n t.reports
                        g.keys.reports))
                  ∙ g.kept.reports;
            };
            keys = record {
              files = g.keys.files;
              totals = g.keys.totals;
              rejections = g.keys.rejections;
              reports = Distinct-delete Report.id _ t.reports g.keys.reports;
            };
          })).at
        db h)

  pub rejections-Going :
      (n : ℕ) (db : Db Tables)
      → (Going-on cfg now t0) db
      → (Going-on cfg now t0)
          (purge_tunnel_rejections (now - cfg.tunnel_rejection_retention) now n db).1
  unfolding purge_tunnel_rejections
  rejections-Going n db h = counted-keeps (Going-on cfg now t0) _ (
      (Keeps-statement driver (delete_rejections (now - cfg.tunnel_rejection_retention) now n)
          (λ t g.
            let cutoff = now - cfg.tunnel_rejection_retention in
            record {
              known = g.known;
              kept = record {
                rows = record {
                  key_envelopes = g.kept.rows.key_envelopes;
                  recipient_key_envelopes = g.kept.rows.recipient_key_envelopes;
                  access_key_envelopes = g.kept.rows.access_key_envelopes;
                  transfers = g.kept.rows.transfers;
                  desktop_files = g.kept.rows.desktop_files;
                };
                files = g.kept.files;
                totals = g.kept.totals;
                reports = g.kept.reports;
                tunnels = g.kept.tunnels;
                rejections =
                    subst
                      (λ ts.
                        select (λ r. not (is_settled cutoff now ts r))
                          (delete_rejections cutoff now n t).1.rejections
                        ≡ select (λ r. not (is_settled cutoff now ts r)) t.rejections)
                      g.kept.tunnels
                      (select-delete (is_settled cutoff now t.tunnels) _ t.rejections (
                        batch-only Rejection.id _ (is_settled cutoff now t.tunnels) n t.rejections
                          g.keys.rejections))
                    ∙ g.kept.rejections;
              };
              keys = record {
                files = g.keys.files;
                totals = g.keys.totals;
                reports = g.keys.reports;
                rejections = Distinct-delete Rejection.id _ t.rejections g.keys.rejections;
              };
            })).at
        db h)
