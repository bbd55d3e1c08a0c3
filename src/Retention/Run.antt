-- ===== src/Retention/Run.antt =====
-- internal/services/retention.go: the purge in batches.
use sendly.Common.{
  ℕ, zero, suc, ◌+◌, ◌-◌, String, Bool, true, false, ◌||◌, Option, none, some, ltb, ◌==◌, nat_eq,
  if◌then◌else◌, Db,
}
use sendly.Models.{Time, Error}
use sendly.Retention.Store.{
  Tables, Purged, purge_deleted_files, purge_upload_ips, purge_closed_reports,
  purge_tunnel_rejections,
}

abbrev pub retention_batch_size : ℕ
retention_batch_size = 500

abbrev pub retention_max_batches : ℕ
retention_max_batches = 100

abbrev pub is_error : Option Error → Bool
is_error none = false
is_error (some e) = true

-- A purge of at most a batch, before a cutoff.
abbrev pub Batch : Type 0
Batch = Time → ℕ → Db Tables → Purged × Db Tables

-- The loop, with `rounds` batches left; `cancelled i` is `ctx.Err() != nil` where `i` are left. The log is
-- left out.
unfoldable pub purge_rounds :
    (ℕ → Bool) → (Db Tables → Purged × Db Tables) → ℕ → ℕ → Db Tables → ℕ × Db Tables
purge_rounds cancelled run zero total db = (total, db)
purge_rounds cancelled run (suc rounds) total db =
    let ((n, error), db') = run db in
    let rest = purge_rounds cancelled run rounds (total + n) db' in
    if cancelled (suc rounds)
    then (total, db)
    else if is_error error || ltb n retention_batch_size
    then (total + n, db')
    else rest

unfoldable pub purge : Time → (ℕ → Bool) → Batch → Time → Db Tables → ℕ × Db Tables
unfolding purge_rounds
purge now cancelled run period db =
    if period == 0
    then (0, db)
    else purge_rounds cancelled (run (now - period) retention_batch_size) retention_max_batches 0 db

-- The periods of the configuration.
pub record Config : Type 0 where
  pub file_record_retention : Time
  pub report_retention : Time
  pub upload_ip_retention : Time
  pub tunnel_rejection_retention : Time

pub record RetentionResult : Type 0 where
  pub file_records : ℕ
  pub upload_ips : ℕ
  pub reports : ℕ
  pub tunnel_rejections : ℕ

-- `cancelled k` is the context during the purge number `k`.
unfoldable pub run_retention :
    (String → ℕ)
    → (String → Bool)
    → (ℕ → ℕ → Bool)
    → Config
    → Time
    → Db Tables
    → RetentionResult × Db Tables
unfolding purge
run_retention collate taken cancelled cfg now db =
    let (files, db1) =
      purge now (cancelled 0) (purge_deleted_files collate taken) cfg.file_record_retention db in
    let (reports, db2) =
      purge now (cancelled 1) (λ cutoff. purge_closed_reports cutoff now) cfg.report_retention
        db1 in
    let (ips, db3) = purge now (cancelled 2) purge_upload_ips cfg.upload_ip_retention db2 in
    let (rejections, db4) =
      purge now (cancelled 3) (λ cutoff. purge_tunnel_rejections cutoff now)
        cfg.tunnel_rejection_retention db3 in
    (
      record {
        file_records = files;
        upload_ips = ips;
        reports = reports;
        tunnel_rejections = rejections;
      },
      db4,
    )
