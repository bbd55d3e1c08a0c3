-- ===== src/Retention/Store.antt =====
-- internal/storage/retention.go: the purges. A table is in the model as far as its purge looks at it.
-- `collate` is the place of a text in the database's order of texts.
use sendly.Common.{
  ℕ, String, Bool, true, false, not, ◌&&◌, ◌||◌, ◌==◌, nat_eq, string_eq, ltb, leb, Option, none,
  some, List, [], ◌∷◌, if◌then◌else◌, exists, delete, count, Result, ok, err, Action, pure, ◌>>=◌,
  ◌>>◌, Db, is_faulty, later, statement, query, end_transaction,
}
use sendly.Models.{Time, File, Error, driver}
use sendly.Tunnels.Tunnel.{Tunnel, ended, expired, tunnel_status_eq}
use sendly.Retention.Batch.{is_among, batch}

-- `uploads_by_ip`
pub record IpTotal : Type 0 where
  pub ip : String
  pub updated_at : Time

pub record Report : Type 0 where
  pub id : ℕ
  pub file_id : String
  pub created_at : Time

-- `tunnel_rejections`
pub record Rejection : Type 0 where
  pub id : ℕ
  pub tunnel_id : String
  pub created_at : Time

-- A row that depends on a file is here by the file's identifier.
pub record Tables : Type 0 where
  pub files : List File
  pub key_envelopes : List String
  pub recipient_key_envelopes : List String
  pub access_key_envelopes : List String
  pub transfers : List String
  pub desktop_files : List String
  pub ip_totals : List IpTotal
  pub reports : List Report
  pub rejections : List Rejection
  pub tunnels : List Tunnel

abbrev pub Store : Type 0 → Type 0
Store A = Action Error (Db Tables) A

-- `COALESCE(deleted_at, expires_at)`
abbrev pub gone_at : File → Time
gone_at f = elim f.deleted_at [ none ↦ f.expires_at | some t ↦ t ]

abbrev pub is_purgeable : Time → File → Bool
is_purgeable cutoff f = f.is_deleted && ltb (gone_at f) cutoff

abbrev pub refers : List String → String → Bool
refers ids k = exists (λ i. i == k) ids

abbrev pub is_nothing : List String → Bool
is_nothing [] = true
is_nothing (i ∷ ids) = false

abbrev pub picked_file : List String → File → Bool
picked_file ids f = is_among File.id ids f && f.is_deleted

unfoldable pub delete_dependents : List String → Store (Unit {0})
delete_dependents ids = do
  statement driver (λ t. (tt, record t { key_envelopes = delete (refers ids) t.key_envelopes }))
  statement driver (λ t.
      (tt, record t { recipient_key_envelopes = delete (refers ids) t.recipient_key_envelopes }))
  statement driver
      (λ t. (tt, record t { access_key_envelopes = delete (refers ids) t.access_key_envelopes }))
  statement driver (λ t. (tt, record t { transfers = delete (refers ids) t.transfers }))
  statement driver (λ t. (tt, record t { desktop_files = delete (refers ids) t.desktop_files }))

-- The files that the `SELECT` locks; `taken` are those that another transaction holds, which it skips.
abbrev pub purgeable_ids : (String → ℕ) → (String → Bool) → Time → ℕ → Tables → List String
purgeable_ids collate taken cutoff n t =
    batch File.id (λ f. collate f.id) (λ f. is_purgeable cutoff f && not (taken f.id)) n t.files

-- The transaction up to its commit; `none` where it returns before.
unfoldable pub purge_files : (String → ℕ) → (String → Bool) → Time → ℕ → Store (Option ℕ)
unfolding delete_dependents
purge_files collate taken cutoff n = do
  ids ← query driver (purgeable_ids collate taken cutoff n)
  if is_nothing ids then pure none else do
    delete_dependents ids
    deleted ← statement driver (λ t.
        (count (picked_file ids) t.files, record t { files = delete (picked_file ids) t.files }))
    pure (some deleted)

abbrev pub error_of : {A : Type 0} → Result Error A → Option Error
error_of (ok a) = none
error_of (err e) = some e

-- The number that is returned beside the error.
abbrev pub Purged : Type 0
Purged = ℕ × Option Error

abbrev pub committed : ℕ → Result Error (Unit {0}) × Db Tables → Purged × Db Tables
committed n (r, db) = ((n, error_of r), db)

-- The deferred `Rollback`, or `return n, tx.Commit()`.
unfoldable pub finish_purge : Tables → Result Error (Option ℕ) × Db Tables → Purged × Db Tables
unfolding end_transaction
finish_purge before (ok none, db) = ((0, none), record db { tables = before })
finish_purge before (ok (some n), db) = committed n (end_transaction driver before (ok tt, db))
finish_purge before (err e, db) = ((0, some e), record db { tables = before })

unfoldable pub purge_deleted_files :
    (String → ℕ) → (String → Bool) → Time → ℕ → Db Tables → Purged × Db Tables
unfolding finish_purge purge_files
purge_deleted_files collate taken cutoff n db =
    let begun = record db { faults = later db.faults } in
    if is_faulty db.faults
    then ((0, some driver), begun)
    else finish_purge db.tables (purge_files collate taken cutoff n begun)

abbrev pub counted : Result Error ℕ × Db Tables → Purged × Db Tables
counted (ok n, db) = ((n, none), db)
counted (err e, db) = ((0, some e), db)

abbrev pub is_old_total : Time → IpTotal → Bool
is_old_total cutoff r = ltb r.updated_at cutoff

abbrev pub delete_totals : Time → ℕ → Tables → ℕ × Tables
delete_totals cutoff n t =
    let gone =
      is_among IpTotal.ip
        (batch IpTotal.ip (λ r. r.updated_at) (is_old_total cutoff) n t.ip_totals) in
    (count gone t.ip_totals, record t { ip_totals = delete gone t.ip_totals })

unfoldable pub purge_upload_ips : Time → ℕ → Db Tables → Purged × Db Tables
purge_upload_ips cutoff n db = counted (statement driver (delete_totals cutoff n) db)

-- A file that can still be downloaded.
abbrev pub is_live_file : Time → String → File → Bool
is_live_file now id f = f.id == id && not f.is_deleted && ltb now f.expires_at

abbrev pub is_closed : Time → Time → List File → Report → Bool
is_closed cutoff now files r =
    ltb r.created_at cutoff && not (exists (is_live_file now r.file_id) files)

abbrev pub delete_reports : Time → Time → ℕ → Tables → ℕ × Tables
delete_reports cutoff now n t =
    let gone =
      is_among Report.id (batch Report.id (λ r. r.id) (is_closed cutoff now t.files) n t.reports) in
    (count gone t.reports, record t { reports = delete gone t.reports })

unfoldable pub purge_closed_reports : Time → Time → ℕ → Db Tables → Purged × Db Tables
purge_closed_reports cutoff now n db = counted (statement driver (delete_reports cutoff now n) db)

-- The tunnel of a rejection, where it is over.
abbrev pub is_over_by : Time → String → Tunnel → Bool
is_over_by now id t =
    t.id == id && (leb t.expires_at now || t.status == ended || t.status == expired)

abbrev pub is_settled : Time → Time → List Tunnel → Rejection → Bool
is_settled cutoff now tunnels r =
    ltb r.created_at cutoff && exists (is_over_by now r.tunnel_id) tunnels

abbrev pub delete_rejections : Time → Time → ℕ → Tables → ℕ × Tables
delete_rejections cutoff now n t =
    let gone =
      is_among Rejection.id
        (batch Rejection.id (λ r. r.id) (is_settled cutoff now t.tunnels) n t.rejections) in
    (count gone t.rejections, record t { rejections = delete gone t.rejections })

unfoldable pub purge_tunnel_rejections : Time → Time → ℕ → Db Tables → Purged × Db Tables
purge_tunnel_rejections cutoff now n db =
    counted (statement driver (delete_rejections cutoff now n) db)
