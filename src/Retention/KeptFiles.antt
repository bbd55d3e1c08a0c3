-- ===== src/Retention/KeptFiles.antt =====
-- internal/services/retention.go, internal/storage/retention.go: the purge of deleted files.
use sendly.Common.{
  ℕ, ◌-◌, String, Bool, false, not, ◌&&◌, subst, ◌≡◌, refl, ap, ◌∙◌, sym, inl, inr, Option, none,
  some, List, [], ◌∷◌, ◌==◌, ==→eq, nat_eq, string_eq, select, find, delete, All, arith, Bool-cases,
  Result, ok, err, Db, is_faulty, later, end_transaction,
}
use sendly.Common.Keyed.{Distinct-delete, keyed, find-some, find-and, find-exists}
use sendly.Common.Keeps.{Keeps, Keeps-bind, Keeps-query, Keeps-statement, Keeps-pure, Keeps-if}
use sendly.Models.{Time, File, Error, driver}
use sendly.Retention.Batch.{Picked, batch-Picked, select-delete, All-with}
use sendly.Retention.Store.{
  Tables, is_purgeable, refers, is_nothing, picked_file, purgeable_ids, delete_dependents,
  purge_files, finish_purge, purge_deleted_files,
}
use sendly.Common.{All-find, All-delete}
use sendly.Retention.Batch.{not_among}
use sendly.Retention.Run.{Config}
use sendly.Common.KeepsInto.{Keeps-bind_with}
use sendly.Common.Inversion.{query_ok}
use sendly.Retention.Kept.{Going, is_purged, Going-on}

module _ (cfg : Config) (now : Time) (t0 : Tables) where
  -- What the `SELECT` answers, for later deletions of the same rows.
  abbrev Answered : List String → Type 0
  Answered = Picked File.id (is_purgeable (now - cfg.file_record_retention)) t0.files

  answered :
      (taken : String → Bool) (fs : List File) (ids : List String)
      → All (λ f. find (keyed File.id f.id) t0.files ≡ some f) fs
      → Picked File.id
          (λ f. is_purgeable (now - cfg.file_record_retention) f && not (taken f.id))
          fs
          ids
      → Answered ids
  answered taken fs [] known picked = tt
  answered taken fs (i ∷ ids) known ((y, at, passes), picked) =
      let there =
        All-find (λ (f : File). find (keyed File.id f.id) t0.files ≡ some f) (keyed File.id i) fs
          known at in
      let mine = ==→eq y.id i (find-some (keyed File.id i) fs y at) in
      (
        (y, ap (λ k. find (keyed File.id k) t0.files) (sym mine) ∙ there, ground arith),
        answered taken fs ids known picked,
      )

  refers-purged :
      (ids : List String) (k : String)
      → Answered ids
      → is_purged (now - cfg.file_record_retention) t0.files k ≡ false
      → refers ids k ≡ false
  refers-purged [] k picked fails = refl
  refers-purged (i ∷ ids) k ((y, at, passes), picked) fails = elim (Bool-cases (i == k)) [
    | inl same ↦ absurd (
        let found =
          find-and (keyed File.id i) (is_purgeable (now - cfg.file_record_retention)) t0.files y at
            passes in
        let there =
          find-exists (λ (f : File). f.id == i && is_purgeable (now - cfg.file_record_retention) f)
            t0.files y found in
        let k_is = ap (is_purged (now - cfg.file_record_retention) t0.files) (==→eq i k same) in cc)
    | inr other ↦ rw other (refers-purged ids k picked fails)
  ]

  row_kept :
      (ids rows rows0 : List String)
      → Answered ids
      → select (λ id. not (is_purged (now - cfg.file_record_retention) t0.files id)) rows
        ≡ select (λ id. not (is_purged (now - cfg.file_record_retention) t0.files id)) rows0
      → select
          (λ id. not (is_purged (now - cfg.file_record_retention) t0.files id))
          (delete (refers ids) rows)
        ≡ select (λ id. not (is_purged (now - cfg.file_record_retention) t0.files id)) rows0
  row_kept ids rows rows0 picked kept =
      select-delete (is_purged (now - cfg.file_record_retention) t0.files) (refers ids) rows
        (everywhere rows)
      ∙ kept
    where
      everywhere :
          (xs : List String)
          → All
              (λ k.
                is_purged (now - cfg.file_record_retention) t0.files k ≡ false
                → refers ids k ≡ false)
              xs
      everywhere [] = tt
      everywhere (x ∷ xs) = ((λ h. refers-purged ids x picked h), everywhere xs)

  among_picked :
      (ids : List String) (fs : List File)
      → Answered ids
      → All (λ f. find (keyed File.id f.id) t0.files ≡ some f) fs
      → All
          (λ f.
            is_purgeable (now - cfg.file_record_retention) f ≡ false → picked_file ids f ≡ false)
          fs
  among_picked ids fs picked known =
      All-with _ _ fs
        (λ f at fails. ground (
          arith,
          not_among File.id (is_purgeable (now - cfg.file_record_retention)) t0.files ids f picked
              at fails,
        ))
        known

  dependents-Going :
      (ids : List String) → Answered ids → Keeps (Going-on cfg now t0) (delete_dependents ids)
  unfolding delete_dependents
  dependents-Going ids picked =
      Keeps-bind _ _
        (Keeps-statement _ _ (λ t g. record {
          known = g.known;
          kept = record {
            files = g.kept.files;
            totals = g.kept.totals;
            reports = g.kept.reports;
            rejections = g.kept.rejections;
            tunnels = g.kept.tunnels;
            rows = record {
              key_envelopes =
                  row_kept ids t.key_envelopes t0.key_envelopes picked g.kept.rows.key_envelopes;
              recipient_key_envelopes = g.kept.rows.recipient_key_envelopes;
              access_key_envelopes = g.kept.rows.access_key_envelopes;
              transfers = g.kept.rows.transfers;
              desktop_files = g.kept.rows.desktop_files;
            };
          };
          keys = record {
            files = g.keys.files;
            totals = g.keys.totals;
            reports = g.keys.reports;
            rejections = g.keys.rejections;
          };
        }))
        (λ u.
          Keeps-bind _ _
            (Keeps-statement _ _ (λ t g. record {
              known = g.known;
              kept = record {
                files = g.kept.files;
                totals = g.kept.totals;
                reports = g.kept.reports;
                rejections = g.kept.rejections;
                tunnels = g.kept.tunnels;
                rows = record {
                  key_envelopes = g.kept.rows.key_envelopes;
                  recipient_key_envelopes =
                      row_kept ids t.recipient_key_envelopes t0.recipient_key_envelopes picked
                        g.kept.rows.recipient_key_envelopes;
                  access_key_envelopes = g.kept.rows.access_key_envelopes;
                  transfers = g.kept.rows.transfers;
                  desktop_files = g.kept.rows.desktop_files;
                };
              };
              keys = record {
                files = g.keys.files;
                totals = g.keys.totals;
                reports = g.keys.reports;
                rejections = g.keys.rejections;
              };
            }))
            (λ u.
              Keeps-bind _ _
                (Keeps-statement _ _ (λ t g. record {
                  known = g.known;
                  kept = record {
                    files = g.kept.files;
                    totals = g.kept.totals;
                    reports = g.kept.reports;
                    rejections = g.kept.rejections;
                    tunnels = g.kept.tunnels;
                    rows = record {
                      key_envelopes = g.kept.rows.key_envelopes;
                      recipient_key_envelopes = g.kept.rows.recipient_key_envelopes;
                      access_key_envelopes =
                          row_kept ids t.access_key_envelopes t0.access_key_envelopes picked
                            g.kept.rows.access_key_envelopes;
                      transfers = g.kept.rows.transfers;
                      desktop_files = g.kept.rows.desktop_files;
                    };
                  };
                  keys = record {
                    files = g.keys.files;
                    totals = g.keys.totals;
                    reports = g.keys.reports;
                    rejections = g.keys.rejections;
                  };
                }))
                (λ u.
                  Keeps-bind _ _
                    (Keeps-statement _ _ (λ t g. record {
                      known = g.known;
                      kept = record {
                        files = g.kept.files;
                        totals = g.kept.totals;
                        reports = g.kept.reports;
                        rejections = g.kept.rejections;
                        tunnels = g.kept.tunnels;
                        rows = record {
                          key_envelopes = g.kept.rows.key_envelopes;
                          recipient_key_envelopes = g.kept.rows.recipient_key_envelopes;
                          access_key_envelopes = g.kept.rows.access_key_envelopes;
                          transfers =
                              row_kept ids t.transfers t0.transfers picked g.kept.rows.transfers;
                          desktop_files = g.kept.rows.desktop_files;
                        };
                      };
                      keys = record {
                        files = g.keys.files;
                        totals = g.keys.totals;
                        reports = g.keys.reports;
                        rejections = g.keys.rejections;
                      };
                    }))
                    (λ u. Keeps-statement _ _ (λ t g. record {
                      known = g.known;
                      kept = record {
                        files = g.kept.files;
                        totals = g.kept.totals;
                        reports = g.kept.reports;
                        rejections = g.kept.rejections;
                        tunnels = g.kept.tunnels;
                        rows = record {
                          key_envelopes = g.kept.rows.key_envelopes;
                          recipient_key_envelopes = g.kept.rows.recipient_key_envelopes;
                          access_key_envelopes = g.kept.rows.access_key_envelopes;
                          transfers = g.kept.rows.transfers;
                          desktop_files =
                              row_kept ids t.desktop_files t0.desktop_files picked
                                g.kept.rows.desktop_files;
                        };
                      };
                      keys = record {
                        files = g.keys.files;
                        totals = g.keys.totals;
                        reports = g.keys.reports;
                        rejections = g.keys.rejections;
                      };
                    })))))

  delete_files-Going :
      (ids : List String) (t : Tables)
      → Answered ids
      → Going cfg now t0 t
      → Going cfg now t0 (record t { files = delete (picked_file ids) t.files })
  delete_files-Going ids t picked g = record {
    known = All-delete _ (picked_file ids) t.files g.known;
    kept = record {
      files =
          select-delete (is_purgeable (now - cfg.file_record_retention)) (picked_file ids) t.files
            (among_picked ids t.files picked g.known)
          ∙ g.kept.files;
      totals = g.kept.totals;
      reports = g.kept.reports;
      rejections = g.kept.rejections;
      tunnels = g.kept.tunnels;
      rows = record {
        key_envelopes = g.kept.rows.key_envelopes;
        recipient_key_envelopes = g.kept.rows.recipient_key_envelopes;
        access_key_envelopes = g.kept.rows.access_key_envelopes;
        transfers = g.kept.rows.transfers;
        desktop_files = g.kept.rows.desktop_files;
      };
    };
    keys = record {
      files = Distinct-delete File.id (picked_file ids) t.files g.keys.files;
      totals = g.keys.totals;
      reports = g.keys.reports;
      rejections = g.keys.rejections;
    };
  }

  purge_files-Going :
      (collate : String → ℕ) (taken : String → Bool) (n : ℕ)
      → Keeps (Going-on cfg now t0) (purge_files collate taken (now - cfg.file_record_retention) n)
  unfolding purge_files
  purge_files-Going collate taken n =
      Keeps-bind_with {Φ = Answered} _ _ (Keeps-query _ _)
        (λ db ids h read.
          let test =
            λ (f : File). is_purgeable (now - cfg.file_record_retention) f && not (taken f.id) in
          subst Answered
            (query_ok driver (purgeable_ids collate taken (now - cfg.file_record_retention) n) db
              ids read).0
            (answered taken db.tables.files _ h.on.known
              (batch-Picked File.id (λ f. collate f.id) test n db.tables.files h.on.keys.files)))
        (λ ids picked.
          Keeps-if (is_nothing ids) _ _ (λ e. Keeps-pure none)
            (λ e. Keeps-bind _ _ (dependents-Going ids picked) (λ u.
              Keeps-bind _ _ (Keeps-statement _ _ (λ t g. delete_files-Going ids t picked g))
                (λ d. Keeps-pure _))))

  finished-Going :
      (before : Tables) (r : Result Error (Option ℕ) × Db Tables)
      → Going cfg now t0 before
      → Going-on cfg now t0 r.1
      → Going-on cfg now t0 (finish_purge before r).1
  unfolding finish_purge end_transaction
  finished-Going before (ok none, db) hb h = record { on = hb }
  finished-Going before (ok (some n), db) hb h = elim (Bool-cases (is_faulty db.faults)) [
    | inl bad ↦ rw bad (record { on = hb })
    | inr good ↦ rw good (record { on = h.on })
  ]
  finished-Going before (err e, db) hb h = record { on = hb }

  pub files-Going :
      (collate : String → ℕ) (taken : String → Bool) (n : ℕ) (db : Db Tables)
      → Going-on cfg now t0 db
      → Going-on cfg now t0
          (purge_deleted_files collate taken (now - cfg.file_record_retention) n db).1
  unfolding purge_deleted_files
  files-Going collate taken n db h = elim (Bool-cases (is_faulty db.faults)) [
    | inl bad ↦ rw bad (record { on = h.on })
    | inr good ↦
        let begun : Db Tables = record db { faults = later db.faults } in
        rw good (
          finished-Going db.tables
            (purge_files collate taken (now - cfg.file_record_retention) n begun) h.on
            ((purge_files-Going collate taken n).at begun (record { on = h.on })))
  ]
