-- ===== src/Uploads/Exclusive.antt =====
-- internal/storage/upload_sessions.go: ClaimAssembly against a lease that runs.
use sendly.Common.{
  ℕ, ◌+◌, ◌≤◌, String, true, ◌≡◌, ◌≢◌, refl, sym, Option, none, some, List, nat_eq, string_eq, All,
  ok, err, ◌∙◌, arith, eq_iff, Db,
}
use sendly.Common.Keeps.{OnTables, Keeps-statement}
use sendly.Common.Keyed.{Distinct-update, change_if, keep_if}
use sendly.Models.{Time, driver}
use sendly.Uploads.Session.{state_eq, UploadSession, Tables}
use sendly.Uploads.Store.{can_claim, claimed, update_returning, claim_assembly}
use sendly.Uploads.Outcomes.{
  session_of, IsKeyed, unless_faulty, update_returning_answer, update_returning_tables,
  update_sessions_self,
}
use mathlib.Core.Option
use sendly.Uploads.Lease.{held, Holding, foreign_claim}
use sendly.Uploads.Requests.{Request, run, IsForeign}
use sendly.Uploads.Reserved.{run-Hold}

module _ (now : Time) (session_id owner : String) (lease : ℕ) (db : Db Tables) where
  -- The answer of `ClaimAssembly`.
  claim_answer :
      IsKeyed db.tables
      → (claim_assembly now session_id owner lease db).0
        ≡ unless_faulty db (err driver) (
            ok (
              Option.map
                (claimed now owner lease)
                (keep_if (can_claim now owner) (session_of session_id db.tables))))
  unfolding claim_assembly
  claim_answer keyed =
      update_returning_answer session_id (can_claim now owner) (claimed now owner lease) (λ s. refl)
        db keyed

  claim_self :
      session_of session_id (claim_assembly now session_id owner lease db).1.tables
      ≡ unless_faulty db (session_of session_id db.tables) (
          change_if
            (can_claim now owner)
            (claimed now owner lease)
            (session_of session_id db.tables))
  unfolding claim_assembly
  claim_self =
      rw
        (update_returning_tables session_id (can_claim now owner) (claimed now owner lease)
          (λ s. refl) db)
        (update_sessions_self session_id (can_claim now owner) (claimed now owner lease) (λ s. refl)
          db)

  claim-IsKeyed :
      IsKeyed db.tables → IsKeyed (claim_assembly now session_id owner lease db).1.tables
  unfolding claim_assembly update_returning
  claim-IsKeyed keyed =
      ((Keeps-statement {Q = IsKeyed} _ _ (λ t h.
          Distinct-update (λ (s : UploadSession). s.session_id) _ _ t.sessions (λ s. refl) h)).at
        db (record { on = keyed })).on

  won :
      (s : UploadSession) (o : Option UploadSession)
      → unless_faulty db
          (err driver)
          (ok (Option.map (claimed now owner lease) (keep_if (can_claim now owner) o)))
        ≡ ok (some s)
      → held owner
          (now + lease)
          (unless_faulty db o (change_if (can_claim now owner) (claimed now owner lease) o))
        ≡ true
  won s none e = ground arith
  won s (some x) e = ground (arith, eq_iff owner owner)

  claimed-Hold :
      (s : UploadSession)
      → IsKeyed db.tables
      → (claim_assembly now session_id owner lease db).0 ≡ ok (some s)
      → OnTables
          (Holding session_id owner (now + lease))
          (claim_assembly now session_id owner lease db).1
  claimed-Hold s keyed got = record {
    on = record {
      keyed = claim-IsKeyed keyed;
      reserved =
          rw claim_self (won s (session_of session_id db.tables) (sym (claim_answer keyed) ∙ got));
    };
  }

-- A claim of a session that another replica holds.
refused :
    (now until : Time) (session_id owner other : String) (lease : ℕ) (db : Db Tables)
    (s : UploadSession)
    → Holding session_id owner until db.tables
    → now ≤ until
    → other ≢ owner
    → (claim_assembly now session_id other lease db).0 ≢ ok (some s)
refused now until session_id owner other lease db s h early ne e =
    lost (session_of session_id db.tables) h.reserved
      (sym (claim_answer now session_id other lease db h.keyed) ∙ e)
  where
    lost :
        (o : Option UploadSession)
        → held owner until o ≡ true
        → unless_faulty db
            (err driver)
            (ok (Option.map (claimed now other lease) (keep_if (can_claim now other) o)))
          ≡ ok (some s)
        → ⊥
    lost none hold got = ground arith
    lost (some x) hold got =
        ground (arith, foreign_claim session_id owner until now other early ne x hold)

-- Once a replica has claimed the assembly of a session, then whatever requests other replicas make
-- no later than the end of the lease, no other replica's claim up to then gets the session.
pub lease-exclusive :
    (now now' : Time) (session_id owner other : String) (lease lease' : ℕ) (db : Db Tables)
    (s s' : UploadSession) (rs : List (Time × Request))
    → IsKeyed db.tables
    → (claim_assembly now session_id owner lease db).0 ≡ ok (some s)
    → All (λ (x : Time × Request). (x.0 ≤ now + lease) × IsForeign session_id owner x.1) rs
    → now' ≤ now + lease
    → other ≢ owner
    → (claim_assembly now' session_id other lease'
        (run rs (claim_assembly now session_id owner lease db).1)).0
      ≢ ok (some s')
lease-exclusive now now' session_id owner other lease lease' db s s' rs keyed got all early ne =
    let after = (claim_assembly now session_id owner lease db).1 in
    refused now' (now + lease) session_id owner other lease' (run rs after) s'
      (run-Hold session_id owner (now + lease) rs after all
        (claimed-Hold now session_id owner lease db s keyed got)).on
      early ne
