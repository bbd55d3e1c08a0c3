-- ===== src/Retention/Drained.antt =====
-- internal/services/retention.go: a purge that is not interrupted, to its end.
use sendly.Common.{
  ℕ, zero, suc, ◌+◌, ◌-◌, ◌*◌, ◌<◌, false, ◌≡◌, ◌≢◌, refl, ◌∙◌, inl, inr, none, [], ◌==◌, nat_eq,
  ltb, count, arith, Bool-cases, string_eq, Db, statement, is_faulty, ok,
}
use Prim.Native.Nat.{min}
use sendly.Common.Keyed.{Distinct, Distinct-delete}
use sendly.Models.{Time, driver}
use sendly.Retention.Batch.{batch-only, count-delete}
use sendly.Retention.Counts.{count-batch}
use sendly.Retention.Store.{
  Tables, IpTotal, Purged, counted, is_old_total, delete_totals, purge_upload_ips,
}
use sendly.Retention.Run.{purge_rounds, purge}

-- Each batch takes what is left, up to its size.
record Takes (left : Tables → ℕ) (Keys : Tables → Type 0) (run : Db Tables → Purged × Db Tables)
    : Type 0 where
  keys : (db : Db Tables) → Keys db.tables → Keys (run db).1.tables
  unbroken : (db : Db Tables) → db.faults ≡ [] → ((run db).0.1 ≡ none) × ((run db).1.faults ≡ [])
  taken :
      (db : Db Tables) → Keys db.tables → db.faults ≡ [] → (run db).0.0 ≡ min 500 (left db.tables)
  rest :
      (db : Db Tables)
      → Keys db.tables
      → db.faults ≡ []
      → left (run db).1.tables + (run db).0.0 ≡ left db.tables

module _ {left : Tables → ℕ} {Keys : Tables → Type 0} {run : Db Tables → Purged × Db Tables}
    (t : Takes left Keys run) where
  drained :
      (rounds total : ℕ) (db : Db Tables)
      → Keys db.tables
      → db.faults ≡ []
      → left db.tables < rounds * 500
      → ((purge_rounds (λ i. false) run rounds total db).0 ≡ total + left db.tables)
        × (left (purge_rounds (λ i. false) run rounds total db).1.tables ≡ 0)
  unfolding purge_rounds
  drained zero total db k clean few = absurd (omega (arith, few))
  drained (suc rounds) total db k clean few = elim (Bool-cases (ltb (run db).0.0 500)) [
    | inl last ↦ ground (arith, t.taken db k clean, t.rest db k clean, t.unbroken db clean, last)
    | inr full ↦ ground (
      arith,
      t.taken db k clean,
      t.rest db k clean,
      t.unbroken db clean,
      full,
      drained rounds (total + (run db).0.0) (run db).1 (t.keys db k) (t.unbroken db clean).1
          (ground (arith, t.taken db k clean, t.rest db k clean, full)),
    )
  ]

statement_clean :
    {A : Type 0} (run : Tables → A × Tables) (db : Db Tables)
    → db.faults ≡ []
    → statement driver run db
      ≡ (ok (run db.tables).0, record { faults = []; tables = (run db.tables).1 })
unfolding statement
statement_clean run db clean = ground (arith, clean)

module _ {left : Tables → ℕ} {Keys : Tables → Type 0} (step : Tables → ℕ × Tables) where
  -- A batch in one statement.
  Takes-statement :
      ((t : Tables) → Keys t → Keys (step t).1)
      → ((t : Tables) → Keys t → (step t).0 ≡ min 500 (left t))
      → ((t : Tables) → Keys t → left (step t).1 + (step t).0 ≡ left t)
      → Takes left Keys (λ db. counted (statement driver step db))
  unfolding statement
  Takes-statement keys taken rest = record {
    keys = λ db k. kept db k;
    unbroken = λ db clean. rw (statement_clean step db clean) (refl, refl);
    taken = λ db k clean. rw (statement_clean step db clean) (taken db.tables k);
    rest = λ db k clean. rw (statement_clean step db clean) (rest db.tables k);
  }
    where
      kept : (db : Db Tables) → Keys db.tables → Keys (counted (statement driver step db)).1.tables
      kept db k = elim (Bool-cases (is_faulty db.faults)) [
        | inl bad ↦ rw bad k
        | inr good ↦ rw good (keys db.tables k)
      ]

abbrev KeyedTotals : Tables → Type 0
KeyedTotals t = Distinct IpTotal.ip t.ip_totals

totals-Takes :
    (cutoff : Time)
    → Takes
        (λ t. count (is_old_total cutoff) t.ip_totals)
        KeyedTotals
        (λ db. counted (statement driver (delete_totals cutoff 500) db))
totals-Takes cutoff =
    Takes-statement {left = λ t. count (is_old_total cutoff) t.ip_totals} {Keys = KeyedTotals}
      (delete_totals cutoff 500) (λ t k. Distinct-delete IpTotal.ip _ t.ip_totals k)
      (λ t k. count-batch IpTotal.ip (λ r. r.updated_at) (is_old_total cutoff) 500 t.ip_totals k)
      (λ t k.
        count-delete (is_old_total cutoff) _ t.ip_totals
          (batch-only IpTotal.ip (λ r. r.updated_at) (is_old_total cutoff) 500 t.ip_totals k))

no_more : (n : ℕ) → 0 + n ≡ n
no_more n = omega arith

-- A purge of the totals of addresses that is neither failed nor cancelled comes to its end within its
-- hundred batches where fewer than 50,000 are old: none of them is left, and their number is returned.
pub purge_upload_ips-ends :
    (now period : Time) (db : Db Tables)
    → period ≢ 0
    → db.faults ≡ []
    → Distinct IpTotal.ip db.tables.ip_totals
    → count (is_old_total (now - period)) db.tables.ip_totals < 50000
    → ((purge now (λ i. false) purge_upload_ips period db).0
        ≡ count (is_old_total (now - period)) db.tables.ip_totals)
      × (count
            (is_old_total (now - period))
            (purge now (λ i. false) purge_upload_ips period db).1.tables.ip_totals
          ≡ 0)
unfolding purge purge_upload_ips
purge_upload_ips-ends now period db on clean keys few =
    let off : (period == 0) ≡ false = ground (arith, nat_eq.reflects period 0) in
    let d = drained (totals-Takes (now - period)) 100 0 db keys clean few in
    rw off (d.0 ∙ no_more (count (is_old_total (now - period)) db.tables.ip_totals), d.1)
