-- ===== src/Retention/Rounds.antt =====
-- internal/services/retention.go, internal/storage/retention.go: invariants of the loop.
use sendly.Common.{
  ℕ, zero, suc, ◌+◌, ◌-◌, Bool, true, false, ◌||◌, inl, inr, ltb, ◌==◌, nat_eq, string_eq,
  if◌then◌else◌, Bool-cases, Result, ok, err, Db,
}
use sendly.Models.{Time, Error}
use sendly.Retention.Store.{Tables, Purged, counted}
use sendly.Retention.Run.{Batch, purge_rounds, purge, is_error}

module _ {κ} (P : Db Tables → Type κ) where
  either : (b : Bool) (x y : ℕ × Db Tables) → P x.1 → P y.1 → P (if b then x else y).1
  either true x y hx hy = hx
  either false x y hx hy = hy

  -- A purge keeps what each of its batches keeps.
  purge_rounds-keeps :
      (cancelled : ℕ → Bool) (run : Db Tables → Purged × Db Tables) (rounds total : ℕ)
      (db : Db Tables)
      → ((d : Db Tables) → P d → P (run d).1)
      → P db
      → P (purge_rounds cancelled run rounds total db).1
  unfolding purge_rounds
  purge_rounds-keeps cancelled run zero total db k h = h
  purge_rounds-keeps cancelled run (suc rounds) total db k h =
      let ih =
        purge_rounds-keeps cancelled run rounds (total + (run db).0.0) (run db).1 k (k db h) in
      elim (Bool-cases (cancelled (suc rounds))) [
        | inl stop ↦ rw stop h
        | inr go ↦ rw go (either (is_error (run db).0.1 || ltb (run db).0.0 500) _ _ (k db h) ih)
      ]

  pub purge-keeps :
      (now : Time) (cancelled : ℕ → Bool) (run : Batch) (period : Time) (db : Db Tables)
      → ((d : Db Tables) → P d → P (run (now - period) 500 d).1)
      → P db
      → P (purge now cancelled run period db).1
  unfolding purge
  purge-keeps now cancelled run period db k h = elim (Bool-cases (period == 0)) [
    | inl off ↦ rw off h
    | inr on ↦ rw on (purge_rounds-keeps cancelled (run (now - period) 500) 100 0 db k h)
  ]

  pub counted-keeps : (r : Result Error ℕ × Db Tables) → P r.1 → P (counted r).1
  counted-keeps (ok n, db) h = h
  counted-keeps (err e, db) h = h
