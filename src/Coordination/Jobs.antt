-- ===== src/Coordination/Jobs.antt =====
-- internal/storage/coordination.go: RunJob on the replicas.
use sendly.Common.{
  ◌+◌, ◌≤◌, String, Bool, true, false, ◌≡◌, ◌⊎◌, refl, ap, ◌∙◌, inl, inr, ◌==◌, nat_eq, string_eq,
  leb, Option, none, some, List, [], ◌∷◌, if◌then◌else◌, find, exists, All, arith, Bool-cases,
  Result, ok, err, pure, modify, ◌>>=◌, Db, statement, query, ==→eq, ==_refl, leb→le, ◌&&◌, subst,
  sym,
}
use sendly.Common.Keyed.{
  Distinct, Distinct-update, find-keyed, find-update, find-update_other, none-exists, find-exists,
  find-some, keep_if, change_if,
}
use sendly.Models.{Time, Error}
use sendly.Coordination.Store.{JobRun, Tables, is_job, is_due, claim_run, run_job}

pub record JobCall (W : Type 0) : Type 0 where
  pub now : Time
  pub lock_free : Bool
  pub name : String
  pub interval : Time
  pub fn : W → W

abbrev pub has_run : Result Error Bool → Bool
has_run (ok b) = b
has_run (err e) = false

-- Each time is at least an interval after the one before it.
abbrev pub SpacedAfter : Time → Option Time → List Time → Type 0
SpacedAfter interval before [] = Unit
SpacedAfter interval none (t ∷ times) = SpacedAfter interval (some t) times
SpacedAfter interval (some before) (t ∷ times) =
    (before + interval ≤ t) × SpacedAfter interval (some t) times

abbrev pub Spaced : Time → List Time → Type 0
Spaced interval = SpacedAfter interval none

abbrev ran_at : Option JobRun → Option Time
ran_at none = none
ran_at (some j) = some j.last_run_at

abbrev Ready : Time → Time → Option JobRun → Type 0
Ready now interval none = Unit
Ready now interval (some j) = j.last_run_at + interval ≤ now

same_runs :
    (name : String) (rs rs' : List JobRun)
    → rs ≡ rs'
    → find (is_job name) rs ≡ find (is_job name) rs'
same_runs name rs rs' e = ap (find (is_job name)) e

Ready-SpacedAfter :
    (now interval : Time) (o : Option JobRun) (times : List Time)
    → Ready now interval o
    → SpacedAfter interval (some now) times
    → SpacedAfter interval (ran_at o) (now ∷ times)
Ready-SpacedAfter now interval none times r s = s
Ready-SpacedAfter now interval (some j) times r s = (r, s)

module _ {W : Type 0} where
  abbrev last : String → Tables W → Option JobRun
  last name t = find (is_job name) t.runs

  -- A claim that fails changes nothing; one that succeeds writes down the time, and was due.
  claim-cases :
      (now : Time) (name : String) (interval : Time) (t : Tables W)
      → Distinct JobRun.name t.runs
      → (((claim_run now name interval t).0 ≡ false)
          × (last name (claim_run now name interval t).1 ≡ last name t))
        ⊎ (((claim_run now name interval t).0 ≡ true)
            × (last name (claim_run now name interval t).1
                ≡ some (record { name = name; last_run_at = now }))
            × Ready now interval (last name t))
  claim-cases now name interval t d = by_row (last name t) refl
    where
      by_row :
          (o : Option JobRun)
          → last name t ≡ o
          → (((claim_run now name interval t).0 ≡ false)
              × (last name (claim_run now name interval t).1 ≡ last name t))
            ⊎ (((claim_run now name interval t).0 ≡ true)
                × (last name (claim_run now name interval t).1
                    ≡ some (record { name = name; last_run_at = now }))
                × Ready now interval (last name t))
      by_row none e =
          let absent = none-exists (is_job name) t.runs e in
          inr (rw (absent, e) (refl, ground (arith, string_eq.reflects name name), tt))
      by_row (some j) e =
          let there = find-exists (is_job name) t.runs j e in
          let mine = find-some (is_job name) t.runs j e in
          let q = λ (x : JobRun). leb (x.last_run_at + interval) now in
          let due = find-keyed JobRun.name name q t.runs d ∙ ap (keep_if q) e in
          let after =
            find-update (is_job name) (is_due now name interval)
              (λ j. record j { last_run_at = now }) t.runs (λ x. refl)
            ∙ ap (change_if (is_due now name interval) (λ j. record j { last_run_at = now })) e in
          elim (Bool-cases (q j)) [
            | inl ready ↦
                let hit = find-exists (is_due now name interval) t.runs j (rw ready at due) in
                inr (
                  rw (there, after, mine, ready, e)
                    (hit, ground (arith, ==→eq j.name name mine), leb→le _ _ ready))
            | inr early ↦
                let miss = none-exists (is_due now name interval) t.runs (rw early at due) in
                inl (rw (there, after, mine, early, e) (miss, refl))
          ]

  -- A claim leaves the runs of other jobs, and the names.
  claim_other :
      (now : Time) (name : String) (interval : Time) (k : String) (t : Tables W)
      → (name == k) ≡ false
      → last k (claim_run now name interval t).1 ≡ last k t
  claim_other now name interval k t ne = elim (Bool-cases (exists (is_job name) t.runs)) [
    | inl there ↦ rw there (
        find-update_other (is_job k) (is_due now name interval)
          (λ j. record j { last_run_at = now }) t.runs (λ x. refl) (λ x hit. apart x hit))
    | inr absent ↦ rw (absent, ne) refl
  ]
    where
      apart : (x : JobRun) → is_job k x ≡ true → is_due now name interval x ≡ false
      apart x hit = ground (
        arith,
        ==→eq x.name k hit,
        string_eq.reflects x.name name,
        string_eq.reflects name k,
        string_eq.reflects k k,
      )

  claim-Distinct :
      (now : Time) (name : String) (interval : Time) (t : Tables W)
      → Distinct JobRun.name t.runs
      → Distinct JobRun.name (claim_run now name interval t).1.runs
  claim-Distinct now name interval t d = elim (Bool-cases (exists (is_job name) t.runs)) [
    | inl there ↦ rw there (
        Distinct-update JobRun.name (is_due now name interval) (λ j. record j { last_run_at = now })
          t.runs (λ x. refl) d)
    | inr absent ↦ rw absent (absent, d)
  ]

  abbrev called : JobCall W → Db (Tables W) → Db (Tables W)
  called c db = (run_job c.now c.lock_free c.name c.interval c.fn db).1

  abbrev runs_now : JobCall W → Db (Tables W) → Bool
  runs_now c db = has_run (run_job c.now c.lock_free c.name c.interval c.fn db).0

  -- When the calls ran the job with a name.
  unfoldable pub run_times : String → List (JobCall W) → Db (Tables W) → List Time
  run_times name [] db = []
  run_times name (c ∷ calls) db =
      let rest = run_times name calls (called c db) in
      if c.name == name && runs_now c db then c.now ∷ rest else rest

  -- A call either does nothing to the runs, or it claims the run and does the work.
  run_job-cases :
      (c : JobCall W) (db : Db (Tables W))
      → ((runs_now c db ≡ false) × ((called c db).tables.runs ≡ db.tables.runs))
        ⊎ ((runs_now c db ≡ (claim_run c.now c.name c.interval db.tables).0)
            × ((called c db).tables.runs ≡ (claim_run c.now c.name c.interval db.tables).1.runs))
  unfolding run_job query statement pure modify ◌>>=◌
  run_job-cases c db = ground (arith)

  abbrev AsNamed : String → Time → JobCall W → Type 0
  AsNamed name interval c = (c.name == name) ≡ true → c.interval ≡ interval

  called-Distinct :
      (c : JobCall W) (db : Db (Tables W))
      → Distinct JobRun.name db.tables.runs
      → Distinct JobRun.name (called c db).tables.runs
  called-Distinct c db d = elim (run_job-cases c db) [
    | inl (n, same) ↦ subst (Distinct JobRun.name) (sym same) d
    | inr (r, same) ↦
        subst (Distinct JobRun.name) (sym same) (claim-Distinct c.now c.name c.interval db.tables d)
  ]

  own :
      (c : JobCall W) (db : Db (Tables W))
      → Distinct JobRun.name db.tables.runs
      → (((c.name == c.name && runs_now c db) ≡ false)
          × (last c.name (called c db).tables ≡ last c.name db.tables))
        ⊎ (((c.name == c.name && runs_now c db) ≡ true)
            × (ran_at (last c.name (called c db).tables) ≡ some c.now)
            × Ready c.now c.interval (last c.name db.tables))
  own c db d = rw (==_refl c.name) (elim (run_job-cases c db) [
    | inl (n, same) ↦ inl (n, same_runs c.name _ _ same)
    | inr (r, same) ↦ elim (claim-cases c.now c.name c.interval db.tables d) [
      | inl (lost, stay) ↦ inl (r ∙ lost, same_runs c.name _ _ same ∙ stay)
      | inr (won, at, ready) ↦ inr (r ∙ won, ap ran_at (same_runs c.name _ _ same ∙ at), ready)
    ]
  ])

  -- One call, for the job with a name.
  call-cases :
      (name : String) (interval : Time) (c : JobCall W) (db : Db (Tables W))
      → Distinct JobRun.name db.tables.runs
      → AsNamed name interval c
      → (((c.name == name && runs_now c db) ≡ false)
          × (last name (called c db).tables ≡ last name db.tables))
        ⊎ (((c.name == name && runs_now c db) ≡ true)
            × (ran_at (last name (called c db).tables) ≡ some c.now)
            × Ready c.now interval (last name db.tables))
  call-cases name interval c db d named = elim (Bool-cases (c.name == name)) [
    | inl mine ↦ rw (sym (==→eq c.name name mine), sym (named mine)) (own c db d)
    | inr other ↦ inl (
        rw other (
          refl,
          elim (run_job-cases c db) [
            | inl (n, same) ↦ same_runs name _ _ same
            | inr (r, same) ↦
                same_runs name _ _ same ∙ claim_other c.now c.name c.interval name db.tables other
          ],
        ))
  ]

  -- Two runs of one job are at least an interval apart, on all replicas together, whichever calls get
  -- the advisory lock, whichever statements fail, and whatever other jobs run between.
  pub run_times-spaced :
      (name : String) (interval : Time) (calls : List (JobCall W)) (db : Db (Tables W))
      → Distinct JobRun.name db.tables.runs
      → All (AsNamed name interval) calls
      → SpacedAfter interval (ran_at (last name db.tables)) (run_times name calls db)
  unfolding run_times
  run_times-spaced name interval [] db d named = tt
  run_times-spaced name interval (c ∷ calls) db d named =
      let ih =
        run_times-spaced name interval calls (called c db) (called-Distinct c db d) named.1 in
      elim (call-cases name interval c db d named.0) [
        | inl (idle, same) ↦ rw idle (
            subst (λ o. SpacedAfter interval (ran_at o) (run_times name calls (called c db))) same
              ih)
        | inr (busy, at, ready) ↦ rw busy (
            Ready-SpacedAfter c.now interval (last name db.tables) _ ready
              (subst (λ o. SpacedAfter interval o (run_times name calls (called c db))) at ih))
      ]
