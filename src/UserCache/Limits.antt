-- ===== src/UserCache/Limits.antt =====
-- internal/services/user_cache.go: the limit on deletions.
use sendly.Common.{
  ℕ, ◌+◌, ◌≤◌, ◌<◌, String, Bool, false, not, ◌||◌, ◌==◌, int_eq, exists, ◌≡◌, refl, ap, sym, subst,
  inl, inr, none, some, List, [], ◌∷◌, length, arith, if◌then◌else◌, Bool-cases, Result, ok, err,
  pure, try, handle, ◌>>=◌, Db, ℤ, pos,
}
use sendly.Common.Keeps.{Keeps-bind, Keeps-pure, Keeps-if, Keeps-try, Keeps-handle}
use sendly.Common.Inversion.{bind_ok, bind_state}
use sendly.Models.{Time, Error}
use sendly.Users.Store.{Tables, Store, record_cns_profile, mark_user_deleted}
use sendly.Users.Alive.{Alive, Revives, record_cns_profile-alive, mark_user_deleted-alive}
use sendly.UserCache.Service.{
  Cns, CnsPublicProfile, Pass, DirectoryResult, is_gone, look_up, look_up_all, stopped, has_failed,
  is_too_many, delete_missing, verify_batches, verify_with_directory, directory_max_batches,
  first_cursor, empty_pass, result_of, public_profile_to_cns, confirm_one, delete_one,
}
use sendly.UserCache.Verified.{batches-Alive}

abbrev pub is_listed : List ℤ → ℤ → Bool
is_listed ids id = exists (λ k. k == id) ids

-- All that a pass deletes is among at most `n` users, and among none where it misses more than that.
abbrev pub Limited : ℕ → DirectoryResult → Db Tables → Db Tables → Type 0
Limited n r db after =
    (ids : List ℤ) × (length ids ≤ n)
    × (n < r.missing → ids ≡ [])
    × (r.deleted ≤ length ids)
    × ((id : ℤ) → is_listed ids id ≡ false → Alive id db.tables → Alive id after.tables)

module _ (lower : String → String) (now : Time) (cns : Cns) where
  -- One lookup counts at most one deletion, and does not touch the number of the missing.
  abbrev Counts : DirectoryResult → Store DirectoryResult → Db Tables → Type 0
  Counts start m db =
      (r : DirectoryResult)
      → (m db).0 ≡ ok r
      → (r.missing ≡ start.missing) × (r.deleted ≤ start.deleted + 1)

  confirm_one-Counts :
      (k : ℤ) (start : DirectoryResult) (p : CnsPublicProfile) (db : Db Tables)
      → Counts start (confirm_one lower now cns k start p) db
  unfolding confirm_one handle try pure ◌>>=◌
  confirm_one-Counts k start p db r done =
      after ((record_cns_profile lower now (public_profile_to_cns p (cns.looked_up_at k)) none) db)
        done
    where
      after :
          (x : Result Error (Unit {0}) × Db Tables)
          → (handle {E = Error} x.0
              (λ u. pure (record start { confirmed = start.confirmed + 1 }))
              (λ e. pure (record start { error = some e }))
              x.1).0
            ≡ ok r
          → (r.missing ≡ start.missing) × (r.deleted ≤ start.deleted + 1)
      after (ok u, db') e = ground arith
      after (err x, db') e = ground arith

  delete_one-Counts :
      (k : ℤ) (start : DirectoryResult) (e : Error) (db : Db Tables)
      → Counts start (delete_one lower now cns k start e) db
  unfolding delete_one handle try pure ◌>>=◌
  delete_one-Counts k start e db r done = elim (Bool-cases (not (is_gone e))) [
    | inl other ↦ let done' = rw other at done in ground arith
    | inr gone ↦ after (mark_user_deleted now k db) (rw gone at done)
  ]
    where
      after :
          (x : Result Error Bool × Db Tables)
          → (handle {E = Error} x.0
              (λ newly.
                pure (if newly then record start { deleted = start.deleted + 1 } else start))
              (λ e. pure (record start { error = some e }))
              x.1).0
            ≡ ok r
          → (r.missing ≡ start.missing) × (r.deleted ≤ start.deleted + 1)
      after (ok b, db') e = ground arith
      after (err x, db') e = ground arith

  look_up-Counts :
      (k : ℤ) (start : DirectoryResult) (db : Db Tables)
      → Counts start (look_up lower now cns k start) db
  unfolding look_up handle
  look_up-Counts k start db =
      elim (cns.get_public_user k)
        as (λ x.
          Counts start
            (handle x (confirm_one lower now cns k start) (delete_one lower now cns k start)) db) [
              | ok p ↦ confirm_one-Counts k start p db
              | err e ↦ delete_one-Counts k start e db
            ]

  -- The lookups count at most one deletion each.
  look_up_all_lem :
      (ids : List ℤ) (start : DirectoryResult) (db : Db Tables) (r : DirectoryResult)
      → (look_up_all lower now cns ids start db).0 ≡ ok r
      → (r.missing ≡ start.missing) × (r.deleted ≤ start.deleted + length ids)
  unfolding look_up_all pure
  look_up_all_lem [] start db r done = ground arith
  look_up_all_lem (k ∷ ks) start db r done =
      let (next, one, rest) = bind_ok (look_up lower now cns k start) _ db done in
      let counted = look_up-Counts k start db next one in
      elim (Bool-cases (stopped next)) [
        | inl stop ↦ let same = rw stop at rest in ground (arith, counted)
        | inr go ↦ ground (
          arith,
          counted,
          look_up_all_lem ks next (look_up lower now cns k start db).1 r (rw go at rest),
        )
      ]

module _ (id : ℤ) (lower : String → String) (now : Time) (cns : Cns) where
  -- A lookup of another user does not mark this one as deleted.
  look_up-Spares :
      (k : ℤ) (result : DirectoryResult)
      → (k == id) ≡ false
      → Revives id (look_up lower now cns k result)
  unfolding look_up confirm_one delete_one
  look_up-Spares k result other =
      Keeps-handle (cns.get_public_user k) _ _
        (λ p.
          Keeps-bind _ _ (Keeps-try _ (record_cns_profile-alive id lower now _ none))
            (λ r. Keeps-handle r _ _ (λ u. Keeps-pure _) (λ e. Keeps-pure _)))
        (λ e.
          Keeps-if (not (is_gone e)) _ _ (λ c. Keeps-pure _)
            (λ gone.
              Keeps-bind _ _ (Keeps-try _ (mark_user_deleted-alive id now k other))
                (λ r. Keeps-handle r _ _ (λ u. Keeps-pure _) (λ e. Keeps-pure _))))

  look_up_all-Spares :
      (ids : List ℤ) (result : DirectoryResult)
      → is_listed ids id ≡ false
      → Revives id (look_up_all lower now cns ids result)
  unfolding look_up_all
  look_up_all-Spares [] result unlisted = Keeps-pure _
  look_up_all-Spares (k ∷ ks) result unlisted =
      Keeps-bind _ _ (look_up-Spares k result (ground arith)) (λ result'.
        Keeps-if (stopped result') _ _ (λ e. Keeps-pure _)
          (λ e. look_up_all-Spares ks result' (ground arith)))

-- Whom a pass may delete: nobody where it failed or misses too many.
abbrev candidates : ℕ → Pass → List ℤ
candidates n pass =
    if has_failed pass || is_too_many (pos n) (length pass.missing) then [] else pass.missing

candidates-few : (n : ℕ) (pass : Pass) → length (candidates n pass) ≤ n
candidates-few n pass = elim (Bool-cases (has_failed pass)) [
  | inl bad ↦ rw bad (omega arith)
  | inr good ↦ elim (Bool-cases (is_too_many (pos n) (length pass.missing))) [
    | inl many ↦ rw (good, many) (omega arith)
    | inr few ↦ rw (good, few) (ground arith)
  ]
]

missing-Spares :
    (id : ℤ) (lower : String → String) (now : Time) (cns : Cns) (n : ℕ) (pass : Pass)
    → is_listed (candidates n pass) id ≡ false
    → Revives id (delete_missing lower now cns (pos n) pass)
unfolding delete_missing
missing-Spares id lower now cns n pass unlisted = elim (Bool-cases (has_failed pass)) [
  | inl bad ↦ rw bad (Keeps-pure _)
  | inr good ↦ elim (Bool-cases (is_too_many (pos n) (length pass.missing))) [
    | inl many ↦ rw (good, many) (Keeps-pure _)
    | inr few ↦
        rw (good, few)
          (look_up_all-Spares id lower now cns pass.missing _ (rw (good, few) at unlisted))
  ]
]

-- What the result says of the candidates.
missing_lem :
    (lower : String → String) (now : Time) (cns : Cns) (n : ℕ) (pass : Pass) (db : Db Tables)
    (r : DirectoryResult)
    → (delete_missing lower now cns (pos n) pass db).0 ≡ ok r
    → (n < r.missing → candidates n pass ≡ []) × (r.deleted ≤ length (candidates n pass))
unfolding delete_missing pure
missing_lem lower now cns n pass db r done = elim (Bool-cases (has_failed pass)) [
  | inl bad ↦ let same = rw bad at done in rw bad (λ many. refl, ground arith)
  | inr good ↦ elim (Bool-cases (is_too_many (pos n) (length pass.missing))) [
    | inl many ↦ let same = rw (good, many) at done in rw (good, many) (λ e. refl, ground arith)
    | inr few ↦
        let counted =
          look_up_all_lem lower now cns pass.missing (result_of pass (length pass.missing)) db r
            (rw (good, few) at done) in
        rw (good, few)
          (λ more. absurd (ground (arith, counted, few, more)), ground (arith, counted))
  ]
]

-- A pass over the directory that may delete `n` users deletes some of at most `n` users, and no other:
-- everyone else who was not deleted stays so, whatever CNS answers and whichever statements fail. Where
-- the pass misses more than `n` users it deletes nobody, and it never counts more than those it may.
pub verify_with_directory-Limited :
    (lower : String → String) (now : Time) (cns : Cns) (cancelled : ℕ → Bool) (before : Time)
    (n : ℕ) (db : Db Tables) (r : DirectoryResult)
    → (verify_with_directory lower now cns cancelled before (pos n) db).0 ≡ ok r
    → Limited n r db (verify_with_directory lower now cns cancelled before (pos n) db).1
unfolding verify_with_directory pure
verify_with_directory-Limited lower now cns cancelled before n db r done =
    elim (Bool-cases (not cns.directory_configured)) [
      | inl off ↦
          let same = rw off at done in
          rw off ([], omega arith, λ many. refl, ground arith, λ id unlisted alive. alive)
      | inr on ↦
          let batches =
            verify_batches lower now cns cancelled before directory_max_batches 0 first_cursor
              empty_pass in
          let (pass, a, b) =
            bind_ok batches (delete_missing lower now cns (pos n)) db (rw on at done) in
          let (none_left, counted) = missing_lem lower now cns n pass (batches db).1 r b in
          let state =
            ap (λ (x : Result Error DirectoryResult × Db Tables). x.1)
              (bind_state batches (delete_missing lower now cns (pos n)) db pass a) in
          rw on (
            candidates n pass,
            candidates-few n pass,
            none_left,
            counted,
            λ id unlisted alive.
                subst (λ (x : Db Tables). Alive id x.tables) (sym state)
                  ((missing-Spares id lower now cns n pass unlisted).at (batches db).1 (
                    (batches-Alive id lower now cns cancelled before directory_max_batches 0
                        first_cursor empty_pass).at
                      db (record { on = alive }))).on,
          )
    ]
