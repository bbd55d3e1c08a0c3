-- ===== src/Uploads/Recorded.antt =====
-- internal/storage/postgres.go: the row of a file, after the statements of finalize.
use sendly.Common.{
  ℕ, zero, suc, String, Bool, true, ◌&&◌, ◌||◌, ◌≡◌, refl, sym, subst, ap, ◌∙◌, inl, inr, Option,
  some, List, [], ◌∷◌, ◌==◌, string_eq, ==_refl, ==→eq, find, exists, arith, Bool-cases, Result, ok,
  err, pure, raise, with_option, ◌>>=◌, ◌>>◌, Db, is_faulty, later, statement, query, or_raise,
  transaction, end_transaction,
}
use sendly.Common.Inversion.{bind_ok, bind_state, query_ok, or_raise_ok}
use sendly.Common.Keyed.{find-some}
use sendly.Common.Keeps.{
  Keeps, OnTables, Keeps-statement, Keeps-bind, Keeps-pure, Keeps-raise, Keeps-if,
  Keeps-with_option, Keeps-transaction,
}
use sendly.Models.{
  Time, Error, driver, File, FileKeyEnvelope, FileAccessKeyEnvelope, file_not_found,
}
use sendly.Uploads.Session.{Tables, state_eq}
use sendly.Uploads.Store.{Store, update_sessions, mark_upload_finalized}
use sendly.Uploads.Files.{
  has_file_id, has_code, insert_file, insert_envelope, upsert_grant, keep_or, constrained,
  create_file_with_envelope, record_upload,
}
use sendly.Uploads.Serve.{World, on_db, get_file_for_admin}
use sendly.Uploads.Stored.{Keeps-logged}
use sendly.Uploads.Finalize.{track_upload}

abbrev pub has_file : String → String → Tables → Bool
has_file id code t = exists (λ (f : File). f.id == id && f.numeric_code == code) t.files

module _ (id code : String) where
  abbrev pub HasFile : Tables → Type 0
  HasFile t = has_file id code t ≡ true

  constrained-HasFile :
      (change : Tables → Option Tables)
      → ((t : Tables) → HasFile t → HasFile (keep_or t (change t)).1)
      → Keeps (OnTables HasFile) (constrained change)
  unfolding constrained
  constrained-HasFile change k =
      Keeps-bind _ _ (Keeps-statement _ _ k)
        (λ fine. Keeps-if fine _ _ (λ e. Keeps-pure _) (λ e. Keeps-raise _))

  pub record_upload-HasFile :
      (bytes : ℕ) (ip : String) → Keeps (OnTables HasFile) (record_upload bytes ip)
  unfolding record_upload
  record_upload-HasFile bytes ip = Keeps-transaction _ _ (
      Keeps-bind _ _ (Keeps-statement _ _ (λ t h. h)) (λ u.
        Keeps-bind _ _ (Keeps-statement _ _ (λ t h. h)) (λ u. Keeps-statement _ _ (λ t h. h))))

  pub finalized-HasFile :
      (now : Time) (k : String) → Keeps (OnTables HasFile) (mark_upload_finalized now k)
  unfolding mark_upload_finalized update_sessions
  finalized-HasFile now k = Keeps-bind _ _ (Keeps-statement _ _ (λ t h. h)) (λ n. Keeps-pure _)

  -- The file is recorded.
  pub record Has (w : World) : Type 0 where
    pub on : HasFile w.db.tables

  pub Has-on_db : {A : Type 0} (m : Store A) → Keeps (OnTables HasFile) m → Keeps Has (on_db m)
  unfolding on_db
  Has-on_db m k = record { at = λ w h. record { on = (k.at w.db (record { on = h.on })).on } }

  pub track-Has : (bytes : ℕ) (ip : String) → Keeps Has (track_upload bytes ip)
  unfolding track_upload
  track-Has zero ip = Keeps-pure _
  track-Has (suc bytes) ip = Keeps-logged _ _ (Has-on_db _ (record_upload-HasFile _ _))

found-HasFile :
    (q : File → Bool) (f : File) (fs : List File)
    → find q fs ≡ some f
    → exists (λ (x : File). x.id == f.id && x.numeric_code == f.numeric_code) fs ≡ true
found-HasFile q f [] h = cc
found-HasFile q f (x ∷ fs) h = elim (Bool-cases (q x)) [
  | inl hit ↦
      let same : x ≡ f = ground (arith, hit, h) in
      rw (same, ==_refl f.id, ==_refl f.numeric_code) refl
  | inr miss ↦ ground (arith, found-HasFile q f fs (rw miss at h))
]

pub admin-HasFile :
    (id : String) (db : Db Tables) (f : File)
    → (get_file_for_admin id db).0 ≡ ok f
    → HasFile f.id f.numeric_code (get_file_for_admin id db).1.tables
unfolding get_file_for_admin
admin-HasFile id db f h =
    let (o, read, raised) =
      bind_ok (query driver (λ (t : Tables). find (λ (f : File). f.id == id) t.files))
        (λ o. or_raise o file_not_found) db h in
    let (at, same) =
      query_ok driver (λ (t : Tables). find (λ (f : File). f.id == id) t.files) db o read in
    let (there, still) = or_raise_ok o file_not_found _ f raised in
    let whole =
      bind_state (query driver (λ (t : Tables). find (λ (f : File). f.id == id) t.files))
        (λ o. or_raise o file_not_found) db o read in
    subst (HasFile f.id f.numeric_code)
      (sym (
        ap (λ (x : Result Error File × Db Tables). x.1.tables) whole
        ∙ ap (λ (x : Db Tables). x.tables) still
        ∙ same))
      (found-HasFile (λ (x : File). x.id == id) f db.tables.files (at ∙ there))

inserted-HasFile :
    (f : File) (db : Db Tables) (u : Unit {0})
    → (constrained (insert_file f) db).0 ≡ ok u
    → HasFile f.id f.numeric_code (constrained (insert_file f) db).1.tables
unfolding constrained statement pure raise ◌>>=◌
inserted-HasFile f db u h = elim (Bool-cases (is_faulty db.faults)) [
  | inl bad ↦ absurd (let h' = rw bad at h in cc)
  | inr good ↦
      elim (Bool-cases (
        exists (has_file_id f.id) db.tables.files
        || exists (has_code f.numeric_code) db.tables.files)) [
          | inl taken ↦ absurd (let h' = rw (good, taken) at h in cc)
          | inr free ↦ rw (good, free, ==_refl f.id, ==_refl f.numeric_code) refl
        ]
]

-- What a transaction establishes if its body does.
committed :
    (Q : Tables → Type 0) (m : Store (Unit {0})) (db : Db Tables) (u : Unit {0})
    → ((db' : Db Tables) (v : Unit {0}) → (m db').0 ≡ ok v → Q (m db').1.tables)
    → (transaction driver m db).0 ≡ ok u
    → Q (transaction driver m db).1.tables
unfolding transaction end_transaction
committed Q m db u body h = elim (Bool-cases (is_faulty db.faults)) [
  | inl bad ↦ absurd (let h' = rw bad at h in cc)
  | inr good ↦
      let begun : Db Tables = record { faults = later db.faults; tables = db.tables } in
      rw good (ended (m begun) (λ v e. body begun v e) (rw good at h))
]
  where
    ended :
        (x : Result Error (Unit {0}) × Db Tables)
        → ((v : Unit {0}) → x.0 ≡ ok v → Q x.1.tables)
        → (end_transaction driver db.tables x).0 ≡ ok u
        → Q (end_transaction driver db.tables x).1.tables
    ended (err e, db') k done = cc
    ended (ok v, db') k done = elim (Bool-cases (is_faulty db'.faults)) [
      | inl bad ↦ absurd (let done' = rw bad at done in cc)
      | inr good ↦ rw good (k v refl)
    ]

pub created-HasFile :
    (f : File) (e : Option FileKeyEnvelope) (g : Option FileAccessKeyEnvelope) (db : Db Tables)
    (u : Unit {0})
    → (create_file_with_envelope f e g db).0 ≡ ok u
    → HasFile f.id f.numeric_code (create_file_with_envelope f e g db).1.tables
unfolding create_file_with_envelope
created-HasFile f e g db u h = committed (HasFile f.id f.numeric_code) _ db u body h
  where
    rest : Keeps (OnTables (HasFile f.id f.numeric_code)) (
        with_option e (pure tt) (λ x. constrained (insert_envelope x))
        >> with_option g (pure tt) (λ x. constrained (upsert_grant x)))
    rest =
        Keeps-bind _ _
          (Keeps-with_option _ _ _ (Keeps-pure _)
            (λ x. constrained-HasFile _ _ _ (λ t h. ground arith)))
          (λ u. Keeps-with_option _ _ _ (Keeps-pure _) (λ x. constrained-HasFile _ _ _ (λ t h. h)))

    body :
        (db' : Db Tables) (v : Unit {0})
        → ((constrained (insert_file f)
              >> (with_option e (pure tt) (λ x. constrained (insert_envelope x))
                  >> with_option g (pure tt) (λ x. constrained (upsert_grant x))))
            db').0
          ≡ ok v
        → HasFile f.id f.numeric_code
            ((constrained (insert_file f)
                >> (with_option e (pure tt) (λ x. constrained (insert_envelope x))
                    >> with_option g (pure tt) (λ x. constrained (upsert_grant x))))
              db').1.tables
    body db' v done =
        let (w, first, then_rest) = bind_ok (constrained (insert_file f)) _ db' done in
        subst (λ (x : Result Error (Unit {0}) × Db Tables). HasFile f.id f.numeric_code x.1.tables)
          (sym (bind_state (constrained (insert_file f)) _ db' w first))
          (rest.at (constrained (insert_file f) db').1
            (record { on = inserted-HasFile f db' w first })).on

-- The row that is answered has the identifier that was asked for.
pub admin-id :
    (id : String) (db : Db Tables) (f : File) → (get_file_for_admin id db).0 ≡ ok f → f.id ≡ id
unfolding get_file_for_admin
admin-id id db f h =
    let (o, read, raised) =
      bind_ok (query driver (λ (t : Tables). find (λ (f : File). f.id == id) t.files))
        (λ o. or_raise o file_not_found) db h in
    let (at, same) =
      query_ok driver (λ (t : Tables). find (λ (f : File). f.id == id) t.files) db o read in
    let (there, still) = or_raise_ok o file_not_found _ f raised in
    ==→eq f.id id (find-some (λ (x : File). x.id == id) db.tables.files f (at ∙ there))
