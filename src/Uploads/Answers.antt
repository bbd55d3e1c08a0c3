-- ===== src/Uploads/Answers.antt =====
-- internal/services/upload.go: what FinalizeUploadWithOptions answers.
use sendly.Common.{
  ℕ, String, Bool, true, false, not, ◌≡◌, refl, sym, subst, ◌∙◌, Option, ◌==◌, if◌then◌else◌,
  Result, ok, err, pure, raise, try, handle, Action, Db, ◌>>=◌,
}
use sendly.Common.Inversion.{bind_ok, bind_state}
use sendly.Common.Keeps.{Keeps, Keeps-pure, Keeps-if}
use sendly.Models.{Time, Error, File, FileKeyEnvelope, FileAccessKeyEnvelope}
use sendly.Uploads.Session.{Tables, UploadSession, finalized, state_eq}
use sendly.Uploads.Files.{create_file_with_envelope}
use sendly.Uploads.Store.{mark_upload_finalized, get_upload_session}
use sendly.Uploads.Serve.{World, Serve, on_db, logged, get_file_for_admin}
use sendly.Uploads.Stored.{Keeps-logged}
use sendly.Uploads.Finalize.{
  FinalizeUploadOptions, UploadFinalizeResponse, finalize_response, written, lost_race, create_file,
  repeated, not_there, finalize_upload_with_options, new_file, envelope_of,
}
use sendly.Uploads.Recorded.{
  has_file, Has, Has-on_db, track-Has, finalized-HasFile, admin-HasFile, created-HasFile, admin-id,
}

-- From a state with `P`, `m` answers only the file `id`, with a code that is recorded for it.
record Answers (id : String) (P : World → Type 0) (m : Serve UploadFinalizeResponse) : Type 0 where
  at :
      (w : World) (r : UploadFinalizeResponse)
      → P w
      → (m w).0 ≡ ok r
      → Has id r.numeric_code (m w).1 × (r.file_id ≡ id)

abbrev Any : World → Type 0
Any w = Unit

module _ {A : Type 0} {id : String} {P : World → Type 0} where
  Answers-bind :
      (Q : A → World → Type 0) (m : Serve A) (f : A → Serve UploadFinalizeResponse)
      → ((w : World) (a : A) → P w → (m w).0 ≡ ok a → Q a (m w).1)
      → ((a : A) → Answers id (Q a) (f a))
      → Answers id P (m >>= f)
  Answers-bind Q m f into k = record {
    at = λ w r h done.
        let (a, first, rest) = bind_ok m f w done in
        subst
          (λ (x : Result Error UploadFinalizeResponse × World).
            Has id r.numeric_code x.1 × (r.file_id ≡ id))
          (sym (bind_state m f w a first)) ((k a).at (m w).1 r (into w a h first) rest);
  }

  Answers-handle :
      (r : Result Error A) (good : A → Serve UploadFinalizeResponse)
      (bad : Error → Serve UploadFinalizeResponse)
      → ((a : A) → r ≡ ok a → Answers id P (good a))
      → ((e : Error) → Answers id P (bad e))
      → Answers id P (handle r good bad)
  unfolding handle
  Answers-handle (ok a) good bad kg kb = kg a refl
  Answers-handle (err e) good bad kg kb = kb e

module _ {id : String} {P : World → Type 0} where
  Answers-raise : (e : Error) → Answers id P (raise e)
  unfolding raise
  Answers-raise e = record { at = λ w r h done. cc }

  Answers-if :
      (c : Bool) (m n : Serve UploadFinalizeResponse)
      → Answers id P m
      → Answers id P n
      → Answers id P (if c then m else n)
  Answers-if true m n km kn = km
  Answers-if false m n km kn = kn

answer_eq : {A : Type 0} (a b : A) → ◌≡◌ {A = Result Error A} (ok a) (ok b) → a ≡ b
answer_eq a b e = cc

Answers-response : (f : File) → Answers f.id (Has f.id f.numeric_code) (pure (finalize_response f))
unfolding pure
Answers-response f = record {
  at = λ w r h done.
      subst (λ (x : UploadFinalizeResponse). Has f.id x.numeric_code w × (x.file_id ≡ f.id))
        (answer_eq (finalize_response f) r done) (h, refl);
}

-- The first part keeps the record of a file.
module _ (f : File) where
  Answers-after :
      {A : Type 0} (m : Serve A) (g : A → Serve UploadFinalizeResponse)
      → Keeps (Has f.id f.numeric_code) m
      → ((a : A) → Answers f.id (Has f.id f.numeric_code) (g a))
      → Answers f.id (Has f.id f.numeric_code) (m >>= g)
  Answers-after m g km kg =
      Answers-bind (λ a w. Has f.id f.numeric_code w) m g (λ w a h done. km.at w h) kg

  mark-Has :
      (now : Time) (k : String)
      → Keeps (Has f.id f.numeric_code) (logged (on_db (mark_upload_finalized now k)))
  mark-Has now k = Keeps-logged _ _ (Has-on_db _ _ _ (finalized-HasFile _ _ now k))

  written-Answers :
      (now : Time) (k : String) → Answers f.id (Has f.id f.numeric_code) (written now k f)
  unfolding written
  written-Answers now k =
      Answers-after _ _ (track-Has _ _ _ _)
        (λ u. Answers-after _ _ (mark-Has now k) (λ u. Answers-response f))

  repeated-Answers :
      (now : Time) (k : String) (s : UploadSession)
      → Answers f.id (Has f.id f.numeric_code) (repeated now k s f)
  unfolding repeated
  repeated-Answers now k s =
      Answers-after _ _
        (Keeps-if (not (s.state == finalized)) _ _ (λ e. mark-Has now k) (λ e. Keeps-pure _))
        (λ u. Answers-response f)

-- What is known where a file was looked up.
abbrev Looked : String → Result Error File → World → Type 0
Looked id r w = (f : File) → r ≡ ok f → Has f.id f.numeric_code w × (f.id ≡ id)

looked :
    (id : String) (w : World) (r : Result Error File)
    → Any w
    → (try (on_db (get_file_for_admin id)) w).0 ≡ ok r
    → Looked id r (try (on_db (get_file_for_admin id)) w).1
unfolding try on_db
looked id w r h done f is = (
  record { on = admin-HasFile id w.db f (answer_eq _ r done ∙ is) },
  admin-id id w.db f (answer_eq _ r done ∙ is),
)

-- An answer of a row with the identifier is an answer of it.
Answers-of :
    (f : File) (id : String) (P : World → Type 0) (m : Serve UploadFinalizeResponse) (w : World)
    (r : UploadFinalizeResponse)
    → f.id ≡ id
    → Answers f.id P m
    → P w
    → (m w).0 ≡ ok r
    → Has id r.numeric_code (m w).1 × (r.file_id ≡ id)
Answers-of f id P m w r same k h done =
    subst (λ (i : String). Has i r.numeric_code (m w).1 × (r.file_id ≡ i)) same (k.at w r h done)

lost_race-Answers : (id : String) → Answers id Any (lost_race id)
unfolding lost_race
lost_race-Answers id = Answers-bind (Looked id) _ _ (looked id) (λ r.
    Answers-handle r _ _
      (λ f is. record {
        at = λ w a known done.
            Answers-of f id (Has f.id f.numeric_code) _ w a (known f is).1 (Answers-response f)
              (known f is).0 done;
      })
      (λ e. Answers-raise _))

-- What is known where a file was to be written.
abbrev Written : File → Result Error (Unit {0}) → World → Type 0
Written f r w = (u : Unit {0}) → r ≡ ok u → Has f.id f.numeric_code w

recorded :
    (f : File) (e : Option FileKeyEnvelope) (g : Option FileAccessKeyEnvelope) (w : World)
    (r : Result Error (Unit {0}))
    → Any w
    → (try (on_db (create_file_with_envelope f e g)) w).0 ≡ ok r
    → Written f r (try (on_db (create_file_with_envelope f e g)) w).1
unfolding try on_db
recorded f e g w r h done u is = record {
  on = created-HasFile f e g w.db u (answer_eq _ r done ∙ is);
}

-- What a call answers that is only tried, and what is taken from a success.
found_lem :
    {A : Type 0} (m : Action Error (Db Tables) A) (s : A) (a : Result Error A) (w : World)
    → (m w.db).0 ≡ ok s
    → (try (on_db m) w).0 ≡ ok a
    → a ≡ ok s
unfolding try on_db
found_lem m s a w h e = sym (answer_eq _ a e) ∙ h

taken_lem :
    {A : Type 0} (found : Result Error A) (s : A) (bad : Error → Serve A) (a : A) (w : World)
    → found ≡ ok s
    → (handle found pure bad w).0 ≡ ok a
    → a ≡ s
unfolding handle pure
taken_lem (ok x) s bad a w h e = cc
taken_lem (err x) s bad a w h e = cc

module _ (others : World → World) (codes : ℕ → String) (now : Time) (k duration : String)
    (opts : Option FinalizeUploadOptions) where
  create_file-Answers :
      (s : UploadSession) → Answers s.file_id Any (create_file others codes now k duration opts s)
  unfolding create_file
  create_file-Answers s =
      Answers-bind (λ a. Any) _ _ (λ w a h e. tt)
        (λ u.
          Answers-bind (λ a. Any) _ _ (λ w a h e. tt)
            (λ expires_at.
              Answers-bind (λ a. Any) _ _ (λ w a h e. tt)
                (λ size.
                  Answers-bind (λ a. Any) _ _ (λ w a h e. tt)
                    (λ code.
                      Answers-bind (λ a. Any) _ _ (λ w a h e. tt)
                        (λ envelope.
                          Answers-bind (λ a. Any) _ _ (λ w a h e. tt)
                            (λ u.
                              made (new_file now expires_at code size s opts)
                                (envelope_of s.file_id opts) envelope refl))))))
    where
      made :
          (f : File) (e : Option FileKeyEnvelope) (g : Option FileAccessKeyEnvelope)
          → f.id ≡ s.file_id
          → Answers s.file_id Any (
              try (on_db (create_file_with_envelope f e g)) >>= λ r.
              handle r (λ u. written now k f) (λ x. lost_race s.file_id))
      made f e g same = Answers-bind (Written f) _ _ (recorded f e g) (λ r.
          Answers-handle r _ _
            (λ u is. record {
              at = λ w a known done.
                  Answers-of f s.file_id (Has f.id f.numeric_code) _ w a same
                    (written-Answers f now k) (known u is) done;
            })
            (λ x. record { at = λ w a known done. (lost_race-Answers s.file_id).at w a tt done }))

  -- A finalize that succeeds answers the identifier of its session's file, with the code of the row that
  -- the database has for it, whether that was written now, by an earlier finalize of the upload, or by one
  -- that came first while this one ran.
  pub finalize-recorded :
      (w : World) (s : UploadSession) (r : UploadFinalizeResponse)
      → (get_upload_session now k w.db).0 ≡ ok s
      → (finalize_upload_with_options others codes now k duration opts w).0 ≡ ok r
      → (r.file_id ≡ s.file_id)
        × (has_file s.file_id r.numeric_code
              (finalize_upload_with_options others codes now k duration opts w).1.db.tables
            ≡ true)
  unfolding finalize_upload_with_options
  finalize-recorded w s r asked done = let (has, same) = answers.at w r asked done in (same, has.on)
    where
      Found : Result Error UploadSession → World → Type 0
      Found found w = found ≡ ok s

      Taken : UploadSession → World → Type 0
      Taken s' w = s' ≡ s

      rest :
          (s' : UploadSession)
          → s' ≡ s
          → Answers s.file_id Any (
              try (on_db (get_file_for_admin s'.file_id)) >>= λ r.
              handle r (repeated now k s') (λ e.
                if not_there e then create_file others codes now k duration opts s' else raise e))
      rest s' same =
          subst
            (λ (x : UploadSession). Answers s.file_id Any (
              try (on_db (get_file_for_admin x.file_id)) >>= λ r. handle r (repeated now k x) (λ e.
                if not_there e then create_file others codes now k duration opts x else raise e)))
            (sym same)
            (Answers-bind (Looked s.file_id) _ _ (looked s.file_id) (λ r.
              Answers-handle r _ _
                (λ f is. record {
                  at = λ w a known done.
                      Answers-of f s.file_id (Has f.id f.numeric_code) _ w a (known f is).1
                        (repeated-Answers f now k s) (known f is).0 done;
                })
                (λ e.
                  Answers-if (not_there e) _ _
                    (record { at = λ w a known done. (create_file-Answers s).at w a tt done })
                    (Answers-raise _))))

      answers :
          Answers s.file_id
            (λ w. (get_upload_session now k w.db).0 ≡ ok s)
            (finalize_upload_with_options others codes now k duration opts)
      answers =
          Answers-bind Found _ _ (λ w a h e. found_lem (get_upload_session now k) s a w h e)
            (λ found.
              Answers-bind Taken _ _ (λ w a h e. taken_lem found s _ a w h e)
                (λ s'. record { at = λ w a same done. (rest s' same).at w a tt done }))
