-- ===== src/Uploads/NewFiles.antt =====
-- internal/storage: the statements on uploads and the rows of `files`.
use sendly.Common.{
  ℕ, String, Bool, false, ◌≡◌, Option, ◌==◌, string_eq, exists, arith, not, ◌&&◌, nat_eq,
}
use sendly.Common.Keeps.{
  Keeps, OnTables, Keeps-statement, Keeps-transaction, Keeps-bind, Keeps-raise_if, Keeps-pure,
  Keeps-raise, Keeps-or_raise, Keeps-query, Keeps-if, Keeps-with_option,
}
use sendly.Models.{Time, File, FileKeyEnvelope, FileAccessKeyEnvelope}
use sendly.Uploads.Session.{Tables, UploadSession, uploading, failed, state_eq}
use sendly.Uploads.Store.{
  Store, Inserted, inserted, conflict, violation, insert_session, answer_inserted,
  create_upload_session, get_upload_session, record_chunk, update_sessions, update_returning,
  count_uploaded_chunks, start_locked, start_assembly, claim_assembly, finish_assembly,
  fail_assembly, release_assembly, list_orphaned_assemblies, mark_upload_finalized,
  delete_upload_session, take_expired_upload_sessions,
}
use sendly.Uploads.Files.{
  has_file_id, keep_or, insert_file, constrained, create_file_with_envelope, numeric_code_exists,
  get_active_user_identity_key, record_upload,
}
use sendly.Uploads.Serve.{get_file_for_admin}

module _ (id : String) where
  abbrev pub Absent : Tables → Type 0
  Absent t = exists (has_file_id id) t.files ≡ false

  abbrev pub AddsNone : {A : Type 0} → Store A → Type 0
  AddsNone m = Keeps (OnTables Absent) m

  pub update_sessions-AddsNone :
      (test : UploadSession → Bool) (f : UploadSession → UploadSession)
      → AddsNone (update_sessions test f)
  unfolding update_sessions
  update_sessions-AddsNone test f = Keeps-statement _ _ (λ t h. h)

  update_returning-AddsNone :
      (test : UploadSession → Bool) (f : UploadSession → UploadSession)
      → AddsNone (update_returning test f)
  unfolding update_returning
  update_returning-AddsNone test f = Keeps-statement _ _ (λ t h. h)

  inserted-Absent : (s : UploadSession) (t : Tables) → Absent t → Absent (insert_session s t).1
  unfolding insert_session
  inserted-Absent s t h = ground arith

  answer_inserted-AddsNone : (o : Inserted) → AddsNone (answer_inserted o)
  unfolding answer_inserted
  answer_inserted-AddsNone inserted = Keeps-pure _
  answer_inserted-AddsNone conflict = Keeps-raise _
  answer_inserted-AddsNone violation = Keeps-raise _

  pub create_upload_session-AddsNone :
      (now : Time) (s : UploadSession) (ttl : ℕ) → AddsNone (create_upload_session now s ttl)
  unfolding create_upload_session
  create_upload_session-AddsNone now s ttl =
      Keeps-bind _ _ (Keeps-statement _ _ (λ t h. inserted-Absent _ t h)) answer_inserted-AddsNone

  pub get_upload_session-AddsNone : (now : Time) (k : String) → AddsNone (get_upload_session now k)
  unfolding get_upload_session
  get_upload_session-AddsNone now k = Keeps-bind _ _ (Keeps-query _ _) (λ o. Keeps-or_raise _ _)

  pub get_file_for_admin-AddsNone : (k : String) → AddsNone (get_file_for_admin k)
  unfolding get_file_for_admin
  get_file_for_admin-AddsNone k = Keeps-bind _ _ (Keeps-query _ _) (λ o. Keeps-or_raise _ _)

  pub record_chunk-AddsNone :
      (now : Time) (k : String) (i ttl : ℕ) → AddsNone (record_chunk now k i ttl)
  unfolding record_chunk
  record_chunk-AddsNone now k i ttl = Keeps-transaction _ _ (
      Keeps-bind _ _ (update_sessions-AddsNone _ _)
        (λ n. Keeps-bind _ _ (Keeps-raise_if _ _) (λ u. Keeps-statement _ _ (λ t h. h))))

  start_locked-AddsNone :
      (now : Time) (ttl : ℕ) (s : UploadSession) → AddsNone (start_locked now ttl s)
  unfolding start_locked count_uploaded_chunks
  start_locked-AddsNone now ttl s =
      Keeps-if (not (s.state == uploading) && not (s.state == failed)) _ _ (λ e. Keeps-pure _)
        (λ e. Keeps-bind _ _ (Keeps-query _ _) (λ n.
          Keeps-bind _ _ (Keeps-raise_if _ _)
            (λ u. Keeps-bind _ _ (update_returning-AddsNone _ _) (λ o. Keeps-or_raise _ _))))

  pub start_assembly-AddsNone :
      (now : Time) (k : String) (ttl : ℕ) → AddsNone (start_assembly now k ttl)
  unfolding start_assembly
  start_assembly-AddsNone now k ttl = Keeps-transaction _ _ (
      Keeps-bind _ _ (Keeps-query _ _)
        (λ o. Keeps-bind _ _ (Keeps-or_raise _ _) (λ s. start_locked-AddsNone now ttl s)))

  pub claim_assembly-AddsNone :
      (now : Time) (k owner : String) (lease : ℕ) → AddsNone (claim_assembly now k owner lease)
  unfolding claim_assembly
  claim_assembly-AddsNone now k owner lease = update_returning-AddsNone _ _

  pub finish_assembly-AddsNone :
      (now : Time) (k owner : String) (ttl : ℕ) → AddsNone (finish_assembly now k owner ttl)
  unfolding finish_assembly
  finish_assembly-AddsNone now k owner ttl =
      Keeps-bind _ _ (update_sessions-AddsNone _ _) (λ n. Keeps-pure _)

  pub fail_assembly-AddsNone :
      (now : Time) (k owner text : String) → AddsNone (fail_assembly now k owner text)
  unfolding fail_assembly
  fail_assembly-AddsNone now k owner text =
      Keeps-bind _ _ (update_sessions-AddsNone _ _) (λ n. Keeps-pure _)

  pub release_assembly-AddsNone : (k owner : String) → AddsNone (release_assembly k owner)
  unfolding release_assembly
  release_assembly-AddsNone k owner =
      Keeps-bind _ _ (update_sessions-AddsNone _ _) (λ n. Keeps-pure _)

  pub mark_upload_finalized-AddsNone :
      (now : Time) (k : String) → AddsNone (mark_upload_finalized now k)
  unfolding mark_upload_finalized
  mark_upload_finalized-AddsNone now k =
      Keeps-bind _ _ (update_sessions-AddsNone _ _) (λ n. Keeps-pure _)

  pub delete_upload_session-AddsNone : (k : String) → AddsNone (delete_upload_session k)
  unfolding delete_upload_session
  delete_upload_session-AddsNone k = Keeps-statement _ _ (λ t h. h)

  pub take_expired-AddsNone :
      (now : Time) (locked : String → Bool) (n : ℕ)
      → AddsNone (take_expired_upload_sessions now locked n)
  unfolding take_expired_upload_sessions
  take_expired-AddsNone now locked n = Keeps-statement _ _ (λ t h. h)

  pub list_orphaned-AddsNone : (now : Time) (n : ℕ) → AddsNone (list_orphaned_assemblies now n)
  unfolding list_orphaned_assemblies
  list_orphaned-AddsNone now n = Keeps-query _ _

  pub numeric_code_exists-AddsNone : (code : String) → AddsNone (numeric_code_exists code)
  unfolding numeric_code_exists
  numeric_code_exists-AddsNone code = Keeps-bind _ _ (Keeps-query _ _) (λ n. Keeps-pure _)

  pub get_active_key-AddsNone : (user : ℕ) → AddsNone (get_active_user_identity_key user)
  unfolding get_active_user_identity_key
  get_active_key-AddsNone user = Keeps-bind _ _ (Keeps-query _ _) (λ o. Keeps-or_raise _ _)

  pub record_upload-AddsNone : (bytes : ℕ) (ip : String) → AddsNone (record_upload bytes ip)
  unfolding record_upload
  record_upload-AddsNone bytes ip = Keeps-transaction _ _ (
      Keeps-bind _ _ (Keeps-statement _ _ (λ t h. h)) (λ u.
        Keeps-bind _ _ (Keeps-statement _ _ (λ t h. h)) (λ u. Keeps-statement _ _ (λ t h. h))))

  constrained-AddsNone :
      (change : Tables → Option Tables)
      → ((t : Tables) → Absent t → Absent (keep_or t (change t)).1)
      → AddsNone (constrained change)
  unfolding constrained
  constrained-AddsNone change k =
      Keeps-bind _ _ (Keeps-statement _ _ k)
        (λ fine. Keeps-if fine _ _ (λ e. Keeps-pure _) (λ e. Keeps-raise _))

  inserted_file-Absent :
      (f : File)
      → (f.id == id) ≡ false
      → (t : Tables) → Absent t
      → Absent (keep_or t (insert_file f t)).1
  inserted_file-Absent f other t h = ground arith

  pub create_file-AddsNone :
      (f : File) (e : Option FileKeyEnvelope) (g : Option FileAccessKeyEnvelope)
      → (f.id == id) ≡ false
      → AddsNone (create_file_with_envelope f e g)
  unfolding create_file_with_envelope
  create_file-AddsNone f e g other = Keeps-transaction _ _ (
      Keeps-bind _ _ (constrained-AddsNone _ (inserted_file-Absent f other)) (λ u.
        Keeps-bind _ _
          (Keeps-with_option _ _ _ (Keeps-pure _)
            (λ x. constrained-AddsNone _ (λ t h. ground arith)))
          (λ u. Keeps-with_option _ _ _ (Keeps-pure _) (λ x. constrained-AddsNone _ (λ t h. h)))))
