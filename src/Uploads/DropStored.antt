-- ===== src/Uploads/DropStored.antt =====
-- internal/services/upload.go: files and their blobs where sessions are cancelled or expire.
use sendly.Common.{
  ℕ, zero, suc, String, Bool, false, not, ◌≡◌, inl, inr, List, [], ◌∷◌, ◌==◌, nat_eq, string_eq,
  ==→eq, if◌then◌else◌, exists, length, ltb, arith, Bool-cases, Option-cases, pure, or_raise, try,
  modify, ◌>>=◌, ◌>>◌, is_faulty, statement, query, find,
}
use sendly.Common.Keeps.{
  Keeps, Keeps-bind, Keeps-pure, Keeps-raise, Keeps-try, Keeps-handle, Keeps-if,
}
use sendly.Common.Keyed.{none-exists}
use sendly.Models.{Time}
use sendly.Uploads.Session.{UploadSession, finalized, state_eq}
use sendly.Uploads.Disk.{delete_file}
use sendly.Uploads.Files.{has_file_id}
use sendly.Uploads.NewFiles
use sendly.Uploads.Serve.{World, Serve, ⊤, on_db, on_disk, logged, get_file_for_admin}
use sendly.Uploads.Expiry.{
  remove_session_files, remove_all, cleanup_expired_sessions, cancel_upload, is_session_not_found,
  is_file_not_found,
}
use sendly.Uploads.Stored.{
  AllStored, AllStored-on_db, AllStored-on_disk, Keeps-logged, kept_blob, delete_chunks-KeepsBlobs,
  file_exists-KeepsBlobs,
}

-- A file that the database does not have may lose its blob.
dropped :
    (f : String) (w : World)
    → AllStored w
    → exists (has_file_id f) w.db.tables.files ≡ false
    → AllStored (logged (on_disk (delete_file f)) w).1
unfolding logged on_disk delete_file try pure ◌>>=◌ statement
dropped f w h absent = record {
  stored = λ id e. elim (Bool-cases (f == id)) [
    | inl same ↦ absurd (let absent' = rw (==→eq f id same) at absent in cc)
    | inr other ↦ ground (arith, h.stored id e, kept_blob id f w.disk.tables.blobs other)
  ];
}

-- What others do within the gap between a lookup and a deletion: they leave every file its blob, and
-- write no row of the file that was looked up.
pub record Gap (f : String) (others : World → World) : Type 0 where
  pub stored : (w : World) → AllStored w → AllStored (others w)
  pub no_row :
      (w : World)
      → exists (has_file_id f) w.db.tables.files ≡ false
      → exists (has_file_id f) (others w).db.tables.files ≡ false

abbrev pub Gaps : (String → World → World) → Type 0
Gaps others = (f : String) → Gap f (others f)

-- The blob goes only if the database says that there is no such file.
if_unknown : (World → World) → String → Serve ⊤
unfolding get_file_for_admin
if_unknown others f = do
  r ← try (on_db (get_file_for_admin f))
  modify others
  if is_file_not_found r then logged (on_disk (delete_file f)) else pure tt

if_unknown-AllStored :
    (others : World → World) (f : String)
    → Gap f others
    → (w : World) → AllStored w
    → AllStored (if_unknown others f w).1
unfolding if_unknown get_file_for_admin on_db try query statement or_raise pure modify ◌>>=◌
if_unknown-AllStored others f gap w h = elim (Bool-cases (is_faulty w.db.faults)) [
  | inl bad ↦ rw bad (record { stored = (gap.stored _ (record { stored = h.stored })).stored })
  | inr good ↦ elim (Option-cases (find (has_file_id f) w.db.tables.files)) [
    | inl absent ↦
        rw (good, absent)
          (dropped f _ (gap.stored _ (record { stored = h.stored }))
            (gap.no_row _ (none-exists (has_file_id f) w.db.tables.files absent)))
    | inr (file, there) ↦
        rw (good, there) (record { stored = (gap.stored _ (record { stored = h.stored })).stored })
  ]
]

remove_session_files-AllStored :
    (others : String → World → World)
    → Gaps others
    → (s : UploadSession) → Keeps AllStored (remove_session_files others s)
unfolding remove_session_files if_unknown
remove_session_files-AllStored others gaps s =
    Keeps-bind _ _ (Keeps-logged _ _ (AllStored-on_disk _ (delete_chunks-KeepsBlobs _))) (λ u.
      Keeps-bind _ _ (AllStored-on_disk _ (file_exists-KeepsBlobs _)) (λ there.
        Keeps-if (not there) _ _ (λ e. Keeps-pure _)
          (λ e. record {
            at = if_unknown-AllStored (others s.file_id) s.file_id (gaps s.file_id);
          })))

remove_all-AllStored :
    (others : String → World → World)
    → Gaps others
    → (ss : List UploadSession) → Keeps AllStored (remove_all others ss)
unfolding remove_all
remove_all-AllStored others gaps [] = Keeps-pure _
remove_all-AllStored others gaps (s ∷ ss) =
    Keeps-bind _ _ (remove_session_files-AllStored others gaps s)
      (λ u. remove_all-AllStored others gaps ss)

pub cleanup-AllStored :
    (others : String → World → World)
    → Gaps others
    → (rounds : ℕ) (now : Time) (locked : String → Bool)
    → Keeps AllStored (cleanup_expired_sessions others rounds now locked)
unfolding cleanup_expired_sessions
cleanup-AllStored others gaps zero now locked = Keeps-pure _
cleanup-AllStored others gaps (suc rounds) now locked =
    Keeps-bind _ _ (Keeps-try _ (AllStored-on_db _ (λ id. NewFiles.take_expired-AddsNone id _ _ _)))
      (λ r.
        Keeps-handle _ _ _
          (λ taken. Keeps-bind _ _ (remove_all-AllStored others gaps taken) (λ u.
            Keeps-if (ltb (length taken) 100) _ _ (λ e. Keeps-pure _)
              (λ e. cleanup-AllStored others gaps rounds now locked)))
          (λ e. Keeps-pure _))

pub cancel-AllStored :
    (others : String → World → World)
    → Gaps others
    → (now : Time) (k : String) → Keeps AllStored (cancel_upload others now k)
unfolding cancel_upload
cancel-AllStored others gaps now k =
    Keeps-bind _ _
      (Keeps-try _ (AllStored-on_db _ (λ id. NewFiles.get_upload_session-AddsNone id _ _)))
      (λ r.
        Keeps-handle _ _ _
          (λ s.
            Keeps-if (s.state == finalized) _ _ (λ e. Keeps-pure _)
              (λ e.
                Keeps-bind _ _
                  (AllStored-on_db _ (λ id. NewFiles.delete_upload_session-AddsNone id _))
                  (λ u. remove_session_files-AllStored others gaps s)))
          (λ e.
            Keeps-if (is_session_not_found e) _ _
              (λ c. AllStored-on_disk _ (delete_chunks-KeepsBlobs _)) (λ c. Keeps-raise _)))
