-- ===== src/Cleanup/Race.antt =====
-- internal/services/cleanup.go: an upload that begins after the sessions were read.
use sendly.Common.{
  ℕ, String, true, false, ◌≡◌, refl, ap, ◌∙◌, sym, inl, inr, List, [], ◌∷◌, ◌==◌, string_eq, ==→eq,
  map, find, exists, delete, arith, Bool-cases, Option-cases, Result, ok, err, pure, try, or_raise,
  modify, continue, subst, ◌+◌, ◌>>=◌, statement, query,
}
use sendly.Common.Keeps.{Keeps, Keeps-bind, Keeps-pure}
use sendly.Common.Inversion.{bind_state}
use sendly.Common.Keyed.{find-none, exists-delete}
use sendly.Models.{File, Error}
use sendly.Uploads.Session.{UploadSession}
use sendly.Uploads.Store.{upload_session_refs}
use sendly.Uploads.Disk.{Blob, is_blob, delete_file}
use sendly.Uploads.Stored.{has_blob}
use sendly.Uploads.Serve.{World, Serve, on_db, on_disk, get_file_for_admin}
use sendly.Cleanup.Service.{
  is_active, is_not_found, delete_unknown, delete_orphan, delete_orphaned_files, get_all_file_ids,
  cleanup_orphaned_files,
}
use sendly.Cleanup.Blobs.{has_session_for, has_row}

-- Nothing fails, and the file has no record.
pub record Unknown (id : String) (w : World) : Type 0 where
  pub db : w.db.faults ≡ []
  pub disk : w.disk.faults ≡ []
  pub row : has_row id w ≡ false

module _ (id : String) (sessions : List String) where
  -- Nothing else happens between a lookup and a deletion.
  abbrev quiet : String → World → World
  quiet k w = w

  gone_from : (k : String) (bs : List Blob) → exists (is_blob k) (delete (is_blob k) bs) ≡ false
  gone_from k [] = refl
  gone_from k (b ∷ bs) = ground (arith, gone_from k bs)

  orphan-Unknown :
      (k : String) (w : World) → Unknown id w → Unknown id (delete_orphan quiet sessions k w).1
  unfolding delete_orphan delete_unknown on_db on_disk delete_file get_file_for_admin try query
      statement or_raise modify pure ◌>>=◌
  orphan-Unknown k w u = elim (Option-cases (find (λ (f : File). f.id == k) w.db.tables.files)) [
    | inl absent ↦ record {
      db = ground (arith, u.db, u.disk, absent);
      disk = ground (arith, u.db, u.disk, absent);
      row = ground (arith, u.db, u.disk, u.row, absent);
    }
    | inr (f, there) ↦ record {
      db = ground (arith, u.db, u.disk, there);
      disk = ground (arith, u.db, u.disk, there);
      row = ground (arith, u.db, u.disk, u.row, there);
    }
  ]

  orphan-Gone :
      (k : String) (w : World)
      → has_blob id w.disk.tables ≡ false
      → has_blob id (delete_orphan quiet sessions k w).1.disk.tables ≡ false
  unfolding delete_orphan delete_unknown on_db on_disk delete_file get_file_for_admin try query
      statement or_raise modify pure ◌>>=◌
  orphan-Gone k w h = ground (
    arith,
    h,
    exists-delete (is_blob id) (is_blob k) w.disk.tables.blobs h,
    find (λ (f : File). f.id == k) w.db.tables.files,
  )

  own-Gone :
      (w : World)
      → Unknown id w
      → is_active sessions id ≡ false
      → has_blob id (delete_orphan quiet sessions id w).1.disk.tables ≡ false
  unfolding delete_orphan delete_unknown on_db on_disk delete_file get_file_for_admin try query
      statement or_raise modify pure ◌>>=◌
  own-Gone w u alone = ground (
    arith,
    u.db,
    u.disk,
    alone,
    find-none (λ (f : File). f.id == id) w.db.tables.files u.row,
    gone_from id w.disk.tables.blobs,
  )

  abbrev Gone : World → Type 0
  Gone w = has_blob id w.disk.tables ≡ false

  orphans-Gone : (ids : List String) → Keeps Gone (delete_orphaned_files quiet sessions ids)
  unfolding delete_orphaned_files
  orphans-Gone [] = Keeps-pure _
  orphans-Gone (k ∷ ks) =
      Keeps-bind _ _ (record { at = λ w h. orphan-Gone k w h })
        (λ n. Keeps-bind _ _ (orphans-Gone ks) (λ m. Keeps-pure _))

  orphan-ok : (k : String) (w : World) → (n : ℕ) × ((delete_orphan quiet sessions k w).0 ≡ ok n)
  unfolding delete_orphan delete_unknown try modify pure ◌>>=◌
  orphan-ok k w = elim (Bool-cases (is_active sessions k)) [
    | inl kept ↦ rw kept (0, refl)
    | inr alone ↦
        rw alone (asked ((on_db (get_file_for_admin k) w).0) ((on_db (get_file_for_admin k) w).1))
  ]
    where
      asked : (r : Result Error File) (v : World) → (n : ℕ) × ((delete_unknown k r v).0 ≡ ok n)
      asked (ok f) v = (0, refl)
      asked (err e) v = elim (Bool-cases (is_not_found e)) [
        | inl gone ↦ rw gone (_, refl)
        | inr other ↦ rw other (0, refl)
      ]

  -- What is done behind the first blob.
  abbrev rest : List String → ℕ → Serve ℕ
  rest ks n = delete_orphaned_files quiet sessions ks >>= λ m. pure (n + m)

  rest-Gone : (ks : List String) (n : ℕ) → Keeps Gone (rest ks n)
  rest-Gone ks n = Keeps-bind _ _ (orphans-Gone ks) (λ m. Keeps-pure _)

  rest_state :
      (ks : List String) (n : ℕ) (w : World)
      → has_blob id (rest ks n w).1.disk.tables
        ≡ has_blob id (delete_orphaned_files quiet sessions ks w).1.disk.tables
  unfolding pure ◌>>=◌
  rest_state ks n w = rested (delete_orphaned_files quiet sessions ks w)
    where
      rested :
          (x : Result Error ℕ × World)
          → has_blob id (continue x.0 (λ m. pure (n + m)) x.1).1.disk.tables
            ≡ has_blob id x.1.disk.tables
      rested (ok m, v) = refl
      rested (err e, v) = refl

  reached-Gone :
      (ids : List String) (w : World)
      → Unknown id w
      → is_active sessions id ≡ false
      → is_active ids id ≡ true
      → has_blob id (delete_orphaned_files quiet sessions ids w).1.disk.tables ≡ false
  unfolding delete_orphaned_files
  reached-Gone [] w u alone listed = cc
  reached-Gone (k ∷ ks) w u alone listed =
      let (n, done) = orphan-ok k w in
      let after =
        ap (λ (x : Result Error ℕ × World). x.1)
          (bind_state (delete_orphan quiet sessions k) (rest ks) w n done) in
      elim (Bool-cases (k == id)) [
        | inl same ↦
            ap (λ (v : World). has_blob id v.disk.tables) after
            ∙ (rest-Gone ks n).at (delete_orphan quiet sessions k w).1 (
                subst (λ j. has_blob id (delete_orphan quiet sessions j w).1.disk.tables ≡ false)
                  (sym (==→eq k id same)) (own-Gone w u alone))
        | inr other ↦
            ap (λ (v : World). has_blob id v.disk.tables) after
            ∙ rest_state ks n (delete_orphan quiet sessions k w).1
            ∙ reached-Gone ks (delete_orphan quiet sessions k w).1 (orphan-Unknown k w u) alone
                (rw other at listed)
      ]

listed_blob :
    (id : String) (bs : List Blob)
    → exists (is_blob id) bs ≡ true
    → is_active (map (λ (b : Blob). b.file_id) bs) id ≡ true
listed_blob id [] h = cc
listed_blob id (b ∷ bs) h = ground (arith, listed_blob id bs)

inactive_refs :
    (id : String) (ss : List UploadSession)
    → exists (λ (s : UploadSession). s.file_id == id) ss ≡ false
    → is_active (map (λ (s : UploadSession). s.file_id) ss) id ≡ false
inactive_refs id [] h = refl
inactive_refs id (s ∷ ss) h = ground (arith, inactive_refs id ss)

-- A blob that is young is not spared: an upload that began on another replica after the sessions were
-- read, and whose blob was assembled before the directory was, loses its blob though it has its
-- session and is only waiting for finalize.
pub cleanup_orphaned_files-late :
    (elsewhere : World → World) (id : String) (w : World)
    → w.db.faults ≡ []
    → has_session_for id w ≡ false
    → Unknown id (elsewhere w)
    → has_session_for id (elsewhere w) ≡ true
    → has_blob id (elsewhere w).disk.tables ≡ true
    → has_blob id (cleanup_orphaned_files elsewhere (λ k v. v) w).1.disk.tables ≡ false
unfolding cleanup_orphaned_files get_all_file_ids upload_session_refs on_db on_disk modify query
    statement ◌>>=◌
cleanup_orphaned_files-late elsewhere id w clean before u after blob = ground (
  arith,
  clean,
  u.disk,
  reached-Gone id (map (λ (s : UploadSession). s.file_id) w.db.tables.sessions)
      (map (λ (b : Blob). b.file_id) (elsewhere w).disk.tables.blobs) (elsewhere w) u
      (inactive_refs id w.db.tables.sessions before)
      (listed_blob id (elsewhere w).disk.tables.blobs blob),
)
