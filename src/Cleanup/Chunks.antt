-- ===== src/Cleanup/Chunks.antt =====
-- internal/services/cleanup.go, internal/storage/filesystem.go: the chunks that the search for orphans
-- leaves.
use sendly.Common.{
  String, true, false, ◌||◌, ◌≡◌, refl, ◌∙◌, inl, inr, Option, List, [], ◌∷◌, ◌==◌, string_eq,
  ==→eq, map, select, delete, exists, arith, Bool-cases, ◌>>=◌, statement, query, is_faulty,
}
use sendly.Common.Keeps.{
  Keeps, OnTables, Keeps-bind, Keeps-pure, Keeps-try, Keeps-if, Keeps-query, Keeps-statement,
}
use sendly.Models.{Time}
use sendly.Uploads.Session.{UploadSession}
use sendly.Uploads.Store.{has_id, upload_session_refs}
use sendly.Uploads.Disk.{StoredChunk, Volume, delete_chunks}
use sendly.Uploads.Serve.{World, on_db, on_disk}
use sendly.Cleanup.Service.{
  is_active, is_young, delete_orphaned_chunks, get_all_session_ids, cleanup_old_chunks,
  cleanup_orphaned_chunks,
}

module _ (k : String) where
  abbrev pub chunks_of : Volume → List StoredChunk
  chunks_of v = select (λ (c : StoredChunk). c.session_id == k) v.chunks

  others_deleted :
      (j : String) (cs : List StoredChunk)
      → (j == k) ≡ false
      → select
          (λ (c : StoredChunk). c.session_id == k)
          (delete (λ (c : StoredChunk). c.session_id == j) cs)
        ≡ select (λ (c : StoredChunk). c.session_id == k) cs
  others_deleted j [] other = refl
  others_deleted j (c ∷ cs) other = ground (
    arith,
    string_eq.reflects c.session_id k,
    string_eq.reflects c.session_id j,
    string_eq.reflects j k,
    string_eq.reflects j j,
    others_deleted j cs other,
  )

  loop-keeps :
      (now : Time) (touched : String → Option Time) (active ks : List String)
      (cs : List StoredChunk)
      → (is_active active k || is_young now touched k) ≡ true
      → Keeps (OnTables (λ v. chunks_of v ≡ cs)) (delete_orphaned_chunks now touched active ks)
  unfolding delete_orphaned_chunks delete_chunks
  loop-keeps now touched active [] cs spared = Keeps-pure _
  loop-keeps now touched active (j ∷ js) cs spared =
      Keeps-bind _ _
        (Keeps-if (is_active active j || is_young now touched j) _ _ (λ c. Keeps-pure _)
          (λ old.
            Keeps-bind _ _
              (Keeps-try _ (Keeps-statement _ _ (λ v h. others_deleted j v.chunks (other old) ∙ h)))
              (λ r. Keeps-pure _)))
        (λ n. Keeps-bind _ _ (loop-keeps now touched active js cs spared) (λ m. Keeps-pure _))
    where
      other : (is_active active j || is_young now touched j) ≡ false → (j == k) ≡ false
      other old = elim (Bool-cases (j == k)) [
        | inl same ↦ absurd (let old' = rw (==→eq j k same) at old in cc)
        | inr ne ↦ ne
      ]

  searched-keeps :
      (now : Time) (touched : String → Option Time) (active : List String) (cs : List StoredChunk)
      → (is_active active k || is_young now touched k) ≡ true
      → Keeps (OnTables (λ v. chunks_of v ≡ cs)) (cleanup_old_chunks now touched active)
  unfolding cleanup_old_chunks get_all_session_ids
  searched-keeps now touched active cs spared =
      Keeps-bind _ _ (Keeps-query _ _) (λ ids. loop-keeps now touched active ids cs spared)

active_sessions :
    (k : String) (ss : List UploadSession)
    → exists (has_id k) ss ≡ true
    → is_active (map (λ (s : UploadSession). s.session_id) ss) k ≡ true
active_sessions k [] h = cc
active_sessions k (s ∷ ss) h = ground (arith, active_sessions k ss)

-- The chunks of a session that the database has are no orphans, nor are those of a directory that was
-- touched in the last fifteen minutes: a search for orphans leaves them as they are.
pub cleanup_orphaned_chunks-keeps :
    (now : Time) (touched : String → Option Time) (k : String) (w : World)
    → (exists (has_id k) w.db.tables.sessions || is_young now touched k) ≡ true
    → chunks_of k (cleanup_orphaned_chunks now touched w).1.disk.tables ≡ chunks_of k w.disk.tables
unfolding cleanup_orphaned_chunks upload_session_refs on_db on_disk query statement ◌>>=◌
cleanup_orphaned_chunks-keeps now touched k w spared = elim (Bool-cases (is_faulty w.db.faults)) [
  | inl bad ↦ rw bad refl
  | inr good ↦
      rw good
        ((searched-keeps k now touched
            (map (λ (s : UploadSession). s.session_id) w.db.tables.sessions)
            (chunks_of k w.disk.tables) by_either).at
          w.disk (record { on = refl })).on
]
  where
    by_either :
        (is_active (map (λ (s : UploadSession). s.session_id) w.db.tables.sessions) k
          || is_young now touched k)
        ≡ true
    by_either = ground (arith, active_sessions k w.db.tables.sessions)
