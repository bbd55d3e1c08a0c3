-- ===== src/Cleanup/Blobs.antt =====
-- internal/services/cleanup.go: the blobs that the search for orphans leaves.
use sendly.Common.{
  String, Bool, true, false, not, ◌≡◌, ◌⊎◌, inl, inr, List, [], ◌∷◌, ◌==◌, string_eq, ==→eq, map,
  find, exists, arith, Bool-cases, Option-cases, Result, ok, err, pure, try, or_raise, modify,
  ◌>>=◌, is_faulty, later, statement, query,
}
use sendly.Common.Keeps.{Keeps, Keeps-bind, Keeps-pure, Keeps-try, Keeps-if, Keeps-modify}
use sendly.Common.Keyed.{none-exists}
use sendly.Models.{File, Error}
use sendly.Uploads.Session.{UploadSession}
use sendly.Uploads.Store.{upload_session_refs}
use sendly.Uploads.Disk.{delete_file}
use sendly.Uploads.Files.{has_file_id}
use sendly.Uploads.Stored.{has_blob, kept_blob}
use sendly.Uploads.Serve.{World, on_db, on_disk, get_file_for_admin}
use sendly.Cleanup.Service.{
  is_active, is_not_found, delete_unknown, delete_orphan, delete_orphaned_files, get_all_file_ids,
  cleanup_orphaned_files,
}

abbrev pub has_session_for : String → World → Bool
has_session_for id w = exists (λ (s : UploadSession). s.file_id == id) w.db.tables.sessions

abbrev pub has_row : String → World → Bool
has_row id w = exists (has_file_id id) w.db.tables.files

-- The blob, and the row where it is the row that keeps the blob.
record Held (id : String) (by_row : Bool) (w : World) : Type 0 where
  blob : has_blob id w.disk.tables ≡ true
  row : by_row ≡ true → has_row id w ≡ true

-- The world after one statement of the database that only reads.
abbrev pub looked_up : World → World
looked_up w = record w { db = record { faults = later w.db.faults; tables = w.db.tables } }

module _ (id : String) (by_row : Bool) (others : String → World → World)
    (quiet : (k : String) (w : World) → Held id by_row w → Held id by_row (others k w)) where
  deleted-Held : (k : String) → (k == id) ≡ false → Keeps (Held id by_row) (on_disk (delete_file k))
  unfolding on_disk delete_file statement
  deleted-Held k other = record {
    at = λ w h. elim (Bool-cases (is_faulty w.disk.faults)) [
      | inl bad ↦ rw bad (record { blob = h.blob; row = h.row })
      | inr good ↦
          rw good (record { blob = kept_blob id k w.disk.tables.blobs other h.blob; row = h.row })
    ];
  }

  asked-Held : (k : String) → Keeps (Held id by_row) (on_db (get_file_for_admin k))
  unfolding on_db get_file_for_admin query statement or_raise ◌>>=◌
  asked-Held k = record {
    at = λ w h. elim (Bool-cases (is_faulty w.db.faults)) [
      | inl bad ↦ rw bad (record { blob = h.blob; row = h.row })
      | inr good ↦ elim (Option-cases (find (has_file_id k) w.db.tables.files)) [
        | inl absent ↦ rw (good, absent) (record { blob = h.blob; row = h.row })
        | inr (f, there) ↦ rw (good, there) (record { blob = h.blob; row = h.row })
      ]
    ];
  }

  unknown-Held :
      (k : String) (r : Result Error File)
      → (k == id) ≡ false
      → Keeps (Held id by_row) (delete_unknown k r)
  unfolding delete_unknown
  unknown-Held k (ok f) other = Keeps-pure _
  unknown-Held k (err e) other =
      Keeps-if (not (is_not_found e)) _ _ (λ c. Keeps-pure _)
        (λ c. Keeps-bind _ _ (Keeps-try _ (deleted-Held k other)) (λ r. Keeps-pure _))

  -- After a lookup that changes nothing but the list of failures, and what others do.
  rested : (w : World) → Held id by_row w → Held id by_row (others id (looked_up w))
  rested w h = quiet id _ (record { blob = h.blob; row = h.row })

  -- The blob's own turn: a session keeps it, or its row does.
  own_turn :
      (sessions : List String) (w : World)
      → (by_row ≡ false → is_active sessions id ≡ true)
      → Held id by_row w
      → Held id by_row (delete_orphan others sessions id w).1
  unfolding delete_orphan delete_unknown on_db get_file_for_admin try query statement or_raise
      modify pure ◌>>=◌
  own_turn sessions w active h = elim (Bool-cases (is_active sessions id)) [
    | inl kept ↦ rw kept (record { blob = h.blob; row = h.row })
    | inr alone ↦ elim (Bool-cases by_row) [
      | inl row ↦ elim (Bool-cases (is_faulty w.db.faults)) [
        | inl bad ↦ rw (alone, bad) (rested w h)
        | inr good ↦ elim (Option-cases (find (has_file_id id) w.db.tables.files)) [
          | inl absent ↦ absurd (
              let gone = none-exists (has_file_id id) w.db.tables.files absent in
              let there = h.row row in cc)
          | inr (f, there) ↦ rw (alone, good, there) (rested w h)
        ]
      ]
      | inr session ↦ absurd (let a = active session in cc)
    ]
  ]

  orphan-Held :
      (sessions : List String) (k : String)
      → (by_row ≡ false → is_active sessions id ≡ true)
      → Keeps (Held id by_row) (delete_orphan others sessions k)
  unfolding delete_orphan
  orphan-Held sessions k active = elim (Bool-cases (k == id)) [
    | inl same ↦ rw (==→eq k id same) (record { at = λ w h. own_turn sessions w active h })
    | inr other ↦
        Keeps-if (is_active sessions k) _ _ (λ c. Keeps-pure _)
          (λ c.
            Keeps-bind _ _ (Keeps-try _ (asked-Held k))
              (λ r. Keeps-bind _ _ (Keeps-modify _ (quiet k)) (λ u. unknown-Held k r other)))
  ]

  orphans-Held :
      (sessions ids : List String)
      → (by_row ≡ false → is_active sessions id ≡ true)
      → Keeps (Held id by_row) (delete_orphaned_files others sessions ids)
  unfolding delete_orphaned_files
  orphans-Held sessions [] active = Keeps-pure _
  orphans-Held sessions (k ∷ ks) active =
      Keeps-bind _ _ (orphan-Held sessions k active)
        (λ n. Keeps-bind _ _ (orphans-Held sessions ks active) (λ m. Keeps-pure _))

  listed-Held : Keeps (Held id by_row) (on_disk get_all_file_ids)
  unfolding on_disk get_all_file_ids query statement
  listed-Held = record {
    at = λ w h. elim (Bool-cases (is_faulty w.disk.faults)) [
      | inl bad ↦ rw bad (record { blob = h.blob; row = h.row })
      | inr good ↦ rw good (record { blob = h.blob; row = h.row })
    ];
  }

  rest-Held :
      (elsewhere : World → World) (sessions : List String)
      → ((w : World) → Held id by_row w → Held id by_row (elsewhere w))
      → (by_row ≡ false → is_active sessions id ≡ true)
      → Keeps (Held id by_row) (
          modify elsewhere >>= λ u.
          on_disk get_all_file_ids >>= λ ids. delete_orphaned_files others sessions ids)
  rest-Held elsewhere sessions kept active =
      Keeps-bind _ _ (Keeps-modify _ kept)
        (λ u. Keeps-bind _ _ listed-Held (λ ids. orphans-Held sessions ids active))

active_refs :
    (id : String) (ss : List UploadSession)
    → exists (λ (s : UploadSession). s.file_id == id) ss ≡ true
    → is_active (map (λ (s : UploadSession). s.file_id) ss) id ≡ true
active_refs id [] h = cc
active_refs id (s ∷ ss) h = ground (arith, active_refs id ss)

-- The blob of an upload session, or of a file record, is no orphan: if it has one of them when the
-- search begins, and the other replicas meanwhile take neither the blob nor the record away, neither
-- before the blobs are listed nor between a lookup and a deletion, then it is still there at the end,
-- whichever statements and system calls fail.
pub cleanup_orphaned_files-keeps :
    (elsewhere : World → World) (others : String → World → World) (id : String) (w : World)
    → (has_session_for id w ≡ true) ⊎ (has_row id w ≡ true)
    → ((v : World)
        → has_blob id v.disk.tables ≡ true
        → has_blob id (elsewhere v).disk.tables ≡ true)
    → ((v : World) → has_row id v ≡ true → has_row id (elsewhere v) ≡ true)
    → ((k : String) (v : World)
        → has_blob id v.disk.tables ≡ true
        → has_blob id (others k v).disk.tables ≡ true)
    → ((k : String) (v : World) → has_row id v ≡ true → has_row id (others k v) ≡ true)
    → has_blob id w.disk.tables ≡ true
    → has_blob id (cleanup_orphaned_files elsewhere others w).1.disk.tables ≡ true
unfolding cleanup_orphaned_files upload_session_refs on_db query statement ◌>>=◌
cleanup_orphaned_files-keeps elsewhere others id w (inl session) blobs rows blobs' rows' there =
    elim (Bool-cases (is_faulty w.db.faults)) [
      | inl bad ↦ rw bad there
      | inr good ↦
          rw good
            ((rest-Held id false others
                (λ k v h. record { blob = blobs' k v h.blob; row = λ e. absurd (cc) }) elsewhere _
                (λ v h. record { blob = blobs v h.blob; row = λ e. absurd (cc) })
                (λ e. active_refs id w.db.tables.sessions session)).at
              _ (record { blob = there; row = λ e. absurd (cc) })).blob
    ]
cleanup_orphaned_files-keeps elsewhere others id w (inr row) blobs rows blobs' rows' there =
    elim (Bool-cases (is_faulty w.db.faults)) [
      | inl bad ↦ rw bad there
      | inr good ↦
          rw good
            ((rest-Held id true others
                (λ k v h. record { blob = blobs' k v h.blob; row = λ e. rows' k v (h.row e) })
                elsewhere _ (λ v h. record { blob = blobs v h.blob; row = λ e. rows v (h.row e) })
                (λ e. absurd (cc))).at
              _ (record { blob = there; row = λ e. row })).blob
    ]
