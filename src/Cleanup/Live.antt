-- ===== src/Cleanup/Live.antt =====
-- internal/services/cleanup.go: files that are not deleted, and their blobs.
use sendly.Common.{
  String, Bool, true, false, not, ◌||◌, ◌&&◌, ◌≡◌, refl, ap, ◌∙◌, sym, inl, inr, Option, some, List,
  [], ◌∷◌, ◌==◌, string_eq, ==→eq, select, find, exists, update, arith, Bool-cases, Option-cases,
  Result, ok, err, pure, try, or_raise, modify, handle, ◌>>=◌, is_faulty, statement, query,
}
use sendly.Common.Keeps.{
  Keeps, OnTables, Keeps-bind, Keeps-pure, Keeps-try, Keeps-if, Keeps-query, Keeps-modify,
  Keeps-handle, Keeps-statement,
}
use sendly.Common.KeepsInto.{Keeps-bind_with}
use sendly.Common.Inversion.{bind_ok}
use sendly.Common.Keyed.{none-exists, exists-select, exists-within, Distinct, Distinct-update}
use sendly.Models.{Time, File, Error}
use sendly.Uploads.Disk.{Os, delete_file, file_exists}
use sendly.Uploads.Store.{upload_session_refs}
use sendly.Uploads.Files.{has_file_id}
use sendly.Cleanup.Blobs.{looked_up}
use sendly.Uploads.Stored.{has_blob, kept_blob, Keeps-logged, delete_chunks-KeepsBlobs}
use sendly.Uploads.Serve.{World, Serve, ⊤, on_db, on_disk, get_file_for_admin}
use sendly.Cleanup.Service.{
  is_past, delete_expired_files, get_deleted_files, with_blobs, list_deleted_files, delete_deleted,
  delete_blobs, is_active, is_young, is_not_found, delete_unknown, delete_orphan,
  delete_orphaned_files, delete_orphaned_chunks, cleanup_old_chunks, cleanup_orphaned_chunks,
  get_all_session_ids, get_all_file_ids, cleanup_orphaned_files, perform_cleanup,
}

abbrev pub is_kept : String → File → Bool
is_kept id f = f.id == id && not f.is_deleted

-- A file that is not deleted has its blob; identifiers are keys.
pub record Live (id : String) (w : World) : Type 0 where
  pub blob : exists (is_kept id) w.db.tables.files ≡ true → has_blob id w.disk.tables ≡ true
  pub keys : Distinct File.id w.db.tables.files

module _ (id : String) where
  live_before :
      (now : Time) (fs : List File)
      → exists
          (is_kept id)
          (update (is_past now) (λ f. record f { is_deleted = true; deleted_at = some now }) fs)
        ≡ true
      → exists (is_kept id) fs ≡ true
  live_before now [] h = h
  live_before now (f ∷ fs) h = ground (arith, live_before now fs)

  expired-Live : (now : Time) → Keeps (Live id) (on_db (delete_expired_files now))
  unfolding on_db delete_expired_files statement
  expired-Live now = record {
    at = λ w h. elim (Bool-cases (is_faulty w.db.faults)) [
      | inl bad ↦ rw bad (record { blob = h.blob; keys = h.keys })
      | inr good ↦ rw good (record {
        blob = λ e. h.blob (live_before now w.db.tables.files e);
        keys = Distinct-update File.id (is_past now) _ w.db.tables.files (λ f. refl) h.keys;
      })
    ];
  }

  -- While the file is not deleted, no deleted file has its identifier.
  apart_deleted :
      (fs : List File)
      → Distinct File.id fs
      → exists (is_kept id) fs ≡ true
      → exists (λ (f : File). f.id == id) (select File.is_deleted fs) ≡ false
  apart_deleted [] d h = refl
  apart_deleted (f ∷ fs) d h = elim (Bool-cases (f.id == id)) [
    | inl hit ↦
        let alone = ap (λ k. exists (λ (x : File). x.id == k) fs) (sym (==→eq f.id id hit)) ∙ d.0 in
        ground (
          arith,
          hit,
          exists-select (λ (x : File). x.id == id) File.is_deleted fs alone,
          exists-within (λ (x : File). x.id == id) (is_kept id) fs (λ x e. ground arith) alone,
        )
    | inr miss ↦ ground (arith, miss, apart_deleted fs d.1)
  ]

  -- The list of deleted blobs, while the file is not deleted.
  record Fixed (w : World) : Type 0 where
    live : exists (is_kept id) w.db.tables.files ≡ true
    blob : has_blob id w.disk.tables ≡ true
    keys : Distinct File.id w.db.tables.files

  Apart : List File → Type 0
  Apart fs = exists (λ (f : File). f.id == id) fs ≡ false

  read-Fixed : Keeps Fixed (on_db get_deleted_files)
  unfolding on_db get_deleted_files query statement
  read-Fixed = record {
    at = λ w h. elim (Bool-cases (is_faulty w.db.faults)) [
      | inl bad ↦ rw bad (record { live = h.live; blob = h.blob; keys = h.keys })
      | inr good ↦ rw good (record { live = h.live; blob = h.blob; keys = h.keys })
    ];
  }

  read-Apart :
      (w : World) (fs : List File) → Fixed w → (on_db get_deleted_files w).0 ≡ ok fs → Apart fs
  unfolding on_db get_deleted_files query statement Apart
  read-Apart w fs h read = ground (arith, apart_deleted w.db.tables.files h.keys h.live)

  looked-Fixed : (k : String) → Keeps Fixed (on_disk (file_exists k))
  unfolding on_disk file_exists try pure query statement ◌>>=◌
  looked-Fixed k = record {
    at = λ w h. elim (Bool-cases (is_faulty w.disk.faults)) [
      | inl bad ↦ rw bad (record { live = h.live; blob = h.blob; keys = h.keys })
      | inr good ↦ rw good (record { live = h.live; blob = h.blob; keys = h.keys })
    ];
  }

  with_blobs-Fixed : (fs : List File) → Keeps Fixed (with_blobs fs)
  unfolding with_blobs
  with_blobs-Fixed [] = Keeps-pure _
  with_blobs-Fixed (f ∷ fs) =
      Keeps-bind _ _ (looked-Fixed f.id)
        (λ b. Keeps-bind _ _ (with_blobs-Fixed fs) (λ ids. Keeps-pure _))

  with_blobs-only :
      (fs : List File) (w : World) (ids : List String)
      → Apart fs
      → (with_blobs fs w).0 ≡ ok ids
      → is_active ids id ≡ false
  unfolding with_blobs Apart pure
  with_blobs-only [] w ids h done = ground arith
  with_blobs-only (f ∷ fs) w ids h done =
      let (there, a, rest) = bind_ok (on_disk (file_exists f.id)) _ w done in
      let (more, b, last) = bind_ok (with_blobs fs) _ _ rest in
      ground (arith, with_blobs-only fs _ more (ground arith) b, last)

  deleted-Fixed : (k : String) → (k == id) ≡ false → Keeps Fixed (on_disk (delete_file k))
  unfolding on_disk delete_file statement
  deleted-Fixed k other = record {
    at = λ w h. elim (Bool-cases (is_faulty w.disk.faults)) [
      | inl bad ↦ rw bad (record { live = h.live; blob = h.blob; keys = h.keys })
      | inr good ↦ rw good (record {
        live = h.live;
        blob = kept_blob id k w.disk.tables.blobs other h.blob;
        keys = h.keys;
      })
    ];
  }

  delete_blobs-Fixed :
      (ids : List String) → is_active ids id ≡ false → Keeps Fixed (delete_blobs ids)
  unfolding delete_blobs
  delete_blobs-Fixed [] h = Keeps-pure _
  delete_blobs-Fixed (k ∷ ks) h =
      Keeps-bind _ _ (Keeps-logged _ _ (deleted-Fixed k (ground arith)))
        (λ u. delete_blobs-Fixed ks (ground arith))

  Listed : Result Error (List String) → Type 0
  Listed (ok ids) = is_active ids id ≡ false
  Listed (err e) = Unit

  listed_lem :
      (w : World) (r : Result Error (List String))
      → Fixed w
      → (try list_deleted_files w).0 ≡ ok r
      → Listed r
  unfolding try list_deleted_files Listed
  listed_lem w (ok ids) h done =
      let inner : (list_deleted_files w).0 ≡ ok ids = cc in
      let (fs, read, rest) = bind_ok (on_db get_deleted_files) with_blobs w inner in
      with_blobs-only fs _ ids (read-Apart w fs h read) rest
  listed_lem w (err e) h done = tt

  list-Fixed : Keeps Fixed list_deleted_files
  unfolding list_deleted_files
  list-Fixed = Keeps-bind _ _ read-Fixed with_blobs-Fixed

  handled-Fixed :
      (r : Result Error (List String))
      → Listed r
      → Keeps Fixed (handle r delete_blobs (λ e. pure tt))
  unfolding Listed handle
  handled-Fixed (ok ids) h = delete_blobs-Fixed ids h
  handled-Fixed (err e) h = Keeps-pure tt

  deleted_blobs-Fixed : Keeps Fixed delete_deleted
  unfolding delete_deleted
  deleted_blobs-Fixed =
      Keeps-bind_with {Φ = Listed} _ _ (Keeps-try _ list-Fixed) (λ w r h e. listed_lem w r h e)
        handled-Fixed

  -- The file is deleted, or there is none.
  record Dead (w : World) : Type 0 where
    dead : exists (is_kept id) w.db.tables.files ≡ false
    keys : Distinct File.id w.db.tables.files

  on_disk-Dead : {A : Type 0} (m : Os A) → Keeps Dead (on_disk m)
  unfolding on_disk
  on_disk-Dead m = record { at = λ w h. record { dead = h.dead; keys = h.keys } }

  read-Dead : Keeps Dead (on_db get_deleted_files)
  unfolding on_db get_deleted_files query statement
  read-Dead = record {
    at = λ w h. elim (Bool-cases (is_faulty w.db.faults)) [
      | inl bad ↦ rw bad (record { dead = h.dead; keys = h.keys })
      | inr good ↦ rw good (record { dead = h.dead; keys = h.keys })
    ];
  }

  with_blobs-Dead : (fs : List File) → Keeps Dead (with_blobs fs)
  unfolding with_blobs
  with_blobs-Dead [] = Keeps-pure _
  with_blobs-Dead (f ∷ fs) =
      Keeps-bind _ _ (on_disk-Dead _)
        (λ b. Keeps-bind _ _ (with_blobs-Dead fs) (λ ids. Keeps-pure _))

  delete_blobs-Dead : (ids : List String) → Keeps Dead (delete_blobs ids)
  unfolding delete_blobs
  delete_blobs-Dead [] = Keeps-pure _
  delete_blobs-Dead (k ∷ ks) =
      Keeps-bind _ _ (Keeps-logged _ _ (on_disk-Dead _)) (λ u. delete_blobs-Dead ks)

  deleted_blobs-Dead : Keeps Dead delete_deleted
  unfolding delete_deleted list_deleted_files
  deleted_blobs-Dead =
      Keeps-bind _ _ (Keeps-try _ (Keeps-bind _ _ read-Dead with_blobs-Dead))
        (λ r. Keeps-handle r _ _ delete_blobs-Dead (λ e. Keeps-pure _))

  deleted_blobs-Live : Keeps (Live id) delete_deleted
  deleted_blobs-Live = record {
    at = λ w h. elim (Bool-cases (exists (is_kept id) w.db.tables.files)) [
      | inl live ↦
          let f =
            deleted_blobs-Fixed.at w (record { live = live; blob = h.blob live; keys = h.keys }) in
          record { blob = λ e. f.blob; keys = f.keys }
      | inr dead ↦
          let f = deleted_blobs-Dead.at w (record { dead = dead; keys = h.keys }) in
          record { blob = λ e. absurd (let no_live = f.dead in cc); keys = f.keys }
    ];
  }

  on_disk-Live :
      {A : Type 0} (m : Os A)
      → Keeps (OnTables (λ v. has_blob id v ≡ true)) m
      → Keeps (Live id) (on_disk m)
  unfolding on_disk
  on_disk-Live m k = record {
    at = λ w h. record { blob = λ e. (k.at w.disk (record { on = h.blob e })).on; keys = h.keys };
  }

  chunks-kept :
      (now : Time) (touched : String → Option Time) (active ks : List String)
      → Keeps (OnTables (λ v. has_blob id v ≡ true)) (delete_orphaned_chunks now touched active ks)
  unfolding delete_orphaned_chunks
  chunks-kept now touched active [] = Keeps-pure _
  chunks-kept now touched active (k ∷ ks) =
      Keeps-bind _ _
        (Keeps-if (is_active active k || is_young now touched k) _ _ (λ c. Keeps-pure _)
          (λ c. Keeps-bind _ _ (Keeps-try _ (delete_chunks-KeepsBlobs k id)) (λ r. Keeps-pure _)))
        (λ n. Keeps-bind _ _ (chunks-kept now touched active ks) (λ m. Keeps-pure _))

  refs-Live : Keeps (Live id) (on_db upload_session_refs)
  unfolding on_db upload_session_refs query statement
  refs-Live = record {
    at = λ w h. elim (Bool-cases (is_faulty w.db.faults)) [
      | inl bad ↦ rw bad (record { blob = h.blob; keys = h.keys })
      | inr good ↦ rw good (record { blob = h.blob; keys = h.keys })
    ];
  }

  orphaned_chunks-Live :
      (now : Time) (touched : String → Option Time)
      → Keeps (Live id) (cleanup_orphaned_chunks now touched)
  unfolding cleanup_orphaned_chunks cleanup_old_chunks get_all_session_ids
  orphaned_chunks-Live now touched = Keeps-bind _ _ refs-Live (λ refs.
      on_disk-Live _ (Keeps-bind _ _ (Keeps-query _ _) (λ ids. chunks-kept now touched refs.0 ids)))

  asked-Live : (k : String) → Keeps (Live id) (on_db (get_file_for_admin k))
  unfolding on_db get_file_for_admin query statement or_raise ◌>>=◌
  asked-Live k = record {
    at = λ w h. elim (Bool-cases (is_faulty w.db.faults)) [
      | inl bad ↦ rw bad (record { blob = h.blob; keys = h.keys })
      | inr good ↦ elim (Option-cases (find (λ (f : File). f.id == k) w.db.tables.files)) [
        | inl absent ↦ rw (good, absent) (record { blob = h.blob; keys = h.keys })
        | inr (f, there) ↦ rw (good, there) (record { blob = h.blob; keys = h.keys })
      ]
    ];
  }

  deleted-Live : (k : String) → (k == id) ≡ false → Keeps (Live id) (on_disk (delete_file k))
  unfolding delete_file
  deleted-Live k other =
      on_disk-Live _ (Keeps-statement _ _ (λ v h. kept_blob id k v.blobs other h))

  unknown-Live :
      (k : String) (r : Result Error File)
      → (k == id) ≡ false
      → Keeps (Live id) (delete_unknown k r)
  unfolding delete_unknown
  unknown-Live k (ok f) other = Keeps-pure _
  unknown-Live k (err e) other =
      Keeps-if (not (is_not_found e)) _ _ (λ c. Keeps-pure _)
        (λ c. Keeps-bind _ _ (Keeps-try _ (deleted-Live k other)) (λ r. Keeps-pure _))

  -- What others do between the lookup of a file and the deletion of its blob.
  abbrev pub Spares : (String → World → World) → Type 0
  Spares others = (k : String) (w : World) → Live id w → Live id (others k w)

  abbrev pub WritesNoRow : (String → World → World) → Type 0
  WritesNoRow others =
      (w : World)
      → exists (has_file_id id) w.db.tables.files ≡ false
      → exists (has_file_id id) (others id w).db.tables.files ≡ false

module _ (id : String) (others : String → World → World) (spares : Spares id others)
    (no_row : WritesNoRow id others) where
  -- After a lookup that changes nothing but the list of failures, and what others do.
  rested : (w : World) → Live id w → Live id (others id (looked_up w))
  rested w h = spares id _ (record { blob = h.blob; keys = h.keys })

  own_turn :
      (sessions : List String) (w : World)
      → Live id w
      → Live id (delete_orphan others sessions id w).1
  unfolding delete_orphan delete_unknown on_db on_disk delete_file get_file_for_admin try query
      statement or_raise modify pure ◌>>=◌
  own_turn sessions w h = elim (Bool-cases (is_active sessions id)) [
    | inl kept ↦ rw kept (record { blob = h.blob; keys = h.keys })
    | inr alone ↦ elim (Bool-cases (is_faulty w.db.faults)) [
      | inl bad ↦ rw (alone, bad) (rested w h)
      | inr good ↦ elim (Option-cases (find (has_file_id id) w.db.tables.files)) [
        | inl absent ↦
            let gone = none-exists (has_file_id id) w.db.tables.files absent in
            let dead =
              exists-within (has_file_id id) (is_kept id) (others id (looked_up w)).db.tables.files
                (λ f e. ground arith) (no_row (looked_up w) gone) in
            rw (alone, good, absent) (record { blob = λ e. absurd (cc); keys = (rested w h).keys })
        | inr (f, there) ↦ rw (alone, good, there) (rested w h)
      ]
    ]
  ]

  orphan-Live :
      (sessions : List String) (k : String) → Keeps (Live id) (delete_orphan others sessions k)
  unfolding delete_orphan
  orphan-Live sessions k = elim (Bool-cases (k == id)) [
    | inl same ↦ rw (==→eq k id same) (record { at = λ w h. own_turn sessions w h })
    | inr other ↦
        Keeps-if (is_active sessions k) _ _ (λ c. Keeps-pure _)
          (λ c.
            Keeps-bind _ _ (Keeps-try _ (asked-Live id k))
              (λ r. Keeps-bind _ _ (Keeps-modify _ (spares k)) (λ u. unknown-Live id k r other)))
  ]

  orphans-Live :
      (sessions ids : List String) → Keeps (Live id) (delete_orphaned_files others sessions ids)
  unfolding delete_orphaned_files
  orphans-Live sessions [] = Keeps-pure _
  orphans-Live sessions (k ∷ ks) =
      Keeps-bind _ _ (orphan-Live sessions k)
        (λ n. Keeps-bind _ _ (orphans-Live sessions ks) (λ m. Keeps-pure _))

  orphaned_files-Live :
      (elsewhere : World → World)
      → ((w : World) → Live id w → Live id (elsewhere w))
      → Keeps (Live id) (cleanup_orphaned_files elsewhere others)
  unfolding cleanup_orphaned_files get_all_file_ids
  orphaned_files-Live elsewhere kept = Keeps-bind _ _ (refs-Live id) (λ refs.
      Keeps-bind _ _ (Keeps-modify _ kept) (λ u.
        Keeps-bind _ _ (on_disk-Live id _ (Keeps-query _ _)) (λ ids. orphans-Live refs.1 ids)))

-- A cycle of the cleanup leaves a file that is not deleted its blob, whichever statements and system
-- calls fail, if the purges and what the other replicas do meanwhile leave it too, and no other replica
-- writes the row of a file between the lookup of its blob as an orphan and the deletion.
pub perform_cleanup-Live :
    (id : String) (now : Time) (touched : String → Option Time) (purges : Serve ⊤)
    (elsewhere : World → World) (others : String → World → World) (w : World)
    → Keeps (Live id) purges
    → ((v : World) → Live id v → Live id (elsewhere v))
    → Spares id others
    → WritesNoRow id others
    → Live id w
    → Live id (perform_cleanup now touched purges elsewhere others w).1
unfolding perform_cleanup
perform_cleanup-Live id now touched purges elsewhere others w kp ke spares no_row h =
    (Keeps-bind {P = Live id} _ _ (Keeps-logged _ _ (expired-Live id now)) (λ u.
        Keeps-bind _ _ (deleted_blobs-Live id) (λ u.
          Keeps-bind _ _ (Keeps-logged _ _ (orphaned_chunks-Live id now touched)) (λ u.
            Keeps-bind _ _ kp (λ u.
              Keeps-logged _ _ (orphaned_files-Live id others spares no_row elsewhere ke)))))).at
      w h
