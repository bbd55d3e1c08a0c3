-- ===== src/Uploads/Stored.antt =====
-- internal/storage/filesystem.go: files and their blobs, under single calls.
use sendly.Common.{
  ℕ, zero, suc, String, Bool, true, false, ◌≡◌, refl, sym, inl, inr, List, [], ◌∷◌, ◌==◌, nat_eq,
  string_eq, ==→eq, exists, delete, arith, Bool-cases,
}
use sendly.Common.Keeps.{
  Keeps, OnTables, Keeps-statement, Keeps-query, Keeps-bind, Keeps-raise_if, Keeps-pure,
  Keeps-raise, Keeps-or_raise, Keeps-try, Keeps-handle,
}
use sendly.Models.{Bytes}
use sendly.Uploads.Store.{Store}
use sendly.Uploads.Disk
use sendly.Uploads.Disk.{
  Disk, Os, Volume, is_blob, put_blob, call, copy_chunks, assemble_chunks, save_chunk,
  create_chunk_dir, delete_chunks, file_exists, get_file_size,
}
use sendly.Uploads.Files.{has_file_id}
use sendly.Uploads.NewFiles.{AddsNone}
use sendly.Uploads.Serve.{World, Serve, on_db, on_disk, logged, wrapped}

abbrev pub has_blob : String → Volume → Bool
has_blob id v = exists (is_blob id) v.blobs

-- Every file has its blob, and so has `f`.
pub record Stored (f : String) (w : World) : Type 0 where
  pub stored :
      (id : String)
      → exists (has_file_id id) w.db.tables.files ≡ true
      → has_blob id w.disk.tables ≡ true
  pub ready : has_blob f w.disk.tables ≡ true

-- Every file has its blob.
pub record AllStored (w : World) : Type 0 where
  pub stored :
      (id : String)
      → exists (has_file_id id) w.db.tables.files ≡ true
      → has_blob id w.disk.tables ≡ true

abbrev pub KeepsBlobs : {A : Type 0} → Os A → Type 0
KeepsBlobs m = (id : String) → Keeps (OnTables (λ v. has_blob id v ≡ true)) m

module _ {A : Type 0} where
  kept_db :
      (id : String) (w : World) (m : Store A)
      → AddsNone id m
      → (exists (has_file_id id) w.db.tables.files ≡ true → has_blob id w.disk.tables ≡ true)
      → exists (has_file_id id) (m w.db).1.tables.files ≡ true
      → has_blob id w.disk.tables ≡ true
  kept_db id w m k h e = elim (Bool-cases (exists (has_file_id id) w.db.tables.files)) [
    | inl there ↦ h there
    | inr absent ↦ absurd (let gone = (k.at w.db (record { on = absent })).on in cc)
  ]

  pub AllStored-on_db : (m : Store A) → ((id : String) → AddsNone id m) → Keeps AllStored (on_db m)
  unfolding on_db
  AllStored-on_db m k = record {
    at = λ w h. record { stored = λ id. kept_db id w m (k id) (h.stored id) };
  }

  pub AllStored-on_disk : (m : Os A) → KeepsBlobs m → Keeps AllStored (on_disk m)
  unfolding on_disk
  AllStored-on_disk m k = record {
    at = λ w h. record { stored = λ id e. ((k id).at w.disk (record { on = h.stored id e })).on };
  }

  -- The statement may add the file `f`.
  pub Stored-on_db :
      (f : String) (m : Store A)
      → ((id : String) → (f == id) ≡ false → AddsNone id m)
      → Keeps (Stored f) (on_db m)
  unfolding on_db
  Stored-on_db f m k = record {
    at = λ w h. record { stored = λ id e. after w h id e; ready = h.ready };
  }
    where
      after :
          (w : World)
          → Stored f w
          → (id : String) → exists (has_file_id id) (m w.db).1.tables.files ≡ true
          → has_blob id w.disk.tables ≡ true
      after w h id e = elim (Bool-cases (f == id)) [
        | inl same ↦ rw (sym (==→eq f id same)) h.ready
        | inr other ↦ kept_db id w m (k id other) (h.stored id) e
      ]

  pub Keeps-logged {κ} : (P : World → Type κ) (m : Serve A) → Keeps P m → Keeps P (logged m)
  unfolding logged
  Keeps-logged P m k = Keeps-bind _ _ (Keeps-try _ k) (λ r. Keeps-pure _)

  pub Keeps-wrapped {κ} :
      (P : World → Type κ) (text : String) (m : Serve A) → Keeps P m → Keeps P (wrapped text m)
  unfolding wrapped
  Keeps-wrapped P text m k =
      Keeps-bind _ _ (Keeps-try _ k)
        (λ r. Keeps-handle _ _ _ (λ a. Keeps-pure _) (λ e. Keeps-raise _))

-- What the operations on the volume do to the blobs.
module _ where
  pub kept_blob :
      (id file_id : String) (bs : List Disk.Blob)
      → (file_id == id) ≡ false
      → exists (is_blob id) bs ≡ true
      → exists (is_blob id) (delete (is_blob file_id) bs) ≡ true
  kept_blob id file_id [] other h = h
  kept_blob id file_id (b ∷ bs) other h = elim (Bool-cases (is_blob file_id b)) [
    | inl gone ↦
        rw (gone) (kept_blob id file_id bs other (rw (==→eq b.file_id file_id gone, other) at h))
    | inr stays ↦ rw stays (ground (arith, kept_blob id file_id bs other))
  ]

  blob_put :
      (id file_id : String) (content : Bytes) (v : Volume)
      → has_blob id v ≡ true
      → has_blob id (put_blob file_id content v) ≡ true
  blob_put id file_id content v h = elim (Bool-cases (file_id == id)) [
    | inl same ↦ rw same refl
    | inr other ↦ rw other (kept_blob id file_id v.blobs other h)
  ]

  pub create_chunk_dir-KeepsBlobs : (k : String) → KeepsBlobs (create_chunk_dir k)
  unfolding create_chunk_dir
  create_chunk_dir-KeepsBlobs k id = Keeps-statement _ _ (λ v h. h)

  pub delete_chunks-KeepsBlobs : (k : String) → KeepsBlobs (delete_chunks k)
  unfolding delete_chunks
  delete_chunks-KeepsBlobs k id = Keeps-statement _ _ (λ v h. h)

  pub file_exists-KeepsBlobs : (k : String) → KeepsBlobs (file_exists k)
  unfolding file_exists
  file_exists-KeepsBlobs k id = Keeps-bind _ _ (Keeps-try _ (Keeps-query _ _)) (λ r. Keeps-pure _)

  pub get_file_size-KeepsBlobs : (k : String) → KeepsBlobs (get_file_size k)
  unfolding get_file_size
  get_file_size-KeepsBlobs k id =
      Keeps-bind _ _ (Keeps-query _ _)
        (λ o. Keeps-bind _ _ (Keeps-or_raise _ _) (λ b. Keeps-pure _))

  pub save_chunk-KeepsBlobs :
      (k : String) (i : ℕ) (content : Bytes) → KeepsBlobs (save_chunk k i content)
  unfolding save_chunk
  save_chunk-KeepsBlobs k i content id = Keeps-bind _ _ (Keeps-statement _ _ (λ v h. h)) (λ u.
      Keeps-bind _ _ (Keeps-statement _ _ (λ v h. h)) (λ u.
        Keeps-bind _ _ (Keeps-statement _ _ (λ v h. h)) (λ u.
          Keeps-bind _ _ (Keeps-statement _ _ (λ v h. h))
            (λ u. Keeps-bind _ _ (Keeps-statement _ _ (λ v h. h)) (λ u. Keeps-pure _)))))

  copy_chunks-KeepsBlobs :
      (cancelled : ℕ → Bool) (k : String) (i rounds : ℕ) (out : Bytes)
      → KeepsBlobs (copy_chunks cancelled k i rounds out)
  unfolding copy_chunks
  copy_chunks-KeepsBlobs cancelled k i zero out id = Keeps-pure _
  copy_chunks-KeepsBlobs cancelled k i (suc rounds) out id =
      Keeps-bind _ _ (Keeps-raise_if _ _) (λ u. Keeps-bind _ _ (Keeps-query _ _) (λ o.
        Keeps-bind _ _ (Keeps-or_raise _ _) (λ c.
          Keeps-bind _ _ (Keeps-statement _ _ (λ v h. h))
            (λ u. copy_chunks-KeepsBlobs cancelled k (suc i) rounds _ id))))

  pub assemble_chunks-KeepsBlobs :
      (cancelled : ℕ → Bool) (k file_id : String) (total : ℕ)
      → KeepsBlobs (assemble_chunks cancelled k file_id total)
  unfolding assemble_chunks
  assemble_chunks-KeepsBlobs cancelled k file_id total id = Keeps-bind _ _ (Keeps-query _ _) (λ o.
      Keeps-bind _ _ (Keeps-or_raise _ _) (λ c. Keeps-bind _ _ (Keeps-raise_if _ _) (λ u.
        Keeps-bind _ _ (Keeps-statement _ _ (λ v h. h)) (λ u.
          Keeps-bind _ _ (copy_chunks-KeepsBlobs cancelled k 0 total [] id) (λ content.
            Keeps-bind _ _ (Keeps-statement _ _ (λ v h. h)) (λ u.
              Keeps-bind _ _ (Keeps-statement _ _ (λ v h. h))
                (λ u. Keeps-statement _ _ (λ v h. blob_put id file_id content v h))))))))
