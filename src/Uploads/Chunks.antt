-- ===== src/Uploads/Chunks.antt =====
-- internal/storage/upload_sessions.go: RecordChunk, and the count of StartAssembly.
use sendly.Common.{
  ℕ, zero, suc, ◌+◌, ◌≤◌, ◌<◌, String, true, false, ◌&&◌, ◌≡◌, refl, sym, ◌∙◌, inl, inr, some, List,
  [], ◌∷◌, ltb, ◌==◌, nat_eq, string_eq, ==→eq, Bool-cases, if◌then◌else◌, find, exists, count, All,
  ok, arith, eq_iff, ◌>>=◌, Db, statement, query, transaction, ◌⊎◌,
}
use sendly.Common.Keyed.{find-some}
use sendly.Common.Keeps.{
  Keeps, OnTables, Keeps-statement, Keeps-transaction, Keeps-bind, Keeps-raise_if,
}
use sendly.Models.{Time}
use sendly.Uploads.Session.{uploading, failed, state_eq, UploadSession, UploadChunk, Tables}
use sendly.Uploads.Store.{
  has_id, is_chunk, in_session, insert_chunk, start_assembly, start_locked, count_uploaded_chunks,
  update_returning, record_chunk, update_sessions,
}

-- The primary key of `upload_chunks`.
abbrev pub DistinctChunks : List UploadChunk → Type 0
DistinctChunks [] = Unit
DistinctChunks (c ∷ cs) =
    (exists (is_chunk c.session_id c.chunk_index) cs ≡ false) × DistinctChunks cs

-- Every recorded chunk of the session has an index below `total`.
abbrev pub InRange : String → ℕ → List UploadChunk → Type 0
InRange session_id total cs =
    All (λ (c : UploadChunk). in_session session_id c ≡ true → c.chunk_index < total) cs

-- How many of the indices below `n` are recorded.
recorded : String → ℕ → List UploadChunk → ℕ
recorded session_id zero cs = 0
recorded session_id (suc n) cs =
    (if exists (is_chunk session_id n) cs then 1 else 0) + recorded session_id n cs

recorded-le : (session_id : String) (n : ℕ) (cs : List UploadChunk) → recorded session_id n cs ≤ n
unfolding recorded
recorded-le session_id zero cs = omega arith
recorded-le session_id (suc n) cs = ground (arith, recorded-le session_id n cs)

recorded_all :
    (session_id : String) (n i : ℕ) (cs : List UploadChunk)
    → recorded session_id n cs ≡ n
    → i < n
    → exists (is_chunk session_id i) cs ≡ true
unfolding recorded
recorded_all session_id zero i cs full lt = absurd (omega arith)
recorded_all session_id (suc n) i cs full lt = elim (Bool-cases (i == n)) [
  | inl last ↦ rw (==→eq i n last) (ground (arith, recorded-le session_id n cs))
  | inr other ↦
      recorded_all session_id n i cs (ground (arith, recorded-le session_id n cs)) (ground arith)
]

recorded-foreign :
    (session_id : String) (n : ℕ) (c : UploadChunk) (cs : List UploadChunk)
    → in_session session_id c ≡ false
    → recorded session_id n (c ∷ cs) ≡ recorded session_id n cs
unfolding recorded
recorded-foreign session_id zero c cs h = refl
recorded-foreign session_id (suc n) c cs h = ground (arith, recorded-foreign session_id n c cs h)

-- A new chunk adds one where its index counts.
recorded-cons :
    (session_id : String) (n : ℕ) (c : UploadChunk) (cs : List UploadChunk)
    → in_session session_id c ≡ true
    → exists (is_chunk session_id c.chunk_index) cs ≡ false
    → recorded session_id n (c ∷ cs)
      ≡ (if ltb c.chunk_index n then 1 else 0) + recorded session_id n cs
unfolding recorded
recorded-cons session_id zero c cs own new = ground arith
recorded-cons session_id (suc n) c cs own new = elim (Bool-cases (c.chunk_index == n)) [
  | inl here ↦ ground (
    arith,
    recorded-cons session_id n c cs own new,
    ==→eq c.chunk_index n here,
    rw (==→eq c.chunk_index n here) at new,
  )
  | inr there ↦ ground (arith, recorded-cons session_id n c cs own new)
]

count-recorded :
    (session_id : String) (n : ℕ) (cs : List UploadChunk)
    → DistinctChunks cs
    → InRange session_id n cs
    → count (in_session session_id) cs ≡ recorded session_id n cs
unfolding recorded
count-recorded session_id n [] d r = empty n
  where
    empty : (m : ℕ) → 0 ≡ recorded session_id m []
    empty zero = refl
    empty (suc m) = omega (arith, empty m)
count-recorded session_id n (c ∷ cs) d r = elim (Bool-cases (in_session session_id c)) [
  | inl own ↦ ground (
    arith,
    count-recorded session_id n cs d.1 r.1,
    recorded-cons session_id n c cs own (rw (==→eq c.session_id session_id own) at d.0),
    r.0 own,
  )
  | inr other ↦
      ground
        (arith, count-recorded session_id n cs d.1 r.1, recorded-foreign session_id n c cs other)
]

insert_chunk-DistinctChunks :
    (session_id : String) (i : ℕ) (cs : List UploadChunk)
    → DistinctChunks cs
    → DistinctChunks (insert_chunk session_id i cs)
unfolding insert_chunk
insert_chunk-DistinctChunks session_id i cs d =
    elim (Bool-cases (exists (is_chunk session_id i) cs)) [
      | inl old ↦ rw old d
      | inr new ↦ rw new (new, d)
    ]

insert_chunk-InRange :
    (session_id : String) (i total : ℕ) (cs : List UploadChunk)
    → i < total
    → InRange session_id total cs
    → InRange session_id total (insert_chunk session_id i cs)
unfolding insert_chunk
insert_chunk-InRange session_id i total cs lt r =
    elim (Bool-cases (exists (is_chunk session_id i) cs)) [
      | inl old ↦ rw old r
      | inr new ↦ rw new ((λ own. lt), r)
    ]

-- The keys and the range of a session's chunks, as `RecordChunk` keeps them.
pub record ChunksValid (session_id : String) (total : ℕ) (t : Tables) : Type 0 where
  pub distinct : DistinctChunks t.chunks
  pub in_range : InRange session_id total t.chunks

-- `RecordChunk` keeps the chunks of a session distinct and in range, for an index in range.
pub record_chunk-ChunksValid :
    (now : Time) (session_id : String) (i ttl total : ℕ)
    → i < total
    → Keeps (OnTables (ChunksValid session_id total)) (record_chunk now session_id i ttl)
unfolding record_chunk update_sessions
record_chunk-ChunksValid now session_id i ttl total lt = Keeps-transaction _ _ (
    Keeps-bind _ _
      (Keeps-statement _ _ (λ t v. record { distinct = v.distinct; in_range = v.in_range }))
      (λ n. Keeps-bind _ _ (Keeps-raise_if _ _) (λ u. Keeps-statement _ _ (λ t v. record {
        distinct = insert_chunk-DistinctChunks session_id i t.chunks v.distinct;
        in_range = insert_chunk-InRange session_id i total t.chunks lt v.in_range;
      }))))

-- The count that `StartAssembly` tests.
started_count :
    (now : Time) (session_id : String) (ttl : ℕ) (db : Db Tables) (s s' : UploadSession)
    → find (λ x. has_id session_id x && ltb now x.expires_at) db.tables.sessions ≡ some s
    → (s.state ≡ uploading) ⊎ (s.state ≡ failed)
    → (start_assembly now session_id ttl db).0 ≡ ok s'
    → count (in_session s.session_id) db.tables.chunks ≡ s.total_chunks
unfolding start_assembly start_locked count_uploaded_chunks update_returning transaction query
    statement ◌>>=◌
started_count now session_id ttl db s s' found open_state done = ground arith

-- `StartAssembly` begins the assembly of an uploading or failed session only when every one of its
-- chunks has been recorded.
pub start_assembly_complete :
    (now : Time) (session_id : String) (ttl : ℕ) (db : Db Tables) (s s' : UploadSession) (i : ℕ)
    → find (λ x. has_id session_id x && ltb now x.expires_at) db.tables.sessions ≡ some s
    → (s.state ≡ uploading) ⊎ (s.state ≡ failed)
    → ChunksValid session_id s.total_chunks db.tables
    → (start_assembly now session_id ttl db).0 ≡ ok s'
    → i < s.total_chunks
    → exists (is_chunk session_id i) db.tables.chunks ≡ true
start_assembly_complete now session_id ttl db s s' i found open_state v done lt =
    recorded_all session_id s.total_chunks i db.tables.chunks
      (sym (count-recorded session_id s.total_chunks db.tables.chunks v.distinct v.in_range)
        ∙ rw (own_id now session_id s db.tables found) at
            (started_count now session_id ttl db s s' found open_state done))
      lt
  where
    own_id :
        (now : Time) (k : String) (s : UploadSession) (t : Tables)
        → find (λ x. has_id k x && ltb now x.expires_at) t.sessions ≡ some s
        → s.session_id ≡ k
    own_id now k s t found = ground (
      arith,
      find-some (λ x. has_id k x && ltb now x.expires_at) t.sessions s found,
      eq_iff s.session_id k,
    )
