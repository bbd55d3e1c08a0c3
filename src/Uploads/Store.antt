-- ===== src/Uploads/Store.antt =====
-- internal/storage/upload_sessions.go: the statements on upload sessions. `now` is the database's NOW().
use sendly.Common.{
  ℕ, ◌+◌, String, Bool, not, ◌&&◌, ◌||◌, Option, none, some, List, ◌∷◌, ltb, ◌==◌, nat_eq,
  string_eq, if◌then◌else◌, take, select, find, exists, update, delete, count, order_by, map,
  Action, pure, raise, or_raise, raise_if, ◌>>=◌, ◌>>◌, Db, statement, query, transaction,
}
use Prim.Native.Nat.{max}
use mathlib.Core.Option
use sendly.Models.{
  Time, File, Error, driver, file_id_taken, session_not_found, upload_not_accepting,
  upload_incomplete,
}
use sendly.Uploads.Session.{
  uploading, assembling, assembled, finalized, failed, state_eq, UploadSession, UploadChunk, Tables,
  lease_live, lease_over, lease_null, owned_by,
}

abbrev pub Store : Type 0 → Type 0
Store A = Action Error (Db Tables) A

abbrev pub ⊤ : Type 0
⊤ = Unit {0}

abbrev pub has_id : String → UploadSession → Bool
has_id session_id s = s.session_id == session_id

-- `UPDATE upload_sessions SET change WHERE test`: the rows affected.
unfoldable pub update_sessions : (UploadSession → Bool) → (UploadSession → UploadSession) → Store ℕ
update_sessions test change =
    statement driver
      (λ t. (count test t.sessions, record t { sessions = update test change t.sessions }))

-- `UPDATE upload_sessions SET change WHERE test RETURNING …`, where the test names one session.
unfoldable pub update_returning :
    (UploadSession → Bool) → (UploadSession → UploadSession) → Store (Option UploadSession)
update_returning test change = statement driver (λ t. (
  Option.map change (find test t.sessions),
  record t { sessions = update test change t.sessions },
))

pub data Inserted : Type 0 where
  inserted conflict violation : Inserted

-- The `INSERT`: nothing for a file identifier that is in use, an error for a repeated session.
unfoldable pub insert_session : UploadSession → Tables → Inserted × Tables
insert_session s t =
    if exists (λ (f : File). f.id == s.file_id) t.files
      || exists (λ (r : UploadSession). r.file_id == s.file_id) t.sessions
    then (conflict, t)
    else if exists (has_id s.session_id) t.sessions
    then (violation, t)
    else (inserted, record t { sessions = s ∷ t.sessions })

unfoldable pub answer_inserted : Inserted → Store ⊤
answer_inserted inserted = pure tt
answer_inserted conflict = raise file_id_taken
answer_inserted violation = raise driver

unfoldable pub create_upload_session : Time → UploadSession → ℕ → Store ⊤
create_upload_session now s ttl = do
  outcome ← statement driver (
      insert_session (record s {
        state = uploading;
        error = none;
        expires_at = now + ttl;
        assembly_owner = none;
        assembly_lease_until = none;
        updated_at = now;
      }))
  answer_inserted outcome

-- A session that `GetUploadSession` returns.
abbrev pub is_live : Time → UploadSession → Bool
is_live now s = ltb now s.expires_at || (s.state == assembling && lease_live now s)

unfoldable pub get_upload_session : Time → String → Store UploadSession
get_upload_session now session_id = do
  found ← query driver (λ t. find (λ s. has_id session_id s && is_live now s) t.sessions)
  or_raise found session_not_found

abbrev pub is_chunk : String → ℕ → UploadChunk → Bool
is_chunk session_id chunk_index c = c.session_id == session_id && c.chunk_index == chunk_index

-- `INSERT … ON CONFLICT DO NOTHING`
unfoldable pub insert_chunk : String → ℕ → List UploadChunk → List UploadChunk
insert_chunk session_id chunk_index chunks =
    if exists (is_chunk session_id chunk_index) chunks
    then chunks
    else record { session_id = session_id; chunk_index = chunk_index } ∷ chunks

unfoldable pub record_chunk : Time → String → ℕ → ℕ → Store ⊤
record_chunk now session_id chunk_index ttl = transaction driver (do
  n ←
      update_sessions (λ s. has_id session_id s && s.state == uploading && ltb now s.expires_at)
        (λ s. record s { expires_at = now + ttl; updated_at = now })
  raise_if (n == 0) upload_not_accepting
  statement driver (λ t. (tt, record t { chunks = insert_chunk session_id chunk_index t.chunks })))

abbrev pub in_session : String → UploadChunk → Bool
in_session session_id c = c.session_id == session_id

unfoldable pub count_uploaded_chunks : String → Store ℕ
count_uploaded_chunks session_id = query driver (λ t. count (in_session session_id) t.chunks)

-- The `UPDATE` of `StartAssembly`.
abbrev pub begin_assembly : Time → ℕ → UploadSession → UploadSession
begin_assembly now pending_ttl s = record s {
  state = assembling;
  error = none;
  assembly_owner = none;
  assembly_lease_until = none;
  expires_at = now + pending_ttl;
  updated_at = now;
}

-- What `StartAssembly` does with the session that it has locked.
unfoldable pub start_locked : Time → ℕ → UploadSession → Store UploadSession
start_locked now pending_ttl s =
    if not (s.state == uploading) && not (s.state == failed) then pure s else do
      uploaded ← count_uploaded_chunks s.session_id
      raise_if (not (uploaded == s.total_chunks)) upload_incomplete
      row ← update_returning (has_id s.session_id) (begin_assembly now pending_ttl)
      or_raise row driver

unfoldable pub start_assembly : Time → String → ℕ → Store UploadSession
start_assembly now session_id pending_ttl = transaction driver (do
  found ← query driver (λ t. find (λ s. has_id session_id s && ltb now s.expires_at) t.sessions)
  s ← or_raise found session_not_found
  start_locked now pending_ttl s)

-- The lease of a session is free for `owner`.
abbrev pub can_claim : Time → String → UploadSession → Bool
can_claim now owner s =
    s.state == assembling && (lease_null s || lease_over now s || owned_by owner s)

-- The row with a lease of `owner` on it.
abbrev pub claimed : Time → String → ℕ → UploadSession → UploadSession
claimed now owner lease s = record s {
  assembly_owner = some owner;
  assembly_lease_until = some (now + lease);
  updated_at = now;
}

unfoldable pub claim_assembly : Time → String → String → ℕ → Store (Option UploadSession)
claim_assembly now session_id owner lease =
    update_returning (λ s. has_id session_id s && can_claim now owner s) (claimed now owner lease)

-- The fence of the statements below: the session is being assembled, by `owner`.
abbrev pub fence : String → UploadSession → Bool
fence owner s = s.state == assembling && owned_by owner s

abbrev pub holds_lease : String → String → UploadSession → Bool
holds_lease session_id owner s = has_id session_id s && fence owner s

unfoldable pub renew_assembly : Time → String → String → ℕ → Store Bool
renew_assembly now session_id owner lease = do
  n ←
      update_sessions (holds_lease session_id owner)
        (λ s. record s { assembly_lease_until = some (now + lease) })
  pure (n == 1)

-- The row with the blob complete, and `min_pending` left for finalize at the least.
abbrev pub finished : Time → ℕ → UploadSession → UploadSession
finished now min_pending s = record s {
  state = assembled;
  assembly_owner = none;
  assembly_lease_until = none;
  expires_at = max s.expires_at (now + min_pending);
  updated_at = now;
}

unfoldable pub finish_assembly : Time → String → String → ℕ → Store Bool
finish_assembly now session_id owner min_pending = do
  n ← update_sessions (holds_lease session_id owner) (finished now min_pending)
  pure (n == 1)

abbrev pub broken : Time → String → UploadSession → UploadSession
broken now text s = record s {
  state = failed;
  error = some text;
  assembly_owner = none;
  assembly_lease_until = none;
  updated_at = now;
}

unfoldable pub fail_assembly : Time → String → String → String → Store ⊤
fail_assembly now session_id owner text = do
  n ← update_sessions (holds_lease session_id owner) (broken now text)
  pure tt

abbrev pub released : UploadSession → UploadSession
released s = record s { assembly_owner = none; assembly_lease_until = none }

unfoldable pub release_assembly : String → String → Store ⊤
release_assembly session_id owner = do
  n ← update_sessions (holds_lease session_id owner) released
  pure tt

unfoldable pub list_orphaned_assemblies : Time → ℕ → Store (List String)
list_orphaned_assemblies now limit = query driver (λ t.
    map (λ s. s.session_id)
      (take limit (
        order_by (λ s. s.updated_at)
          (select (λ s. s.state == assembling && (lease_null s || lease_over now s)) t.sessions))))

unfoldable pub mark_upload_finalized : Time → String → Store ⊤
mark_upload_finalized now session_id = do
  n ← update_sessions (has_id session_id) (λ s. record s { state = finalized; updated_at = now })
  pure tt

-- The chunks go with their session, by the foreign key of `upload_chunks`.
unfoldable pub delete_upload_session : String → Store ⊤
delete_upload_session session_id = statement driver (λ t. (
  tt,
  record t {
    sessions = delete (has_id session_id) t.sessions;
    chunks = delete (in_session session_id) t.chunks;
  },
))

-- A session that cleanup may take.
abbrev pub is_expired : Time → UploadSession → Bool
is_expired now s = ltb s.expires_at now && not (s.state == assembling && lease_live now s)

abbrev pub among : List UploadSession → String → Bool
among taken session_id = exists (has_id session_id) taken

-- `locked` tells the rows that another replica's cleanup holds, which `SKIP LOCKED` passes over.
unfoldable pub take_expired_upload_sessions :
    Time → (String → Bool) → ℕ → Store (List UploadSession)
take_expired_upload_sessions now locked limit = statement driver (λ t.
    let taken = take limit (
      order_by (λ s. s.expires_at)
        (select (λ s. is_expired now s && not (locked s.session_id)) t.sessions)) in
    (
      taken,
      record t {
        sessions = delete (λ s. among taken s.session_id) t.sessions;
        chunks = delete (λ c. among taken c.session_id) t.chunks;
      },
    ))

-- The session and the file identifiers of every session.
unfoldable pub upload_session_refs : Store (List String × List String)
upload_session_refs =
    query driver (λ t. (map (λ s. s.session_id) t.sessions, map (λ s. s.file_id) t.sessions))

-- Live sessions, and those of them that wait for finalize.
unfoldable pub count_upload_sessions : Time → Store (ℕ × ℕ)
count_upload_sessions now = query driver (λ t. (
  count (λ s. ltb now s.expires_at) t.sessions,
  count (λ s. ltb now s.expires_at && (s.state == assembling || s.state == assembled)) t.sessions,
))
