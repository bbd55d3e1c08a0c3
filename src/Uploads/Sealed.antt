-- ===== src/Uploads/Sealed.antt =====
-- internal/storage/upload_sessions.go: chunks that arrive after the assembly of their session has begun.
use sendly.Common.{
  ℕ, String, Bool, false, not, ◌&&◌, ◌≡◌, ◌≢◌, refl, inl, inr, some, List, [], ◌∷◌, ◌==◌, nat_eq,
  string_eq, ==→eq, ltb, eq_iff, find, exists, update, count, All, arith, Bool-cases, Option-cases,
  ==_refl, pure, ok, or_raise, raise_if, ◌>>=◌, Db, statement, query, transaction, end_transaction,
}
use sendly.Common.Keeps.{
  Keeps, OnTables, Keeps-statement, Keeps-query, Keeps-transaction, Keeps-bind, Keeps-raise_if,
  Keeps-pure, Keeps-raise, Keeps-or_raise, Keeps-if,
}
use sendly.Common.Keyed.{exists-delete, none-exists, find-some, same_row}
use sendly.Common.Inversion.{find_ok, transaction_ok}
use sendly.Models.{Time, driver, session_not_found}
use sendly.Uploads.Session.{uploading, failed, state_eq, UploadSession, Tables}
use sendly.Uploads.Store.{
  Store, has_id, Inserted, inserted, conflict, violation, insert_session, answer_inserted,
  create_upload_session, record_chunk, update_sessions, update_returning, count_uploaded_chunks,
  begin_assembly, start_locked, start_assembly, claim_assembly, renew_assembly, finish_assembly,
  fail_assembly, release_assembly, mark_upload_finalized, delete_upload_session,
  take_expired_upload_sessions,
}
use sendly.Uploads.Outcomes.{IsKeyed}
use sendly.Uploads.Requests.{
  Request, create, chunk, start, claim, renew, finish, release, fail, finalize, cancel, cleanup,
  perform, run,
}

abbrev pub takes_chunks : String → UploadSession → Bool
takes_chunks k s = has_id k s && s.state == uploading

module _ (k : String) where
  -- The session takes no chunk any more.
  abbrev pub Sealed : Tables → Type 0
  Sealed t = exists (takes_chunks k) t.sessions ≡ false

  abbrev Seals : {A : Type 0} → Store A → Type 0
  Seals m = Keeps (OnTables Sealed) m

  -- A change that does not begin to take chunks.
  Closed : (UploadSession → UploadSession) → Type 0
  Closed f = (s : UploadSession) → takes_chunks k s ≡ false → takes_chunks k (f s) ≡ false

  updated :
      (test : UploadSession → Bool) (f : UploadSession → UploadSession) (ss : List UploadSession)
      → Closed f
      → exists (takes_chunks k) ss ≡ false
      → exists (takes_chunks k) (update test f ss) ≡ false
  unfolding Closed
  updated test f [] c h = refl
  updated test f (s ∷ ss) c h = ground (arith, c s, updated test f ss c)

  update_sessions-Seals :
      (test : UploadSession → Bool) (f : UploadSession → UploadSession)
      → Closed f
      → Seals (update_sessions test f)
  unfolding update_sessions
  update_sessions-Seals test f c = Keeps-statement _ _ (λ t h. updated test f t.sessions c h)

  update_returning-Seals :
      (test : UploadSession → Bool) (f : UploadSession → UploadSession)
      → Closed f
      → Seals (update_returning test f)
  unfolding update_returning
  update_returning-Seals test f c = Keeps-statement _ _ (λ t h. updated test f t.sessions c h)

  begin-Closed : (now : Time) (ttl : ℕ) → Closed (begin_assembly now ttl)
  unfolding Closed
  begin-Closed now ttl s h = ground arith

  start_locked-Seals : (now : Time) (ttl : ℕ) (s : UploadSession) → Seals (start_locked now ttl s)
  unfolding start_locked count_uploaded_chunks
  start_locked-Seals now ttl s =
      Keeps-if (not (s.state == uploading) && not (s.state == failed)) _ _ (λ e. Keeps-pure _)
        (λ e. Keeps-bind _ _ (Keeps-query _ _) (λ n. Keeps-bind _ _ (Keeps-raise_if _ _) (λ u.
          Keeps-bind _ _ (update_returning-Seals _ _ (begin-Closed now ttl))
            (λ o. Keeps-or_raise _ _))))

  inserted-Sealed :
      (s : UploadSession) (t : Tables) → s.session_id ≢ k → Sealed t → Sealed (insert_session s t).1
  unfolding insert_session
  inserted-Sealed s t other h = ground (arith, h, eq_iff s.session_id k, other)

  answered-Seals : (o : Inserted) → Seals (answer_inserted o)
  unfolding answer_inserted
  answered-Seals inserted = Keeps-pure _
  answered-Seals conflict = Keeps-raise _
  answered-Seals violation = Keeps-raise _

  -- No request but a new session with the identifier.
  abbrev pub IsOther : Request → Type 0
  IsOther (create s) = s.session_id ≢ k
  IsOther _ = Unit

  perform-Sealed :
      (now : Time) (r : Request) (db : Db Tables)
      → IsOther r
      → OnTables Sealed db
      → OnTables Sealed (perform now r db)
  unfolding perform create_upload_session record_chunk start_assembly claim_assembly renew_assembly
      finish_assembly fail_assembly release_assembly mark_upload_finalized delete_upload_session
      take_expired_upload_sessions Closed
  perform-Sealed now (create s) db other h =
      (Keeps-bind _ _ (Keeps-statement _ _ (λ t c. inserted-Sealed _ t other c)) answered-Seals).at
        db h
  perform-Sealed now (chunk sid i) db other h =
      (Keeps-transaction _ _ (
          Keeps-bind _ _ (update_sessions-Seals _ _ (λ s c. c))
            (λ n. Keeps-bind _ _ (Keeps-raise_if _ _) (λ u. Keeps-statement _ _ (λ t c. c))))).at
        db h
  perform-Sealed now (start sid) db other h =
      (Keeps-transaction _ _ (
          Keeps-bind _ _ (Keeps-query _ _)
            (λ o. Keeps-bind _ _ (Keeps-or_raise _ _) (λ s. start_locked-Seals now _ s)))).at
        db h
  perform-Sealed now (claim sid owner) db other h = (update_returning-Seals _ _ (λ s c. c)).at db h
  perform-Sealed now (renew sid owner) db other h =
      (Keeps-bind _ _ (update_sessions-Seals _ _ (λ s c. c)) (λ n. Keeps-pure _)).at db h
  perform-Sealed now (finish sid owner) db other h =
      (Keeps-bind _ _ (update_sessions-Seals _ _ (λ s c. ground arith)) (λ n. Keeps-pure _)).at db h
  perform-Sealed now (release sid owner) db other h =
      (Keeps-bind _ _ (update_sessions-Seals _ _ (λ s c. c)) (λ n. Keeps-pure _)).at db h
  perform-Sealed now (fail sid owner text) db other h =
      (Keeps-bind _ _ (update_sessions-Seals _ _ (λ s c. ground arith)) (λ n. Keeps-pure _)).at db h
  perform-Sealed now (finalize sid) db other h =
      (Keeps-bind _ _ (update_sessions-Seals _ _ (λ s c. ground arith)) (λ n. Keeps-pure _)).at db h
  perform-Sealed now (cancel sid) db other h =
      (Keeps-statement _ _ (λ t c. exists-delete (takes_chunks k) (has_id sid) t.sessions c)).at db
        h
  perform-Sealed now (cleanup locked limit) db other h =
      (Keeps-statement _ _ (λ t c. exists-delete (takes_chunks k) _ t.sessions c)).at db h

  run-Sealed :
      (rs : List (Time × Request)) (db : Db Tables)
      → All (λ (r : Time × Request). IsOther r.1) rs
      → OnTables Sealed db
      → OnTables Sealed (run rs db)
  unfolding run
  run-Sealed [] db others h = h
  run-Sealed ((now, r) ∷ rs) db others h =
      run-Sealed rs (perform now r db) others.1 (perform-Sealed now r db others.0 h)

  -- All rows of the session are past their chunks, once they were changed so.
  all_begun :
      (now : Time) (ttl : ℕ) (ss : List UploadSession)
      → exists (takes_chunks k) (update (has_id k) (begin_assembly now ttl) ss) ≡ false
  all_begun now ttl [] = refl
  all_begun now ttl (s ∷ ss) = ground (arith, all_begun now ttl ss)

  -- Where no row takes chunks the statement affects none.
  none_taken :
      (now : Time) (ss : List UploadSession)
      → exists (takes_chunks k) ss ≡ false
      → count (λ s. has_id k s && s.state == uploading && ltb now s.expires_at) ss ≡ 0
  none_taken now [] h = refl
  none_taken now (s ∷ ss) h = ground (arith, none_taken now ss)

  refused :
      (now : Time) (i ttl : ℕ) (db : Db Tables)
      → Sealed db.tables
      → ((record_chunk now k i ttl db).0 ≢ ok tt)
        × ((record_chunk now k i ttl db).1.tables ≡ db.tables)
  unfolding record_chunk update_sessions transaction end_transaction statement raise_if ◌>>=◌
  refused now i ttl db h =
      let no_row = none_taken now db.tables.sessions h in
      (ground (arith, no_row), ground (arith, no_row))

  -- A row that is past its chunks is the only one of its session.
  past-Sealed :
      (now : Time) (s : UploadSession) (t : Tables)
      → IsKeyed t
      → find (λ x. has_id k x && ltb now x.expires_at) t.sessions ≡ some s
      → (s.state == uploading) ≡ false
      → Sealed t
  past-Sealed now s t keyed found past = elim (Option-cases (find (takes_chunks k) t.sessions)) [
    | inl absent ↦ none-exists (takes_chunks k) t.sessions absent
    | inr (x, there) ↦ absurd (
        let mine = find-some (takes_chunks k) t.sessions x there in
        let own = find-some (λ x. has_id k x && ltb now x.expires_at) t.sessions s found in
        let x_id = ==→eq x.session_id k (ground (arith, mine)) in
        let s_id = ==→eq s.session_id k (ground (arith, own)) in
        let same =
          same_row (λ (x : UploadSession). x.session_id) (takes_chunks k)
            (λ x. has_id k x && ltb now x.expires_at) x s t.sessions keyed there found
            (rw (x_id, s_id) (==_refl k)) in
        let mine' = rw same at mine in ground (arith, mine', past))
  ]

  start_locked-Sealed :
      (now : Time) (ttl : ℕ) (s s' : UploadSession) (db : Db Tables)
      → IsKeyed db.tables
      → find (λ x. has_id k x && ltb now x.expires_at) db.tables.sessions ≡ some s
      → (start_locked now ttl s db).0 ≡ ok s'
      → Sealed (start_locked now ttl s db).1.tables
  unfolding start_locked count_uploaded_chunks update_returning pure raise_if or_raise query
      statement ◌>>=◌
  start_locked-Sealed now ttl s s' db keyed found done =
      let own = find-some (λ x. has_id k x && ltb now x.expires_at) db.tables.sessions s found in
      let s_id = ==→eq s.session_id k (ground (arith, own)) in
      elim (Bool-cases (not (s.state == uploading) && not (s.state == failed))) [
        | inl past ↦ rw past (past-Sealed now s db.tables keyed found (ground (arith, past)))
        | inr open_state ↦
            ground (arith, open_state, done, s_id, all_begun now ttl db.tables.sessions)
      ]

-- Once StartAssembly has succeeded, no chunk of the session is recorded any more, whatever requests follow
-- of any replica, unless they make a new session with its identifier: RecordChunk fails, and leaves
-- every table as it is.
pub start_assembly-seals :
    (now later : Time) (k : String) (ttl i ttl' : ℕ) (s : UploadSession)
    (rs : List (Time × Request)) (db : Db Tables)
    → IsKeyed db.tables
    → (start_assembly now k ttl db).0 ≡ ok s
    → All (λ (r : Time × Request). IsOther k r.1) rs
    → let after = run rs (start_assembly now k ttl db).1 in
      ((record_chunk later k i ttl' after).0 ≢ ok tt)
      × ((record_chunk later k i ttl' after).1.tables ≡ after.tables)
unfolding start_assembly
start_assembly-seals now later k ttl i ttl' s rs db keyed done others =
    let (started, left) = transaction_ok driver _ db s done in
    let (s0, found, locked, same) =
      find_ok driver session_not_found
        (λ (t : Tables). find (λ x. has_id k x && ltb now x.expires_at) t.sessions)
        (start_locked now ttl) _ s started in
    let sealed = start_locked-Sealed k now ttl s0 s _ keyed found locked in
    refused k later i ttl' _
      (run-Sealed k rs (start_assembly now k ttl db).1 others
        (record { on = rw (left, same) sealed })).on
