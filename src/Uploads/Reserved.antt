-- ===== src/Uploads/Reserved.antt =====
-- internal/storage/upload_sessions.go: the statements of other replicas while a lease runs.
use sendly.Common.{
  ℕ, ◌+◌, ◌≤◌, String, Bool, true, false, not, ◌&&◌, ◌||◌, ◌≡◌, ◌≢◌, refl, sym, inl, inr, Option,
  none, some, List, [], ◌∷◌, ltb, ◌==◌, nat_eq, string_eq, ==→eq, Bool-cases, find, exists, All, ap,
  ◌∙◌, arith, eq_iff, Db, statement,
}
use sendly.Common.Keeps.{
  Keeps, OnTables, Keeps-statement, Keeps-transaction, Keeps-bind, Keeps-if, Keeps-pure,
  Keeps-query, Keeps-raise_if, Keeps-or_raise, Keeps-find, keeps_rules,
}
use sendly.Common.Keyed.{keep_if, find-keyed, find-some}
use sendly.Models.{Time, driver, File}
use sendly.Uploads.Session.{
  state_eq, uploading, failed, UploadSession, Tables, upload_pending_ttl, assembly_lease,
  upload_session_ttl,
}
use sendly.Uploads.Store.{
  has_id, claimed, update_sessions, update_returning, create_upload_session, insert_session,
  answer_inserted, Inserted, inserted, conflict, violation, record_chunk, start_assembly,
  start_locked, count_uploaded_chunks, begin_assembly, claim_assembly, renew_assembly,
  finish_assembly, fail_assembly, release_assembly, mark_upload_finalized, delete_upload_session,
  take_expired_upload_sessions, insert_chunk, holds_lease,
}
use sendly.Uploads.Outcomes.{session_of, IsKeyed}
use sendly.Uploads.Lease.{
  Holding, Spares, Holding-update, Holding-delete, foreign_claim, foreign_fence,
}
use sendly.Uploads.Requests.{
  Request, create, chunk, start, claim, renew, finish, release, fail, finalize, cancel, cleanup,
  perform, run, IsForeign,
}

module _ (session_id owner : String) (until : Time) where
  abbrev pub Hold : Tables → Type 0
  Hold = Holding session_id owner until

  Keeps-update_sessions :
      (test : UploadSession → Bool) (f : UploadSession → UploadSession)
      → ((s : UploadSession) → (f s).session_id ≡ s.session_id)
      → Spares session_id owner until test f
      → Keeps (OnTables Hold) (update_sessions test f)
  unfolding update_sessions
  Keeps-update_sessions test f same spares =
      Keeps-statement _ _ (λ t h. Holding-update session_id owner until test f same spares t h)

  inserts :
      (s : UploadSession) (t : Tables)
      → s.session_id ≢ session_id
      → Hold t
      → Hold (insert_session s t).1
  unfolding insert_session
  inserts s t ne h =
      elim (Bool-cases (
        exists (λ (f : File). f.id == s.file_id) t.files
        || exists (λ (r : UploadSession). r.file_id == s.file_id) t.sessions)) [
          | inl taken ↦ rw taken h
          | inr fresh ↦ rw fresh (elim (Bool-cases (exists (has_id s.session_id) t.sessions)) [
            | inl again ↦ rw again h
            | inr new ↦ rw new (record {
              keyed = (new, h.keyed);
              reserved = ground (arith, eq_iff s.session_id session_id, h.reserved);
            })
          ])
        ]

  create-Hold :
      (now : Time) (s : UploadSession) (ttl : ℕ)
      → s.session_id ≢ session_id
      → Keeps (OnTables Hold) (create_upload_session now s ttl)
  unfolding create_upload_session
  create-Hold now s ttl ne = Keeps-bind _ _ (Keeps-statement _ _ (λ t h. inserts _ t ne h)) answered
    where
      answered : (o : Inserted) → Keeps (OnTables Hold) (answer_inserted o)
      answered inserted = unfold answer_inserted in search keeps_rules
      answered conflict = unfold answer_inserted in search keeps_rules
      answered violation = unfold answer_inserted in search keeps_rules

  noted :
      (k : String) (i : ℕ)
      → Keeps
          (OnTables Hold)
          (statement driver (λ (t : Tables). (tt, record t { chunks = insert_chunk k i t.chunks })))
  noted k i = Keeps-statement _ _ (λ t h. record { keyed = h.keyed; reserved = h.reserved })

  touched :
      (now : Time) (k : String) (ttl : ℕ)
      → Keeps (OnTables Hold) (
          update_sessions
            (λ s. has_id k s && s.state == uploading && ltb now s.expires_at)
            (λ s. record s { expires_at = now + ttl; updated_at = now }))
  touched now k ttl = Keeps-update_sessions _ _ (λ s. refl) (λ s own h hit. ground arith)

  chunk-Hold :
      (now : Time) (k : String) (i ttl : ℕ) → Keeps (OnTables Hold) (record_chunk now k i ttl)
  unfolding record_chunk
  chunk-Hold now k i ttl = Keeps-transaction _ _ (
      Keeps-bind _ _ (touched now k ttl)
        (λ n. Keeps-bind _ _ (Keeps-raise_if _ _) (λ u. noted k i)))

  claim-Hold :
      (now : Time) (k o : String) (lease : ℕ)
      → now ≤ until
      → o ≢ owner
      → Keeps (OnTables Hold) (claim_assembly now k o lease)
  unfolding claim_assembly update_returning
  claim-Hold now k o lease early ne = Keeps-statement _ _ (λ t h.
      Holding-update session_id owner until _ (claimed now o lease) (λ s. refl)
        (λ s own hs hit. ground (arith, foreign_claim session_id owner until now o early ne s hs)) t
        h)

  fenced-Hold :
      (k o : String) (f : UploadSession → UploadSession)
      → ((s : UploadSession) → (f s).session_id ≡ s.session_id)
      → o ≢ owner
      → Keeps (OnTables Hold) (update_sessions (holds_lease k o) f)
  fenced-Hold k o f same ne =
      Keeps-update_sessions (holds_lease k o) f same
        (λ s own hs hit. ground (arith, foreign_fence session_id owner until o ne s hs))

  own_id :
      (now : ℕ) (k : String) (s : UploadSession) (t : Tables)
      → find (λ x. has_id k x && ltb now x.expires_at) t.sessions ≡ some s
      → has_id k s ≡ true
  own_id now k s t found =
      ground (arith, find-some (λ x. has_id k x && ltb now x.expires_at) t.sessions s found)

  own_session :
      (k : String) (t : Tables) (now : ℕ) (s : UploadSession)
      → IsKeyed t
      → find (λ x. has_id k x && ltb now x.expires_at) t.sessions ≡ some s
      → session_of k t ≡ some s
  own_session k t now s keyed found = kept_row (session_of k t) (
      sym (
        find-keyed (λ (x : UploadSession). x.session_id) k (λ x. ltb now x.expires_at) t.sessions
          keyed)
      ∙ found)
    where
      kept_row :
          (o : Option UploadSession) → keep_if (λ x. ltb now x.expires_at) o ≡ some s → o ≡ some s
      kept_row none e = cc
      kept_row (some x) e = ground arith

  -- The session that `StartAssembly` changes is not the one that is held.
  not_started :
      (now ttl : ℕ) (k : String) (s : UploadSession) (t : Tables)
      → Hold t
      → find (λ x. has_id k x && ltb now x.expires_at) t.sessions ≡ some s
      → (not (s.state == uploading) && not (s.state == failed)) ≡ false
      → s.session_id ≢ session_id
  not_started now ttl k s t h found open_state e = ground (
    arith,
    own_session k t now s h.keyed found,
    eq_iff s.session_id k,
    h.reserved,
    ap (λ j. session_of j t) (sym e ∙ ==→eq s.session_id k (own_id now k s t found)),
  )

  begun :
      (now ttl : ℕ) (s : UploadSession)
      → s.session_id ≢ session_id
      → Keeps (OnTables Hold) (update_returning (has_id s.session_id) (begin_assembly now ttl))
  unfolding update_returning
  begun now ttl s ne = Keeps-statement _ _ (λ t h.
      Holding-update session_id owner until _ (begin_assembly now ttl) (λ x. refl)
        (λ x own hx hit.
          absurd
            (ne (sym (==→eq x.session_id s.session_id hit) ∙ ==→eq x.session_id session_id own)))
        t h)

  locked :
      (now ttl : ℕ) (s : UploadSession)
      → ((not (s.state == uploading) && not (s.state == failed)) ≡ false
          → s.session_id ≢ session_id)
      → Keeps (OnTables Hold) (start_locked now ttl s)
  unfolding start_locked count_uploaded_chunks
  locked now ttl s ne =
      Keeps-if _ _ _ (λ closed. Keeps-pure s)
        (λ opened. Keeps-bind _ _ (Keeps-query _ _) (λ n.
          Keeps-bind _ _ (Keeps-raise_if _ _)
            (λ u. Keeps-bind _ _ (begun now ttl s (ne opened)) (λ row. Keeps-or_raise row driver))))

  start-Hold :
      (now : Time) (k : String) (ttl : ℕ) → Keeps (OnTables Hold) (start_assembly now k ttl)
  unfolding start_assembly
  start-Hold now k ttl =
      Keeps-transaction _ _
        (Keeps-find _ _ _ _ (λ t h s found. locked now ttl s (not_started now ttl k s t h found)))

  delete-Hold : (k : String) → Keeps (OnTables Hold) (delete_upload_session k)
  unfolding delete_upload_session
  delete-Hold k =
      Keeps-statement _ _ (λ t h. Holding-delete session_id owner until (λ i. i == k) t _ refl h)

  cleanup-Hold :
      (now : Time) (busy : String → Bool) (limit : ℕ)
      → Keeps (OnTables Hold) (take_expired_upload_sessions now busy limit)
  unfolding take_expired_upload_sessions
  cleanup-Hold now busy limit =
      Keeps-statement _ _ (λ t h. Holding-delete session_id owner until _ t _ refl h)

  finalize-Hold : (now : Time) (k : String) → Keeps (OnTables Hold) (mark_upload_finalized now k)
  unfolding mark_upload_finalized
  finalize-Hold now k =
      Keeps-bind _ _ (Keeps-update_sessions _ _ (λ s. refl) (λ s own h hit. refl))
        (λ n. Keeps-pure tt)

  -- One request of another replica, before the lease ends.
  perform-Hold :
      (now : Time) (r : Request) (db : Db Tables)
      → now ≤ until
      → IsForeign session_id owner r
      → OnTables Hold db
      → OnTables Hold (perform now r db)
  unfolding perform renew_assembly finish_assembly fail_assembly release_assembly
  perform-Hold now (create s) db early other h =
      (create-Hold now s upload_session_ttl other).at db h
  perform-Hold now (chunk k i) db early other h = (chunk-Hold now k i upload_session_ttl).at db h
  perform-Hold now (start k) db early other h = (start-Hold now k upload_pending_ttl).at db h
  perform-Hold now (claim k o) db early other h =
      (claim-Hold now k o assembly_lease early other).at db h
  perform-Hold now (renew k o) db early other h =
      (Keeps-bind _ _ (fenced-Hold k o _ (λ s. refl) other) (λ n. Keeps-pure (n == 1))).at db h
  perform-Hold now (finish k o) db early other h =
      (Keeps-bind _ _ (fenced-Hold k o _ (λ s. refl) other) (λ n. Keeps-pure (n == 1))).at db h
  perform-Hold now (release k o) db early other h =
      (Keeps-bind _ _ (fenced-Hold k o _ (λ s. refl) other) (λ n. Keeps-pure tt)).at db h
  perform-Hold now (fail k o text) db early other h =
      (Keeps-bind _ _ (fenced-Hold k o _ (λ s. refl) other) (λ n. Keeps-pure tt)).at db h
  perform-Hold now (finalize k) db early other h = (finalize-Hold now k).at db h
  perform-Hold now (cancel k) db early other h = (delete-Hold k).at db h
  perform-Hold now (cleanup busy limit) db early other h = (cleanup-Hold now busy limit).at db h

  pub run-Hold :
      (rs : List (Time × Request)) (db : Db Tables)
      → All (λ (x : Time × Request). (x.0 ≤ until) × IsForeign session_id owner x.1) rs
      → OnTables Hold db
      → OnTables Hold (run rs db)
  unfolding run
  run-Hold [] db all h = h
  run-Hold ((now, r) ∷ rs) db all h =
      run-Hold rs (perform now r db) all.1 (perform-Hold now r db all.0.0 all.0.1 h)
