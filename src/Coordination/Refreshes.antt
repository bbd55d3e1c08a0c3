-- ===== src/Coordination/Refreshes.antt =====
-- internal/storage/coordination.go: SharedRefresh on the replicas.
use sendly.Common.{
  ◌+◌, ◌<◌, String, Bool, true, false, ◌&&◌, ◌≡◌, refl, ap, ◌∙◌, sym, inl, inr, ◌==◌, nat_eq,
  string_eq, ltb, Option, none, some, List, [], ◌∷◌, find, exists, update, All, arith, Bool-cases,
  Result, ok, err, raise, pure, handle, with_option, ◌>>=◌, Db, statement, query, transaction,
  end_transaction, ==→eq, ==_refl, lt→ltb,
}
use sendly.Common.Keyed.{find-update_other, find-and, find-kept}
use sendly.Common.Keeps.{
  Keeps, OnTables, Keeps-bind, Keeps-query, Keeps-statement, Keeps-transaction, Keeps-pure,
  Keeps-raise, Keeps-handle,
}
use sendly.Common.KeepsInto.{Keeps-bind_with}
use sendly.Common.Inversion.{query_ok}
use sendly.Models.{Time, Bytes, Error, driver}
use sendly.Coordination.Store.{
  TokenRefreshResult, Tables, is_token, store_result, refresh_now, shared_refresh,
  purge_token_refresh_results,
}

pub data Call : Type 0 where
  refresh : Time → String → Time → Result Error Bytes → Call
  purge : Time → Call

-- No later than a time.
abbrev pub By : Time → Call → Type 0
By until (refresh now token ttl refreshed) = now < until
By until (purge now) = now < until

overwritten :
    (r : TokenRefreshResult) (rs : List TokenRefreshResult)
    → exists (is_token r.token_id) rs ≡ true
    → find (is_token r.token_id) (
        update
          (is_token r.token_id)
          (λ old. record old { sealed = r.sealed; expires_at = r.expires_at })
          rs)
      ≡ some r
overwritten r [] there = cc
overwritten r (x ∷ xs) there = elim (Bool-cases (x.token_id == r.token_id)) [
  | inl hit ↦
      rw (hit, hit) (ap (λ k. some (record r { token_id = k })) (==→eq x.token_id r.token_id hit))
  | inr miss ↦ rw (miss, miss) (overwritten r xs (rw miss at there))
]

-- What is read of a result that is held.
abbrev Found : TokenRefreshResult → String → Option TokenRefreshResult → Type 0
Found r token o = (token == r.token_id) ≡ true → o ≡ some r

module _ {W : Type 0} where
  abbrev reads : Time → String → Tables W → Option TokenRefreshResult
  reads now token t = find (λ r. is_token token r && ltb now r.expires_at) t.refreshes

  abbrev pub called : Call → Db (Tables W) → Db (Tables W)
  called (refresh now token ttl refreshed) db = (shared_refresh now token ttl refreshed db).1
  called (purge now) db = (purge_token_refresh_results now db).1

  abbrev pub called_all : List Call → Db (Tables W) → Db (Tables W)
  called_all [] db = db
  called_all (c ∷ calls) db = called_all calls (called c db)

  abbrev Held : TokenRefreshResult → Tables W → Type 0
  Held r t = find (is_token r.token_id) t.refreshes ≡ some r

  stored : (r : TokenRefreshResult) (t : Tables W) → Held r (store_result r t).1
  stored r t = elim (Bool-cases (exists (is_token r.token_id) t.refreshes)) [
    | inl there ↦ rw there (overwritten r t.refreshes there)
    | inr absent ↦ rw (absent, ==_refl r.token_id) refl
  ]

  stored_other :
      (r s : TokenRefreshResult) (t : Tables W)
      → (s.token_id == r.token_id) ≡ false
      → Held r t
      → Held r (store_result s t).1
  stored_other r s t ne h = elim (Bool-cases (exists (is_token s.token_id) t.refreshes)) [
    | inl there ↦ rw there (
        find-update_other (is_token r.token_id) (is_token s.token_id)
          (λ old. record old { sealed = s.sealed; expires_at = s.expires_at }) t.refreshes
          (λ x. refl)
          (λ x hit. ground (
            arith,
            ==→eq x.token_id r.token_id hit,
            string_eq.reflects x.token_id s.token_id,
            string_eq.reflects s.token_id r.token_id,
            string_eq.reflects r.token_id r.token_id,
          ))
        ∙ h)
    | inr absent ↦ rw (absent, ne) h
  ]

  -- A refresh that was run and succeeded has stored its result.
  refreshed_lem :
      (now : Time) (token : String) (ttl : Time) (answer : Result Error Bytes) (db : Db (Tables W))
      (sealed : Bytes)
      → (shared_refresh now token ttl answer db).0 ≡ ok (sealed, false)
      → Held
          (record { token_id = token; sealed = sealed; expires_at = now + ttl })
          (shared_refresh now token ttl answer db).1.tables
  unfolding shared_refresh refresh_now transaction end_transaction query statement pure raise handle
      with_option ◌>>=◌
  refreshed_lem now token ttl (err e) db sealed h = absurd (ground arith)
  refreshed_lem now token ttl (ok s) db sealed h = ground (
    arith,
    stored (record { token_id = token; sealed = sealed; expires_at = now + ttl }) db.tables,
  )

  reads-Found :
      (r : TokenRefreshResult) (now : Time) (token : String) (t : Tables W)
      → now < r.expires_at
      → Held r t
      → Found r token (reads now token t)
  reads-Found r now token t early h mine =
      let k = ==→eq token r.token_id mine in
      rw k (
        find-and (is_token r.token_id) (λ x. ltb now x.expires_at) t.refreshes r h
          (lt→ltb _ _ early))

  refresh_now-keeps :
      (r : TokenRefreshResult) (now : Time) (token : String) (ttl : Time)
      (answer : Result Error Bytes)
      → (token == r.token_id) ≡ false
      → Keeps (OnTables (Held r)) (refresh_now now token ttl answer)
  unfolding refresh_now
  refresh_now-keeps r now token ttl answer other =
      Keeps-handle answer _ _
        (λ sealed.
          Keeps-bind _ _
            (Keeps-statement _ _ (λ t h.
              stored_other r (record { token_id = token; sealed = sealed; expires_at = now + ttl })
                t other h))
            (λ u. Keeps-pure _))
        (λ e. Keeps-raise e)

  Keeps-read :
      (r : TokenRefreshResult) (now : Time) (token : String) (ttl : Time)
      (answer : Result Error Bytes) (o : Option TokenRefreshResult)
      → Found r token o
      → Keeps
          (OnTables (Held r))
          (with_option o (refresh_now now token ttl answer) (λ x. pure (x.sealed, true)))
  unfolding with_option
  Keeps-read r now token ttl answer none found = elim (Bool-cases (token == r.token_id)) [
    | inl mine ↦ absurd (let no_row = found mine in cc)
    | inr other ↦ refresh_now-keeps r now token ttl answer other
  ]
  Keeps-read r now token ttl answer (some x) found = Keeps-pure (x.sealed, true)

  shared_refresh-keeps :
      (r : TokenRefreshResult) (now : Time) (token : String) (ttl : Time)
      (answer : Result Error Bytes)
      → now < r.expires_at
      → Keeps (OnTables (Held r)) (shared_refresh now token ttl answer)
  unfolding shared_refresh
  shared_refresh-keeps r now token ttl answer early = Keeps-transaction _ _ (
      Keeps-bind _ _ (Keeps-query _ _) (λ u.
        Keeps-bind_with {Φ = Found r token} _ _ (Keeps-query _ _)
          (λ db o h read mine.
            sym (query_ok driver (reads now token) db o read).0
            ∙ reads-Found r now token db.tables early h.on mine)
          (λ o found. Keeps-read r now token ttl answer o found)))

  purge-keeps :
      (r : TokenRefreshResult) (now : Time)
      → now < r.expires_at
      → Keeps (OnTables (Held r)) (purge_token_refresh_results now)
  unfolding purge_token_refresh_results
  purge-keeps r now early = Keeps-statement _ _ (λ t h.
      find-kept (is_token r.token_id) (λ x. ltb x.expires_at now) t.refreshes r h (ground arith))

  calls-keep :
      (r : TokenRefreshResult) (calls : List Call) (db : Db (Tables W))
      → All (By r.expires_at) calls
      → Held r db.tables
      → Held r (called_all calls db).tables
  calls-keep r [] db early h = h
  calls-keep r (refresh now token ttl answer ∷ calls) db early h =
      calls-keep r calls _ early.1
        ((shared_refresh-keeps r now token ttl answer early.0).at db (record { on = h })).on
  calls-keep r (purge now ∷ calls) db early h =
      calls-keep r calls _ early.1 ((purge-keeps r now early.0).at db (record { on = h })).on

  Held-answer :
      (r : TokenRefreshResult) (now : Time) (ttl : Time) (answer : Result Error Bytes)
      (db : Db (Tables W)) (got : Bytes × Bool)
      → now < r.expires_at
      → Held r db.tables
      → (shared_refresh now r.token_id ttl answer db).0 ≡ ok got
      → got ≡ (r.sealed, true)
  unfolding shared_refresh transaction end_transaction query statement pure with_option ◌>>=◌
  Held-answer r now ttl answer db got early h done =
      ground (arith, reads-Found r now r.token_id db.tables early h (==_refl r.token_id))

  -- A token is refreshed at most once while its result is kept: after a call of SharedRefresh that ran
  -- the refresh, and whatever other calls and purges, every call before the result expires that
  -- succeeds answers that result and not what its own refresh would.
  pub shared_refresh-once :
      (now : Time) (token : String) (ttl : Time) (answer : Result Error Bytes) (db : Db (Tables W))
      (sealed : Bytes) (calls : List Call) (now' ttl' : Time) (answer' : Result Error Bytes)
      (got : Bytes × Bool)
      → (shared_refresh now token ttl answer db).0 ≡ ok (sealed, false)
      → All (By (now + ttl)) calls
      → now' < now + ttl
      → (shared_refresh now' token ttl' answer'
          (called_all calls (shared_refresh now token ttl answer db).1)).0
        ≡ ok got
      → got ≡ (sealed, true)
  shared_refresh-once now token ttl answer db sealed calls now' ttl' answer' got first between early
        second =
      let r : TokenRefreshResult = record {
        token_id = token;
        sealed = sealed;
        expires_at = now + ttl;
      } in
      Held-answer r now' ttl' answer' _ got early
        (calls-keep r calls _ between (refreshed_lem now token ttl answer db sealed first)) second
