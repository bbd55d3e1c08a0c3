-- ===== src/Tunnels/Ended.antt =====
-- internal/storage/tunnels.go: the row of a session that has ended, under every change.
use sendly.Common.{
  String, Bool, true, false, ◌&&◌, ◌||◌, ◌≡◌, refl, sym, ◌∙◌, inl, inr, Option, none, some, List,
  [], ◌∷◌, ◌==◌, nat_eq, string_eq, int_eq, ==→eq, ==_refl, find, update, arith, Bool-cases, ok,
  or_raise, Db, query, ℤ, is_nonpos,
}
use sendly.Common.Keeps.{
  Keeps, OnTables, Keeps-statement, Keeps-query, Keeps-bind, Keeps-raise_if, Keeps-pure,
  Keeps-or_raise, Keeps-with_option, Keeps-if, Keeps-transaction,
}
use sendly.Common.KeepsInto.{Keeps-bind_with}
use sendly.Common.Keyed.{find-update, find-some}
use sendly.Common.Inversion.{raise_if_ok, bind_ok, query_ok, or_raise_ok}
use sendly.Models.{Time, Bytes, driver, file_not_found, file_expired}
use sendly.Tunnels.Tunnel.{
  joined, active, ended, tunnel_status_eq, Tunnel, TunnelParticipant, TunnelJoin,
}
use sendly.Tunnels.Store.{
  Tables, Store, is_tunnel, is_over, lock_tunnel, admit, is_empty, has_key, delete_envelopes,
  publish_key, show_joined, join_locked, join_tunnel, approve_tunnel_participant,
  reject_tunnel_participant, started, start_tunnel, confirm_tunnel, end_tunnel,
  end_tunnels_hosted_by, add_tunnel_participant, remove_tunnel_participant,
  save_tunnel_participant_envelope,
}
use sendly.Tunnels.Changes.{
  Change, join, approve, reject, confirm, finish, finish_hosted_by, add_host, leave, save_envelope,
  apply, apply_all,
}

some_eq : (a b : Tunnel) → some a ≡ some b → a ≡ b
some_eq a b e = cc

module _ (id : String) (over : Tunnel) (is_ended : over.status ≡ ended) where
  abbrev Unchanged : Tables → Type 0
  Unchanged s = find (is_tunnel id) s.tunnels ≡ some over

  abbrev Spares : {A : Type 0} → Store A → Type 0
  Spares m = Keeps (OnTables Unchanged) m

  spared :
      (test : Tunnel → Bool) (f : Tunnel → Tunnel) (ts : List Tunnel)
      → ((t : Tunnel) → (f t).id ≡ t.id)
      → test over ≡ false
      → find (is_tunnel id) ts ≡ some over
      → find (is_tunnel id) (update test f ts) ≡ some over
  spared test f ts same miss h =
      find-update (is_tunnel id) test f ts (λ t. rw (same t) refl) ∙ rw (h, miss) refl

  lock-Spares : (k : String) → Spares (lock_tunnel k)
  unfolding lock_tunnel
  lock-Spares k = Keeps-bind _ _ (Keeps-query _ _) (λ o. Keeps-or_raise _ _)

  -- The row that is locked under this identifier is the one that has ended.
  locked :
      (k : String) (db : Db Tables) (t : Tunnel)
      → OnTables Unchanged db
      → (lock_tunnel k db).0 ≡ ok t
      → (k == id) ≡ true
      → t ≡ over
  unfolding lock_tunnel
  locked k db t h e own =
      let (o, read, raised) =
        bind_ok (query driver (λ (s : Tables). find (is_tunnel k) s.tunnels))
          (λ o. or_raise o file_not_found) db e in
      let found = (query_ok driver (λ (s : Tables). find (is_tunnel k) s.tunnels) db o read).0 in
      let there = (or_raise_ok o file_not_found _ t raised).0 in
      let found' = rw (==→eq k id own) at found in some_eq t over (sym there ∙ sym found' ∙ h.on)

  admit-Spares :
      (new : String) (now : Time) (k device : String) (j : TunnelJoin)
      (o : Option TunnelParticipant)
      → Spares (admit new now k device j o)
  unfolding admit
  admit-Spares new now k device j (some p) = Keeps-bind _ _ (Keeps-raise_if _ _) (λ u. Keeps-pure _)
  admit-Spares new now k device j none =
      Keeps-bind _ _ (Keeps-statement _ _ (λ s h. ground arith))
        (λ fresh. Keeps-bind _ _ (Keeps-raise_if _ _) (λ u. Keeps-pure _))

  delete_envelopes-Spares : (k device : String) → Spares (delete_envelopes k device)
  unfolding delete_envelopes
  delete_envelopes-Spares k device = Keeps-statement _ _ (λ s h. h)

  publish-Spares :
      (jsonb : Bytes → Bytes) (k device : String) (j : TunnelJoin) (p : TunnelParticipant)
      → Spares (publish_key jsonb k device j p)
  unfolding publish_key
  publish-Spares jsonb k device j p =
      Keeps-if
        (is_empty j.public_key_jwk || device == "" || has_key p.public_key_jwk j.public_key_jwk) _ _
        (λ e. Keeps-pure _)
        (λ e.
          Keeps-bind _ _ (Keeps-statement _ _ (λ s h. h)) (λ u. delete_envelopes-Spares k device))

  show_joined-Spares : (k : String) → Spares (show_joined k)
  unfolding show_joined
  show_joined-Spares k =
      Keeps-statement _ _
        (λ s h. spared _ (λ t. record t { status = joined }) s.tunnels (λ t. refl) (ground arith) h)

  join-Spares :
      (jsonb : Bytes → Bytes) (new : String) (now : Time) (k : String) (j : TunnelJoin)
      → Spares (join_tunnel jsonb new now k j)
  unfolding join_tunnel join_locked
  join-Spares jsonb new now k j = Keeps-bind _ _ (Keeps-raise_if _ _) (λ u. Keeps-transaction _ _ (
      Keeps-bind _ _ (lock-Spares k) (λ t. Keeps-bind _ _ (Keeps-raise_if _ _) (λ u.
        Keeps-bind _ _ (Keeps-query _ _) (λ rejected. Keeps-bind _ _ (Keeps-raise_if _ _) (λ u.
          Keeps-bind _ _ (Keeps-query _ _) (λ existing.
            Keeps-bind _ _ (admit-Spares new now k _ j existing) (λ row.
              Keeps-bind _ _ (publish-Spares jsonb k _ j row.0) (λ u.
                Keeps-bind _ _ (show_joined-Spares k) (λ u.
                  Keeps-bind _ _ (Keeps-query _ _)
                    (λ o. Keeps-bind _ _ (Keeps-or_raise _ _) (λ after. Keeps-pure _))))))))))))

  start-Spares :
      (now : Time) (k : String) (t : Tunnel) → (k == id) ≡ false → Spares (start_tunnel now k t)
  unfolding start_tunnel
  start-Spares now k t other =
      Keeps-if (t.initiator_confirmed && t.status == active) _ _ (λ e. Keeps-pure _)
        (λ e.
          Keeps-bind _ _
            (Keeps-statement _ _
              (λ s h. spared _ (started now) s.tunnels (λ t. refl) (not_named k s h other) h))
            (λ u. Keeps-bind _ _ (Keeps-query _ _) (λ o. Keeps-or_raise _ _)))
    where
      not_named :
          (k : String) (s : Tables) → Unchanged s → (k == id) ≡ false → is_tunnel k over ≡ false
      not_named k s h other = elim (Bool-cases (over.id == k)) [
        | inl same ↦ absurd (
            let own = ==→eq over.id id (find-some (is_tunnel id) s.tunnels over h) in
            let bad = rw (sym (==→eq over.id k same), own, ==_refl id) at other in cc)
        | inr ne ↦ ne
      ]

  confirm-Spares :
      (now : Time) (k : String) (user : ℤ) (device : String)
      → Spares (confirm_tunnel now k user device)
  unfolding confirm_tunnel
  confirm-Spares now k user device = Keeps-transaction _ _ (
      Keeps-bind_with {Φ = λ t. (k == id) ≡ true → t ≡ over} _ _ (lock-Spares k)
        (λ db t h e. locked k db t h e)
        (λ t lock.
          Keeps-bind_with {Φ = λ u. is_over now t ≡ false} _ _ (Keeps-raise_if _ _)
            (λ db u h e. (raise_if_ok (is_over now t) file_expired db u e).0)
            (λ u live.
              Keeps-bind _ _ (Keeps-raise_if _ _)
                (λ u. start-Spares now k t (another t lock live)))))
    where
      another :
          (t : Tunnel) → ((k == id) ≡ true → t ≡ over) → is_over now t ≡ false → (k == id) ≡ false
      another t lock live = elim (Bool-cases (k == id)) [
        | inl own ↦ absurd (let same = lock own in ground arith)
        | inr other ↦ other
      ]

  reject-Spares : (k p : String) → Spares (reject_tunnel_participant k p)
  unfolding reject_tunnel_participant
  reject-Spares k p = Keeps-transaction _ _ (
      Keeps-bind _ _ (Keeps-statement _ _ (λ s h. h)) (λ removed.
        Keeps-bind _ _ (Keeps-or_raise _ _) (λ row.
          Keeps-bind _ _ (Keeps-with_option _ _ _ (Keeps-pure _) (λ d. delete_envelopes-Spares k d))
            (λ u. Keeps-bind _ _ (Keeps-statement _ _ (λ s h. h)) (λ u. Keeps-pure _)))))

  apply-Unchanged :
      (jsonb : Bytes → Bytes) (now : Time) (change : Change) (db : Db Tables)
      → OnTables Unchanged db
      → OnTables Unchanged (apply jsonb now change db)
  unfolding apply approve_tunnel_participant end_tunnel end_tunnels_hosted_by add_tunnel_participant
      remove_tunnel_participant save_tunnel_participant_envelope
  apply-Unchanged jsonb now (join new k j) db h = (join-Spares jsonb new now k j).at db h
  apply-Unchanged jsonb now (approve k p) db h =
      (Keeps-bind _ _ (Keeps-statement _ _ (λ s h. h)) (λ n. Keeps-raise_if _ _)).at db h
  apply-Unchanged jsonb now (reject k p) db h = (reject-Spares k p).at db h
  apply-Unchanged jsonb now (confirm k user device) db h =
      (confirm-Spares now k user device).at db h
  apply-Unchanged jsonb now (finish k user device) db h =
      (Keeps-bind _ _
          (Keeps-statement _ _ (λ s h. spared _ _ s.tunnels (λ t. refl) (ground arith) h))
          (λ n. Keeps-raise_if _ _)).at
        db h
  apply-Unchanged jsonb now (finish_hosted_by user) db h =
      (Keeps-if (is_nonpos user) _ _ (λ e. Keeps-pure _)
          (λ e. Keeps-statement _ _ (λ s h. spared _ _ s.tunnels (λ t. refl) (ground arith) h))).at
        db h
  apply-Unchanged jsonb now (add_host new k user device) db h =
      (Keeps-bind _ _ (Keeps-statement _ _ (λ s h. ground arith)) (λ n. Keeps-pure _)).at db h
  apply-Unchanged jsonb now (leave k user device) db h = (Keeps-statement _ _ (λ s h. h)).at db h
  apply-Unchanged jsonb now (save_envelope e) db h =
      (Keeps-bind _ _ (Keeps-statement _ _ (λ s h. ground arith)) (λ n. Keeps-raise_if _ _)).at db h

  applied :
      (jsonb : Bytes → Bytes) (changes : List (Time × Change)) (db : Db Tables)
      → OnTables Unchanged db
      → OnTables Unchanged (apply_all jsonb changes db)
  unfolding apply_all
  applied jsonb [] db h = h
  applied jsonb ((now, change) ∷ changes) db h =
      applied jsonb changes (apply jsonb now change db) (apply-Unchanged jsonb now change db h)

-- Once a session has ended, no sequence of joins, confirmations, approvals and rejections, of ends and
-- of envelopes changes its row, whichever statements fail.
pub apply_all-ended :
    (jsonb : Bytes → Bytes) (id : String) (over : Tunnel) (changes : List (Time × Change))
    (db : Db Tables)
    → over.status ≡ ended
    → find (is_tunnel id) db.tables.tunnels ≡ some over
    → find (is_tunnel id) (apply_all jsonb changes db).tables.tunnels ≡ some over
apply_all-ended jsonb id over changes db is_ended h =
    (applied id over is_ended jsonb changes db (record { on = h })).on
