-- ===== src/Tunnels/Guards.antt =====
-- internal/storage/tunnels.go: the guards of joining, of starting and of storing an envelope.
use sendly.Common.{
  String, Bool, true, false, not, ◌&&◌, ◌≡◌, ◌≢◌, refl, ◌∙◌, inl, inr, some, ◌==◌, nat_eq,
  string_eq, int_eq, find, exists, arith, Bool-cases, Result, ok, err, raise_if, or_raise, ◌>>=◌,
  Db, is_faulty, later, statement, query, transaction, end_transaction, ℤ, pos, ap,
}
use sendly.Common.Inversion.{bind_ok, raise_if_ok, query_ok, or_raise_ok}
use sendly.Common.Keeps.{Keeps, OnTables, Keeps-bind, Keeps-query, Keeps-or_raise}
use sendly.Models.{
  Time, Bytes, Error, driver, file_not_found, file_expired, participant_rejected,
  guest_device_required,
}
use sendly.AccountStatus.Text.{trimmed}
use sendly.Tunnels.Tunnel.{Tunnel, TunnelJoin, TunnelEnvelope}
use sendly.Tunnels.Store.{
  Tables, Store, is_tunnel, rejects, is_over, is_host, lock_tunnel, join_locked, join_tunnel,
  confirm_tunnel, is_envelope, save_tunnel_participant_envelope,
}

-- A transaction that succeeds ran its body on the tables as they were, with success.
transaction_ok :
    {A : Type 0} (m : Store A) (db : Db Tables) (a : A)
    → (transaction driver m db).0 ≡ ok a
    → (m (record { faults = later db.faults; tables = db.tables })).0 ≡ ok a
unfolding transaction end_transaction
transaction_ok {A = A} m db a h = elim (Bool-cases (is_faulty db.faults)) [
  | inl bad ↦ absurd (let h' = rw bad at h in cc)
  | inr good ↦ ended (m (record { faults = later db.faults; tables = db.tables })) (rw good at h)
]
  where
    ended :
        (x : Result Error A × Db Tables)
        → (end_transaction driver db.tables x).0 ≡ ok a
        → x.0 ≡ ok a
    ended (ok b, db') e = ground arith
    ended (err x, db') e = cc

lock-same : (k : String) (t : Tables) → Keeps (OnTables (λ s. s ≡ t)) (lock_tunnel k)
unfolding lock_tunnel
lock-same k t = Keeps-bind _ _ (Keeps-query _ _) (λ o. Keeps-or_raise _ _)

-- The transaction of a join by someone whom the host has declined.
locked_out :
    (jsonb : Bytes → Bytes) (id : String) (now : Time) (k device : String) (j : TunnelJoin)
    (db : Db Tables) (a : Tunnel × Bool)
    → exists (rejects k j.user_id device) db.tables.rejections ≡ true
    → (join_locked jsonb id now k device j db).0 ≢ ok a
unfolding join_locked
locked_out jsonb id now k device j db a out done =
    let (t, got, rest) = bind_ok (lock_tunnel k) _ db done in
    let db1 = (lock_tunnel k db).1 in
    let same = ((lock-same k db.tables).at db (record { on = refl })).on in
    let (u, checked, rest') = bind_ok (raise_if (is_over now t) file_expired) _ db1 rest in
    let still = (raise_if_ok (is_over now t) file_expired db1 u checked).1 in
    let (r, asked, rest'') =
      bind_ok (query driver (λ (s : Tables). exists (rejects k j.user_id device) s.rejections)) _
        (raise_if (is_over now t) file_expired db1).1 rest' in
    let read =
      (query_ok driver (λ (s : Tables). exists (rejects k j.user_id device) s.rejections)
        (raise_if (is_over now t) file_expired db1).1 r asked).0 in
    let (u', refused, rest''') = bind_ok (raise_if r participant_rejected) _ _ rest'' in
    let no = (raise_if_ok r participant_rejected _ u' refused).0 in
    let here =
      ap (λ (x : Db Tables). exists (rejects k j.user_id device) x.tables.rejections) still in
    let there = ap (λ (x : Tables). exists (rejects k j.user_id device) x.rejections) same in cc

-- Someone whom the host has declined, as a user or by the device, does not get into the session again.
pub join_tunnel-rejected :
    (jsonb : Bytes → Bytes) (id : String) (now : Time) (tunnel_id : String) (j : TunnelJoin)
    (db : Db Tables) (a : Tunnel × Bool)
    → exists (rejects tunnel_id j.user_id (trimmed j.device_id)) db.tables.rejections ≡ true
    → (join_tunnel jsonb id now tunnel_id j db).0 ≢ ok a
unfolding join_tunnel
join_tunnel-rejected jsonb id now tunnel_id j db a out done =
    let check = raise_if (j.user_id == pos 0 && trimmed j.device_id == "") guest_device_required in
    let (u, checked, rest) = bind_ok check _ db done in
    let still =
      (raise_if_ok (j.user_id == pos 0 && trimmed j.device_id == "") guest_device_required db u
        checked).1 in
    let out' =
      ap
        (λ (x : Db Tables).
          exists (rejects tunnel_id j.user_id (trimmed j.device_id)) x.tables.rejections)
        still
      ∙ out in
    locked_out jsonb id now tunnel_id (trimmed j.device_id) j _ a out' (transaction_ok _ _ a rest)

-- The key envelope of a device is never replaced: a second one is refused, and the tables stay.
pub save_envelope-keeps :
    (e : TunnelEnvelope) (db : Db Tables)
    → exists (is_envelope e.tunnel_id e.participant_device_id) db.tables.envelopes ≡ true
    → ((save_tunnel_participant_envelope e db).1.tables ≡ db.tables)
      × ((save_tunnel_participant_envelope e db).0 ≢ ok tt)
unfolding save_tunnel_participant_envelope statement ◌>>=◌ raise_if
save_envelope-keeps e db there = elim (Bool-cases (is_faulty db.faults)) [
  | inl bad ↦ rw bad (refl, λ e. cc)
  | inr good ↦ rw (good, there) (refl, λ e. cc)
]

-- What the statement checks of the row that it has locked.
pub confirm_tunnel-host :
    (now : Time) (tunnel_id : String) (user : ℤ) (device : String) (db : Db Tables) (a : Tunnel)
    → (confirm_tunnel now tunnel_id user device db).0 ≡ ok a
    → (t : Tunnel) × (find (is_tunnel tunnel_id) db.tables.tunnels ≡ some t)
      × (is_host t user device ≡ true)
      × (is_over now t ≡ false)
unfolding confirm_tunnel lock_tunnel
confirm_tunnel-host now tunnel_id user device db a done =
    let begun : Db Tables = record { faults = later db.faults; tables = db.tables } in
    let body = transaction_ok _ db a done in
    let (t, got, rest) = bind_ok (lock_tunnel tunnel_id) _ begun body in
    let (o, read, raised) =
      bind_ok (query driver (λ (s : Tables). find (is_tunnel tunnel_id) s.tunnels))
        (λ o. or_raise o file_not_found) begun got in
    let found =
      (query_ok driver (λ (s : Tables). find (is_tunnel tunnel_id) s.tunnels) begun o read).0 in
    let there = (or_raise_ok o file_not_found _ t raised).0 in
    let (u, checked, rest') = bind_ok (raise_if (is_over now t) file_expired) _ _ rest in
    let (u', mine, rest'') =
      bind_ok (raise_if (not (is_host t user device)) file_not_found) _ _ rest' in
    (
      t,
      found ∙ there,
      ground (arith, (raise_if_ok (not (is_host t user device)) file_not_found _ u' mine).0),
      (raise_if_ok (is_over now t) file_expired _ u checked).0,
    )
