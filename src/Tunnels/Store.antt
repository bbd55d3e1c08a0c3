-- ===== src/Tunnels/Store.antt =====
-- internal/storage/tunnels.go: the statements that change a session, and those that guard them.
-- `now` is both the clock of the replica and the database's NOW(); `id` stands for `gen_random_uuid`.
use sendly.Common.{
  ℕ, String, Bool, true, false, not, ◌&&◌, ◌||◌, ◌==◌, nat_eq, string_eq, int_eq, ltb, Option, none,
  some, List, [], ◌∷◌, if◌then◌else◌, find, exists, update, delete, count, Action, pure, raise_if,
  or_raise, with_option, ◌>>=◌, ◌>>◌, Db, statement, query, transaction, ℤ, pos, is_nonpos,
}
use sendly.Models.{
  Time, Bytes, Error, driver, file_not_found, file_expired, guest_device_required,
  participant_rejected, participant_conflict, envelope_exists,
}
use sendly.AccountStatus.Text.{trimmed}
use sendly.Tunnels.Tunnel.{
  pending, joined, active, ended, expired, tunnel_status_eq, Tunnel, TunnelParticipant, TunnelJoin,
  TunnelEnvelope, TunnelRejection,
}

pub record Tables : Type 0 where
  pub tunnels : List Tunnel
  pub participants : List TunnelParticipant
  pub envelopes : List TunnelEnvelope
  pub rejections : List TunnelRejection

abbrev pub Store : Type 0 → Type 0
Store A = Action Error (Db Tables) A

abbrev ⊤ : Type 0
⊤ = Unit {0}

abbrev pub nullable_int64 : ℤ → Option ℤ
nullable_int64 n = if n == pos 0 then none else some n

unfoldable pub nullable_string : String → Option String
unfolding trimmed
nullable_string s = if trimmed s == "" then none else some s

-- A column that equals a value, which NULL does not.
abbrev pub is_text : Option String → String → Bool
is_text none s = false
is_text (some t) s = t == s

abbrev pub is_int : Option ℤ → ℤ → Bool
is_int none n = false
is_int (some m) n = m == n

abbrev pub is_null : Option String → Bool
is_null none = true
is_null (some s) = false

abbrev pub is_tunnel : String → Tunnel → Bool
is_tunnel id t = t.id == id

abbrev pub is_participant : String → TunnelParticipant → Bool
is_participant id p = p.id == id

-- The session is over: by its status, or by the clock.
abbrev pub is_over : Time → Tunnel → Bool
is_over now t = ltb t.expires_at now || t.status == ended || t.status == expired

unfoldable pub lock_tunnel : String → Store Tunnel
lock_tunnel id = do
  found ← query driver (λ s. find (is_tunnel id) s.tunnels)
  or_raise found file_not_found

-- The `WHERE` of the query on rejections.
abbrev pub rejects : String → ℤ → String → TunnelRejection → Bool
rejects tunnel_id user device r =
    r.tunnel_id == tunnel_id
    && ((not (user == pos 0) && is_int r.cns_user_id user)
        || (not (device == "") && is_text r.device_id device))

unfoldable pub is_rejected_from_tunnel : String → ℤ → String → Store Bool
unfolding trimmed
is_rejected_from_tunnel tunnel_id user device =
    query driver (λ s. exists (rejects tunnel_id user (trimmed device)) s.rejections)

-- The row of the device, or without a device the row of the user that has none.
abbrev pub is_joiner : String → ℤ → String → TunnelParticipant → Bool
is_joiner tunnel_id user device p =
    p.tunnel_id == tunnel_id
    && (if not (device == "")
        then is_text p.device_id device
        else is_int p.cns_user_id user && is_null p.device_id)

unfoldable pub participant_owned_by : TunnelParticipant → ℤ → String → Bool
participant_owned_by p user presented =
    if not (user == pos 0) then is_int p.cns_user_id user else elim p.cns_user_id [
      | some n ↦ false
      | none ↦ not (presented == "") && is_text p.token_hash presented
    ]

-- `UNIQUE (tunnel_id, cns_user_id, device_id)`, which rows with a NULL in it never break.
abbrev pub same_member : TunnelParticipant → TunnelParticipant → Bool
same_member p q =
    p.tunnel_id == q.tunnel_id
    && elim p.cns_user_id [ none ↦ false | some n ↦ is_int q.cns_user_id n ]
    && elim p.device_id [ none ↦ false | some d ↦ is_text q.device_id d ]

abbrev pub is_taken : TunnelParticipant → Tables → Bool
is_taken p s = exists (is_participant p.id) s.participants || exists (same_member p) s.participants

abbrev pub insert_participant : TunnelParticipant → Tables → Bool × Tables
insert_participant p s =
    if is_taken p s then (false, s) else (true, record s { participants = p ∷ s.participants })

unfoldable pub new_participant :
    String → Time → String → ℤ → String → Option String → TunnelParticipant
unfolding nullable_string
new_participant id now tunnel_id user device token_hash = record {
  id = id;
  tunnel_id = tunnel_id;
  cns_user_id = nullable_int64 user;
  device_id = nullable_string device;
  joined_at = now;
  public_key_jwk = none;
  key_algorithm = none;
  key_version = none;
  token_hash = token_hash;
  approved_at = none;
}

unfoldable pub token_for : TunnelJoin → Option String
unfolding nullable_string
token_for join = if join.user_id == pos 0 then nullable_string join.new_token_hash else none

abbrev pub is_valid : Option String → Bool
is_valid none = false
is_valid (some s) = true

-- `COALESCE(public_key_jwk, 'null'::jsonb)`
abbrev pub null_json : Bytes
null_json = b'n' ∷ b'u' ∷ b'l' ∷ b'l' ∷ []

abbrev pub or_null : Option Bytes → Bytes
or_null none = null_json
or_null (some key) = key

abbrev pub coalesced : TunnelParticipant → TunnelParticipant
coalesced p = record p { public_key_jwk = some (or_null p.public_key_jwk) }

-- The row that joins, and whether a token was issued for it.
unfoldable pub admit :
    String
    → Time
    → String
    → String
    → TunnelJoin
    → Option TunnelParticipant
    → Store (TunnelParticipant × Bool)
unfolding participant_owned_by new_participant token_for
admit id now tunnel_id device join (some existing) = do
  raise_if (not (participant_owned_by existing join.user_id join.presented_token_hash))
      participant_conflict
  pure (coalesced existing, false)
admit id now tunnel_id device join none = do
  let row = new_participant id now tunnel_id join.user_id device (token_for join)
  fresh ← statement driver (insert_participant row)
  raise_if (not fresh) driver
  pure (row, is_valid (token_for join))

-- `bytes.Equal`
unfoldable pub same_bytes : Bytes → Bytes → Bool
same_bytes [] [] = true
same_bytes [] (b ∷ bs) = false
same_bytes (a ∷ rest) [] = false
same_bytes (a ∷ rest) (b ∷ bs) = a == b && same_bytes rest bs

abbrev pub is_empty : Bytes → Bool
is_empty [] = true
is_empty (b ∷ bs) = false

unfoldable pub has_key : Option Bytes → Bytes → Bool
unfolding same_bytes
has_key none key = false
has_key (some k) key = same_bytes k key

-- `jsonb` is the text in which the database gives back a document that it was given.
abbrev pub with_key : (Bytes → Bytes) → TunnelJoin → TunnelParticipant → TunnelParticipant
with_key jsonb join p = record p {
  public_key_jwk = some (jsonb join.public_key_jwk);
  key_algorithm = some join.key_algorithm;
  key_version = some join.key_version;
}

abbrev pub is_envelope : String → String → TunnelEnvelope → Bool
is_envelope tunnel_id device e = e.tunnel_id == tunnel_id && e.participant_device_id == device

unfoldable pub delete_envelopes : String → String → Store ⊤
delete_envelopes tunnel_id device =
    statement driver
      (λ s. (tt, record s { envelopes = delete (is_envelope tunnel_id device) s.envelopes }))

-- A new public key: the envelope for the earlier one is of no use any more.
unfoldable pub publish_key :
    (Bytes → Bytes) → String → String → TunnelJoin → TunnelParticipant → Store ⊤
unfolding has_key
publish_key jsonb tunnel_id device join p =
    if is_empty join.public_key_jwk || device == "" || has_key p.public_key_jwk join.public_key_jwk
    then pure tt
    else do
      statement driver (λ s. (
        tt,
        record s {
          participants = update (is_participant p.id) (with_key jsonb join) s.participants;
        },
      ))
      delete_envelopes tunnel_id device

-- A pending session shows as joined once someone is in.
unfoldable pub show_joined : String → Store ⊤
show_joined tunnel_id = statement driver (λ s. (
  tt,
  record s {
    tunnels =
        update (λ t. is_tunnel tunnel_id t && t.status == pending)
          (λ t. record t { status = joined }) s.tunnels;
  },
))

-- The transaction of `JoinTunnel`.
unfoldable pub join_locked :
    (Bytes → Bytes) → String → Time → String → String → TunnelJoin → Store (Tunnel × Bool)
join_locked jsonb id now tunnel_id device join = do
  t ← lock_tunnel tunnel_id
  raise_if (is_over now t) file_expired
  rejected ← query driver (λ s. exists (rejects tunnel_id join.user_id device) s.rejections)
  raise_if rejected participant_rejected
  existing ← query driver (λ s. find (is_joiner tunnel_id join.user_id device) s.participants)
  row ← admit id now tunnel_id device join existing
  publish_key jsonb tunnel_id device join row.0
  show_joined tunnel_id
  found ← query driver (λ s. find (is_tunnel tunnel_id) s.tunnels)
  after ← or_raise found driver
  pure (after, row.1)

unfoldable pub join_tunnel :
    (Bytes → Bytes) → String → Time → String → TunnelJoin → Store (Tunnel × Bool)
unfolding trimmed
join_tunnel jsonb id now tunnel_id join = do
  raise_if (join.user_id == pos 0 && trimmed join.device_id == "") guest_device_required
  transaction driver (join_locked jsonb id now tunnel_id (trimmed join.device_id) join)

-- `COALESCE(at, NOW())`
abbrev pub or_now : Time → Option Time → Option Time
or_now now none = some now
or_now now (some t) = some t

unfoldable pub approve_tunnel_participant : Time → String → String → Store ⊤
approve_tunnel_participant now tunnel_id id = do
  let test = λ (p : TunnelParticipant). p.tunnel_id == tunnel_id && is_participant id p
  n ← statement driver (λ s. (
    count test s.participants,
    record s {
      participants =
          update test (λ p. record p { approved_at = or_now now p.approved_at }) s.participants;
    },
  ))
  raise_if (n == 0) file_not_found

unfoldable pub reject_tunnel_participant : String → String → Store TunnelParticipant
reject_tunnel_participant tunnel_id id = transaction driver (do
  let test = λ (p : TunnelParticipant). p.tunnel_id == tunnel_id && is_participant id p
  removed ←
      statement driver
        (λ s. (find test s.participants, record s { participants = delete test s.participants }))
  p ← or_raise removed file_not_found
  with_option p.device_id (pure tt) (delete_envelopes tunnel_id)
  statement driver (λ s. (
    tt,
    record s {
      rejections =
          record { tunnel_id = tunnel_id; cns_user_id = p.cns_user_id; device_id = p.device_id }
          ∷ s.rejections;
    },
  ))
  pure p)

abbrev pub is_host : Tunnel → ℤ → String → Bool
is_host t user device =
    (not (user == pos 0) && t.initiator_cns_user_id == user)
    || (user == pos 0 && t.initiator_cns_user_id == pos 0 && is_text t.initiator_device_id device)

abbrev pub started : Time → Tunnel → Tunnel
started now t = record t {
  initiator_confirmed = true;
  status = active;
  confirmed_at = or_now now t.confirmed_at;
}

unfoldable pub start_tunnel : Time → String → Tunnel → Store Tunnel
start_tunnel now tunnel_id t = if t.initiator_confirmed && t.status == active then pure t else do
  statement driver
      (λ s. (tt, record s { tunnels = update (is_tunnel tunnel_id) (started now) s.tunnels }))
  found ← query driver (λ s. find (is_tunnel tunnel_id) s.tunnels)
  or_raise found driver

unfoldable pub confirm_tunnel : Time → String → ℤ → String → Store Tunnel
confirm_tunnel now tunnel_id user device = transaction driver (do
  t ← lock_tunnel tunnel_id
  raise_if (is_over now t) file_expired
  raise_if (not (is_host t user device)) file_not_found
  start_tunnel now tunnel_id t)

unfoldable pub end_tunnel : Time → String → ℤ → String → Store ⊤
unfolding nullable_string
end_tunnel now tunnel_id user device = do
  let test = λ (t : Tunnel). is_tunnel tunnel_id t && not (t.status == ended)
  n ← statement driver (λ s. (
    count test s.tunnels,
    record s {
      tunnels =
          update test
            (λ t. record t {
              status = ended;
              ended_at = some now;
              ended_by_cns_user_id = some user;
              ended_by_device_id = nullable_string device;
            })
            s.tunnels;
    },
  ))
  raise_if (n == 0) file_not_found

unfoldable pub end_tunnels_hosted_by : Time → ℤ → Store ℕ
end_tunnels_hosted_by now user = if is_nonpos user then pure 0 else do
  let test = λ (t : Tunnel).
      t.initiator_cns_user_id == user
      && not (t.status == ended)
      && not (t.status == expired)
      && ltb now t.expires_at
  statement driver (λ s. (
    count test s.tunnels,
    record s {
      tunnels =
          update test
            (λ t. record t {
              status = ended;
              ended_at = some now;
              ended_by_cns_user_id = some user;
            })
            s.tunnels;
    },
  ))

-- The host's own row, approved from the start; a conflict adds nothing.
unfoldable pub add_tunnel_participant : String → Time → String → ℤ → String → Store ⊤
unfolding new_participant
add_tunnel_participant id now tunnel_id user device = do
  let row = record (new_participant id now tunnel_id user device none) { approved_at = some now }
  fresh ← statement driver (insert_participant row)
  pure tt

unfoldable pub remove_tunnel_participant : String → ℤ → String → Store ⊤
remove_tunnel_participant tunnel_id user device = do
  let test = λ (p : TunnelParticipant).
      p.tunnel_id == tunnel_id
      && (if not (user == pos 0) then is_int p.cns_user_id user else is_text p.device_id device)
  statement driver (λ s. (tt, record s { participants = delete test s.participants }))

abbrev pub insert_envelope : TunnelEnvelope → Tables → Bool × Tables
insert_envelope e s =
    if exists (is_envelope e.tunnel_id e.participant_device_id) s.envelopes
    then (false, s)
    else (true, record s { envelopes = e ∷ s.envelopes })

unfoldable pub save_tunnel_participant_envelope : TunnelEnvelope → Store ⊤
save_tunnel_participant_envelope e = do
  fresh ← statement driver (insert_envelope e)
  raise_if (not fresh) envelope_exists

unfoldable pub participant_has_envelope : String → String → Store Bool
participant_has_envelope tunnel_id device = do
  n ← query driver (λ s. count (is_envelope tunnel_id device) s.envelopes)
  pure (ltb 0 n)
