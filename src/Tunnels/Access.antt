-- ===== src/Tunnels/Access.antt =====
-- internal/handlers/tunnel_auth.go: what a caller of a session has shown.
use sendly.Common.{
  String, Bool, true, false, not, ◌&&◌, ◌||◌, ◌≡◌, refl, sym, ◌∙◌, inl, inr, ◌==◌, string_eq,
  int_eq, Bool-cases, if◌then◌else◌, Option, none, some, List, [], ◌∷◌, map, select, All, All-find,
  arith, Result, ok, pure, Db, query, ℤ, pos,
}
use sendly.Common.Inversion.{bind_ok, query_ok}
use sendly.Common.Keyed.{find-some}
use sendly.Models.{Error, driver}
use sendly.AccountStatus.Text.{trimmed}
use sendly.Retention.Batch.{All-select, All-order_by, All-with}
use sendly.Tunnels.Tunnel.{Tunnel, TunnelParticipant}
use sendly.Tunnels.Store.{Tables, Store, is_text, is_int, coalesced, participant_owned_by}
use sendly.Tunnels.Auth.{
  TunnelRequest, TunnelCaller, is_nobody, device_rank, is_member, is_guest, members, owned,
  find_member, find_guest, find_tunnel_participant, is_tunnel_host, hash_participant_token, user_id,
  is_there, authorize_tunnel_caller,
}

-- A row of the session that belongs to the user, or to a guest whose token has that hash.
abbrev pub is_right : String → ℤ → String → TunnelParticipant → Bool
is_right tunnel_id user presented p =
    p.tunnel_id == tunnel_id
    && (if not (user == pos 0)
        then is_int p.cns_user_id user
        else is_nobody p.cns_user_id && not (presented == "") && is_text p.token_hash presented)

abbrev IsRight : String → ℤ → String → Option TunnelParticipant → Type 0
IsRight tunnel_id user presented none = Unit
IsRight tunnel_id user presented (some p) = is_right tunnel_id user presented p ≡ true

All-coalesced :
    (test : TunnelParticipant → Bool) (ps : List TunnelParticipant)
    → ((p : TunnelParticipant) → test (coalesced p) ≡ test p)
    → All (λ p. test p ≡ true) ps
    → All (λ p. test p ≡ true) (map coalesced ps)
All-coalesced test [] same h = tt
All-coalesced test (p ∷ ps) same h = (same p ∙ h.0, All-coalesced test ps same h.1)

All-true : (ps : List TunnelParticipant) → All (λ p. Unit {0}) ps
All-true [] = tt
All-true (p ∷ ps) = (tt, All-true ps)

members-All :
    (tunnel_id : String) (user : ℤ) (device : String) (ps : List TunnelParticipant)
    → All
        (λ p. is_member tunnel_id user p ≡ true)
        (map coalesced (members tunnel_id user device ps))
members-All tunnel_id user device ps =
    All-coalesced (is_member tunnel_id user) (members tunnel_id user device ps) (λ p. refl)
      (All-order_by _ (device_rank device) _ (
        All-order_by _ (λ (p : TunnelParticipant). p.joined_at) _
          (All-with _ _ _ (λ p h. h.1) (All-select _ (is_member tunnel_id user) ps (All-true ps)))))

guests-All :
    (tunnel_id device : String) (ps : List TunnelParticipant)
    → All
        (λ p. is_guest tunnel_id device p ≡ true)
        (map coalesced (select (is_guest tunnel_id device) ps))
guests-All tunnel_id device ps =
    All-coalesced (is_guest tunnel_id device) (select (is_guest tunnel_id device) ps) (λ p. refl)
      (All-with _ _ _ (λ p h. h.1) (All-select _ (is_guest tunnel_id device) ps (All-true ps)))

-- The row that is found among rows of the session.
owned-IsRight :
    (test : TunnelParticipant → Bool) (tunnel_id : String) (user : ℤ) (presented : String)
    (rows : List TunnelParticipant) (o : Option TunnelParticipant)
    → ((p : TunnelParticipant)
        → test p ≡ true
        → participant_owned_by p user presented ≡ true
        → is_right tunnel_id user presented p ≡ true)
    → All (λ p. test p ≡ true) rows
    → owned user presented rows ≡ o
    → IsRight tunnel_id user presented o
owned-IsRight test tunnel_id user presented rows none shows all e = tt
owned-IsRight test tunnel_id user presented rows (some p) shows all e =
    shows p (All-find (λ p. test p ≡ true) (λ p. participant_owned_by p user presented) rows all e)
      (find-some (λ p. participant_owned_by p user presented) rows p e)

find_member-IsRight :
    (tunnel_id : String) (user : ℤ) (device presented : String) (db : Db Tables)
    (o : Option TunnelParticipant)
    → (user == pos 0) ≡ false
    → (find_member tunnel_id user device presented db).0 ≡ ok o
    → IsRight tunnel_id user presented o
unfolding find_member participant_owned_by pure
find_member-IsRight tunnel_id user device presented db o signed_in got =
    let (rows, asked, found) = bind_ok (query driver _) _ db got in
    let (is_rows, same) = query_ok driver _ db rows asked in
    owned-IsRight (is_member tunnel_id user) tunnel_id user presented rows o
      (λ p mine own. rw signed_in mine)
      (let all = members-All tunnel_id user device db.tables.participants in rw is_rows at all)
      (ground arith)

find_guest-IsRight :
    (tunnel_id : String) (user : ℤ) (device presented : String) (db : Db Tables)
    (o : Option TunnelParticipant)
    → (user == pos 0) ≡ true
    → (find_guest tunnel_id user device presented db).0 ≡ ok o
    → IsRight tunnel_id user presented o
unfolding find_guest participant_owned_by pure
find_guest-IsRight tunnel_id user device presented db o guest got =
    let (rows, asked, found) = bind_ok (query driver _) _ db got in
    let (is_rows, same) = query_ok driver _ db rows asked in
    owned-IsRight (is_guest tunnel_id device) tunnel_id user presented rows o
      (λ p mine own. shows p mine own)
      (let all = guests-All tunnel_id device db.tables.participants in rw is_rows at all)
      (ground arith)
  where
    shows :
        (p : TunnelParticipant)
        → is_guest tunnel_id device p ≡ true
        → participant_owned_by p user presented ≡ true
        → is_right tunnel_id user presented p ≡ true
    shows p mine own = ground (arith, mine, own, guest)

-- One of three ways was taken.
one_of :
    {P : Type 0} (signed_in blank : Bool) (m n : Store (Option TunnelParticipant)) (db : Db Tables)
    (o : Option TunnelParticipant)
    → ((if signed_in then m else if blank then pure none else n) db).0 ≡ ok o
    → (signed_in ≡ true → (m db).0 ≡ ok o → P)
    → (o ≡ none → P)
    → (signed_in ≡ false → (n db).0 ≡ ok o → P)
    → P
unfolding pure
one_of true blank m n db o got first second third = first refl got
one_of false true m n db o got first second third = second (ground arith)
one_of false false m n db o got first second third = third refl got

find_tunnel_participant-IsRight :
    (tunnel_id : String) (user : ℤ) (device presented : String) (db : Db Tables)
    (o : Option TunnelParticipant)
    → (find_tunnel_participant tunnel_id user device presented db).0 ≡ ok o
    → IsRight tunnel_id user presented o
unfolding find_tunnel_participant
find_tunnel_participant-IsRight tunnel_id user device presented db o got =
    one_of {P = IsRight tunnel_id user presented o} (not (user == pos 0))
      (trimmed device == "" || presented == "")
      (find_member tunnel_id user (trimmed device) presented)
      (find_guest tunnel_id user (trimmed device) presented) db o got
      (λ signed_in found.
        find_member-IsRight tunnel_id user (trimmed device) presented db o (ground arith) found)
      (λ absent. rw absent tt)
      (λ guest found.
        find_guest-IsRight tunnel_id user (trimmed device) presented db o (ground arith) found)

-- What a caller must have shown: the right of the host, or that of the row that is taken for theirs.
abbrev pub has_shown : (String → String) → TunnelRequest → Tunnel → Option TunnelParticipant → Bool
has_shown sha256 r t none = is_tunnel_host r t
has_shown sha256 r t (some p) =
    is_right t.id (user_id r.user) (hash_participant_token sha256 r.participant_token) p

-- A caller whom a session lets in has shown who they are, and a device identifier alone is not enough:
-- they are its host, by their account or for a session of a guest by its token, or have a row of it,
-- by their account or for a row without one by its token. They pass for the host only with its right.
pub authorize_tunnel_caller-shown :
    (sha256 : String → String) (r : TunnelRequest) (t : Tunnel) (db : Db Tables) (c : TunnelCaller)
    → (authorize_tunnel_caller sha256 r t db).0 ≡ ok (some c)
    → (c.is_host ≡ is_tunnel_host r t) × (has_shown sha256 r t c.participant ≡ true)
unfolding authorize_tunnel_caller pure
authorize_tunnel_caller-shown sha256 r t db c got =
    let (o, asked, answered) =
      bind_ok
        (find_tunnel_participant t.id (user_id r.user) r.device_id
          (hash_participant_token sha256 r.participant_token))
        _ db got in
    let right = find_tunnel_participant-IsRight t.id (user_id r.user) r.device_id _ db o asked in
    admitted o right answered
  where
    answer_to : Option TunnelParticipant → Result Error (Option TunnelCaller)
    answer_to o = ok (
        if not (is_tunnel_host r t) && not (is_there o)
        then none
        else some (record { tunnel = t; is_host = is_tunnel_host r t; participant = o }))

    admitted :
        (o : Option TunnelParticipant)
        → IsRight t.id (user_id r.user) (hash_participant_token sha256 r.participant_token) o
        → answer_to o ≡ ok (some c)
        → (c.is_host ≡ is_tunnel_host r t) × (has_shown sha256 r t c.participant ≡ true)
    admitted none right e = elim (Bool-cases (is_tunnel_host r t)) [
      | inl host ↦
          let e' = rw host at e in
          let is_c : record { tunnel = t; is_host = true; participant = none } ≡ c =
            ground (arith, e') in
          rw (sym is_c) (sym host, host)
      | inr other ↦ absurd (let e' = rw other at e in cc)
    ]
    admitted (some p) right e =
        let is_c : record { tunnel = t; is_host = is_tunnel_host r t; participant = some p } ≡ c =
          ground (arith, e) in
        rw (sym is_c) (refl, right)
