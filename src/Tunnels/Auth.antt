-- ===== src/Tunnels/Auth.antt =====
-- internal/handlers/tunnel_auth.go, and FindTunnelParticipant of internal/storage/tunnels.go: who a
-- caller is to a session. `sha256` is the hash in hexadecimal, and `fold` what `EqualFold` compares.
use sendly.Common.{
  ℕ, String, Bool, true, false, not, ◌&&◌, ◌||◌, ◌==◌, string_eq, int_eq, Option, none, some, List,
  map, if◌then◌else◌, find, select, order_by, pure, ◌>>=◌, query, ℤ, pos,
}
use sendly.Models.{driver}
use sendly.AccountStatus.Text.{trimmed}
use sendly.Tunnels.Tunnel.{Tunnel, TunnelParticipant}
use sendly.Tunnels.Store.{Store, is_text, is_int, coalesced, participant_owned_by}

-- What a request has: the signed-in user, and three headers.
pub record TunnelRequest : Type 0 where
  pub user : Option ℤ
  pub host_token : String
  pub device_id : String
  pub participant_token : String

pub record TunnelCaller : Type 0 where
  pub tunnel : Tunnel
  pub is_host : Bool
  pub participant : Option TunnelParticipant

abbrev pub is_nobody : Option ℤ → Bool
is_nobody none = true
is_nobody (some n) = false

-- The row of the device first, then rows of other devices, then those without one.
abbrev pub device_rank : String → TunnelParticipant → ℕ
device_rank device p = elim p.device_id [ none ↦ 2 | some d ↦ if d == device then 0 else 1 ]

abbrev pub is_member : String → ℤ → TunnelParticipant → Bool
is_member tunnel_id user p = p.tunnel_id == tunnel_id && is_int p.cns_user_id user

abbrev pub is_guest : String → String → TunnelParticipant → Bool
is_guest tunnel_id device p =
    p.tunnel_id == tunnel_id && is_text p.device_id device && is_nobody p.cns_user_id

abbrev pub members : String → ℤ → String → List TunnelParticipant → List TunnelParticipant
members tunnel_id user device ps =
    order_by (device_rank device)
      (order_by (λ (p : TunnelParticipant). p.joined_at) (select (is_member tunnel_id user) ps))

abbrev pub owned : ℤ → String → List TunnelParticipant → Option TunnelParticipant
owned user presented rows = find (λ p. participant_owned_by p user presented) rows

-- The two queries, for a user and for a guest.
unfoldable pub find_member : String → ℤ → String → String → Store (Option TunnelParticipant)
unfolding participant_owned_by
find_member tunnel_id user device presented = do
  rows ← query driver (λ s. map coalesced (members tunnel_id user device s.participants))
  pure (owned user presented rows)

unfoldable pub find_guest : String → ℤ → String → String → Store (Option TunnelParticipant)
unfolding participant_owned_by
find_guest tunnel_id user device presented = do
  rows ← query driver (λ s. map coalesced (select (is_guest tunnel_id device) s.participants))
  pure (owned user presented rows)

unfoldable pub find_tunnel_participant :
    String → ℤ → String → String → Store (Option TunnelParticipant)
unfolding trimmed find_member find_guest
find_tunnel_participant tunnel_id user device presented =
    if not (user == pos 0)
    then find_member tunnel_id user (trimmed device) presented
    else if trimmed device == "" || presented == ""
    then pure none
    else find_guest tunnel_id user (trimmed device) presented

unfoldable pub is_tunnel_host : TunnelRequest → Tunnel → Bool
is_tunnel_host r t =
    if not (t.initiator_cns_user_id == pos 0)
    then is_int r.user t.initiator_cns_user_id
    else not (t.host_token == "") && not (r.host_token == "") && t.host_token == r.host_token

unfoldable pub hash_participant_token : (String → String) → String → String
unfolding trimmed
hash_participant_token sha256 token = if trimmed token == "" then "" else sha256 (trimmed token)

abbrev pub user_id : Option ℤ → ℤ
user_id none = pos 0
user_id (some n) = n

abbrev pub is_there : Option TunnelParticipant → Bool
is_there none = false
is_there (some p) = true

unfoldable pub authorize_tunnel_caller :
    (String → String) → TunnelRequest → Tunnel → Store (Option TunnelCaller)
unfolding find_tunnel_participant is_tunnel_host hash_participant_token
authorize_tunnel_caller sha256 r t = do
  participant ←
      find_tunnel_participant t.id (user_id r.user) r.device_id
        (hash_participant_token sha256 r.participant_token)
  pure (
      if not (is_tunnel_host r t) && not (is_there participant)
      then none
      else some (record { tunnel = t; is_host = is_tunnel_host r t; participant = participant }))

abbrev pub same_device : (String → String) → String → Option String → Bool
same_device fold device none = false
same_device fold device (some d) = fold d == fold device

unfoldable pub owns_device : (String → String) → TunnelCaller → String → Bool
unfolding trimmed
owns_device fold c device =
    not (trimmed device == "")
    && (elim c.participant [ none ↦ false | some p ↦ same_device fold (trimmed device) p.device_id ]
        || (c.is_host && same_device fold (trimmed device) c.tunnel.initiator_device_id))

abbrev is_approved : Option TunnelParticipant → Bool
is_approved none = false
is_approved (some p) = elim p.approved_at [ none ↦ false | some at ↦ true ]

unfoldable pub approved : TunnelCaller → Bool
approved c = c.is_host || is_approved c.participant
