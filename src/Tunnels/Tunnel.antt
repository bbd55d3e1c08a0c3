-- ===== src/Tunnels/Tunnel.antt =====
-- internal/models/tunnel.go: the rows of a quick share session. A device is named by the text that it
-- is compared with, and the user 0 is a guest.
use sendly.Common.{ℕ, ◌≡◌, ◌↔◌, String, Bool, true, Option, nat_beq, Eq, arith, ℤ}
use sendly.Models.{Time, Bytes}

pub data TunnelStatus : Type 0 where
  pending joined active ended expired : TunnelStatus

abbrev tunnel_status_code : TunnelStatus → ℕ
tunnel_status_code pending = 0
tunnel_status_code joined = 1
tunnel_status_code active = 2
tunnel_status_code ended = 3
tunnel_status_code expired = 4

abbrev pub tunnel_status_beq : TunnelStatus → TunnelStatus → Bool
tunnel_status_beq a b = nat_beq (tunnel_status_code a) (tunnel_status_code b)

pub tunnel_status_beq_iff : (a b : TunnelStatus) → (tunnel_status_beq a b ≡ true) ↔ (a ≡ b)
tunnel_status_beq_iff a b = ground arith

instance abbrev pub tunnel_status_eq : Eq TunnelStatus
tunnel_status_eq = record { beq = tunnel_status_beq; reflects = tunnel_status_beq_iff }

pub record Tunnel : Type 0 where
  pub id : String
  pub code : String
  pub initiator_cns_user_id : ℤ
  pub initiator_device_id : Option String
  pub peer_cns_user_id : Option ℤ
  pub peer_device_id : Option String
  pub duration_minutes : ℤ
  pub status : TunnelStatus
  pub initiator_confirmed : Bool
  pub peer_confirmed : Bool
  pub expires_at : Time
  pub created_at : Time
  pub confirmed_at : Option Time
  pub ended_at : Option Time
  pub ended_by_cns_user_id : Option ℤ
  pub ended_by_device_id : Option String
  pub host_token : String

-- The columns of `tunnel_participants`; a key that is NULL reads as `null`.
pub record TunnelParticipant : Type 0 where
  pub id : String
  pub tunnel_id : String
  pub cns_user_id : Option ℤ
  pub device_id : Option String
  pub joined_at : Time
  pub public_key_jwk : Option Bytes
  pub key_algorithm : Option String
  pub key_version : Option ℤ
  pub token_hash : Option String
  pub approved_at : Option Time

pub record TunnelJoin : Type 0 where
  pub user_id : ℤ
  pub device_id : String
  pub presented_token_hash : String
  pub new_token_hash : String
  pub public_key_jwk : Bytes
  pub key_algorithm : String
  pub key_version : ℤ

-- `tunnel_participant_envelopes`
pub record TunnelEnvelope : Type 0 where
  pub tunnel_id : String
  pub participant_device_id : String
  pub wrapped_dek : Bytes
  pub dek_wrap_alg : String
  pub dek_wrap_nonce : Bytes
  pub dek_wrap_version : ℤ

-- `tunnel_rejections`
pub record TunnelRejection : Type 0 where
  pub tunnel_id : String
  pub cns_user_id : Option ℤ
  pub device_id : Option String
