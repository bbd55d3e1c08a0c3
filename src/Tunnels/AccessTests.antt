-- ===== src/Tunnels/AccessTests.antt =====
-- Runs of the theorems on callers of quick share sessions.
use sendly.Common.{
  true, false, ◌≡◌, int_eq, refl, none, some, [], ◌∷◌, Db, pos, pure, statement, query, ◌>>=◌,
}
use sendly.AccountStatus.Text.{trimmed, without_start, without_end, blank}
use sendly.Tunnels.Tunnel.{Tunnel, TunnelParticipant, joined}
use sendly.Tunnels.Store.{Tables, participant_owned_by, coalesced}
use sendly.Tunnels.Auth.{
  TunnelRequest, TunnelCaller, find_guest, find_member, find_tunnel_participant, is_tunnel_host,
  hash_participant_token, authorize_tunnel_caller,
}
use sendly.Tunnels.Access.{has_shown, authorize_tunnel_caller-shown}

abbrev session : Tunnel
session = record {
  id = "t";
  code = "c";
  initiator_cns_user_id = pos 1;
  initiator_device_id = some "d";
  peer_cns_user_id = none;
  peer_device_id = none;
  duration_minutes = pos 5;
  status = joined;
  initiator_confirmed = false;
  peer_confirmed = false;
  expires_at = 100;
  created_at = 0;
  confirmed_at = none;
  ended_at = none;
  ended_by_cns_user_id = none;
  ended_by_device_id = none;
  host_token = "";
}

abbrev guest_row : TunnelParticipant
guest_row = record {
  id = "p";
  tunnel_id = "t";
  cns_user_id = none;
  device_id = some "g";
  joined_at = 1;
  public_key_jwk = none;
  key_algorithm = none;
  key_version = none;
  token_hash = some "n";
  approved_at = none;
}

abbrev tables : Db Tables
tables = record {
  faults = [];
  tables = record {
    tunnels = session ∷ [];
    participants = guest_row ∷ [];
    envelopes = [];
    rejections = [];
  };
}

abbrev request : TunnelRequest
request = record { user = none; host_token = "h"; device_id = " g"; participant_token = "n " }

abbrev caller : TunnelCaller
caller = record { tunnel = session; is_host = false; participant = some (coalesced guest_row) }

authorize_tunnel_caller-shown_example :
    (false ≡ is_tunnel_host request session)
    × (has_shown (λ s. s) request session caller.participant ≡ true)
unfolding authorize_tunnel_caller find_tunnel_participant find_guest find_member is_tunnel_host
    hash_participant_token participant_owned_by trimmed without_start without_end blank pure query
    statement ◌>>=◌
authorize_tunnel_caller-shown_example =
    authorize_tunnel_caller-shown (λ s. s) request session tables caller refl

-- A session that a guest began, and the guest's request to start it.
abbrev guest_session : Tunnel
guest_session = record session { initiator_cns_user_id = pos 0; host_token = "h" }

abbrev guest_tables : Db Tables
guest_tables = record {
  faults = [];
  tables = record tables.tables { tunnels = guest_session ∷ []; participants = [] };
}

abbrev host_request : TunnelRequest
host_request = record { user = none; host_token = "h"; device_id = ""; participant_token = "" }
