-- ===== src/Tunnels/Tests.antt =====
-- Runs of the theorems on quick share sessions.
use sendly.Common.{true, false, ◌≡◌, ◌≢◌, refl, none, some, List, [], ◌∷◌, find, ok, Db, pos}
use sendly.Models.{Time}
use sendly.AccountStatus.Text.{trimmed, without_start, without_end, blank}
use sendly.Tunnels.Tunnel.{Tunnel, TunnelJoin, TunnelEnvelope, ended, joined}
use sendly.Tunnels.Store.{Tables, is_tunnel, join_tunnel, save_tunnel_participant_envelope}
use sendly.Tunnels.Tunnel.{TunnelParticipant}
use sendly.Tunnels.Store.{is_participant, participant_owned_by}
use sendly.Tunnels.Others.{join_tunnel-others}
use sendly.Tunnels.Changes.{Change, join, confirm, finish, apply_all}
use sendly.Tunnels.Ended.{apply_all-ended}
use sendly.Tunnels.Guards.{join_tunnel-rejected, save_envelope-keeps}

abbrev session : Tunnel
session = record {
  id = "t";
  code = "c";
  initiator_cns_user_id = pos 1;
  initiator_device_id = some "d";
  peer_cns_user_id = none;
  peer_device_id = none;
  duration_minutes = pos 5;
  status = joined;
  initiator_confirmed = false;
  peer_confirmed = false;
  expires_at = 100;
  created_at = 0;
  confirmed_at = none;
  ended_at = none;
  ended_by_cns_user_id = none;
  ended_by_device_id = none;
  host_token = "h";
}

abbrev over : Tunnel
over = record session { status = ended; ended_at = some 7 }

abbrev guest : TunnelJoin
guest = record {
  user_id = pos 0;
  device_id = " g ";
  presented_token_hash = "";
  new_token_hash = "n";
  public_key_jwk = [];
  key_algorithm = "";
  key_version = pos 0;
}

abbrev envelope : TunnelEnvelope
envelope = record {
  tunnel_id = "t";
  participant_device_id = "g";
  wrapped_dek = [];
  dek_wrap_alg = "";
  dek_wrap_nonce = [];
  dek_wrap_version = pos 1;
}

abbrev db_of : Tunnel → Db Tables
db_of t = record {
  faults = [];
  tables = record {
    tunnels = t ∷ [];
    participants = [];
    envelopes = envelope ∷ [];
    rejections = record { tunnel_id = "t"; cns_user_id = none; device_id = some "g" } ∷ [];
  };
}

abbrev changes : List (Time × Change)
changes = (8, join "p" "t" guest) ∷ (9, confirm "t" (pos 1) "d") ∷ (9, finish "t" (pos 1) "d") ∷ []

apply_all-ended_example :
    find (is_tunnel "t") (apply_all (λ key. key) changes (db_of over)).tables.tunnels ≡ some over
apply_all-ended_example = apply_all-ended (λ key. key) "t" over changes (db_of over) refl refl

join_tunnel-rejected_example :
    (join_tunnel (λ key. key) "p" 8 "t" guest (db_of session)).0 ≢ ok (session, true)
unfolding trimmed without_start without_end blank
join_tunnel-rejected_example =
    join_tunnel-rejected (λ key. key) "p" 8 "t" guest (db_of session) (session, true) refl

save_envelope-keeps_example :
    ((save_tunnel_participant_envelope envelope (db_of session)).1.tables ≡ (db_of session).tables)
    × ((save_tunnel_participant_envelope envelope (db_of session)).0 ≢ ok tt)
save_envelope-keeps_example = save_envelope-keeps envelope (db_of session) refl

abbrev host_row : TunnelParticipant
host_row = record {
  id = "h";
  tunnel_id = "t";
  cns_user_id = some (pos 1);
  device_id = some "d";
  joined_at = 1;
  public_key_jwk = some (1 ∷ []);
  key_algorithm = none;
  key_version = none;
  token_hash = none;
  approved_at = some 1;
}

-- A guest with a key of its own, on the device of the host.
abbrev intruder : TunnelJoin
intruder = record guest { device_id = "d"; public_key_jwk = 2 ∷ [] }

abbrev hosted : Db Tables
hosted = record {
  faults = [];
  tables = record (db_of session).tables { participants = host_row ∷ [] };
}

join_tunnel-others_example :
    find
      (is_participant "h")
      (join_tunnel (λ key. key) "p" 8 "t" intruder hosted).1.tables.participants
    ≡ some host_row
unfolding participant_owned_by
join_tunnel-others_example =
    join_tunnel-others (λ key. key) "p" "h" 8 "t" intruder host_row hosted (refl, tt) refl refl
