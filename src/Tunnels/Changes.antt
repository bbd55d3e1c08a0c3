-- ===== src/Tunnels/Changes.antt =====
-- What the handlers of internal/handlers/tunnels.go ask of a session, as the statements order it.
use sendly.Common.{String, List, [], ◌∷◌, ℤ, Db}
use sendly.Models.{Time, Bytes}
use sendly.Tunnels.Tunnel.{TunnelJoin, TunnelEnvelope}
use sendly.Tunnels.Store.{
  Tables, join_tunnel, approve_tunnel_participant, reject_tunnel_participant, confirm_tunnel,
  end_tunnel, end_tunnels_hosted_by, add_tunnel_participant, remove_tunnel_participant,
  save_tunnel_participant_envelope,
}

pub data Change : Type 0 where
  join : String → String → TunnelJoin → Change
  approve reject : String → String → Change
  confirm finish : String → ℤ → String → Change
  finish_hosted_by : ℤ → Change
  add_host : String → String → ℤ → String → Change
  leave : String → ℤ → String → Change
  save_envelope : TunnelEnvelope → Change

module _ (jsonb : Bytes → Bytes) where
  unfoldable pub apply : Time → Change → Db Tables → Db Tables
  apply now (join id tunnel_id j) db = (join_tunnel jsonb id now tunnel_id j db).1
  apply now (approve tunnel_id id) db = (approve_tunnel_participant now tunnel_id id db).1
  apply now (reject tunnel_id id) db = (reject_tunnel_participant tunnel_id id db).1
  apply now (confirm tunnel_id user device) db = (confirm_tunnel now tunnel_id user device db).1
  apply now (finish tunnel_id user device) db = (end_tunnel now tunnel_id user device db).1
  apply now (finish_hosted_by user) db = (end_tunnels_hosted_by now user db).1
  apply now (add_host id tunnel_id user device) db =
      (add_tunnel_participant id now tunnel_id user device db).1
  apply now (leave tunnel_id user device) db =
      (remove_tunnel_participant tunnel_id user device db).1
  apply now (save_envelope e) db = (save_tunnel_participant_envelope e db).1

  unfoldable pub apply_all : List (Time × Change) → Db Tables → Db Tables
  apply_all [] db = db
  apply_all ((now, change) ∷ changes) db = apply_all changes (apply now change db)
