-- ===== src/Tunnels/Confirm.antt =====
-- internal/handlers/tunnels.go: Confirm, which asks who the caller is before the session is started, and
-- GetTunnelByID of internal/storage/tunnels.go.
use sendly.Common.{
  String, Bool, true, false, not, ◌≡◌, ◌==◌, nat_eq, string_eq, int_eq, if◌then◌else◌, Option, none,
  some, find, pure, raise_if, or_raise, ◌>>=◌, ◌>>◌, query, pos,
}
use sendly.Common.Keeps.{Keeps, OnTables}
use sendly.Models.{Time, driver, message, file_not_found, file_expired}
use sendly.Tunnels.Tunnel.{Tunnel}
use sendly.Tunnels.Store.{Tables, Store, is_tunnel, is_over, is_host, confirm_tunnel}
use sendly.Tunnels.Auth.{
  TunnelRequest, TunnelCaller, is_tunnel_host, user_id, authorize_tunnel_caller, owns_device,
}
use sendly.Tunnels.Access.{has_shown}

unfoldable pub get_tunnel_by_id : Time → String → Store Tunnel
get_tunnel_by_id now tunnel_id = do
  found ← query driver (λ s. find (is_tunnel tunnel_id) s.tunnels)
  t ← or_raise found file_not_found
  raise_if (is_over now t) file_expired
  pure t

abbrev pub is_own : (String → String) → Option TunnelCaller → String → Bool
is_own fold none device = false
is_own fold (some c) device = owns_device fold c device

-- A guest confirms for a device, which has to be the guest's own.
unfoldable pub prove_device :
    (String → String) → (String → String) → TunnelRequest → Tunnel → String → Store (Unit {0})
unfolding authorize_tunnel_caller owns_device
prove_device sha256 fold r current device = do
  caller ← authorize_tunnel_caller sha256 r current
  raise_if (not (is_own fold caller device)) (message "TUNNEL_FORBIDDEN")

unfoldable pub check_caller :
    (String → String) → (String → String) → TunnelRequest → Tunnel → String → Store (Unit {0})
unfolding prove_device
check_caller sha256 fold r current device =
    if user_id r.user == pos 0 then prove_device sha256 fold r current device else pure tt

-- `tunnel_id` and `device` are what the path and the body of the request hold.
unfoldable pub confirm :
    (String → String) → (String → String) → Time → TunnelRequest → String → String → Store Tunnel
unfolding get_tunnel_by_id check_caller
confirm sha256 fold now r tunnel_id device = do
  current ← get_tunnel_by_id now tunnel_id
  check_caller sha256 fold r current device
  confirm_tunnel now tunnel_id (user_id r.user) device

-- Reading leaves the tables as they are.
abbrev Reads : {A : Type 0} → Tables → Store A → Type 0
Reads t m = Keeps (OnTables (λ s. s ≡ t)) m

-- A guest has shown the right of the host or of a row, and that the device is the caller's own.
abbrev pub ShownDevice :
    (String → String) → (String → String) → TunnelRequest → Tunnel → String → Type 0
ShownDevice sha256 fold r t device =
    (c : TunnelCaller) × (c.is_host ≡ is_tunnel_host r t)
    × (has_shown sha256 r t c.participant ≡ true)
    × (owns_device fold c device ≡ true)
