-- ===== src/Tunnel/Plane/Started.antt =====
-- What a data plane is set up with.
use newt_rust.Common.{ℕ, ◌≡◌, List, [], ◌∷◌, ◌++◌, map, some, Text, ◌≢◌}
use newt_rust.Common.Numbers.{parse_uint, max_u16}
use newt_rust.Common.Results.{ok}
use newt_rust.Common.Io.{Io}
use newt_rust.Common.Net.{SocketAddr}
use newt_rust.Core.Proto.{WgData}
use newt_rust.Core.Target.{Target}
use newt_rust.Config.Model.{SiteRun}
use newt_rust.Wg
use newt_rust.Wg.{Noise}
use newt_rust.Tunnel.Listeners
use newt_rust.Tunnel.Listeners.{Listener, destination, desired}
use newt_rust.Tunnel.Accept.{Host}
use newt_rust.Tunnel.Plane
use newt_rust.Tunnel.Plane.{Udp, Addresses, DataPlane}

abbrev pub route : {H : Type 0} → Listener H → ℕ × Text
route l = (l.port, l.target)

-- where a target has the site listen and where its connections go
abbrev pub route_of : Target → ℕ × Text
route_of t = (t.listen_port, destination t)

module _ (noise : Noise) (host : Host) (udp : Udp) where
  open udp use {World, lookup_host}

  -- A port for the relay: the given one, or 21820 for none.
  abbrev pub IsRelayPort : ℕ → ℕ → Type 0
  IsRelayPort given port = (given ≡ 0 → port ≡ 21820) × (given ≢ 0 → port ≡ given)

  -- The exit node: the first address that the resolver has, in some state of the world, for the host and the port
  -- around the last colon of the text.
  pub record Located (endpoint : Text) (found : SocketAddr) : Type 0 where
    pub name : Text
    pub digits : Text
    pub port : ℕ
    pub others : List SocketAddr
    pub in_world : World
    pub behind : World
    pub is_written : endpoint ≡ name ++ b':' ∷ digits
    pub is_port : parse_uint max_u16 digits ≡ some port
    pub resolved : lookup_host name port in_world ≡ (ok (found ∷ others), behind)

  -- The data plane that a configuration asks for.
  pub record Started (addresses : Addresses host.streams.World) (wg : WgData) (cfg : SiteRun)
      (token : Text) (d : DataPlane noise host) : Type 0 where
    -- a listener for each target of the configuration, in order, also where ports repeat
    pub listens : map route d.serving.plane.listeners ≡ map route_of (desired wg.targets.tcp)
    pub no_conns : d.serving.conns ≡ []
    pub nothing_received : d.rx ≡ []
    pub located : Located wg.endpoint d.endpoint
    pub relay_host : d.relay_addr.ip ≡ d.endpoint.ip
    pub relay_port : IsRelayPort wg.relay_port d.relay_addr.port
    pub server : addresses.parse_v4 wg.server_ip ≡ some d.server_ip
    pub tunnel : addresses.parse_v4 wg.tunnel_ip ≡ some d.tunnel_ip4
    pub identity : (d.newt_id ≡ cfg.id) × (d.token ≡ token) × (d.server_pub ≡ wg.public_key)
