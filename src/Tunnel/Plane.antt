-- ===== src/Tunnel/Plane.antt =====
-- The data plane of a site (`DataPlane` of crates/newt/src/tunnel.rs): its set-up, the keepalive datagrams, and a
-- step of its input and output, which runs the operations of Tunnel/Accept and Tunnel/Shuttle. smoltcp and the
-- tasks are the parameter `Host`, the UDP socket is `Udp`. Messages to the log are left out.
pub mod Started
pub mod Inward
pub mod Sends
use newt_rust.Common.{
  ℕ, zero, suc, ◌+◌, ◌%◌, ◌^◌, max, ◌≡◌, Bool, true, false, List, [], ◌∷◌, ◌++◌, Option, none, some,
  ◌==◌, if◌then◌else◌, Text, codes, rsplit_once, get_elem?,
}
use newt_rust.Common.Monads
use newt_rust.Common.Numbers.{parse_uint, max_u16}
use newt_rust.Common.Results.{Result, ok, err, ok_or}
use newt_rust.Common.Io.{Io, pure, lift, attempt, ◌>>=◌, ◌>>◌}
use newt_rust.Common.Net.{Bytes, IpAddr, SocketAddr}
use newt_rust.Common.Json.{Json}
use newt_rust.Core.Proto.{WsMessage, ExitNodeData, WgData}
use newt_rust.Core.Target.{Target}
use newt_rust.Config.Model.{SiteRun}
use newt_rust.Holepunch
use newt_rust.Holepunch.{Crypto}
use newt_rust.Wg
use newt_rust.Wg.{Noise, Keys, Pump, Inbound, packet, network, nothing, public_from_b64}
use newt_rust.Tunnel.Echo.{icmp_echo}
use newt_rust.Tunnel.Listeners
use newt_rust.Tunnel.Listeners.{desired, listen_for, add_targets, remove_targets, reconcile_targets}
use newt_rust.Tunnel.Session.{Site}
use newt_rust.Tunnel.Shuttle.{shuttle}
use newt_rust.Tunnel.Accept.{Host, sockets_of, Serving, accept_new}

-- The resolver and the UDP socket, with what was given to it to send.
pub record Udp : Type 1 where
  pub World : Type 0
  pub lookup_host : Text → ℕ → Io World (List SocketAddr)
  pub bind : Io World (Unit {0})
  pub send_to : Bytes → SocketAddr → Io World (Unit {0})
  -- `recv_from` into a buffer of this size; none if 50 ms pass first
  pub recv_or_sleep : ℕ → Io World (Option Bytes)
  pub sent : World → List (Bytes × SocketAddr)
  pub send_to-sent :
      (b : Bytes) (to : SocketAddr) (w : World) → sent (send_to b to w).1 ≡ sent w ++ (b, to) ∷ []
  pub recv-sent : (n : ℕ) (w : World) → sent (recv_or_sleep n w).1 ≡ sent w

-- smoltcp's and the standard library's parsers of addresses, and `Stack::new`.
pub record Addresses (W : Type 0) : Type 0 where
  pub parse_ip : Text → Option IpAddr
  pub parse_v4 : Text → Option Bytes
  pub new_stack : IpAddr → ℕ → W

module _ (noise : Noise) (host : Host) where
  -- `rx` is the queue of the stack's device, and `udp_buf` the size of the buffer.
  pub record DataPlane : Type 0 where
    pub pump : Pump noise.Tunn
    pub rx : List Bytes
    pub serving : Serving host
    pub udp_buf : ℕ
    pub endpoint : SocketAddr
    pub relay_addr : SocketAddr
    pub server_ip : Bytes
    pub tunnel_ip4 : Bytes
    pub ping_seq : ℕ
    pub newt_id : Text
    pub token : Text
    pub newt_pub : Text
    pub server_pub : Text

  pub on_listeners :
      (Listeners.DataPlane (sockets_of host) → Listeners.DataPlane (sockets_of host))
      → DataPlane
      → DataPlane
  on_listeners f d = record d { serving = record d.serving { plane = f d.serving.plane } }

  -- the loop of `bring_up` over the targets, which tests for no port that repeats
  abbrev pub listen_each :
      List Target → Listeners.DataPlane (sockets_of host) → Listeners.DataPlane (sockets_of host)
  listen_each [] l = l
  listen_each (t ∷ ts) l = listen_each ts (listen_for (sockets_of host) t l)

  abbrev pub poll_stack : DataPlane → DataPlane × List Bytes
  poll_stack d =
      let ((out, left), sockets) = host.poll d.rx d.serving.plane.sockets in
      let plane = record d.serving.plane { sockets = sockets } in
      (record d { rx = left; serving = record d.serving { plane = plane } }, out)

  abbrev pub shuttle_all : Serving host → Serving host
  shuttle_all s =
      let (conns, sockets) = shuttle host.streams s.conns s.plane.sockets in
      record { plane = record s.plane { sockets = sockets }; conns = conns }

-- the host and the port of the exit node
abbrev pub host_and_port : Text → Option (Text × ℕ)
host_and_port endpoint =
    Monads.◌>>=◌ (rsplit_once b':' endpoint)
      (λ hp. Monads.◌>>=◌ (parse_uint max_u16 hp.1) (λ p. some (hp.0, p)))

abbrev pub relay_port : ℕ → ℕ
relay_port given = if given == 0 then 21820 else given

module _ (noise : Noise) (host : Host) (udp : Udp) where
  open udp use {World, lookup_host, bind, send_to, recv_or_sleep}

  -- `if let Some(b) = .. { udp.send_to(&b, to).await?; }`
  abbrev pub send_some : Option Bytes → SocketAddr → Io World (Unit {0})
  send_some none to = pure tt
  send_some (some b) to = send_to b to

  -- the same, where the error is dropped
  abbrev pub try_send : Option Bytes → SocketAddr → Io World (Unit {0})
  try_send none to = pure tt
  try_send (some b) to = do attempt (send_to b to); pure tt

  -- an inbound result of the pump
  pub on_inbound : Inbound → DataPlane noise host → Io World (DataPlane noise host)
  on_inbound (packet p) d = pure (record d { rx = d.rx ++ p ∷ [] })
  on_inbound (network b) d = do try_send (some b) d.endpoint; pure d
  on_inbound nothing d = pure d

  -- the loop over `drain`; the fuel bounds its rounds
  pub drain_loop : ℕ → DataPlane noise host → Io World (DataPlane noise host)
  unfolding on_inbound
  drain_loop zero d = pure d
  drain_loop (suc fuel) d =
      let (pump, inb) = Wg.drain noise d.pump in
      let next = on_inbound inb (record d { pump = pump }) in
      elim inb [
        | nothing ↦ next
        | packet p ↦ (do d' ← next; drain_loop fuel d')
        | network b ↦ (do d' ← next; drain_loop fuel d')
      ]

  pub on_datagram : Option Bytes → DataPlane noise host → Io World (DataPlane noise host)
  unfolding on_inbound drain_loop
  on_datagram none d = pure d
  on_datagram (some datagram) d =
      let (pump, inb) = Wg.decapsulate noise d.pump datagram in
      do
        d' ← on_inbound inb (record d { pump = pump })
        drain_loop (suc (noise.queued d'.pump.tun)) d'

  -- the packets of the stack, encrypted
  pub send_packets : List Bytes → DataPlane noise host → Io World (DataPlane noise host)
  send_packets [] d = pure d
  send_packets (pkt ∷ pkts) d =
      let (pump, dg) = Wg.encapsulate noise d.pump pkt in
      do try_send dg d.endpoint; send_packets pkts (record d { pump = pump })

  pub run_timers : DataPlane noise host → Io World (DataPlane noise host)
  run_timers d =
      let (pump, dg) = Wg.update_timers noise d.pump in
      do try_send dg d.endpoint; pure (record d { pump = pump })

  unfoldable pub step_io : DataPlane noise host → Io World (DataPlane noise host)
  unfolding on_datagram send_packets run_timers
  step_io d = do
    got ← recv_or_sleep d.udp_buf
    d ← on_datagram got d
    let polled = poll_stack noise host d
    d ← send_packets polled.1 polled.0
    d ← run_timers d
    pure (record d { serving = shuttle_all noise host (accept_new host d.serving) })

  -- `ping_seq.wrapping_add(1)` on `u16`
  abbrev pub next_seq : ℕ → ℕ
  next_seq n = (n + 1) % 2 ^ 16

  unfoldable pub send_ping : DataPlane noise host → Io World (DataPlane noise host)
  send_ping d =
      let seq = next_seq d.ping_seq in
      let (pump, dg) = Wg.encapsulate noise d.pump (icmp_echo d.tunnel_ip4 d.server_ip 1 seq) in
      do send_some dg d.endpoint; pure (record d { pump = pump; ping_seq = seq })

  -- the data plane that is returned
  abbrev pub built :
      WgData
      → SiteRun
      → Keys noise.StaticSecret
      → Text
      → Pump noise.Tunn
      → Listeners.DataPlane (sockets_of host)
      → SocketAddr
      → Bytes
      → Bytes
      → DataPlane noise host
  built wg cfg keys token pump listening endpoint server_ip tunnel_ip4 = record {
    pump = pump;
    rx = [];
    serving = record { plane = listening; conns = [] };
    udp_buf = max cfg.mtu 1500 + 64;
    endpoint = endpoint;
    relay_addr = record { ip = endpoint.ip; port = relay_port wg.relay_port };
    server_ip = server_ip;
    tunnel_ip4 = tunnel_ip4;
    ping_seq = 0;
    newt_id = cfg.id;
    token = token;
    newt_pub = keys.public_b64;
    server_pub = wg.public_key;
  }

  unfoldable pub bring_up :
      Addresses host.streams.World
      → WgData
      → SiteRun
      → Keys noise.StaticSecret
      → Text
      → Io World (DataPlane noise host)
  bring_up addresses wg cfg keys token = do
    (name, port) ← lift (ok_or (codes "bad endpoint") (host_and_port wg.endpoint))
    addrs ← lookup_host name port
    endpoint ← lift (ok_or (codes "resolve endpoint") (get_elem? addrs 0))
    bind
    peer_pub ← lift (ok_or (codes "bad pubkey") (public_from_b64 noise wg.public_key))
    let (pump, init) = Wg.initiate_handshake noise (Wg.new noise keys.secret peer_pub cfg.mtu)
    send_some init endpoint
    tunnel_ip ← lift (ok_or (codes "bad tunnelIP") (addresses.parse_ip wg.tunnel_ip))
    let stack = addresses.new_stack tunnel_ip cfg.mtu
    let listening =
        listen_each noise host (desired wg.targets.tcp) (record { listeners = []; sockets = stack })
    server_ip ← lift (ok_or (codes "bad serverIP") (addresses.parse_v4 wg.server_ip))
    tunnel_ip4 ← lift (ok_or (codes "bad tunnelIP") (addresses.parse_v4 wg.tunnel_ip))
    pure (built wg cfg keys token pump listening endpoint server_ip tunnel_ip4)

  unfoldable pub send_holepunch :
      (json : Json) → Crypto World json.Value → DataPlane noise host → Io World (Unit {0})
  send_holepunch json crypto d w =
      let (pkt, w') =
        Holepunch.build json crypto (codes "newtId") d.newt_id d.token d.newt_pub d.server_pub w in
      send_some pkt d.relay_addr w'

-- The rest of what a session uses: the WebSocket, and the derived decoders of two payloads.
pub record Control (json : Json) (W : Type 0) : Type 0 where
  pub ws_send : WsMessage json.Value → Io W (Unit {0})
  pub exit_node_data : json.Value → Option (ExitNodeData json.Float)
  pub wg_data : json.Value → Option WgData

-- The data plane as the session uses it.
abbrev pub site_of :
    (noise : Noise) (host : Host) (udp : Udp) (json : Json)
    → Addresses host.streams.World
    → Crypto udp.World json.Value
    → Control json udp.World
    → Site json noise.StaticSecret
site_of noise host udp json addresses crypto control = record {
  World = udp.World;
  DataPlane = DataPlane noise host;
  ws_send = control.ws_send;
  bring_up = bring_up noise host udp addresses;
  add_targets = λ specs. on_listeners noise host (add_targets (sockets_of host) specs);
  remove_targets = λ specs. on_listeners noise host (remove_targets (sockets_of host) specs);
  reconcile_targets = λ specs. on_listeners noise host (reconcile_targets (sockets_of host) specs);
  send_ping = send_ping noise host udp;
  send_holepunch = send_holepunch noise host udp json crypto;
  step_io = step_io noise host udp;
  exit_node_data = control.exit_node_data;
  wg_data = control.wg_data;
}
