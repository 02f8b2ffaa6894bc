-- ===== src/Olm/Client/Session.antt =====
-- The session of a client (`session` of crates/newt/src/olm/mod.rs). Which branch of the `select!` is
-- ready is an input, with the result of the awaited call.
pub mod Invariant
use newt_rust.Common.{
  ℕ, ◌+◌, ◌^◌, ◌%◌, Bool, true, false, List, [], ◌∷◌, ◌++◌, Option, none, some, Text, codes, leb,
  if◌then◌else◌,
}
use newt_rust.Common.Results.{Result, ok_or}
use newt_rust.Common.Io.{Io, pure, lift, ◌>>=◌, ◌>>◌}
use newt_rust.Common.Net.{Bytes, SocketAddr}
use newt_rust.Common.Json.{Json, Reader}
use newt_rust.Core.Proto.{WsMessage}
use newt_rust.Config.Model.{ClientRun}
use newt_rust.Wg.{Noise, Keys}
use newt_rust.Holepunch.{Crypto}
use newt_rust.Olm.Cidr.{IpParser}
use newt_rust.Olm.Holepunch
use newt_rust.Olm.Holepunch.{HolePunch}
use newt_rust.Olm.Proto.{Serde}
use newt_rust.Olm.Proto.Topic
use newt_rust.Olm.Plane.{Network, Device, DataPlane, to_list, send_all}
use newt_rust.Olm.Router.{Out, to_host, to_net, tick, handle_inbound, route_outbound}
use newt_rust.Olm.Client.{Planes, handle_message}
use newt_rust.Olm.Client.Exits.{parse_exit_nodes}

-- What the branches of the `select!` await: a message or the end of the WebSocket, the timer, a
-- datagram, and the packets of the host, which are read when the branch is taken.
pub data Input (V : Type 0) : Type 0 where
  received : Result (Option (WsMessage V)) → Input V
  tick_due : Input V
  datagram : Result Bytes → Input V
  host_ready : Input V

module _ (json : Json) where
  open json use {Value}

  pub register_msg : Text → ClientRun → Text → WsMessage Value
  register_msg version cfg public_key_b64 = record {
    typ = Topic.register;
    payload = json.object (
        (codes "publicKey", json.string public_key_b64)
        ∷ (codes "relay", json.bool true)
        ∷ (codes "olmVersion", json.string version)
        ∷ (codes "olmAgent", json.string (codes "newt-rust"))
        ∷ (codes "orgId", json.string cfg.org_id)
        ∷ (codes "userToken", json.string cfg.user_token)
        ∷ (codes "fingerprint", json.object [])
        ∷ (codes "postures", json.object [])
        ∷ []);
    config_version = none;
  }

  pub ping_msg : ClientRun → WsMessage Value
  ping_msg cfg = record {
    typ = Topic.ping;
    payload = json.object (
        (codes "userToken", json.string cfg.user_token)
        ∷ (codes "fingerprint", json.object [])
        ∷ (codes "postures", json.object [])
        ∷ []);
    config_version = none;
  }

-- What a session has from its start on.
pub record Setting (V S : Type 0) : Type 0 where
  pub cfg : ClientRun
  pub keys : Keys S
  -- `VERSION`
  pub version : Text
  pub serde : Serde V

module _ (json : Json) (noise : Noise) (std : IpParser) (net : Network json.Value)
    (dev : Device net.World) (crypto : Crypto net.World json.Value)
    (set : Setting json.Value noise.StaticSecret) where
  open net use {World, send_to, ws_send}
  open noise use {StaticSecret}

  -- The variables of the loop. `ping_ticks` is a `u32` below 10.
  pub record State : Type 0 where
    pub dp : Planes noise std net dev
    pub ping_ticks : ℕ
    pub hp : HolePunch

  -- the loop goes on, or the session is over
  pub data Turn : Type 0 where
    continues : State → Turn
    returns : Turn

  -- `if dp.is_none()`
  pub register_again : Planes noise std net dev → Io World (Unit {0})
  unfolding register_msg
  register_again none = ws_send (register_msg json set.version set.cfg set.keys.public_b64)
  register_again (some d) = pure tt

  pub tick_plane : Planes noise std net dev → Io World (Planes noise std net dev)
  tick_plane none = pure none
  tick_plane (some d) =
      let (router, due) = tick noise d.router in
      do send_all net due; pure (some (record d { router = router }))

  -- the heartbeat, every tenth tick
  pub heartbeat : ℕ → Io World ℕ
  unfolding ping_msg
  heartbeat ping_ticks =
      if leb 10 (ping_ticks + 1)
      then (do ws_send (ping_msg json set.cfg); pure 0)
      else pure (ping_ticks + 1)

  pub punch : HolePunch → Io World (Unit {0})
  punch hp w = let (due, w') = Holepunch.datagrams json crypto hp w in send_all net due w'

  pub on_tick : State → Io World State
  unfolding register_again tick_plane heartbeat punch
  on_tick s = do
    register_again s.dp
    punch s.hp
    dp ← tick_plane s.dp
    ping_ticks ← heartbeat s.ping_ticks
    pure (record s { dp = dp; ping_ticks = ping_ticks })

  -- the loop over what `handle_inbound` returns
  pub deliver : List Out → dev.Backend → Io World dev.Backend
  deliver [] b = pure b
  deliver (to_host p ∷ outs) b = do b' ← dev.deliver_inbound b p; deliver outs b'
  deliver (to_net m e ∷ outs) b = let more = deliver outs b in do send_to m e; more

  pub on_datagram : Bytes → Planes noise std net dev → Io World (Planes noise std net dev)
  unfolding deliver
  on_datagram bytes none = pure none
  on_datagram bytes (some d) =
      let (router, outs) = handle_inbound noise d.router bytes in
      do
        backend ← deliver outs d.backend
        pure (some (record { router = router; backend = backend }))

  -- the packets of the host, each routed to a peer
  pub route_all : List Bytes → Planes noise std net dev → Io World (Planes noise std net dev)
  route_all pkts none = pure none
  route_all [] (some d) = pure (some d)
  route_all (pkt ∷ pkts) (some d) =
      let (router, sent) = route_outbound noise d.router pkt in
      let more = route_all pkts (some (record d { router = router })) in
      do send_all net (to_list sent); more

  -- the branch `drive`, which is off without a data plane
  pub on_host : Planes noise std net dev → Io World (Planes noise std net dev)
  unfolding route_all
  on_host none = pure none
  on_host (some d) = do
    (backend, pkts) ← dev.drive d.backend
    route_all pkts (some (record d { backend = backend }))

  -- what `handle_message` says of the session
  pub after_message : State → Planes noise std net dev × Bool → Turn
  after_message s (dp, true) = returns
  after_message s (dp, false) = continues (record s { dp = dp })

  pub on_message : State → Option (WsMessage json.Value) → Io World Turn
  unfolding after_message
  on_message s none = pure returns
  on_message s (some msg) = do
    res ← handle_message noise std net dev set.serde set.cfg set.keys msg s.dp
    pure (after_message s res)

  -- One round of the loop.
  unfoldable pub turn : State → Input json.Value → Io World Turn
  unfolding on_message on_tick on_datagram on_host
  turn s (received msg) = do m ← lift msg; on_message s m
  turn s tick_due = do s' ← on_tick s; pure (continues s')
  turn s (datagram bytes) = do
    b ← lift bytes
    dp ← on_datagram b s.dp
    pure (continues (record s { dp = dp }))
  turn s host_ready = do dp ← on_host s.dp; pure (continues (record s { dp = dp }))

  -- The loop over the inputs that come; `continues` where they are not at an end.
  unfoldable pub turns : Turn → List (Input json.Value) → Io World Turn
  unfolding turn
  turns returns inputs = pure returns
  turns (continues s) [] = pure (continues s)
  turns (continues s) (i ∷ inputs) = do t ← turn s i; turns t inputs

  abbrev pub token_of : Reader json.Value → json.Value → Result Text
  token_of read response =
      ok_or (codes "no token in olm get-token response")
        (read.as_str (read.index response (codes "token")))

  -- the registration, with the socket connected and bound
  pub registered : Text → List Holepunch.ExitNode → Io World State
  unfolding register_msg
  registered tok exit_nodes = do
    let hp = Holepunch.new set.cfg.id set.keys.public_b64 tok
    ws_send (register_msg json set.version set.cfg set.keys.public_b64)
    pure (record { dp = none; ping_ticks = 0; hp = Holepunch.set_nodes hp exit_nodes })

  -- `session` before its loop, by the response to get-token
  unfoldable pub opened : Reader json.Value → json.Value → Io World State
  unfolding parse_exit_nodes registered
  opened read response = do
    tok ← lift (token_of read response)
    exit_nodes ← parse_exit_nodes read net response
    registered tok exit_nodes
