-- ===== src/Olm/Client/Session/Invariant.antt =====
-- The router over a whole session of a client.
use newt_rust.Common.{List, [], ◌∷◌, Option, none, some, Bool, true, false}
use newt_rust.Common.Io.{pure, ◌>>=◌, Ends, Ends-after, Ends-any, after}
use newt_rust.Common.Net.{Bytes}
use newt_rust.Common.Json.{Json, Reader}
use newt_rust.Core.Proto.{WsMessage}
use newt_rust.Wg.{Noise}
use newt_rust.Holepunch.{Crypto}
use newt_rust.Olm.Cidr.{IpParser}
use newt_rust.Olm.Plane.{Network, Device, Plane, to_list, send_all}
use newt_rust.Olm.Router
use newt_rust.Olm.Router.{Router, Out, to_host, to_net, tick, handle_inbound, route_outbound}
use newt_rust.Olm.Router.Apart.{IsApart, step-IsApart, new-IsApart}
use newt_rust.Olm.Router.Calls
use newt_rust.Olm.Router.Calls.{Call}
use newt_rust.Olm.Client.{Planes, handle_message}
use newt_rust.Olm.Client.Keeps.{HoldsIn, handle_message-Ends}
use newt_rust.Olm.Client.Exits.{parse_exit_nodes}
use newt_rust.Olm.Client.Session
use newt_rust.Olm.Client.Session.{Input, received, tick_due, datagram, host_ready, Setting}

module _ (json : Json) (noise : Noise) (std : IpParser) (net : Network json.Value)
    (dev : Device net.World) (crypto : Crypto net.World json.Value)
    (set : Setting json.Value noise.StaticSecret)
    (P : Router noise.StaticSecret noise.Tunn → Type 0)
    (keep : (r : Router noise.StaticSecret noise.Tunn) (c : Call) → P r → P (Calls.step noise r c))
    (start : P (Router.new set.keys.secret set.cfg.mtu)) where
  open noise use {StaticSecret, Tunn}
  open net use {World}

  abbrev State : Type 0
  State = Session.State json noise std net dev crypto set

  abbrev Turn : Type 0
  Turn = Session.Turn json noise std net dev crypto set

  abbrev Holds : Planes noise std net dev → Type 0
  Holds dp = HoldsIn noise std net dev P keep dp

  -- The router of a session that goes on.
  abbrev pub HoldsAt : Turn → Type 0
  HoldsAt (Session.continues s) = Holds s.dp
  HoldsAt Session.returns = Unit {0}

  tick_plane-Ends :
      (dp : Planes noise std net dev) (w : World)
      → Holds dp
      → Ends Holds (Session.tick_plane json noise std net dev crypto set dp w)
  unfolding Session.tick_plane Calls.step
  tick_plane-Ends none w h = tt
  tick_plane-Ends (some d) w h =
      Ends-any Holds (send_all net (tick noise d.router).1 w) _ (λ u w1. keep d.router Call.ticks h)

  abbrev NextState : Session.State json noise std net dev crypto set → Type 0
  NextState s = Holds s.dp

  on_tick-Ends :
      (s : State) (w : World)
      → Holds s.dp
      → Ends NextState (Session.on_tick json noise std net dev crypto set s w)
  unfolding Session.on_tick
  on_tick-Ends s w h =
      let again = Session.register_again json noise std net dev crypto set s.dp in
      let punched = Session.punch json noise std net dev crypto set s.hp in
      let ticked = Session.tick_plane json noise std net dev crypto set s.dp in
      let beats = Session.heartbeat json noise std net dev crypto set s.ping_ticks in
      Ends-any NextState (again w) _ (λ u w1. Ends-any NextState (punched w1) _ (λ u' w2.
        Ends-after Holds NextState (ticked w2)
          (λ dp. do n ← beats; pure (record s { dp = dp; ping_ticks = n }))
          (tick_plane-Ends s.dp w2 h)
          (λ dp w3 h3.
            Ends-any NextState (beats w3) (λ n. pure (record s { dp = dp; ping_ticks = n }))
              (λ n w4. h3))))

  on_datagram-Ends :
      (bytes : Bytes) (dp : Planes noise std net dev) (w : World)
      → Holds dp
      → Ends Holds (Session.on_datagram json noise std net dev crypto set bytes dp w)
  unfolding Session.on_datagram Calls.step
  on_datagram-Ends bytes none w h = tt
  on_datagram-Ends bytes (some d) w h =
      let router = (handle_inbound noise d.router bytes).0 in
      let outs = (handle_inbound noise d.router bytes).1 in
      Ends-any Holds (Session.deliver json noise std net dev crypto set outs d.backend w)
        (λ b. pure (some (record { router = router; backend = b })))
        (λ b w1. keep d.router (Call.handles_inbound bytes) h)

  route_all-Ends :
      (pkts : List Bytes) (d : Plane noise std net dev) (w : World)
      → P d.router
      → Ends Holds (Session.route_all json noise std net dev crypto set pkts (some d) w)
  unfolding Session.route_all Calls.step
  route_all-Ends [] d w h = h
  route_all-Ends (pkt ∷ pkts) d w h =
      let routed = route_outbound noise d.router pkt in
      Ends-any Holds (send_all net (to_list routed.1) w) _ (λ u w1.
        route_all-Ends pkts (record d { router = routed.0 }) w1
          (keep d.router (Call.routes_outbound pkt) h))

  on_host-Ends :
      (dp : Planes noise std net dev) (w : World)
      → Holds dp
      → Ends Holds (Session.on_host json noise std net dev crypto set dp w)
  unfolding Session.on_host
  on_host-Ends none w h = tt
  on_host-Ends (some d) w h =
      Ends-any Holds (dev.drive d.backend w)
        (λ x.
          Session.route_all json noise std net dev crypto set x.1
            (some (record d { backend = x.0 })))
        (λ x w1. route_all-Ends x.1 (record d { backend = x.0 }) w1 h)

  after_message-HoldsAt :
      (s : State) (x : Planes noise std net dev × Bool)
      → Holds x.0
      → HoldsAt (Session.after_message json noise std net dev crypto set s x)
  unfolding Session.after_message
  after_message-HoldsAt s (dp, true) h = tt
  after_message-HoldsAt s (dp, false) h = h

  on_message-Ends :
      (s : State) (o : Option (WsMessage json.Value)) (w : World)
      → Holds s.dp
      → Ends HoldsAt (Session.on_message json noise std net dev crypto set s o w)
  unfolding Session.on_message
  on_message-Ends s none w h = tt
  on_message-Ends s (some msg) w h =
      Ends-after (λ x. Holds x.0) HoldsAt
        (handle_message noise std net dev set.serde set.cfg set.keys msg s.dp w)
        (λ x. pure (Session.after_message json noise std net dev crypto set s x))
        (handle_message-Ends noise std net dev P keep set.serde set.cfg set.keys msg s.dp w start h)
        (λ x w1 h1. after_message-HoldsAt s x h1)

  turn-Ends :
      (s : State) (i : Input json.Value) (w : World)
      → Holds s.dp
      → Ends HoldsAt (Session.turn json noise std net dev crypto set s i w)
  unfolding Session.turn
  turn-Ends s (received msg) w h =
      Ends-any HoldsAt (msg, w) (Session.on_message json noise std net dev crypto set s)
        (λ m w1. on_message-Ends s m w1 h)
  turn-Ends s tick_due w h =
      Ends-after NextState HoldsAt (Session.on_tick json noise std net dev crypto set s w)
        (λ s'. pure (Session.continues s')) (on_tick-Ends s w h) (λ s' w1 h1. h1)
  turn-Ends s (datagram bytes) w h =
      Ends-any HoldsAt (bytes, w)
        (λ b. do
          dp ← Session.on_datagram json noise std net dev crypto set b s.dp
          pure (Session.continues (record s { dp = dp })))
        (λ b w1.
          Ends-after Holds HoldsAt (Session.on_datagram json noise std net dev crypto set b s.dp w1)
            (λ dp. pure (Session.continues (record s { dp = dp }))) (on_datagram-Ends b s.dp w1 h)
            (λ dp w2 h2. h2))
  turn-Ends s host_ready w h =
      Ends-after Holds HoldsAt (Session.on_host json noise std net dev crypto set s.dp w)
        (λ dp. pure (Session.continues (record s { dp = dp }))) (on_host-Ends s.dp w h)
        (λ dp w1 h1. h1)

  pub turns-Ends :
      (t : Turn) (inputs : List (Input json.Value)) (w : World)
      → HoldsAt t
      → Ends HoldsAt (Session.turns json noise std net dev crypto set t inputs w)
  unfolding Session.turns
  turns-Ends Session.returns inputs w h = tt
  turns-Ends (Session.continues s) [] w h = h
  turns-Ends (Session.continues s) (i ∷ inputs) w h =
      Ends-after HoldsAt HoldsAt (Session.turn json noise std net dev crypto set s i w)
        (λ t. Session.turns json noise std net dev crypto set t inputs) (turn-Ends s i w h)
        (λ t w1 h1. turns-Ends t inputs w1 h1)

module _ (json : Json) (noise : Noise) (std : IpParser) (net : Network json.Value)
    (dev : Device net.World) (crypto : Crypto net.World json.Value)
    (set : Setting json.Value noise.StaticSecret) where
  abbrev pub ApartAt : Session.Turn json noise std net dev crypto set → Type 0
  ApartAt t =
      HoldsAt json noise std net dev crypto set IsApart (step-IsApart noise)
        (new-IsApart noise set.keys.secret set.cfg.mtu) t

  opened-Ends :
      (read : Reader json.Value) (response : json.Value) (w : net.World)
      → Ends
          (λ s. ApartAt (Session.continues s))
          (Session.opened json noise std net dev crypto set read response w)
  unfolding Session.opened Session.registered
  opened-Ends read response w =
      let Fresh : Session.State json noise std net dev crypto set → Type 0 =
        λ s. ApartAt (Session.continues s) in
      let registering = Session.registered json noise std net dev crypto set in
      Ends-any Fresh (Session.token_of json noise std net dev crypto set read response, w)
        (λ tok. do nodes ← parse_exit_nodes read net response; registering tok nodes)
        (λ tok w1.
          Ends-any Fresh (parse_exit_nodes read net response w1) (registering tok) (λ nodes w2.
            Ends-any Fresh
              (net.ws_send (Session.register_msg json set.version set.cfg set.keys.public_b64) w2) _
              (λ u w3. tt)))

  -- From the start of a session, whatever messages, ticks, datagrams and packets of the host come, in
  -- whatever order: while the session goes on, no two peers of its router share a site.
  pub session-IsApart :
      (read : Reader json.Value) (response : json.Value) (inputs : List (Input json.Value))
      (w : net.World)
      → Ends ApartAt (
          after
            (Session.opened json noise std net dev crypto set read response w)
            (λ s. Session.turns json noise std net dev crypto set (Session.continues s) inputs))
  session-IsApart read response inputs w =
      Ends-after (λ s. ApartAt (Session.continues s)) ApartAt
        (Session.opened json noise std net dev crypto set read response w)
        (λ s. Session.turns json noise std net dev crypto set (Session.continues s) inputs)
        (opened-Ends read response w)
        (λ s w1 h.
          turns-Ends json noise std net dev crypto set IsApart (step-IsApart noise)
            (new-IsApart noise set.keys.secret set.cfg.mtu) (Session.continues s) inputs w1 h)
