-- ===== src/Tunnel/Session/Agrees.antt =====
-- A site has its data plane exactly while its control session is connected.
use newt_rust.Common.{
  Bool, true, false, List, [], ◌∷◌, Option, none, some, Text, text_eq, ◌≡◌, refl, ◌∙◌, arith,
  Bool-cases, Option-cases, inl, inr, leb, ◌+◌,
}
use newt_rust.Common.Monads.{>>=-eq-some}
use newt_rust.Common.Io.{pure, Ends, Ends-after, Ends-any, after, ◌>>=◌}
use newt_rust.Common.Json.{Json, Reader}
use newt_rust.Core.Proto.{WsMessage}
use newt_rust.Core.Sm
use newt_rust.Core.Sm.{
  Sm, Event, ws_connected, exit_nodes, wg_connect, reconnect, terminate, tick, Action, send,
  bring_up, teardown, stop, is_connected,
}
use newt_rust.Core.Sm.Tunnel.{act, act_all, Later, step-act}
use newt_rust.Core.Topic
use newt_rust.Config.Model.{SiteRun}
use newt_rust.Wg.{Keys}
use newt_rust.Tunnel.Session
use newt_rust.Tunnel.Session.{Site, Input, received, tick_due, plane_ready}
use mathlib.Core.Option

abbrev pub present : {D : Type 0} → Option D → Bool
present none = false
present (some d) = true

-- An event, if there is one, follows the connection.
abbrev LaterIn : {F : Type 0} → Option (Event F) → Type 0
LaterIn none = Unit {0}
LaterIn (some e) = Later e

present-map : {D : Type 0} (f : D → D) (o : Option D) → present (Option.map f o) ≡ present o
present-map f none = refl
present-map f (some d) = refl

module _ {S : Type 0} (json : Json) (read : Reader json.Value) (site : Site json S) (cfg : SiteRun)
    (keys : Keys S) (token : Text) where
  open json use {Value, Float}
  open site use {World, DataPlane}

  abbrev State : Type 0
  State = Session.State json read site cfg keys token

  abbrev Turn : Type 0
  Turn = Session.Turn json read site cfg keys token

  abbrev pub Agrees : State → Type 0
  Agrees s = present s.plane ≡ is_connected s.sm.state

  abbrev pub AgreesAt : Turn → Type 0
  AgreesAt (Session.continues s) = Agrees s
  AgreesAt Session.returns = Unit {0}

  -- The planes that are there or not as the Boolean says.
  abbrev Is : Bool → Option DataPlane → Type 0
  Is up plane = present plane ≡ up

  exec-Ends :
      (a : Action Value) (plane : Option DataPlane) (w : World) (up : Bool)
      → act a (present plane) ≡ some up
      → Ends (Is up) (Session.exec json read site cfg keys token a plane w)
  unfolding Session.exec
  exec-Ends (send m) plane w up h =
      Ends-any (Is up) (site.ws_send m w) (λ u. pure plane) (λ u w1. ground arith)
  exec-Ends (bring_up wg) none w up h =
      Ends-any (Is up) (site.bring_up wg cfg keys token w) (λ d. pure (some d))
        (λ d w1. ground arith)
  exec-Ends (bring_up wg) (some d) w up h = cc
  exec-Ends teardown plane w up h = ground arith
  exec-Ends stop plane w up h = tt

  exec_all-Ends :
      (as' : List (Action Value)) (plane : Option DataPlane) (w : World) (up : Bool)
      → act_all as' (present plane) ≡ some up
      → Ends (Is up) (Session.exec_all json read site cfg keys token as' plane w)
  unfolding Session.exec_all
  exec_all-Ends [] plane w up h = ground arith
  exec_all-Ends (a ∷ as') plane w up h =
      let (mid, first, rest) = >>=-eq-some (act a (present plane)) (act_all as') h in
      Ends-after (Is mid) (Is up) (Session.exec json read site cfg keys token a plane w)
        (Session.exec_all json read site cfg keys token as') (exec-Ends a plane w mid first)
        (λ plane' w1 same. exec_all-Ends as' plane' w1 up (rw same rest))

  step_exec-Ends :
      (ev : Event Float) (s : State) (w : World)
      → act_all (Sm.step json s.sm ev).1 (present s.plane)
        ≡ some (is_connected (Sm.step json s.sm ev).0.state)
      → Ends Agrees (Session.step_exec json read site cfg keys token ev s w)
  unfolding Session.step_exec
  step_exec-Ends ev s w h =
      let stepped = Sm.step json s.sm ev in
      Ends-after (Is (is_connected stepped.0.state)) Agrees
        (Session.exec_all json read site cfg keys token stepped.1 s.plane w)
        (λ plane. pure (record s { plane = plane; sm = stepped.0 }))
        (exec_all-Ends stepped.1 s.plane w (is_connected stepped.0.state) h) (λ plane w1 same. same)

  step_exec-Agrees :
      (ev : Event Float) (s : State) (w : World)
      → Later ev
      → Agrees s
      → Ends Agrees (Session.step_exec json read site cfg keys token ev s w)
  step_exec-Agrees ev s w l h = step_exec-Ends ev s w (rw h (step-act json s.sm ev l))

  on_event-Ends :
      (o : Option (Event Float)) (s : State) (w : World)
      → LaterIn o
      → Agrees s
      → Ends Agrees (Session.on_event json read site cfg keys token o s w)
  unfolding Session.on_event
  on_event-Ends none s w l h = h
  on_event-Ends (some ev) s w l h = step_exec-Agrees ev s w l h

  map-LaterIn :
      {A : Type 0} (event : A → Event Float) (o : Option A)
      → ((a : A) → Later (event a))
      → LaterIn (Option.map event o)
  map-LaterIn event none h = tt
  map-LaterIn event (some a) h = h a

  to_event-LaterIn :
      (msg : WsMessage Value) → LaterIn (Session.to_event json read site cfg keys token msg)
  unfolding Session.to_event
  to_event-LaterIn msg = elim (Bool-cases (text_eq msg.typ Topic.ping_exit_nodes)) [
    | inl e ↦ rw e (map-LaterIn exit_nodes (site.exit_node_data msg.payload) (λ d. tt))
    | inr e ↦ rw e (elim (Bool-cases (text_eq msg.typ Topic.wg_connect)) [
      | inl f ↦ rw f (map-LaterIn wg_connect (site.wg_data msg.payload) (λ d. tt))
      | inr f ↦ rw f (elim (Bool-cases (text_eq msg.typ Topic.wg_reconnect)) [
        | inl g ↦ rw g tt
        | inr g ↦ rw g (elim (Bool-cases (text_eq msg.typ Topic.wg_terminate)) [
          | inl i ↦ rw i tt
          | inr i ↦ rw i tt
        ])
      ])
    ])
  ]

  on_plane-Agrees :
      (f : DataPlane → DataPlane) (s : State)
      → Agrees s
      → Agrees (Session.on_plane json read site cfg keys token f s)
  unfolding Session.on_plane
  on_plane-Agrees f s h = present-map f s.plane ∙ h

  learned-Agrees :
      (msg : WsMessage Value) (s : State)
      → Agrees s
      → Agrees (Session.learned json read site cfg keys token msg s)
  unfolding Session.learned
  learned-Agrees msg s h = elim (Option-cases msg.config_version) [
    | inl e ↦ rw (e, Session.learned) h
    | inr (v, e) ↦ rw (e, Session.learned) h
  ]

  on_message-Ends :
      (msg : WsMessage Value) (s : State) (w : World)
      → Agrees s
      → Ends Agrees (Session.on_message json read site cfg keys token msg s w)
  unfolding Session.on_message
  on_message-Ends msg s w h = elim (Bool-cases (text_eq msg.typ Topic.tcp_add)) [
    | inl e ↦ rw e (on_plane-Agrees _ s h)
    | inr e ↦ rw e (elim (Bool-cases (text_eq msg.typ Topic.tcp_remove)) [
      | inl f ↦ rw f (on_plane-Agrees _ s h)
      | inr f ↦ rw f (elim (Bool-cases (text_eq msg.typ Topic.sync)) [
        | inl g ↦ rw g (on_plane-Agrees _ s h)
        | inr g ↦ rw g (
            on_event-Ends (Session.to_event json read site cfg keys token msg) s w
              (to_event-LaterIn msg) h)
      ])
    ])
  ]

  keep_alive-Ends :
      (plane : Option DataPlane) (w : World)
      → Ends (Is (present plane)) (Session.keep_alive json read site cfg keys token plane w)
  unfolding Session.keep_alive
  keep_alive-Ends none w = refl
  keep_alive-Ends (some d) w =
      Ends-any (Is true) (site.send_ping d w) _ (λ d' w1.
        Ends-any (Is true) (site.send_holepunch d' w1) (λ u. pure (some d')) (λ u w2. refl))

  heartbeat-Ends :
      (s : State) (w : World)
      → Agrees s
      → Ends Agrees (Session.heartbeat json read site cfg keys token s w)
  unfolding Session.heartbeat
  heartbeat-Ends s w h = elim (Bool-cases (leb 10 (s.ping_ticks + 1))) [
    | inl e ↦
        let ping = Session.ping_msg json read site cfg keys token s.config_version in
        rw e (
          Ends-any Agrees (site.ws_send ping w) (λ u. pure (record s { ping_ticks = 0 }))
            (λ u w1. h))
    | inr e ↦ rw e h
  ]

  on_tick-Ends :
      (s : State) (w : World)
      → Agrees s
      → Ends Agrees (Session.on_tick json read site cfg keys token s w)
  unfolding Session.on_tick
  on_tick-Ends s w h =
      let alive = Session.keep_alive json read site cfg keys token in
      let beat = Session.heartbeat json read site cfg keys token in
      Ends-after Agrees Agrees (Session.step_exec json read site cfg keys token (tick 1000) s w)
        (λ s'. do plane ← alive s'.plane; beat (record s' { plane = plane }))
        (step_exec-Agrees (tick 1000) s w tt h)
        (λ s' w1 h1.
          Ends-after (Is (present s'.plane)) Agrees (alive s'.plane w1)
            (λ plane. beat (record s' { plane = plane })) (keep_alive-Ends s'.plane w1)
            (λ plane w2 same. heartbeat-Ends (record s' { plane = plane }) w2 (same ∙ h1)))

  drive-Ends :
      (plane : Option DataPlane) (w : World)
      → Ends (Is (present plane)) (Session.drive json read site cfg keys token plane w)
  unfolding Session.drive
  drive-Ends none w = refl
  drive-Ends (some d) w =
      Ends-any (Is true) (site.step_io d w) (λ d'. pure (some d')) (λ d' w1. refl)

  on_received-Ends :
      (o : Option (WsMessage Value)) (s : State) (w : World)
      → Agrees s
      → Ends AgreesAt (Session.on_received json read site cfg keys token o s w)
  unfolding Session.on_received
  on_received-Ends none s w h = tt
  on_received-Ends (some msg) s w h =
      let s1 = Session.learned json read site cfg keys token msg s in
      Ends-after Agrees AgreesAt (Session.on_message json read site cfg keys token msg s1 w)
        (λ s'. pure (Session.continues s')) (on_message-Ends msg s1 w (learned-Agrees msg s h))
        (λ s' w1 h1. h1)

  turn-Ends :
      (s : State) (i : Input Value) (w : World)
      → Agrees s
      → Ends AgreesAt (Session.turn json read site cfg keys token s i w)
  unfolding Session.turn
  turn-Ends s (received msg) w h =
      Ends-any AgreesAt (msg, w) (λ m. Session.on_received json read site cfg keys token m s)
        (λ m w1. on_received-Ends m s w1 h)
  turn-Ends s tick_due w h =
      Ends-after Agrees AgreesAt (Session.on_tick json read site cfg keys token s w)
        (λ s'. pure (Session.continues s')) (on_tick-Ends s w h) (λ s' w1 h1. h1)
  turn-Ends s plane_ready w h =
      Ends-after (Is (present s.plane)) AgreesAt
        (Session.drive json read site cfg keys token s.plane w)
        (λ plane. pure (Session.continues (record s { plane = plane }))) (drive-Ends s.plane w)
        (λ plane w1 same. same ∙ h)

  turns-Ends :
      (t : Turn) (inputs : List (Input Value)) (w : World)
      → AgreesAt t
      → Ends AgreesAt (Session.turns json read site cfg keys token t inputs w)
  unfolding Session.turns
  turns-Ends Session.returns inputs w h = tt
  turns-Ends (Session.continues s) [] w h = h
  turns-Ends (Session.continues s) (i ∷ inputs) w h =
      Ends-after AgreesAt AgreesAt (Session.turn json read site cfg keys token s i w)
        (λ t. Session.turns json read site cfg keys token t inputs) (turn-Ends s i w h)
        (λ t w1 h1. turns-Ends t inputs w1 h1)

  opened-Ends :
      (key version : Text) (no_cloud : Bool) (w : World)
      → Ends Agrees (Session.opened json read site cfg keys token (Sm.new key version no_cloud) w)
  unfolding Session.opened
  opened-Ends key version no_cloud w =
      step_exec-Ends ws_connected _ w (unfold Sm.new Sm.step in ground arith)

  -- From the start of a session with a new machine, whatever messages, ticks and turns of the data
  -- plane come, in whatever order: while the session goes on, the site has a data plane exactly when its
  -- control session is connected.
  pub session-Agrees :
      (key version : Text) (no_cloud : Bool) (inputs : List (Input Value)) (w : World)
      → Ends AgreesAt (
          after
            (Session.opened json read site cfg keys token (Sm.new key version no_cloud) w)
            (λ s. Session.turns json read site cfg keys token (Session.continues s) inputs))
  session-Agrees key version no_cloud inputs w =
      let sm = Sm.new key version no_cloud in
      Ends-after Agrees AgreesAt (Session.opened json read site cfg keys token sm w)
        (λ s. Session.turns json read site cfg keys token (Session.continues s) inputs)
        (opened-Ends key version no_cloud w)
        (λ s w1 h. turns-Ends (Session.continues s) inputs w1 h)
