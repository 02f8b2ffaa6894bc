-- ===== src/Tunnel/Session.antt =====
-- The session loop of a site (`session`, `to_event`, `exec` and `drive` of crates/newt/src/tunnel.rs). Which
-- branch of the `select!` is ready is an input, with the result of the awaited call. The WebSocket and
-- the operations of the data plane are the interface `Site`. Messages to the log are left out.
pub mod Agrees
pub mod Monitor
pub mod Beats
use newt_rust.Common.{
  ℕ, ◌+◌, Bool, true, false, ◌||◌, List, [], ◌∷◌, Option, none, some, Text, codes, text_eq, leb,
  filter_map, if◌then◌else◌,
}
use newt_rust.Common.Results.{Result, ok, err}
use newt_rust.Common.Io.{Io, pure, lift, ◌>>=◌, ◌>>◌}
use newt_rust.Common.Int.{ℤ}
use newt_rust.Common.Json.{Json, Reader}
use newt_rust.Core.Proto.{WsMessage, ExitNodeData, WgData}
use newt_rust.Core.Sm
use newt_rust.Core.Sm.{
  Sm, Event, ws_connected, exit_nodes, wg_connect, reconnect, terminate, tick, Action, send,
  bring_up, teardown, stop,
}
use newt_rust.Core.Topic
use newt_rust.Config.Model.{SiteRun}
use newt_rust.Wg.{Keys}
use mathlib.Core.Option

-- What the session uses of the WebSocket and of `DataPlane`, with the derived decoders of two payloads.
pub record Site (json : Json) (S : Type 0) : Type 1 where
  pub World : Type 0
  pub DataPlane : Type 0
  pub ws_send : WsMessage json.Value → Io World (Unit {0})
  pub bring_up : WgData → SiteRun → Keys S → Text → Io World DataPlane
  pub add_targets : List Text → DataPlane → DataPlane
  pub remove_targets : List Text → DataPlane → DataPlane
  pub reconcile_targets : List Text → DataPlane → DataPlane
  pub send_ping : DataPlane → Io World DataPlane
  pub send_holepunch : DataPlane → Io World (Unit {0})
  pub step_io : DataPlane → Io World DataPlane
  pub exit_node_data : json.Value → Option (ExitNodeData json.Float)
  pub wg_data : json.Value → Option WgData

-- A message or the end of the WebSocket, the timer, and the turn of the data plane.
pub data Input (V : Type 0) : Type 0 where
  received : Result (Option (WsMessage V)) → Input V
  tick_due : Input V
  plane_ready : Input V

module _ (json : Json) (read : Reader json.Value) where
  open json use {Value}

  -- the texts of an array; none where the value is no array
  pub texts_of : Option Value → List Text
  texts_of none = []
  texts_of (some v) = elim (read.as_array v) [ none ↦ [] | some a ↦ filter_map read.as_str a ]

  -- `get`, behind another one
  pub get_in : Option Value → Text → Option Value
  get_in none key = none
  get_in (some v) key = read.get v key

module _ {S : Type 0} (json : Json) (read : Reader json.Value) (site : Site json S) (cfg : SiteRun)
    (keys : Keys S) (token : Text) where
  open json use {Value, Float}
  open site use {World, DataPlane, ws_send}

  pub record State : Type 0 where
    pub plane : Option DataPlane
    pub sm : Sm
    pub config_version : Option ℤ
    pub ping_ticks : ℕ

  pub data Turn : Type 0 where
    continues : State → Turn
    returns : Turn

  -- `to_event`
  pub to_event : WsMessage Value → Option (Event Float)
  unfolding text_eq
  to_event msg =
      if text_eq msg.typ Topic.ping_exit_nodes
      then Option.map exit_nodes (site.exit_node_data msg.payload)
      else if text_eq msg.typ Topic.wg_connect
      then Option.map wg_connect (site.wg_data msg.payload)
      else if text_eq msg.typ Topic.wg_reconnect
      then some reconnect
      else if text_eq msg.typ Topic.wg_terminate
      then some terminate
      else none

  -- `exec`
  pub exec : Action Value → Option DataPlane → Io World (Option DataPlane)
  exec (send m) plane = do ws_send m; pure plane
  exec (bring_up wg) plane = do d ← site.bring_up wg cfg keys token; pure (some d)
  exec teardown plane = pure none
  exec stop plane = lift (err (codes "terminated by server"))

  pub exec_all : List (Action Value) → Option DataPlane → Io World (Option DataPlane)
  unfolding exec
  exec_all [] plane = pure plane
  exec_all (a ∷ as') plane = do plane' ← exec a plane; exec_all as' plane'

  -- `for act in sm.step(ev) { exec(..) }`
  pub step_exec : Event Float → State → Io World State
  unfolding exec_all
  step_exec ev s =
      let (sm, actions) = Sm.step json s.sm ev in
      do plane ← exec_all actions s.plane; pure (record s { plane = plane; sm = sm })

  pub on_plane : (DataPlane → DataPlane) → State → State
  on_plane f s = record s { plane = Option.map f s.plane }

  -- the version of the last message that has one
  pub learned : WsMessage Value → State → State
  learned msg s = elim msg.config_version [
    | none ↦ s
    | some v ↦ record s { config_version = some v }
  ]

  pub on_event : Option (Event Float) → State → Io World State
  unfolding step_exec
  on_event none s = pure s
  on_event (some ev) s = step_exec ev s

  pub on_message : WsMessage Value → State → Io World State
  unfolding texts_of get_in on_plane on_event to_event
  on_message msg s =
      let specs = texts_of json read (read.get msg.payload (codes "targets")) in
      let proxied =
        texts_of json read
          (get_in json read (read.get msg.payload (codes "proxyTargets")) (codes "tcp")) in
      if text_eq msg.typ Topic.tcp_add
      then pure (on_plane (site.add_targets specs) s)
      else if text_eq msg.typ Topic.tcp_remove
      then pure (on_plane (site.remove_targets specs) s)
      else if text_eq msg.typ Topic.sync
      then pure (on_plane (site.reconcile_targets proxied) s)
      else on_event (to_event msg) s

  -- `if let Some(d) = data.as_mut() { d.send_ping().await?; d.send_holepunch().await?; }`
  pub keep_alive : Option DataPlane → Io World (Option DataPlane)
  keep_alive none = pure none
  keep_alive (some d) = do d' ← site.send_ping d; site.send_holepunch d'; pure (some d')

  unfoldable pub ping_msg : Option ℤ → WsMessage Value
  ping_msg version = record { typ = Topic.ping; payload = json.object []; config_version = version }

  pub heartbeat : State → Io World State
  unfolding ping_msg
  heartbeat s =
      if leb 10 (s.ping_ticks + 1)
      then (do ws_send (ping_msg s.config_version); pure (record s { ping_ticks = 0 }))
      else pure (record s { ping_ticks = s.ping_ticks + 1 })

  pub on_tick : State → Io World State
  unfolding step_exec keep_alive heartbeat
  on_tick s = do
    s' ← step_exec (tick 1000) s
    plane ← keep_alive s'.plane
    heartbeat (record s' { plane = plane })

  -- the branch `drive`, which is off without a data plane
  pub drive : Option DataPlane → Io World (Option DataPlane)
  drive none = pure none
  drive (some d) = do d' ← site.step_io d; pure (some d')

  pub on_received : Option (WsMessage Value) → State → Io World Turn
  unfolding learned on_message
  on_received none s = pure returns
  on_received (some msg) s = do s' ← on_message msg (learned msg s); pure (continues s')

  -- One round of the loop.
  unfoldable pub turn : State → Input Value → Io World Turn
  unfolding on_received on_tick drive
  turn s (received msg) = do m ← lift msg; on_received m s
  turn s tick_due = do s' ← on_tick s; pure (continues s')
  turn s plane_ready = do plane ← drive s.plane; pure (continues (record s { plane = plane }))

  -- The loop over the inputs that come; `continues` where they are not at an end.
  unfoldable pub turns : Turn → List (Input Value) → Io World Turn
  unfolding turn
  turns returns inputs = pure returns
  turns (continues s) [] = pure (continues s)
  turns (continues s) (i ∷ inputs) = do t ← turn s i; turns t inputs

  -- `session` before its loop, connected, by the machine that it is given
  unfoldable pub opened : Sm → Io World State
  unfolding step_exec
  opened sm =
      step_exec ws_connected
        (record { plane = none; sm = sm; config_version = none; ping_ticks = 0 })
