-- ===== src/Core/Sm.antt =====
-- crates/newt-core/src/sm.rs: the state machine of a site's control session. A method that mutates
-- `&mut Sm` returns the new record; the `Vec<Action>` that it fills is the second result.
pub mod Tunnel
pub mod Timer
pub mod Messages
use newt_rust.Common.{
  ℕ, ◌-◌, Text, codes, List, [], ◌∷◌, ◌++◌, map, Bool, true, false, not, none, leb, ◌==◌,
  if◌then◌else◌,
}
use newt_rust.Common.Json.{Json}
use newt_rust.Core.Proto.{WsMessage, ExitNode, ExitNodeData, PingResult, WgData}
use newt_rust.Core.Topic

pub data State : Type 0 where
  disconnected requesting_exit_nodes registering connected stopped : State

pub data Event (F : Type 0) : Type 0 where
  ws_connected : Event F
  exit_nodes : ExitNodeData F → Event F
  wg_connect : WgData → Event F
  reconnect terminate : Event F
  -- the milliseconds since the last tick
  tick : ℕ → Event F

pub data Action (V : Type 0) : Type 0 where
  send : WsMessage V → Action V
  bring_up : WgData → Action V
  teardown stop : Action V

pub record Sm : Type 0 where
  pub state : State
  pub public_key_b64 : Text
  pub newt_version : Text
  pub no_cloud : Bool
  pub pending_chain_id : Text
  pub resend_due_ms : ℕ

abbrev pub ping_resend_ms : ℕ
ping_resend_ms = 3000

abbrev pub register_resend_ms : ℕ
register_resend_ms = 2000

-- `Sm::new`
unfoldable pub new : Text → Text → Bool → Sm
new key version no_cloud = record {
  state = disconnected;
  public_key_b64 = key;
  newt_version = version;
  no_cloud = no_cloud;
  pending_chain_id = [];
  resend_due_ms = 0;
}

abbrev pub is_requesting : State → Bool
is_requesting requesting_exit_nodes = true
is_requesting _ = false

abbrev pub is_connected : State → Bool
is_connected connected = true
is_connected _ = false

module _ (json : Json) where
  open json use {Value, Float, float_zero, bool, string, int, float, array, object}

  pub ping_request_msg : Sm → WsMessage Value
  ping_request_msg sm = record {
    typ = Topic.ping_request;
    payload =
        object (
          (codes "noCloud", bool sm.no_cloud) ∷ (codes "chainId", string sm.pending_chain_id) ∷ []);
    config_version = none;
  }

  -- the derived `Serialize` of a `PingResult`
  ping_result_value : PingResult Float → Value
  ping_result_value r = object (
      (codes "exitNodeId", int r.exit_node_id)
      ∷ (codes "latencyMs", float r.latency_ms)
      ∷ (codes "weight", float r.weight)
      ∷ (codes "error", string r.error)
      ∷ (codes "name", string r.name)
      ∷ (codes "endpoint", string r.endpoint)
      ∷ (codes "wasPreviouslyConnected", bool r.was_previously_connected)
      ∷ [])

  pub register_msg : Sm → List (PingResult Float) → WsMessage Value
  unfolding ping_result_value
  register_msg sm results = record {
    typ = Topic.wg_register;
    payload = object (
        (codes "publicKey", string sm.public_key_b64)
        ∷ (codes "pingResults", array (map ping_result_value results))
        ∷ (codes "newtVersion", string sm.newt_version)
        ∷ (codes "chainId", string sm.pending_chain_id)
        ∷ []);
    config_version = none;
  }

  -- the one result reported for the chosen exit node
  pub ping_result : ExitNode Float → PingResult Float
  ping_result node = record {
    exit_node_id = node.id;
    latency_ms = float_zero;
    weight = node.weight;
    error = [];
    name = node.name;
    endpoint = node.endpoint;
    was_previously_connected = node.was_previously_connected;
  }

  on_ws_connected : Sm → Sm × List (Action Value)
  on_ws_connected sm =
      let sm' : Sm = record sm { state = requesting_exit_nodes; resend_due_ms = ping_resend_ms } in
      (sm', send (ping_request_msg sm') ∷ [])

  register_with : Sm → List (ExitNode Float) → Sm × List (Action Value)
  register_with sm [] = (sm, [])
  register_with sm (node ∷ _) =
      let sm' : Sm = record sm { state = registering; resend_due_ms = register_resend_ms } in
      (sm', send (register_msg sm' (ping_result node ∷ [])) ∷ [])

  on_exit_nodes : Sm → ExitNodeData Float → Sm × List (Action Value)
  unfolding register_with
  on_exit_nodes sm nodes =
      if not (is_requesting sm.state) then (sm, []) else register_with sm nodes.exit_nodes

  on_wg_connect : Sm → WgData → Sm × List (Action Value)
  on_wg_connect sm wg = (
    record sm { state = connected; resend_due_ms = 0 },
    if is_connected sm.state then teardown ∷ bring_up wg ∷ [] else bring_up wg ∷ [],
  )

  on_reconnect : Sm → Sm × List (Action Value)
  on_reconnect sm =
      let sm' : Sm = record sm { state = requesting_exit_nodes; resend_due_ms = ping_resend_ms } in
      (
        sm',
        if is_connected sm.state
            then teardown ∷ send (ping_request_msg sm') ∷ []
            else send (ping_request_msg sm') ∷ [],
      )

  on_terminate : Sm → Sm × List (Action Value)
  on_terminate sm = (record sm { state = stopped }, teardown ∷ stop ∷ [])

  -- the timer has run out
  resend : State → Sm → Sm × List (Action Value)
  resend requesting_exit_nodes sm =
      let sm' : Sm = record sm { resend_due_ms = ping_resend_ms } in
      (sm', send (ping_request_msg sm') ∷ [])
  resend registering sm =
      let sm' : Sm = record sm { resend_due_ms = register_resend_ms } in
      (sm', send (register_msg sm' []) ∷ [])
  resend _ sm = (sm, [])

  on_tick : Sm → ℕ → Sm × List (Action Value)
  unfolding resend
  on_tick sm elapsed =
      if sm.resend_due_ms == 0
      then (sm, [])
      else if leb sm.resend_due_ms elapsed
      then resend sm.state sm
      else (record sm { resend_due_ms = sm.resend_due_ms - elapsed }, [])

  -- `Sm::step`, which is `step_impl`
  unfoldable pub step : Sm → Event Float → Sm × List (Action Value)
  unfolding on_ws_connected on_exit_nodes on_wg_connect on_reconnect on_terminate on_tick
  step sm ws_connected = on_ws_connected sm
  step sm (exit_nodes nodes) = on_exit_nodes sm nodes
  step sm (wg_connect wg) = on_wg_connect sm wg
  step sm reconnect = on_reconnect sm
  step sm terminate = on_terminate sm
  step sm (tick elapsed) = on_tick sm elapsed

  -- The machine fed a list of events, with all actions in order.
  unfoldable pub run : Sm → List (Event Float) → Sm × List (Action Value)
  run sm [] = (sm, [])
  run sm (e ∷ es) =
      let (sm', out) = step sm e in let (last, rest) = run sm' es in (last, out ++ rest)
