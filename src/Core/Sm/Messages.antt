-- ===== src/Core/Sm/Messages.antt =====
-- The messages that the machine sends.
use newt_rust.Common.{List, [], ◌∷◌, ◌∙◌, ◌≡◌, ◌⊎◌, inl, inr, refl, arith, All, All-append, All-map}
use newt_rust.Common.Json.{Json}
use newt_rust.Core.Topic
use newt_rust.Core.Proto.{WsMessage, ExitNode, PingResult}
use newt_rust.Core.Sm.{
  State, requesting_exit_nodes, registering, Sm, Event, ws_connected, exit_nodes, wg_connect,
  reconnect, terminate, tick, Action, send, bring_up, teardown, stop, step, run, ping_request_msg,
  register_msg, ping_result, register_with,
}

-- What the messages are made of does not change.
pub record SameIdentity (sm sm' : Sm) : Type 0 where
  pub key : sm'.public_key_b64 ≡ sm.public_key_b64
  pub version : sm'.newt_version ≡ sm.newt_version
  pub cloud : sm'.no_cloud ≡ sm.no_cloud
  pub chain : sm'.pending_chain_id ≡ sm.pending_chain_id

module _ (json : Json) where
  open json use {Value, Float}

  -- A message built from the machine `sm`, which is one of three.
  abbrev pub IsMessageOf : Sm → WsMessage Value → Type 0
  IsMessageOf sm m =
      (m ≡ ping_request_msg json sm)
      ⊎ (m ≡ register_msg json sm [])
      ⊎ ((node : ExitNode Float) × (m ≡ register_msg json sm (ping_result json node ∷ [])))

  -- The topic of a message is the one for the state that the machine has gone to.
  abbrev pub FitsState : State → WsMessage Value → Type 0
  FitsState s m =
      ((s ≡ requesting_exit_nodes) × (m.typ ≡ Topic.ping_request))
      ⊎ ((s ≡ registering) × (m.typ ≡ Topic.wg_register))

  abbrev pub Sent : (WsMessage Value → Type 0) → Action Value → Type 0
  Sent P (send m) = P m
  Sent P (bring_up wg) = Unit
  Sent P teardown = Unit
  Sent P stop = Unit

  step-SameIdentity : (sm : Sm) (e : Event Float) → SameIdentity sm (step json sm e).0
  unfolding step
  step-SameIdentity sm e = ground arith

  register_with-IsMessageOf :
      (sm : Sm) (ns : List (ExitNode Float))
      → All (Sent (IsMessageOf sm)) (register_with json sm ns).1
  unfolding register_with register_msg
  register_with-IsMessageOf sm [] = tt
  register_with-IsMessageOf sm (node ∷ ns) = (inr (inr (node, refl)), tt)

  step-IsMessageOf : (sm : Sm) (e : Event Float) → All (Sent (IsMessageOf sm)) (step json sm e).1
  unfolding step ping_request_msg register_msg
  step-IsMessageOf sm ws_connected = ground arith
  step-IsMessageOf sm (exit_nodes nodes) =
      ground (arith, register_with-IsMessageOf sm nodes.exit_nodes)
  step-IsMessageOf sm (wg_connect wg) = ground arith
  step-IsMessageOf sm reconnect = ground arith
  step-IsMessageOf sm terminate = ground arith
  step-IsMessageOf sm (tick n) = ground arith

  -- Whatever a step sends has the topic for the state that the machine goes to: a request for exit
  -- nodes, or a registration.
  pub step-FitsState :
      (sm : Sm) (e : Event Float)
      → All (Sent (FitsState (step json sm e).0.state)) (step json sm e).1
  unfolding step ping_request_msg register_msg
  step-FitsState sm ws_connected = ground arith
  step-FitsState sm (exit_nodes nodes) = ground arith
  step-FitsState sm (wg_connect wg) = ground arith
  step-FitsState sm reconnect = ground arith
  step-FitsState sm terminate = ground arith
  step-FitsState sm (tick n) = ground arith

  ping-SameIdentity :
      (sm sm' : Sm) → SameIdentity sm sm' → ping_request_msg json sm' ≡ ping_request_msg json sm
  unfolding ping_request_msg
  ping-SameIdentity sm sm' same = cc (same.cloud, same.chain)

  register-SameIdentity :
      (sm sm' : Sm) (rs : List (PingResult Float))
      → SameIdentity sm sm'
      → register_msg json sm' rs ≡ register_msg json sm rs
  unfolding register_msg
  register-SameIdentity sm sm' rs same = cc (same.key, same.version, same.chain)

  Sent-SameIdentity :
      (sm sm' : Sm)
      → SameIdentity sm sm'
      → (a : Action Value) → Sent (IsMessageOf sm') a
      → Sent (IsMessageOf sm) a
  Sent-SameIdentity sm sm' same (send m) (inl e) = inl (e ∙ ping-SameIdentity sm sm' same)
  Sent-SameIdentity sm sm' same (send m) (inr (inl e)) =
      inr (inl (e ∙ register-SameIdentity sm sm' [] same))
  Sent-SameIdentity sm sm' same (send m) (inr (inr (node, e))) =
      inr (inr (node, e ∙ register-SameIdentity sm sm' (ping_result json node ∷ []) same))
  Sent-SameIdentity sm sm' same (bring_up wg) h = tt
  Sent-SameIdentity sm sm' same teardown h = tt
  Sent-SameIdentity sm sm' same stop h = tt

  -- Over every list of events, whatever the machine sends is its request for exit nodes, its
  -- registration with no ping result or its registration with the result of one exit node, built from
  -- the keys, the version and the chain id that it started with.
  pub run-IsMessageOf :
      (sm : Sm) (es : List (Event Float)) → All (Sent (IsMessageOf sm)) (run json sm es).1
  unfolding run
  run-IsMessageOf sm [] = tt
  run-IsMessageOf sm (e ∷ es) = All-append _ (step json sm e).1 _ (step-IsMessageOf sm e) (
      All-map (Sent-SameIdentity sm (step json sm e).0 (step-SameIdentity sm e)) _
        (run-IsMessageOf (step json sm e).0 es))
