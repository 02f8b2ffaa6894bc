-- ===== src/Core/Proto.antt =====
-- crates/newt-core/src/proto.rs: the messages of a site's control channel. `V` is the type of JSON
-- values and `F` that of `f64`.
use newt_rust.Common.{ℕ, Text, List, Bool, Option}
use newt_rust.Common.Int.{ℤ}

-- The field `data` is `payload` here.
pub record WsMessage (V : Type 0) : Type 0 where
  pub typ : Text
  pub payload : V
  pub config_version : Option ℤ

pub record ExitNode (F : Type 0) : Type 0 where
  pub id : ℤ
  pub name : Text
  pub endpoint : Text
  pub weight : F
  pub was_previously_connected : Bool

pub record ExitNodeData (F : Type 0) : Type 0 where
  pub exit_nodes : List (ExitNode F)
  pub chain_id : Text

pub record PingResult (F : Type 0) : Type 0 where
  pub exit_node_id : ℤ
  pub latency_ms : F
  pub weight : F
  pub error : Text
  pub name : Text
  pub endpoint : Text
  pub was_previously_connected : Bool

pub record TargetsByType : Type 0 where
  pub tcp : List Text
  pub udp : List Text

pub record WgData : Type 0 where
  pub endpoint : Text
  pub public_key : Text
  pub server_ip : Text
  pub tunnel_ip : Text
  pub relay_port : ℕ
  pub targets : TargetsByType
  pub chain_id : Text
