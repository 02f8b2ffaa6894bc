-- ===== src/Tests/Session.antt =====
-- The control session on concrete events.
use newt_rust.Common.{ℕ, List, [], ◌∷◌, ◌++◌, ◌≡◌, refl, arith, inl, codes, All, map, false}
use newt_rust.Common.Int.{pos}
use newt_rust.Core.Proto.{ExitNode, ExitNodeData, WgData}
use newt_rust.Core.Sm.{
  Sm, Event, ws_connected, exit_nodes, wg_connect, reconnect, terminate, tick, send, new, run,
  requesting_exit_nodes,
}
use newt_rust.Core.Sm.Timer.{run_resends, waiting_msg, period}
use newt_rust.Core.Sm.Messages.{Sent, IsMessageOf, run-IsMessageOf}
use newt_rust.Tests.Instances.{printed}

abbrev node : ExitNode ℕ
node = record {
  id = pos 7;
  name = codes "a";
  endpoint = codes "a:1";
  weight = 1;
  was_previously_connected = false;
}

abbrev pub nodes : ExitNodeData ℕ
nodes = record { exit_nodes = node ∷ []; chain_id = codes "c" }

abbrev pub wg : WgData
wg = record {
  endpoint = codes "a:51820";
  public_key = codes "k";
  server_ip = codes "100.89.128.1";
  tunnel_ip = codes "100.89.128.4";
  relay_port = 0;
  targets = record { tcp = codes "3001:127.0.0.1:80" ∷ []; udp = [] };
  chain_id = codes "c";
}

abbrev machine : Sm
machine = new (codes "k") (codes "1.0") false

-- A registration, a tick, the tunnel, a reconnection and the end.
abbrev session : List (Event ℕ)
session = exit_nodes nodes ∷ tick 500 ∷ wg_connect wg ∷ reconnect ∷ terminate ∷ []

abbrev waiting : Sm
waiting = record {
  state = requesting_exit_nodes;
  public_key_b64 = codes "k";
  newt_version = codes "1.0";
  no_cloud = false;
  pending_chain_id = [];
  resend_due_ms = 3000;
}

run_resends_example : run printed waiting (map tick ((1000 ∷ 1000 ∷ []) ++ 1000 ∷ [])) ≡ (
  record waiting { resend_due_ms = period waiting.state },
  send (waiting_msg printed waiting.state (record waiting { resend_due_ms = period waiting.state }))
      ∷ [],
)
run_resends_example =
    run_resends printed waiting (1000 ∷ 1000 ∷ []) 1000 (inl refl) (omega arith) (omega arith)

run-IsMessageOf_example :
    All
      (Sent printed (IsMessageOf printed machine))
      (run printed machine (ws_connected ∷ session)).1
run-IsMessageOf_example = run-IsMessageOf printed machine (ws_connected ∷ session)
