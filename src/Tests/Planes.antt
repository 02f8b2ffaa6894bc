-- ===== src/Tests/Planes.antt =====
-- The data plane of a site on concrete input.
use newt_rust.Common.{refl, true, List, [], ◌∷◌, ◌++◌, some, codes}
use newt_rust.Common.Net.{Bytes, SocketAddr}
use newt_rust.Common.Results.{ok}
use newt_rust.Core.Proto.{WgData}
use newt_rust.Tunnel.Listeners.{desired}
use newt_rust.Tunnel.Accept.{Host, Serving}
use newt_rust.Tunnel.Accept.Accepted.{Accepted}
use newt_rust.Tunnel.Plane.{
  Udp, Addresses, DataPlane, on_datagram, step_io, send_ping, listen_each, built,
}
use newt_rust.Tunnel.Plane.Started.{Started}
use newt_rust.Tunnel.Plane.Inward.{Handled, on_datagram-Handled}
use newt_rust.Tunnel.Plane.Sends.{Sends, At, step_io-Sends}
use newt_rust.Tests.Instances.{clear, ten}
use newt_rust.Tests.Loops.{cfg}
use newt_rust.Tests.Session.{wg}
use newt_rust.Tests.Routing.{key}
use newt_rust.Tests.World.{keys}
use newt_rust.Tests.Streams.{Pipe, pipe, start}

-- Every socket is connected to, and what is received is sent back.
abbrev echoing : Host
echoing = record {
  streams = pipe;
  add = λ rx tx w. (tt, w);
  listen = λ h p w. w;
  is_active = λ h w. true;
  same_handle = λ h k. true;
  same_handle-refl = λ h. refl;
  same_handle→eq = λ h k e. refl;
  spawn_tcp = λ t w. (tt, w);
  poll = λ rx w. ((rx, []), w);
}

abbrev exit_node : SocketAddr
exit_node = record { ip = ten; port = 51820 }

-- The world is what was sent; a datagram is always at hand.
abbrev air : Udp
air = record {
  World = List (Bytes × SocketAddr);
  lookup_host = λ name port w. (ok (exit_node ∷ []), w);
  bind = λ w. (ok tt, w);
  send_to = λ b to w. (ok tt, w ++ (b, to) ∷ []);
  recv_or_sleep = λ n w. (ok (some (5 ∷ 6 ∷ [])), w);
  sent = λ w. w;
  send_to-sent = λ b to w. refl;
  recv-sent = λ n w. refl;
}

abbrev serving : Serving echoing
serving = record {
  plane = record {
    listeners =
        record { port = 3001; target = codes "127.0.0.1:80"; handle = tt }
        ∷ record { port = 3002; target = codes "127.0.0.1:81"; handle = tt }
        ∷ [];
    sockets = start;
  };
  conns = [];
}

-- A data plane whose tunnel has a message to send.
abbrev plane : DataPlane clear echoing
plane = record {
  pump = record { tun = (7 ∷ []) ∷ []; mtu = 1280 };
  rx = (1 ∷ []) ∷ [];
  serving = serving;
  udp_buf = 1564;
  endpoint = exit_node;
  relay_addr = exit_node;
  server_ip = 100 ∷ 89 ∷ 128 ∷ 1 ∷ [];
  tunnel_ip4 = 100 ∷ 89 ∷ 128 ∷ 4 ∷ [];
  ping_seq = 65535;
  newt_id = codes "site";
  token = codes "t";
  newt_pub = codes "k";
  server_pub = codes "s";
}

on_datagram-Handled_example :
    Handled clear echoing air plane []
      (5 ∷ 6 ∷ [])
      (on_datagram clear echoing air (some (5 ∷ 6 ∷ [])) plane [])
on_datagram-Handled_example = on_datagram-Handled clear echoing air plane [] (5 ∷ 6 ∷ [])

step_io-Sends_example :
    Sends air exit_node (At clear echoing air exit_node) [] (step_io clear echoing air plane [])
    × Sends air exit_node (At clear echoing air exit_node) [] (send_ping clear echoing air plane [])
step_io-Sends_example = step_io-Sends clear echoing air plane []

abbrev addresses : Addresses Pipe
addresses = record {
  parse_ip = λ s. some ten;
  parse_v4 = λ s. some (10 ∷ 0 ∷ 0 ∷ 1 ∷ []);
  new_stack = λ ip mtu. start;
}

abbrev given : WgData
given = record wg { public_key = key }

abbrev brought_up : DataPlane clear echoing
brought_up =
    built clear echoing air given cfg keys (codes "t") (record { tun = []; mtu = 1280 })
      (listen_each clear echoing (desired given.targets.tcp)
        (record { listeners = []; sockets = start }))
      exit_node (10 ∷ 0 ∷ 0 ∷ 1 ∷ []) (10 ∷ 0 ∷ 0 ∷ 1 ∷ [])
