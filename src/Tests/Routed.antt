-- ===== src/Tests/Routed.antt =====
-- Netlink requests, the kernel backend and its device on concrete input.
use newt_rust.Common.{
  ℕ, ◌+◌, ◌-◌, ◌%◌, ◌^◌, ◌≡◌, refl, true, false, Text, List, [], ◌∷◌, ◌++◌, codes, arith, take,
}
use newt_rust.Common.Results.{Result, ok}
use newt_rust.Common.Net.{Bytes, IsAddr}
use newt_rust.Common.Numbers.{decimal}
use newt_rust.Olm.Netlink.{Kernel, add_route}
use newt_rust.Olm.Netlink.Requests.{IsRouteRequest, add_route-IsRouteRequest}
use newt_rust.Olm.Netlink.Acks.{reply}
use newt_rust.Olm.Kernel.{TunFile, KernelBackend, add_routes}
use newt_rust.Olm.Tun
use newt_rust.Olm.Tun.{Files, Tun, tun_file}
use newt_rust.Olm.Kernel.Routes.{Requested, add_routes-tries_all}
use newt_rust.Tests.Instances.{ten}
use newt_rust.Tests.Routing.{wide, narrow}

-- A kernel that records the messages and refuses each with the code 17.
abbrev refusing : Kernel
refusing = record {
  World = List (ℕ × Bytes);
  Fd = ℕ;
  socket = λ w. (ok 3, w);
  send_to = λ fd b w. (ok tt, w ++ (fd, b) ∷ []);
  receive = λ fd n w. (ok (take n (reply true 36 0 1 17 [])), w);
  if_index = λ name w. (ok 5, w);
  os_error = decimal;
  sent = λ w. w;
  send_to-sent = λ fd b w. refl;
  receive-sent = λ fd n w. refl;
}

abbrev tun : TunFile (List (ℕ × Bytes))
tun = record {
  Tun = ℕ;
  open_tun = λ name w. (ok 4, w);
  name = λ t. codes "olm";
  read_packet = λ t n w. (ok [], w);
  write_packet = λ t b w. (ok tt, w);
}

abbrev backend : KernelBackend true refusing tun
backend = record { tun = 4; nl = record { fd = 3; seq = 2 ^ 32 - 1 }; ifindex = 5; buf = 1564 }

ten-bytes : IsAddr ten
ten-bytes = (refl, (omega arith, (omega arith, (omega arith, (omega arith, tt)))))

add_route-IsRouteRequest_example :
    (msg : Bytes) × ((add_route true refusing backend.nl 5 ten 8 []).1 ≡ (3, msg) ∷ [])
    × IsRouteRequest true refusing (2 ^ 32 - 1) 5 ten 8 msg
    × ((add_route true refusing backend.nl 5 ten 8 []).0.0.fd ≡ 3)
    × ((add_route true refusing backend.nl 5 ten 8 []).0.0.seq ≡ (2 ^ 32 - 1 + 1) % 2 ^ 32)
add_route-IsRouteRequest_example =
    add_route-IsRouteRequest true refusing backend.nl 5 ten 8 [] (omega arith) ten-bytes

add_routes-tries_all_example :
    ((add_routes true refusing tun backend (wide ∷ narrow ∷ []) []).0.1 ≡ ok tt)
    × ((add_routes true refusing tun backend (wide ∷ narrow ∷ []) []).0.0.ifindex ≡ 5)
    × ((add_routes true refusing tun backend (wide ∷ narrow ∷ []) []).0.0.nl.fd ≡ 3)
    × (messages : List (ℕ × Bytes)) × ((add_routes true refusing tun backend
          (wide ∷ narrow ∷ [])
          []).1
        ≡ messages)
    × Requested true refusing tun 3 5 (2 ^ 32 - 1) (wide ∷ narrow ∷ []) messages
add_routes-tries_all_example =
    add_routes-tries_all true refusing tun backend (wide ∷ narrow ∷ []) [] (omega arith)
      (ten-bytes, (ten-bytes, tt))

-- Files of which nothing fails, and a kernel that takes each name.
abbrev files : Files
files = record {
  World = Unit {0};
  Fd = ℕ;
  open_file = λ path w. (ok 7, w);
  ioctl = λ fd n req w. (ok req, w);
  get_flags = λ fd w. (ok 2, w);
  set_flags = λ fd flags w. (ok tt, w);
  o_nonblock = 2048;
  async_fd = λ fd w. (ok tt, w);
  as_bytes = λ text. text;
}

abbrev opened : Text → Result (Tun files) × Unit {0}
opened name = (tun_file files false (λ t n w. (ok [], w)) (λ t b w. (ok tt, w))).open_tun name tt

long_name-cut :
    opened (codes "a-very-long-interface")
    ≡ (ok (record { fd = 7; name = codes "a-very-long-int" }), tt)
unfolding Tun.open_tun
long_name-cut = refl
