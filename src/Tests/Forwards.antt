-- ===== src/Tests/Forwards.antt =====
-- The userspace backend, the device, the tasks and the log on concrete input.
use newt_rust.Common.{
  ℕ, zero, suc, ◌+◌, ◌≡◌, refl, true, false, [], ◌∷◌, Option, some, Text, codes, text_eq,
}
use newt_rust.Common.Net.{IpAddr}
use newt_rust.Common.Results.{ok, err}
use newt_rust.Netstack.{VirtualDevice, receives, transmits, run_calls}
use newt_rust.Proxy.{message, bytes_read, bridge_stream, bridge_loop}
use newt_rust.Log.{set_level, enabled}
use newt_rust.Olm.Userspace.{Local, Origin, UserspaceBackend, alloc_port, open_outgoing}
use newt_rust.Olm.Userspace.Opened.{Outcome, open_outgoing-Outcome}
use newt_rust.Tests.Instances.{ten}
use newt_rust.Tests.Streams.{pipe, start}

-- An application connects to the first forward whenever it is asked.
abbrev local : Local
local = record {
  World = ℕ;
  Listener = ℕ;
  Stream = Unit;
  bind = λ port w. (ok port, w);
  accept_or_sleep = λ ls w. (ok (some (tt, 0)), w + 1);
  sleep = λ ms w. (ok tt, w + ms);
  elapsed = λ w. w;
}

-- Port 0 cannot be connected to.
abbrev origin : Origin (Unit {0})
origin = record {
  streams = pipe;
  new_stack = λ ip mtu. start;
  add = λ rx tx w. (tt, w);
  connect = λ h ip port local_port w.
      (elim port [ zero ↦ err (codes "unaddressable") | suc n ↦ ok tt ], w);
  same_handle = λ h k. true;
  same_handle-refl = λ h. refl;
  same_handle→eq = λ h k e. refl;
  bridge_stream = λ s w. (tt, w);
  poll = λ now rx w. ((rx, []), w);
}

abbrev parse_ip : Text → Option IpAddr
parse_ip s = some ten

abbrev backend : UserspaceBackend local origin parse_ip
backend = record {
  rx = (1 ∷ []) ∷ [];
  sockets = start;
  forwards = record { listener = 8080; dest = ten; dest_port = 80 } ∷ [];
  conns = [];
  next_port = 60000;
}

open_outgoing-Outcome_example :
    Outcome local origin parse_ip backend
      (open_outgoing local origin parse_ip ten 80 tt backend)
      tt
      tt
      (ok tt, start)
    × ((open_outgoing local origin parse_ip ten 80 tt backend).next_port ≡ (alloc_port 60000).1)
    × ((open_outgoing local origin parse_ip ten 80 tt backend).forwards ≡ backend.forwards)
    × ((open_outgoing local origin parse_ip ten 80 tt backend).rx ≡ backend.rx)
open_outgoing-Outcome_example =
    open_outgoing-Outcome local origin parse_ip ten 80 tt backend (ok tt, start) refl

refused_keeps_nothing : (open_outgoing local origin parse_ip ten 0 tt backend).conns ≡ []
unfolding open_outgoing
refused_keeps_nothing = refl

abbrev device : VirtualDevice
device = record { rx = (1 ∷ []) ∷ (2 ∷ []) ∷ []; tx = []; mtu = 1280 }

device_runs :
    run_calls (receives ∷ transmits (9 ∷ []) ∷ []) device
    ≡ ((1 ∷ []) ∷ [], record { rx = (2 ∷ []) ∷ []; tx = (9 ∷ []) ∷ []; mtu = 1280 })
unfolding run_calls
device_runs = refl

task_runs :
    bridge_stream (
      message (some (1 ∷ 2 ∷ [])) true
      ∷ bytes_read (ok (3 ∷ [])) true
      ∷ bytes_read (ok []) true
      ∷ message (some (4 ∷ [])) true
      ∷ [])
    ≡ (false, record { written = 1 ∷ 2 ∷ []; sent = (3 ∷ []) ∷ [] })
unfolding bridge_loop
task_runs = refl

warnings_at_info : enabled (set_level (codes "info")) 3 ≡ true
unfolding enabled set_level text_eq
warnings_at_info = refl
