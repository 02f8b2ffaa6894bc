-- ===== src/Tests/Site.antt =====
-- The keepalive ping and the listeners on concrete inputs.
use newt_rust.Common.{
  none, some, List, [], ◌∷◌, ◌++◌, ◌≡◌, refl, arith, codes, Text, not, any, retain, take, drop,
  length, if◌then◌else◌, ◌==◌,
}
use newt_rust.Common.Net.{Bytes, v4}
use newt_rust.Tunnel.Checksum.{checksum, sum_words, fold_carries}
use newt_rust.Tunnel.Checksum.Verify.{Verifies}
use newt_rust.Tunnel.Echo.{icmp_echo, be16}
use newt_rust.Tunnel.Echo.Valid.{icmp_echo-IsPing}
use newt_rust.Core.Target.{Target}
use newt_rust.Tunnel.Listeners.{DataPlane, desired, remove_targets, reconcile_targets}
use newt_rust.Tunnel.Listeners.Reconciled.{targets_at, wanted, synced, reconcile_targets-wanted}
use newt_rust.Tunnel.Listeners.Changed.{remove_targets-gone}
use mathlib.Core.List.{Perm}
use newt_rust.Olm.Router.{dest_ip}
use newt_rust.Tests.Instances.{numbered}

abbrev prefix : Bytes
prefix = 8 ∷ 0 ∷ []

abbrev rest : Bytes
rest = 0 ∷ 1 ∷ 255 ∷ 254 ∷ 7 ∷ []

sums : checksum (prefix ++ 0 ∷ 0 ∷ rest) ≡ 61695
unfolding checksum sum_words fold_carries
sums = refl

icmp_echo-IsPing_example :
    let dst : Bytes = 100 ∷ 89 ∷ 128 ∷ 1 ∷ [] in
    let packet = icmp_echo (100 ∷ 89 ∷ 128 ∷ 4 ∷ []) dst 1 7 in
    Verifies (take 20 packet)
    × Verifies (drop 20 packet)
    × (length packet ≡ 36)
    × (take 2 (drop 2 packet) ≡ be16 36)
    × (dest_ip packet ≡ some (v4 dst))
icmp_echo-IsPing_example =
    icmp_echo-IsPing 100 89 128 4 100 89 128 1 1 7 (ground arith) (omega arith) (omega arith)

-- Listeners on two ports.
abbrev plane : DataPlane numbered
plane = record {
  listeners =
      record { port = 3001; target = codes "127.0.0.1:80"; handle = 0 }
      ∷ record { port = 3002; target = codes "127.0.0.1:81"; handle = 1 }
      ∷ [];
  sockets = 3001 ∷ 3002 ∷ [];
}

abbrev specs : List Text
specs = codes "3002:10.0.0.9:82" ∷ codes "not a target" ∷ codes "3003:10.0.0.9:83" ∷ []

reconcile_targets-wanted_example :
    (before : List Text) × Perm before (targets_at 3002 plane.listeners)
    × (targets_at 3002 (reconcile_targets numbered specs plane).listeners
        ≡ synced (wanted 3002 (desired specs) none) before)
reconcile_targets-wanted_example = reconcile_targets-wanted numbered specs plane 3002

remove_targets-gone_example : Perm (remove_targets numbered specs plane).listeners (
    retain
      (λ l. not (any (λ (t : Target). l.port == t.listen_port) (desired specs)))
      plane.listeners)
remove_targets-gone_example = remove_targets-gone numbered specs plane

-- A sync leaves the second of two listeners on a port as it is.
abbrev twice : DataPlane numbered
twice = record {
  listeners =
      record { port = 3001; target = codes "a"; handle = 1 }
      ∷ record { port = 3001; target = codes "b"; handle = 2 }
      ∷ [];
  sockets = plane.sockets;
}

leaves_second :
    targets_at 3001 (reconcile_targets numbered (codes "3001:c:1" ∷ []) twice).listeners
    ≡ codes "c:1" ∷ codes "b" ∷ []
unfolding reconcile_targets newt_rust.Core.Target.parse newt_rust.Common.split_once
    newt_rust.Common.Numbers.parse_uint newt_rust.Common.rsplit_once
    newt_rust.Common.Numbers.decimal
leaves_second = refl
