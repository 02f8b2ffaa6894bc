-- ===== src/Netstack.antt =====
-- The virtual device and the stack over it (crates/newt/src/netstack.rs). smoltcp's interface is the parameter
-- `Smoltcp`: what it does with a device in a poll is some sequence of the device's operations.
pub mod Queues
use newt_rust.Common.{
  ℕ, ◌≡◌, List, [], ◌∷◌, ◌++◌, Option, none, some, Bool, true, false, if◌then◌else◌,
}
use newt_rust.Common.Results.{Result}
use newt_rust.Common.Net.{Bytes, IpAddr, is_ipv4}

pub record VirtualDevice : Type 0 where
  pub rx : List Bytes
  pub tx : List Bytes
  pub mtu : ℕ

-- `VirtualDevice::new`
abbrev pub new_device : ℕ → VirtualDevice
new_device mtu = record { rx = []; tx = []; mtu = mtu }

-- `receive`: the packet that the token holds
unfoldable pub receive : VirtualDevice → Option Bytes × VirtualDevice
receive d = elim d.rx [ [] ↦ (none, d) | pkt ∷ rest ↦ (some pkt, record d { rx = rest }) ]

-- `TxToken::consume`, with the buffer that its argument filled; the token is that of `transmit` or `receive`
abbrev pub consume : Bytes → VirtualDevice → VirtualDevice
consume buf d = record d { tx = d.tx ++ buf ∷ [] }

-- What smoltcp does with a device.
pub data Call : Type 0 where
  receives : Call
  transmits : Bytes → Call

-- the packets that were received, and the device behind the calls
unfoldable pub run_calls : List Call → VirtualDevice → List Bytes × VirtualDevice
unfolding receive
run_calls [] d = ([], d)
run_calls (receives ∷ calls) d =
    let (pkt, d1) = receive d in
    let (pkts, d2) = run_calls calls d1 in (elim pkt [ none ↦ pkts | some p ↦ p ∷ pkts ], d2)
run_calls (transmits buf ∷ calls) d = run_calls calls (consume buf d)

-- smoltcp's `Interface` and `SocketSet`.
pub record Smoltcp : Type 1 where
  pub Iface : Type 0
  pub Sockets : Type 0
  pub Handle : Type 0
  -- `Interface::new` with an address of this prefix
  pub new_iface : ℕ → IpAddr → ℕ → Iface
  pub no_sockets : Sockets
  -- `Interface::poll`: its calls of the device
  pub calls : ℕ → VirtualDevice → Iface × Sockets → List Call
  pub polled : ℕ → VirtualDevice → Iface × Sockets → Iface × Sockets
  pub add_routes : Bytes → Bytes → Iface → Iface
  pub tcp_connect : Handle → IpAddr → ℕ → ℕ → Iface × Sockets → Result (Unit {0}) × Sockets

-- the prefix of the stack's own address
abbrev pub own_prefix : IpAddr → ℕ
own_prefix ip = if is_ipv4 ip then 32 else 128

module _ (smol : Smoltcp) where
  open smol use {Iface, Sockets, Handle}

  pub record Stack : Type 0 where
    pub device : VirtualDevice
    pub iface : Iface
    pub sockets : Sockets

  -- `Stack::new`
  abbrev pub new : IpAddr → ℕ → ℕ → Stack
  new tunnel_ip mtu now = record {
    device = new_device mtu;
    iface = smol.new_iface now tunnel_ip (own_prefix tunnel_ip);
    sockets = smol.no_sockets;
  }

  unfoldable pub poll : ℕ → Stack → Stack × List Bytes
  unfolding run_calls
  poll now s =
      let (_, d) = run_calls (smol.calls now s.device (s.iface, s.sockets)) s.device in
      let (iface, sockets) = smol.polled now s.device (s.iface, s.sockets) in
      (record { device = record d { tx = [] }; iface = iface; sockets = sockets }, d.tx)

  -- `add_default_routes`
  abbrev pub add_default_routes : Bytes → Bytes → Stack → Stack
  add_default_routes gw4 gw6 s = record s { iface = smol.add_routes gw4 gw6 s.iface }

  abbrev pub connect : Handle → IpAddr → ℕ → ℕ → Stack → Result (Unit {0}) × Stack
  connect handle remote port local_port s =
      let (r, sockets) = smol.tcp_connect handle remote port local_port (s.iface, s.sockets) in
      (r, record s { sockets = sockets })
