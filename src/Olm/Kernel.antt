-- ===== src/Olm/Kernel.antt =====
-- crates/newt/src/olm/kernel.rs: the backend over a TUN interface and the routes of the host. The device is
-- the interface `TunFile`, which Olm/Tun fills. Messages to the log are left out.
pub mod Routes
use newt_rust.Common.{
  ℕ, zero, suc, ◌+◌, ◌%◌, ◌^◌, max, Bool, true, false, List, [], ◌∷◌, length, Text, take, ◌==◌,
  if◌then◌else◌, ◌≡◌, refl, ◌∙◌, arith, ap,
}
use newt_rust.Common.Results.{Result, ok, err}
use newt_rust.Common.Io.{Io, pure, lift, ◌>>=◌, ◌>>◌}
use newt_rust.Common.Net.{Bytes, IpAddr, is_ipv4}
use newt_rust.Olm.Cidr.{Cidr}
use newt_rust.Olm.Netlink
use newt_rust.Olm.Netlink.{
  Kernel, Netlink, add_route, add_addr, set_mtu, link_up, open_socket, request,
}

-- The device of a TUN interface, with the interface's name.
pub record TunFile (W : Type 0) : Type 1 where
  pub Tun : Type 0
  pub open_tun : Text → Io W Tun
  pub name : Tun → Text
  -- by the size of the buffer
  pub read_packet : Tun → ℕ → Io W Bytes
  pub write_packet : Tun → Bytes → Io W (Unit {0})

-- `host_prefix`
abbrev pub host_prefix : IpAddr → ℕ
host_prefix ip = if is_ipv4 ip then 32 else 128

module _ (little : Bool) (k : Kernel) (t : TunFile k.World) where
  open k use {World, if_index}
  open t use {Tun}

  -- The field `buf` is its size here.
  pub record KernelBackend : Type 0 where
    pub tun : Tun
    pub nl : Netlink little k
    pub ifindex : ℕ
    pub buf : ℕ

  -- `?` on a request, with the socket behind it
  pub checked :
      (World → (Netlink little k × Result (Unit {0})) × World) → Io World (Netlink little k)
  checked call w = let ((nl, res), w') = call w in (do lift res; pure nl) w'

  unfoldable pub new : Text → IpAddr → ℕ → Io World KernelBackend
  unfolding checked open_socket set_mtu add_addr link_up
  new interface tunnel_ip mtu = do
    tun ← t.open_tun interface
    ifindex ← if_index (t.name tun)
    nl ← open_socket little k
    nl1 ← checked (set_mtu little k nl ifindex (mtu % 2 ^ 32))
    nl2 ← checked (add_addr little k nl1 ifindex tunnel_ip (host_prefix tunnel_ip))
    nl3 ← checked (link_up little k nl2 ifindex)
    pure (record { tun = tun; nl = nl3; ifindex = ifindex; buf = max mtu 1500 + 64 })

  -- the loop over the ranges; a route that fails is only logged
  pub route_each : ℕ → List Cidr → Netlink little k → World → Netlink little k × World
  unfolding add_route
  route_each ifindex [] nl w = (nl, w)
  route_each ifindex (c ∷ cs) nl w =
      let ((nl', _), w') = add_route little k nl ifindex c.net c.prefix w in
      route_each ifindex cs nl' w'

  unfoldable pub add_routes :
      KernelBackend → List Cidr → World → (KernelBackend × Result (Unit {0})) × World
  unfolding route_each
  add_routes b cidrs w =
      let (nl, w') = route_each b.ifindex cidrs b.nl w in ((record b { nl = nl }, ok tt), w')

  -- what was read, as packets
  abbrev pub packets : Bytes → List Bytes
  packets [] = []
  packets (x ∷ xs) = (x ∷ xs) ∷ []

  unfoldable pub drive : KernelBackend → Io World (KernelBackend × List Bytes)
  drive b = do pkt ← t.read_packet b.tun b.buf; pure (b, packets pkt)

  unfoldable pub deliver_inbound : KernelBackend → Bytes → Io World KernelBackend
  deliver_inbound b pkt = do t.write_packet b.tun pkt; pure b
