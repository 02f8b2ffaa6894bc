-- ===== src/Olm/Backend.antt =====
-- crates/newt/src/olm/backend.rs: the choice of a backend, which gives a client's session its `Device`.
-- Whether the target is Linux is an argument, and the userspace backend is a `Device` of its own.
use newt_rust.Common.{ℕ, Bool, List, Option, none, some, codes, if◌then◌else◌}
use newt_rust.Common.Results.{Result, ok, err}
use newt_rust.Common.Io.{Io, pure, lift, ◌>>=◌}
use newt_rust.Common.Net.{Bytes, IpAddr}
use newt_rust.Config.Parse.{AccessMode, kernel, userspace}
use newt_rust.Config.Model.{ClientRun}
use newt_rust.Olm.Cidr.{Cidr}
use newt_rust.Olm.Netlink.{Kernel}
use newt_rust.Olm.Kernel
use newt_rust.Olm.Kernel.{TunFile, KernelBackend}
use newt_rust.Olm.Plane.{Device}

-- `UserspaceBackend`, as far as the choice of a backend calls it.
pub record Forwarder (W : Type 0) : Type 1 where
  pub UserspaceBackend : Type 0
  pub new : IpAddr → ℕ → ClientRun → Io W UserspaceBackend
  pub drive : UserspaceBackend → Io W (UserspaceBackend × List Bytes)
  pub deliver_inbound : UserspaceBackend → Bytes → UserspaceBackend

module _ (linux little : Bool) (k : Kernel) (t : TunFile k.World) (f : Forwarder k.World) where
  open k use {World}
  open f use {UserspaceBackend}

  pub data Backend : Type 0 where
    forwarding : UserspaceBackend → Backend
    routed : KernelBackend little k t → Backend

  -- `cfg.socks_port`
  new_userspace : Option ℕ → ClientRun → IpAddr → Io World Backend
  new_userspace (some port) cfg tunnel_ip =
      lift (err (codes "OLM_SOCKS_PORT is reserved and not yet implemented; use OLM_FORWARDS"))
  new_userspace none cfg tunnel_ip = do b ← f.new tunnel_ip cfg.mtu cfg; pure (forwarding b)

  new_kernel : ClientRun → IpAddr → Io World Backend
  unfolding Kernel.new
  new_kernel cfg tunnel_ip =
      if linux
      then (do b ← Kernel.new little k t cfg.interface tunnel_ip cfg.mtu; pure (routed b))
      else lift (
          err (
            codes
              "kernel TUN access mode is only supported on Linux; set OLM_ACCESS_MODE=userspace"))

  by_access : AccessMode → ClientRun → IpAddr → Io World Backend
  unfolding new_userspace new_kernel
  by_access userspace cfg tunnel_ip = new_userspace cfg.socks_port cfg tunnel_ip
  by_access kernel cfg tunnel_ip = new_kernel cfg tunnel_ip

  unfoldable pub new : ClientRun → IpAddr → Io World Backend
  unfolding by_access
  new cfg tunnel_ip = by_access cfg.access cfg tunnel_ip

  unfoldable pub drive : Backend → Io World (Backend × List Bytes)
  unfolding Kernel.drive
  drive (forwarding b) = do (b', pkts) ← f.drive b; pure (forwarding b', pkts)
  drive (routed b) = do (b', pkts) ← Kernel.drive little k t b; pure (routed b', pkts)

  unfoldable pub deliver_inbound : Backend → Bytes → Io World Backend
  unfolding Kernel.deliver_inbound
  deliver_inbound (forwarding b) pkt = pure (forwarding (f.deliver_inbound b pkt))
  deliver_inbound (routed b) pkt = do b' ← Kernel.deliver_inbound little k t b pkt; pure (routed b')

  unfoldable pub add_routes : Backend → List Cidr → World → (Backend × Result (Unit {0})) × World
  unfolding Kernel.add_routes
  add_routes (forwarding b) cidrs w = ((forwarding b, ok tt), w)
  add_routes (routed b) cidrs w =
      let ((b', res), w') = Kernel.add_routes little k t b cidrs w in ((routed b', res), w')

  -- The backend of a client's session.
  abbrev pub device : Device World
  device = record {
    Backend = Backend;
    new = new;
    drive = drive;
    deliver_inbound = deliver_inbound;
    add_routes = add_routes;
  }
