-- ===== src/Olm/Client/Effects.antt =====
-- What each control message does to the table of sites: it follows the specification.
use newt_rust.Common.Io.{Io, ◌>>◌}
use newt_rust.Wg.{Noise}
use newt_rust.Olm.Cidr.{Cidr, IpParser}
use newt_rust.Olm.Plane.{Network, Device, Plane}
use newt_rust.Olm.Router
use newt_rust.Olm.Client.Table.{Table}
use newt_rust.Olm.Client.Sites.{sites_of}

module _ {V : Type 0} (noise : Noise) (std : IpParser) (net : Network V)
    (dev : Device net.World) where
  open noise use {StaticSecret, Tunn}
  open net use {World}

  abbrev pub Here : Type 0
  Here = Plane noise std net dev

  abbrev view : Here → Table
  view = sites_of noise std net dev
