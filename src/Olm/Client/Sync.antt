-- ===== src/Olm/Client/Sync.antt =====
-- A sync adds and replaces sites, and removes none.
use newt_rust.Olm.Cidr.{Cidr}
use newt_rust.Olm.Plane.{Plane}
use newt_rust.Olm.Client.Table.{Table}
