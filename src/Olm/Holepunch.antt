-- ===== src/Olm/Holepunch.antt =====
-- crates/newt/src/olm/holepunch.rs: the datagrams of a tick for the known exit nodes.
use newt_rust.Common.{List, [], ◌∷◌, Option, none, some, Text, codes, Bool, true, false}
use newt_rust.Common.Net.{Bytes, SocketAddr}
use newt_rust.Common.Json.{Json}
use newt_rust.Holepunch.{Crypto, build}

pub record ExitNode : Type 0 where
  pub addr : SocketAddr
  pub server_pub : Text

pub record HolePunch : Type 0 where
  pub olm_id : Text
  pub token : Text
  pub olm_pub : Text
  pub nodes : List ExitNode

unfoldable pub new : Text → Text → Text → HolePunch
new olm_id olm_pub token = record { olm_id = olm_id; token = token; olm_pub = olm_pub; nodes = [] }

unfoldable pub set_nodes : HolePunch → List ExitNode → HolePunch
set_nodes hp nodes = record hp { nodes = nodes }

unfoldable pub is_empty : HolePunch → Bool
is_empty hp = elim hp.nodes [ [] ↦ true | n ∷ ns ↦ false ]

abbrev sealed : Option Bytes → SocketAddr → List (Bytes × SocketAddr) → List (Bytes × SocketAddr)
sealed none addr rest = rest
sealed (some pkt) addr rest = (pkt, addr) ∷ rest

module _ {W : Type 0} (json : Json) (crypto : Crypto W json.Value) where
  -- the iterator over the nodes
  seal_each : HolePunch → List ExitNode → W → List (Bytes × SocketAddr) × W
  seal_each hp [] w = ([], w)
  seal_each hp (n ∷ ns) w =
      let (pkt, w1) =
        build json crypto (codes "olmId") hp.olm_id hp.token hp.olm_pub n.server_pub w in
      let (rest, w2) = seal_each hp ns w1 in (sealed pkt n.addr rest, w2)

  unfoldable pub datagrams : HolePunch → W → List (Bytes × SocketAddr) × W
  unfolding seal_each
  datagrams hp w = seal_each hp hp.nodes w
