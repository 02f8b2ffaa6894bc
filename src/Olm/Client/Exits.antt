-- ===== src/Olm/Client/Exits.antt =====
-- `parse_exit_nodes` of crates/newt/src/olm/mod.rs: the exit nodes of the get-token response, each
-- resolved to the address of its relay.
use newt_rust.Common.{
  ℕ, ◌%◌, ◌^◌, List, [], ◌∷◌, ◌++◌, Option, none, some, Text, codes, is_empty, rsplit_once, ◌||◌,
  ◌==◌, if◌then◌else◌,
}
use newt_rust.Common.Io.{Io, pure, attempt, ◌>>=◌}
use newt_rust.Common.Net.{SocketAddr}
use newt_rust.Common.Json.{Reader}
use newt_rust.Olm.Plane.{Network}
use newt_rust.Olm.Holepunch.{ExitNode}

-- the default where the value is missing
abbrev text_or_empty : Option Text → Text
text_or_empty none = []
text_or_empty (some t) = t

abbrev as_u16 : Option ℕ → ℕ
as_u16 none = 0
as_u16 (some n) = n % 2 ^ 16

-- the text in front of the last colon, or the text
abbrev pub host_of : Text → Text
host_of endpoint = elim (rsplit_once b':' endpoint) [ none ↦ endpoint | some (h, _) ↦ h ]

abbrev pub relay_port_of : Option ℕ → ℕ
relay_port_of given = if as_u16 given == 0 then 21820 else as_u16 given

-- a node with the addresses that were found
abbrev with_addr : Text → Option (List SocketAddr) → List ExitNode → List ExitNode
with_addr server_pub none out = out
with_addr server_pub (some []) out = out
with_addr server_pub (some (addr ∷ more)) out =
    out ++ record { addr = addr; server_pub = server_pub } ∷ []

module _ {V : Type 0} (read : Reader V) (net : Network V) where
  open read use {index, as_str, as_u64, as_array}
  open net use {World, lookup_port}

  -- one round of the loop
  parse_exit_node : V → List ExitNode → Io World (List ExitNode)
  parse_exit_node n out =
      let host = host_of (text_or_empty (as_str (index n (codes "endpoint")))) in
      let server_pub = text_or_empty (as_str (index n (codes "publicKey"))) in
      let port = relay_port_of (as_u64 (index n (codes "relayPort"))) in
      if is_empty host || is_empty server_pub
      then pure out
      else do addrs ← attempt (lookup_port host port); pure (with_addr server_pub addrs out)

  parse_nodes : List V → List ExitNode → Io World (List ExitNode)
  parse_nodes [] out = pure out
  parse_nodes (n ∷ ns) out = do out' ← parse_exit_node n out; parse_nodes ns out'

  unfoldable pub parse_exit_nodes : V → Io World (List ExitNode)
  unfolding parse_nodes parse_exit_node rsplit_once
  parse_exit_nodes response = elim (as_array (index response (codes "exitNodes"))) [
    | none ↦ pure []
    | some arr ↦ parse_nodes arr []
  ]
