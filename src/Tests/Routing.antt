-- ===== src/Tests/Routing.antt =====
-- A router with two peers.
use newt_rust.Common.{
  ℕ, none, some, List, [], ◌∷◌, ◌≡◌, ◌⊎◌, refl, arith, codes, Text, false, All, get_elem?, text_eq,
}
use mathlib.Core.List.{Memᴰ}
use newt_rust.Common.Int.{pos}
use newt_rust.Common.Net.{IpAddr, v4, Bytes, SocketAddr}
use newt_rust.Wg
use newt_rust.Wg.{public_from_b64, Noise}
use newt_rust.Wg.Demux.{addressed, session_index}
use newt_rust.Olm.Cidr.{Cidr, contains, bits_match}
use newt_rust.Olm.Router.{
  Peer, Router, new, route_target, best_peer, upsert_peer, route_outbound, dest_ip, send_peer,
}
use newt_rust.Olm.Router.Lookup.{entries, IsBest, route_target-longest}
use newt_rust.Olm.Router.Peers.{Upserted, upsert_peer-Upserted}
use newt_rust.Olm.Router.Ids.{IsRouter}
use newt_rust.Olm.Router.Calls.{Call, upserts, removes, ticks, run, run-new-IsRouter}
use newt_rust.Olm.Router.Outbound.{route_outbound-route_target}
use newt_rust.Tests.Instances.{clear, ten}
use newt_rust.Tests.Routes.{header}

abbrev pub office : SocketAddr
office = record { ip = v4 (192 ∷ 0 ∷ 2 ∷ 1 ∷ []); port = 51820 }

abbrev pub home : SocketAddr
home = record { ip = v4 (192 ∷ 0 ∷ 2 ∷ 2 ∷ []); port = 51820 }

abbrev pub wide : Cidr
wide = record { net = ten; prefix = 8 }

abbrev pub narrow : Cidr
narrow = record { net = ten; prefix = 12 }

-- The first peer has a message left to send.
abbrev pub first : Peer (List Bytes)
first = record {
  site_id = pos 1;
  pump = record { tun = (1 ∷ 2 ∷ []) ∷ []; mtu = 1280 };
  endpoint = office;
  cidrs = wide ∷ [];
  index = 1;
}

abbrev pub second : Peer (List Bytes)
second = record {
  site_id = pos 2;
  pump = record { tun = []; mtu = 1280 };
  endpoint = home;
  cidrs = narrow ∷ [];
  index = 2;
}

abbrev pub router : Router Unit (List Bytes)
router = record { secret = tt; mtu = 1280; peers = first ∷ second ∷ []; next_index = 3 }

abbrev inside : IpAddr
inside = v4 (10 ∷ 15 ∷ 1 ∷ 2 ∷ [])

route_target-longest_example :
    ((route_target router inside ≡ none)
      × All (λ e. contains e.1 inside ≡ false) (entries 0 router.peers))
    ⊎ ((i : ℕ) × (q : ℕ) × (p : Peer (List Bytes)) × (best : IsBest inside
          (entries 0 router.peers)
          i
          q)
        × (get_elem? router.peers i ≡ some p)
        × Memᴰ best.cidr p.cidrs
        × (route_target router inside ≡ some p.endpoint))
route_target-longest_example = route_target-longest router inside

-- A data message for the first peer.
abbrev message : Bytes
message = addressed 4 (session_index 1 0) (9 ∷ [])

-- A key of 32 bytes.
abbrev pub key : Text
key = codes "0123456789abcdef0123456789abcdef"

upsert_peer-Upserted_example :
    ((public_from_b64 clear key ≡ none)
      × (upsert_peer clear router (pos 2) key office (wide ∷ []) ≡ (router, none)))
    ⊎ ((k : Bytes) × (public_from_b64 clear key ≡ some k)
        × Upserted clear router
            (pos 2)
            office
            (wide ∷ [])
            (upsert_peer clear router (pos 2) key office (wide ∷ [])))
upsert_peer-Upserted_example = upsert_peer-Upserted clear router (pos 2) key office (wide ∷ [])

-- Two sites, the first of them set up anew.
abbrev calls : List Call
calls =
    upserts (pos 1) key office (wide ∷ [])
    ∷ upserts (pos 2) key home []
    ∷ ticks
    ∷ upserts (pos 1) key home []
    ∷ removes (pos 2)
    ∷ []

run-new-IsRouter_example : IsRouter (run clear (new tt 1280) calls)
run-new-IsRouter_example = run-new-IsRouter clear tt 1280 calls (omega arith)

sends_home : (route_outbound clear router header).1 ≡ some (header, home)
unfolding route_outbound dest_ip best_peer send_peer contains bits_match Wg.encapsulate text_eq
sends_home = refl

route_outbound-route_target_example :
    (dst : IpAddr) × (dest_ip header ≡ some dst) × (route_target router dst ≡ some home)
route_outbound-route_target_example =
    route_outbound-route_target clear router header header home sends_home
