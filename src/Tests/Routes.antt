-- ===== src/Tests/Routes.antt =====
-- Ranges, destinations and peer indices on concrete inputs.
use newt_rust.Common.{
  ◌+◌, ◌%◌, text_eq, ◌^◌, some, [], ◌∷◌, ◌≡◌, ◌↔◌, refl, arith, inr, codes, true, false, take,
  split_once, trim,
}
use newt_rust.Common.Numbers.{parse_uint}
use newt_rust.Common.Net.{IpAddr, v4, octets, is_ipv4, Bytes}
use newt_rust.Wg.{peer_index_of}
use newt_rust.Wg.Demux.{peer_index_of-session, addressed, response, session_index}
use newt_rust.Olm.Cidr.{Cidr, parse, contains, bits_match}
use newt_rust.Olm.Cidr.Prefix.{contains_iff, bits}
use newt_rust.Olm.Router.{dest_ip}
use newt_rust.Tests.Instances.{tens, ten}

-- 10.0.0.0/12
abbrev ten_12 : Cidr
ten_12 = record { net = ten; prefix = 12 }

abbrev inside : IpAddr
inside = v4 (10 ∷ 15 ∷ 1 ∷ 2 ∷ [])

contains-inside :
    (contains ten_12 inside ≡ true) × (contains ten_12 (v4 (10 ∷ 16 ∷ 1 ∷ 2 ∷ [])) ≡ false)
unfolding contains bits_match text_eq
contains-inside = (refl, refl)

contains_iff_example : (contains ten_12 inside ≡ true) ↔ (
    (is_ipv4 ten ≡ is_ipv4 inside) × (take 12 (bits (octets ten)) ≡ take 12 (bits (octets inside))))
contains_iff_example =
    contains_iff ten_12 inside (record { addr = (refl, ground arith); fits = omega arith })
      (refl, ground arith)

parses_ten : parse tens (codes " 10.0.0.0/12") ≡ some ten_12
unfolding parse split_once parse_uint trim
parses_ten = refl

-- An IPv4 header for 10.15.1.2.
abbrev pub header : Bytes
header = 69 ∷ 0 ∷ 0 ∷ 20 ∷ 0 ∷ 0 ∷ 64 ∷ 0 ∷ 64 ∷ 1 ∷ 0 ∷ 0 ∷ 10 ∷ 0 ∷ 0 ∷ 1 ∷ 10 ∷ 15 ∷ 1 ∷ 2 ∷ []

dest_ip-inside : dest_ip header ≡ some inside
unfolding dest_ip
dest_ip-inside = refl

peer_index_of-session_example :
    (peer_index_of (addressed 4 (session_index 5 3) (9 ∷ [])) ≡ some (5 % 2 ^ 24))
    × (peer_index_of (response 77 (session_index 5 3) (9 ∷ [])) ≡ some (5 % 2 ^ 24))
peer_index_of-session_example = peer_index_of-session 5 3 4 77 (9 ∷ []) (omega arith) (inr refl)

-- Indices that differ by 2 ^ 24 are not told apart.
index_wraps : peer_index_of (addressed 4 (session_index (1 + 2 ^ 24) 0) []) ≡ some 1
unfolding peer_index_of
index_wraps = ground arith
