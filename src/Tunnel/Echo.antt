-- ===== src/Tunnel/Echo.antt =====
-- `icmp_echo` of crates/newt/src/tunnel.rs: the keepalive ping as an IPv4 packet.
pub mod Valid
use newt_rust.Common.{ℕ, ◌+◌, ◌/◌, ◌%◌, ◌^◌, [], ◌∷◌, ◌++◌, take, drop, length}
use newt_rust.Common.Net.{Bytes}
use newt_rust.Tunnel.Checksum.{checksum}

-- `u16::to_be_bytes`
abbrev pub be16 : ℕ → Bytes
be16 n = (n / 256) ∷ (n % 256) ∷ []

-- `buf[at..at + 2].copy_from_slice(&n.to_be_bytes())`
abbrev pub put_be16 : ℕ → ℕ → Bytes → Bytes
put_be16 at n buf = take at buf ++ be16 n ++ drop (at + 2) buf

-- `b"newtping"`
abbrev pub ping_payload : Bytes
ping_payload = 110 ∷ 101 ∷ 119 ∷ 116 ∷ 112 ∷ 105 ∷ 110 ∷ 103 ∷ []

abbrev pub echo_request : ℕ → ℕ → Bytes
echo_request ident seq =
    let icmp = (8 ∷ 0 ∷ 0 ∷ 0 ∷ []) ++ be16 ident ++ be16 seq ++ ping_payload in
    put_be16 2 (checksum icmp) icmp

unfoldable pub icmp_echo : Bytes → Bytes → ℕ → ℕ → Bytes
icmp_echo src dst ident seq =
    let icmp = echo_request ident seq in
    let total = (20 + length icmp) % 2 ^ 16 in
    let ip =
      (69 ∷ 0 ∷ []) ++ be16 total ++ (0 ∷ 0 ∷ 64 ∷ 0 ∷ []) ++ (64 ∷ 1 ∷ 0 ∷ 0 ∷ []) ++ src ++ dst in
    put_be16 10 (checksum ip) ip ++ icmp
