-- ===== src/Common/Net.antt =====
-- `std::net` addresses: octets, most significant first.
use newt_rust.Common.{ℕ, List, ◌≡◌, ◌<◌, Bool, true, false, All, length}

abbrev pub Bytes : Type 0
Bytes = List ℕ

pub data IpAddr : Type 0 where
  -- four octets
  v4 : Bytes → IpAddr
  -- sixteen octets
  v6 : Bytes → IpAddr

abbrev pub octets : IpAddr → Bytes
octets (v4 o) = o
octets (v6 o) = o

abbrev pub is_ipv4 : IpAddr → Bool
is_ipv4 (v4 o) = true
is_ipv4 (v6 o) = false

abbrev pub IsByte : ℕ → Type 0
IsByte x = x < 256

-- An address with the octets of its family.
abbrev pub IsAddr : IpAddr → Type 0
IsAddr (v4 o) = (length o ≡ 4) × All IsByte o
IsAddr (v6 o) = (length o ≡ 16) × All IsByte o

pub record SocketAddr : Type 0 where
  pub ip : IpAddr
  pub port : ℕ
