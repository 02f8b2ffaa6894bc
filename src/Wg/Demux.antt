-- ===== src/Wg/Demux.antt =====
-- Which peer a datagram is for. boringtun numbers the sessions of the peer with index `i` from
-- `i << 8` on, in 32 bits, and a datagram carries such a number as its receiver index.
use newt_rust.Common.{ℕ, ◌+◌, ◌*◌, ◌/◌, ◌%◌, ◌^◌, ◌<◌, ◌≡◌, ◌⊎◌, [], ◌∷◌, ◌++◌, some, arith}
use newt_rust.Common.Net.{Bytes}
use newt_rust.Wg.{peer_index_of}

-- `u32::to_le_bytes`
abbrev pub le_u32 : ℕ → Bytes
le_u32 n = (n % 256) ∷ (n / 256 % 256) ∷ (n / 65536 % 256) ∷ (n / 16777216 % 256) ∷ []

-- The number of the session in `slot` of the peer with index `i`: `(i << 8) + slot` as a `u32`.
abbrev pub session_index : ℕ → ℕ → ℕ
session_index i slot = i * 2 ^ 8 % 2 ^ 32 + slot

-- A cookie reply or a transport message: type, three reserved bytes, receiver index, the rest.
abbrev pub addressed : ℕ → ℕ → Bytes → Bytes
addressed kind receiver rest = kind ∷ 0 ∷ 0 ∷ 0 ∷ (le_u32 receiver ++ rest)

-- A handshake response: type, three reserved bytes, sender index, receiver index, the rest.
abbrev pub response : ℕ → ℕ → Bytes → Bytes
response sender receiver rest = 2 ∷ 0 ∷ 0 ∷ 0 ∷ (le_u32 sender ++ le_u32 receiver ++ rest)

-- The peer index is read back from the datagrams of its sessions, modulo 2 ^ 24.
pub peer_index_of-session :
    (i slot kind sender : ℕ) (rest : Bytes)
    → slot < 256
    → (kind ≡ 3) ⊎ (kind ≡ 4)
    → (peer_index_of (addressed kind (session_index i slot) rest) ≡ some (i % 2 ^ 24))
      × (peer_index_of (response sender (session_index i slot) rest) ≡ some (i % 2 ^ 24))
unfolding peer_index_of
peer_index_of-session i slot kind sender rest fits k = (ground arith, ground arith)
