-- ===== src/Wg.antt =====
-- crates/newt/src/wg.rs: the WireGuard pump around a boringtun tunnel, and the demultiplexing of
-- datagrams. boringtun (a vendored library) and base64 are the parameter `Noise`.
pub mod Demux
use newt_rust.Common.{
  ℕ, zero, suc, ◌+◌, ◌*◌, ◌/◌, ◌^◌, ◌<◌, max, ◌≡◌, ◌≢◌, Bool, false, List, [], ◌∷◌, Option, none,
  some, Text, trim, length, get_or, take, drop, ltb, ◌==◌, ◌||◌, if◌then◌else◌,
}
use newt_rust.Common.Monads.{◌>>=◌}
use newt_rust.Common.Net.{Bytes}

-- boringtun's `TunnResult`: the bytes written to the buffer are in the constructor.
pub data TunnResult : Type 0 where
  done : TunnResult
  tunn_err : TunnResult
  write_to_network : Bytes → TunnResult
  write_to_tunnel_v4 : Bytes → TunnResult
  write_to_tunnel_v6 : Bytes → TunnResult

-- boringtun's `Tunn` and base64's `STANDARD` engine, as far as the program calls them. The last
-- argument of a call is the size of its buffer. `queued` bounds the work that a tunnel has left to
-- flush: a repeated call with no datagram ends in `Done` after that many other results at most.
pub record Noise : Type 1 where
  pub Tunn : Type 0
  pub StaticSecret : Type 0
  pub PublicKey : Type 0
  pub decode64 : Text → Option Bytes
  pub public_key : Bytes → PublicKey
  -- `Tunn::new` with no preshared key, a keepalive of 5 s, the given index and no rate limiter
  pub tunn_new : StaticSecret → PublicKey → ℕ → Tunn
  pub tunn_encapsulate : Tunn → Bytes → ℕ → Tunn × TunnResult
  pub tunn_decapsulate : Tunn → Bytes → ℕ → Tunn × TunnResult
  pub tunn_initiate : Tunn → ℕ → Tunn × TunnResult
  pub tunn_timers : Tunn → ℕ → Tunn × TunnResult
  pub queued : Tunn → ℕ
  pub flush_ends :
      (t : Tunn) (n : ℕ)
      → ((tunn_decapsulate t [] n).1 ≢ done)
      → ((tunn_decapsulate t [] n).1 ≢ tunn_err)
      → queued (tunn_decapsulate t [] n).0 < queued t

pub data Inbound : Type 0 where
  packet : Bytes → Inbound
  network : Bytes → Inbound
  nothing : Inbound

pub record Pump (T : Type 0) : Type 0 where
  pub tun : T
  pub mtu : ℕ

-- what a call that only writes to the network returns
abbrev pub to_network : TunnResult → Option Bytes
to_network (write_to_network b) = some b
to_network _ = none

abbrev pub to_inbound : TunnResult → Inbound
to_inbound (write_to_tunnel_v4 p) = packet p
to_inbound (write_to_tunnel_v6 p) = packet p
to_inbound (write_to_network b) = network b
to_inbound _ = nothing

-- `Pump::scratch`: the size of the buffer
abbrev pub scratch : {T : Type 0} → Pump T → ℕ
scratch p = max p.mtu 1500 + 32

module _ (noise : Noise) where
  open noise use {
    Tunn, StaticSecret, PublicKey, decode64, public_key, tunn_new, tunn_encapsulate,
    tunn_decapsulate, tunn_initiate, tunn_timers,
  }

  -- `public_from_b64`: none for its errors
  unfoldable pub public_from_b64 : Text → Option PublicKey
  public_from_b64 s = do
    raw ← decode64 (trim s)
    if length raw == 32 then some (public_key raw) else none

  -- `Pump::with_index`
  abbrev pub with_index : StaticSecret → PublicKey → ℕ → ℕ → Pump Tunn
  with_index secret peer_public mtu index = record {
    tun = tunn_new secret peer_public index;
    mtu = mtu;
  }

  -- `Pump::new`
  abbrev pub new : StaticSecret → PublicKey → ℕ → Pump Tunn
  new secret peer_public mtu = with_index secret peer_public mtu 0

  unfoldable pub encapsulate : Pump Tunn → Bytes → Pump Tunn × Option Bytes
  encapsulate p pkt =
      let (tun, r) = tunn_encapsulate p.tun pkt (scratch p) in
      (record p { tun = tun }, to_network r)

  unfoldable pub decapsulate : Pump Tunn → Bytes → Pump Tunn × Inbound
  decapsulate p datagram =
      let (tun, r) = tunn_decapsulate p.tun datagram (scratch p) in
      (record p { tun = tun }, to_inbound r)

  unfoldable pub drain : Pump Tunn → Pump Tunn × Inbound
  unfolding decapsulate
  drain p = decapsulate p []

  unfoldable pub initiate_handshake : Pump Tunn → Pump Tunn × Option Bytes
  initiate_handshake p =
      let (tun, r) = tunn_initiate p.tun (scratch p) in (record p { tun = tun }, to_network r)

  unfoldable pub update_timers : Pump Tunn → Pump Tunn × Option Bytes
  update_timers p =
      let (tun, r) = tunn_timers p.tun (scratch p) in (record p { tun = tun }, to_network r)

-- A little-endian number.
abbrev pub from_le_bytes : Bytes → ℕ
from_le_bytes [] = 0
from_le_bytes (b ∷ bs) = b + 256 * from_le_bytes bs

-- where the receiver index stands, by the type of the message
receiver_offset : ℕ → Option ℕ
receiver_offset kind =
    if kind == 2 then some 8 else if (kind == 3) || (kind == 4) then some 4 else none

-- `peer_index_of`
unfoldable pub peer_index_of : Bytes → Option ℕ
unfolding receiver_offset
peer_index_of datagram = if ltb (length datagram) 8 then none else do
  off ← receiver_offset (get_or datagram 0 0)
  if ltb (length datagram) (off + 4)
      then none
      else some (from_le_bytes (take 4 (drop off datagram)) / 2 ^ 8)

-- `Keys`
pub record Keys (S : Type 0) : Type 0 where
  pub secret : S
  pub public_b64 : Text
