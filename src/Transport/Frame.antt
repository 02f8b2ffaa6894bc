-- ===== src/Transport/Frame.antt =====
-- WebSocket frames (`write_frame` and `read_frame` of crates/newt/src/transport/ws.rs). The stream is the
-- bytes that are still to be read, and the random mask of `write_frame` is an argument.
pub mod RoundTrip
pub mod Limits
use newt_rust.Common.{
  ℕ, zero, suc, ◌+◌, ◌*◌, ◌/◌, ◌%◌, ◌^◌, Bool, true, false, not, ◌&&◌, List, [], ◌∷◌, ◌++◌, Option,
  none, some, take, drop, length, get_or, ltb, leb, ◌==◌, if◌then◌else◌, bit_and, bit_or, bit_xor,
  codes,
}
use newt_rust.Common.Results.{Result, ok, err, ◌>>=◌}
use newt_rust.Common.Net.{Bytes}

abbrev pub max_frame : ℕ
max_frame = 16 * 1024 * 1024

-- `to_be_bytes` of a number of `w` bytes
abbrev pub be_bytes : ℕ → ℕ → Bytes
be_bytes zero n = []
be_bytes (suc w) n = (n / 256 ^ w % 256) ∷ be_bytes w n

-- `from_be_bytes`, on top of the bytes before
abbrev pub from_be : ℕ → Bytes → ℕ
from_be n [] = n
from_be n (b ∷ bs) = from_be (n * 256 + b) bs

-- The payload from the byte `i` on, with the mask on it.
abbrev pub masked_from : ℕ → Bytes → Bytes → Bytes
masked_from i mask [] = []
masked_from i mask (x ∷ xs) = bit_xor x (get_or mask (bit_and i 3) 0) ∷ masked_from (i + 1) mask xs

-- the length bytes
abbrev pub length_bytes : ℕ → Bytes
length_bytes len =
    if ltb len 126
    then bit_or 128 len ∷ []
    else if leb len 65535
    then bit_or 128 126 ∷ be_bytes 2 len
    else bit_or 128 127 ∷ be_bytes 8 len

unfoldable pub write_frame : Bytes → ℕ → Bytes → Bytes
write_frame mask opcode payload =
    bit_or 128 opcode ∷ (length_bytes (length payload) ++ mask ++ masked_from 0 mask payload)

-- `read_exact`: some bytes, and the stream behind them
abbrev pub read_exact : ℕ → Bytes → Result (Bytes × Bytes)
read_exact n io = if ltb (length io) n then err (codes "early eof") else ok (take n io, drop n io)

-- the length of the payload, by the low bits of the second byte
abbrev pub read_length : ℕ → Bytes → Result (ℕ × Bytes)
read_length n io =
    if n == 126
    then (do (l, io) ← read_exact 2 io; ok (from_be 0 l, io))
    else if n == 127
    then (do (l, io) ← read_exact 8 io; ok (from_be 0 l, io))
    else ok (n, io)

abbrev pub read_payload : Bool → ℕ → Bytes → Result (Bytes × Bytes)
read_payload true len io = do
  (m, io) ← read_exact 4 io
  (payload, io) ← read_exact len io
  ok (masked_from 0 m payload, io)
read_payload false len io = read_exact len io

-- what follows the first two bytes, by their bits: is it the last frame of a message, is it masked, the opcode
-- and the low bits of the length
abbrev pub read_behind : Bool → Bool → ℕ → ℕ → Bytes → Result ((Bool × ℕ × Bytes) × Bytes)
read_behind fin masked opcode n io = do
  (len, io) ← read_length n io
  if ltb max_frame len
      then err (codes "websocket frame too large")
      else do (payload, io) ← read_payload masked len io; ok ((fin, opcode, payload), io)

unfoldable pub read_frame : Bytes → Result ((Bool × ℕ × Bytes) × Bytes)
read_frame io = do
  (h, io) ← read_exact 2 io
  read_behind (not (bit_and (get_or h 0 0) 128 == 0)) (not (bit_and (get_or h 1 0) 128 == 0))
      (bit_and (get_or h 0 0) 15) (bit_and (get_or h 1 0) 127) io
