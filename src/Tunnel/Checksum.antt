-- ===== src/Tunnel/Checksum.antt =====
-- `checksum` of crates/newt/src/tunnel.rs: the Internet checksum (RFC 1071).
pub mod Verify
use newt_rust.Common.{ℕ, zero, suc, ◌+◌, ◌-◌, ◌*◌, ◌/◌, ◌%◌, ◌^◌, [], ◌∷◌, ◌==◌, if◌then◌else◌}
use newt_rust.Common.Net.{Bytes}

-- The sum of the big-endian words, in a `u32`; an odd last byte is the high byte of a word.
unfoldable pub sum_words : Bytes → ℕ → ℕ
sum_words [] sum = sum
sum_words (hi ∷ []) sum = (sum + hi * 2 ^ 8) % 2 ^ 32
sum_words (hi ∷ lo ∷ rest) sum = sum_words rest ((sum + (hi * 256 + lo)) % 2 ^ 32)

-- `while (sum >> 16) != 0 { sum = (sum & 0xffff) + (sum >> 16); }`, on fuel
unfoldable pub fold_carries : ℕ → ℕ → ℕ
fold_carries zero sum = sum
fold_carries (suc fuel) sum =
    let rest = fold_carries fuel (sum % 2 ^ 16 + sum / 2 ^ 16) in
    if sum / 2 ^ 16 == 0 then sum else rest

-- Three rounds are enough for a `u32`.
unfoldable pub checksum : Bytes → ℕ
checksum packet = 65535 - fold_carries 3 (sum_words packet 0) % 2 ^ 16
