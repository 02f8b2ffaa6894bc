-- ===== src/Olm/Netlink/Header.antt =====
-- The header of a netlink message, as the kernel reads it.
use newt_rust.Common.{
  ℕ, ◌+◌, ◌*◌, ◌/◌, ◌%◌, ◌^◌, ◌<◌, Bool, true, false, ◌∷◌, Option, none, some, ◌≡◌, refl, arith,
  length,
}
use newt_rust.Common.Net.{Bytes}
use newt_rust.Olm.Netlink.{from_ne16, from_ne32, message}

-- The header of a message: its length, type, flags, sequence number and process, then the body.
unfoldable pub read_header : Bool → Bytes → Option (ℕ × ℕ × ℕ × ℕ × ℕ × Bytes)
read_header little
      (a ∷ b ∷ c ∷ d ∷ t ∷ t' ∷ f ∷ f' ∷ s ∷ s' ∷ s'' ∷ s''' ∷ p ∷ p' ∷ p'' ∷ p''' ∷ body) =
    some (
      from_ne32 little a b c d,
      from_ne16 little t t',
      from_ne16 little f f',
      from_ne32 little s s' s'' s''',
      from_ne32 little p p' p'' p''',
      body,
    )
read_header little _ = none

pub four_bytes :
    (n : ℕ)
    → n < 2 ^ 32
    → n % 256
        + 256 * (n / 256 % 256)
        + 256 ^ 2 * (n / 256 ^ 2 % 256)
        + 256 ^ 3 * (n / 256 ^ 3 % 256)
      ≡ n
four_bytes n h = omega arith

pub two_bytes : (n : ℕ) → n < 2 ^ 16 → n % 256 + 256 * (n / 256 % 256) ≡ n
two_bytes n h = omega arith

-- The header of a request is read back; its length is that of the whole message.
pub read_header-message :
    (little : Bool) (seq typ flags : ℕ) (payload : Bytes)
    → seq < 2 ^ 32
    → typ < 2 ^ 16
    → flags < 2 ^ 16
    → 16 + length payload < 2 ^ 32
    → read_header little (message little seq typ flags payload)
      ≡ some (16 + length payload, typ, flags, seq, 0, payload)
unfolding read_header message
read_header-message true seq typ flags payload hs ht hf hl =
    let len : (16 + length payload) % 2 ^ 32 ≡ 16 + length payload = omega arith in
    rw
      (
        len,
        four_bytes (16 + length payload) hl,
        two_bytes typ ht,
        two_bytes flags hf,
        four_bytes seq hs,
      )
      refl
read_header-message false seq typ flags payload hs ht hf hl =
    let len : (16 + length payload) % 2 ^ 32 ≡ 16 + length payload = omega arith in
    rw
      (
        len,
        four_bytes (16 + length payload) hl,
        two_bytes typ ht,
        two_bytes flags hf,
        four_bytes seq hs,
      )
      refl

pub length-message :
    (little : Bool) (seq typ flags : ℕ) (payload : Bytes)
    → length (message little seq typ flags payload) ≡ 16 + length payload
unfolding message
length-message true seq typ flags payload = omega arith
length-message false seq typ flags payload = omega arith
