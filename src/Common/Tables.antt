-- ===== src/Common/Tables.antt =====
-- Operations on the bits of bytes, checked at every value.
use newt_rust.Common.{
  ℕ, zero, suc, ◌<◌, ◌≡◌, refl, Bool, true, false, arith, ◌==◌, ==→eq, if◌then◌else◌, bit_xor,
}

-- Does the test hold at every number below the bound?
unfoldable pub holds_to : (ℕ → Bool) → ℕ → Bool
holds_to test zero = true
holds_to test (suc bound) = if test bound then holds_to test bound else false

pub holds_to-at :
    (test : ℕ → Bool) (bound at : ℕ) → at < bound → holds_to test bound ≡ true → test at ≡ true
unfolding holds_to
holds_to-at test zero at below all = absurd (omega arith)
holds_to-at test (suc bound) at below all = ground (arith, holds_to-at test bound at)

xors : holds_to (λ m. holds_to (λ x. bit_xor (bit_xor x m) m == x) 256) 256 ≡ true
unfolding holds_to
xors = refl

pub xor_twice : (x m : ℕ) → x < 256 → m < 256 → bit_xor (bit_xor x m) m ≡ x
xor_twice x m hx hm = ==→eq _ _ (holds_to-at _ 256 x hx (holds_to-at _ 256 m hm xors))
