-- ===== src/Olm/Cidr/Mask.antt =====
-- The mask of a partial byte keeps its first bits.
use newt_rust.Common.{
  ℕ, zero, suc, ◌-◌, ◌*◌, ◌/◌, ◌%◌, ◌^◌, ◌<◌, ◌≡◌, ◌↔◌, refl, true, List, [], ◌∷◌, arith, ◌==◌,
  ==→eq, take, bit_and,
}
use newt_rust.Common.Tables.{holds_to, holds_to-at}
use newt_rust.Olm.Cidr.{mask}

-- The bits of a byte, the most significant first.
abbrev pub bits8 : ℕ → List ℕ
bits8 x =
    (x / 128 % 2)
    ∷ (x / 64 % 2)
    ∷ (x / 32 % 2)
    ∷ (x / 16 % 2)
    ∷ (x / 8 % 2)
    ∷ (x / 4 % 2)
    ∷ (x / 2 % 2)
    ∷ (x % 2)
    ∷ []

masks :
    holds_to (λ k. holds_to (λ x. bit_and x (mask k) == x / 2 ^ (8 - k) * 2 ^ (8 - k)) 256) 8 ≡ true
unfolding holds_to
masks = refl

pub bit_and-mask : (k x : ℕ) → k < 8 → x < 256 → bit_and x (mask k) ≡ x / 2 ^ (8 - k) * 2 ^ (8 - k)
bit_and-mask k x hk hx = ==→eq _ _ (holds_to-at _ 256 x hx (holds_to-at _ 8 k hk masks))

-- The first bits of two bytes agree where their highest parts do.
pub take-bits8 :
    (k x y : ℕ)
    → k < 8
    → x < 256
    → y < 256
    → (take k (bits8 x) ≡ take k (bits8 y)) ↔ (x / 2 ^ (8 - k) ≡ y / 2 ^ (8 - k))
take-bits8 zero x y hk hx hy = (λ _. omega arith, λ _. refl)
take-bits8 (suc zero) x y hk hx hy = (λ e. ground arith, λ e. ground arith)
take-bits8 (suc (suc zero)) x y hk hx hy = (λ e. ground arith, λ e. ground arith)
take-bits8 (suc (suc (suc zero))) x y hk hx hy = (λ e. ground arith, λ e. ground arith)
take-bits8 (suc (suc (suc (suc zero)))) x y hk hx hy = (λ e. ground arith, λ e. ground arith)
take-bits8 (suc (suc (suc (suc (suc zero))))) x y hk hx hy = (λ e. ground arith, λ e. ground arith)
take-bits8 (suc (suc (suc (suc (suc (suc zero)))))) x y hk hx hy =
    (λ e. ground arith, λ e. ground arith)
take-bits8 (suc (suc (suc (suc (suc (suc (suc zero))))))) x y hk hx hy =
    (λ e. ground arith, λ e. ground arith)
take-bits8 (suc (suc (suc (suc (suc (suc (suc (suc k)))))))) x y hk hx hy = absurd (omega arith)
