-- ===== src/Olm/Cidr/Prefix.antt =====
-- What it means for a range to contain an address: the first `prefix` bits agree.
use newt_rust.Common.{
  ℕ, zero, suc, ◌+◌, ◌-◌, ◌*◌, ◌/◌, ◌%◌, ◌^◌, ◌<◌, ◌≤◌, ◌≡◌, ◌↔◌, refl, true, ◌&&◌, ◌||◌, List, [],
  ◌∷◌, ◌++◌, arith, ◌==◌, ==→eq, Bool-cases, inl, inr, subst, dec_lt, take, bit_and, All, length,
  text_eq, sym, ◌∙◌, ap,
}
use native.Mathlib.Nat.{one-le-pow, mul-div_cancel}
use newt_rust.Common.Net.{Bytes, IsByte, IpAddr, v4, v6, octets, IsAddr, is_ipv4}
use newt_rust.Olm.Cidr.{mask, bits_match, Cidr, IsCidr, contains, same_family, max_prefix}
use newt_rust.Olm.Cidr.Mask.{bits8, bit_and-mask, take-bits8}

-- The bits of an address, the most significant first.
abbrev pub bits : Bytes → List ℕ
bits [] = []
bits (x ∷ xs) = bits8 x ++ bits xs

bits_match-head :
    (x y : ℕ) (a b : Bytes) (p : ℕ)
    → p < 8
    → bits_match (x ∷ a) (y ∷ b) p ≡ ((p == 0) || (bit_and x (mask p) == bit_and y (mask p)))
unfolding bits_match text_eq
bits_match-head x y a b p h =
    let q : p / 8 ≡ 0 = omega arith in let r : p % 8 ≡ p = omega arith in rw (q, r) (ground arith)

bits_match-tail :
    (x y : ℕ) (a b : Bytes) (p : ℕ)
    → bits_match (x ∷ a) (y ∷ b) (p + 8) ≡ ((x == y) && bits_match a b p)
unfolding bits_match text_eq
bits_match-tail x y a b p =
    let q : (p + 8) / 8 ≡ suc (p / 8) = omega arith in
    let r : (p + 8) % 8 ≡ p % 8 = omega arith in rw (q, r) (ground arith)

take_byte : (k x : ℕ) (r : List ℕ) → k < 8 → take k (bits8 x ++ r) ≡ take k (bits8 x)
take_byte zero x r h = refl
take_byte (suc zero) x r h = refl
take_byte (suc (suc zero)) x r h = refl
take_byte (suc (suc (suc zero))) x r h = refl
take_byte (suc (suc (suc (suc zero)))) x r h = refl
take_byte (suc (suc (suc (suc (suc zero))))) x r h = refl
take_byte (suc (suc (suc (suc (suc (suc zero)))))) x r h = refl
take_byte (suc (suc (suc (suc (suc (suc (suc zero))))))) x r h = refl
take_byte (suc (suc (suc (suc (suc (suc (suc (suc k)))))))) x r h = absurd (omega arith)

take_bytes : (p x : ℕ) (r : List ℕ) → take (p + 8) (bits8 x ++ r) ≡ bits8 x ++ take p r
take_bytes p x r =
    let e : p + 8 ≡ suc (suc (suc (suc (suc (suc (suc (suc p))))))) = omega arith in rw e refl

bits8-injective : (x y : ℕ) → x < 256 → y < 256 → bits8 x ≡ bits8 y → x ≡ y
bits8-injective x y hx hy e = ground arith

byte_append-injective :
    (x y : ℕ) (r s : List ℕ) → (bits8 x ++ r ≡ bits8 y ++ s) → (bits8 x ≡ bits8 y) × (r ≡ s)
byte_append-injective x y r s e = (cc, cc)

high_iff :
    (x y p : ℕ)
    → p < 8
    → x < 256
    → y < 256
    → (bit_and x (mask p) ≡ bit_and y (mask p)) ↔ (x / 2 ^ (8 - p) ≡ y / 2 ^ (8 - p))
high_iff x y p hp hx hy =
    let c : ℕ = 2 ^ (8 - p) in
    let pos : 0 < c = one-le-pow (8 - p) 2 (omega arith) in
    let ex = bit_and-mask p x hp hx in
    let ey = bit_and-mask p y hp hy in
    (
      λ e.
          sym (mul-div_cancel (x / c) pos)
          ∙ ap (λ (t : ℕ). t / c) (sym ex ∙ e ∙ ey)
          ∙ mul-div_cancel (y / c) pos,
      λ e. ex ∙ ap (λ (t : ℕ). t * c) e ∙ sym ey,
    )

head_iff :
    (x y p : ℕ)
    → p < 8
    → x < 256
    → y < 256
    → (((p == 0) || (bit_and x (mask p) == bit_and y (mask p))) ≡ true)
      ↔ (take p (bits8 x) ≡ take p (bits8 y))
head_iff x y p hp hx hy =
    let (to, from) = take-bits8 p x y hp hx hy in
    let (high, same) = high_iff x y p hp hx hy in
    (
      λ e. elim (Bool-cases (p == 0)) [
        | inl z ↦ rw (==→eq p 0 z)
        | inr nz ↦ from (high (==→eq _ _ (ground arith)))
      ],
      λ e. ground (arith, same (to e)),
    )

tail_iff :
    (x y : ℕ) (a b : Bytes) (p : ℕ)
    → x < 256
    → y < 256
    → (bits_match a b p ≡ true) ↔ (take p (bits a) ≡ take p (bits b))
    → (bits_match (x ∷ a) (y ∷ b) (p + 8) ≡ true)
      ↔ (take (p + 8) (bits (x ∷ a)) ≡ take (p + 8) (bits (y ∷ b)))
tail_iff x y a b p hx hy (to, from) =
    rw (bits_match-tail x y a b p, take_bytes p x (bits a), take_bytes p y (bits b))
      (
        λ e.
            let same : x ≡ y = ==→eq x y (ground arith) in
            let rest : bits_match a b p ≡ true = ground arith in
            rw same (ap (λ (t : List ℕ). bits8 y ++ t) (to rest)),
        λ e.
            let (first, rest) = byte_append-injective x y _ _ e in
            let same : x ≡ y = bits8-injective x y hx hy first in ground (arith, from rest),
      )

bits_match_iff :
    (a b : Bytes) (p : ℕ)
    → All IsByte a
    → All IsByte b
    → length a ≡ length b
    → p ≤ 8 * length a
    → (bits_match a b p ≡ true) ↔ (take p (bits a) ≡ take p (bits b))
bits_match_iff [] [] p ha hb e h =
    let z : p ≡ 0 = omega arith in rw z (λ _. refl, λ _. unfold bits_match text_eq in refl)
bits_match_iff [] (y ∷ b) p ha hb e h = absurd (omega arith)
bits_match_iff (x ∷ a) [] p ha hb e h = absurd (omega arith)
bits_match_iff (x ∷ a) (y ∷ b) p ha hb e h = elim (dec_lt p 8) [
  | yes small ↦
      rw
        (
          bits_match-head x y a b p small,
          take_byte p x (bits a) small,
          take_byte p y (bits b) small,
        )
        (head_iff x y p small ha.0 hb.0)
  | no large ↦
      let q : p ≡ (p - 8) + 8 = omega arith in
      subst
        (λ n.
          (bits_match (x ∷ a) (y ∷ b) n ≡ true) ↔ (take n (bits (x ∷ a)) ≡ take n (bits (y ∷ b))))
        (sym q)
        (tail_iff x y a b (p - 8) ha.0 hb.0
          (bits_match_iff a b (p - 8) ha.1 hb.1 (omega arith) (omega arith)))
]

family_iff :
    (net ip : IpAddr) (p : ℕ)
    → IsAddr net
    → p ≤ max_prefix net
    → IsAddr ip
    → (same_family net ip p ≡ true)
      ↔ ((is_ipv4 net ≡ is_ipv4 ip) × (take p (bits (octets net)) ≡ take p (bits (octets ip))))
unfolding same_family
family_iff (v4 n) (v4 a) p (ln, bn) fits (la, ba) =
    let (to, from) = bits_match_iff n a p bn ba (omega arith) (omega arith) in
    (λ e. (refl, to e), λ e. from e.1)
family_iff (v6 n) (v6 a) p (ln, bn) fits (la, ba) =
    let (to, from) = bits_match_iff n a p bn ba (omega arith) (omega arith) in
    (λ e. (refl, to e), λ e. from e.1)
family_iff (v4 n) (v6 a) p v fits w = (λ e. cc, λ e. cc (e.0))
family_iff (v6 n) (v4 a) p v fits w = (λ e. cc, λ e. cc (e.0))

-- A well-formed range contains an address exactly when they are of one family and agree in the first
-- `prefix` bits.
pub contains_iff :
    (c : Cidr) (ip : IpAddr)
    → IsCidr c
    → IsAddr ip
    → (contains c ip ≡ true) ↔ (
        (is_ipv4 c.net ≡ is_ipv4 ip)
        × (take c.prefix (bits (octets c.net)) ≡ take c.prefix (bits (octets ip))))
unfolding contains
contains_iff c ip v w = family_iff c.net ip c.prefix v.addr v.fits w
