-- ===== src/Olm/Cidr.antt =====
-- `Cidr` of crates/newt/src/olm/router.rs: a routed range of addresses. `str::parse::<IpAddr>` of the
-- standard library is the parameter `IpParser`.
pub mod Mask
pub mod Prefix
use newt_rust.Common.{
  ℕ, ◌+◌, ◌-◌, ◌*◌, ◌/◌, ◌%◌, ◌^◌, ◌≤◌, ◌≡◌, Bool, true, false, not, ◌&&◌, Option, none, some, Text,
  trim, split_once, text_eq, length, get_or, take, drop, ltb, ◌==◌, if◌then◌else◌, bit_and,
  Bool-cases, inl, inr, ltb-ge, subst, arith,
}
use newt_rust.Common.Monads.{◌>>=◌, >>=-eq-some}
use newt_rust.Common.Numbers.{parse_uint, max_u8}
use newt_rust.Common.Net.{Bytes, IpAddr, v4, v6, octets, is_ipv4, IsAddr}

pub record IpParser : Type 0 where
  pub parse_ip : Text → Option IpAddr
  pub parse_ip-IsAddr : (s : Text) (ip : IpAddr) → parse_ip s ≡ some ip → IsAddr ip

pub record Cidr : Type 0 where
  pub net : IpAddr
  pub prefix : ℕ

-- the largest prefix of a family
abbrev pub max_prefix : IpAddr → ℕ
max_prefix ip = if is_ipv4 ip then 32 else 128

with_prefix : IpAddr → Option ℕ → Option Cidr
with_prefix net given =
    let top : ℕ = max_prefix net in
    let prefix : ℕ = elim given [ none ↦ top | some p ↦ p ] in
    if ltb top prefix then none else some (record { net = net; prefix = prefix })

-- the address and the prefix behind a slash, which must be a number
split_prefix : Text → Option (Text × Option ℕ)
split_prefix s = elim (split_once b'/' s) [
  | none ↦ some (s, none)
  | some (a, p) ↦ do n ← parse_uint max_u8 p; some (a, some n)
]

-- `Cidr::parse`
unfoldable pub parse : IpParser → Text → Option Cidr
unfolding with_prefix split_prefix
parse std s = do
  (addr, given) ← split_prefix (trim s)
  net ← std.parse_ip addr
  with_prefix net given

-- `(0xffu8 << (8 - rem))`
abbrev pub mask : ℕ → ℕ
mask rem = 255 * 2 ^ (8 - rem) % 256

-- `bits_match`. The slices are in range where the prefix is at most the number of bits.
unfoldable pub bits_match : Bytes → Bytes → ℕ → Bool
bits_match a b prefix =
    let full : ℕ = prefix / 8 in
    let rem : ℕ = prefix % 8 in
    if not (text_eq (take full a) (take full b))
    then false
    else if rem == 0
    then true
    else bit_and (get_or a full 0) (mask rem) == bit_and (get_or b full 0) (mask rem)

-- `Cidr::contains`
same_family : IpAddr → IpAddr → ℕ → Bool
same_family (v4 n) (v4 a) prefix = bits_match n a prefix
same_family (v6 n) (v6 a) prefix = bits_match n a prefix
same_family _ _ prefix = false

unfoldable pub contains : Cidr → IpAddr → Bool
unfolding same_family
contains c ip = same_family c.net ip c.prefix

ip_eq : IpAddr → IpAddr → Bool
ip_eq (v4 a) (v4 b) = text_eq a b
ip_eq (v6 a) (v6 b) = text_eq a b
ip_eq _ _ = false

-- `same_cidr`
unfoldable pub same_cidr : Cidr → Cidr → Bool
unfolding ip_eq
same_cidr a b = (a.prefix == b.prefix) && ip_eq a.net b.net

-- A range as `parse` returns it.
pub record IsCidr (c : Cidr) : Type 0 where
  pub addr : IsAddr c.net
  pub fits : c.prefix ≤ max_prefix c.net

with_prefix-IsCidr :
    (net : IpAddr) (given : Option ℕ) (c : Cidr)
    → IsAddr net
    → with_prefix net given ≡ some c
    → IsCidr c
unfolding with_prefix
with_prefix-IsCidr net given c a h =
    let top : ℕ = max_prefix net in
    let p : ℕ = elim given [ none ↦ top | some n ↦ n ] in
    elim (Bool-cases (ltb top p)) [
      | inl over ↦ ground arith
      | inr fits ↦
          let same : record { net = net; prefix = p } ≡ c = ground arith in
          subst IsCidr same (record { addr = a; fits = ltb-ge top p fits })
    ]

-- A parsed range has an address of its family and a prefix of at most its number of bits.
pub parse-IsCidr : (std : IpParser) (s : Text) (c : Cidr) → parse std s ≡ some c → IsCidr c
unfolding parse
parse-IsCidr std s c h =
    let ((addr, given), split, h1) = >>=-eq-some (split_prefix (trim s)) _ h in
    let (net, read, h2) = >>=-eq-some (std.parse_ip addr) _ h1 in
    with_prefix-IsCidr net given c (std.parse_ip-IsAddr addr net read) h2
