-- ===== src/Common/Numbers.antt =====
-- `str::parse` for the unsigned integer types, and `{}` formatting of a number.
use newt_rust.Common.{
  true, ◌∙◌, ℕ, zero, suc, ◌+◌, ◌-◌, ◌*◌, ◌/◌, ◌%◌, ◌≤◌, ◌<◌, ◌≡◌, ◌≢◌, refl, ◌&&◌, ◌||◌, not,
  Option, none, some, [], ◌∷◌, arith, ltb, ◌==◌, if◌then◌else◌, Text, All, is_empty, Lacks,
}

-- The digits, read left to right with a checked multiplication and addition.
parse_digits : ℕ → Text → ℕ → Option ℕ
parse_digits top [] n = some n
parse_digits top (c ∷ s) n =
    if ltb c b'0' || ltb b'9' c
    then none
    else if ltb top (n * 10 + (c - b'0'))
    then none
    else parse_digits top s (n * 10 + (c - b'0'))

-- `str::parse` into an unsigned type whose largest value is `top`: a sign `+` is allowed.
unfoldable pub parse_uint : ℕ → Text → Option ℕ
unfolding parse_digits
parse_uint top [] = none
parse_uint top (c ∷ s) =
    if c == b'+' && not (is_empty s) then parse_digits top s 0 else parse_digits top (c ∷ s) 0

abbrev pub max_u8 : ℕ
max_u8 = 255

abbrev pub max_u16 : ℕ
max_u16 = 65535

abbrev pub max_u64 : ℕ
max_u64 = 18446744073709551615

parse_digits-le : (top : ℕ) (s : Text) (n r : ℕ) → n ≤ top → parse_digits top s n ≡ some r → r ≤ top
unfolding parse_digits
parse_digits-le top [] n r h e = ground arith
parse_digits-le top (c ∷ s) n r h e = ground (arith, parse_digits-le top s (n * 10 + (c - b'0')) r)

-- A parsed number fits its type.
pub parse_uint-le : (top : ℕ) (s : Text) (r : ℕ) → parse_uint top s ≡ some r → r ≤ top
unfolding parse_uint
parse_uint-le top [] r e = cc
parse_uint-le top (c ∷ s) r e =
    ground (arith, parse_digits-le top s 0 r, parse_digits-le top (c ∷ s) 0 r)

digits : ℕ → ℕ → Text → Text
digits zero n out = out
digits (suc f) n out =
    let rest = digits f (n / 10) ((b'0' + n % 10) ∷ out) in
    if ltb n 10 then (b'0' + n % 10) ∷ out else rest

-- `format!("{n}")`
unfoldable pub decimal : ℕ → Text
unfolding digits
decimal n = digits (suc n) n []

abbrev pub IsDigit : ℕ → Type 0
IsDigit c = (b'0' ≤ c) × (c ≤ b'9')

digits-All : (f n : ℕ) (out : Text) → All IsDigit out → All IsDigit (digits f n out)
unfolding digits
digits-All zero n out h = h
digits-All (suc f) n out h = ground (arith, digits-All f (n / 10) ((b'0' + n % 10) ∷ out))

pub decimal-All : (n : ℕ) → All IsDigit (decimal n)
unfolding decimal
decimal-All n = digits-All (suc n) n [] tt

-- The most significant digits are read first: scanning the print of `n` from 0 reaches `n`.
scan-digits :
    (top f n : ℕ) (out : Text)
    → n < f
    → n ≤ top
    → parse_digits top (digits f n out) 0 ≡ parse_digits top out n
unfolding digits parse_digits
scan-digits top zero n out h k = absurd (omega arith)
scan-digits top (suc f) n out h k =
    ground (arith, scan-digits top f (n / 10) ((b'0' + n % 10) ∷ out))

digits-ne-nil : (f n : ℕ) (out : Text) → out ≢ [] → digits f n out ≢ []
unfolding digits
digits-ne-nil zero n out h = h
digits-ne-nil (suc f) n out h = ground (arith, digits-ne-nil f (n / 10) ((b'0' + n % 10) ∷ out))

decimal-ne-nil : (n : ℕ) → decimal n ≢ []
unfolding decimal digits
decimal-ne-nil n = ground (arith, digits-ne-nil n (n / 10) ((b'0' + n % 10) ∷ []))

parse_uint-digits :
    (top : ℕ) (s : Text) → s ≢ [] → All IsDigit s → parse_uint top s ≡ parse_digits top s 0
unfolding parse_uint
parse_uint-digits top [] h a = absurd (h refl)
parse_uint-digits top (c ∷ s) h (d, a) = ground arith

-- A number that fits its type is read back from its print.
pub parse_uint-decimal : (top n : ℕ) → n ≤ top → parse_uint top (decimal n) ≡ some n
unfolding decimal parse_digits
parse_uint-decimal top n h =
    parse_uint-digits top (decimal n) (decimal-ne-nil n) (decimal-All n)
    ∙ scan-digits top (suc n) n [] (omega arith) h

pub digits-Lacks : (c : ℕ) (s : Text) → ltb c b'0' || ltb b'9' c ≡ true → All IsDigit s → Lacks c s
digits-Lacks c [] h a = tt
digits-Lacks c (d ∷ s) h (p, a) = (ground arith, digits-Lacks c s h a)

-- A printed number holds no character that is not a digit.
pub decimal-Lacks : (c n : ℕ) → ltb c b'0' || ltb b'9' c ≡ true → Lacks c (decimal n)
decimal-Lacks c n h = digits-Lacks c (decimal n) h (decimal-All n)
