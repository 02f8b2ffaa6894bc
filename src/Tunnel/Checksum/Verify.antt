-- ===== src/Tunnel/Checksum/Verify.antt =====
-- A receiver's check of the checksum.
use newt_rust.Common.{
  ℕ, ◌+◌, ◌-◌, ◌*◌, ◌/◌, ◌%◌, ◌^◌, ◌≤◌, ◌<◌, ◌≡◌, [], ◌∷◌, ◌++◌, arith, All, length, ◌==◌,
  if◌then◌else◌,
}
use newt_rust.Common.Net.{Bytes, IsByte}
use newt_rust.Tunnel.Checksum.{checksum, sum_words, fold_carries}

-- The sum of the words, with no bound.
abbrev pub total : Bytes → ℕ
total [] = 0
total (hi ∷ []) = hi * 256
total (hi ∷ lo ∷ rest) = hi * 256 + lo + total rest

sum_words-total : (b : Bytes) (sum : ℕ) → sum + total b < 2 ^ 32 → sum_words b sum ≡ sum + total b
unfolding sum_words
sum_words-total [] sum h = omega arith
sum_words-total (hi ∷ []) sum h = omega arith
sum_words-total (hi ∷ lo ∷ rest) sum h =
    let e : (sum + (hi * 256 + lo)) % 2 ^ 32 ≡ sum + (hi * 256 + lo) = omega arith in
    rw e (omega (arith, sum_words-total rest (sum + (hi * 256 + lo)) (omega arith)))

-- The loop has ended, and its result is the sum modulo 65535, with 65535 for the multiples but 0.
fold_carries-end :
    (s : ℕ) → s < 2 ^ 32 → fold_carries 3 s ≡ (if s == 0 then 0 else (s - 1) % 65535 + 1)
unfolding fold_carries
fold_carries-end s h = ground arith

checksum-total :
    (b : Bytes)
    → total b < 2 ^ 32
    → checksum b ≡ 65535 - (if total b == 0 then 0 else (total b - 1) % 65535 + 1)
unfolding checksum
checksum-total b h =
    let e : sum_words b 0 ≡ total b = omega (arith, sum_words-total b 0 (omega arith)) in
    rw (e, fold_carries-end (total b) h) (ground arith)

total-append :
    (pre rest : Bytes) → length pre % 2 ≡ 0 → total (pre ++ rest) ≡ total pre + total rest
total-append [] rest h = omega arith
total-append (x ∷ []) rest h = absurd (omega arith)
total-append (x ∷ y ∷ pre) rest h = omega (arith, total-append pre rest (omega arith))

total-le : (b : Bytes) → All IsByte b → 2 * total b ≤ 65535 * (length b + 1)
total-le [] h = omega arith
total-le (x ∷ []) (hx, h) = omega arith
total-le (x ∷ y ∷ b) (hx, (hy, h)) = omega (arith, total-le b h)

-- The receiver's check of RFC 1071: the ones' complement sum of the words is all ones, where a sum in ones'
-- complement is the sum modulo 65535, with all ones for the multiples but 0.
abbrev pub Verifies : Bytes → Type 0
Verifies b = (total b % 65535 ≡ 0) × (0 < total b)

-- With the checksum of a text whose two checksum bytes are zero written over these, at an even
-- offset, the text verifies; a text of at most 65535 bytes, not all of them zero.
pub checksum-Verifies :
    (pre post : Bytes)
    → length pre % 2 ≡ 0
    → All IsByte (pre ++ 0 ∷ 0 ∷ post)
    → length (pre ++ 0 ∷ 0 ∷ post) ≤ 65535
    → 0 < total (pre ++ 0 ∷ 0 ∷ post)
    → let c = checksum (pre ++ 0 ∷ 0 ∷ post) in Verifies (pre ++ (c / 256) ∷ (c % 256) ∷ post)
checksum-Verifies pre post even bytes fits nonzero =
    let c = checksum (pre ++ 0 ∷ 0 ∷ post) in
    let blank : total (pre ++ 0 ∷ 0 ∷ post) ≡ total pre + total post =
      omega (arith, total-append pre (0 ∷ 0 ∷ post) even) in
    let filled : total (pre ++ (c / 256) ∷ (c % 256) ∷ post) ≡ total pre + total post + c =
      omega (arith, total-append pre ((c / 256) ∷ (c % 256) ∷ post) even) in
    let small = total-le (pre ++ 0 ∷ 0 ∷ post) bytes in
    (
      ground (arith, checksum-total (pre ++ 0 ∷ 0 ∷ post) (omega arith), blank, filled),
      omega (arith, blank, filled),
    )
