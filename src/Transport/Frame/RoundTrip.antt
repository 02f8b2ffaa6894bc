-- ===== src/Transport/Frame/RoundTrip.antt =====
-- A frame that is written is read back.
use newt_rust.Common.{
  ℕ, zero, suc, ◌+◌, ◌<◌, ◌≤◌, ◌≡◌, refl, ◌∙◌, ap, subst, Bool-cases, inl, inr, true, false, not,
  ◌&&◌, [], ◌∷◌, ◌++◌, length, get_or, ltb, leb, codes, ◌==◌, if◌then◌else◌, bit_and, bit_or, arith,
  All, take-append, drop-append, length-append, append_assoc,
}
use newt_rust.Common.Results.{ok, err, ◌>>=◌}
use newt_rust.Common.Net.{Bytes, IsByte}
use newt_rust.Common.Tables.{holds_to, holds_to-at, xor_twice}
use newt_rust.Transport.Frame.{
  max_frame, be_bytes, from_be, masked_from, length_bytes, write_frame, read_exact, read_length,
  read_payload, read_behind, read_frame,
}

opcodes :
    holds_to (λ op. not (bit_and (bit_or 128 op) 128 == 0) && (bit_and (bit_or 128 op) 15 == op)) 16
    ≡ true
unfolding holds_to
opcodes = refl

lengths :
    holds_to (λ n. not (bit_and (bit_or 128 n) 128 == 0) && (bit_and (bit_or 128 n) 127 == n)) 128
    ≡ true
unfolding holds_to
lengths = refl

read_exact-append : (xs rest : Bytes) → read_exact (length xs) (xs ++ rest) ≡ ok (xs, rest)
read_exact-append xs rest =
    let fits : ltb (length (xs ++ rest)) (length xs) ≡ false =
      ground (arith, length-append xs rest) in
    rw (fits, take-append xs rest, drop-append xs rest) refl

get_or-IsByte : (b : Bytes) (i : ℕ) → All IsByte b → IsByte (get_or b i 0)
get_or-IsByte [] i h = omega arith
get_or-IsByte (x ∷ b) zero (hx, h) = hx
get_or-IsByte (x ∷ b) (suc i) (hx, h) = get_or-IsByte b i h

masked_from-twice :
    (i : ℕ) (mask payload : Bytes)
    → All IsByte payload
    → All IsByte mask
    → masked_from i mask (masked_from i mask payload) ≡ payload
masked_from-twice i mask [] h hm = refl
masked_from-twice i mask (x ∷ xs) (hx, h) hm =
    let m = get_or mask (bit_and i 3) 0 in
    rw
      (
        xor_twice x m hx (get_or-IsByte mask (bit_and i 3) hm),
        masked_from-twice (i + 1) mask xs h hm,
      )
      refl

pub length-masked_from :
    (i : ℕ) (mask payload : Bytes) → length (masked_from i mask payload) ≡ length payload
length-masked_from i mask [] = refl
length-masked_from i mask (x ∷ xs) = ap suc (length-masked_from (i + 1) mask xs)

from_be-two : (n : ℕ) → n ≤ 65535 → from_be 0 (be_bytes 2 n) ≡ n
from_be-two n h = omega arith

from_be-eight : (n : ℕ) → n ≤ max_frame → from_be 0 (be_bytes 8 n) ≡ n
from_be-eight n h = omega arith

opcode_bits :
    (op : ℕ)
    → op < 16
    → ((bit_and (bit_or 128 op) 128 == 0) ≡ false) × (bit_and (bit_or 128 op) 15 ≡ op)
opcode_bits op h = let t = holds_to-at _ 16 op h opcodes in ground (arith, t)

length_bits :
    (n : ℕ)
    → n < 128
    → ((bit_and (bit_or 128 n) 128 == 0) ≡ false) × (bit_and (bit_or 128 n) 127 ≡ n)
length_bits n h = let t = holds_to-at _ 128 n h lengths in ground (arith, t)

read_exact-two : (a b : ℕ) (io : Bytes) → read_exact 2 (a ∷ b ∷ io) ≡ ok (a ∷ b ∷ [], io)
read_exact-two a b io =
    let fits : ltb (length (a ∷ b ∷ io)) 2 ≡ false = ground arith in rw fits refl

read_frame-read_behind :
    (op c : ℕ) (io : Bytes)
    → op < 16
    → c < 128
    → read_frame (bit_or 128 op ∷ bit_or 128 c ∷ io) ≡ read_behind true true op c io
unfolding read_frame
read_frame-read_behind op c io ho hc =
    let (fin, same) = opcode_bits op ho in
    let (masked, low) = length_bits c hc in
    ap
      (λ m. m >>= λ p.
        read_behind (not (bit_and (get_or p.0 0 0) 128 == 0))
          (not (bit_and (get_or p.0 1 0) 128 == 0)) (bit_and (get_or p.0 0 0) 15)
          (bit_and (get_or p.0 1 0) 127) p.1)
      (read_exact-two (bit_or 128 op) (bit_or 128 c) io)
    ∙ (λ i. read_behind (not (fin i)) (not (masked i)) (same i) (low i) io)

read_payload-masked :
    (mask payload rest : Bytes)
    → length mask ≡ 4
    → All IsByte mask
    → All IsByte payload
    → read_payload true (length payload) (mask ++ (masked_from 0 mask payload ++ rest))
      ≡ ok (payload, rest)
read_payload-masked mask payload rest four hm hp =
    let first : read_exact 4 (mask ++ (masked_from 0 mask payload ++ rest))
        ≡ ok (mask, masked_from 0 mask payload ++ rest) =
      subst
        (λ n.
          read_exact n (mask ++ (masked_from 0 mask payload ++ rest))
          ≡ ok (mask, masked_from 0 mask payload ++ rest))
        four (read_exact-append mask (masked_from 0 mask payload ++ rest)) in
    let second : read_exact (length payload) (masked_from 0 mask payload ++ rest)
        ≡ ok (masked_from 0 mask payload, rest) =
      subst
        (λ n.
          read_exact n (masked_from 0 mask payload ++ rest) ≡ ok (masked_from 0 mask payload, rest))
        (length-masked_from 0 mask payload) (read_exact-append (masked_from 0 mask payload) rest) in
    ap (λ m. m >>= λ p. do (x, io) ← read_exact (length payload) p.1; ok (masked_from 0 p.0 x, io))
      first
    ∙ ap (λ m. m >>= λ q. ok (masked_from 0 mask q.0, q.1)) second
    ∙ ap (λ x. ok (x, rest)) (masked_from-twice 0 mask payload hp hm)

-- The length bytes are a byte with the high bit and the bytes that it announces.
read_length-length_bytes :
    (n : ℕ)
    → n ≤ max_frame
    → (c : ℕ) × (ext : Bytes) × (c < 128)
      × (length_bytes n ≡ bit_or 128 c ∷ ext)
      × ((io : Bytes) → read_length c (ext ++ io) ≡ ok (n, io))
read_length-length_bytes n h = elim (Bool-cases (ltb n 126)) [
  | inl small ↦ (
    n,
    [],
    ground arith,
    rw small refl,
    λ io.
        let a : (n == 126) ≡ false = ground arith in
        let b : (n == 127) ≡ false = ground arith in rw (a, b) refl,
  )
  | inr big ↦ elim (Bool-cases (leb n 65535)) [
    | inl middle ↦ (
      126,
      be_bytes 2 n,
      omega arith,
      rw (big, middle) refl,
      λ io.
          ap (λ m. m >>= λ p. ok (from_be 0 p.0, p.1)) (read_exact-append (be_bytes 2 n) io)
          ∙ ap (λ k. ok (k, io)) (from_be-two n (ground arith)),
    )
    | inr large ↦ (
      127,
      be_bytes 8 n,
      omega arith,
      rw (big, large) refl,
      λ io.
          ap (λ m. m >>= λ p. ok (from_be 0 p.0, p.1)) (read_exact-append (be_bytes 8 n) io)
          ∙ ap (λ k. ok (k, io)) (from_be-eight n (ground arith)),
    )
  ]
]

read_behind-payload :
    (op c : ℕ) (mask payload rest io : Bytes)
    → length mask ≡ 4
    → All IsByte mask
    → All IsByte payload
    → length payload ≤ max_frame
    → read_length c io ≡ ok (length payload, mask ++ (masked_from 0 mask payload ++ rest))
    → read_behind true true op c io ≡ ok ((true, op, payload), rest)
read_behind-payload op c mask payload rest io four hm hp fits read =
    let accepted : ltb max_frame (length payload) ≡ false = ground arith in
    ap
      (λ m. m >>= λ p.
        if ltb max_frame p.0
        then err (codes "websocket frame too large")
        else (do (x, io) ← read_payload true p.0 p.1; ok ((true, op, x), io)))
      read
    ∙ rw accepted (
        ap (λ m. m >>= λ q. ok ((true, op, q.0), q.1))
          (read_payload-masked mask payload rest four hm hp))

-- A frame written with a mask of four bytes and a payload of at most 16 MiB is read back as the last frame of a
-- message, with its opcode and its payload, whatever follows it, which is left to be read.
pub read_frame-write_frame :
    (mask payload rest : Bytes) (opcode : ℕ)
    → length mask ≡ 4
    → All IsByte mask
    → All IsByte payload
    → opcode < 16
    → length payload ≤ max_frame
    → read_frame (write_frame mask opcode payload ++ rest) ≡ ok ((true, opcode, payload), rest)
unfolding write_frame
read_frame-write_frame mask payload rest opcode four hm hp ho fits =
    let (c, ext, small, bytes, read) = read_length-length_bytes (length payload) fits in
    let body = masked_from 0 mask payload in
    let laid_out : bit_or 128 opcode ∷ (length_bytes (length payload) ++ mask ++ body ++ rest)
        ≡ bit_or 128 opcode ∷ bit_or 128 c ∷ (ext ++ (mask ++ (body ++ rest))) =
      ap (λ bs. bit_or 128 opcode ∷ (bs ++ mask ++ body ++ rest)) bytes
      ∙ ap (λ bs. bit_or 128 opcode ∷ bit_or 128 c ∷ bs)
          (append_assoc (ext ++ mask) body rest ∙ append_assoc ext mask (body ++ rest)) in
    ap read_frame laid_out
    ∙ read_frame-read_behind opcode c (ext ++ (mask ++ (body ++ rest))) ho small
    ∙ read_behind-payload opcode c mask payload rest (ext ++ (mask ++ (body ++ rest))) four hm hp
        fits (read (mask ++ (body ++ rest)))
