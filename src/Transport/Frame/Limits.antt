-- ===== src/Transport/Frame/Limits.antt =====
-- What a frame that is read can hold.
use newt_rust.Common.{
  ℕ, ◌+◌, ◌≤◌, ◌≡◌, refl, sym, ◌∙◌, ap, Bool, true, false, not, take, drop, length, get_or, ltb,
  ◌==◌, if◌then◌else◌, bit_and, arith, length-take, length-drop, Text, ltb-ge,
}
use newt_rust.Common.Results.{Result, ok, err, ◌>>=◌, >>=-eq-ok}
use newt_rust.Common.Net.{Bytes}
use newt_rust.Transport.Frame.{
  max_frame, from_be, masked_from, read_exact, read_length, read_payload, read_behind, read_frame,
}
use newt_rust.Transport.Frame.RoundTrip.{length-masked_from}

-- A test that ends in an error was not met.
not_refused :
    {A : Type 0} (refused : Bool) (e : Text) (m : Result A) (a : A)
    → (if refused then err e else m) ≡ ok a
    → (refused ≡ false) × (m ≡ ok a)
not_refused true e m a h = cc
not_refused false e m a h = (refl, h)

-- Some bytes and the others are as many as there were.
read_exact-length :
    (n : ℕ) (io a b : Bytes)
    → read_exact n io ≡ ok (a, b)
    → (length a ≡ n) × (length a + length b ≡ length io)
read_exact-length n io a b h =
    let (enough, e) = not_refused (ltb (length io) n) _ (ok (take n io, drop n io)) (a, b) h in
    let first : take n io ≡ a = cc in
    let second : drop n io ≡ b = cc in
    let bound = ltb-ge (length io) n enough in
    (
      omega (arith, ap length first, length-take n io, bound),
      omega (arith, ap length first, ap length second, length-take n io, length-drop n io, bound),
    )

read_payload-length :
    (masked : Bool) (n : ℕ) (io a b : Bytes)
    → read_payload masked n io ≡ ok (a, b)
    → (length a ≡ n) × (length a + length b ≤ length io)
read_payload-length true n io a b h =
    let ((m, io1), e1, h1) = >>=-eq-ok (read_exact 4 io) _ h in
    let ((p, io2), e2, h2) = >>=-eq-ok (read_exact n io1) _ h1 in
    let payload : masked_from 0 m p ≡ a = cc in
    let left : io2 ≡ b = cc in
    let (_, t1) = read_exact-length 4 io m io1 e1 in
    let (l2, t2) = read_exact-length n io1 p io2 e2 in
    let same : length p ≡ length a = sym (length-masked_from 0 m p) ∙ ap length payload in
    (omega arith, omega (arith, ap length left))
read_payload-length false n io a b h = let (l, t) = read_exact-length n io a b h in (l, omega arith)

read_length-length :
    (n : ℕ) (io rest : Bytes) (len : ℕ)
    → read_length n io ≡ ok (len, rest)
    → length rest ≤ length io
read_length-length n io rest len h = by_size (n == 126) (n == 127) h
  where
    size : Bytes × Bytes → Result (ℕ × Bytes)
    size (l, io) = ok (from_be 0 l, io)

    wide : (w : ℕ) → (read_exact w io >>= size) ≡ ok (len, rest) → length rest ≤ length io
    wide w h =
        let ((l, io1), e1, h1) = >>=-eq-ok (read_exact w io) _ h in
        let left : io1 ≡ rest = cc in
        omega (arith, ap length left, (read_exact-length w io l io1 e1).1)

    by_size :
        (two eight : Bool)
        → (if two
            then read_exact 2 io >>= size
            else if eight
            then read_exact 8 io >>= size
            else ok (n, io))
          ≡ ok (len, rest)
        → length rest ≤ length io
    by_size true eight h = wide 2 h
    by_size false true h = wide 8 h
    by_size false false h = let left : io ≡ rest = cc in omega (arith, ap length left)

ok-injective : {A : Type 0} {a b : A} → ok a ≡ ok b → a ≡ b
ok-injective e = cc

read_behind-le :
    (fin masked : Bool) (op n : ℕ) (io : Bytes) (head : Bool × ℕ × Bytes) (rest : Bytes)
    → read_behind fin masked op n io ≡ ok (head, rest)
    → (length head.2 ≤ max_frame) × (length head.2 + length rest ≤ length io)
read_behind-le fin masked op n io head rest h =
    let ((len, io2), e2, h2) = >>=-eq-ok (read_length n io) _ h in
    let (small, h3) = not_refused (ltb max_frame len) _ _ _ h2 in
    let ((p, io3), e3, h4) = >>=-eq-ok (read_payload masked len io2) _ h3 in
    let same : ◌≡◌ {A = (Bool × ℕ × Bytes) × Bytes} ((fin, op, p), io3) (head, rest) =
      ok-injective h4 in
    let payload : length p ≡ length head.2 =
      ap (λ (r : (Bool × ℕ × Bytes) × Bytes). length r.0.2) same in
    let left : length io3 ≡ length rest =
      ap (λ (r : (Bool × ℕ × Bytes) × Bytes). length r.1) same in
    let t2 = read_length-length n io io2 len e2 in
    let (l3, t3) = read_payload-length masked len io2 p io3 e3 in
    let bound = ltb-ge max_frame len small in (omega arith, omega arith)

-- A frame that is read has a payload of at most 16 MiB, and at least two bytes of the stream are read besides it.
pub read_frame-le :
    (io payload rest : Bytes) (fin : Bool) (opcode : ℕ)
    → read_frame io ≡ ok ((fin, opcode, payload), rest)
    → (length payload ≤ max_frame) × (length payload + length rest + 2 ≤ length io)
unfolding read_frame
read_frame-le io payload rest fin opcode h =
    let ((first, io1), e1, h1) = >>=-eq-ok (read_exact 2 io) _ h in
    let (bound, t2) =
      read_behind-le (not (bit_and (get_or first 0 0) 128 == 0))
        (not (bit_and (get_or first 1 0) 128 == 0)) (bit_and (get_or first 0 0) 15)
        (bit_and (get_or first 1 0) 127) io1 (fin, opcode, payload) rest h1 in
    (
      bound,
      omega (
        arith,
        (read_exact-length 2 io first io1 e1).0,
        (read_exact-length 2 io first io1 e1).1,
        t2,
      ),
    )
