-- ===== src/Olm/Tun/Named.antt =====
-- The request for a TUN interface, the interface's name, and the loops over the device.
use newt_rust.Common.{
  codes, ℕ, zero, suc, ◌-◌, min, List, [], ◌∷◌, ◌++◌, length, take, replicate, length-append,
  length-take, length-replicate, Bool, All, some, Text, ◌≡◌, refl, ◌∙◌, ap, arith, ◌==◌, false,
}
use newt_rust.Common.Results.{Result}
use newt_rust.Common.Io.{pure, Ends, Ends-after, Ends-any, ◌>>◌}
use newt_rust.Common.Net.{Bytes}
use newt_rust.Olm.Tun.{
  IfReq, Files, padded, tun_request, tunsetiff, real_name, Tun, set_nonblocking, open_tun, Attempt,
  would_block, ended, await_io,
}

-- The name of a request has the length of the field, whatever the interface is called.
length-padded : (bytes : Bytes) → length (padded bytes) ≡ 16
length-padded bytes =
    let n = min (length bytes) 15 in
    omega (
      arith,
      length-append (take n bytes) (replicate (16 - n) 0),
      length-take n bytes,
      length-replicate (16 - n) zero,
    )

-- A byte that ends no C string.
abbrev IsChar : ℕ → Type 0
IsChar c = (c == 0) ≡ false

real_name-append :
    (n m : ℕ) (bytes : Bytes)
    → All IsChar bytes
    → real_name (take n bytes ++ replicate (suc m) 0) ≡ take n bytes
unfolding real_name
real_name-append zero m bytes h = refl
real_name-append (suc n) m [] h = refl
real_name-append (suc n) m (b ∷ bytes) (e, h) = rw (e, real_name-append n m bytes h) refl

take_most : {A : Type 0} (k n : ℕ) (xs : List A) → k ≡ min (length xs) n → take k xs ≡ take n xs
take_most zero zero xs h = refl
take_most zero (suc n) [] h = refl
take_most zero (suc n) (x ∷ xs) h = absurd (omega arith)
take_most (suc k) n [] h = absurd (omega arith)
take_most (suc k) zero (x ∷ xs) h = absurd (omega arith)
take_most (suc k) (suc n) (x ∷ xs) h = ap (λ t. x ∷ t) (take_most k n xs (omega arith))

-- The name in a request, read back, is the first 15 bytes of what was asked for.
real_name-padded : (bytes : Bytes) → All IsChar bytes → real_name (padded bytes) ≡ take 15 bytes
real_name-padded bytes h =
    let n = min (length bytes) 15 in
    let behind : 16 - n ≡ suc (15 - n) = omega arith in
    ap (λ m. real_name (take n bytes ++ replicate m 0)) behind
    ∙ real_name-append n (15 - n) bytes h
    ∙ take_most n 15 bytes refl

module _ (files : Files) where
  open files use {World, Fd, ioctl, as_bytes}

  -- A kernel that leaves the name of a request as it is.
  abbrev Accepting : Type 0
  Accepting =
      (fd : Fd) (n : ℕ) (req : IfReq) (w : World)
      → Ends (λ r. r.ifr_name ≡ req.ifr_name) (ioctl fd n req w)

  -- Where the kernel takes the name that is asked for, and that has no zero byte, an opened device has its
  -- first 15 bytes as its name, one character for each byte.
  open_tun-named :
      (other_encoding : Bool) (name : Text) (w : World)
      → Accepting
      → All IsChar (as_bytes name)
      → Ends (λ t. t.name ≡ take 15 (as_bytes name)) (open_tun files other_encoding name w)
  unfolding open_tun
  open_tun-named other_encoding name w accepts h =
      let request = tun_request (as_bytes name) in
      let named_file : Fd → IfReq → Tun files =
        λ file req. record { fd = file; name = real_name req.ifr_name } in
      Ends-any _ (files.open_file (codes "/dev/net/tun") w) _ (λ file w1.
        Ends-after (λ r. r.ifr_name ≡ request.ifr_name) _
          (ioctl file (tunsetiff other_encoding) request w1) _
          (accepts file (tunsetiff other_encoding) request w1)
          (λ req w2 same.
            Ends-any _ (set_nonblocking files file w2)
              (λ u. do files.async_fd file; pure (named_file file req))
              (λ u w3.
                Ends-any _ (files.async_fd file w3) (λ v. pure (named_file file req))
                  (λ v w4. ap real_name same ∙ real_name-padded (as_bytes name) h))))

-- The loop over the device ends at the first call that does not block, with its result.
await_io-ended :
    {A : Type 0} (n : ℕ) (res : Result A) (rounds : List (Attempt A))
    → await_io (replicate n would_block ++ ended res ∷ rounds) ≡ some res
unfolding await_io
await_io-ended zero res rounds = refl
await_io-ended (suc n) res rounds = await_io-ended n res rounds
