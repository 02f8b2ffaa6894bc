-- ===== src/Olm/Netlink/Acks.antt =====
-- What a request returns, by the reply of the kernel.
use newt_rust.Common.{
  ℕ, ◌+◌, ◌-◌, ◌*◌, ◌/◌, ◌%◌, ◌^◌, ◌<◌, Bool, true, false, ◌++◌, ◌≡◌, arith, ◌==◌, if◌then◌else◌,
}
use newt_rust.Common.Results.{ok, err}
use newt_rust.Common.Net.{Bytes}
use newt_rust.Olm.Netlink.Header.{four_bytes}
use newt_rust.Olm.Netlink.{Kernel, ne16, ne32, verdict}

-- A reply of the kernel: a header with its type, and a body that starts with the error as an `i32`, 0
-- or the negated code.
abbrev pub reply : Bool → ℕ → ℕ → ℕ → ℕ → Bytes → Bytes
reply little len flags seq code rest =
    ne32 little len
    ++ (ne16 little 2
        ++ (ne16 little flags
            ++ (ne32 little seq
                ++ (ne32 little 0 ++ (ne32 little ((2 ^ 32 - code) % 2 ^ 32) ++ rest)))))

-- The bytes of a negated code, put together.
negated :
    (code : ℕ)
    → code < 2 ^ 31
    → (2 ^ 32 - code) % 2 ^ 32 % 256
        + 256 * ((2 ^ 32 - code) % 2 ^ 32 / 256 % 256)
        + 256 ^ 2 * ((2 ^ 32 - code) % 2 ^ 32 / 256 ^ 2 % 256)
        + 256 ^ 3 * ((2 ^ 32 - code) % 2 ^ 32 / 256 ^ 3 % 256)
      ≡ (2 ^ 32 - code) % 2 ^ 32
negated code h = four_bytes ((2 ^ 32 - code) % 2 ^ 32) (omega arith)

module _ (k : Kernel) where
  open k use {World, os_error}

  -- The code of the kernel's reply comes back: success for 0, and the error of this code otherwise.
  pub verdict-reply :
      (little : Bool) (len flags seq code : ℕ) (rest : Bytes)
      → code < 2 ^ 31
      → verdict little k (reply little len flags seq code rest)
        ≡ (if code == 0 then ok tt else err (os_error code))
  unfolding verdict
  verdict-reply true len flags seq code rest h = ground (arith, negated code h)
  verdict-reply false len flags seq code rest h = ground (arith, negated code h)
