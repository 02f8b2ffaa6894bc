-- ===== src/Olm/Userspace/Ports.antt =====
-- The local ports that the userspace backend hands out.
use newt_rust.Common.{ℕ, zero, suc, ◌+◌, ◌%◌, ◌≤◌, ◌<◌, ◌≡◌, ◌≢◌, arith}
use newt_rust.Olm.Userspace.{first_port, alloc_port}

-- The next port after `n` calls.
pub after_calls : ℕ → ℕ
unfolding alloc_port
after_calls zero = first_port
after_calls (suc n) = (alloc_port (after_calls n)).1

after_calls-mod : (n : ℕ) → after_calls n ≡ 20000 + n % 40001
unfolding after_calls alloc_port
after_calls-mod zero = omega arith
after_calls-mod (suc n) = ground (arith, after_calls-mod n)

-- The ports that a backend hands out go through 20000 to 60000 in turn: the call behind `n` others
-- returns 20000 and the remainder of `n` by 40001.
pub alloc_port-after_calls :
    (n : ℕ)
    → ((alloc_port (after_calls n)).0 ≡ 20000 + n % 40001)
      × ((alloc_port (after_calls n)).0 ≤ 60000)
unfolding alloc_port
alloc_port-after_calls n = let port = after_calls-mod n in (port, omega (arith, port))

-- No two of 40001 calls in a row hand out the same port.
pub alloc_port-ne :
    (n k : ℕ)
    → n < k
    → k < n + 40001
    → (alloc_port (after_calls n)).0 ≢ (alloc_port (after_calls k)).0
alloc_port-ne n k later near same =
    absurd (omega (arith, (alloc_port-after_calls n).0, (alloc_port-after_calls k).0, same))
