-- ===== src/Proxy.antt =====
-- The task of a bridged connection (crates/newt/src/proxy.rs): between the channels of the tunnel loop and a TCP
-- stream. Which branch of the `select!` is ready is an input, with the results of the calls in it.
pub mod Passed
use newt_rust.Common.{ℕ, Bool, true, false, List, [], ◌∷◌, ◌++◌, Option, none, some, if◌then◌else◌}
use newt_rust.Common.Results.{Result, ok, err}
use newt_rust.Common.Net.{Bytes}

pub data Input : Type 0 where
  -- `to_target_rx.recv()`, and whether the stream was written without an error
  message : Option Bytes → Bool → Input
  -- `stream.read(..)`, of no bytes at the end, and whether the channel accepted them
  bytes_read : Result Bytes → Bool → Input

-- What the task has written to the stream, and the chunks that it has sent to the tunnel loop.
pub record Bridged : Type 0 where
  pub written : Bytes
  pub sent : List Bytes

-- Whether the loop goes on, by one branch. A write that fails counts as no byte.
pub step : Input → Bridged → Bool × Bridged
step (message none done) b = (false, b)
step (message (some chunk) done) b =
    (done, if done then record b { written = b.written ++ chunk } else b)
step (bytes_read (err why) done) b = (false, b)
step (bytes_read (ok []) done) b = (false, b)
step (bytes_read (ok (x ∷ xs)) done) b =
    (done, if done then record b { sent = b.sent ++ (x ∷ xs) ∷ [] } else b)

-- The loop over the inputs that come, and whether it goes on.
unfoldable pub bridge_loop : List Input → Bridged → Bool × Bridged
unfolding step
bridge_loop [] b = (true, b)
bridge_loop (i ∷ inputs) b =
    let (goes_on, b') = step i b in
    let rest = bridge_loop inputs b' in if goes_on then rest else (false, b')

abbrev pub nothing_passed : Bridged
nothing_passed = record { written = []; sent = [] }

-- The task of `bridge_stream`.
abbrev pub bridge_stream : List Input → Bool × Bridged
bridge_stream inputs = bridge_loop inputs nothing_passed

-- The task of `spawn_tcp`, by whether the target was connected to.
abbrev pub spawn_tcp : Bool → List Input → Bool × Bridged
spawn_tcp connected inputs = if connected then bridge_stream inputs else (false, nothing_passed)
