-- ===== src/Tunnel/Shuttle/Flows.antt =====
-- What a round of the shuttle passes on: every byte, once and in order.
use newt_rust.Common.{Bool, true, [], ◌++◌, ◌≡◌, ◌⊎◌}
use newt_rust.Common.Net.{Bytes}
use newt_rust.Tunnel.Shuttle.{Streams, Flow}
use newt_rust.Tunnel.Shuttle.Inward.{Inward}

-- From one flow to the next of a connection whose pending chunk goes from `p` to `p'`: bytes that left
-- the socket reached the task, and bytes that left the task reached the socket or are pending, each
-- behind those before them. The sending side of the socket is closed in between only if the task is done, so
-- that no more comes from it, and nothing is pending.
pub record Passes (v v' : Flow) (p p' : Bytes) (done : Bool) : Type 0 where
  got : Bytes
  taken : v'.taken ≡ v.taken ++ got
  handed : v'.handed ≡ v.handed ++ got
  more : Bytes
  pulled : v'.pulled ≡ v.pulled ++ more
  written : v'.written ++ p' ≡ v.written ++ (p ++ more)
  closes : (v'.closed ≡ v.closed) ⊎ ((done ≡ true) × (p' ≡ []))

module _ (st : Streams) where
  open st use {World, Handle, Conn, flow}

  -- What the other direction does to the flow, and to the pending chunk.
  record Outward (v v' : Flow) (p p' : Bytes) : Type 0 where
    same_taken : v'.taken ≡ v.taken
    same_handed : v'.handed ≡ v.handed
    more : Bytes
    pulled : v'.pulled ≡ v.pulled ++ more
    written : v'.written ++ p' ≡ v.written ++ (p ++ more)
    same_closed : v'.closed ≡ v.closed

  -- What the half-close does.
  record Finished (v v' : Flow) (p : Bytes) (done : Bool) : Type 0 where
    same_bytes :
        (v'.taken ≡ v.taken)
        × (v'.handed ≡ v.handed)
        × (v'.pulled ≡ v.pulled)
        × (v'.written ≡ v.written)
    closes : (v'.closed ≡ v.closed) ⊎ ((done ≡ true) × (p ≡ []))
