-- ===== src/Tunnel/Shuttle.antt =====
-- `shuttle` of crates/newt/src/tunnel.rs: bytes between the smoltcp socket of a connection and the channels of
-- its bridge task. The sockets and the channels are the parameter `Streams`.
pub mod Inward
pub mod Flows
use newt_rust.Common.{
  ℕ, zero, suc, ◌+◌, ◌-◌, ◌≤◌, ◌<◌, Bool, true, false, not, ◌&&◌, List, [], ◌∷◌, ◌++◌, Option, none,
  some, length, take, drop, if◌then◌else◌, ◌≡◌,
}
use newt_rust.Common.Net.{Bytes}

-- `try_recv` of a channel
pub data Pulled : Type 0 where
  chunk : Bytes → Pulled
  nothing_yet : Pulled
  disconnected : Pulled

abbrev pub data_of : Pulled → Bytes
data_of (chunk d) = d
data_of nothing_yet = []
data_of disconnected = []

-- What has passed a connection: the bytes taken from the socket and those handed to the task, the
-- bytes pulled from the task and those the socket accepted, the room left in the task's channel, and whether
-- the sending side of the socket was closed.
pub record Flow : Type 0 where
  pub taken : Bytes
  pub handed : Bytes
  pub pulled : Bytes
  pub written : Bytes
  pub room : ℕ
  pub closed : Bool

-- smoltcp's TCP sockets and tokio's bounded channels, with what they document: which bytes each call
-- passes on. A permit of `try_reserve` that is not used is released, so it is a test here.
pub record Streams : Type 1 where
  pub World : Type 0
  pub Handle : Type 0
  pub Conn : Type 0
  pub has_room : Conn → World → Bool
  pub can_recv : Handle → World → Bool
  -- all the bytes at hand; none on an error
  pub recv : Handle → World → Bytes × World
  pub send : Conn → Bytes → World → World
  pub try_recv : Conn → World → Pulled × World
  pub can_send : Handle → World → Bool
  -- how many bytes were accepted; 0 on an error
  pub send_slice : Handle → Bytes → World → ℕ × World
  pub is_open : Handle → World → Bool
  pub close : Handle → World → World
  pub remove : Handle → World → World
  pub flow : Handle → Conn → World → Flow
  pub has_room-flow :
      (h : Handle) (c : Conn) (w : World) → has_room c w ≡ true → 0 < (flow h c w).room
  pub recv-flow :
      (h : Handle) (c : Conn) (w : World)
      → flow h c (recv h w).1 ≡ record (flow h c w) { taken = (flow h c w).taken ++ (recv h w).0 }
  pub send-flow :
      (h : Handle) (c : Conn) (b : Bytes) (w : World)
      → flow h c (send c b w)
        ≡ record (flow h c w) { handed = (flow h c w).handed ++ b; room = (flow h c w).room - 1 }
  pub try_recv-flow :
      (h : Handle) (c : Conn) (w : World)
      → flow h c (try_recv c w).1
        ≡ record (flow h c w) { pulled = (flow h c w).pulled ++ data_of (try_recv c w).0 }
  pub send_slice-flow :
      (h : Handle) (c : Conn) (b : Bytes) (w : World)
      → flow h c (send_slice h b w).1
        ≡ record (flow h c w) { written = (flow h c w).written ++ take (send_slice h b w).0 b }
  pub close-flow :
      (h : Handle) (c : Conn) (w : World)
      → flow h c (close h w) ≡ record (flow h c w) { closed = true }

module _ (st : Streams) where
  open st use {
    World, Handle, Conn, has_room, can_recv, recv, send, try_recv, can_send, send_slice, is_open,
    close, remove,
  }

  pub record Bridge : Type 0 where
    pub conn : Conn
    pub pending : Bytes
    pub target_done : Bool

  -- smoltcp -> target; the fuel bounds the rounds
  pub inward : ℕ → Handle → Conn → World → World
  inward zero h c w = w
  inward (suc fuel) h c w =
      let (bytes, w1) = recv h w in
      let rest = inward fuel h c (send c bytes w1) in
      if has_room c w && can_recv h w then elim bytes [ [] ↦ w1 | x ∷ xs ↦ rest ] else w

  -- target -> smoltcp: a new chunk, when the last one is flushed
  pub pulled_by : Bridge → Pulled → Bridge
  pulled_by b (chunk d) = record b { pending = d }
  pulled_by b nothing_yet = b
  pulled_by b disconnected = record b { target_done = true }

  pub pull : Bridge → World → Bridge × World
  unfolding pulled_by
  pull b w = elim b.pending [
    | [] ↦ let (got, w') = try_recv b.conn w in (pulled_by b got, w')
    | x ∷ xs ↦ (b, w)
  ]

  -- what the socket accepts of it leaves the pending chunk
  pub flush : Handle → Bridge → World → Bridge × World
  flush h b w =
      let (sent, w') = send_slice h b.pending w in
      let flushed : Bridge × World = (record b { pending = drop sent b.pending }, w') in
      elim b.pending [ [] ↦ (b, w) | x ∷ xs ↦ if can_send h w then flushed else (b, w) ]

  abbrev pub is_flushed : Bytes → Bool
  is_flushed [] = true
  is_flushed (x ∷ xs) = false

  -- the half-close
  pub finish : Handle → Bridge → World → World
  finish h b w = if b.target_done && is_flushed b.pending && is_open h w then close h w else w

  -- the reaping of a closed socket, whose bridge is dropped
  pub reap : Handle → Bridge → World → Option Bridge × World
  reap h b w = if is_open h w then (some b, w) else (none, remove h w)

  -- One connection, up to its reaping.
  unfoldable pub move_bytes : ℕ → Handle → Bridge → World → Bridge × World
  unfolding inward pull flush finish
  move_bytes fuel h b w =
      let w1 = inward fuel h b.conn w in
      let (b2, w2) = pull b w1 in let (b3, w3) = flush h b2 w2 in (b3, finish h b3 w3)

  -- the loop over the connections; the fuel of each is the room of its channel and one more
  unfoldable pub shuttle : List (Handle × Bridge) → World → List (Handle × Bridge) × World
  unfolding move_bytes reap
  shuttle [] w = ([], w)
  shuttle ((h, b) ∷ conns) w =
      let (b', w1) = move_bytes (suc (st.flow h b.conn w).room) h b w in
      let (kept, w2) = reap h b' w1 in
      let (rest, w3) = shuttle conns w2 in (elim kept [ none ↦ rest | some k ↦ (h, k) ∷ rest ], w3)
