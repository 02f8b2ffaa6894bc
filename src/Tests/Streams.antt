-- ===== src/Tests/Streams.antt =====
-- The shuttle on concrete input.
use newt_rust.Common.{◌<◌, ◌-◌, true, false, [], ◌∷◌, ◌++◌, ◌≡◌, refl, take, ltb, ltb→lt}
use newt_rust.Common.Net.{Bytes}
use newt_rust.Tunnel.Shuttle.{Streams, Flow, Bridge, chunk, move_bytes}

-- The bytes of the socket, those of the task, and the flow. The socket accepts two bytes at a time.
abbrev pub Pipe : Type 0
Pipe = Bytes × Bytes × Flow

pub has_room-flow : (w : Pipe) → ltb 0 w.2.room ≡ true → 0 < w.2.room
has_room-flow w h = ltb→lt 0 w.2.room h

abbrev pub pipe : Streams
pipe = record {
  World = Pipe;
  Handle = Unit;
  Conn = Unit;
  has_room = λ c w. ltb 0 w.2.room;
  can_recv = λ h w. true;
  recv = λ h w. (w.0, ([], w.1, record w.2 { taken = w.2.taken ++ w.0 }));
  send = λ c b w. (w.0, w.1, record w.2 { handed = w.2.handed ++ b; room = w.2.room - 1 });
  try_recv = λ c w. (chunk w.1, (w.0, [], record w.2 { pulled = w.2.pulled ++ w.1 }));
  can_send = λ h w. true;
  send_slice = λ h b w. (2, (w.0, w.1, record w.2 { written = w.2.written ++ take 2 b }));
  is_open = λ h w. true;
  close = λ h w. (w.0, w.1, record w.2 { closed = true });
  remove = λ h w. w;
  flow = λ h c w. w.2;
  has_room-flow = λ h c w. has_room-flow w;
  recv-flow = λ h c w. refl;
  send-flow = λ h c b w. refl;
  try_recv-flow = λ h c w. refl;
  send_slice-flow = λ h c b w. refl;
  close-flow = λ h c w. refl;
}

abbrev pub start : Pipe
start = (
  1 ∷ 2 ∷ 3 ∷ [],
  7 ∷ 8 ∷ 9 ∷ [],
  record { taken = 0 ∷ []; handed = 0 ∷ []; pulled = []; written = []; room = 4; closed = false },
)

abbrev bridge : Bridge pipe
bridge = record { conn = tt; pending = []; target_done = false }

-- Everything that the socket has is handed over, and one byte of the task stays pending.
leaves_one : (move_bytes pipe 5 tt bridge start).0.pending ≡ 9 ∷ []
unfolding move_bytes
leaves_one = refl
