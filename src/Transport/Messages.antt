-- ===== src/Transport/Messages.antt =====
-- The messages of the control channel (`send`, `recv` and the writes of `write_frame` in
-- crates/newt/src/transport/ws.rs), over the codec of Transport/Frame.
pub mod Returns
pub mod Assembled
use newt_rust.Common.{
  ℕ, zero, suc, ◌+◌, Bool, true, false, List, [], ◌∷◌, ◌++◌, Option, none, some, length, leb, ◌==◌,
  if◌then◌else◌, codes,
}
use newt_rust.Common.Results.{Result, ok, err}
use newt_rust.Common.Io.{Io, pure, lift, ◌>>=◌, ◌>>◌}
use newt_rust.Common.Net.{Bytes}
use newt_rust.Transport.Frame.{write_frame, read_frame}

-- The bytes that are still to be read, those that were sent, and how often a frame was written.
pub record Wire : Type 0 where
  pub incoming : Bytes
  pub outgoing : Bytes
  pub writes : ℕ

-- What is not part of the program: the random masks and the success of the writes, both by the number
-- of the write, and the codec of serde_json.
pub record Channel (M : Type 0) : Type 0 where
  pub mask_at : ℕ → Bytes
  pub accepts : ℕ → Result (Unit {0})
  pub to_bytes : M → Result Bytes
  pub from_bytes : Bytes → Result M

abbrev pub Header : Type 0
Header = Bool × ℕ × Bytes

-- The fragments of a message so far.
pub record Assembly : Type 0 where
  pub msg : Bytes
  pub msg_is_text : Bool

-- How a round of the loop ends.
pub data Round (M : Type 0) : Type 0 where
  again : Assembly → Round M
  returns : Option M → Round M

abbrev pub empty : Assembly
empty = record { msg = []; msg_is_text = false }

-- `clear` and the kind of the message, where a frame starts one
abbrev pub begun : ℕ → Assembly → Assembly
begun opcode a =
    if opcode == 1
    then record { msg = []; msg_is_text = true }
    else if opcode == 2
    then record { msg = []; msg_is_text = false }
    else a

abbrev pub extended : Bytes → Assembly → Assembly
extended payload a = record a { msg = a.msg ++ payload }

module _ {M : Type 0} (ch : Channel M) where
  open ch use {mask_at, accepts, to_bytes, from_bytes}

  abbrev pub written : Result (Unit {0}) → Bytes → Wire → Result (Unit {0}) × Wire
  written (err why) frame w = (err why, record w { writes = w.writes + 1 })
  written (ok u) frame w =
      (ok tt, record w { outgoing = w.outgoing ++ frame; writes = w.writes + 1 })

  -- `write_frame` on the wire
  abbrev pub write : ℕ → Bytes → Io Wire (Unit {0})
  write opcode payload w =
      written (accepts w.writes) (write_frame (mask_at w.writes) opcode payload) w

  unfoldable pub send : M → Io Wire (Unit {0})
  send m = do text ← lift (to_bytes m); write 1 text

  abbrev pub taken : Result (Header × Bytes) → Wire → Result Header × Wire
  taken (err why) w = (err why, w)
  taken (ok (frame, rest)) w = (ok frame, record w { incoming = rest })

  -- `read_frame` on the wire
  abbrev pub read : Io Wire Header
  read w = taken (read_frame w.incoming) w

  -- a message at its end
  abbrev pub complete : Assembly → Io Wire (Round M)
  complete a =
      if a.msg_is_text
      then (do m ← lift (from_bytes a.msg); pure (returns (some m)))
      else pure (again (record a { msg = [] }))

  abbrev pub on_data : Bool → Assembly → Io Wire (Round M)
  on_data fin a = if fin then complete a else pure (again a)

  -- the match on the opcode
  abbrev pub on_frame : Header → Assembly → Io Wire (Round M)
  on_frame (fin, opcode, payload) a =
      if opcode == 9
      then (do write 10 payload; pure (again a))
      else if opcode == 10
      then pure (again a)
      else if opcode == 8
      then pure (returns none)
      else if leb opcode 2
      then on_data fin (extended payload (begun opcode a))
      else lift (err (codes "unknown websocket opcode"))

  abbrev pub round : Assembly → Io Wire (Round M)
  round a = do frame ← read; on_frame frame a

  -- What the loop does after a round; `none` where its fuel ran out.
  abbrev pub go_on :
      (Assembly → Wire → Option (Result (Option M) × Wire))
      → Result (Round M) × Wire
      → Option (Result (Option M) × Wire)
  go_on next (err why, w) = some (err why, w)
  go_on next (ok (again a), w) = next a w
  go_on next (ok (returns m), w) = some (ok m, w)

  -- The loop of `recv`; the fuel bounds its rounds.
  pub recv_loop : ℕ → Assembly → Wire → Option (Result (Option M) × Wire)
  recv_loop zero a w = none
  recv_loop (suc fuel) a w = go_on (λ a'. recv_loop fuel a') (round a w)

  -- Each round takes bytes of the stream.
  unfoldable pub recv : Wire → Option (Result (Option M) × Wire)
  unfolding recv_loop
  recv w = recv_loop (suc (length w.incoming)) empty w
