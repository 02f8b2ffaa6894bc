-- ===== src/Transport/Messages/Assembled.antt =====
-- A message that comes in fragments, with control frames between them.
use newt_rust.Common.{
  ℕ, suc, ◌+◌, ◌≤◌, ◌≡◌, refl, sym, ◌∙◌, ap, true, false, List, [], ◌∷◌, ◌++◌, Option, some, length,
  arith, All, append_assoc,
}
use newt_rust.Common.Results.{Result, ok, err}
use newt_rust.Common.Io.{after, pure}
use newt_rust.Common.Net.{Bytes, IsByte}
use newt_rust.Transport.Frame.{max_frame, write_frame, read_frame}
use newt_rust.Transport.Frame.RoundTrip.{read_frame-write_frame}
use newt_rust.Transport.Messages.Returns.{recv-returns, recv-eq}
use newt_rust.Transport.Messages.{
  Wire, Channel, Header, Assembly, empty, begun, extended, returns, taken, complete, on_frame,
  go_on, recv_loop, recv, send,
}

-- What precedes the last fragment of a message: other fragments, and control frames.
pub data Item : Type 0 where
  part : Bytes → Item
  ping : Bytes → Item
  pong : Bytes → Item

-- The frames of a message whose next fragment has the given opcode: the other fragments have the opcode 0, and
-- the last has the final bit.
abbrev pub frames_of : ℕ → List Item → Bytes → List Header
frames_of opcode [] last = (true, opcode, last) ∷ []
frames_of opcode (part p ∷ items) last = (false, opcode, p) ∷ frames_of 0 items last
frames_of opcode (ping p ∷ items) last = (true, 9, p) ∷ frames_of opcode items last
frames_of opcode (pong p ∷ items) last = (true, 10, p) ∷ frames_of opcode items last

-- The content of the message.
abbrev pub content : List Item → Bytes → Bytes
content [] last = last
content (part p ∷ items) last = p ++ content items last
content (ping p ∷ items) last = content items last
content (pong p ∷ items) last = content items last

abbrev pub pings : List Item → List Bytes
pings [] = []
pings (part p ∷ items) = pings items
pings (ping p ∷ items) = p ∷ pings items
pings (pong p ∷ items) = pings items

-- The stream has these frames, and behind them the rest.
abbrev pub Holds : Bytes → List Header → Bytes → Type 0
Holds io [] rest = io ≡ rest
Holds io (frame ∷ frames) rest =
    (mid : Bytes) × (read_frame io ≡ ok (frame, mid)) × Holds mid frames rest

module _ {M : Type 0} (ch : Channel M) where
  open ch use {mask_at, accepts, to_bytes, from_bytes}

  -- The wire when each ping was answered by a pong with its payload.
  abbrev pub answered : List Bytes → Wire → Wire
  answered [] w = w
  answered (p ∷ ps) w = answered ps (record w {
    outgoing = w.outgoing ++ write_frame (mask_at w.writes) 10 p;
    writes = w.writes + 1;
  })

  -- the wire with the given bytes to be read
  abbrev pub at_rest : Bytes → Wire → Wire
  at_rest rest w = record w { incoming = rest }

  answered-at_rest :
      (ps : List Bytes) (rest : Bytes) (w : Wire)
      → answered ps (at_rest rest w) ≡ at_rest rest (answered ps w)
  answered-at_rest [] rest w = refl
  answered-at_rest (p ∷ ps) rest w = answered-at_rest ps rest _

  at_rest-answered :
      (ps : List Bytes) (mid rest : Bytes) (w : Wire)
      → at_rest rest (answered ps (at_rest mid w)) ≡ at_rest rest (answered ps w)
  at_rest-answered ps mid rest w = ap (at_rest rest) (answered-at_rest ps mid w)

  -- a message that is complete
  abbrev completed : ℕ → Assembly → Bytes → Wire → Option (Result (Option M) × Wire)
  completed fuel a text w =
      go_on ch (λ a'. recv_loop ch fuel a') (complete ch (record a { msg = a.msg ++ text }) w)

  one_round :
      (fuel : ℕ) (a : Assembly) (w : Wire) (frame : Header) (mid : Bytes)
      → read_frame w.incoming ≡ ok (frame, mid)
      → recv_loop ch (suc fuel) a w
        ≡ go_on ch (λ a'. recv_loop ch fuel a') (on_frame ch frame a (at_rest mid w))
  unfolding recv_loop
  one_round fuel a w frame mid h =
      ap (λ r. go_on ch (λ a'. recv_loop ch fuel a') (after (taken ch r w) (λ f. on_frame ch f a)))
        h

  part_round :
      (fuel opcode : ℕ) (a : Assembly) (w : Wire) (p mid : Bytes)
      → opcode ≤ 2
      → read_frame w.incoming ≡ ok ((false, opcode, p), mid)
      → recv_loop ch (suc fuel) a w
        ≡ recv_loop ch fuel (extended p (begun opcode a)) (at_rest mid w)
  part_round fuel opcode a w p mid small h = one_round fuel a w _ mid h ∙ ground arith

  ping_round :
      (fuel : ℕ) (a : Assembly) (w : Wire) (p mid : Bytes)
      → ((n : ℕ) → accepts n ≡ ok tt)
      → read_frame w.incoming ≡ ok ((true, 9, p), mid)
      → recv_loop ch (suc fuel) a w ≡ recv_loop ch fuel a (answered (p ∷ []) (at_rest mid w))
  ping_round fuel a w p mid sound h = one_round fuel a w _ mid h ∙ rw (sound w.writes) refl

  -- the fuel that the items take, on top of what is left behind them
  abbrev rounds : List Item → ℕ → ℕ
  rounds [] fuel = suc fuel
  rounds (i ∷ items) fuel = suc (rounds items fuel)

  -- All frames of a message, up to its completion.
  whole :
      (items : List Item) (fuel opcode : ℕ) (a : Assembly) (w : Wire) (last rest : Bytes)
      → opcode ≤ 2
      → ((n : ℕ) → accepts n ≡ ok tt)
      → Holds w.incoming (frames_of opcode items last) rest
      → recv_loop ch (rounds items fuel) a w
        ≡ completed fuel
            (begun opcode a)
            (content items last)
            (at_rest rest (answered (pings items) w))
  whole [] fuel opcode a w last rest small sound (mid, h, e) =
      one_round fuel a w _ mid h ∙ rw e (ground arith)
  whole (part p ∷ items) fuel opcode a w last rest small sound (mid, h, more) =
      let next = extended p (begun opcode a) in
      part_round (rounds items fuel) opcode a w p mid small h
      ∙ whole items fuel 0 next (at_rest mid w) last rest (omega arith) sound more
      ∙ ap
          (λ text.
            go_on ch (λ a'. recv_loop ch fuel a')
              (complete ch (record next { msg = text })
                (at_rest rest (answered (pings items) (at_rest mid w)))))
          (append_assoc (begun opcode a).msg p (content items last))
      ∙ ap (completed fuel (begun opcode a) (p ++ content items last))
          (at_rest-answered (pings items) mid rest w)
  whole (ping p ∷ items) fuel opcode a w last rest small sound (mid, h, more) =
      ping_round (rounds items fuel) a w p mid sound h
      ∙ whole items fuel opcode a (answered (p ∷ []) (at_rest mid w)) last rest small sound more
      ∙ ap (completed fuel (begun opcode a) (content items last))
          (at_rest-answered (pings items) mid rest (answered (p ∷ []) w))
  whole (pong p ∷ items) fuel opcode a w last rest small sound (mid, h, more) =
      one_round (rounds items fuel) a w _ mid h
      ∙ whole items fuel opcode a (at_rest mid w) last rest small sound more
      ∙ ap (completed fuel (begun opcode a) (content items last))
          (at_rest-answered (pings items) mid rest w)

  -- what `recv` makes of a text
  abbrev pub decoded : Result M → Result (Option M)
  decoded (err why) = err why
  decoded (ok m) = ok (some m)

  go_on-decoded :
      (r : Result M) (w : Wire) (next : Assembly → Wire → Option (Result (Option M) × Wire))
      → go_on ch next (after (r, w) (λ m. pure (returns (some m)))) ≡ some (decoded r, w)
  go_on-decoded (err why) w next = refl
  go_on-decoded (ok m) w next = refl

  -- A text message in any number of fragments, with pings and pongs between them, is received as a whole: `recv`
  -- returns what its content is decoded to, or the error of the decoder, leaves what follows the message to be
  -- read, and has answered each ping, in turn, by a pong with the payload of the ping. The writes succeed.
  pub recv-content :
      (items : List Item) (last rest : Bytes) (w : Wire)
      → ((n : ℕ) → accepts n ≡ ok tt)
      → Holds w.incoming (frames_of 1 items last) rest
      → recv ch w
        ≡ some (decoded (from_bytes (content items last)), at_rest rest (answered (pings items) w))
  recv-content items last rest w sound holds = recv-eq ch (rounds items 0) w (
      whole items 0 1 empty w last rest (omega arith) sound holds
      ∙ go_on-decoded (from_bytes (content items last)) _ _)

  -- A binary message in front is skipped, whatever its fragments hold: `recv` returns what it returns behind the
  -- message, where the pings among the fragments are answered. The writes succeed.
  pub recv_skips_binary :
      (items : List Item) (last rest : Bytes) (w : Wire)
      → ((n : ℕ) → accepts n ≡ ok tt)
      → Holds w.incoming (frames_of 2 items last) rest
      → recv ch w ≡ recv ch (at_rest rest (answered (pings items) w))
  recv_skips_binary items last rest w sound holds =
      let behind = at_rest rest (answered (pings items) w) in
      let (out, e) = recv-returns ch behind in
      let looped : recv_loop ch (suc (length rest)) empty behind ≡ some out = unfold recv in e in
      recv-eq ch (rounds items (suc (length rest))) w
        (whole items (suc (length rest)) 2 empty w last rest (omega arith) sound holds ∙ looped)
      ∙ sym e

  -- A message that one end sends is what the other end receives, if its bytes fit a frame, the other end decodes
  -- what the sender encoded, the mask has four bytes and the writes succeed. What follows the message is
  -- left to be read.
  pub recv-send :
      (m : M) (text rest : Bytes) (w peer : Wire)
      → to_bytes m ≡ ok text
      → from_bytes text ≡ ok m
      → ((n : ℕ) → accepts n ≡ ok tt)
      → length (mask_at w.writes) ≡ 4
      → All IsByte (mask_at w.writes)
      → All IsByte text
      → length text ≤ max_frame
      → (frame : Bytes) × (send ch m w
          ≡ (ok tt, record w { outgoing = w.outgoing ++ frame; writes = w.writes + 1 }))
        × (recv ch (at_rest (frame ++ rest) peer) ≡ some (ok (some m), at_rest rest peer))
  unfolding send
  recv-send m text rest w peer encoded same sound four mask bytes fits =
      let frame = write_frame (mask_at w.writes) 1 text in
      (
        frame,
        rw (encoded, sound w.writes) refl,
        recv-content [] text rest (at_rest (frame ++ rest) peer) sound (
          rest,
          read_frame-write_frame (mask_at w.writes) text rest 1 four mask bytes (omega arith) fits,
          refl,
        )
            ∙ ap (λ r. some (decoded r, at_rest rest peer)) same,
      )
