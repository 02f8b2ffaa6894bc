-- ===== src/Tests/Messages.antt =====
-- Control messages on concrete bytes. A message is its text.
use newt_rust.Common.{[], ◌∷◌, ◌++◌, ◌≡◌, refl, some, arith, codes, Option}
use newt_rust.Common.Results.{Result, ok}
use newt_rust.Common.Net.{Bytes}
use newt_rust.Transport.Frame.{write_frame, read_frame}
use newt_rust.Transport.Messages.{Wire, Channel, recv, send}
use newt_rust.Transport.Messages.Returns.{recv-returns}
use newt_rust.Transport.Messages.Assembled.{
  part, ping, pong, at_rest, answered, recv-content, recv_skips_binary, recv-send,
}

abbrev channel : Channel Bytes
channel = record {
  mask_at = λ n. 0 ∷ 0 ∷ 0 ∷ n ∷ [];
  accepts = λ n. ok tt;
  to_bytes = λ m. ok m;
  from_bytes = λ b. ok b;
}

-- `he`, a ping, `llo`, and a byte of the next frame.
abbrev stream : Bytes
stream = 1 ∷ 2 ∷ 104 ∷ 101 ∷ 137 ∷ 1 ∷ 9 ∷ 128 ∷ 3 ∷ 108 ∷ 108 ∷ 111 ∷ 129 ∷ []

abbrev wire : Wire
wire = record { incoming = stream; outgoing = []; writes = 5 }

recv_runs :
    recv channel wire
    ≡ some (
      ok (some (104 ∷ 101 ∷ 108 ∷ 108 ∷ 111 ∷ [])),
      record { incoming = 129 ∷ []; outgoing = 138 ∷ 129 ∷ 0 ∷ 0 ∷ 0 ∷ 5 ∷ 9 ∷ []; writes = 6 },
    )
unfolding recv read_frame write_frame
recv_runs = refl

recv-content_example :
    recv channel wire
    ≡ some (
      ok (some (104 ∷ 101 ∷ 108 ∷ 108 ∷ 111 ∷ [])),
      at_rest channel (129 ∷ []) (answered channel ((9 ∷ []) ∷ []) wire),
    )
unfolding read_frame
recv-content_example =
    recv-content channel (part (104 ∷ 101 ∷ []) ∷ ping (9 ∷ []) ∷ []) (108 ∷ 108 ∷ 111 ∷ [])
      (129 ∷ []) wire (λ n. refl) (_, refl, (_, refl, (_, refl, refl)))

-- A binary message of two fragments, with a pong between them.
abbrev binary : Wire
binary = record { incoming = 2 ∷ 1 ∷ 7 ∷ 138 ∷ 0 ∷ 128 ∷ 1 ∷ 7 ∷ stream; outgoing = []; writes = 0 }

recv_skips_binary_example : recv channel binary ≡ recv channel (at_rest channel stream binary)
unfolding read_frame
recv_skips_binary_example =
    recv_skips_binary channel (part (7 ∷ []) ∷ pong [] ∷ []) (7 ∷ []) stream binary (λ n. refl)
      (_, refl, (_, refl, (_, refl, refl)))

recv-returns_example :
    (out : Result (Option Bytes) × Wire) × (recv channel (at_rest channel (143 ∷ 0 ∷ []) wire)
      ≡ some out)
recv-returns_example = recv-returns channel (at_rest channel (143 ∷ 0 ∷ []) wire)

recv-send_example :
    (frame : Bytes) × (send channel (codes "hi") wire
      ≡ (ok tt, record wire { outgoing = [] ++ frame; writes = 6 }))
    × (recv channel (at_rest channel (frame ++ stream) binary)
        ≡ some (ok (some (codes "hi")), at_rest channel stream binary))
recv-send_example =
    recv-send channel (codes "hi") (codes "hi") stream wire binary refl refl (λ n. refl) refl
      (omega arith) (omega arith) (omega arith)
