-- ===== src/Transport/Messages/Returns.antt =====
-- `recv` comes to an end on every stream.
use newt_rust.Common.{
  ℕ, zero, suc, ◌+◌, ◌≤◌, ◌<◌, ◌≡◌, refl, sym, ◌∙◌, Bool, true, false, Option, some, length, arith,
  leb, ◌==◌, ap, if◌then◌else◌,
}
use newt_rust.Common.Results.{Result, ok, err}
use newt_rust.Common.Io.{Io, after, pure, after-eq-ok}
use newt_rust.Common.Net.{Bytes}
use newt_rust.Transport.Frame.Limits.{read_frame-le}
use newt_rust.Transport.Messages.{
  Wire, Channel, Header, Assembly, empty, begun, extended, Round, again, returns, written, taken,
  read, on_frame, round, go_on, recv_loop, recv,
}

module _ {M : Type 0} (ch : Channel M) where
  open ch use {mask_at, accepts, from_bytes}

  written-incoming :
      (sent : Result (Unit {0})) (frame : Bytes) (w : Wire)
      → (written ch sent frame w).1.incoming ≡ w.incoming
  written-incoming (err why) frame w = refl
  written-incoming (ok u) frame w = refl

  -- a call that reads nothing
  abbrev KeepsInput : Io Wire (Round M) → Wire → Type 0
  KeepsInput m w = (m w).1.incoming ≡ w.incoming

  if-KeepsInput :
      (test : Bool) (m k : Io Wire (Round M)) (w : Wire)
      → KeepsInput m w
      → KeepsInput k w
      → KeepsInput (if test then m else k) w
  if-KeepsInput true m k w hm hk = hm
  if-KeepsInput false m k w hm hk = hk

  after-incoming :
      (r : Result (Unit {0}) × Wire) (a : Assembly) {before : Bytes}
      → r.1.incoming ≡ before
      → (after r (λ _. pure {A = Round M} (again a))).1.incoming ≡ before
  after-incoming (err why, w) a h = h
  after-incoming (ok u, w) a h = h

  decoded-incoming :
      (r : Result M) (w : Wire)
      → (after (r, w) (λ m. pure {A = Round M} (returns (some m)))).1.incoming ≡ w.incoming
  decoded-incoming (err why) w = refl
  decoded-incoming (ok m) w = refl

  pub on_frame-incoming :
      (frame : Header) (a : Assembly) (w : Wire) → KeepsInput (on_frame ch frame a) w
  on_frame-incoming (fin, opcode, payload) a w =
      let next = extended payload (begun opcode a) in
      if-KeepsInput (opcode == 9) _ _ w
        (after-incoming _ a (written-incoming (accepts w.writes) _ w))
        (if-KeepsInput (opcode == 10) _ _ w refl (
          if-KeepsInput (opcode == 8) _ _ w refl (
            if-KeepsInput (leb opcode 2) _ _ w
              (if-KeepsInput fin _ _ w
                (if-KeepsInput next.msg_is_text _ _ w (decoded-incoming (from_bytes next.msg) w)
                  refl)
                refl)
              refl)))

  taken-ok :
      (r : Result (Header × Bytes)) (w : Wire) {frame : Header} {w1 : Wire}
      → taken ch r w ≡ (ok frame, w1)
      → r ≡ ok (frame, w1.incoming)
  taken-ok (err why) w h = ground arith
  taken-ok (ok (f, rest)) w h = ground arith

  -- A round that does not end the loop has taken a frame from the stream.
  round-lt :
      (a : Assembly) (w : Wire) {a' : Assembly} {w' : Wire}
      → round ch a w ≡ (ok (again a'), w')
      → length w'.incoming < length w.incoming
  round-lt a w {a'} {w'} h =
      let (frame, w1, got, rest) = after-eq-ok (read ch w) (λ f. on_frame ch f a) h in
      let same : w'.incoming ≡ w1.incoming =
        ap (λ (p : Result (Round M) × Wire). p.1.incoming) (sym rest)
        ∙ on_frame-incoming frame a w1 in
      omega (
        arith,
        ap length same,
        read_frame-le w.incoming frame.2 w1.incoming frame.0 frame.1 (taken-ok _ w got),
      )

  go_on-returns :
      (next : Assembly → Wire → Option (Result (Option M) × Wire)) (r : Result (Round M) × Wire)
      → ((a : Assembly) (w : Wire)
          → r ≡ (ok (again a), w)
          → (out : Result (Option M) × Wire) × (next a w ≡ some out))
      → (out : Result (Option M) × Wire) × (go_on ch next r ≡ some out)
  go_on-returns next (err why, w) ends = ((err why, w), refl)
  go_on-returns next (ok (again a), w) ends = ends a w refl
  go_on-returns next (ok (returns m), w) ends = ((ok m, w), refl)

  recv_loop-returns :
      (fuel : ℕ) (a : Assembly) (w : Wire)
      → length w.incoming < fuel
      → (out : Result (Option M) × Wire) × (recv_loop ch fuel a w ≡ some out)
  unfolding recv_loop
  recv_loop-returns zero a w h = absurd (omega arith)
  recv_loop-returns (suc fuel) a w h =
      go_on-returns (λ a'. recv_loop ch fuel a') (round ch a w)
        (λ a' w' e. recv_loop-returns fuel a' w' (omega (arith, round-lt a w e)))

  -- More fuel gives the same result.
  go_on_mono :
      (next more : Assembly → Wire → Option (Result (Option M) × Wire))
      (r : Result (Round M) × Wire) {out : Result (Option M) × Wire}
      → ((a : Assembly) (w : Wire) → next a w ≡ some out → more a w ≡ some out)
      → go_on ch next r ≡ some out
      → go_on ch more r ≡ some out
  go_on_mono next more (err why, w) keep h = h
  go_on_mono next more (ok (again a), w) keep h = keep a w h
  go_on_mono next more (ok (returns m), w) keep h = h

  recv_loop_mono :
      (fuel more : ℕ) (a : Assembly) (w : Wire) {out : Result (Option M) × Wire}
      → fuel ≤ more
      → recv_loop ch fuel a w ≡ some out
      → recv_loop ch more a w ≡ some out
  unfolding recv_loop
  recv_loop_mono zero more a w le h = cc
  recv_loop_mono (suc fuel) zero a w le h = absurd (omega arith)
  recv_loop_mono (suc fuel) (suc more) a w le h =
      go_on_mono (λ a'. recv_loop ch fuel a') (λ a'. recv_loop ch more a') (round ch a w)
        (λ a' w' e. recv_loop_mono fuel more a' w' (omega arith) e) h

  -- `recv` returns on every stream: a message, the end of the connection or an error.
  pub recv-returns : (w : Wire) → (out : Result (Option M) × Wire) × (recv ch w ≡ some out)
  unfolding recv
  recv-returns w = recv_loop-returns (suc (length w.incoming)) empty w (omega arith)

  -- What the loop returns with any fuel is what `recv` returns.
  pub recv-eq :
      (fuel : ℕ) (w : Wire) {out : Result (Option M) × Wire}
      → recv_loop ch fuel empty w ≡ some out
      → recv ch w ≡ some out
  recv-eq fuel w {out} h =
      let (found, e) = recv-returns w in
      let one = recv_loop_mono fuel (fuel + suc (length w.incoming)) empty w (omega arith) h in
      let other : recv_loop ch (fuel + suc (length w.incoming)) empty w ≡ some found =
        recv_loop_mono (suc (length w.incoming)) (fuel + suc (length w.incoming)) empty w
          (omega arith) (unfold recv in e) in
      let same : some found ≡ some out = sym other ∙ one in e ∙ same
