-- ===== src/Tunnel/Shuttle/Inward.antt =====
-- The loop over the bytes of a socket: it hands over what it takes, and comes to its end.
use newt_rust.Common.{
  ℕ, zero, suc, ◌-◌, ◌<◌, Bool, true, false, ◌&&◌, [], ◌∷◌, ◌++◌, ◌≡◌, refl, sym, ◌∙◌, ap, arith,
  Bool-cases, inl, inr, append_assoc, append-nil,
}
use newt_rust.Common.Net.{Bytes}
use newt_rust.Tunnel.Shuttle.{Streams, Flow, inward}

-- What one direction does to the flow: the same bytes leave the socket and reach the task.
pub record Inward (v v' : Flow) : Type 0 where
  pub got : Bytes
  pub taken : v'.taken ≡ v.taken ++ got
  pub handed : v'.handed ≡ v.handed ++ got
  pub pulled : v'.pulled ≡ v.pulled
  pub written : v'.written ≡ v.written
  pub closed : v'.closed ≡ v.closed

module _ (st : Streams) where
  open st use {World, Handle, Conn, has_room, can_recv, recv, send, flow}

  Inward-refl : (v : Flow) → Inward v v
  Inward-refl v = record {
    got = [];
    taken = sym (append-nil v.taken);
    handed = sym (append-nil v.handed);
    pulled = refl;
    written = refl;
    closed = refl;
  }

  Inward-next :
      (h : Handle) (c : Conn) (w w' : World)
      → Inward (flow h c (send c (recv h w).0 (recv h w).1)) (flow h c w')
      → Inward (flow h c w) (flow h c w')
  Inward-next h c w w' i =
      let bytes = (recv h w).0 in
      let read = st.recv-flow h c w in
      let sent = st.send-flow h c bytes (recv h w).1 in
      let taken : (flow h c (send c bytes (recv h w).1)).taken ≡ (flow h c w).taken ++ bytes =
        ap (λ (f : Flow). f.taken) sent ∙ ap (λ (f : Flow). f.taken) read in
      let handed : (flow h c (send c bytes (recv h w).1)).handed ≡ (flow h c w).handed ++ bytes =
        ap (λ (f : Flow). f.handed) sent ∙ ap (λ (f : Flow). f.handed ++ bytes) read in
      record {
        got = bytes ++ i.got;
        taken =
            i.taken
            ∙ ap (λ (x : Bytes). x ++ i.got) taken
            ∙ append_assoc (flow h c w).taken bytes i.got;
        handed =
            i.handed
            ∙ ap (λ (x : Bytes). x ++ i.got) handed
            ∙ append_assoc (flow h c w).handed bytes i.got;
        pulled = i.pulled ∙ ap (λ (f : Flow). f.pulled) sent ∙ ap (λ (f : Flow). f.pulled) read;
        written = i.written ∙ ap (λ (f : Flow). f.written) sent ∙ ap (λ (f : Flow). f.written) read;
        closed = i.closed ∙ ap (λ (f : Flow). f.closed) sent ∙ ap (λ (f : Flow). f.closed) read;
      }

  -- a call that read nothing
  Inward-nothing :
      (h : Handle) (c : Conn) (w : World)
      → (recv h w).0 ≡ []
      → Inward (flow h c w) (flow h c (recv h w).1)
  Inward-nothing h c w e =
      let read = st.recv-flow h c w in
      record {
        got = [];
        taken = ap (λ (f : Flow). f.taken) read ∙ ap (λ (x : Bytes). (flow h c w).taken ++ x) e;
        handed = ap (λ (f : Flow). f.handed) read ∙ sym (append-nil (flow h c w).handed);
        pulled = ap (λ (f : Flow). f.pulled) read;
        written = ap (λ (f : Flow). f.written) read;
        closed = ap (λ (f : Flow). f.closed) read;
      }

  -- one round that had room and something to read, by what it read
  round-Inward :
      (h : Handle) (c : Conn) (w w' : World) (bytes : Bytes)
      → (recv h w).0 ≡ bytes
      → Inward (flow h c (send c (recv h w).0 (recv h w).1)) (flow h c w')
      → Inward (flow h c w) (flow h c (elim bytes [ [] ↦ (recv h w).1 | x ∷ xs ↦ w' ]))
  round-Inward h c w w' [] e i = Inward-nothing h c w e
  round-Inward h c w w' (x ∷ xs) e i = Inward-next h c w w' i

  pub inward-Inward :
      (fuel : ℕ) (h : Handle) (c : Conn) (w : World)
      → Inward (flow h c w) (flow h c (inward st fuel h c w))
  unfolding inward
  inward-Inward zero h c w = Inward-refl (flow h c w)
  inward-Inward (suc fuel) h c w =
      let behind = send c (recv h w).0 (recv h w).1 in
      elim (Bool-cases (has_room c w && can_recv h w)) [
        | inl e ↦ rw e (
            round-Inward h c w (inward st fuel h c behind) (recv h w).0 refl
              (inward-Inward fuel h c behind))
        | inr e ↦ rw e (Inward-refl (flow h c w))
      ]

  room-next :
      (h : Handle) (c : Conn) (w : World)
      → (flow h c (send c (recv h w).0 (recv h w).1)).room ≡ (flow h c w).room - 1
  room-next h c w =
      ap (λ (f : Flow). f.room) (st.send-flow h c (recv h w).0 (recv h w).1)
      ∙ ap (λ (f : Flow). f.room - 1) (st.recv-flow h c w)

  and_left : (a b : Bool) → (a && b) ≡ true → a ≡ true
  and_left true b h = refl
  and_left false b h = cc

  -- The loop over a socket's bytes comes to its end within the room of the channel: with any fuel above
  -- the room, the world behind it is the same.
  pub inward_enough :
      (f g : ℕ) (h : Handle) (c : Conn) (w : World)
      → (flow h c w).room < f
      → (flow h c w).room < g
      → inward st f h c w ≡ inward st g h c w
  unfolding inward
  inward_enough zero g h c w hf hg = absurd (omega arith)
  inward_enough (suc f) zero h c w hf hg = absurd (omega arith)
  inward_enough (suc f) (suc g) h c w hf hg =
      let behind = send c (recv h w).0 (recv h w).1 in
      elim (Bool-cases (has_room c w && can_recv h w)) [
        | inl e ↦
            let room = st.has_room-flow h c w (and_left (has_room c w) (can_recv h w) e) in
            let less = room-next h c w in
            rw e (
              ap (λ (x : World). elim (recv h w).0 [ [] ↦ (recv h w).1 | y ∷ ys ↦ x ])
                (inward_enough f g h c behind (omega (arith, less, room))
                  (omega (arith, less, room))))
        | inr e ↦ rw e refl
      ]
