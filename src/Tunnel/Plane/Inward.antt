-- ===== src/Tunnel/Plane/Inward.antt =====
-- What the data plane of a site does with a datagram.
use newt_rust.Common.{
  ℕ, zero, suc, ◌<◌, ◌≡◌, refl, sym, ◌∙◌, ap, subst, List, [], ◌∷◌, ◌++◌, append_assoc, append-nil,
  some, arith,
}
use newt_rust.Common.Results.{Result, ok, err}
use newt_rust.Common.Io.{Io, ◌>>=◌, forget, after, pure}
use newt_rust.Common.Net.{Bytes, SocketAddr}
use newt_rust.Wg
use newt_rust.Wg.{Noise, Pump, Inbound, packet, network, nothing}
use newt_rust.Olm.Router.{Out, to_host, to_net}
use newt_rust.Olm.Router.Datagrams.{Drains, ends, delivers, answers, drain-queued}
use newt_rust.Tunnel.Accept.{Host}
use newt_rust.Tunnel.Plane.{Udp, DataPlane, on_inbound, drain_loop, on_datagram}

-- The packets for the host, and the bytes for the network with where they go.
abbrev pub packets : List Out → List Bytes
packets [] = []
packets (to_host p ∷ out) = p ∷ packets out
packets (to_net b to ∷ out) = packets out

abbrev pub replies : List Out → List (Bytes × SocketAddr)
replies [] = []
replies (to_host p ∷ out) = replies out
replies (to_net b to ∷ out) = (b, to) ∷ replies out

-- one inbound result
abbrev pub out_of : Inbound → SocketAddr → List Out
out_of (packet p) to = to_host p ∷ []
out_of (network b) to = to_net b to ∷ []
out_of nothing to = []

packets-append : (a b : List Out) → packets (a ++ b) ≡ packets a ++ packets b
packets-append [] b = refl
packets-append (to_host p ∷ a) b = ap (λ t. p ∷ t) (packets-append a b)
packets-append (to_net x to ∷ a) b = packets-append a b

replies-append : (a b : List Out) → replies (a ++ b) ≡ replies a ++ replies b
replies-append [] b = refl
replies-append (to_host p ∷ a) b = replies-append a b
replies-append (to_net x to ∷ a) b = ap (λ t. (x, to) ∷ t) (replies-append a b)

module _ (noise : Noise) (host : Host) (udp : Udp) where
  open udp use {World, send_to, sent, send_to-sent}

  abbrev Plane : Type 0
  Plane = DataPlane noise host

  -- The data plane and the world, when these were delivered.
  pub record Delivered (d : Plane) (w : World) (pump : Pump noise.Tunn) (out : List Out)
      (r : Result Plane × World) : Type 0 where
    pub world : World
    pub returned : r ≡ (ok (record d { pump = pump; rx = d.rx ++ packets out }), world)
    pub replied : sent world ≡ sent w ++ replies out

  forget-world : {A : Type 0} (r : Result A × World) → (forget r).1 ≡ r.1
  forget-world (err why, w) = refl
  forget-world (ok a, w) = refl

  -- a reply, whose error is dropped
  replied_to :
      (r : Result (Unit {0}) × World) (d : Plane) (w : World) (b : Bytes) (to : SocketAddr)
      → sent r.1 ≡ sent w ++ (b, to) ∷ []
      → Delivered d w d.pump
          (to_net b to ∷ [])
          (after (after (forget r) (λ o. pure tt)) (λ u. pure d))
  replied_to (err why, w1) d w b to h = record {
    world = w1;
    returned = λ i. (ok (record d { rx = sym (append-nil d.rx) i }), w1);
    replied = h;
  }
  replied_to (ok u, w1) d w b to h = record {
    world = w1;
    returned = λ i. (ok (record d { rx = sym (append-nil d.rx) i }), w1);
    replied = h;
  }

  on_inbound-Delivered :
      (inb : Inbound) (d : Plane) (w : World)
      → Delivered d w d.pump (out_of inb d.endpoint) (on_inbound noise host udp inb d w)
  unfolding on_inbound
  on_inbound-Delivered (packet p) d w = record {
    world = w;
    returned = refl;
    replied = sym (append-nil (sent w));
  }
  on_inbound-Delivered (network b) d w =
      replied_to (send_to b d.endpoint w) d w b d.endpoint (send_to-sent b d.endpoint w)
  on_inbound-Delivered nothing d w = record {
    world = w;
    returned = λ i. (ok (record d { rx = sym (append-nil d.rx) i }), w);
    replied = sym (append-nil (sent w));
  }

  -- the data plane with the pump and the packets
  abbrev holding : Plane → Pump noise.Tunn → List Out → Plane
  holding d pump out = record d { pump = pump; rx = d.rx ++ packets out }

  Delivered-after :
      (d : Plane) (w : World) (p1 p2 : Pump noise.Tunn) (out more : List Out)
      (first : Result Plane × World) (next : Plane → World → Result Plane × World)
      (h : Delivered d w p1 out first)
      → Delivered (holding d p1 out) h.world p2 more (next (holding d p1 out) h.world)
      → Delivered d w p2 (out ++ more) (after first next)
  Delivered-after d w p1 p2 out more first next h k = record {
    world = k.world;
    returned =
        ap (λ r. after r next) h.returned
        ∙ k.returned
        ∙ ap (λ rx. (ok (record d { pump = p2; rx = rx }), k.world))
            (append_assoc d.rx (packets out) (packets more)
              ∙ ap (λ t. d.rx ++ t) (sym (packets-append out more)));
    replied =
        k.replied
        ∙ ap (λ t. t ++ replies more) h.replied
        ∙ append_assoc (sent w) (replies out) (replies more)
        ∙ ap (λ t. sent w ++ t) (sym (replies-append out more));
  }

  -- The loop from this state: what it puts out, and that it ends by its own test.
  record Drained (d : Plane) (w : World) (r : Result Plane × World) : Type 0 where
    pump : Pump noise.Tunn
    out : List Out
    drains : Drains noise d.endpoint d.pump pump out
    delivered : Delivered d w pump out r

  -- The pump before does not matter.
  Delivered-pump :
      (d : Plane) (w : World) (p q : Pump noise.Tunn) (out : List Out) (r : Result Plane × World)
      → Delivered (record d { pump = p }) w q out r
      → Delivered d w q out r
  Delivered-pump d w p q out r h = record {
    world = h.world;
    returned = h.returned;
    replied = h.replied;
  }

  abbrev Rest : ℕ → Type 0
  Rest fuel =
      (d : Plane) (w : World)
      → noise.queued d.pump.tun < fuel
      → Drained d w (drain_loop noise host udp fuel d w)

  -- a round with a result, and the rest of the loop
  goes_on :
      (fuel : ℕ) (d : Plane) (w : World) (p : Pump noise.Tunn) (inb : Inbound) (o : Out)
      → out_of inb d.endpoint ≡ o ∷ []
      → ((q : Pump noise.Tunn) (out : List Out)
          → Drains noise d.endpoint p q out
          → Drains noise d.endpoint d.pump q (o ∷ out))
      → noise.queued p.tun < fuel
      → Rest fuel
      → Drained d w (
          after
            (on_inbound noise host udp inb (record d { pump = p }) w)
            (drain_loop noise host udp fuel))
  goes_on fuel d w p inb o same step bound rest =
      let d1 = record d { pump = p } in
      let h : Delivered d1 w p (o ∷ []) (on_inbound noise host udp inb d1 w) =
        subst (λ out. Delivered d1 w p out (on_inbound noise host udp inb d1 w)) same
          (on_inbound-Delivered inb d1 w) in
      let more = rest (holding d1 p (o ∷ [])) h.world bound in
      record {
        pump = more.pump;
        out = o ∷ more.out;
        drains = step more.pump more.out more.drains;
        delivered = Delivered-pump d w p more.pump (o ∷ more.out) _ (
            Delivered-after d1 w p more.pump (o ∷ []) more.out (on_inbound noise host udp inb d1 w)
              (drain_loop noise host udp fuel) h more.delivered);
      }

  -- one round, by what `drain` returned
  round_by : ℕ → Plane → Pump noise.Tunn × Inbound → Io World Plane
  round_by fuel d (pump, inb) =
      let next = on_inbound noise host udp inb (record d { pump = pump }) in
      elim inb [
        | nothing ↦ next
        | packet p ↦ (do d' ← next; drain_loop noise host udp fuel d')
        | network b ↦ (do d' ← next; drain_loop noise host udp fuel d')
      ]

  unrolled :
      (fuel : ℕ) (d : Plane) (p : Pump noise.Tunn) (inb : Inbound)
      → Wg.drain noise d.pump ≡ (p, inb)
      → drain_loop noise host udp (suc fuel) d ≡ round_by fuel d (p, inb)
  unfolding drain_loop round_by
  unrolled fuel d p inb e = ap (round_by fuel d) e

  one_round :
      (fuel : ℕ) (d : Plane) (w : World) (p : Pump noise.Tunn) (inb : Inbound)
      → Wg.drain noise d.pump ≡ (p, inb)
      → noise.queued d.pump.tun < suc fuel
      → Rest fuel
      → Drained d w (round_by fuel d (p, inb) w)
  unfolding round_by
  one_round fuel d w p nothing e bound rest = record {
    pump = p;
    out = [];
    drains = ends e;
    delivered =
        Delivered-pump d w p p [] _ (on_inbound-Delivered nothing (record d { pump = p }) w);
  }
  one_round fuel d w p (packet b) e bound rest =
      goes_on fuel d w p (packet b) (to_host b) refl (λ q out. delivers b e)
        (omega (arith, drain-queued noise d.pump p (packet b) e (λ x. cc))) rest
  one_round fuel d w p (network b) e bound rest =
      goes_on fuel d w p (network b) (to_net b d.endpoint) refl (λ q out. answers b e)
        (omega (arith, drain-queued noise d.pump p (network b) e (λ x. cc))) rest

  drain_loop-Drained : (fuel : ℕ) → Rest fuel
  drain_loop-Drained zero d w h = absurd (omega arith)
  drain_loop-Drained (suc fuel) d w h =
      let (p, inb) = Wg.drain noise d.pump in
      subst (λ m. Drained d w (m w)) (sym (unrolled fuel d p inb refl))
        (one_round fuel d w p inb refl h (drain_loop-Drained fuel))

  -- What a datagram leads to: the result of its decryption, and those of the loop over `drain` behind it.
  pub record Handled (d : Plane) (w : World) (datagram : Bytes) (r : Result Plane × World)
      : Type 0 where
    pub pump : Pump noise.Tunn
    pub out : List Out
    pub drains : Drains noise d.endpoint (Wg.decapsulate noise d.pump datagram).0 pump out
    pub delivered :
        Delivered d w pump (out_of (Wg.decapsulate noise d.pump datagram).1 d.endpoint ++ out) r

  -- A datagram is decrypted, the tunnel's queue is flushed to its end, every packet that comes of it stands in
  -- the queue of the stack, in order, and the replies are sent to the exit node, in order; nothing else changes,
  -- and no error of a send ends the step.
  pub on_datagram-Handled :
      (d : Plane) (w : World) (datagram : Bytes)
      → Handled d w datagram (on_datagram noise host udp (some datagram) d w)
  unfolding on_datagram
  on_datagram-Handled d w datagram =
      let (p, inb) = Wg.decapsulate noise d.pump datagram in
      let d1 = record d { pump = p } in
      let h = on_inbound-Delivered inb d1 w in
      let next : Plane → World → Result Plane × World =
        λ d' w'. drain_loop noise host udp (suc (noise.queued d'.pump.tun)) d' w' in
      let d2 = holding d1 p (out_of inb d.endpoint) in
      let more = drain_loop-Drained (suc (noise.queued p.tun)) d2 h.world (omega arith) in
      record {
        pump = more.pump;
        out = more.out;
        drains = more.drains;
        delivered = Delivered-pump d w p more.pump (out_of inb d.endpoint ++ more.out) _ (
            Delivered-after d1 w p more.pump (out_of inb d.endpoint) more.out
              (on_inbound noise host udp inb d1 w) next h more.delivered);
      }
