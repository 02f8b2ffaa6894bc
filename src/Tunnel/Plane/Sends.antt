-- ===== src/Tunnel/Plane/Sends.antt =====
-- Where the data plane of a site sends its datagrams.
use newt_rust.Common.{
  ℕ, zero, suc, ◌≡◌, refl, sym, ◌∙◌, ap, subst, List, [], ◌∷◌, ◌++◌, append_assoc, append-nil,
  Option, none, some, All, All-append,
}
use newt_rust.Common.Results.{Result, ok, err}
use newt_rust.Common.Io.{Io, forget, after, pure, ◌>>=◌}
use newt_rust.Common.Net.{Bytes, SocketAddr}
use newt_rust.Wg
use newt_rust.Wg.{Noise, Pump, Inbound, packet, network, nothing}
use newt_rust.Tunnel.Echo.{icmp_echo}
use newt_rust.Tunnel.Accept.{Host}
use newt_rust.Tunnel.Plane.{
  Udp, DataPlane, poll_stack, send_some, try_send, on_inbound, drain_loop, on_datagram,
  send_packets, run_timers, step_io, next_seq, send_ping,
}

abbrev Any : {A : Type 0} → A → Type 0
Any a = Unit {0}

abbrev pub IfOk : {A : Type 0} → (A → Type 0) → Result A → Type 0
IfOk P (err why) = Unit {0}
IfOk P (ok a) = P a

IfOk-Any : {A : Type 0} (r : Result A) → IfOk Any r
IfOk-Any (err why) = tt
IfOk-Any (ok a) = tt

module _ (udp : Udp) (to : SocketAddr) where
  open udp use {World, send_to, sent, send_to-sent}

  -- Between the two worlds, all that was sent went to this address.
  pub record SentTo (w w' : World) : Type 0 where
    pub datagrams : List (Bytes × SocketAddr)
    pub sent_all : sent w' ≡ sent w ++ datagrams
    pub addressed : All (λ (d : Bytes × SocketAddr). d.1 ≡ to) datagrams

  pub SentTo-eq : (w w' : World) → sent w' ≡ sent w → SentTo w w'
  SentTo-eq w w' h = record {
    datagrams = [];
    sent_all = h ∙ sym (append-nil (sent w));
    addressed = tt;
  }

  SentTo-trans : (w w1 w2 : World) → SentTo w w1 → SentTo w1 w2 → SentTo w w2
  SentTo-trans w w1 w2 a b = record {
    datagrams = a.datagrams ++ b.datagrams;
    sent_all =
        b.sent_all
        ∙ ap (λ s. s ++ b.datagrams) a.sent_all
        ∙ append_assoc (sent w) a.datagrams b.datagrams;
    addressed = All-append _ a.datagrams b.datagrams a.addressed b.addressed;
  }

  -- What a call sends goes to the address, whether it ends well or not, and a result has the property.
  pub record Sends {A : Type 0} (P : A → Type 0) (w : World) (r : Result A × World) : Type 0 where
    pub sends : SentTo w r.1
    pub result : IfOk P r.0

  Sends-pure : {A : Type 0} (P : A → Type 0) (a : A) (w : World) → P a → Sends P w (ok a, w)
  Sends-pure P a w h = record { sends = SentTo-eq w w refl; result = h }

  Sends-after :
      {A B : Type 0} (Q : A → Type 0) (P : B → Type 0) (w : World) (first : Result A × World)
      (next : A → Io World B)
      → Sends Q w first
      → ((a : A) (w1 : World) → Q a → Sends P w1 (next a w1))
      → Sends P w (after first next)
  Sends-after Q P w (err why, w1) next h keep = record { sends = h.sends; result = tt }
  Sends-after Q P w (ok a, w1) next h keep =
      let k = keep a w1 h.result in
      record { sends = SentTo-trans w w1 (next a w1).1 h.sends k.sends; result = k.result }

  send_to-Sends : (b : Bytes) (w : World) → Sends Any w (send_to b to w)
  send_to-Sends b w = record {
    sends = record {
      datagrams = (b, to) ∷ [];
      sent_all = send_to-sent b to w;
      addressed = (refl, tt);
    };
    result = IfOk-Any (send_to b to w).0;
  }

  forget-Sends :
      {A : Type 0} (w : World) (r : Result A × World) → Sends Any w r → Sends Any w (forget r)
  forget-Sends w (err why, w1) h = record { sends = h.sends; result = tt }
  forget-Sends w (ok a, w1) h = record { sends = h.sends; result = tt }

module _ (noise : Noise) (host : Host) (udp : Udp) (to : SocketAddr) where
  open udp use {World, send_to}

  send_some-Sends :
      (o : Option Bytes) (w : World) → Sends udp to Any w (send_some noise host udp o to w)
  send_some-Sends none w = Sends-pure udp to Any tt w tt
  send_some-Sends (some b) w = send_to-Sends udp to b w

  try_send-Sends :
      (o : Option Bytes) (w : World) → Sends udp to Any w (try_send noise host udp o to w)
  try_send-Sends none w = Sends-pure udp to Any tt w tt
  try_send-Sends (some b) w =
      Sends-after udp to Any Any w (forget (send_to b to w)) (λ o. pure tt)
        (forget-Sends udp to w (send_to b to w) (send_to-Sends udp to b w))
        (λ o w1 q. Sends-pure udp to Any tt w1 tt)

  try_at :
      (o : Option Bytes) (e : SocketAddr) (w : World)
      → e ≡ to
      → Sends udp to Any w (try_send noise host udp o e w)
  try_at o e w same =
      subst (λ e. Sends udp to Any w (try_send noise host udp o e w)) (sym same)
        (try_send-Sends o w)

  -- a data plane of the exit node at this address
  abbrev pub At : DataPlane noise host → Type 0
  At d = d.endpoint ≡ to

  on_inbound-Sends :
      (inb : Inbound) (d : DataPlane noise host) (w : World)
      → At d
      → Sends udp to At w (on_inbound noise host udp inb d w)
  unfolding on_inbound
  on_inbound-Sends (packet p) d w at = Sends-pure udp to At _ w at
  on_inbound-Sends (network b) d w at =
      Sends-after udp to Any At w (try_send noise host udp (some b) d.endpoint w) (λ u. pure d)
        (try_at (some b) d.endpoint w at) (λ u w1 q. Sends-pure udp to At d w1 at)
  on_inbound-Sends nothing d w at = Sends-pure udp to At _ w at

  drain_by-Sends :
      (inb : Inbound) (next : Io World (DataPlane noise host))
      (rest : DataPlane noise host → Io World (DataPlane noise host)) (w : World)
      → Sends udp to At w (next w)
      → ((d : DataPlane noise host) (w : World) → At d → Sends udp to At w (rest d w))
      → Sends udp to At w (
          (elim inb as (λ x. Io World (DataPlane noise host)) [
            | nothing ↦ next
            | packet p ↦ (do d' ← next; rest d')
            | network b ↦ (do d' ← next; rest d')
          ])
            w)
  drain_by-Sends nothing next rest w h keep = h
  drain_by-Sends (packet p) next rest w h keep = Sends-after udp to At At w (next w) rest h keep
  drain_by-Sends (network b) next rest w h keep = Sends-after udp to At At w (next w) rest h keep

  drain_loop-Sends :
      (fuel : ℕ) (d : DataPlane noise host) (w : World)
      → At d
      → Sends udp to At w (drain_loop noise host udp fuel d w)
  unfolding drain_loop
  drain_loop-Sends zero d w at = Sends-pure udp to At d w at
  drain_loop-Sends (suc fuel) d w at =
      let (pump, inb) = Wg.drain noise d.pump in
      drain_by-Sends inb (on_inbound noise host udp inb (record d { pump = pump }))
        (drain_loop noise host udp fuel) w (on_inbound-Sends inb (record d { pump = pump }) w at)
        (λ d' w'. drain_loop-Sends fuel d' w')

  on_datagram-Sends :
      (o : Option Bytes) (d : DataPlane noise host) (w : World)
      → At d
      → Sends udp to At w (on_datagram noise host udp o d w)
  unfolding on_datagram
  on_datagram-Sends none d w at = Sends-pure udp to At d w at
  on_datagram-Sends (some datagram) d w at =
      let (pump, inb) = Wg.decapsulate noise d.pump datagram in
      Sends-after udp to At At w (on_inbound noise host udp inb (record d { pump = pump }) w)
        (λ d'. drain_loop noise host udp (suc (noise.queued d'.pump.tun)) d')
        (on_inbound-Sends inb (record d { pump = pump }) w at)
        (λ d' w' at'. drain_loop-Sends (suc (noise.queued d'.pump.tun)) d' w' at')

  send_packets-Sends :
      (pkts : List Bytes) (d : DataPlane noise host) (w : World)
      → At d
      → Sends udp to At w (send_packets noise host udp pkts d w)
  unfolding send_packets
  send_packets-Sends [] d w at = Sends-pure udp to At d w at
  send_packets-Sends (pkt ∷ pkts) d w at =
      let (pump, dg) = Wg.encapsulate noise d.pump pkt in
      Sends-after udp to Any At w (try_send noise host udp dg d.endpoint w)
        (λ u. send_packets noise host udp pkts (record d { pump = pump }))
        (try_at dg d.endpoint w at)
        (λ u w1 q. send_packets-Sends pkts (record d { pump = pump }) w1 at)

  run_timers-Sends :
      (d : DataPlane noise host) (w : World)
      → At d
      → Sends udp to At w (run_timers noise host udp d w)
  unfolding run_timers
  run_timers-Sends d w at =
      let (pump, dg) = Wg.update_timers noise d.pump in
      Sends-after udp to Any At w (try_send noise host udp dg d.endpoint w)
        (λ u. pure (record d { pump = pump })) (try_at dg d.endpoint w at)
        (λ u w1 q. Sends-pure udp to At (record d { pump = pump }) w1 at)

  received-Sends : (n : ℕ) (w : World) → Sends udp to Any w (udp.recv_or_sleep n w)
  received-Sends n w = record {
    sends = SentTo-eq udp to w _ (udp.recv-sent n w);
    result = IfOk-Any (udp.recv_or_sleep n w).0;
  }

  step_io-At :
      (d : DataPlane noise host) (w : World) → At d → Sends udp to At w (step_io noise host udp d w)
  unfolding step_io
  step_io-At d w at =
      Sends-after udp to Any At w (udp.recv_or_sleep d.udp_buf w) _ (received-Sends d.udp_buf w)
        (λ got w1 q.
          Sends-after udp to At At w1 (on_datagram noise host udp got d w1) _
            (on_datagram-Sends got d w1 at)
            (λ d2 w2 at2.
              let polled = poll_stack noise host d2 in
              Sends-after udp to At At w2 (send_packets noise host udp polled.1 polled.0 w2) _
                (send_packets-Sends polled.1 polled.0 w2 at2)
                (λ d3 w3 at3.
                  Sends-after udp to At At w3 (run_timers noise host udp d3 w3) _
                    (run_timers-Sends d3 w3 at3) (λ d4 w4 at4. Sends-pure udp to At _ w4 at4))))

  send_ping-At :
      (d : DataPlane noise host) (w : World)
      → At d
      → Sends udp to At w (send_ping noise host udp d w)
  unfolding send_ping
  send_ping-At d w at =
      let seq = next_seq noise host udp d.ping_seq in
      let (pump, dg) = Wg.encapsulate noise d.pump (icmp_echo d.tunnel_ip4 d.server_ip 1 seq) in
      Sends-after udp to Any At w (send_some noise host udp dg d.endpoint w)
        (λ u. pure (record d { pump = pump; ping_seq = seq }))
        (subst (λ e. Sends udp to Any w (send_some noise host udp dg e w)) (sym at)
          (send_some-Sends dg w))
        (λ u w1 q. Sends-pure udp to At _ w1 at)

module _ (noise : Noise) (host : Host) (udp : Udp) where
  open udp use {World}

  -- Whatever is received and whatever the stack and the tunnel put out, a step of the data plane and its keepalive
  -- ping send datagrams to the exit node only, whether they end well or not, and leave the address of the
  -- exit node as it is.
  pub step_io-Sends :
      (d : DataPlane noise host) (w : World)
      → Sends udp d.endpoint (At noise host udp d.endpoint) w (step_io noise host udp d w)
        × Sends udp d.endpoint (At noise host udp d.endpoint) w (send_ping noise host udp d w)
  step_io-Sends d w = (
    step_io-At noise host udp d.endpoint d w refl,
    send_ping-At noise host udp d.endpoint d w refl,
  )
