-- ===== src/Netstack/Queues.antt =====
-- The queues of the device.
use newt_rust.Common.{◌≡◌, refl, sym, ◌∙◌, ap, List, [], ◌∷◌, ◌++◌, append_assoc, append-nil, ℕ}
use newt_rust.Common.Net.{Bytes}
use newt_rust.Netstack.{
  VirtualDevice, receive, consume, Call, receives, transmits, run_calls, Smoltcp, Stack, poll,
}

-- the packets that the calls send
abbrev pub transmitted : List Call → List Bytes
transmitted [] = []
transmitted (receives ∷ calls) = transmitted calls
transmitted (transmits buf ∷ calls) = buf ∷ transmitted calls

pub record Queued (calls : List Call) (d : VirtualDevice) (r : List Bytes × VirtualDevice)
    : Type 0 where
  pub in_order : d.rx ≡ r.0 ++ r.1.rx
  pub sent : r.1.tx ≡ d.tx ++ transmitted calls
  pub same_mtu : r.1.mtu ≡ d.mtu

received-Queued :
    (rx tx : List Bytes) (mtu : ℕ) (calls : List Call)
    → ((d : VirtualDevice) → Queued calls d (run_calls calls d))
    → Queued
        (receives ∷ calls)
        (record { rx = rx; tx = tx; mtu = mtu })
        (run_calls (receives ∷ calls) (record { rx = rx; tx = tx; mtu = mtu }))
unfolding run_calls receive
received-Queued [] tx mtu calls h =
    let q = h (record { rx = []; tx = tx; mtu = mtu }) in
    record { in_order = q.in_order; sent = q.sent; same_mtu = q.same_mtu }
received-Queued (pkt ∷ rx) tx mtu calls h =
    let q = h (record { rx = rx; tx = tx; mtu = mtu }) in
    record { in_order = ap (λ t. pkt ∷ t) q.in_order; sent = q.sent; same_mtu = q.same_mtu }

-- Whatever calls are made, the packets that are received are a first part of the receive queue, in order, and the
-- rest stays; the packets that are sent stand behind those before them, in order.
pub run_calls-Queued : (calls : List Call) (d : VirtualDevice) → Queued calls d (run_calls calls d)
unfolding run_calls
run_calls-Queued [] d = record { in_order = refl; sent = sym (append-nil d.tx); same_mtu = refl }
run_calls-Queued (receives ∷ calls) d =
    received-Queued d.rx d.tx d.mtu calls (run_calls-Queued calls)
run_calls-Queued (transmits buf ∷ calls) d =
    let q = run_calls-Queued calls (consume buf d) in
    record {
      in_order = q.in_order;
      sent = q.sent ∙ append_assoc d.tx (buf ∷ []) (transmitted calls);
      same_mtu = q.same_mtu;
    }

module _ (smol : Smoltcp) where
  -- A poll returns what was waiting to be sent and what smoltcp sends in it, in order, and leaves nothing
  -- waiting; what smoltcp does not receive stays in the queue.
  pub poll-sent :
      (now : ℕ) (s : Stack smol)
      → (got : List Bytes) × ((poll smol now s).1
          ≡ s.device.tx ++ transmitted (smol.calls now s.device (s.iface, s.sockets)))
        × ((poll smol now s).0.device.tx ≡ [])
        × (s.device.rx ≡ got ++ (poll smol now s).0.device.rx)
  unfolding poll
  poll-sent now s =
      let calls = smol.calls now s.device (s.iface, s.sockets) in
      let q = run_calls-Queued calls s.device in
      ((run_calls calls s.device).0, q.sent, refl, q.in_order)
