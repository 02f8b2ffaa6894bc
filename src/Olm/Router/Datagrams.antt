-- ===== src/Olm/Router/Datagrams.antt =====
-- What the router does with an inbound datagram.
use newt_rust.Common.{
  ℕ, ◌<◌, List, [], ◌∷◌, ◌++◌, some, ◌≡◌, ◌≢◌, refl, sym, ap, ◌∙◌, All, find, update_first, subst,
}
use newt_rust.Common.Net.{Bytes, SocketAddr}
use newt_rust.Wg
use newt_rust.Wg.{
  Noise, Pump, Inbound, packet, network, nothing, TunnResult, done, tunn_err, write_to_network,
  write_to_tunnel_v4, write_to_tunnel_v6, to_inbound,
}
use newt_rust.Olm.Router.{Peer, Router, Out, to_host, to_net, receive, push, has_index}

to_inbound-nothing : (r : TunnResult) → to_inbound r ≢ nothing → (r ≢ done) × (r ≢ tunn_err)
to_inbound-nothing done h = absurd (h refl)
to_inbound-nothing tunn_err h = absurd (h refl)
to_inbound-nothing (write_to_network b) h = (λ e. cc, λ e. cc)
to_inbound-nothing (write_to_tunnel_v4 p) h = (λ e. cc, λ e. cc)
to_inbound-nothing (write_to_tunnel_v6 p) h = (λ e. cc, λ e. cc)

-- Bytes for the network go to this endpoint.
abbrev pub GoesTo : SocketAddr → Out → Type 0
GoesTo endpoint (to_host pkt) = Unit
GoesTo endpoint (to_net b to) = to ≡ endpoint

-- The loop over `drain`, until it returns nothing: from one pump to another, with what it puts out.
pub data Drains (noise : Noise) (endpoint : SocketAddr)
    : Pump noise.Tunn → Pump noise.Tunn → List Out → Type 0 where
  ends : {p p' : Pump noise.Tunn} → Wg.drain noise p ≡ (p', nothing) → Drains noise endpoint p p' []
  delivers :
      {p p' q : Pump noise.Tunn} {out : List Out} (pkt : Bytes)
      → Wg.drain noise p ≡ (p', packet pkt)
      → Drains noise endpoint p' q out
      → Drains noise endpoint p q (to_host pkt ∷ out)
  answers :
      {p p' q : Pump noise.Tunn} {out : List Out} (b : Bytes)
      → Wg.drain noise p ≡ (p', network b)
      → Drains noise endpoint p' q out
      → Drains noise endpoint p q (to_net b endpoint ∷ out)

module _ (noise : Noise) where
  open noise use {Tunn, StaticSecret, queued, flush_ends}

  pub drain-queued :
      (p p' : Pump Tunn) (inb : Inbound)
      → Wg.drain noise p ≡ (p', inb)
      → inb ≢ nothing
      → queued p'.tun < queued p.tun
  unfolding Wg.drain
  drain-queued p p' inb e h =
      let moved : (Wg.drain noise p).0 ≡ p' = ap (λ (t : Pump Tunn × Inbound). t.0) e in
      let got : (Wg.drain noise p).1 ≡ inb = ap (λ (t : Pump Tunn × Inbound). t.1) e in
      let (a, b) = to_inbound-nothing _ (λ f. h (sym got ∙ f)) in
      subst (λ (q : Pump Tunn). queued q.tun < queued p.tun) moved
        (flush_ends p.tun (Wg.scratch p) a b)

  -- The datagram is decrypted by the peer `p`, its queue is flushed, and the peer is stored back; the
  -- other peers are as they were, and what goes to the network goes to the endpoint of `p`.
  pub record Handled (r : Router StaticSecret Tunn) (i : ℕ) (p : Peer Tunn) (datagram : Bytes)
      (res : Router StaticSecret Tunn × List Out) : Type 0 where
    pub pump : Pump Tunn
    pub out : List Out
    pub flushed : Drains noise p.endpoint (Wg.decapsulate noise p.pump datagram).0 pump out
    pub result : res.1 ≡ push noise (Wg.decapsulate noise p.pump datagram).1 p.endpoint ++ out
    pub stored : find (has_index noise i) res.0.peers ≡ some (record p { pump = pump })
    pub others :
        (j : ℕ) → j ≢ i → find (has_index noise j) res.0.peers ≡ find (has_index noise j) r.peers
    pub goes : All (GoesTo p.endpoint) res.1

  abbrev received :
      Router StaticSecret Tunn → ℕ → Peer Tunn → Bytes → Router StaticSecret Tunn × List Out
  received r i p datagram = (
    record r {
      peers = update_first (has_index noise i) (λ q. (receive noise q datagram).0) r.peers;
    },
    (receive noise p datagram).1,
  )
