-- ===== src/Olm/Router/Calls.antt =====
-- The router over any sequence of calls of its methods: distinct sites, distinct peer indices.
use newt_rust.Common.{
  ℕ, ◌+◌, ◌^◌, ◌<◌, ◌≤◌, not, List, [], ◌∷◌, ◌≡◌, refl, ap, inl, inr, arith, Text, retain, find,
  get_elem?, Option-cases, length,
}
use newt_rust.Common.Monads.{◌>>=◌}
use mathlib.Core.List.{map-append}
use newt_rust.Common.Int.{ℤ}
use newt_rust.Common.Net.{Bytes, SocketAddr}
use newt_rust.Wg.{Noise, public_from_b64, peer_index_of}
use newt_rust.Olm.Cidr.{Cidr}
use newt_rust.Olm.Router.{
  Peer, Router, is_site, new, remove_peer, set_endpoint, set_cidrs, add_cidrs, remove_cidrs,
  upsert_peer, start_peer, add_peer, route_outbound, handle_inbound, has_index, tick, tick_peers,
  dest_ip, best_peer, after_index,
}
use newt_rust.Olm.Router.Ids.{
  ids, IsRouter, ids-update_first, ids-set, AreDistinct-retain, retained, AreDistinct-snoc,
}

-- The methods that change a router, with their arguments.
pub data Call : Type 0 where
  upserts : ℤ → Text → SocketAddr → List Cidr → Call
  removes : ℤ → Call
  sets_endpoint : ℤ → SocketAddr → Call
  sets_cidrs : ℤ → List Cidr → Call
  adds_cidrs : ℤ → List Cidr → Call
  removes_cidrs : ℤ → List Cidr → Call
  routes_outbound : Bytes → Call
  handles_inbound : Bytes → Call
  ticks : Call

module _ (noise : Noise) where
  open noise use {Tunn, StaticSecret}

  -- One call; what it returns besides the router is dropped.
  unfoldable pub step : Router StaticSecret Tunn → Call → Router StaticSecret Tunn
  step r (upserts site key endpoint cidrs) = (upsert_peer noise r site key endpoint cidrs).0
  step r (removes site) = remove_peer r site
  step r (sets_endpoint site endpoint) = set_endpoint r site endpoint
  step r (sets_cidrs site cidrs) = set_cidrs r site cidrs
  step r (adds_cidrs site cidrs) = add_cidrs r site cidrs
  step r (removes_cidrs site cidrs) = remove_cidrs r site cidrs
  step r (routes_outbound pkt) = (route_outbound noise r pkt).0
  step r (handles_inbound datagram) = (handle_inbound noise r datagram).0
  step r ticks = (tick noise r).0

  pub run : Router StaticSecret Tunn → List Call → Router StaticSecret Tunn
  run r [] = r
  run r (c ∷ cs) = run (step r c) cs

  -- A call that keeps the names of the peers and the next index.
  abbrev pub Keeps : Router StaticSecret Tunn → Router StaticSecret Tunn → Type 0
  Keeps r r' = (ids r'.peers ≡ ids r.peers) × (r'.next_index ≡ r.next_index)

  IsRouter-Keeps : (r r' : Router StaticSecret Tunn) → Keeps r r' → IsRouter r → IsRouter r'
  IsRouter-Keeps r r' (same, next) v = record {
    positive = omega (arith, v.positive);
    distinct = rw (same, next) v.distinct;
  }

  pub route_outbound-Keeps :
      (r : Router StaticSecret Tunn) (pkt : Bytes) → Keeps r (route_outbound noise r pkt).0
  unfolding route_outbound
  route_outbound-Keeps r pkt = elim (Option-cases (do dst ← dest_ip pkt; best_peer r dst)) [
    | inl e ↦ rw (e, route_outbound) (refl, refl)
    | inr (i, e) ↦
        rw (e, route_outbound)
          (elim (Option-cases (get_elem? r.peers i)) [
            | inl f ↦ rw f (refl, refl)
            | inr (p, f) ↦ rw f (ids-set r.peers i p _ f refl refl, refl)
          ])
  ]

  pub handle_inbound-Keeps :
      (r : Router StaticSecret Tunn) (datagram : Bytes)
      → Keeps r (handle_inbound noise r datagram).0
  unfolding handle_inbound
  handle_inbound-Keeps r datagram = elim (Option-cases (peer_index_of datagram)) [
    | inl e ↦ rw (e, handle_inbound) (refl, refl)
    | inr (i, e) ↦
        rw (e, handle_inbound)
          (elim (Option-cases (find (has_index noise i) r.peers)) [
            | inl f ↦ rw f (refl, refl)
            | inr (p, f) ↦
                rw f (ids-update_first (has_index noise i) _ r.peers (λ q. (refl, refl)), refl)
          ])
  ]

  pub ids-tick_peers : (ps : List (Peer Tunn)) → ids (tick_peers noise ps).0 ≡ ids ps
  unfolding tick_peers
  ids-tick_peers [] = refl
  ids-tick_peers (p ∷ ps) = ap (λ (t : List (ℤ × ℕ)). (p.site_id, p.index) ∷ t) (ids-tick_peers ps)

  add_peer-IsRouter :
      (r : Router StaticSecret Tunn) (site : ℤ) (endpoint : SocketAddr) (cidrs : List Cidr)
      (k : noise.PublicKey)
      → r.next_index + 1 < 2 ^ 32
      → IsRouter r
      → IsRouter (add_peer noise r site endpoint cidrs k).0
        × ((add_peer noise r site endpoint cidrs k).0.next_index ≤ r.next_index + 1)
  unfolding add_peer remove_peer start_peer
  add_peer-IsRouter r site endpoint cidrs k room v =
      let kept = retain (λ p. not (is_site site p)) r.peers in
      (
        record {
          positive = omega arith;
          distinct = rw (map-append _ kept _) (
              AreDistinct-snoc (ids kept) site r.next_index (after_index noise r.next_index)
                (AreDistinct-retain (λ p. not (is_site site p)) r.peers r.next_index v.distinct)
                (retained site r.peers) v.positive (omega arith));
        },
        omega arith,
      )

  upsert-IsRouter :
      (r : Router StaticSecret Tunn) (site : ℤ) (key : Text) (endpoint : SocketAddr)
      (cidrs : List Cidr)
      → r.next_index + 1 < 2 ^ 32
      → IsRouter r
      → IsRouter (upsert_peer noise r site key endpoint cidrs).0
        × ((upsert_peer noise r site key endpoint cidrs).0.next_index ≤ r.next_index + 1)
  unfolding upsert_peer
  upsert-IsRouter r site key endpoint cidrs room v =
      elim (Option-cases (public_from_b64 noise key)) [
        | inl bad ↦ rw (bad, upsert_peer) (v, omega arith)
        | inr (k, good) ↦ rw (good, upsert_peer) (add_peer-IsRouter r site endpoint cidrs k room v)
      ]

  step-IsRouter :
      (r : Router StaticSecret Tunn) (c : Call)
      → r.next_index + 1 < 2 ^ 32
      → IsRouter r
      → IsRouter (step r c) × ((step r c).next_index ≤ r.next_index + 1)
  unfolding step remove_peer set_endpoint set_cidrs add_cidrs remove_cidrs
  step-IsRouter r (upserts site key endpoint cidrs) room v =
      upsert-IsRouter r site key endpoint cidrs room v
  step-IsRouter r (removes site) room v = (
    record {
      positive = v.positive;
      distinct = AreDistinct-retain (λ p. not (is_site site p)) r.peers r.next_index v.distinct;
    },
    omega arith,
  )
  step-IsRouter r (sets_endpoint site endpoint) room v = (
    IsRouter-Keeps r _ (ids-update_first (is_site site) _ r.peers (λ p. (refl, refl)), refl) v,
    omega arith,
  )
  step-IsRouter r (sets_cidrs site cidrs) room v = (
    IsRouter-Keeps r _ (ids-update_first (is_site site) _ r.peers (λ p. (refl, refl)), refl) v,
    omega arith,
  )
  step-IsRouter r (adds_cidrs site cidrs) room v = (
    IsRouter-Keeps r _ (ids-update_first (is_site site) _ r.peers (λ p. (refl, refl)), refl) v,
    omega arith,
  )
  step-IsRouter r (removes_cidrs site cidrs) room v = (
    IsRouter-Keeps r _ (ids-update_first (is_site site) _ r.peers (λ p. (refl, refl)), refl) v,
    omega arith,
  )
  step-IsRouter r (routes_outbound pkt) room v =
      let keeps = route_outbound-Keeps r pkt in (IsRouter-Keeps r _ keeps v, omega (arith, keeps.1))
  step-IsRouter r (handles_inbound datagram) room v =
      let keeps = handle_inbound-Keeps r datagram in
      (IsRouter-Keeps r _ keeps v, omega (arith, keeps.1))
  step-IsRouter r ticks room v = (
    IsRouter-Keeps r _ (unfold tick in (ids-tick_peers r.peers, refl)) v,
    unfold tick in omega arith,
  )

  run-IsRouter :
      (r : Router StaticSecret Tunn) (cs : List Call)
      → r.next_index + length cs < 2 ^ 32
      → IsRouter r
      → IsRouter (run r cs)
  unfolding run
  run-IsRouter r [] room v = v
  run-IsRouter r (c ∷ cs) room v =
      let (v', next) = step-IsRouter r c (omega arith) v in
      run-IsRouter (step r c) cs (omega arith) v'

  -- From a new router, over any sequence of fewer than 2 ^ 32 - 1 calls: no two peers share a site or an
  -- index, and every index is positive and below the next one.
  pub run-new-IsRouter :
      (secret : StaticSecret) (mtu : ℕ) (cs : List Call)
      → length cs + 1 < 2 ^ 32
      → IsRouter (run (new secret mtu) cs)
  unfolding new
  run-new-IsRouter secret mtu cs room =
      run-IsRouter _ cs (omega arith) (record { positive = omega arith; distinct = tt })
