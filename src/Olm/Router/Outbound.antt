-- ===== src/Olm/Router/Outbound.antt =====
-- What the router does with a packet of the host.
use newt_rust.Common.{
  ℕ, zero, suc, [], ◌∷◌, Option, none, some, ◌≡◌, ap, ◌∙◌, inl, inr, arith, All, Bool-cases,
  Option-cases, length, length-take, length-drop, take, drop, get_elem?, subst, ◌&&◌, ◌==◌, leb,
  ◌/◌, ◌^◌,
}
use newt_rust.Common.Monads.{◌>>=◌, >>=-eq-some}
use newt_rust.Common.Net.{Bytes, IsByte, SocketAddr, IpAddr, v4, v6, IsAddr}
use newt_rust.Wg.{Noise}
use newt_rust.Olm.Router.{
  Peer, Router, dest_ip, dest_of, best_peer, route_target, route_outbound, send_peer,
}
use newt_rust.Olm.Router.Lookup.{route_target-at}

All-take : (P : ℕ → Type 0) (n : ℕ) (xs : Bytes) → All P xs → All P (take n xs)
All-take P zero xs h = tt
All-take P (suc n) [] h = tt
All-take P (suc n) (x ∷ xs) (p, h) = (p, All-take P n xs h)

All-drop : (P : ℕ → Type 0) (n : ℕ) (xs : Bytes) → All P xs → All P (drop n xs)
All-drop P zero xs h = h
All-drop P (suc n) [] h = tt
All-drop P (suc n) (x ∷ xs) (p, h) = All-drop P n xs h

dest_of-IsAddr :
    (version : ℕ) (pkt : Bytes) (dst : IpAddr)
    → All IsByte pkt
    → dest_of version pkt ≡ some dst
    → IsAddr dst
dest_of-IsAddr version pkt dst h e = elim (Bool-cases ((version == 4) && leb 20 (length pkt))) [
  | inl four ↦
      let same : v4 (take 4 (drop 16 pkt)) ≡ dst = ground arith in
      subst IsAddr same (
        ground (arith, length-take 4 (drop 16 pkt), length-drop 16 pkt),
        All-take IsByte 4 (drop 16 pkt) (All-drop IsByte 16 pkt h),
      )
  | inr other ↦ elim (Bool-cases ((version == 6) && leb 40 (length pkt))) [
    | inl six ↦
        let same : v6 (take 16 (drop 24 pkt)) ≡ dst = ground arith in
        subst IsAddr same (
          ground (arith, length-take 16 (drop 24 pkt), length-drop 24 pkt),
          All-take IsByte 16 (drop 24 pkt) (All-drop IsByte 24 pkt h),
        )
    | inr neither ↦ ground arith
  ]
]

-- The destination of a packet of bytes has the octets of its family.
pub dest_ip-IsAddr :
    (pkt : Bytes) (dst : IpAddr) → All IsByte pkt → dest_ip pkt ≡ some dst → IsAddr dst
unfolding dest_ip
dest_ip-IsAddr [] dst h e = cc
dest_ip-IsAddr (b ∷ pkt) dst h e = dest_of-IsAddr (b / 2 ^ 4) (b ∷ pkt) dst h e

module _ (noise : Noise) where
  open noise use {Tunn, StaticSecret}

  send_peer-endpoint :
      (r : Router StaticSecret Tunn) (pkt : Bytes) (i : ℕ) (p : Peer Tunn) (d : Bytes)
      (to : SocketAddr)
      → (send_peer noise r pkt i (some p)).1 ≡ some (d, to)
      → p.endpoint ≡ to
  unfolding send_peer
  send_peer-endpoint r pkt i p d to e = ground arith

  -- A datagram is sent only for a packet with a destination, and to the endpoint that the router
  -- routes this destination to.
  pub route_outbound-route_target :
      (r : Router StaticSecret Tunn) (pkt d : Bytes) (to : SocketAddr)
      → (route_outbound noise r pkt).1 ≡ some (d, to)
      → (dst : IpAddr) × (dest_ip pkt ≡ some dst) × (route_target r dst ≡ some to)
  unfolding route_outbound
  route_outbound-route_target r pkt d to h =
      elim (Option-cases (do dst ← dest_ip pkt; best_peer r dst)) [
        | inl e ↦
            let no_result : ◌≡◌ {A = Option (Bytes × SocketAddr)} none (some (d, to)) =
              rw (e, route_outbound) at h in
            cc
        | inr (i, e) ↦
            let (dst, read, found) = >>=-eq-some (dest_ip pkt) _ e in
            elim (Option-cases (get_elem? r.peers i)) [
              | inl f ↦
                  let no_result : ◌≡◌ {A = Option (Bytes × SocketAddr)} none (some (d, to)) =
                    rw f at (rw (e, route_outbound) at h) in
                  cc
              | inr (p, f) ↦
                  let sent : (send_peer noise r pkt i (some p)).1 ≡ some (d, to) =
                    rw f at (rw (e, route_outbound) at h) in
                  (
                    dst,
                    read,
                    route_target-at r dst i p found f
                        ∙ ap some (send_peer-endpoint r pkt i p d to sent),
                  )
            ]
      ]
