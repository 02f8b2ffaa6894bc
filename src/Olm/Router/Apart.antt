-- ===== src/Olm/Router/Apart.antt =====
-- No two peers of a router share a site, over any number of calls of its methods.
use newt_rust.Common.{
  ℕ, not, Bool, List, [], ◌∷◌, ◌++◌, ◌≡◌, ◌≢◌, refl, sym, inl, inr, Text, All, All-append, retain,
  update_first, Bool-cases, Option-cases, subst,
}
use mathlib.Core.List.{map-append}
use newt_rust.Common.Int.{ℤ}
use newt_rust.Common.Net.{SocketAddr}
use newt_rust.Wg.{Noise, public_from_b64}
use newt_rust.Olm.Cidr.{Cidr}
use newt_rust.Olm.Router.{
  Peer, Router, new, is_site, remove_peer, set_endpoint, set_cidrs, add_cidrs, remove_cidrs,
  upsert_peer, start_peer, add_peer, tick,
}
use newt_rust.Olm.Router.Ids.{ids, ids-update_first, All-retain, retained}
use newt_rust.Olm.Router.Calls.{
  Call, upserts, removes, sets_endpoint, sets_cidrs, adds_cidrs, removes_cidrs, routes_outbound,
  handles_inbound, ticks, step, route_outbound-Keeps, handle_inbound-Keeps, ids-tick_peers,
}

-- No two of the names have the same site.
abbrev pub AreApart : List (ℤ × ℕ) → Type 0
AreApart [] = Unit
AreApart (e ∷ es) = All (λ d. d.0 ≢ e.0) es × AreApart es

abbrev pub IsApart : {S T : Type 0} → Router S T → Type 0
IsApart r = AreApart (ids r.peers)

AreApart-retain :
    {T : Type 0} (t : Peer T → Bool) (ps : List (Peer T))
    → AreApart (ids ps)
    → AreApart (ids (retain t ps))
AreApart-retain t [] h = tt
AreApart-retain t (p ∷ ps) (apart, h) = elim (Bool-cases (t p)) [
  | inl stays ↦ rw stays (All-retain _ t ps apart, AreApart-retain t ps h)
  | inr gone ↦ rw gone (AreApart-retain t ps h)
]

AreApart-snoc :
    (es : List (ℤ × ℕ)) (site : ℤ) (n : ℕ)
    → AreApart es
    → All (λ e. e.0 ≢ site) es
    → AreApart (es ++ (site, n) ∷ [])
AreApart-snoc [] site n h a = (tt, tt)
AreApart-snoc (e ∷ es) site n (apart, h) (ne, a) = (
  All-append _ es ((site, n) ∷ []) apart ((λ same. ne (sym same)), tt),
  AreApart-snoc es site n h a,
)

AreApart-update :
    {T : Type 0} (t : Peer T → Bool) (f : Peer T → Peer T) (ps : List (Peer T))
    → ((p : Peer T) → ((f p).site_id ≡ p.site_id) × ((f p).index ≡ p.index))
    → AreApart (ids ps)
    → AreApart (ids (update_first t f ps))
AreApart-update t f ps same h = rw (ids-update_first t f ps same) h

module _ (noise : Noise) where
  open noise use {Tunn, StaticSecret}

  add_peer-IsApart :
      (r : Router StaticSecret Tunn) (site : ℤ) (endpoint : SocketAddr) (cidrs : List Cidr)
      (k : noise.PublicKey)
      → IsApart r
      → IsApart (add_peer noise r site endpoint cidrs k).0
  unfolding add_peer remove_peer start_peer
  add_peer-IsApart r site endpoint cidrs k h =
      let kept = retain (λ p. not (is_site site p)) r.peers in
      rw (map-append _ kept _) (
        AreApart-snoc (ids kept) site r.next_index
          (AreApart-retain (λ p. not (is_site site p)) r.peers h) (retained site r.peers))

  upsert_peer-IsApart :
      (r : Router StaticSecret Tunn) (site : ℤ) (key : Text) (endpoint : SocketAddr)
      (cidrs : List Cidr)
      → IsApart r
      → IsApart (upsert_peer noise r site key endpoint cidrs).0
  unfolding upsert_peer
  upsert_peer-IsApart r site key endpoint cidrs h =
      elim (Option-cases (public_from_b64 noise key)) [
        | inl bad ↦ rw (bad, upsert_peer) h
        | inr (k, good) ↦ rw (good, upsert_peer) (add_peer-IsApart r site endpoint cidrs k h)
      ]

  -- Each method of the router keeps the sites of its peers apart.
  pub step-IsApart :
      (r : Router StaticSecret Tunn) (c : Call) → IsApart r → IsApart (step noise r c)
  unfolding step remove_peer set_endpoint set_cidrs add_cidrs remove_cidrs
  step-IsApart r (upserts site key endpoint cidrs) h =
      upsert_peer-IsApart r site key endpoint cidrs h
  step-IsApart r (removes site) h = AreApart-retain (λ p. not (is_site site p)) r.peers h
  step-IsApart r (sets_endpoint site endpoint) h =
      AreApart-update (is_site site) _ r.peers (λ p. (refl, refl)) h
  step-IsApart r (sets_cidrs site cidrs) h =
      AreApart-update (is_site site) _ r.peers (λ p. (refl, refl)) h
  step-IsApart r (adds_cidrs site cidrs) h =
      AreApart-update (is_site site) _ r.peers (λ p. (refl, refl)) h
  step-IsApart r (removes_cidrs site cidrs) h =
      AreApart-update (is_site site) _ r.peers (λ p. (refl, refl)) h
  step-IsApart r (routes_outbound pkt) h =
      subst AreApart (sym (route_outbound-Keeps noise r pkt).0) h
  step-IsApart r (handles_inbound datagram) h =
      subst AreApart (sym (handle_inbound-Keeps noise r datagram).0) h
  step-IsApart r ticks h = unfold tick in subst AreApart (sym (ids-tick_peers noise r.peers)) h

  pub new-IsApart : (secret : StaticSecret) (mtu : ℕ) → IsApart {T = Tunn} (new secret mtu)
  unfolding new
  new-IsApart secret mtu = tt
