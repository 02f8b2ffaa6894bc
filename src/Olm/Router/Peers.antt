-- ===== src/Olm/Router/Peers.antt =====
-- Which peer a site has.
use newt_rust.Common.{
  Bool, true, false, not, List, [], ◌∷◌, ◌++◌, Option, none, some, ◌≡◌, refl, sym, ◌∙◌, ◌⊎◌, inl,
  inr, arith, Text, retain, find, Option-cases, subst,
}
use newt_rust.Common.Int.{ℤ, int_eq, int_eq→eq, int_eq_refl}
use newt_rust.Common.Net.{Bytes, SocketAddr}
use newt_rust.Wg.{Noise, public_from_b64}
use newt_rust.Olm.Cidr.{Cidr}
use newt_rust.Olm.Router.{Peer, Router, is_site, remove_peer, upsert_peer, start_peer, add_peer}

abbrev pub peer_of : {S T : Type 0} → ℤ → Router S T → Option (Peer T)
peer_of site r = find (is_site site) r.peers

find-append_none :
    {T : Type 0} (t : Peer T → Bool) (xs ys : List (Peer T))
    → find t xs ≡ none
    → find t (xs ++ ys) ≡ find t ys
find-append_none t [] ys h = refl
find-append_none t (x ∷ xs) ys h = ground (arith, find-append_none t xs ys)

find-append_miss :
    {T : Type 0} (t : Peer T → Bool) (xs : List (Peer T)) (y : Peer T)
    → t y ≡ false
    → find t (xs ++ y ∷ []) ≡ find t xs
find-append_miss t [] y h = ground arith
find-append_miss t (x ∷ xs) y h = ground (arith, find-append_miss t xs y h)

module _ {T : Type 0} where
  pub find-retain_self :
      (site : ℤ) (ps : List (Peer T))
      → find (is_site site) (retain (λ p. not (is_site site p)) ps) ≡ none
  find-retain_self site [] = refl
  find-retain_self site (p ∷ ps) = ground (arith, find-retain_self site ps)

  other_site :
      (s site : ℤ) (p : Peer T)
      → int_eq site s ≡ false
      → is_site site p ≡ true
      → is_site s p ≡ false
  other_site s site p ne e = rw (int_eq→eq p.site_id site e) ne

  pub find-retain_other :
      (s site : ℤ) (ps : List (Peer T))
      → int_eq site s ≡ false
      → find (is_site s) (retain (λ p. not (is_site site p)) ps) ≡ find (is_site s) ps
  find-retain_other s site [] ne = refl
  find-retain_other s site (p ∷ ps) ne =
      ground (arith, find-retain_other s site ps ne, other_site s site p ne)

module _ (noise : Noise) where
  open noise use {Tunn, StaticSecret}

  -- What an upsert with a good key does: the site has one new peer, with the endpoint and the ranges
  -- given and the router's next index, every other site keeps its peer, and a handshake goes to the
  -- endpoint.
  pub record Upserted (r : Router StaticSecret Tunn) (site : ℤ) (endpoint : SocketAddr)
      (cidrs : List Cidr) (res : Router StaticSecret Tunn × Option (Bytes × SocketAddr))
      : Type 0 where
    pub peer : Peer Tunn
    pub present : peer_of site res.0 ≡ some peer
    pub sends_to : peer.endpoint ≡ endpoint
    pub routes : peer.cidrs ≡ cidrs
    pub indexed : peer.index ≡ r.next_index
    pub others : (s : ℤ) → int_eq site s ≡ false → peer_of s res.0 ≡ peer_of s r
    pub handshake : (d : Bytes) (to : SocketAddr) → res.1 ≡ some (d, to) → to ≡ endpoint

  add_peer-Upserted :
      (r : Router StaticSecret Tunn) (site : ℤ) (endpoint : SocketAddr) (cidrs : List Cidr)
      (k : noise.PublicKey)
      → Upserted r site endpoint cidrs (add_peer noise r site endpoint cidrs k)
  unfolding add_peer remove_peer
  add_peer-Upserted r site endpoint cidrs k =
      let kept = remove_peer r site in
      let peer = (start_peer noise kept site k endpoint cidrs).0 in
      record {
        peer = peer;
        present =
            find-append_none (is_site site) kept.peers (peer ∷ []) (find-retain_self site r.peers)
            ∙ rw (int_eq_refl site);
        sends_to = refl;
        routes = refl;
        indexed = refl;
        others = λ s ne.
            find-append_miss (is_site s) kept.peers peer ne ∙ find-retain_other s site r.peers ne;
        handshake = λ d to e. ground arith;
      }

  -- With a public key that does not decode to 32 bytes nothing changes and nothing is sent; otherwise
  -- the site has one new peer, with the endpoint and the ranges given and the router's next index, every
  -- other site keeps its peer, and a handshake, if any, goes to the endpoint.
  pub upsert_peer-Upserted :
      (r : Router StaticSecret Tunn) (site : ℤ) (key : Text) (endpoint : SocketAddr)
      (cidrs : List Cidr)
      → ((public_from_b64 noise key ≡ none)
          × (upsert_peer noise r site key endpoint cidrs ≡ (r, none)))
        ⊎ ((k : noise.PublicKey) × (public_from_b64 noise key ≡ some k)
            × Upserted r site endpoint cidrs (upsert_peer noise r site key endpoint cidrs))
  upsert_peer-Upserted r site key endpoint cidrs = elim (Option-cases (public_from_b64 noise key)) [
    | inl bad ↦ inl (bad, unfold upsert_peer in rw (bad, upsert_peer))
    | inr (k, good) ↦ inr (
      k,
      good,
      subst (Upserted r site endpoint cidrs) (sym (keyed k good))
          (add_peer-Upserted r site endpoint cidrs k),
    )
  ]
    where
      keyed :
          (k : noise.PublicKey)
          → public_from_b64 noise key ≡ some k
          → upsert_peer noise r site key endpoint cidrs ≡ add_peer noise r site endpoint cidrs k
      keyed k good = unfold upsert_peer in rw (good, upsert_peer)
