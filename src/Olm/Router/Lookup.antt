-- ===== src/Olm/Router/Lookup.antt =====
-- Routing by the longest prefix.
use newt_rust.Common.{
  ℕ, suc, ◌≤◌, ◌<◌, ◌≡◌, ◌⊎◌, inl, inr, refl, sym, ap, ◌∙◌, true, false, ◌&&◌, List, [], ◌∷◌, ◌++◌,
  map, Option, none, some, arith, get_elem?, ltb, if◌then◌else◌, All, Bool-cases, ◌-◌, All-append,
  All-map, subst,
}
use mathlib.Core.List.{Memᴰ}
use newt_rust.Common.Net.{IpAddr}
use newt_rust.Olm.Cidr.{Cidr, contains}
use newt_rust.Olm.Router.{Peer, Router, longer, scan_cidrs, scan_peers, best_peer, route_target}

module _ {T : Type 0} where
  -- Every routed range with the position of its peer, in the order of the router.
  abbrev pub entries : ℕ → List (Peer T) → List (ℕ × Cidr)
  entries i [] = []
  entries i (p ∷ ps) = map (λ c. (i, c)) p.cidrs ++ entries (suc i) ps

abbrev pub Covers : IpAddr → ℕ × Cidr → Type 0
Covers dst e = contains e.1 dst ≡ true

-- Among the entries, the peer at `i` owns the first of the longest ranges, of `q` bits, that contain
-- the destination.
pub record IsBest (dst : IpAddr) (es : List (ℕ × Cidr)) (i q : ℕ) : Type 0 where
  pub before : List (ℕ × Cidr)
  pub cidr : Cidr
  pub after : List (ℕ × Cidr)
  pub split : es ≡ before ++ (i, cidr) ∷ after
  pub covers : contains cidr dst ≡ true
  pub bits : cidr.prefix ≡ q
  pub first : All (λ e. Covers dst e → e.1.prefix < q) before
  pub longest : All (λ e. Covers dst e → e.1.prefix ≤ q) after

-- both loops as one, over the entries
scan : IpAddr → List (ℕ × Cidr) → Option (ℕ × ℕ) → Option (ℕ × ℕ)
scan dst [] best = best
scan dst (e ∷ es) best =
    scan dst es
      (if contains e.1 dst && longer best e.1.prefix then some (e.0, e.1.prefix) else best)

scan-append :
    (dst : IpAddr) (xs ys : List (ℕ × Cidr)) (best : Option (ℕ × ℕ))
    → scan dst (xs ++ ys) best ≡ scan dst ys (scan dst xs best)
unfolding scan
scan-append dst [] ys best = refl
scan-append dst (x ∷ xs) ys best = scan-append dst xs ys _

scan_cidrs-scan :
    (i : ℕ) (dst : IpAddr) (cs : List Cidr) (best : Option (ℕ × ℕ))
    → scan_cidrs i dst cs best ≡ scan dst (map (λ c. (i, c)) cs) best
unfolding scan scan_cidrs
scan_cidrs-scan i dst [] best = refl
scan_cidrs-scan i dst (c ∷ cs) best = scan_cidrs-scan i dst cs _

scan_peers-scan :
    {T : Type 0} (i : ℕ) (dst : IpAddr) (ps : List (Peer T)) (best : Option (ℕ × ℕ))
    → scan_peers i dst ps best ≡ scan dst (entries i ps) best
unfolding scan_peers
scan_peers-scan i dst [] best = unfold scan in refl
scan_peers-scan i dst (p ∷ ps) best =
    scan_peers-scan (suc i) dst ps _
    ∙ ap (scan dst (entries (suc i) ps)) (scan_cidrs-scan i dst p.cidrs best)
    ∙ sym (scan-append dst (map (λ c. (i, c)) p.cidrs) (entries (suc i) ps) best)

IsBest-cons :
    (dst : IpAddr) (e : ℕ × Cidr) (es : List (ℕ × Cidr)) (i q : ℕ)
    → (Covers dst e → e.1.prefix < q)
    → IsBest dst es i q
    → IsBest dst (e ∷ es) i q
IsBest-cons dst e es i q h b = record {
  before = e ∷ b.before;
  cidr = b.cidr;
  after = b.after;
  split = ap (λ t. e ∷ t) b.split;
  covers = b.covers;
  bits = b.bits;
  first = (h, b.first);
  longest = b.longest;
}

-- What a scan from a best of `b` bits at `j` ends in: that best, and nothing is longer, or a longer one.
abbrev Outcome : IpAddr → List (ℕ × Cidr) → ℕ → ℕ → Option (ℕ × ℕ) → Type 0
Outcome dst es j b r =
    ((r ≡ some (j, b)) × All (λ e. Covers dst e → e.1.prefix ≤ b) es)
    ⊎ ((i : ℕ) × (q : ℕ) × (r ≡ some (i, q)) × (b < q) × IsBest dst es i q)

scan-some :
    (dst : IpAddr) (es : List (ℕ × Cidr)) (j b : ℕ) → Outcome dst es j b (scan dst es (some (j, b)))
unfolding scan
scan-some dst [] j b = inl (refl, tt)
scan-some dst ((k, c) ∷ es) j b = elim (Bool-cases (contains c dst && ltb b c.prefix)) [
  | inl takes ↦ rw takes (elim (scan-some dst es k c.prefix) [
    | inl (same, rest) ↦ inr (
      k,
      c.prefix,
      same,
      ground arith,
      record {
        before = [];
        cidr = c;
        after = es;
        split = refl;
        covers = ground arith;
        bits = refl;
        first = tt;
        longest = rest;
      },
    )
    | inr (i, q, found, more, best) ↦
        inr (i, q, found, ground arith, IsBest-cons dst (k, c) es i q (λ _. more) best)
  ])
  | inr keeps ↦ rw keeps (elim (scan-some dst es j b) [
    | inl (same, rest) ↦ inl (same, (λ cov. ground arith, rest))
    | inr (i, q, found, more, best) ↦
        inr (i, q, found, more, IsBest-cons dst (k, c) es i q (λ cov. ground arith) best)
  ])
]

scan-none :
    (dst : IpAddr) (es : List (ℕ × Cidr))
    → ((scan dst es none ≡ none) × All (λ e. contains e.1 dst ≡ false) es)
      ⊎ ((i : ℕ) × (q : ℕ) × (scan dst es none ≡ some (i, q)) × IsBest dst es i q)
unfolding scan
scan-none dst [] = inl (refl, tt)
scan-none dst ((k, c) ∷ es) = elim (Bool-cases (contains c dst)) [
  | inl takes ↦ rw takes (elim (scan-some dst es k c.prefix) [
    | inl (same, rest) ↦ inr (
      k,
      c.prefix,
      same,
      record {
        before = [];
        cidr = c;
        after = es;
        split = refl;
        covers = takes;
        bits = refl;
        first = tt;
        longest = rest;
      },
    )
    | inr (i, q, found, more, best) ↦
        inr (i, q, found, IsBest-cons dst (k, c) es i q (λ _. more) best)
  ])
  | inr misses ↦ rw misses (elim (scan-none dst es) [
    | inl (nothing_found, rest) ↦ inl (nothing_found, (refl, rest))
    | inr (i, q, found, best) ↦
        inr (i, q, found, IsBest-cons dst (k, c) es i q (λ cov. cc (misses, cov)) best)
  ])
]

-- The router picks no peer when no routed range contains the destination; otherwise it picks the owner
-- of the first of the longest ranges that do, in the order of the peers and of their ranges.
pub best_peer-IsBest :
    {S T : Type 0} (r : Router S T) (dst : IpAddr)
    → ((best_peer r dst ≡ none) × All (λ e. contains e.1 dst ≡ false) (entries 0 r.peers))
      ⊎ ((i : ℕ) × (q : ℕ) × (best_peer r dst ≡ some i) × IsBest dst (entries 0 r.peers) i q)
unfolding best_peer
best_peer-IsBest r dst =
    rw (scan_peers-scan 0 dst r.peers none) (elim (scan-none dst (entries 0 r.peers)) [
      | inl (nothing_found, rest) ↦ inl (rw nothing_found, rest)
      | inr (i, q, found, best) ↦ inr (i, q, rw found, best)
    ])

-- The peer at the position that an entry names has the range.
abbrev pub Owned : {T : Type 0} → ℕ → List (Peer T) → ℕ × Cidr → Type 0
Owned {T} i ps e = (i ≤ e.0) × (p : Peer T) × (get_elem? ps (e.0 - i) ≡ some p) × Memᴰ e.1 p.cidrs

module _ {T : Type 0} (i : ℕ) (p : Peer T) (ps : List (Peer T)) where
  own_first :
      (cs : List Cidr)
      → ((c : Cidr) → Memᴰ c cs → Memᴰ c p.cidrs)
      → All (Owned i (p ∷ ps)) (map (λ c. (i, c)) cs)
  own_first [] sub = tt
  own_first (c ∷ cs) sub = (
    (omega arith, p, (let z : i - i ≡ 0 = omega arith in rw z refl), sub c (Memᴰ.head refl)),
    own_first cs (λ d m. sub d (Memᴰ.tail m)),
  )

  own_later : (e : ℕ × Cidr) → Owned (suc i) ps e → Owned i (p ∷ ps) e
  own_later e (le, q, at, m) =
      (omega arith, q, (let z : e.0 - i ≡ suc (e.0 - suc i) = omega arith in rw z at), m)

entries-Owned : {T : Type 0} (i : ℕ) (ps : List (Peer T)) → All (Owned i ps) (entries i ps)
entries-Owned i [] = tt
entries-Owned i (p ∷ ps) =
    All-append _ (map (λ c. (i, c)) p.cidrs) (entries (suc i) ps)
      (own_first i p ps p.cidrs (λ c m. m))
      (All-map (own_later i p ps) (entries (suc i) ps) (entries-Owned (suc i) ps))

All-middle :
    (P : ℕ × Cidr → Type 0) (xs ys : List (ℕ × Cidr)) (x : ℕ × Cidr) → All P (xs ++ x ∷ ys) → P x
All-middle P [] ys x h = h.0
All-middle P (z ∷ xs) ys x h = All-middle P xs ys x h.1

pub route_target-at :
    {S T : Type 0} (r : Router S T) (dst : IpAddr) (i : ℕ) (p : Peer T)
    → best_peer r dst ≡ some i
    → get_elem? r.peers i ≡ some p
    → route_target r dst ≡ some p.endpoint
unfolding route_target
route_target-at r dst i p found at = rw (found, at)

-- A destination is sent to no endpoint when no routed range contains it; otherwise it is sent to the
-- endpoint of the peer that owns the first of the longest ranges that do.
pub route_target-longest :
    {S T : Type 0} (r : Router S T) (dst : IpAddr)
    → ((route_target r dst ≡ none) × All (λ e. contains e.1 dst ≡ false) (entries 0 r.peers))
      ⊎ ((i : ℕ) × (q : ℕ) × (p : Peer T) × (best : IsBest dst (entries 0 r.peers) i q) × (get_elem?
              r.peers i
            ≡ some p)
          × Memᴰ best.cidr p.cidrs
          × (route_target r dst ≡ some p.endpoint))
unfolding route_target
route_target-longest r dst = elim (best_peer-IsBest r dst) [
  | inl (no_peer, rest) ↦ inl (rw no_peer, rest)
  | inr (i, q, found, best) ↦
      let owned = subst (All (Owned 0 r.peers)) best.split (entries-Owned 0 r.peers) in
      let (_, p, at, m) =
        All-middle (Owned 0 r.peers) best.before best.after (i, best.cidr) owned in
      let here : get_elem? r.peers i ≡ some p =
        subst (λ k. get_elem? r.peers k ≡ some p) (omega arith) at in
      inr (i, q, p, best, here, m, route_target-at r dst i p found here)
]
