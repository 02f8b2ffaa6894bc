-- ===== src/Olm/Router.antt =====
-- `Router` of crates/newt/src/olm/router.rs: one WireGuard peer for each site. A method that mutates
-- the router returns the new one before its result.
pub mod Lookup
pub mod Peers
pub mod Datagrams
pub mod Ids
pub mod Calls
pub mod Apart
pub mod Outbound
use newt_rust.Common.{
  ℕ, zero, suc, ◌+◌, ◌/◌, ◌%◌, ◌^◌, max, Bool, true, not, ◌&&◌, List, [], ◌∷◌, ◌++◌, map, Option,
  none, some, Text, length, get_elem?, set, take, drop, retain, any, find, update_first, ltb, leb,
  ◌==◌, if◌then◌else◌,
}
use newt_rust.Common.Monads.{◌>>=◌}
use newt_rust.Common.Int.{ℤ, int_eq}
use newt_rust.Common.Net.{Bytes, IpAddr, v4, v6, SocketAddr}
use newt_rust.Wg
use newt_rust.Wg.{Noise, Pump, Inbound, packet, network, nothing, public_from_b64, peer_index_of}
use newt_rust.Olm.Cidr.{Cidr, contains, same_cidr}
use mathlib.Core.Option

pub record Peer (T : Type 0) : Type 0 where
  pub site_id : ℤ
  pub pump : Pump T
  pub endpoint : SocketAddr
  pub cidrs : List Cidr
  pub index : ℕ

-- `S` is the type of secrets, `T` that of tunnels.
pub record Router (S T : Type 0) : Type 0 where
  pub secret : S
  pub mtu : ℕ
  pub peers : List (Peer T)
  pub next_index : ℕ

-- The result of an inbound datagram: for the host, or for a peer's endpoint.
pub data Out : Type 0 where
  to_host : Bytes → Out
  to_net : Bytes → SocketAddr → Out

-- `dest_ip`
abbrev dest_of : ℕ → Bytes → Option IpAddr
dest_of version pkt =
    if (version == 4) && leb 20 (length pkt)
    then some (v4 (take 4 (drop 16 pkt)))
    else if (version == 6) && leb 40 (length pkt)
    then some (v6 (take 16 (drop 24 pkt)))
    else none

unfoldable pub dest_ip : Bytes → Option IpAddr
dest_ip [] = none
dest_ip (b ∷ pkt) = dest_of (b / 2 ^ 4) (b ∷ pkt)

-- is the range longer than the best one so far?
abbrev longer : Option (ℕ × ℕ) → ℕ → Bool
longer none prefix = true
longer (some (i, best)) prefix = ltb best prefix

-- the inner loop, over the ranges of the peer at `i`
scan_cidrs : ℕ → IpAddr → List Cidr → Option (ℕ × ℕ) → Option (ℕ × ℕ)
scan_cidrs i dst [] best = best
scan_cidrs i dst (c ∷ cs) best =
    scan_cidrs i dst cs
      (if contains c dst && longer best c.prefix then some (i, c.prefix) else best)

module _ {T : Type 0} where
  abbrev pub is_site : ℤ → Peer T → Bool
  is_site site p = int_eq p.site_id site

  all_of : List (Peer T) → List (ℤ × Cidr)
  all_of [] = []
  all_of (p ∷ ps) = map (λ c. (p.site_id, c)) p.cidrs ++ all_of ps

  scan_peers : ℕ → IpAddr → List (Peer T) → Option (ℕ × ℕ) → Option (ℕ × ℕ)
  scan_peers i dst [] best = best
  scan_peers i dst (p ∷ ps) best = scan_peers (suc i) dst ps (scan_cidrs i dst p.cidrs best)

module _ {S T : Type 0} where
  unfoldable pub new : S → ℕ → Router S T
  new secret mtu = record { secret = secret; mtu = mtu; peers = []; next_index = 1 }

  abbrev pub peer_count : Router S T → ℕ
  peer_count r = length r.peers

  unfoldable pub remove_peer : Router S T → ℤ → Router S T
  remove_peer r site = record r { peers = retain (λ p. not (is_site site p)) r.peers }

  unfoldable pub set_endpoint : Router S T → ℤ → SocketAddr → Router S T
  set_endpoint r site endpoint = record r {
    peers = update_first (is_site site) (λ p. record p { endpoint = endpoint }) r.peers;
  }

  unfoldable pub set_cidrs : Router S T → ℤ → List Cidr → Router S T
  set_cidrs r site cidrs = record r {
    peers = update_first (is_site site) (λ p. record p { cidrs = cidrs }) r.peers;
  }

  unfoldable pub add_cidrs : Router S T → ℤ → List Cidr → Router S T
  add_cidrs r site cidrs = record r {
    peers = update_first (is_site site) (λ p. record p { cidrs = p.cidrs ++ cidrs }) r.peers;
  }

  unfoldable pub remove_cidrs : Router S T → ℤ → List Cidr → Router S T
  remove_cidrs r site gone = record r {
    peers =
        update_first (is_site site)
          (λ p. record p { cidrs = retain (λ c. not (any (λ d. same_cidr c d) gone)) p.cidrs })
          r.peers;
  }

  unfoldable pub all_cidrs : Router S T → List (ℤ × Cidr)
  unfolding all_of
  all_cidrs r = all_of r.peers

  unfoldable pub best_peer : Router S T → IpAddr → Option ℕ
  unfolding scan_peers scan_cidrs
  best_peer r dst = Option.map (λ (b : ℕ × ℕ). b.0) (scan_peers 0 dst r.peers none)

  unfoldable pub route_target : Router S T → IpAddr → Option SocketAddr
  route_target r dst = do i ← best_peer r dst; p ← get_elem? r.peers i; some p.endpoint

module _ (noise : Noise) where
  open noise use {Tunn, StaticSecret, queued}

  -- a peer with a new session, and the datagram that starts the handshake
  start_peer :
      Router StaticSecret Tunn
      → ℤ
      → noise.PublicKey
      → SocketAddr
      → List Cidr
      → Peer Tunn × Option (Bytes × SocketAddr)
  start_peer r site peer_pub endpoint cidrs =
      let (pump, init) =
        Wg.initiate_handshake noise (Wg.with_index noise r.secret peer_pub r.mtu r.next_index) in
      (
        record {
          site_id = site;
          pump = pump;
          endpoint = endpoint;
          cidrs = cidrs;
          index = r.next_index;
        },
        Option.map (λ b. (b, endpoint)) init,
      )

  -- `wrapping_add(1).max(1)` on `u32`
  abbrev pub after_index : ℕ → ℕ
  after_index i = max ((i + 1) % 2 ^ 32) 1

  -- `upsert_peer` with the decoded key
  add_peer :
      Router StaticSecret Tunn
      → ℤ
      → SocketAddr
      → List Cidr
      → noise.PublicKey
      → Router StaticSecret Tunn × Option (Bytes × SocketAddr)
  unfolding start_peer
  add_peer r site endpoint cidrs peer_pub =
      let kept = remove_peer r site in
      let (peer, init) = start_peer kept site peer_pub endpoint cidrs in
      (
        record kept { peers = kept.peers ++ peer ∷ []; next_index = after_index kept.next_index },
        init,
      )

  unfoldable pub upsert_peer :
      Router StaticSecret Tunn
      → ℤ
      → Text
      → SocketAddr
      → List Cidr
      → Router StaticSecret Tunn × Option (Bytes × SocketAddr)
  unfolding add_peer
  upsert_peer r site key endpoint cidrs = elim (public_from_b64 noise key) [
    | none ↦ (r, none)
    | some peer_pub ↦ add_peer r site endpoint cidrs peer_pub
  ]

  unfoldable pub send_peer :
      Router StaticSecret Tunn
      → Bytes
      → ℕ
      → Option (Peer Tunn)
      → Router StaticSecret Tunn × Option (Bytes × SocketAddr)
  send_peer r pkt i none = (r, none)
  send_peer r pkt i (some p) =
      let (pump, dg) = Wg.encapsulate noise p.pump pkt in
      (
        record r { peers = set r.peers i (record p { pump = pump }) },
        Option.map (λ b. (b, p.endpoint)) dg,
      )

  unfoldable pub route_outbound :
      Router StaticSecret Tunn → Bytes → Router StaticSecret Tunn × Option (Bytes × SocketAddr)
  unfolding send_peer
  route_outbound r pkt = elim (do dst ← dest_ip pkt; best_peer r dst) [
    | none ↦ (r, none)
    | some i ↦ send_peer r pkt i (get_elem? r.peers i)
  ]

  abbrev push : Inbound → SocketAddr → List Out
  push (packet pkt) endpoint = to_host pkt ∷ []
  push (network b) endpoint = to_net b endpoint ∷ []
  push nothing endpoint = []

  -- the loop over `drain`; the fuel bounds its rounds
  drain_all : ℕ → Pump Tunn → SocketAddr → Pump Tunn × List Out
  drain_all zero p endpoint = (p, [])
  drain_all (suc fuel) p endpoint =
      let (p', inb) = Wg.drain noise p in
      let rest = drain_all fuel p' endpoint in
      elim inb [
        | nothing ↦ (p', [])
        | packet pkt ↦ (rest.0, to_host pkt ∷ rest.1)
        | network b ↦ (rest.0, to_net b endpoint ∷ rest.1)
      ]

  receive : Peer Tunn → Bytes → Peer Tunn × List Out
  unfolding drain_all
  receive p datagram =
      let (pump, inb) = Wg.decapsulate noise p.pump datagram in
      let (pump', rest) = drain_all (suc (queued pump.tun)) pump p.endpoint in
      (record p { pump = pump' }, push inb p.endpoint ++ rest)

  abbrev pub has_index : ℕ → Peer Tunn → Bool
  has_index i p = p.index == i

  unfoldable pub handle_inbound :
      Router StaticSecret Tunn → Bytes → Router StaticSecret Tunn × List Out
  unfolding receive
  handle_inbound r datagram = elim (peer_index_of datagram) [
    | none ↦ (r, [])
    | some i ↦ elim (find (has_index i) r.peers) [
      | none ↦ (r, [])
      | some p ↦ (
        record r { peers = update_first (has_index i) (λ q. (receive q datagram).0) r.peers },
        (receive p datagram).1,
      )
    ]
  ]

  pub tick_peers : List (Peer Tunn) → List (Peer Tunn) × List (Bytes × SocketAddr)
  tick_peers [] = ([], [])
  tick_peers (p ∷ ps) =
      let (pump, dg) = Wg.update_timers noise p.pump in
      let (ps', out) = tick_peers ps in
      (record p { pump = pump } ∷ ps', elim dg [ none ↦ out | some b ↦ (b, p.endpoint) ∷ out ])

  unfoldable pub tick :
      Router StaticSecret Tunn → Router StaticSecret Tunn × List (Bytes × SocketAddr)
  unfolding tick_peers
  tick r = let (ps, out) = tick_peers r.peers in (record r { peers = ps }, out)
