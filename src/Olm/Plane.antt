-- ===== src/Olm/Plane.antt =====
-- The data plane of a client, its set-up and the update of one site (crates/newt/src/olm/mod.rs). The
-- resolver and the sockets are the parameter `Network`, and the backend is the interface `Device`.
-- Messages to the log are left out.
use newt_rust.Common.{
  ℕ, List, [], ◌∷◌, ◌++◌, Option, none, some, Text, codes, is_empty, get_elem?, get_or, filter_map,
  if◌then◌else◌,
}
use newt_rust.Common.Results.{Result, ok_or}
use newt_rust.Common.Io.{Io, pure, lift, attempt, ◌>>=◌, ◌>>◌}
use newt_rust.Common.Net.{Bytes, IpAddr, SocketAddr}
use newt_rust.Core.Proto.{WsMessage}
use newt_rust.Config.Parse.{split}
use newt_rust.Config.Model.{ClientRun}
use newt_rust.Wg.{Noise, Keys}
use newt_rust.Olm.Cidr
use newt_rust.Olm.Cidr.{Cidr, IpParser}
use newt_rust.Olm.Proto.{SiteConfig, WgData, wg_endpoint, routed_cidrs}
use newt_rust.Olm.Router
use newt_rust.Olm.Router.{Router, remove_peer, set_endpoint, add_cidrs, remove_cidrs, upsert_peer}

-- The system's resolver and the UDP socket, and the WebSocket, which carries messages over `V`.
pub record Network (V : Type 0) : Type 1 where
  pub World : Type 0
  -- `lookup_host` of a text, and of a host with a port
  pub lookup_host : Text → Io World (List SocketAddr)
  pub lookup_port : Text → ℕ → Io World (List SocketAddr)
  pub send_to : Bytes → SocketAddr → Io World (Unit {0})
  pub ws_send : WsMessage V → Io World (Unit {0})

-- What the session uses of `Backend`. A backend outlives routes that could not be added.
pub record Device (W : Type 0) : Type 1 where
  pub Backend : Type 0
  pub new : ClientRun → IpAddr → Io W Backend
  pub drive : Backend → Io W (Backend × List Bytes)
  pub deliver_inbound : Backend → Bytes → Io W Backend
  pub add_routes : Backend → List Cidr → W → (Backend × Result (Unit {0})) × W

pub record DataPlane (S T B : Type 0) : Type 0 where
  pub router : Router S T
  pub backend : B

-- What `build_dataplane` gathers over the sites.
pub record Building (S T : Type 0) : Type 0 where
  pub router : Router S T
  pub inits : List (Bytes × SocketAddr)
  pub all_cidrs : List Cidr

-- the datagram of an `Option`, as a list
abbrev pub to_list : {A : Type 0} → Option A → List A
to_list none = []
to_list (some a) = a ∷ []

abbrev pub parse_cidrs : IpParser → List Text → List Cidr
parse_cidrs std specs = filter_map (Cidr.parse std) specs

-- the part of `tunnelIP` in front of a slash, as an address
unfoldable pub tunnel_addr : IpParser → Text → Result IpAddr
unfolding split
tunnel_addr std spec =
    ok_or (codes "bad olm tunnelIP") (std.parse_ip (get_or (split b'/' spec) 0 spec))

module _ {V : Type 0} (net : Network V) where
  open net use {World, lookup_host, send_to}

  unfoldable pub resolve : Text → Io World SocketAddr
  resolve hostport = do
    addrs ← lookup_host hostport
    lift (ok_or (codes "resolve " ++ hostport) (get_elem? addrs 0))

  -- `for (b, e) in .. { udp.send_to(&b, e).await?; }`
  unfoldable pub send_all : List (Bytes × SocketAddr) → Io World (Unit {0})
  send_all [] = pure tt
  send_all ((b, e) ∷ rest) = let more = send_all rest in do send_to b e; more

module _ (noise : Noise) (std : IpParser) where
  open noise use {StaticSecret, Tunn}

  -- one site of `build_dataplane`, with its endpoint
  unfoldable pub add_site :
      SiteConfig → Building StaticSecret Tunn → Option SocketAddr → Building StaticSecret Tunn
  add_site site b none = b
  add_site site b (some ep) =
      let cidrs = parse_cidrs std (routed_cidrs site) in
      let (router, init) = upsert_peer noise b.router site.site_id site.public_key ep cidrs in
      record { router = router; inits = b.inits ++ to_list init; all_cidrs = b.all_cidrs ++ cidrs }

module _ {V : Type 0} (noise : Noise) (std : IpParser) (net : Network V) where
  open noise use {StaticSecret, Tunn}
  open net use {World}

  unfoldable pub set_up_site :
      SiteConfig → Building StaticSecret Tunn → Io World (Building StaticSecret Tunn)
  set_up_site site b =
      if is_empty site.public_key
      then pure b
      else do ep ← attempt (resolve net (wg_endpoint site)); pure (add_site noise std site b ep)

  -- the loop over the sites
  unfoldable pub set_up :
      List SiteConfig → Building StaticSecret Tunn → Io World (Building StaticSecret Tunn)
  set_up [] b = pure b
  set_up (site ∷ sites) b = do b' ← set_up_site site b; set_up sites b'

module _ {V : Type 0} (noise : Noise) (std : IpParser) (net : Network V)
    (dev : Device net.World) where
  open noise use {StaticSecret, Tunn}
  open net use {World, send_to}
  open dev use {Backend}

  abbrev pub Plane : Type 0
  Plane = DataPlane StaticSecret Tunn Backend

  -- `add_routes`, with the error as a value
  unfoldable pub routes_added : List Cidr → Plane → Io World (Plane × Result (Unit {0}))
  routes_added cidrs d w =
      let ((backend, res), w') = dev.add_routes d.backend cidrs w in
      pure (record d { backend = backend }, res) w'

  unfoldable pub build_dataplane :
      ClientRun → Keys StaticSecret → WgData → Io World (Plane × List (Bytes × SocketAddr))
  unfolding tunnel_addr set_up routes_added
  build_dataplane cfg keys wg = do
    tunnel_ip ← lift (tunnel_addr std wg.tunnel_ip)
    let router = Router.new keys.secret cfg.mtu
    backend ← dev.new cfg tunnel_ip
    b ← set_up noise std net wg.sites (record { router = router; inits = []; all_cidrs = [] })
    (d, added) ← routes_added b.all_cidrs (record { router = b.router; backend = backend })
    lift added
    pure (d, b.inits)

  -- `upsert_site` behind the resolved endpoint
  unfoldable pub upsert_at :
      Plane → SiteConfig → Option SocketAddr → Io World (Plane × Option (Bytes × SocketAddr))
  upsert_at d site none = pure (d, none)
  upsert_at d site (some ep) = do
    let cidrs = parse_cidrs std (routed_cidrs site)
    let (router, init) = upsert_peer noise d.router site.site_id site.public_key ep cidrs
    (d', _) ← routes_added cidrs (record d { router = router })
    pure (d', init)

  unfoldable pub upsert_site : Plane → SiteConfig → Io World (Plane × Option (Bytes × SocketAddr))
  unfolding upsert_at
  upsert_site d site =
      if is_empty site.public_key
      then pure (d, none)
      else do ep ← attempt (resolve net (wg_endpoint site)); upsert_at d site ep
