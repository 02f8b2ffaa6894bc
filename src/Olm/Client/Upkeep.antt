-- ===== src/Olm/Client/Upkeep.antt =====
-- What every call of a method keeps of the router, the set-up and the updates of a data plane keep.
use newt_rust.Common.{List, [], ◌∷◌, Option, none, some, is_empty, Bool-cases, inl, inr}
use newt_rust.Common.Results.{Result}
use newt_rust.Common.Io.{pure, lift, ◌>>◌, Ends, Ends-after, Ends-any, attempt, after}
use newt_rust.Common.Int.{ℤ}
use newt_rust.Common.Net.{Bytes, SocketAddr}
use newt_rust.Config.Model.{ClientRun}
use newt_rust.Wg.{Noise, Keys}
use newt_rust.Olm.Cidr.{Cidr, IpParser}
use newt_rust.Olm.Proto.{SiteConfig, WgData, wg_endpoint}
use newt_rust.Olm.Plane.{
  Network, Device, Plane, Building, resolve, add_site, set_up_site, set_up, routes_added,
  build_dataplane, send_all, tunnel_addr, to_list, upsert_at, upsert_site,
}
use newt_rust.Olm.Router
use newt_rust.Olm.Router.{Router}
use newt_rust.Olm.Router.Calls
use newt_rust.Olm.Router.Calls.{Call}
use newt_rust.Olm.Client.{update_site, update_sites, move_to}

module _ {V : Type 0} (noise : Noise) (std : IpParser) (net : Network V) (dev : Device net.World)
    (P : Router noise.StaticSecret noise.Tunn → Type 0)
    (keep : (r : Router noise.StaticSecret noise.Tunn) (c : Call)
      → P r
      → P (Calls.step noise r c)) where
  open noise use {StaticSecret, Tunn}
  open net use {World}

  abbrev pub Here : Type 0
  Here = Plane noise std net dev

  abbrev pub Holds : Here → Type 0
  Holds d = P d.router

  abbrev Built : Building StaticSecret Tunn → Type 0
  Built b = P b.router

  add_site-Built :
      (site : SiteConfig) (b : Building StaticSecret Tunn) (o : Option SocketAddr)
      → Built b
      → Built (add_site noise std site b o)
  unfolding add_site Calls.step
  add_site-Built site b none h = h
  add_site-Built site b (some ep) h = keep b.router (Call.upserts _ _ _ _) h

  set_up_site-Ends :
      (site : SiteConfig) (b : Building StaticSecret Tunn) (w : World)
      → Built b
      → Ends Built (set_up_site noise std net site b w)
  unfolding set_up_site
  set_up_site-Ends site b w h = elim (Bool-cases (is_empty site.public_key)) [
    | inl e ↦ rw e h
    | inr e ↦ rw e (
        Ends-any Built (attempt (resolve net (wg_endpoint site)) w) _
          (λ o w1. add_site-Built site b o h))
  ]

  set_up-Ends :
      (sites : List SiteConfig) (b : Building StaticSecret Tunn) (w : World)
      → Built b
      → Ends Built (set_up noise std net sites b w)
  unfolding set_up
  set_up-Ends [] b w h = h
  set_up-Ends (site ∷ sites) b w h =
      Ends-after Built Built (set_up_site noise std net site b w) _ (set_up_site-Ends site b w h)
        (λ b' w1 h1. set_up-Ends sites b' w1 h1)

  pub routes_added-Ends :
      (cidrs : List Cidr) (d : Here) (w : World)
      → Holds d
      → Ends
          (λ (x : Here × Result (Unit {0})). Holds x.0)
          (routes_added noise std net dev cidrs d w)
  unfolding routes_added
  routes_added-Ends cidrs d w h = h

  pub build_dataplane-Ends :
      (cfg : ClientRun) (keys : Keys StaticSecret) (wg : WgData) (w : World)
      → P (Router.new keys.secret cfg.mtu)
      → Ends
          (λ (x : Here × List (Bytes × SocketAddr)). Holds x.0)
          (build_dataplane noise std net dev cfg keys wg w)
  unfolding build_dataplane
  build_dataplane-Ends cfg keys wg w start =
      let Q : Here × List (Bytes × SocketAddr) → Type 0 = λ x. Holds x.0 in
      Ends-any Q (tunnel_addr std wg.tunnel_ip, w) _
        (λ ip w1. Ends-any Q (dev.new cfg ip w1) _ (λ backend w2.
          Ends-after Built Q
            (set_up noise std net wg.sites
              (record { router = Router.new keys.secret cfg.mtu; inits = []; all_cidrs = [] }) w2)
            _
            (set_up-Ends wg.sites
              (record { router = Router.new keys.secret cfg.mtu; inits = []; all_cidrs = [] }) w2
              start)
            (λ b w3 h3.
              Ends-after (λ x. Holds x.0) Q
                (routes_added noise std net dev b.all_cidrs
                  (record { router = b.router; backend = backend }) w3)
                (λ x. do lift x.1; pure (x.0, b.inits))
                (routes_added-Ends b.all_cidrs (record { router = b.router; backend = backend }) w3
                  h3)
                (λ x w4 h4. Ends-any Q (x.1, w4) (λ u. pure (x.0, b.inits)) (λ u w5. h4)))))

  upsert_at-Ends :
      (d : Here) (site : SiteConfig) (o : Option SocketAddr) (w : World)
      → Holds d
      → Ends
          (λ (x : Here × Option (Bytes × SocketAddr)). Holds x.0)
          (upsert_at noise std net dev d site o w)
  unfolding upsert_at routes_added Calls.step
  upsert_at-Ends d site none w h = h
  upsert_at-Ends d site (some ep) w h = keep d.router (Call.upserts _ _ _ _) h

  pub update_site-Ends :
      (d : Here) (site : SiteConfig) (w : World)
      → Holds d
      → Ends Holds (update_site noise std net dev d site w)
  unfolding update_site upsert_site
  update_site-Ends d site w h = elim (Bool-cases (is_empty site.public_key)) [
    | inl e ↦ rw e (Ends-any Holds (send_all net [] w) _ (λ u w1. h))
    | inr e ↦ rw e (
        Ends-after (λ x. Holds x.0) Holds
          (after (attempt (resolve net (wg_endpoint site)) w) (upsert_at noise std net dev d site))
          _
          (Ends-any (λ x. Holds x.0) (attempt (resolve net (wg_endpoint site)) w) _
            (λ o w1. upsert_at-Ends d site o w1 h))
          (λ x w2 h2. Ends-any Holds (send_all net (to_list x.1) w2) _ (λ u w3. h2)))
  ]

  pub update_sites-Ends :
      (d : Here) (sites : List SiteConfig) (w : World)
      → Holds d
      → Ends Holds (update_sites noise std net dev d sites w)
  unfolding update_sites
  update_sites-Ends d [] w h = h
  update_sites-Ends d (site ∷ sites) w h =
      Ends-after Holds Holds (update_site noise std net dev d site w) _
        (update_site-Ends d site w h) (λ d' w1 h1. update_sites-Ends d' sites w1 h1)

  pub move_to-Holds :
      (d : Here) (site : ℤ) (o : Option SocketAddr)
      → Holds d
      → Holds (move_to noise std net dev d site o)
  unfolding move_to Calls.step
  move_to-Holds d site none h = h
  move_to-Holds d site (some ep) h = keep d.router (Call.sets_endpoint site ep) h
