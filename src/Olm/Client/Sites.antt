-- ===== src/Olm/Client/Sites.antt =====
-- What the update of a site does to the table of sites: in `build_dataplane`, and in a message.
use newt_rust.Common.{
  true, false, List, [], ◌∷◌, Option, none, some, ◌≡◌, refl, ap, subst, inl, inr, arith, Bool-cases,
  Text, is_empty,
}
use newt_rust.Common.Results.{Result, ok, err}
use newt_rust.Common.Io.{after, forget, after-eq-ok}
use newt_rust.Common.Net.{Bytes, SocketAddr}
use newt_rust.Wg.{Noise, public_from_b64}
use newt_rust.Olm.Cidr.{IpParser}
use newt_rust.Olm.Proto.{SiteConfig, wg_endpoint, routed_cidrs}
use newt_rust.Olm.Router.{Router, upsert_peer}
use newt_rust.Olm.Plane.{
  Network, Device, Plane, Building, parse_cidrs, resolve, add_site, set_up_site, set_up, upsert_at,
  upsert_site, routes_added, send_all, to_list,
}
use newt_rust.Olm.Client.{update_site, update_sites}
use newt_rust.Olm.Client.Table.{Table, table, apply, put, table-upsert_peer}

module _ {V : Type 0} (net : Network V) where
  open net use {World}

  -- The resolver has an answer for the text, or none, in some state of the world.
  abbrev pub Resolves : Text → SocketAddr → Type 0
  Resolves host ep = (w : World) × (w' : World) × (resolve net host w ≡ (ok ep, w'))

  abbrev pub Unresolved : Text → Type 0
  Unresolved host = (w : World) × (w' : World) × (why : Text) × (resolve net host w ≡ (err why, w'))

  -- From one table to the next by the configuration of a site.
  pub data SiteStep (noise : Noise) (std : IpParser) (site : SiteConfig) (t t' : Table)
      : Type 0 where
    -- it has no key
    keyless : is_empty site.public_key ≡ true → t' ≡ t → SiteStep noise std site t t'
    unresolved : Unresolved (wg_endpoint site) → t' ≡ t → SiteStep noise std site t t'
    -- its key is malformed
    malformed : public_from_b64 noise site.public_key ≡ none → t' ≡ t → SiteStep noise std site t t'
    -- its key is well-formed, and it is put in, with its endpoint resolved and those of its ranges that parse
    puts :
        (ep : SocketAddr)
        → is_empty site.public_key ≡ false
        → (k : noise.PublicKey) × (public_from_b64 noise site.public_key ≡ some k)
        → Resolves (wg_endpoint site) ep
        → t' ≡ apply t (put site.site_id ep (parse_cidrs std (routed_cidrs site)))
        → SiteStep noise std site t t'

  -- From one table to the next by the configurations of sites, in their order.
  abbrev pub SiteSteps : Noise → IpParser → List SiteConfig → Table → Table → Type 0
  SiteSteps noise std [] t t' = t' ≡ t
  SiteSteps noise std (site ∷ sites) t t' =
      (m : Table) × SiteStep noise std site t m × SiteSteps noise std sites m t'

module _ {V : Type 0} (noise : Noise) (std : IpParser) (net : Network V) where
  open noise use {StaticSecret, Tunn}
  open net use {World}

  upsert_peer-SiteStep :
      (site : SiteConfig) (r : Router StaticSecret Tunn) (ep : SocketAddr)
      → is_empty site.public_key ≡ false
      → Resolves net (wg_endpoint site) ep
      → SiteStep net noise std site (table r) (
          table
            (upsert_peer noise r site.site_id site.public_key ep
              (parse_cidrs std (routed_cidrs site))).0)
  upsert_peer-SiteStep site r ep keyed found =
      elim (table-upsert_peer noise r site.site_id site.public_key ep
        (parse_cidrs std (routed_cidrs site))) [
          | inl (bad, same) ↦ malformed bad (ap table same)
          | inr (good, new) ↦ puts ep keyed good found new
        ]

  add_found-SiteStep :
      (site : SiteConfig) (b : Building StaticSecret Tunn) (w : World)
      (found : Result SocketAddr × World)
      → resolve net (wg_endpoint site) w ≡ found
      → is_empty site.public_key ≡ false
      → (b' : Building StaticSecret Tunn) (w' : World)
      → after (forget found) (λ ep w1. (ok (add_site noise std site b ep), w1)) ≡ (ok b', w')
      → SiteStep net noise std site (table b.router) (table b'.router)
  unfolding add_site
  add_found-SiteStep site b w (err why, w1) e keyed b' w' h =
      let same : b' ≡ b = ground arith in
      unresolved (w, w1, why, e) (ap (λ (c : Building StaticSecret Tunn). table c.router) same)
  add_found-SiteStep site b w (ok ep, w1) e keyed b' w' h =
      let same : add_site noise std site b (some ep) ≡ b' = ground arith in
      subst
        (λ (c : Building StaticSecret Tunn).
          SiteStep net noise std site (table b.router) (table c.router))
        same (upsert_peer-SiteStep site b.router ep keyed (w, w1, e))

  set_up_site-SiteStep :
      (site : SiteConfig) (b b' : Building StaticSecret Tunn) (w w' : World)
      → set_up_site noise std net site b w ≡ (ok b', w')
      → SiteStep net noise std site (table b.router) (table b'.router)
  unfolding set_up_site
  set_up_site-SiteStep site b b' w w' h = elim (Bool-cases (is_empty site.public_key)) [
    | inl e ↦
        let same : b' ≡ b = ground (arith, e) in
        keyless e (ap (λ (c : Building StaticSecret Tunn). table c.router) same)
    | inr e ↦ add_found-SiteStep site b w _ refl e b' w' (rw e at h)
  ]

  pub set_up-SiteSteps :
      (sites : List SiteConfig) (b b' : Building StaticSecret Tunn) (w w' : World)
      → set_up noise std net sites b w ≡ (ok b', w')
      → SiteSteps net noise std sites (table b.router) (table b'.router)
  unfolding set_up
  set_up-SiteSteps [] b b' w w' h =
      let same : b' ≡ b = ground arith in
      ap (λ (c : Building StaticSecret Tunn). table c.router) same
  set_up-SiteSteps (site ∷ sites) b b' w w' h =
      let (m, w1, first, rest) = after-eq-ok (set_up_site noise std net site b w) _ h in
      (
        table m.router,
        set_up_site-SiteStep site b m w w1 first,
        set_up-SiteSteps sites m b' w1 w' rest,
      )

module _ {V : Type 0} (noise : Noise) (std : IpParser) (net : Network V)
    (dev : Device net.World) where
  open noise use {StaticSecret, Tunn}
  open net use {World}

  abbrev pub sites_of : Plane noise std net dev → Table
  sites_of d = table d.router

  upsert_found-SiteStep :
      (site : SiteConfig) (d : Plane noise std net dev) (w : World)
      (found : Result SocketAddr × World)
      → resolve net (wg_endpoint site) w ≡ found
      → is_empty site.public_key ≡ false
      → (d' : Plane noise std net dev) (init : Option (Bytes × SocketAddr)) (w' : World)
      → after (forget found) (upsert_at noise std net dev d site) ≡ (ok (d', init), w')
      → SiteStep net noise std site (sites_of d) (sites_of d')
  unfolding upsert_at routes_added
  upsert_found-SiteStep site d w (err why, w1) e keyed d' init w' h =
      let same : d' ≡ d = ground arith in unresolved (w, w1, why, e) (ap sites_of same)
  upsert_found-SiteStep site d w (ok ep, w1) e keyed d' init w' h =
      let r' =
        (upsert_peer noise d.router site.site_id site.public_key ep
          (parse_cidrs std (routed_cidrs site))).0 in
      let same : r' ≡ d'.router = ground arith in
      subst (λ (r : Router StaticSecret Tunn). SiteStep net noise std site (sites_of d) (table r))
        same (upsert_peer-SiteStep noise std net site d.router ep keyed (w, w1, e))

  upsert_site-SiteStep :
      (site : SiteConfig) (d d' : Plane noise std net dev) (init : Option (Bytes × SocketAddr))
      (w w' : World)
      → upsert_site noise std net dev d site w ≡ (ok (d', init), w')
      → SiteStep net noise std site (sites_of d) (sites_of d')
  unfolding upsert_site
  upsert_site-SiteStep site d d' init w w' h = elim (Bool-cases (is_empty site.public_key)) [
    | inl e ↦ let same : d' ≡ d = ground (arith, e) in keyless e (ap sites_of same)
    | inr e ↦ upsert_found-SiteStep site d w _ refl e d' init w' (rw e at h)
  ]

  pub update_site-SiteStep :
      (site : SiteConfig) (d d' : Plane noise std net dev) (w w' : World)
      → update_site noise std net dev d site w ≡ (ok d', w')
      → SiteStep net noise std site (sites_of d) (sites_of d')
  unfolding update_site
  update_site-SiteStep site d d' w w' h =
      let ((m, init), w1, first, rest) = after-eq-ok (upsert_site noise std net dev d site w) _ h in
      let (u, w2, sent, last) = after-eq-ok (send_all net (to_list init) w1) _ rest in
      let same : m ≡ d' = ground arith in
      subst (λ (c : Plane noise std net dev). SiteStep net noise std site (sites_of d) (sites_of c))
        same (upsert_site-SiteStep site d m init w w1 first)

  pub update_sites-SiteSteps :
      (sites : List SiteConfig) (d d' : Plane noise std net dev) (w w' : World)
      → update_sites noise std net dev d sites w ≡ (ok d', w')
      → SiteSteps net noise std sites (sites_of d) (sites_of d')
  unfolding update_sites
  update_sites-SiteSteps [] d d' w w' h = let same : d' ≡ d = ground arith in ap sites_of same
  update_sites-SiteSteps (site ∷ sites) d d' w w' h =
      let (m, w1, first, rest) = after-eq-ok (update_site noise std net dev d site w) _ h in
      (
        sites_of m,
        update_site-SiteStep site d m w w1 first,
        update_sites-SiteSteps sites m d' w1 w' rest,
      )
