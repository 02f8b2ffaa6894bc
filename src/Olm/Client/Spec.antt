-- ===== src/Olm/Client/Spec.antt =====
-- The specification of the control messages: the table of sites behind each.
use newt_rust.Common.{
  codes, text_eq, if◌then◌else◌, refl, List, [], ◌∷◌, Option, none, some, ◌≡◌, ◌⊎◌, Text,
}
use newt_rust.Common.Int.{ℤ}
use newt_rust.Common.Net.{SocketAddr}
use newt_rust.Wg.{Noise}
use newt_rust.Olm.Cidr.{IpParser}
use newt_rust.Olm.Proto.{SiteConfig, WgData, Serde}
use newt_rust.Olm.Proto.Topic.{
  errors, terminates, ignores, arm_of, Arm, connects, upserts, removes, relays, unrelays, adds_data,
  removes_data, syncs,
}
use newt_rust.Olm.Plane.{Network, parse_cidrs}
use newt_rust.Olm.Client.Table.{Table, empty, apply, drop, move, grow, shrink}
use newt_rust.Olm.Client.Sites.{Resolves, Unresolved, SiteStep, SiteSteps}

-- By whether a payload decodes, and to what.
abbrev pub Decoded : {A : Type 0} → Option A → (A → Type 0) → Type 0 → Type 0
Decoded none P Q = Q
Decoded (some a) P Q = P a

abbrev pub sites_given : Option WgData → List SiteConfig
sites_given none = []
sites_given (some wg) = wg.sites

-- what each topic is for
abbrev topics : List (Text × Arm)
topics =
    (codes "olm/wg/connect", connects)
    ∷ (codes "olm/wg/peer/add", upserts)
    ∷ (codes "olm/wg/peer/update", upserts)
    ∷ (codes "olm/wg/peer/remove", removes)
    ∷ (codes "olm/wg/peer/relay", relays)
    ∷ (codes "olm/wg/peer/unrelay", unrelays)
    ∷ (codes "olm/wg/peer/data/add", adds_data)
    ∷ (codes "olm/wg/peer/data/remove", removes_data)
    ∷ (codes "olm/sync", syncs)
    ∷ (codes "olm/error", errors)
    ∷ (codes "olm/terminate", terminates)
    ∷ []

-- Any other topic is ignored.
abbrev pub purpose_in : List (Text × Arm) → Text → Arm
purpose_in [] typ = ignores
purpose_in ((topic, arm) ∷ ts) typ = if text_eq typ topic then arm else purpose_in ts typ

abbrev pub purpose_of : Text → Arm
purpose_of typ = purpose_in topics typ

pub arm_of-purpose_of : (typ : Text) → arm_of typ ≡ purpose_of typ
unfolding arm_of
arm_of-purpose_of typ = refl

module _ {V : Type 0} (net : Network V) where
  -- The peer of a site gets the endpoint that the text resolves to; nothing changes where it does not.
  abbrev pub Moved : ℤ → Text → Table → Table → Type 0
  Moved site host t t' =
      (Unresolved net host × (t' ≡ t))
      ⊎ ((ep : SocketAddr) × Resolves net host ep × (t' ≡ apply t (move site ep)))

module _ {V : Type 0} (noise : Noise) (std : IpParser) (net : Network V) (serde : Serde V) where
  -- The table behind a message, by its arm and its payload.
  abbrev pub Effect : Arm → V → Table → Table → Type 0
  Effect connects v t t' = SiteSteps net noise std (sites_given (serde.wg_data v)) empty t'
  Effect upserts v t t' =
      Decoded (serde.site_config v) (λ site. SiteStep net noise std site t t') (t' ≡ t)
  Effect removes v t t' =
      Decoded (serde.peer_remove v) (λ r. t' ≡ apply t (drop r.site_id)) (t' ≡ t)
  Effect relays v t t' =
      Decoded (serde.peer_relay v) (λ r. Moved net r.site_id r.relay_endpoint t t') (t' ≡ t)
  Effect unrelays v t t' =
      Decoded (serde.peer_unrelay v) (λ r. Moved net r.site_id r.endpoint t t') (t' ≡ t)
  Effect adds_data v t t' =
      Decoded (serde.peer_data v)
        (λ r. t' ≡ apply t (grow r.site_id (parse_cidrs std r.remote_subnets))) (t' ≡ t)
  Effect removes_data v t t' =
      Decoded (serde.peer_data v)
        (λ r. t' ≡ apply t (shrink r.site_id (parse_cidrs std r.remote_subnets))) (t' ≡ t)
  Effect syncs v t t' =
      Decoded (serde.sync_data v) (λ s. SiteSteps net noise std s.sites t t') (t' ≡ t)
  Effect _ v t t' = t' ≡ t
