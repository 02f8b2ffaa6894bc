-- ===== src/Olm/Client/Table.antt =====
-- The abstract view of a client: for each site, the endpoint of its peer and the ranges routed to it.
use newt_rust.Common.{
  false, not, List, [], ◌∷◌, ◌++◌, Option, none, some, ◌≡◌, refl, ◌∙◌, ap, inl, inr, ◌⊎◌, arith,
  Bool-cases, retain, any, find, update_first, if◌then◌else◌, Text,
}
use mathlib.Core.Path.{fun_ext}
use newt_rust.Common.Int.{ℤ, int_eq, int_eq→eq, int_eq_comm}
use newt_rust.Common.Net.{Bytes, SocketAddr}
use newt_rust.Wg.{Noise, public_from_b64}
use newt_rust.Olm.Cidr.{Cidr, same_cidr}
use newt_rust.Olm.Router.{
  Peer, Router, is_site, remove_peer, set_endpoint, add_cidrs, remove_cidrs, upsert_peer,
}
use newt_rust.Olm.Router.Peers.{
  peer_of, Upserted, upsert_peer-Upserted, find-retain_self, find-retain_other,
}

abbrev pub Entry : Type 0
Entry = SocketAddr × List Cidr

abbrev pub Table : Type 0
Table = ℤ → Option Entry

abbrev pub empty : Table
empty s = none

abbrev pub entry : {T : Type 0} → Option (Peer T) → Option Entry
entry none = none
entry (some p) = some (p.endpoint, p.cidrs)

abbrev pub table : {S T : Type 0} → Router S T → Table
table r s = entry (peer_of s r)

-- What can happen to a table: a site is put in or replaced, dropped, moved to another endpoint, or its
-- ranges grow or shrink.
pub data Edit : Type 0 where
  put : ℤ → SocketAddr → List Cidr → Edit
  drop : ℤ → Edit
  move : ℤ → SocketAddr → Edit
  grow : ℤ → List Cidr → Edit
  shrink : ℤ → List Cidr → Edit

abbrev pub on_entry : (Entry → Entry) → Option Entry → Option Entry
on_entry f none = none
on_entry f (some e) = some (f e)

abbrev pub apply : Table → Edit → Table
apply t (put site ep cidrs) s = if int_eq site s then some (ep, cidrs) else t s
apply t (drop site) s = if int_eq site s then none else t s
apply t (move site ep) s = if int_eq site s then on_entry (λ e. (ep, e.1)) (t s) else t s
apply t (grow site cidrs) s =
    if int_eq site s then on_entry (λ e. (e.0, e.1 ++ cidrs)) (t s) else t s
apply t (shrink site gone) s =
    if int_eq site s
    then on_entry (λ e. (e.0, retain (λ c. not (any (λ d. same_cidr c d) gone)) e.1)) (t s)
    else t s

abbrev pub apply_all : Table → List Edit → Table
apply_all t [] = t
apply_all t (e ∷ es) = apply_all (apply t e) es

module _ {T : Type 0} where
  entry-retain :
      (site s : ℤ) (ps : List (Peer T))
      → entry (find (is_site s) (retain (λ p. not (is_site site p)) ps))
        ≡ (if int_eq site s then none else entry (find (is_site s) ps))
  entry-retain site s ps = elim (Bool-cases (int_eq site s)) [
    | inl e ↦
        let same : site ≡ s = int_eq→eq site s e in
        rw e (rw (← same) (ap entry (find-retain_self site ps)))
    | inr e ↦ rw e (ap entry (find-retain_other s site ps e))
  ]

  -- A write to the first peer of a site, seen in the table.
  entry-update_first :
      (site s : ℤ) (f : Peer T → Peer T) (g : Entry → Entry) (ps : List (Peer T))
      → ((p : Peer T) → (f p).site_id ≡ p.site_id)
      → ((p : Peer T) → ((f p).endpoint, (f p).cidrs) ≡ g (p.endpoint, p.cidrs))
      → entry (find (is_site s) (update_first (is_site site) f ps)) ≡ (
          if int_eq site s
          then on_entry g (entry (find (is_site s) ps))
          else entry (find (is_site s) ps))
  entry-update_first site s f g [] hs he = ground arith
  entry-update_first site s f g (p ∷ ps) hs he = elim (Bool-cases (int_eq p.site_id site)) [
    | inl e ↦
        let same : p.site_id ≡ site = int_eq→eq p.site_id site e in
        let old : int_eq p.site_id s ≡ int_eq site s = ap (λ (i : ℤ). int_eq i s) same in
        let new : int_eq (f p).site_id s ≡ int_eq site s =
          ap (λ (i : ℤ). int_eq i s) (hs p ∙ same) in
        let value = ap some (he p) in rw (e, old, new) (ground (arith, value))
    | inr e ↦ rw e (elim (Bool-cases (int_eq p.site_id s)) [
      | inl here ↦
          let same : p.site_id ≡ s = int_eq→eq p.site_id s here in
          let other : int_eq site s ≡ false = int_eq_comm site s ∙ rw same at e in
          rw (here, other) refl
      | inr there ↦ rw there (entry-update_first site s f g ps hs he)
    ])
  ]

module _ {S T : Type 0} where
  pub table-remove_peer :
      (r : Router S T) (site : ℤ) → table (remove_peer r site) ≡ apply (table r) (drop site)
  unfolding remove_peer
  table-remove_peer r site = fun_ext (λ s. entry-retain site s r.peers)

  pub table-set_endpoint :
      (r : Router S T) (site : ℤ) (ep : SocketAddr)
      → table (set_endpoint r site ep) ≡ apply (table r) (move site ep)
  unfolding set_endpoint
  table-set_endpoint r site ep =
      fun_ext (λ s. entry-update_first site s _ _ r.peers (λ p. refl) (λ p. refl))

  pub table-add_cidrs :
      (r : Router S T) (site : ℤ) (cidrs : List Cidr)
      → table (add_cidrs r site cidrs) ≡ apply (table r) (grow site cidrs)
  unfolding add_cidrs
  table-add_cidrs r site cidrs =
      fun_ext (λ s. entry-update_first site s _ _ r.peers (λ p. refl) (λ p. refl))

  pub table-remove_cidrs :
      (r : Router S T) (site : ℤ) (gone : List Cidr)
      → table (remove_cidrs r site gone) ≡ apply (table r) (shrink site gone)
  unfolding remove_cidrs
  table-remove_cidrs r site gone =
      fun_ext (λ s. entry-update_first site s _ _ r.peers (λ p. refl) (λ p. refl))

module _ (noise : Noise) where
  open noise use {Tunn, StaticSecret}

  Upserted-table :
      (r : Router StaticSecret Tunn) (site : ℤ) (ep : SocketAddr) (cidrs : List Cidr)
      (res : Router StaticSecret Tunn × Option (Bytes × SocketAddr))
      → Upserted noise r site ep cidrs res
      → table res.0 ≡ apply (table r) (put site ep cidrs)
  Upserted-table r site ep cidrs res u = fun_ext (λ s. elim (Bool-cases (int_eq site s)) [
    | inl e ↦
        let same : site ≡ s = int_eq→eq site s e in
        let there : peer_of s res.0 ≡ some u.peer = rw same at u.present in
        rw (e, there, u.sends_to, u.routes) refl
    | inr e ↦ rw (e, u.others s e) refl
  ])

  -- An upsert puts the site in, or, with a malformed key, does nothing to the router.
  pub table-upsert_peer :
      (r : Router StaticSecret Tunn) (site : ℤ) (key : Text) (ep : SocketAddr) (cidrs : List Cidr)
      → ((public_from_b64 noise key ≡ none) × ((upsert_peer noise r site key ep cidrs).0 ≡ r))
        ⊎ (((k : noise.PublicKey) × (public_from_b64 noise key ≡ some k))
            × (table (upsert_peer noise r site key ep cidrs).0
                ≡ apply (table r) (put site ep cidrs)))
  table-upsert_peer r site key ep cidrs = elim (upsert_peer-Upserted noise r site key ep cidrs) [
    | inl (bad, same) ↦
        inl (bad, ap (λ (res : Router StaticSecret Tunn × Option (Bytes × SocketAddr)). res.0) same)
    | inr (k, good, u) ↦ inr ((k, good), Upserted-table r site ep cidrs _ u)
  ]
