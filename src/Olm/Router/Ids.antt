-- ===== src/Olm/Router/Ids.antt =====
-- The sites and the indices of a router's peers.
use newt_rust.Common.{
  ℕ, zero, suc, ◌<◌, Bool, not, List, [], ◌∷◌, ◌++◌, map, some, ◌≡◌, ◌≢◌, refl, sym, inl, inr,
  arith, All, All-append, retain, update_first, set, get_elem?, Bool-cases,
}
use newt_rust.Common.Int.{ℤ, int_eq_refl}
use newt_rust.Olm.Router.{Peer, Router, is_site}

-- The names of a peer: its site and its index.
abbrev pub ids : {T : Type 0} → List (Peer T) → List (ℤ × ℕ)
ids ps = map (λ p. (p.site_id, p.index)) ps

-- No two peers share a site or an index, and the indices are positive and below `n`.
abbrev pub AreDistinct : List (ℤ × ℕ) → ℕ → Type 0
AreDistinct [] n = Unit
AreDistinct (e ∷ es) n =
    (0 < e.1) × (e.1 < n) × All (λ d. (d.0 ≢ e.0) × (d.1 ≢ e.1)) es × AreDistinct es n

pub record IsRouter {S T : Type 0} (r : Router S T) : Type 0 where
  pub positive : 0 < r.next_index
  pub distinct : AreDistinct (ids r.peers) r.next_index

module _ {T : Type 0} where
  pub ids-update_first :
      (t : Peer T → Bool) (f : Peer T → Peer T) (ps : List (Peer T))
      → ((p : Peer T) → ((f p).site_id ≡ p.site_id) × ((f p).index ≡ p.index))
      → ids (update_first t f ps) ≡ ids ps
  ids-update_first t f [] h = refl
  ids-update_first t f (p ∷ ps) h = ground (arith, h p, ids-update_first t f ps h)

  pub ids-set :
      (ps : List (Peer T)) (i : ℕ) (p q : Peer T)
      → get_elem? ps i ≡ some p
      → q.site_id ≡ p.site_id
      → q.index ≡ p.index
      → ids (set ps i q) ≡ ids ps
  ids-set [] i p q e s n = refl
  ids-set (x ∷ ps) zero p q e s n = ground arith
  ids-set (x ∷ ps) (suc i) p q e s n = ground (arith, ids-set ps i p q e s n)

  pub All-retain :
      (P : ℤ × ℕ → Type 0) (t : Peer T → Bool) (ps : List (Peer T))
      → All P (ids ps)
      → All P (ids (retain t ps))
  All-retain P t [] h = tt
  All-retain P t (p ∷ ps) (hp, h) = elim (Bool-cases (t p)) [
    | inl keep ↦ rw keep (hp, All-retain P t ps h)
    | inr gone ↦ rw gone (All-retain P t ps h)
  ]

  pub AreDistinct-retain :
      (t : Peer T → Bool) (ps : List (Peer T)) (n : ℕ)
      → AreDistinct (ids ps) n
      → AreDistinct (ids (retain t ps)) n
  AreDistinct-retain t [] n h = tt
  AreDistinct-retain t (p ∷ ps) n (pos, below, apart, h) = elim (Bool-cases (t p)) [
    | inl keep ↦ rw keep (pos, below, All-retain _ t ps apart, AreDistinct-retain t ps n h)
    | inr gone ↦ rw gone (AreDistinct-retain t ps n h)
  ]

  pub retained :
      (site : ℤ) (ps : List (Peer T))
      → All (λ (e : ℤ × ℕ). e.0 ≢ site) (ids (retain (λ p. not (is_site site p)) ps))
  retained site [] = tt
  retained site (p ∷ ps) = elim (Bool-cases (is_site site p)) [
    | inl same ↦ rw same (retained site ps)
    | inr other ↦ rw other ((λ e. cc (other, int_eq_refl site)), retained site ps)
  ]

pub below_all : (es : List (ℤ × ℕ)) (n : ℕ) → AreDistinct es n → All (λ e. e.1 < n) es
below_all [] n h = tt
below_all (e ∷ es) n (_, below, _, h) = (below, below_all es n h)

pub AreDistinct-snoc :
    (es : List (ℤ × ℕ)) (site : ℤ) (n m : ℕ)
    → AreDistinct es n
    → All (λ e. e.0 ≢ site) es
    → 0 < n
    → n < m
    → AreDistinct (es ++ (site, n) ∷ []) m
AreDistinct-snoc [] site n m h a pos lt = (pos, lt, tt, tt)
AreDistinct-snoc (e ∷ es) site n m (p, below, apart, h) (ne, a) pos lt = (
  p,
  omega arith,
  All-append _ es ((site, n) ∷ []) apart ((λ e. ne (sym e), λ e. omega arith), tt),
  AreDistinct-snoc es site n m h a pos lt,
)
