-- ===== src/Tunnel/Listeners/Removed.antt =====
-- The listeners that the removal of ports leaves.
use newt_rust.Common.{
  ℕ, zero, suc, ◌<◌, ◌≤◌, Bool, true, false, not, ◌||◌, ◌&&◌, Option, none, some, List, [], ◌∷◌,
  ◌≡◌, refl, sym, ◌∙◌, ◌==◌, any, retain, length, arith, subst,
}
use newt_rust.Common.Monads.{◌>>=◌}
use newt_rust.Tunnel.Listeners.Vec.{
  position, swap_remove, position-Taken, Taken, retain-perm, retain-retain, retain-none, retain_all,
}
use newt_rust.Tunnel.Listeners.{SocketSet, Listener, DataPlane, on_port, remove_port, remove_ports}
use mathlib.Core.List.{Perm}
use mathlib.Core.List.Perm

-- whether a port is none of these
abbrev pub none_of : List ℕ → ℕ → Bool
none_of ps q = not (any (λ p. q == p) ps)

module _ {H : Type 0} where
  no_items : (f : Listener H → Bool) (ls : List (Listener H)) → length ls ≤ 0 → ls ≡ []
  no_items f [] h = refl
  no_items f (l ∷ ls) h = absurd (omega arith)

module _ (set : SocketSet) where
  abbrev Entry : Type 0
  Entry = Listener set.Handle

  -- A round of the loop on the port `p`.
  round-perm :
      (p : ℕ) (d : DataPlane set) (next : DataPlane set → DataPlane set)
      (o : Option (Entry × List Entry))
      → Taken (on_port p) d.listeners o
      → ((e : DataPlane set)
          → length e.listeners < length d.listeners
          → Perm (next e).listeners (retain (λ l. not (on_port p l)) e.listeners))
      → Perm
          (elim o as (λ _. DataPlane set) [
            | none ↦ d
            | some (l, ls) ↦
                next (record { listeners = ls; sockets = set.remove l.handle d.sockets })
          ]).listeners
          (retain (λ l. not (on_port p l)) d.listeners)
  round-perm p d next none gone ih =
      subst (λ t. Perm d.listeners t) (sym (retain-none (on_port p) d.listeners gone))
        (Perm.refl d.listeners)
  round-perm p d next (some (l, ls)) t ih =
      let e : DataPlane set = record { listeners = ls; sockets = set.remove l.handle d.sockets } in
      let taken : (l.port == p) ≡ true = t.is_taken in
      let left = retain-perm (λ k. not (on_port p k)) (l ∷ ls) d.listeners t.others in
      Perm.trans (ih e (omega (arith, t.is_shorter))) (rw taken at left)

  remove_port-perm :
      (fuel p : ℕ) (d : DataPlane set)
      → length d.listeners ≤ fuel
      → Perm (remove_port set fuel p d).listeners (retain (λ l. not (on_port p l)) d.listeners)
  remove_port-perm zero p d h =
      let none_left = no_items (on_port p) d.listeners h in
      subst (λ t. Perm t (retain (λ l. not (on_port p l)) t)) (sym none_left) Perm.nil
  remove_port-perm (suc fuel) p d h =
      round-perm p d (remove_port set fuel p)
        (position (on_port p) d.listeners >>= λ i. swap_remove i d.listeners)
        (position-Taken (on_port p) d.listeners) (λ e lt. remove_port-perm fuel p e (omega arith))

  not_or : (a b : Bool) → (not a && not b) ≡ not (a || b)
  not_or true b = refl
  not_or false b = refl

  pub remove_ports-perm :
      (ps : List ℕ) (d : DataPlane set)
      → Perm (remove_ports set ps d).listeners (retain (λ l. none_of ps l.port) d.listeners)
  remove_ports-perm [] d =
      subst (λ t. Perm d.listeners t) (sym (retain_all d.listeners)) (Perm.refl d.listeners)
  remove_ports-perm (p ∷ ps) d =
      let here = remove_port-perm (length d.listeners) p d (omega arith) in
      let there = remove_ports-perm ps (remove_port set (length d.listeners) p d) in
      let left = retain-perm (λ l. none_of ps l.port) _ _ here in
      subst (λ t. Perm (remove_ports set (p ∷ ps) d).listeners t)
        (retain-retain (λ l. not (on_port p l)) (λ l. none_of ps l.port) d.listeners
          ∙ (λ i. retain (λ l. not_or (l.port == p) (any (λ q. l.port == q) ps) i) d.listeners))
        (Perm.trans there left)
