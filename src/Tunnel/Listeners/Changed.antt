-- ===== src/Tunnel/Listeners/Changed.antt =====
-- What messages that add and remove targets change.
use newt_rust.Common.{
  ℕ, not, Option, none, some, List, [], ◌∷◌, ◌≡◌, refl, ◌==◌, if◌then◌else◌, any, map, retain, Text,
  subst,
}
use newt_rust.Core.Target.{Target}
use newt_rust.Tunnel.Listeners.{SocketSet, DataPlane, destination, desired, remove_targets}
use newt_rust.Tunnel.Listeners.Removed.{remove_ports-perm}
use mathlib.Core.List.{Perm}

-- the destination of the first target with the port
abbrev pub first_for : ℕ → List Target → Option Text
first_for p [] = none
first_for p (t ∷ ts) = if t.listen_port == p then some (destination t) else first_for p ts

-- what an added destination makes of the targets on a port
abbrev pub added : Option Text → List Text → List Text
added none before = before
added (some to) [] = to ∷ []
added (some to) (t ∷ before) = t ∷ before

module _ (set : SocketSet) where
  any-ports :
      (p : ℕ) (ts : List Target)
      → any (λ q. p == q) (map (λ (t : Target). t.listen_port) ts)
        ≡ any (λ (t : Target). p == t.listen_port) ts
  any-ports p [] = refl
  any-ports p (t ∷ ts) = rw (any-ports p ts) refl

  -- Removed targets leave exactly the listeners on the other ports, as they were, in some order.
  pub remove_targets-gone :
      (specs : List Text) (d : DataPlane set)
      → Perm (remove_targets set specs d).listeners (
          retain
            (λ l. not (any (λ (t : Target). l.port == t.listen_port) (desired specs)))
            d.listeners)
  unfolding remove_targets
  remove_targets-gone specs d =
      let ports = map (λ (t : Target). t.listen_port) (desired specs) in
      subst (λ t. Perm (remove_targets set specs d).listeners t)
        (λ i. retain (λ l. not (any-ports l.port (desired specs) i)) d.listeners)
        (remove_ports-perm set ports d)
