-- ===== src/Tunnel/Listeners.antt =====
-- The listeners of the site role's `DataPlane` and the operations that change them
-- (`add_targets`, `remove_targets`, `reconcile_targets`, `add_listener` of crates/newt/src/tunnel.rs).
pub mod Vec
pub mod Removed
pub mod Reconciled
pub mod Changed
use newt_rust.Common.{
  ℕ, zero, suc, ◌*◌, Bool, not, Option, none, some, List, [], ◌∷◌, ◌++◌, ◌==◌, if◌then◌else◌, any,
  map, retain, update_first, filter_map, length, Text, codes,
}
use newt_rust.Common.Numbers.{decimal}
use newt_rust.Common.Monads.{◌>>=◌}
use newt_rust.Core.Target.{Target, parse}
use newt_rust.Tunnel.Listeners.Vec.{position, swap_remove}

-- What the program uses of smoltcp's `SocketSet`.
pub record SocketSet : Type 1 where
  pub Sockets : Type 0
  pub Handle : Type 0
  -- `add` of a TCP socket with buffers of these sizes
  pub add : ℕ → ℕ → Sockets → Handle × Sockets
  pub listen : Handle → ℕ → Sockets → Sockets
  pub remove : Handle → Sockets → Sockets

-- `struct Listener`
pub record Listener (H : Type 0) : Type 0 where
  pub port : ℕ
  pub target : Text
  pub handle : H

-- The two fields of `DataPlane` that the operations change.
pub record DataPlane (set : SocketSet) : Type 0 where
  pub listeners : List (Listener set.Handle)
  pub sockets : set.Sockets

-- `format!("{}:{}", t.host, t.target_port)`
abbrev pub destination : Target → Text
destination t = t.host ++ codes ":" ++ decimal t.target_port

-- the ports of the specs that parse
abbrev pub desired : List Text → List Target
desired specs = filter_map parse specs

abbrev pub on_port : {H : Type 0} → ℕ → Listener H → Bool
on_port p l = l.port == p

module _ (set : SocketSet) where
  -- `add_listener`; `TCP_RX` and `TCP_TX` are 4096 bytes
  abbrev pub add_listener : ℕ → set.Sockets → set.Handle × set.Sockets
  add_listener p s = let added = set.add 4096 4096 s in (added.0, set.listen added.0 p added.1)

  -- a listener for the target, pushed
  abbrev pub listen_for : Target → DataPlane set → DataPlane set
  listen_for t d =
      let (handle, sockets) = add_listener t.listen_port d.sockets in
      record {
        listeners =
            d.listeners
            ++ record { port = t.listen_port; target = destination t; handle = handle } ∷ [];
        sockets = sockets;
      }

  abbrev pub add_target : Target → DataPlane set → DataPlane set
  add_target t d = if any (on_port t.listen_port) d.listeners then d else listen_for t d

  -- the loop of `add_targets`, over the specs that parse
  abbrev pub add_each : List Target → DataPlane set → DataPlane set
  add_each [] d = d
  add_each (t ∷ ts) d = add_each ts (add_target t d)

  unfoldable pub add_targets : List Text → DataPlane set → DataPlane set
  add_targets specs d = add_each (desired specs) d

  -- `while let Some(i) = position(port) { swap_remove(i); sockets.remove(..) }`; the fuel bounds its rounds
  abbrev pub remove_port : ℕ → ℕ → DataPlane set → DataPlane set
  remove_port zero p d = d
  remove_port (suc fuel) p d =
      elim (do i ← position (on_port p) d.listeners; swap_remove i d.listeners) [
        | none ↦ d
        | some (l, ls) ↦
            remove_port fuel p (record { listeners = ls; sockets = set.remove l.handle d.sockets })
      ]

  -- Each round removes a listener.
  abbrev pub remove_ports : List ℕ → DataPlane set → DataPlane set
  remove_ports [] d = d
  remove_ports (p ∷ ps) d = remove_ports ps (remove_port (length d.listeners) p d)

  unfoldable pub remove_targets : List Text → DataPlane set → DataPlane set
  remove_targets specs d = remove_ports (map (λ t. t.listen_port) (desired specs)) d

  -- the second loop's body; a write of the same destination is no change
  abbrev pub update_target : Target → DataPlane set → DataPlane set
  update_target t d =
      if any (on_port t.listen_port) d.listeners
      then record {
        listeners =
            update_first (on_port t.listen_port) (λ l. record l { target = destination t })
              d.listeners;
        sockets = d.sockets;
      }
      else listen_for t d

  abbrev pub update_each : List Target → DataPlane set → DataPlane set
  update_each [] d = d
  update_each (t ∷ ts) d = update_each ts (update_target t d)

  unfoldable pub reconcile_targets : List Text → DataPlane set → DataPlane set
  reconcile_targets specs d =
      let ts = desired specs in
      let dropped =
        retain (λ p. not (any (λ t. t.listen_port == p) ts)) (map (λ l. l.port) d.listeners) in
      update_each ts (remove_ports dropped d)
