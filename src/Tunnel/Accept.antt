-- ===== src/Tunnel/Accept.antt =====
-- `accept_new` of crates/newt/src/tunnel.rs: a listening socket that was connected to becomes a connection, with
-- a task for its target, and another socket listens in its place.
pub mod Accepted
use newt_rust.Common.{
  ℕ, zero, suc, ◌+◌, Bool, true, false, not, ◌&&◌, ◌≡◌, List, [], ◌∷◌, ◌++◌, Option, none, some,
  any, if◌then◌else◌, Text,
}
use newt_rust.Common.Net.{Bytes}
use newt_rust.Common.Handles
use newt_rust.Tunnel.Listeners.Vec.{swap_remove}
use newt_rust.Tunnel.Listeners.{SocketSet, Listener, add_listener}
use newt_rust.Tunnel.Listeners
use newt_rust.Tunnel.Shuttle.{Streams, Bridge}

-- The sockets, tasks and channels of a data plane: what `Streams` has of them, with the set of sockets, the
-- interface's `poll` and `proxy::spawn_tcp`. `World` is all of them together.
pub record Host : Type 1 where
  pub streams : Streams
  pub add : ℕ → ℕ → streams.World → streams.Handle × streams.World
  pub listen : streams.Handle → ℕ → streams.World → streams.World
  pub is_active : streams.Handle → streams.World → Bool
  pub same_handle : streams.Handle → streams.Handle → Bool
  pub same_handle-refl : (h : streams.Handle) → same_handle h h ≡ true
  pub same_handle→eq : (h k : streams.Handle) → same_handle h k ≡ true → h ≡ k
  pub spawn_tcp : Text → streams.World → streams.Conn × streams.World
  -- from the received packets: the packets to send, and those that are left
  pub poll : List Bytes → streams.World → (List Bytes × List Bytes) × streams.World

abbrev pub sockets_of : Host → SocketSet
sockets_of host = record {
  Sockets = host.streams.World;
  Handle = host.streams.Handle;
  add = host.add;
  listen = host.listen;
  remove = host.streams.remove;
}

module _ (host : Host) where
  open host use {streams, is_active, same_handle, spawn_tcp}

  abbrev pub Entry : Type 0
  Entry = Listener streams.Handle

  abbrev pub Conns : Type 0
  Conns = List (streams.Handle × Bridge streams)

  -- `contains_key`
  abbrev pub has_conn : streams.Handle → Conns → Bool
  has_conn h conns = Handles.has same_handle h conns

  -- `HashMap::insert`
  abbrev pub insert_conn : streams.Handle → Bridge streams → Conns → Conns
  insert_conn h b conns = Handles.insert same_handle h b conns

  -- The fields of the data plane that `accept_new` changes.
  pub record Serving : Type 0 where
    pub plane : Listeners.DataPlane (sockets_of host)
    pub conns : Conns

  -- `Bridge::new`
  abbrev pub new_bridge : streams.Conn → Bridge streams
  new_bridge conn = record { conn = conn; pending = []; target_done = false }

  abbrev pub is_ready : Serving → Entry → Bool
  is_ready s l = is_active l.handle s.plane.sockets && not (has_conn l.handle s.conns)

  -- the first loop: where the ready listeners stand, with their ports
  pub promoted : Serving → ℕ → List Entry → List (ℕ × ℕ)
  promoted s i [] = []
  promoted s i (l ∷ ls) =
      if is_ready s l then (i, l.port) ∷ promoted s (suc i) ls else promoted s (suc i) ls

  -- the body of the second loop, with what `swap_remove` returned
  abbrev pub promote : ℕ → Option (Entry × List Entry) → Serving → Serving
  promote p none s = s
  promote p (some (l, ls)) s =
      let (conn, w1) = spawn_tcp l.target s.plane.sockets in
      let (handle, w2) = add_listener (sockets_of host) p w1 in
      record {
        plane = record {
          listeners = ls ++ record { port = p; target = l.target; handle = handle } ∷ [];
          sockets = w2;
        };
        conns = insert_conn l.handle (new_bridge conn) s.conns;
      }

  -- the second loop, in reverse order: the later ones first
  pub promote_all : List (ℕ × ℕ) → Serving → Serving
  promote_all [] s = s
  promote_all ((i, p) ∷ ps) s =
      let later = promote_all ps s in promote p (swap_remove i later.plane.listeners) later

  unfoldable pub accept_new : Serving → Serving
  unfolding promoted promote_all
  accept_new s = promote_all (promoted s 0 s.plane.listeners) s
