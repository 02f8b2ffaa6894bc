-- ===== src/Olm/Userspace.antt =====
-- The userspace backend of a client (crates/newt/src/olm/userspace.rs): connections that local applications open to
-- the forwards are carried to their destinations through the tunnel. smoltcp with the bridge tasks is the
-- parameter `Origin`, and the local listeners are `Local`. Messages to the log are left out.
pub mod Ports
pub mod Opened
pub mod Bound
use newt_rust.Common.{
  ℕ, zero, suc, ◌+◌, ◌%◌, ◌≤◌, ◌≡◌, Bool, true, false, leb, if◌then◌else◌, List, [], ◌∷◌, ◌++◌,
  Option, none, some, Text, codes, get_elem?, any,
}
use newt_rust.Common.Results.{Result, ok, err, ok_or}
use newt_rust.Common.Io.{Io, pure, lift, ◌>>=◌, ◌>>◌}
use newt_rust.Common.Net.{Bytes, IpAddr}
use newt_rust.Common.Handles
use newt_rust.Config.Parse.{Forward}
use newt_rust.Config.Model.{ClientRun}
use newt_rust.Tunnel.Shuttle
use newt_rust.Tunnel.Shuttle.{Streams, Bridge}
use newt_rust.Olm.Backend.{Forwarder}

-- where a new backend starts
abbrev pub first_port : ℕ
first_port = 20000

-- The port, and the next one.
unfoldable pub alloc_port : ℕ → ℕ × ℕ
alloc_port next_port = (next_port, if leb 60000 next_port then 20000 else next_port + 1)

-- The local listeners and the clock of the runtime.
pub record Local : Type 1 where
  pub World : Type 0
  pub Listener : Type 0
  pub Stream : Type 0
  -- on 127.0.0.1
  pub bind : ℕ → Io World Listener
  -- the first connection to one of the listeners, and which; none if 20 ms pass first
  pub accept_or_sleep : List Listener → Io World (Option (Stream × ℕ))
  pub sleep : ℕ → Io World (Unit {0})
  -- the milliseconds since the start
  pub elapsed : World → ℕ

-- The sockets, tasks and channels of a backend: what `Streams` has of them, with the set of sockets, the calls of
-- `Stack` that reach smoltcp and `proxy::bridge_stream`. `World` is all of them together.
pub record Origin (Stream : Type 0) : Type 1 where
  pub streams : Streams
  -- `Stack::new`, with the default routes
  pub new_stack : IpAddr → ℕ → streams.World
  pub add : ℕ → ℕ → streams.World → streams.Handle × streams.World
  pub connect : streams.Handle → IpAddr → ℕ → ℕ → streams.World → Result (Unit {0}) × streams.World
  pub same_handle : streams.Handle → streams.Handle → Bool
  pub same_handle-refl : (h : streams.Handle) → same_handle h h ≡ true
  pub same_handle→eq : (h k : streams.Handle) → same_handle h k ≡ true → h ≡ k
  pub bridge_stream : Stream → streams.World → streams.Conn × streams.World
  -- from the time and the received packets: the packets to send, and those that are left
  pub poll : ℕ → List Bytes → streams.World → (List Bytes × List Bytes) × streams.World

pub record ForwardListener (L : Type 0) : Type 0 where
  pub listener : L
  pub dest : IpAddr
  pub dest_port : ℕ

module _ (net : Local) (origin : Origin net.Stream) (parse_ip : Text → Option IpAddr) where
  open net use {World, Listener, Stream, bind, accept_or_sleep, sleep, elapsed}
  open origin use {streams, same_handle}

  abbrev pub Conns : Type 0
  Conns = List (streams.Handle × Bridge streams)

  -- `rx` is the queue of the stack's device, and `sockets` the rest of the stack with the tasks.
  pub record UserspaceBackend : Type 0 where
    pub rx : List Bytes
    pub sockets : streams.World
    pub forwards : List (ForwardListener Listener)
    pub conns : Conns
    pub next_port : ℕ

  -- the loop of `new` over the forwards
  pub bind_each : List Forward → Io World (List (ForwardListener Listener))
  bind_each [] = pure []
  bind_each (f ∷ fs) =
      let more = bind_each fs in
      do
        dest ← lift (
            ok_or (codes "forward dest must be an IP address: " ++ f.dest_host)
              (parse_ip f.dest_host))
        listener ← bind f.listen_port
        rest ← more
        pure (record { listener = listener; dest = dest; dest_port = f.dest_port } ∷ rest)

  unfoldable pub new : IpAddr → ℕ → List Forward → Io World UserspaceBackend
  unfolding bind_each
  new tunnel_ip mtu forwards = do
    fl ← bind_each forwards
    pure (record {
      rx = [];
      sockets = origin.new_stack tunnel_ip mtu;
      forwards = fl;
      conns = [];
      next_port = first_port;
    })

  unfoldable pub deliver_inbound : UserspaceBackend → Bytes → UserspaceBackend
  deliver_inbound b pkt = record b { rx = b.rx ++ pkt ∷ [] }

  abbrev pub Accepted : Type 0
  Accepted = Option (Stream × IpAddr × ℕ)

  -- which forward was connected to; an index out of range does not come, and would be a panic
  abbrev pub accepted_at : Option (Stream × ℕ) → List (ForwardListener Listener) → Result Accepted
  accepted_at none forwards = ok none
  accepted_at (some (stream, i)) forwards = elim (get_elem? forwards i) [
    | none ↦ err (codes "index out of bounds")
    | some f ↦ ok (some (stream, f.dest, f.dest_port))
  ]

  abbrev pub listeners : List (ForwardListener Listener) → List Listener
  listeners [] = []
  listeners (f ∷ fs) = f.listener ∷ listeners fs

  pub next_accept : UserspaceBackend → Io World Accepted
  next_accept b = elim b.forwards [
    | [] ↦ (do sleep 20; pure none)
    | f ∷ fs ↦ (do got ← accept_or_sleep (listeners b.forwards); lift (accepted_at got b.forwards))
  ]

  -- `contains_key`
  abbrev pub has_conn : streams.Handle → Conns → Bool
  has_conn h conns = Handles.has same_handle h conns

  -- `HashMap::insert`
  abbrev pub insert_conn : streams.Handle → Bridge streams → Conns → Conns
  insert_conn h c conns = Handles.insert same_handle h c conns

  -- what is done behind `connect`
  pub connected :
      streams.Handle
      → Stream
      → Result (Unit {0}) × streams.World
      → UserspaceBackend
      → UserspaceBackend
  connected handle stream (err why, w) b = record b { sockets = streams.remove handle w }
  connected handle stream (ok u, w) b =
      let (conn, w') = origin.bridge_stream stream w in
      record b {
        sockets = w';
        conns =
            insert_conn handle (record { conn = conn; pending = []; target_done = false }) b.conns;
      }

  unfoldable pub open_outgoing : IpAddr → ℕ → Stream → UserspaceBackend → UserspaceBackend
  unfolding alloc_port connected
  open_outgoing dest dest_port stream b =
      let (local_port, next) = alloc_port b.next_port in
      let (handle, w) = origin.add 8192 8192 b.sockets in
      connected handle stream (origin.connect handle dest dest_port local_port w)
        (record b { next_port = next })

  abbrev pub open_accepted : Accepted → UserspaceBackend → UserspaceBackend
  open_accepted none b = b
  open_accepted (some (stream, dest, port)) b = open_outgoing dest port stream b

  -- The same loop as that of a site, where `app_done` is `target_done`.
  unfoldable pub shuttle : UserspaceBackend → UserspaceBackend
  shuttle b =
      let (conns, w) = Shuttle.shuttle streams b.conns b.sockets in
      record b { conns = conns; sockets = w }

  unfoldable pub drive : UserspaceBackend → Io World (UserspaceBackend × List Bytes)
  unfolding next_accept open_outgoing shuttle
  drive b = do
    got ← next_accept b
    let b = open_accepted got b
    (λ w.
        let ((out, left), sockets) = origin.poll (elapsed w) b.rx b.sockets in
        (ok (shuttle (record b { rx = left; sockets = sockets }), out), w))

  -- The backend as a client's session uses it.
  abbrev pub forwarder : Forwarder World
  forwarder = record {
    UserspaceBackend = UserspaceBackend;
    new = λ ip mtu cfg. new ip mtu cfg.forwards;
    drive = drive;
    deliver_inbound = deliver_inbound;
  }
