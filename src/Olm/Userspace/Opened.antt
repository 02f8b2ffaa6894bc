-- ===== src/Olm/Userspace/Opened.antt =====
-- What the userspace backend does with a local connection.
use newt_rust.Common.{ℕ, ◌≡◌, refl, false, [], Option, some, Text}
use newt_rust.Common.Handles.{lookup, lookup-insert_self, lookup-insert_other}
use newt_rust.Common.Results.{Result, ok, err}
use newt_rust.Common.Net.{IpAddr}
use newt_rust.Tunnel.Shuttle.{Bridge}
use newt_rust.Olm.Userspace.{Local, Origin, UserspaceBackend, alloc_port, connected, open_outgoing}

module _ (net : Local) (origin : Origin net.Stream) (parse_ip : Text → Option IpAddr) where
  open origin use {streams, same_handle, same_handle-refl, same_handle→eq}

  abbrev Backend : Type 0
  Backend = UserspaceBackend net origin parse_ip

  -- What becomes of the connections, by how the connection through the tunnel was opened: the new socket has one
  -- with the local stream, nothing pending and a target that is not done, and any other socket has the one that it
  -- had; or they stay, and the new socket is removed.
  abbrev pub Outcome :
      Backend → Backend → net.Stream → streams.Handle → Result (Unit {0}) × streams.World → Type 0
  Outcome b after stream handle (ok u, w) =
      (lookup same_handle handle after.conns
        ≡ some (record {
          conn = (origin.bridge_stream stream w).0;
          pending = [];
          target_done = false;
        }))
      × ((h : streams.Handle)
          → same_handle handle h ≡ false
          → lookup same_handle h after.conns ≡ lookup same_handle h b.conns)
      × (after.sockets ≡ (origin.bridge_stream stream w).1)
  Outcome b after stream handle (err why, w) =
      (after.conns ≡ b.conns) × (after.sockets ≡ streams.remove handle w)

  connected-Outcome :
      (handle : streams.Handle) (stream : net.Stream) (r : Result (Unit {0}) × streams.World)
      (b : Backend)
      → Outcome b (connected net origin parse_ip handle stream r b) stream handle r
        × ((connected net origin parse_ip handle stream r b).next_port ≡ b.next_port)
        × ((connected net origin parse_ip handle stream r b).forwards ≡ b.forwards)
        × ((connected net origin parse_ip handle stream r b).rx ≡ b.rx)
  unfolding connected
  connected-Outcome handle stream (err why, w) b = ((refl, refl), refl, refl, refl)
  connected-Outcome handle stream (ok u, w) b =
      let bridge : Bridge streams = record {
        conn = (origin.bridge_stream stream w).0;
        pending = [];
        target_done = false;
      } in
      (
        (
          lookup-insert_self same_handle same_handle-refl same_handle→eq handle bridge b.conns,
          λ h ne.
              lookup-insert_other same_handle same_handle-refl same_handle→eq handle h bridge
                b.conns ne,
          refl,
        ),
        refl,
        refl,
        refl,
      )

  -- A local connection is opened to its destination from the next local port, on a new socket. Where that
  -- succeeds, the socket has a connection with the stream, nothing pending, and every other socket has the
  -- connection that it had; where it fails, the connections are as
  -- before and the socket is removed. The port is used up in both cases, and the forwards and the received
  -- packets stay as they are.
  pub open_outgoing-Outcome :
      (dest : IpAddr) (port : ℕ) (stream : net.Stream) (b : Backend)
      → (r : Result (Unit {0}) × streams.World)
      → origin.connect
          (origin.add 8192 8192 b.sockets).0
          dest
          port
          b.next_port
          (origin.add 8192 8192 b.sockets).1
        ≡ r
      → Outcome b
          (open_outgoing net origin parse_ip dest port stream b)
          stream
          (origin.add 8192 8192 b.sockets).0
          r
        × ((open_outgoing net origin parse_ip dest port stream b).next_port
            ≡ (alloc_port b.next_port).1)
        × ((open_outgoing net origin parse_ip dest port stream b).forwards ≡ b.forwards)
        × ((open_outgoing net origin parse_ip dest port stream b).rx ≡ b.rx)
  unfolding open_outgoing
  open_outgoing-Outcome dest port stream b r e = rw e (
      connected-Outcome (origin.add 8192 8192 b.sockets).0 stream r
        (record b { next_port = (alloc_port b.next_port).1 }))
