-- ===== src/Lib.antt =====
-- The connector newt (crates/newt and crates/newt-core) as definitions and theorems about them.
--
-- A site keeps a control session with the server and a WireGuard tunnel to an exit node, and forwards
-- connections that arrive in the tunnel to local targets. In the client role (olm) the program holds a tunnel
-- to each of several sites and routes packets between them.
--
-- * Core/Sm is the state machine of the control session (crates/newt-core/src/sm.rs): `step` takes an
--   event to a new record and the actions to perform; the loop of the site in crates/newt/src/tunnel.rs
--   performs them. Core/Proto and Core/Topic are its messages (crates/newt-core/src/proto.rs), and
--   Core/Target is `Target::parse` (crates/newt-core/src/target.rs).
-- * Wg is the pump around a WireGuard tunnel and `peer_index_of` (crates/newt/src/wg.rs).
-- * Olm/Cidr and Olm/Router are the routed ranges and the router with a peer for each site
--   (crates/newt/src/olm/router.rs). The router calls the pump of each peer and `peer_index_of`.
--   Olm/Proto has the messages of the client's control channel (crates/newt/src/olm/proto.rs); Olm/Plane and
--   Olm/Client are the set-up of the client's data plane and `handle_message`, Olm/Client/Exits the exit
--   nodes of the token's response and Olm/Client/Session the session loop (crates/newt/src/olm/mod.rs). The
--   specification of the control messages, Olm/Client/Spec, is on a table: for each site, its endpoint
--   and its ranges (Olm/Client/Table).
-- * Olm/Backend is the choice of a backend (crates/newt/src/olm/backend.rs), which is the `Device` of the
--   session; Olm/Kernel is the backend over routes of the host (crates/newt/src/olm/kernel.rs), and
--   Olm/Netlink its requests (crates/newt/src/olm/netlink.rs), Olm/Tun its device
--   (crates/newt/src/olm/tun.rs). Olm/Userspace is the other backend, with
--   the forwarded ports and their connections (crates/newt/src/olm/userspace.rs).
-- * Holepunch is the sealed datagram (crates/newt/src/holepunch.rs), and Olm/Holepunch those of a tick of the
--   client (crates/newt/src/olm/holepunch.rs).
-- * Tunnel/Checksum, Tunnel/Echo and Tunnel/Listeners are `checksum`, `icmp_echo` and the operations on
--   the listeners of the data plane (crates/newt/src/tunnel.rs). Listeners are made from what
--   `Target::parse` returns. Tunnel/Accept is `accept_new`, which turns the listeners that were connected to
--   into connections, and Tunnel/Shuttle the exchange of bytes of these. Tunnel/Plane is the data plane
--   as a whole, its set-up and a step of its input and output, which calls the pump of Wg and these
--   operations. Tunnel/Session is the session loop of the site, which runs the state machine of Core/Sm
--   over the interface `Site`; `site_of` of Tunnel/Plane fills that interface.
-- * Proxy is the task of a connection to a target (crates/newt/src/proxy.rs), Netstack the queues of the
--   device under smoltcp (crates/newt/src/netstack.rs), and Log the level of the log (crates/newt/src/log.rs).
-- * Config is `Config::from_sources` and its parsers (crates/newt/src/config.rs). A `usize` has 64 bits.
-- * Transport/Frame is the codec of WebSocket frames (crates/newt/src/transport/ws.rs): `read_frame` on the
--   bytes still to be read, and `write_frame` with its random mask as an argument.
--   Transport/Messages has the loops over frames that send and receive a message, and Transport/Connect
--   the upgrade of a connection (crates/newt/src/transport/ws.rs). Transport/Endpoint is `split_endpoint`, and
--   Transport/Token the request for a token (crates/newt/src/transport/token.rs).
-- * Common holds what these share: texts as lists of code points, the methods of `str`, `Vec` and the
--   iterators that the code calls, numbers in decimal, addresses.
-- * Tests holds tests and the theorems at concrete inputs.
--
-- A method on `&mut self` is a function that returns the new record before its result. An unsigned number is
-- a natural number, with the wrap-around of its width written out where the code can reach it. An `i64` is
-- compared for equality only. Errors that the callers drop are `none`.
--
-- A fallible call on the world (`io::Result` and `?`) is an `Io` of Common/Io: what it did before it failed
-- stays done. A session loop takes the branch of its `select!` that is ready as an input, with the result of
-- the awaited call; its theorems are over any list of inputs. Since an error drops the state of a session, a
-- call that failed returns the world only.
--
-- Libraries are parameters: `Json` and `Reader` (serde_json and `f64`), `Serde` (the decoders that serde
-- generates), `Noise` (the vendored boringtun, and base64), `Crypto` (x25519-dalek, chacha20poly1305, base64
-- and the random generator), `IpParser` (the address parser of the standard library), `SocketSet` and
-- `Streams` (smoltcp and the channels of tokio), `Network` (resolver, UDP and WebSocket), `Kernel` and
-- `Files` (system calls), `Udp` and `Addresses` (the socket, the resolver and the parsers of addresses of the
-- data plane), `Host` (`Streams` with the sockets that listen and the tasks), `Control` (the WebSocket of the
-- site), `Channel` and `Dialer` (the stream under the WebSocket, TLS, the random masks and keys), `Http` (the
-- JSON of the token), `Local` and `Origin` (the forwarded ports, and what lies behind them in the tunnel),
-- `Smoltcp`. `Device`, `TunFile`, `Forwarder` and `Site` are interfaces to parts of the program itself;
-- Olm/Backend gives the `Device`, Olm/Tun the `TunFile`, Olm/Userspace the `Forwarder` and Tunnel/Plane the
-- `Site`. Noise has one law, that a tunnel fed with no datagram comes to its end, which the loop of
-- `handle_inbound` relies on. IpParser has one, that an address has the octets of its family. Streams has
-- those on which bytes each call passes on, and that a channel that accepts has room. Host and Origin have
-- those of a test for equality of handles. Udp and Kernel have those on what was given to the socket to send.
-- The exit node of Holepunch/Opens has those of the key agreement and of decryption.
--
-- Loops over collections are by recursion on lists. Seven loops run on fuel. The loops over `drain` in
-- `handle_inbound` and in the step of the site have the number of queued results plus one. The loop of `recv`
-- has the number of bytes in the stream plus one, since each frame takes at least two of them. The loop that
-- removes the listeners of a port has the number of listeners, of which each round removes one. The loop that
-- folds the carries of the checksum has three rounds, which are enough for 32 bits, and the loop that pads an
-- attribute has three, since at most three bytes are missing. The loop of the shuttle over the bytes of a
-- socket has the room of the channel plus one.
--
-- Not modelled: sockets, tasks, timers of the runtime, which are I/O, with the endless loops that start a
-- session anew, the set-up of TLS (crates/newt/src/transport/tls.rs), the generation of keys, and the entry
-- point that starts the roles (crates/newt/src/main.rs); boringtun, a vendored library. Every decoding error
-- of a public key is one text. A write of Proxy that fails counts as no byte, where the socket may have taken
-- a part of it. A message is received without being interrupted.
pub mod Common
pub mod Core
pub mod Config
pub mod Holepunch
pub mod Wg
pub mod Olm
pub mod Transport
pub mod Netstack
pub mod Proxy
pub mod Log
pub mod Tunnel
pub mod Tests
