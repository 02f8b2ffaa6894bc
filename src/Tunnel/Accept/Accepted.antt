-- ===== src/Tunnel/Accept/Accepted.antt =====
-- What `accept_new` leaves.
use newt_rust.Common.{ℕ, true, false, ◌≡◌, List, [], ◌++◌, map, some, All, Text}
use newt_rust.Common.Handles.{lookup}
use newt_rust.Tunnel.Accept.{Host, Entry, Conns, has_conn, Serving, is_ready}
use mathlib.Core.List.{Perm}
use mathlib.Core.List.Perm

module _ (host : Host) where
  open host use {streams, same_handle, same_handle-refl, same_handle→eq}

  -- where a listener listens and where its connections go
  abbrev pub route : Entry host → ℕ × Text
  route l = (l.port, l.target)

  -- The socket has a connection with a bridge as it starts: nothing pending, and its target not done.
  abbrev pub Starts : streams.Handle → Conns host → Type 0
  Starts h conns =
      (c : streams.Conn) × (lookup same_handle h conns
        ≡ some (record { conn = c; pending = []; target_done = false }))

  -- What became of the listeners behind a front that was left in place.
  record Promoted (s after : Serving host) (front ls : List (Entry host)) : Type 0 where
    behind : List (Entry host)
    in_place : after.plane.listeners ≡ front ++ behind
    same_routes : Perm (map route behind) (map route ls)
    kept :
        (h : streams.Handle)
        → has_conn host h s.conns ≡ true
        → lookup same_handle h after.conns ≡ lookup same_handle h s.conns
    connected : All (λ l. is_ready host s l ≡ true → Starts l.handle after.conns) ls

  -- What `accept_new` does to the listeners and connections.
  pub record Accepted (s after : Serving host) : Type 0 where
    pub same_routes : Perm (map route after.plane.listeners) (map route s.plane.listeners)
    pub kept :
        (h : streams.Handle)
        → has_conn host h s.conns ≡ true
        → lookup same_handle h after.conns ≡ lookup same_handle h s.conns
    pub connected :
        All (λ l. is_ready host s l ≡ true → Starts l.handle after.conns) s.plane.listeners
