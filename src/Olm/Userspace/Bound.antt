-- ===== src/Olm/Userspace/Bound.antt =====
-- The forwards that a new userspace backend listens for.
use newt_rust.Common.{ℕ, ◌≡◌, refl, sym, List, [], ◌∷◌, map, Option, none, some, Text, codes, ◌++◌}
use newt_rust.Common.Results.{ok_or}
use newt_rust.Common.Io.{Io, pure, Ends, Ends-after, Ends-any, after, ◌>>=◌}
use newt_rust.Common.Net.{IpAddr}
use newt_rust.Config.Parse.{Forward}
use newt_rust.Olm.Userspace.{
  Local, Origin, ForwardListener, UserspaceBackend, bind_each, new, first_port,
}

module _ (net : Local) (origin : Origin net.Stream) (parse_ip : Text → Option IpAddr) where
  open net use {World, Listener, bind}

  -- where a forward sends its connections
  abbrev pub goes_to : ForwardListener Listener → Option IpAddr × ℕ
  goes_to l = (some l.dest, l.dest_port)

  abbrev pub asked_for : Forward → Option IpAddr × ℕ
  asked_for f = (parse_ip f.dest_host, f.dest_port)

  -- A listener for each forward, in order, with the address that its text is read as.
  abbrev pub Serves : List Forward → List (ForwardListener Listener) → Type 0
  Serves forwards fl = map goes_to fl ≡ map asked_for forwards

  -- the address of a forward
  address_Ends :
      (P : List (ForwardListener Listener) → Type 0) (why : Text) (o : Option IpAddr) (w : World)
      (next : IpAddr → Io World (List (ForwardListener Listener)))
      → ((dest : IpAddr) → o ≡ some dest → Ends P (next dest w))
      → Ends P (after (ok_or why o, w) next)
  address_Ends P why none w next h = tt
  address_Ends P why (some dest) w next h = h dest refl

  bind_each-Serves :
      (forwards : List Forward) (w : World)
      → Ends (Serves forwards) (bind_each net origin parse_ip forwards w)
  unfolding bind_each
  bind_each-Serves [] w = refl
  bind_each-Serves (f ∷ fs) w =
      let more = bind_each net origin parse_ip fs in
      let pushed : IpAddr → Listener → Io World (List (ForwardListener Listener)) = λ dest listener.
        more >>= λ rest.
        pure (record { listener = listener; dest = dest; dest_port = f.dest_port } ∷ rest) in
      address_Ends (Serves (f ∷ fs)) (codes "forward dest must be an IP address: " ++ f.dest_host)
        (parse_ip f.dest_host) w (λ dest. bind f.listen_port >>= pushed dest)
        (λ dest e. Ends-any (Serves (f ∷ fs)) (bind f.listen_port w) (pushed dest) (λ listener w1.
          Ends-after (Serves fs) (Serves (f ∷ fs)) (more w1)
            (λ rest.
              pure (record { listener = listener; dest = dest; dest_port = f.dest_port } ∷ rest))
            (bind_each-Serves fs w1) (λ rest w2 same i. (sym e i, f.dest_port) ∷ same i)))

  -- A new backend that is returned listens for each forward, in their order, and each sends its connections to the
  -- address that its destination is read as and to its port, so every destination is an address; it has
  -- no connection and no packet yet, and starts at the first local port.
  pub new-Serves :
      (tunnel_ip : IpAddr) (mtu : ℕ) (forwards : List Forward) (w : World)
      → Ends
          (λ (b : UserspaceBackend net origin parse_ip).
            Serves forwards b.forwards × (b.rx ≡ []) × (b.conns ≡ []) × (b.next_port ≡ first_port))
          (new net origin parse_ip tunnel_ip mtu forwards w)
  unfolding new
  new-Serves tunnel_ip mtu forwards w =
      Ends-after (Serves forwards) _ (bind_each net origin parse_ip forwards w) _
        (bind_each-Serves forwards w) (λ fl w1 h. (h, refl, refl, refl))
