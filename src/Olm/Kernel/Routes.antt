-- ===== src/Olm/Kernel/Routes.antt =====
-- What adding routes does to the kernel backend.
use newt_rust.Common.{
  ℕ, ◌+◌, ◌%◌, ◌^◌, ◌<◌, Bool, List, [], ◌∷◌, ◌++◌, All, ◌≡◌, refl, sym, ◌∙◌, ap, arith, append-nil,
  append_assoc, subst,
}
use newt_rust.Common.Net.{Bytes, IsAddr}
use newt_rust.Common.Results.{ok}
use newt_rust.Olm.Cidr.{Cidr}
use newt_rust.Olm.Netlink.{Kernel, Netlink, add_route}
use newt_rust.Olm.Netlink.Requests.{IsRouteRequest, add_route-IsRouteRequest}
use newt_rust.Olm.Kernel.{TunFile, KernelBackend, route_each, add_routes}

module _ (little : Bool) (k : Kernel) (t : TunFile k.World) where
  open k use {World, Fd, sent}

  -- One message on the socket for each range, in their order and with the next sequence numbers, that asks for a
  -- route to that range over the interface.
  abbrev pub Requested : Fd → ℕ → ℕ → List Cidr → List (Fd × Bytes) → Type 0
  Requested fd ifindex seq [] [] = Unit {0}
  Requested fd ifindex seq [] (m ∷ ms) = ⊥
  Requested fd ifindex seq (c ∷ cs) [] = ⊥
  Requested fd ifindex seq (c ∷ cs) ((on, msg) ∷ ms) =
      (on ≡ fd)
      × IsRouteRequest little k seq ifindex c.net c.prefix msg
      × Requested fd ifindex ((seq + 1) % 2 ^ 32) cs ms

  -- What the requests for the ranges leave.
  record Tried (ifindex : ℕ) (cs : List Cidr) (nl : Netlink little k) (w : World)
      (after : Netlink little k) (w' : World) : Type 0 where
    messages : List (Fd × Bytes)
    all_sent : sent w' ≡ sent w ++ messages
    requested : Requested nl.fd ifindex nl.seq cs messages
    same_fd : after.fd ≡ nl.fd

  route_each-Tried :
      (ifindex : ℕ) (cs : List Cidr) (nl : Netlink little k) (w : World)
      → nl.seq < 2 ^ 32
      → All (λ (c : Cidr). IsAddr c.net) cs
      → Tried ifindex cs nl w
          (route_each little k t ifindex cs nl w).0
          (route_each little k t ifindex cs nl w).1
  unfolding route_each
  route_each-Tried ifindex [] nl w h addrs = record {
    messages = [];
    all_sent = sym (append-nil (sent w));
    requested = tt;
    same_fd = refl;
  }
  route_each-Tried ifindex (c ∷ cs) nl w h (addr, addrs) =
      let made = add_route little k nl ifindex c.net c.prefix w in
      let (msg, one, asks, same, next) =
        add_route-IsRouteRequest little k nl ifindex c.net c.prefix w h addr in
      let rest = route_each-Tried ifindex cs made.0.0 made.1 (omega (arith, next)) addrs in
      record {
        messages = (nl.fd, msg) ∷ rest.messages;
        all_sent =
            rest.all_sent
            ∙ ap (λ s. s ++ rest.messages) one
            ∙ append_assoc (sent w) ((nl.fd, msg) ∷ []) rest.messages;
        requested = (
          refl,
          asks,
          subst (λ fd. Requested fd ifindex ((nl.seq + 1) % 2 ^ 32) cs rest.messages) same
              (subst (λ seq. Requested made.0.0.fd ifindex seq cs rest.messages) next
                rest.requested),
        );
        same_fd = rest.same_fd ∙ same;
      }

  -- Adding routes never fails: for each range, in their order, one request for a route to it over the backend's
  -- interface is sent on its socket, with the next sequence numbers (which wrap around), also after a request
  -- that failed, and nothing else is sent; for ranges whose addresses have the octets of their family.
  pub add_routes-tries_all :
      (b : KernelBackend little k t) (cs : List Cidr) (w : World)
      → b.nl.seq < 2 ^ 32
      → All (λ (c : Cidr). IsAddr c.net) cs
      → ((add_routes little k t b cs w).0.1 ≡ ok tt)
        × ((add_routes little k t b cs w).0.0.ifindex ≡ b.ifindex)
        × ((add_routes little k t b cs w).0.0.nl.fd ≡ b.nl.fd)
        × (messages : List (Fd × Bytes)) × (sent (add_routes little k t b cs w).1
            ≡ sent w ++ messages)
        × Requested b.nl.fd b.ifindex b.nl.seq cs messages
  unfolding add_routes
  add_routes-tries_all b cs w h addrs =
      let tried = route_each-Tried b.ifindex cs b.nl w h addrs in
      (refl, refl, tried.same_fd, tried.messages, tried.all_sent, tried.requested)
