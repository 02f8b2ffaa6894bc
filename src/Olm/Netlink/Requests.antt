-- ===== src/Olm/Netlink/Requests.antt =====
-- The requests, as the kernel reads them.
use newt_rust.Common.{
  ℕ, if◌then◌else◌, ◌+◌, ◌%◌, ◌^◌, ◌<◌, Bool, true, false, [], ◌∷◌, ◌++◌, some, ◌≡◌, refl, sym, ◌∙◌,
  ap, arith, length, take, drop, take-append, drop-append, ◌≤◌, length-append, append_assoc,
  append-nil,
}
use newt_rust.Common.Results.{Result, ok, err}
use newt_rust.Common.Io.{Io, lift, after}
use newt_rust.Common.Net.{Bytes, IpAddr, v4, v6, IsAddr, octets, is_ipv4}
use newt_rust.Olm.Netlink.{
  ne32, push_attr, message, addr_payload, route_payload, Kernel, Netlink, request, read_ack,
  verdict, add_route,
}
use newt_rust.Olm.Netlink.Attributes.{
  read_attr, attribute, push_attr-attribute, read_attr-attribute, length-attribute,
}
use newt_rust.Olm.Netlink.Header.{read_header, read_header-message, length-message}

length-ne32 : (little : Bool) (n : ℕ) → length (ne32 little n) ≡ 4
length-ne32 true n = refl
length-ne32 false n = refl

-- Two attributes behind an aligned head.
push_two :
    (little : Bool) (head first second : Bytes) (t u : ℕ)
    → length head % 4 ≡ 0
    → 4 + length first < 2 ^ 16
    → 4 + length second < 2 ^ 16
    → push_attr little (push_attr little head t first) u second
      ≡ head ++ (attribute little t first ++ attribute little u second)
push_two little head first second t u aligned short short' =
    let one = push_attr-attribute little head first t aligned short in
    let size = length-append head (attribute little t first) in
    let still : length (head ++ attribute little t first) % 4 ≡ 0 =
      omega (arith, size, (length-attribute little t first).0) in
    rw one (push_attr-attribute little (head ++ attribute little t first) second u still short')
    ∙ append_assoc head (attribute little t first) (attribute little u second)

-- A body with two attributes and nothing behind them.
record HasTwo (little : Bool) (attrs : Bytes) (t : ℕ) (first : Bytes) (u : ℕ) (second : Bytes)
    : Type 0 where
  rest : Bytes
  reads_first : read_attr little attrs ≡ some (t, first, rest)
  reads_second : read_attr little rest ≡ some (u, second, [])

two_attributes :
    (little : Bool) (first second : Bytes) (t u : ℕ)
    → t < 2 ^ 16
    → u < 2 ^ 16
    → 4 + length first < 2 ^ 16
    → 4 + length second < 2 ^ 16
    → HasTwo little (attribute little t first ++ attribute little u second) t first u second
two_attributes little first second t u ht hu short short' = record {
  rest = attribute little u second;
  reads_first = read_attr-attribute little t first (attribute little u second) ht short;
  reads_second =
      ap (read_attr little) (sym (append-nil (attribute little u second)))
      ∙ read_attr-attribute little u second [] hu short';
}

-- A message that reads as a request: its header with its own length, the fixed part of its body, then
-- two attributes and nothing behind them.
pub record IsRequest (little : Bool) (seq typ flags : ℕ) (fixed : Bytes) (t : ℕ) (first : Bytes)
    (u : ℕ) (second msg : Bytes) : Type 0 where
  body : Bytes
  header : read_header little msg ≡ some (length msg, typ, flags, seq, 0, body)
  starts : take (length fixed) body ≡ fixed
  attributes : HasTwo little (drop (length fixed) body) t first u second

message-IsRequest :
    (little : Bool) (seq typ flags : ℕ) (fixed first second payload : Bytes) (t u : ℕ)
    → seq < 2 ^ 32
    → typ < 2 ^ 16
    → flags < 2 ^ 16
    → t < 2 ^ 16
    → u < 2 ^ 16
    → length fixed % 4 ≡ 0
    → length fixed < 2 ^ 16
    → length first ≤ 16
    → length second ≤ 16
    → payload ≡ push_attr little (push_attr little fixed t first) u second
    → IsRequest little seq typ flags fixed t first u second (message little seq typ flags payload)
message-IsRequest little seq typ flags fixed first second payload t u hs hty hf ht hu aligned hx h1
      h2 e =
    let attrs = attribute little t first ++ attribute little u second in
    let whole : payload ≡ fixed ++ attrs =
      e ∙ push_two little fixed first second t u aligned (omega arith) (omega arith) in
    let sizes = length-append fixed attrs in
    let both = length-append (attribute little t first) (attribute little u second) in
    let small = (length-attribute little t first).1 in
    let small' = (length-attribute little u second).1 in
    let short : 16 + length payload < 2 ^ 32 =
      omega (arith, ap length whole, sizes, both, small, small') in
    record {
      body = payload;
      header =
          rw (length-message little seq typ flags payload)
            (read_header-message little seq typ flags payload hs hty hf short);
      starts = rw whole (take-append fixed attrs);
      attributes =
          rw (whole, drop-append fixed attrs)
            (two_attributes little first second t u ht hu (omega arith) (omega arith));
    }

octets-le : (ip : IpAddr) → IsAddr ip → length (octets ip) ≤ 16
octets-le (v4 a) h = omega (arith, h.0)
octets-le (v6 a) h = omega (arith, h.0)

-- AF_INET or AF_INET6
abbrev pub family_of : IpAddr → ℕ
family_of ip = if is_ipv4 ip then 2 else 10

-- `struct rtmsg`: family, lengths of the prefixes, tos, main table, boot protocol, link scope, unicast,
-- no flags.
abbrev pub rtmsg : IpAddr → ℕ → Bytes
rtmsg dst prefix = family_of dst ∷ prefix ∷ 0 ∷ 0 ∷ 254 ∷ 3 ∷ 253 ∷ 1 ∷ 0 ∷ 0 ∷ 0 ∷ 0 ∷ []

-- `struct ifaddrmsg`: family, length of the prefix, no flags, universe scope, interface.
abbrev pub ifaddrmsg : Bool → IpAddr → ℕ → ℕ → Bytes
ifaddrmsg little ip prefix ifindex = family_of ip ∷ prefix ∷ 0 ∷ 0 ∷ [] ++ ne32 little ifindex

route_payload-rtmsg :
    (little : Bool) (ifindex : ℕ) (dst : IpAddr) (prefix : ℕ)
    → route_payload little ifindex dst prefix
      ≡ push_attr little
          (push_attr little (rtmsg dst prefix) 1 (octets dst))
          4
          (ne32 little ifindex)
unfolding route_payload
route_payload-rtmsg true ifindex (v4 a) prefix = refl
route_payload-rtmsg true ifindex (v6 a) prefix = refl
route_payload-rtmsg false ifindex (v4 a) prefix = refl
route_payload-rtmsg false ifindex (v6 a) prefix = refl

addr_payload-ifaddrmsg :
    (little : Bool) (ifindex : ℕ) (ip : IpAddr) (prefix : ℕ)
    → addr_payload little ifindex ip prefix
      ≡ push_attr little
          (push_attr little (ifaddrmsg little ip prefix ifindex) 2 (octets ip))
          1
          (octets ip)
unfolding addr_payload
addr_payload-ifaddrmsg little ifindex (v4 a) prefix = refl
addr_payload-ifaddrmsg little ifindex (v6 a) prefix = refl

-- The body of a route in a message of type RTM_NEWROUTE, with the flags REQUEST, ACK, CREATE and REPLACE.
route_payload-IsRequest :
    (little : Bool) (seq ifindex : ℕ) (dst : IpAddr) (prefix : ℕ)
    → seq < 2 ^ 32
    → IsAddr dst
    → IsRequest little seq 24 0x505
        (rtmsg dst prefix)
        1
        (octets dst)
        4
        (ne32 little ifindex)
        (message little seq 24 0x505 (route_payload little ifindex dst prefix))
route_payload-IsRequest little seq ifindex dst prefix hs ha =
    message-IsRequest little seq 24 0x505 (rtmsg dst prefix) (octets dst) (ne32 little ifindex)
      (route_payload little ifindex dst prefix) 1 4 hs (omega arith) (omega arith) (omega arith)
      (omega arith) (omega arith) (omega arith) (octets-le dst ha)
      (omega (arith, length-ne32 little ifindex)) (route_payload-rtmsg little ifindex dst prefix)

-- The body of an address in a message of type RTM_NEWADDR reads as a request, with the same flags, for the
-- interface and the prefix, whose attributes are the octets of the address, as the local one
-- (IFA_LOCAL) and as the peer's (IFA_ADDRESS), and nothing else.
pub addr_payload-IsRequest :
    (little : Bool) (seq ifindex : ℕ) (ip : IpAddr) (prefix : ℕ)
    → seq < 2 ^ 32
    → IsAddr ip
    → IsRequest little seq 20 0x505
        (ifaddrmsg little ip prefix ifindex)
        2
        (octets ip)
        1
        (octets ip)
        (message little seq 20 0x505 (addr_payload little ifindex ip prefix))
addr_payload-IsRequest little seq ifindex ip prefix hs ha =
    let head : Bytes = family_of ip ∷ prefix ∷ 0 ∷ 0 ∷ [] in
    let size = length-append head (ne32 little ifindex) in
    let four = length-ne32 little ifindex in
    message-IsRequest little seq 20 0x505 (ifaddrmsg little ip prefix ifindex) (octets ip)
      (octets ip) (addr_payload little ifindex ip prefix) 2 1 hs (omega arith) (omega arith)
      (omega arith) (omega arith) (omega (arith, size, four)) (omega (arith, size, four))
      (octets-le ip ha) (octets-le ip ha) (addr_payload-ifaddrmsg little ifindex ip prefix)

module _ (little : Bool) (k : Kernel) where
  open k use {World, Fd, sent}

  after-sent :
      {A B : Type 0} (r : Result A × World) (next : A → Io World B)
      → ((a : A) (w : World) → sent (next a w).1 ≡ sent w)
      → sent (after r next).1 ≡ sent r.1
  after-sent (err why, w) next same = refl
  after-sent (ok a, w) next same = same a w

  -- A request sends its message, once and whatever comes of it.
  request-sent :
      (nl : Netlink little k) (typ flags : ℕ) (payload : Bytes) (w : World)
      → sent (request little k nl typ flags payload w).1
        ≡ sent w ++ (nl.fd, message little nl.seq typ flags payload) ∷ []
  unfolding request read_ack
  request-sent nl typ flags payload w =
      let msg = message little nl.seq typ flags payload in
      after-sent (k.send_to nl.fd msg w) (λ u. read_ack little k nl)
        (λ u w1.
          after-sent (k.receive nl.fd 4096 w1) (λ buf. lift (verdict little k buf)) (λ buf w2. refl)
          ∙ k.receive-sent nl.fd 4096 w1)
      ∙ k.send_to-sent nl.fd msg w

  -- A message that asks for a route: of type RTM_NEWROUTE, with the flags REQUEST, ACK, CREATE and REPLACE, for
  -- a unicast route to the prefix in the main table, whose attributes are the octets of the destination
  -- (RTA_DST) and the index of the interface (RTA_OIF), and nothing else.
  abbrev pub IsRouteRequest : ℕ → ℕ → IpAddr → ℕ → Bytes → Type 0
  IsRouteRequest seq ifindex dst prefix msg =
      IsRequest little seq 24 0x505 (rtmsg dst prefix) 1 (octets dst) 4 (ne32 little ifindex) msg

  -- Adding a route sends one message on the socket, with its sequence number, which reads as the request for a
  -- unicast route to the prefix in the main table over the interface, to be created or replaced (RTM_NEWROUTE with
  -- the flags REQUEST, ACK, CREATE and REPLACE, and the attributes RTA_DST and RTA_OIF and nothing else). The
  -- next sequence number follows, modulo 2 ^ 32, whatever comes of the request.
  pub add_route-IsRouteRequest :
      (nl : Netlink little k) (ifindex : ℕ) (dst : IpAddr) (prefix : ℕ) (w : World)
      → nl.seq < 2 ^ 32
      → IsAddr dst
      → (msg : Bytes) × (sent (add_route little k nl ifindex dst prefix w).1
          ≡ sent w ++ (nl.fd, msg) ∷ [])
        × IsRouteRequest nl.seq ifindex dst prefix msg
        × ((add_route little k nl ifindex dst prefix w).0.0.fd ≡ nl.fd)
        × ((add_route little k nl ifindex dst prefix w).0.0.seq ≡ (nl.seq + 1) % 2 ^ 32)
  unfolding add_route request
  add_route-IsRouteRequest nl ifindex dst prefix w hs ha = (
    message little nl.seq 24 0x505 (route_payload little ifindex dst prefix),
    request-sent nl 24 0x505 (route_payload little ifindex dst prefix) w,
    route_payload-IsRequest little nl.seq ifindex dst prefix hs ha,
    refl,
    refl,
  )
