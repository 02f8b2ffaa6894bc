-- ===== src/Olm/Netlink.antt =====
-- crates/newt/src/olm/netlink.rs: the requests over a netlink socket. System calls are the parameter
-- `Kernel`. Whether the machine's byte order is little-endian is an argument.
pub mod Attributes
pub mod Header
pub mod Requests
pub mod Acks
use newt_rust.Common.{
  ◌≡◌, ℕ, zero, suc, ◌+◌, ◌-◌, ◌*◌, ◌/◌, ◌%◌, ◌^◌, Bool, true, false, List, [], ◌∷◌, ◌++◌, Option,
  none, some, Text, codes, length, take, get_or, ltb, ◌==◌, if◌then◌else◌,
}
use newt_rust.Common.Results.{Result, ok, err}
use newt_rust.Common.Io.{Io, pure, lift, ◌>>=◌, ◌>>◌}
use newt_rust.Common.Net.{Bytes, IpAddr, v4, v6}

-- The system calls; an error is that of the last failed call. `receive` returns at most as many
-- bytes as its argument.
pub record Kernel : Type 1 where
  pub World : Type 0
  pub Fd : Type 0
  pub socket : Io World Fd
  pub send_to : Fd → Bytes → Io World (Unit {0})
  pub receive : Fd → ℕ → Io World Bytes
  -- `if_nametoindex`, with the test for a text without NUL
  pub if_index : Text → Io World ℕ
  -- `from_raw_os_error`, by the bits of an `i32`
  pub os_error : ℕ → Text
  -- what was given to `send_to`, by the socket
  pub sent : World → List (Fd × Bytes)
  pub send_to-sent :
      (fd : Fd) (b : Bytes) (w : World) → sent (send_to fd b w).1 ≡ sent w ++ (fd, b) ∷ []
  pub receive-sent : (fd : Fd) (n : ℕ) (w : World) → sent (receive fd n w).1 ≡ sent w

-- `to_ne_bytes` and `from_ne_bytes` of `u16` and of `u32`
abbrev pub ne16 : Bool → ℕ → Bytes
ne16 true n = (n % 256) ∷ (n / 256 % 256) ∷ []
ne16 false n = (n / 256 % 256) ∷ (n % 256) ∷ []

abbrev pub ne32 : Bool → ℕ → Bytes
ne32 true n = (n % 256) ∷ (n / 256 % 256) ∷ (n / 256 ^ 2 % 256) ∷ (n / 256 ^ 3 % 256) ∷ []
ne32 false n = (n / 256 ^ 3 % 256) ∷ (n / 256 ^ 2 % 256) ∷ (n / 256 % 256) ∷ (n % 256) ∷ []

abbrev pub from_ne16 : Bool → ℕ → ℕ → ℕ
from_ne16 true a b = a + 256 * b
from_ne16 false a b = b + 256 * a

abbrev pub from_ne32 : Bool → ℕ → ℕ → ℕ → ℕ → ℕ
from_ne32 true a b c d = a + 256 * b + 256 ^ 2 * c + 256 ^ 3 * d
from_ne32 false a b c d = d + 256 * c + 256 ^ 2 * b + 256 ^ 3 * a

-- message types
abbrev pub rtm_newlink : ℕ
rtm_newlink = 16

abbrev pub rtm_newaddr : ℕ
rtm_newaddr = 20

abbrev pub rtm_newroute : ℕ
rtm_newroute = 24

abbrev pub nlmsg_error : ℕ
nlmsg_error = 2

-- flags: REQUEST | ACK, and with CREATE | REPLACE
abbrev pub request_ack : ℕ
request_ack = 0x001 + 0x004

abbrev pub create_replace : ℕ
create_replace = 0x001 + 0x004 + 0x400 + 0x100

-- attribute types
abbrev pub ifla_mtu : ℕ
ifla_mtu = 4

abbrev pub ifa_address : ℕ
ifa_address = 1

abbrev pub ifa_local : ℕ
ifa_local = 2

abbrev pub rta_dst : ℕ
rta_dst = 1

abbrev pub rta_oif : ℕ
rta_oif = 4

-- routing constants
abbrev pub rt_table_main : ℕ
rt_table_main = 254

abbrev pub rt_scope_universe : ℕ
rt_scope_universe = 0

abbrev pub rt_scope_link : ℕ
rt_scope_link = 253

abbrev pub rtprot_boot : ℕ
rtprot_boot = 3

abbrev pub rtn_unicast : ℕ
rtn_unicast = 1

abbrev pub iff_up : ℕ
iff_up = 1

-- AF_UNSPEC, AF_INET and AF_INET6 of Linux
abbrev pub af_unspec : ℕ
af_unspec = 0

abbrev pub fam_bytes : IpAddr → ℕ × Bytes
fam_bytes (v4 a) = (2, a)
fam_bytes (v6 a) = (10, a)

-- the loop that fills up to a multiple of four; three rounds are enough
pub pad : ℕ → Bytes → Bytes
pad zero buf = buf
pad (suc rounds) buf =
    let more = pad rounds (buf ++ 0 ∷ []) in if length buf % 4 == 0 then buf else more

module _ (little : Bool) where
  unfoldable pub push_attr : Bytes → ℕ → Bytes → Bytes
  unfolding pad
  push_attr buf attr_type value =
      pad 3 (buf ++ (ne16 little ((4 + length value) % 2 ^ 16) ++ (ne16 little attr_type ++ value)))

  -- The message that `request` sends.
  unfoldable pub message : ℕ → ℕ → ℕ → Bytes → Bytes
  message seq msg_type flags payload =
      ne32 little ((16 + length payload) % 2 ^ 32)
      ++ (ne16 little msg_type
          ++ (ne16 little flags ++ (ne32 little seq ++ (ne32 little 0 ++ payload))))

  -- The bodies of the requests.
  pub link_info : ℕ → ℕ → Bytes
  link_info ifindex flags =
      af_unspec ∷ 0 ∷ []
      ++ (ne16 little 0 ++ (ne32 little ifindex ++ (ne32 little flags ++ ne32 little flags)))

  pub mtu_payload : ℕ → ℕ → Bytes
  unfolding link_info
  mtu_payload ifindex mtu = push_attr (link_info ifindex 0) ifla_mtu (ne32 little mtu)

  pub up_payload : ℕ → Bytes
  unfolding link_info
  up_payload ifindex = link_info ifindex iff_up

  pub addr_payload : ℕ → IpAddr → ℕ → Bytes
  addr_payload ifindex ip prefix =
      let (family, addr) = fam_bytes ip in
      let head = family ∷ prefix ∷ 0 ∷ rt_scope_universe ∷ [] ++ ne32 little ifindex in
      push_attr (push_attr head ifa_local addr) ifa_address addr

  -- the fixed part of a route
  pub route_head : ℕ → ℕ → Bytes
  route_head family prefix =
      family ∷ prefix ∷ 0 ∷ 0 ∷ rt_table_main ∷ rtprot_boot ∷ rt_scope_link ∷ rtn_unicast ∷ []
      ++ ne32 little 0

  pub route_payload : ℕ → IpAddr → ℕ → Bytes
  unfolding route_head
  route_payload ifindex dst prefix =
      let (family, addr) = fam_bytes dst in
      push_attr (push_attr (route_head family prefix) rta_dst addr) rta_oif (ne32 little ifindex)

module _ (little : Bool) (k : Kernel) where
  open k use {World, Fd, socket, send_to, receive, os_error}

  pub record Netlink : Type 0 where
    pub fd : Fd
    pub seq : ℕ

  -- the verdict on the bytes received, which are what the buffer holds
  unfoldable pub verdict : Bytes → Result (Unit {0})
  verdict buf =
      if ltb (length buf) 20
      then err (codes "short netlink ack")
      else (let e =
            from_ne32 little (get_or buf 16 0) (get_or buf 17 0) (get_or buf 18 0)
              (get_or buf 19 0) in
          if from_ne16 little (get_or buf 4 0) (get_or buf 5 0) == nlmsg_error
          then (if e == 0 then ok tt else err (os_error ((2 ^ 32 - e) % 2 ^ 32)))
          else ok tt)

  unfoldable pub read_ack : Netlink → Io World (Unit {0})
  unfolding verdict
  read_ack nl = do buf ← receive nl.fd 4096; lift (verdict buf)

  -- The socket with its next sequence number, which wraps around, and the outcome.
  unfoldable pub request : Netlink → ℕ → ℕ → Bytes → World → (Netlink × Result (Unit {0})) × World
  unfolding message read_ack
  request nl msg_type flags payload w =
      let next : Netlink = record nl { seq = (nl.seq + 1) % 2 ^ 32 } in
      let (res, w') =
        (do send_to nl.fd (message little nl.seq msg_type flags payload); read_ack nl) w in
      ((next, res), w')

  unfoldable pub open_socket : Io World Netlink
  open_socket = do fd ← socket; pure (record { fd = fd; seq = 1 })

  unfoldable pub set_mtu : Netlink → ℕ → ℕ → World → (Netlink × Result (Unit {0})) × World
  unfolding request mtu_payload
  set_mtu nl ifindex mtu = request nl rtm_newlink request_ack (mtu_payload little ifindex mtu)

  unfoldable pub link_up : Netlink → ℕ → World → (Netlink × Result (Unit {0})) × World
  unfolding request up_payload
  link_up nl ifindex = request nl rtm_newlink request_ack (up_payload little ifindex)

  unfoldable pub add_addr : Netlink → ℕ → IpAddr → ℕ → World → (Netlink × Result (Unit {0})) × World
  unfolding request addr_payload
  add_addr nl ifindex ip prefix =
      request nl rtm_newaddr create_replace (addr_payload little ifindex ip prefix)

  unfoldable pub add_route :
      Netlink → ℕ → IpAddr → ℕ → World → (Netlink × Result (Unit {0})) × World
  unfolding request route_payload
  add_route nl ifindex dst prefix =
      request nl rtm_newroute create_replace (route_payload little ifindex dst prefix)
