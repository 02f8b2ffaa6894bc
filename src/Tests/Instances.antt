-- ===== src/Tests/Instances.antt =====
-- Concrete stand-ins for the libraries that the program calls.
use newt_rust.Common.{
  ℕ, suc, ◌<◌, ◌≡◌, ◌≢◌, refl, Bool, true, false, List, [], ◌∷◌, ◌++◌, some, Text, codes, length,
  arith, subst,
}
use newt_rust.Common.Int.{ℤ, pos, negsuc}
use newt_rust.Common.Numbers.{decimal}
use newt_rust.Common.Json.{Json}
use newt_rust.Common.Net.{Bytes, IpAddr, v4, IsAddr}
use newt_rust.Wg.{Noise, TunnResult, done, write_to_network, write_to_tunnel_v4}
use newt_rust.Olm.Cidr.{IpParser}
use newt_rust.Tunnel.Listeners.{SocketSet}

-- Values printed as they are built, with `f64` cut down to ℕ.
abbrev concat : List Text → Text
concat [] = []
concat (t ∷ ts) = t ++ codes "," ++ concat ts

abbrev fields : List (Text × Text) → Text
fields [] = []
fields ((k, v) ∷ fs) = k ++ codes ":" ++ v ++ codes "," ++ fields fs

abbrev print_bool : Bool → Text
print_bool true = codes "true"
print_bool false = codes "false"

abbrev print_int : ℤ → Text
print_int (pos n) = decimal n
print_int (negsuc n) = codes "-" ++ decimal (suc n)

abbrev pub printed : Json
printed = record {
  Value = Text;
  Float = ℕ;
  float_zero = 0;
  bool = print_bool;
  string = λ s. codes "'" ++ s ++ codes "'";
  int = print_int;
  float = decimal;
  array = λ ts. codes "[" ++ concat ts ++ codes "]";
  object = λ fs. codes "{" ++ fields fs ++ codes "}";
}

-- A tunnel that encrypts nothing and holds the messages that it still has to send.
abbrev flush : List Bytes → List Bytes × TunnResult
flush [] = ([], done)
flush (m ∷ ms) = (ms, write_to_network m)

abbrev receive : List Bytes → Bytes → List Bytes × TunnResult
receive t [] = flush t
receive t (b ∷ datagram) = (t ++ datagram ∷ [], write_to_tunnel_v4 (b ∷ datagram))

pub flush-ends : (t : List Bytes) → (flush t).1 ≢ done → length (flush t).0 < length t
flush-ends [] h = absurd (h refl)
flush-ends (m ∷ ms) h = omega arith

abbrev pub clear : Noise
clear = record {
  Tunn = List Bytes;
  StaticSecret = Unit;
  PublicKey = Bytes;
  decode64 = λ s. some s;
  public_key = λ b. b;
  tunn_new = λ s k index. [];
  tunn_encapsulate = λ t pkt n. (t, write_to_network pkt);
  tunn_decapsulate = λ t datagram n. receive t datagram;
  tunn_initiate = λ t n. (t, write_to_network (1 ∷ []));
  tunn_timers = λ t n. (t, done);
  queued = length;
  flush_ends = λ t n h e. flush-ends t h;
}

-- Reads every text as the address 10.0.0.0.
abbrev pub ten : IpAddr
ten = v4 (10 ∷ 0 ∷ 0 ∷ 0 ∷ [])

pub ten-IsAddr : (ip : IpAddr) → some ten ≡ some ip → IsAddr ip
ten-IsAddr ip h =
    let bytes : IsAddr ten =
      (refl, (omega arith, (omega arith, (omega arith, (omega arith, tt))))) in
    let same : ten ≡ ip = cc in subst IsAddr same bytes

abbrev pub tens : IpParser
tens = record { parse_ip = λ s. some ten; parse_ip-IsAddr = λ s. ten-IsAddr }

-- Sockets by number, in the order of their ports.
abbrev pub numbered : SocketSet
numbered = record {
  Sockets = List ℕ;
  Handle = ℕ;
  add = λ rx tx s. (length s, s ++ 0 ∷ []);
  listen = λ h p s. s;
  remove = λ h s. s;
}
