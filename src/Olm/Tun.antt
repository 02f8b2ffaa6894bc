-- ===== src/Olm/Tun.antt =====
-- The TUN device of crates/newt/src/olm/tun.rs: the request that creates the interface, and the loops over its
-- file. System calls and the readiness of the file are parameters.
pub mod Named
use newt_rust.Common.{
  ℕ, zero, suc, ◌+◌, ◌-◌, min, bit_or, Bool, List, [], ◌∷◌, ◌++◌, length, take, replicate, ◌==◌,
  if◌then◌else◌, Option, none, some, Text, codes,
}
use newt_rust.Common.Results.{Result, ok, err}
use newt_rust.Common.Io.{Io, pure, ◌>>=◌, ◌>>◌}
use newt_rust.Common.Net.{Bytes}
use newt_rust.Olm.Kernel.{TunFile}

abbrev iff_tun : ℕ
iff_tun = 0x0001

abbrev iff_no_pi : ℕ
iff_no_pi = 0x1000

-- `TUNSETIFF`, by whether the architecture is one of those that encode the direction of a request differently
abbrev pub tunsetiff : Bool → ℕ
tunsetiff other_encoding = if other_encoding then 0x800454ca else 0x400454ca

-- A `c_char` is an unsigned byte here.
pub record IfReq : Type 0 where
  pub ifr_name : Bytes
  pub ifr_flags : ℕ
  pub pad : Bytes

-- The calls on files, with the value of `O_NONBLOCK`, and `as_bytes` of a `str`.
pub record Files : Type 1 where
  pub World : Type 0
  pub Fd : Type 0
  pub open_file : Text → Io World Fd
  -- `ioctl`, with the request as the kernel leaves it
  pub ioctl : Fd → ℕ → IfReq → Io World IfReq
  pub get_flags : Fd → Io World ℕ
  pub set_flags : Fd → ℕ → Io World (Unit {0})
  pub o_nonblock : ℕ
  -- `AsyncFd::new`
  pub async_fd : Fd → Io World (Unit {0})
  pub as_bytes : Text → Bytes

-- the name of the request: at most 15 bytes, and zeros behind them
abbrev pub padded : Bytes → Bytes
padded bytes = let n = min (length bytes) 15 in take n bytes ++ replicate (16 - n) 0

abbrev pub tun_request : Bytes → IfReq
tun_request bytes = record {
  ifr_name = padded bytes;
  ifr_flags = bit_or iff_tun iff_no_pi;
  pad = replicate 22 0;
}

-- The bytes before the first zero, each as a `char`.
pub real_name : Bytes → Text
real_name [] = []
real_name (c ∷ name) = let rest = real_name name in if c == 0 then [] else c ∷ rest

module _ (files : Files) where
  open files use {World, Fd, open_file, ioctl, get_flags, set_flags, o_nonblock, async_fd, as_bytes}

  pub record Tun : Type 0 where
    pub fd : Fd
    pub name : Text

  pub set_nonblocking : Fd → Io World (Unit {0})
  set_nonblocking fd = do flags ← get_flags fd; set_flags fd (bit_or flags o_nonblock)

  -- `Tun::open`
  unfoldable pub open_tun : Bool → Text → Io World Tun
  unfolding real_name set_nonblocking
  open_tun other_encoding name = do
    file ← open_file (codes "/dev/net/tun")
    req ← ioctl file (tunsetiff other_encoding) (tun_request (as_bytes name))
    set_nonblocking file
    async_fd file
    pure (record { fd = file; name = real_name req.ifr_name })

-- A round of the loops over the file: it could not be awaited, the call on it would have blocked, or
-- the call ended.
pub data Attempt (A : Type 0) : Type 0 where
  unready : Text → Attempt A
  would_block : Attempt A
  ended : Result A → Attempt A

-- The loop of `read_packet` and of `write_packet`, over the rounds that come; none while it goes on.
pub await_io : {A : Type 0} → List (Attempt A) → Option (Result A)
await_io [] = none
await_io (unready why ∷ rounds) = some (err why)
await_io (would_block ∷ rounds) = await_io rounds
await_io (ended res ∷ rounds) = some res

-- The device as the backend uses it, by the packets that are read and how those written end.
abbrev pub tun_file :
    (files : Files)
    → Bool
    → (Tun files → ℕ → Io files.World Bytes)
    → (Tun files → Bytes → Io files.World (Unit {0}))
    → TunFile files.World
tun_file files other_encoding read_packet write_packet = record {
  Tun = Tun files;
  open_tun = open_tun files other_encoding;
  name = λ t. t.name;
  read_packet = read_packet;
  write_packet = write_packet;
}
