-- ===== src/Core/Target.antt =====
-- crates/newt-core/src/target.rs: a proxy target and its textual form.
pub mod RoundTrip
pub mod Accepts
use newt_rust.Common.{
  ℕ, ◌+◌, Option, none, some, ◌≡◌, refl, Text, codes, take, drop, find_char, split_once,
  rsplit_once, strip_prefix,
}
use newt_rust.Common.Monads.{◌>>=◌}
use newt_rust.Common.Numbers.{parse_uint, max_u16}

pub record Target : Type 0 where
  pub listen_port : ℕ
  pub host : Text
  pub target_port : ℕ

bracketed_host : Text → Option (Text × Text)
bracketed_host after = do
  close ← find_char b']' after
  port ← strip_prefix b':' (drop (close + 1) after)
  some (take close after, port)

-- The host and the port behind the listening port: in brackets, or around the last colon.
parse_host_port : Text → Option (Text × Text)
unfolding bracketed_host
parse_host_port rest = elim (strip_prefix b'[' rest) [
  | some after ↦ bracketed_host after
  | none ↦ rsplit_once b':' rest
]

-- `Target::parse`
unfoldable pub parse : Text → Option Target
unfolding parse_host_port
parse s = do
  (listen, rest) ← split_once b':' s
  listen_port ← parse_uint max_u16 listen
  (host, port) ← parse_host_port rest
  target_port ← parse_uint max_u16 port
  some (record { listen_port = listen_port; host = host; target_port = target_port })
