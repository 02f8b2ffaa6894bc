-- ===== src/Config/Parse.antt =====
-- The parsers of single values (`truthy`, `parse_secs`, `parse_access`, `parse_forwards` of
-- crates/newt/src/config.rs).
use newt_rust.Common.{
  ℕ, ◌+◌, Bool, ◌&&◌, ◌||◌, List, [], ◌∷◌, ◌++◌, map, Text, codes, text_eq, is_empty, if◌then◌else◌,
  ◌==◌, leb, trim, trim_end_by, split_once, rsplit_once,
}
use newt_rust.Common.Numbers.{parse_uint, max_u16, max_u64}
use newt_rust.Common.Results.{Result, ok, err, ok_or, ◌>>=◌}

pub data AccessMode : Type 0 where
  kernel userspace : AccessMode

pub record Forward : Type 0 where
  pub listen_port : ℕ
  pub dest_host : Text
  pub dest_port : ℕ

-- `to_ascii_lowercase`
abbrev pub to_ascii_lowercase : Text → Text
to_ascii_lowercase s = map (λ c. if leb 65 c && leb c 90 then c + 32 else c) s

unfoldable pub truthy : Text → Bool
truthy v =
    let l = to_ascii_lowercase v in
    text_eq l (codes "1") || text_eq l (codes "true") || text_eq l (codes "yes")

-- In seconds.
unfoldable pub parse_secs : Text → Result ℕ
parse_secs v = ok_or (codes "bad duration") (parse_uint max_u64 (trim_end_by (λ c. c == b's') v))

unfoldable pub parse_access : Text → Result AccessMode
parse_access v =
    let l = to_ascii_lowercase v in
    if text_eq l (codes "kernel") || text_eq l (codes "tun")
    then ok kernel
    else if text_eq l (codes "userspace") || text_eq l (codes "user") || text_eq l (codes "socks")
    then ok userspace
    else err (codes "bad access mode: " ++ v ++ codes " (kernel|userspace)")

-- `str::split` at a character
abbrev pub cons_head : ℕ → List Text → List Text
cons_head c [] = (c ∷ []) ∷ []
cons_head c (s ∷ ss) = (c ∷ s) ∷ ss

unfoldable pub split : ℕ → Text → List Text
split c [] = [] ∷ []
split c (d ∷ s) = let rest = split c s in if d == c then [] ∷ rest else cons_head d rest

unfoldable pub parse_forward : Text → Result Forward
parse_forward spec = do
  (listen, rest) ← ok_or (codes "bad forward: " ++ spec) (split_once b':' spec)
  (host, port) ← ok_or (codes "bad forward: " ++ spec) (rsplit_once b':' rest)
  listen_port ← ok_or (codes "bad listen port: " ++ spec) (parse_uint max_u16 listen)
  dest_port ← ok_or (codes "bad dest port: " ++ spec) (parse_uint max_u16 port)
  ok (record { listen_port = listen_port; dest_host = host; dest_port = dest_port })

-- the loop over the specs that are left
unfoldable pub parse_each : List Text → Result (List Forward)
parse_each [] = ok []
parse_each (s ∷ ss) =
    let rest = parse_each ss in
    let spec = trim s in
    if is_empty spec then rest else (do f ← parse_forward spec; fs ← rest; ok (f ∷ fs))

unfoldable pub parse_forwards : Text → Result (List Forward)
parse_forwards v = parse_each (split b',' v)
