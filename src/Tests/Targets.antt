-- ===== src/Tests/Targets.antt =====
-- `Target::parse` on concrete texts.
use newt_rust.Common.{
  none, some, ◌∷◌, ◌++◌, ◌≡◌, ◌≤◌, refl, arith, codes, Text, Lacks, strip_prefix, split_once,
  rsplit_once, find_char,
}
use newt_rust.Common.Numbers.{parse_uint, max_u16}
use newt_rust.Core.Target.{Target, parse}
use newt_rust.Core.Target.RoundTrip.{parse-print, plain, bracketed}
use newt_rust.Core.Target.Accepts.{parse_sound, HostPort}

parses_ipv4 :
    parse (codes "3001:192.168.1.1:80")
    ≡ some (record { listen_port = 3001; host = codes "192.168.1.1"; target_port = 80 })
unfolding parse split_once rsplit_once parse_uint
parses_ipv4 = refl

parses_bracketed_ipv6 :
    parse (codes "3001:[::1]:8080")
    ≡ some (record { listen_port = 3001; host = codes "::1"; target_port = 8080 })
unfolding parse split_once find_char parse_uint
parses_bracketed_ipv6 = refl

rejects_missing_parts :
    (parse (codes "3001:host") ≡ none) × (parse (codes "notaport:host:80") ≡ none)
unfolding parse split_once rsplit_once parse_uint
rejects_missing_parts = (refl, refl)

abbrev loopback : Target
loopback = record { listen_port = 3001; host = codes "::1"; target_port = 80 }

parse-print_example :
    (strip_prefix b'[' (codes "::1") ≡ none → parse (plain loopback) ≡ some loopback)
    × (Lacks b']' (codes "::1") → parse (bracketed loopback) ≡ some loopback)
parse-print_example = parse-print loopback (omega arith, omega arith)

parses_loopback : parse (codes "3001:[::1]:80") ≡ some loopback
unfolding parse split_once find_char parse_uint
parses_loopback = refl

parse_sound_example :
    (listen : Text) × (rest : Text) × (port : Text) × (codes "3001:[::1]:80"
      ≡ listen ++ b':' ∷ rest)
    × Lacks b':' listen
    × HostPort rest (codes "::1") port
    × (parse_uint max_u16 listen ≡ some 3001)
    × (parse_uint max_u16 port ≡ some 80)
    × (3001 ≤ max_u16)
    × (80 ≤ max_u16)
parse_sound_example = parse_sound (codes "3001:[::1]:80") loopback parses_loopback
