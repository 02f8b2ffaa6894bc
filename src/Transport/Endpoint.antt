-- ===== src/Transport/Endpoint.antt =====
-- `split_endpoint` of crates/newt/src/transport/token.rs.
pub mod Split
use newt_rust.Common.{
  ℕ, Bool, true, false, not, ◌&&◌, Option, none, some, [], ◌∷◌, ◌++◌, ◌==◌, if◌then◌else◌, Text,
  codes, text_eq, is_empty, trim_end_by, rsplit_once, strip_prefix,
}
use newt_rust.Common.Numbers.{parse_uint, decimal, max_u16}
use newt_rust.Common.Monads.{◌>>=◌}
use newt_rust.Common.Results
use newt_rust.Common.Results.{Result, ok, err}

-- The scheme, `host:port`, the host and the port.
pub record Endpoint : Type 0 where
  pub scheme : Text
  pub hostport : Text
  pub host : Text
  pub port : ℕ

-- `split_once("://")`
abbrev pub after_mark : Text → Option Text
after_mark s = do s ← strip_prefix b':' s; s ← strip_prefix b'/' s; strip_prefix b'/' s

abbrev pub first_mark : ℕ → Option Text → Option (Text × Text) → Option (Text × Text)
first_mark c (some behind) later = some ([], behind)
first_mark c none (some (a, b)) = some (c ∷ a, b)
first_mark c none none = none

unfoldable pub split_mark : Text → Option (Text × Text)
split_mark [] = none
split_mark (c ∷ s) = first_mark c (after_mark (c ∷ s)) (split_mark s)

-- the match on the scheme
abbrev pub known_scheme : Text → Option (Text × Text) → Result (Text × Text)
known_scheme endpoint none = ok (codes "https", endpoint)
known_scheme endpoint (some (scheme, rest)) =
    if text_eq scheme (codes "https")
    then ok (codes "https", rest)
    else if text_eq scheme (codes "http")
    then ok (codes "http", rest)
    else err (codes "unsupported scheme")

abbrev pub default_port : Text → ℕ
default_port scheme = if text_eq scheme (codes "https") then 443 else 80

-- the match on the last colon; the port behind it is read
abbrev pub with_port : Text → Text → Text → Option ℕ → Text × ℕ
with_port scheme rest h none = (rest, default_port scheme)
with_port scheme rest h (some n) = if is_empty h then (rest, default_port scheme) else (h, n)

abbrev pub host_port : Text → Text → Option (Text × Text) → Text × ℕ
host_port scheme rest none = (rest, default_port scheme)
host_port scheme rest (some (h, p)) = with_port scheme rest h (parse_uint max_u16 p)

abbrev pub endpoint_of : Text → Text × ℕ → Endpoint
endpoint_of scheme (host, port) = record {
  scheme = scheme;
  hostport = host ++ codes ":" ++ decimal port;
  host = host;
  port = port;
}

-- what is done with the text behind the scheme
abbrev pub split_rest : Text → Text → Endpoint
split_rest scheme behind =
    let rest = trim_end_by (λ d. d == b'/') behind in
    endpoint_of scheme (host_port scheme rest (rsplit_once b':' rest))

unfoldable pub split_endpoint : Text → Result Endpoint
split_endpoint endpoint =
    Results.◌>>=◌ (known_scheme endpoint (split_mark endpoint)) (λ s. ok (split_rest s.0 s.1))
