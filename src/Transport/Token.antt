-- ===== src/Transport/Token.antt =====
-- The token of a session (`get_token` and `get_token_data` of crates/newt/src/transport/token.rs).
pub mod Response
use newt_rust.Common.{
  ℕ, Option, none, some, [], ◌∷◌, ◌++◌, Text, codes, length, if◌then◌else◌, trim, text_eq,
}
use newt_rust.Common.Numbers.{decimal}
use newt_rust.Common.Results.{Result, ok, err, ok_or, ◌>>=◌}
use newt_rust.Common.Net.{Bytes}
use newt_rust.Common.Json.{Reader}
use newt_rust.Common.Search.{split_first}
use newt_rust.Transport.Endpoint.{Endpoint, split_endpoint}
use newt_rust.Transport.Messages.{Wire}
use newt_rust.Transport.Connect.{Dialer, crlf, blank_line, opened}

-- The rest of the libraries: reading a stream to its end, and the printer and parser of JSON.
pub record Http (V : Type 0) : Type 0 where
  pub read_to_end : Wire → Result Bytes
  pub print : V → Text
  pub from_str : Text → Result V

pub token_request : Text → Text → Text → ℕ → Text
token_request kind hostport body size =
    codes "POST /api/v1/auth/"
    ++ kind
    ++ codes "/get-token HTTP/1.1"
    ++ crlf
    ++ codes "Host: "
    ++ hostport
    ++ crlf
    ++ codes "Content-Type: application/json"
    ++ crlf
    ++ codes "X-CSRF-Token: x-csrf-protection"
    ++ crlf
    ++ codes "Content-Length: "
    ++ decimal size
    ++ crlf
    ++ codes "Connection: close"
    ++ blank_line
    ++ body

-- what stands behind the first blank line; the whole text where there is none
abbrev pub behind_head : Text → Option (Text × Text) → Text
behind_head text none = text
behind_head text (some (a, body)) = body

pub response_body : Text → Text
unfolding split_first
response_body text = trim (behind_head text (split_first blank_line text))

module _ {V : Type 0} (dial : Dialer) (http : Http V) (json : Reader V) where
  open dial use {tcp, as_bytes, lossy, write_all}
  open http use {read_to_end, print, from_str}
  open json use {index, as_str}

  -- an error of the parser, as the caller reports it
  pub token_json : Result V → Result V
  token_json (err why) = err (codes "token json: " ++ why)
  token_json (ok v) = ok v

  unfoldable pub get_token_data : Text → Text → V → Result V
  unfolding token_request response_body token_json
  get_token_data endpoint kind body = do
    e ← split_endpoint endpoint
    let text = print body
    w ← tcp e.host e.port
    w ← opened dial e w
    w ← write_all (as_bytes (token_request kind e.hostport text (length (as_bytes text)))) w
    raw ← read_to_end w
    v ← token_json (from_str (response_body (lossy raw)))
    ok (index v (codes "data"))

  unfoldable pub get_token : Text → Text → V → Result Text
  unfolding get_token_data
  get_token endpoint kind body = do
    payload ← get_token_data endpoint kind body
    ok_or (codes "no token in response") (as_str (index payload (codes "token")))
