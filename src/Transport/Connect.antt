-- ===== src/Transport/Connect.antt =====
-- `connect` of crates/newt/src/transport/ws.rs: the upgrade of a connection to a WebSocket.
pub mod Head
pub mod Upgraded
use newt_rust.Common.{
  ℕ, ◌+◌, Bool, true, false, List, [], ◌∷◌, ◌++◌, if◌then◌else◌, ltb, ◌==◌, length, take, Text,
  codes, text_eq,
}
use newt_rust.Common.Results.{Result, ok, err, ◌>>=◌}
use newt_rust.Common.Net.{Bytes}
use newt_rust.Common.Search.{ends_with}
use newt_rust.Transport.Endpoint.{Endpoint, split_endpoint}
use newt_rust.Transport.Messages.{Wire}

-- The resolver with the TCP connection, the TLS handshake, the random key in base64, `as_bytes` of a `str`,
-- `from_utf8_lossy` and the writes.
pub record Dialer : Type 0 where
  pub tcp : Text → ℕ → Result Wire
  -- `ServerName::try_from`
  pub is_server_name : Text → Bool
  pub tls : Text → Wire → Result Wire
  pub key_b64 : Text
  pub as_bytes : Text → Bytes
  pub lossy : Bytes → Text
  -- `write_all` and `flush`
  pub write_all : Bytes → Wire → Result Wire

abbrev pub crlf : Text
crlf = 13 ∷ 10 ∷ []

abbrev pub blank_line : Bytes
blank_line = 13 ∷ 10 ∷ 13 ∷ 10 ∷ []

-- The loop that reads the response one byte at a time, with the bytes before.
unfoldable pub read_head : Bytes → Bytes → Result (Bytes × Bytes)
unfolding ends_with
read_head head [] = err (codes "early eof")
read_head head (b ∷ io) =
    let head' = head ++ b ∷ [] in
    let more = read_head head' io in
    if ends_with blank_line head'
    then ok (head', io)
    else if ltb 8192 (length head')
    then err (codes "websocket upgrade headers too large")
    else more

-- the bytes before the first `\r`
abbrev pub status_line : Bytes → Bytes
status_line [] = []
status_line (c ∷ s) = if c == 13 then [] else c ∷ status_line s

-- `starts_with`
abbrev pub starts_with : Bytes → Bytes → Bool
starts_with p s = text_eq p (take (length p) s)

pub upgrade_request : Text → Text → Text → Text → Text
upgrade_request token client_type hostport key =
    codes "GET /api/v1/ws?token="
    ++ token
    ++ codes "&clientType="
    ++ client_type
    ++ codes " HTTP/1.1"
    ++ crlf
    ++ codes "Host: "
    ++ hostport
    ++ crlf
    ++ codes "Upgrade: websocket"
    ++ crlf
    ++ codes "Connection: Upgrade"
    ++ crlf
    ++ codes "Sec-WebSocket-Key: "
    ++ key
    ++ crlf
    ++ codes "Sec-WebSocket-Version: 13"
    ++ blank_line

module _ (dial : Dialer) where
  open dial use {tcp, is_server_name, tls, key_b64, as_bytes, lossy, write_all}

  -- the stream, plain or under TLS
  unfoldable pub opened : Endpoint → Wire → Result Wire
  unfolding text_eq
  opened e w =
      if text_eq e.scheme (codes "https")
      then (if is_server_name e.host then tls e.host w else err (codes "bad server name"))
      else ok w

  pub upgraded : Bytes × Bytes → Wire → Result Wire
  upgraded (head, rest) w =
      if starts_with (codes "HTTP/1.1 101") (status_line head)
      then ok (record w { incoming = rest })
      else err (codes "websocket upgrade failed: " ++ lossy (status_line head))

  unfoldable pub connect : Text → Text → Text → Result Wire
  unfolding read_head upgrade_request opened upgraded
  connect endpoint token client_type = do
    e ← split_endpoint endpoint
    w ← tcp e.host e.port
    w ← opened e w
    w ← write_all (as_bytes (upgrade_request token client_type e.hostport key_b64)) w
    head ← read_head [] w.incoming
    upgraded head w
