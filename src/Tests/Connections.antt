-- ===== src/Tests/Connections.antt =====
-- The upgrade of a connection, and the request of a token, on concrete responses.
use newt_rust.Common.{
  ◌≡◌, refl, true, [], ◌∷◌, ◌++◌, Text, codes, text_eq, rsplit_once, trim_end_by, trim,
}
use newt_rust.Common.Numbers.{decimal, parse_uint}
use newt_rust.Common.Results.{ok, err}
use newt_rust.Common.Net.{Bytes}
use newt_rust.Common.Search.{split_first}
use newt_rust.Transport.Endpoint.{Endpoint, split_endpoint, split_mark}
use newt_rust.Transport.Messages.{Wire}
use newt_rust.Transport.Connect.{Dialer, read_head, connect, blank_line, opened, upgrade_request}
use newt_rust.Transport.Connect.Head.{head_of, read_head-head_of}
use newt_rust.Transport.Connect.Upgraded.{Upgraded}
use newt_rust.Transport.Token.{Http, get_token, token_request}
use newt_rust.Transport.Token.Response.{get_token-response}
use newt_rust.Tests.World.{reading}

-- Every server answers with these bytes.
abbrev answering : Bytes → Dialer
answering response = record {
  tcp = λ host port. ok (record { incoming = response; outgoing = []; writes = 0 });
  is_server_name = λ host. true;
  tls = λ host w. ok w;
  key_b64 = codes "a2V5";
  as_bytes = λ t. t;
  lossy = λ b. b;
  write_all = λ b w. ok (record w { outgoing = w.outgoing ++ b });
}

-- A switch of protocols, and the first two bytes of a frame.
abbrev switching : Bytes
switching = codes "HTTP/1.1 101 Switching" ++ blank_line ++ 129 ∷ 0 ∷ []

abbrev site : Endpoint
site = record { scheme = codes "http"; hostport = codes "h:80"; host = codes "h"; port = 80 }

abbrev sent : Text
sent = upgrade_request (codes "t") (codes "newt") (codes "h:80") (codes "a2V5")

refuses :
    connect
      (answering (codes "HTTP/1.1 401 No" ++ blank_line))
      (codes "http://h")
      (codes "t")
      (codes "newt")
    ≡ err (codes "websocket upgrade failed: HTTP/1.1 401 No")
unfolding connect split_endpoint split_mark text_eq rsplit_once trim_end_by parse_uint decimal
refuses = refl

read_head-head_of_example :
    read_head [] switching ≡ head_of switching (split_first blank_line switching)
read_head-head_of_example = read_head-head_of switching

abbrev granted : Bytes
granted = codes "HTTP/1.1 200 OK" ++ blank_line ++ codes " jwt "

abbrev http : Http Text
http = record { read_to_end = λ w. ok w.incoming; print = λ v. v; from_str = λ t. ok t }

abbrev dialled : Wire
dialled = record { incoming = granted; outgoing = []; writes = 0 }

get_token-response_example :
    get_token (answering granted) http reading (codes "http://h") (codes "newt") (codes "secret")
    ≡ ok (codes "jwt")
unfolding split_endpoint split_mark text_eq rsplit_once trim_end_by parse_uint decimal opened
    split_first trim
get_token-response_example =
    get_token-response (answering granted) http reading (codes "http://h") (codes "newt")
      (codes "secret") (codes "jwt") site dialled dialled
      (record dialled { outgoing = token_request (codes "newt") (codes "h:80") (codes "secret") 6 })
      granted (codes "HTTP/1.1 200 OK") (codes " jwt ") refl refl refl refl refl refl refl refl
