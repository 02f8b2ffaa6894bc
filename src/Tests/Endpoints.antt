-- ===== src/Tests/Endpoints.antt =====
-- Endpoints as texts.
use newt_rust.Common.{◌≡◌, refl, ◌∷◌, ◌++◌, Text, codes, text_eq, rsplit_once, trim_end_by, arith}
use newt_rust.Common.Numbers.{decimal, parse_uint}
use newt_rust.Common.Results.{ok}
use newt_rust.Transport.Endpoint.{split_endpoint, split_mark}
use newt_rust.Transport.Endpoint.Split.{split_endpoint-written}

splits_default_port :
    split_endpoint (codes "https://app.example.com/")
    ≡ ok (record {
      scheme = codes "https";
      hostport = codes "app.example.com:443";
      host = codes "app.example.com";
      port = 443;
    })
unfolding split_endpoint split_mark text_eq rsplit_once trim_end_by parse_uint decimal
splits_default_port = refl

abbrev host : Text
host = codes "1.2.3.4"

split_endpoint-written_example :
    (split_endpoint (codes "https://" ++ (host ++ b':' ∷ decimal 8080))
      ≡ ok (record {
        scheme = codes "https";
        hostport = host ++ codes ":" ++ decimal 8080;
        host = host;
        port = 8080;
      }))
    × (split_endpoint (codes "http://" ++ (host ++ b':' ∷ decimal 8080))
        ≡ ok (record {
          scheme = codes "http";
          hostport = host ++ codes ":" ++ decimal 8080;
          host = host;
          port = 8080;
        }))
split_endpoint-written_example = split_endpoint-written host 8080 refl (omega arith)
