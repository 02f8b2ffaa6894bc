-- ===== src/Transport/Endpoint/Split.antt =====
-- An endpoint that is written out is split into its parts.
use newt_rust.Common.{
  ℕ, ◌≤◌, ◌≡◌, refl, ◌∙◌, ap, false, ◌∷◌, ◌++◌, ◌==◌, Text, codes, text_eq, is_empty, trim_end_by,
  trim_end_by-append, rsplit_once-append, rsplit_once,
}
use newt_rust.Common.Numbers.{decimal, max_u16, decimal-Lacks, parse_uint-decimal}
use newt_rust.Common.Results.{ok}
use newt_rust.Transport.Endpoint.{
  split_endpoint, split_mark, split_rest, endpoint_of, host_port, with_port,
}

module _ (host : Text) (port : ℕ) (named : is_empty host ≡ false) (fits : port ≤ max_u16) where
  rest_trimmed :
      trim_end_by (λ d. d == b'/') (host ++ b':' ∷ decimal port) ≡ host ++ b':' ∷ decimal port
  rest_trimmed =
      trim_end_by-append b'/' host (b':' ∷ decimal port) refl
        ((λ e. cc), decimal-Lacks b'/' port refl)

  rest_split :
      (scheme : Text)
      → host_port scheme
          (host ++ b':' ∷ decimal port)
          (rsplit_once b':' (host ++ b':' ∷ decimal port))
        ≡ (host, port)
  rest_split scheme =
      let rest = host ++ b':' ∷ decimal port in
      ap (host_port scheme rest)
        (rsplit_once-append b':' host (decimal port) (decimal-Lacks b':' port refl))
      ∙ ap (with_port scheme rest host) (parse_uint-decimal max_u16 port fits)
      ∙ rw named refl

  split_rest-written :
      (scheme : Text)
      → split_rest scheme (host ++ b':' ∷ decimal port) ≡ endpoint_of scheme (host, port)
  split_rest-written scheme =
      ap (λ rest. endpoint_of scheme (host_port scheme rest (rsplit_once b':' rest))) rest_trimmed
      ∙ ap (endpoint_of scheme) (rest_split scheme)

  -- An endpoint of a known scheme, a host that is not empty and a port of 16 bits, written as a URL, is split
  -- into these three; the host may hold colons.
  pub split_endpoint-written :
      (split_endpoint (codes "https://" ++ (host ++ b':' ∷ decimal port))
        ≡ ok (record {
          scheme = codes "https";
          hostport = host ++ codes ":" ++ decimal port;
          host = host;
          port = port;
        }))
      × (split_endpoint (codes "http://" ++ (host ++ b':' ∷ decimal port))
          ≡ ok (record {
            scheme = codes "http";
            hostport = host ++ codes ":" ++ decimal port;
            host = host;
            port = port;
          }))
  unfolding split_endpoint split_mark text_eq
  split_endpoint-written =
      (ap ok (split_rest-written (codes "https")), ap ok (split_rest-written (codes "http")))
