-- ===== src/Transport/Token/Response.antt =====
-- The token is taken from the body of the response.
use newt_rust.Common.{
  ◌≡◌, refl, ◌∙◌, ap, subst, none, some, [], ◌∷◌, ◌++◌, append_assoc, Text, codes, length, trim,
}
use newt_rust.Common.Results.{ok, ok_or}
use newt_rust.Common.Net.{Bytes}
use newt_rust.Common.Json.{Reader}
use newt_rust.Common.Search.{split_first, split_first-ends, split_first-append}
use newt_rust.Transport.Endpoint.{Endpoint, split_endpoint}
use newt_rust.Transport.Messages.{Wire}
use newt_rust.Transport.Connect.{Dialer, blank_line, opened}
use newt_rust.Transport.Token.{
  Http, token_request, behind_head, response_body, token_json, get_token,
}

-- No blank line begins within the head of a response.
abbrev pub IsHead : Text → Type 0
IsHead head = split_first blank_line (head ++ 13 ∷ 10 ∷ 13 ∷ []) ≡ none

response_body-lem :
    (head body : Text) → IsHead head → response_body (head ++ (blank_line ++ body)) ≡ trim body
unfolding response_body
response_body-lem head body h =
    let whole : (head ++ 13 ∷ 10 ∷ 13 ∷ []) ++ 10 ∷ [] ≡ head ++ blank_line =
      append_assoc head (13 ∷ 10 ∷ 13 ∷ []) (10 ∷ []) in
    let first : split_first blank_line (head ++ blank_line) ≡ some (head, []) =
      subst (λ t. split_first blank_line t ≡ some (head, [])) whole
        (split_first-ends blank_line (head ++ 13 ∷ 10 ∷ 13 ∷ []) head 10 h whole) in
    let all : split_first blank_line (head ++ (blank_line ++ body)) ≡ some (head, body) =
      subst (λ t. split_first blank_line t ≡ some (head, body)) (append_assoc head blank_line body)
        (split_first-append blank_line (head ++ blank_line) body head [] first) in
    ap (λ o. trim (behind_head (head ++ (blank_line ++ body)) o)) all

module _ {V : Type 0} (dial : Dialer) (http : Http V) (json : Reader V) where
  open dial use {tcp, as_bytes, lossy, write_all}
  open http use {read_to_end, print, from_str}
  open json use {index, as_str}

  -- When the server is reached and answers the request, written as the endpoint and the kind of the credentials say,
  -- with a head and a body that is JSON, the token is the text that the body has in its `data` under `token`,
  -- and there is an error if it has none.
  pub get_token-response :
      (endpoint kind : Text) (credentials v : V) (e : Endpoint) (w0 w1 w : Wire) (raw : Bytes)
      (head body : Text)
      → split_endpoint endpoint ≡ ok e
      → tcp e.host e.port ≡ ok w0
      → opened dial e w0 ≡ ok w1
      → write_all
          (as_bytes (
            token_request kind e.hostport
              (print credentials)
              (length (as_bytes (print credentials)))))
          w1
        ≡ ok w
      → read_to_end w ≡ ok raw
      → lossy raw ≡ head ++ (blank_line ++ body)
      → IsHead head
      → from_str (trim body) ≡ ok v
      → get_token dial http json endpoint kind credentials
        ≡ ok_or
            (codes "no token in response")
            (as_str (index (index v (codes "data")) (codes "token")))
  unfolding get_token token_json
  get_token-response endpoint kind credentials v e w0 w1 w raw head body h1 h2 h3 h4 h5 h6 h7 h8 =
      let parsed : from_str (response_body (lossy raw)) ≡ ok v =
        ap (λ t. from_str (response_body t)) h6
        ∙ ap from_str (response_body-lem head body h7)
        ∙ h8 in
      rw (h1, h2, h3, h4, h5, parsed) refl
