-- ===== src/Transport/Connect/Upgraded.antt =====
-- What a connection that was upgraded has gone through.
use newt_rust.Common.{
  ◌+◌, ◌≤◌, ◌≡◌, refl, sym, ◌∙◌, ap, true, inl, inr, Bool-cases, Option, none, some, ◌++◌, length,
  length-append, append_assoc, leb, Text, codes, arith, List, [], ◌∷◌, ◌≢◌,
}
use newt_rust.Common.Results.{Result, ok}
use newt_rust.Common.Net.{Bytes}
use newt_rust.Common.Search.{split_first, split_first_sound}
use newt_rust.Transport.Endpoint.{Endpoint}
use newt_rust.Transport.Messages.{Wire}
use newt_rust.Transport.Connect.{Dialer, blank_line, read_head}
use newt_rust.Transport.Connect.Head.{head_of, read_head-head_of}

head_of_sound :
    (io : Bytes) (o : Option (Text × Text)) (head rest : Bytes)
    → split_first blank_line io ≡ o
    → head_of io o ≡ ok (head, rest)
    → (io ≡ head ++ rest) × (length head ≤ 8193)
head_of_sound io none head rest e h = elim (Bool-cases (leb (length io) 8192)) [
  | inl s ↦ ground (arith, h)
  | inr s ↦ ground (arith, h)
]
head_of_sound io (some (a, b)) head rest e h = elim (Bool-cases (leb (length a + 4) 8193)) [
  | inl s ↦
      let same : ◌≡◌ {A = Result (Bytes × Bytes)} (ok (a ++ blank_line, b)) (ok (head, rest)) =
        rw s at h in
      let front : a ++ blank_line ≡ head = cc in
      let back : b ≡ rest = cc in
      (
        split_first_sound blank_line io a b e
            ∙ sym (append_assoc a blank_line b)
            ∙ (λ i. front i ++ back i),
        ground (arith, ap length front, length-append {0} a blank_line),
      )
  | inr s ↦ ground (arith, h)
]

-- The head that is read and what is left are the stream, and the head has at most 8193 bytes.
pub read_head_sound :
    (io head rest : Bytes)
    → read_head [] io ≡ ok (head, rest)
    → (io ≡ head ++ rest) × (length head ≤ 8193)
read_head_sound io head rest h =
    head_of_sound io (split_first blank_line io) head rest refl (sym (read_head-head_of io) ∙ h)

-- The lines of the fields of a request in HTTP/1.1, with the empty line behind them.
abbrev field_lines : List (Text × Text) → Text
field_lines [] = 13 ∷ 10 ∷ []
field_lines ((name, value) ∷ fields) = name ++ codes ": " ++ value ++ 13 ∷ 10 ∷ field_lines fields

-- The upgrade to a WebSocket that RFC 6455 asks for, of the path with the token and the kind of the client.
abbrev pub websocket_request : Text → Text → Text → Text → Text
websocket_request token client_type host key =
    codes "GET /api/v1/ws?token="
    ++ token
    ++ codes "&clientType="
    ++ client_type
    ++ codes " HTTP/1.1"
    ++ 13
      ∷ 10
      ∷ field_lines (
          (codes "Host", host)
          ∷ (codes "Upgrade", codes "websocket")
          ∷ (codes "Connection", codes "Upgrade")
          ∷ (codes "Sec-WebSocket-Key", key)
          ∷ (codes "Sec-WebSocket-Version", codes "13")
          ∷ [])

module _ (dial : Dialer) where
  open dial use {tcp, is_server_name, tls, key_b64, as_bytes, write_all}

  -- A WebSocket over this stream: its response began with the status 101, and only the head of the response,
  -- of at most 8193 bytes, was taken from the stream.
  pub record Upgraded (w ws : Wire) : Type 0 where
    pub head : Bytes
    pub switched : (rest : Bytes) × (head ≡ codes "HTTP/1.1 101" ++ rest)
    pub taken : w.incoming ≡ head ++ ws.incoming
    pub short : length head ≤ 8193
    pub else_same : ws ≡ record w { incoming = ws.incoming }

  -- The stream for a scheme: behind a TLS handshake with the host by its name for `https`, and as it is for any
  -- other.
  abbrev pub Secured : Endpoint → Wire → Wire → Type 0
  Secured e w w' =
      (e.scheme ≡ codes "https" → (is_server_name e.host ≡ true) × (tls e.host w ≡ ok w'))
      × (e.scheme ≢ codes "https" → w' ≡ w)
