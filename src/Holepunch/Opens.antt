-- ===== src/Holepunch/Opens.antt =====
-- The exit node can open what `build` sealed for it.
use newt_rust.Common.{
  List, [], ◌∷◌, map, codes, refl, Option, some, ◌≡◌, sym, ◌∙◌, ap, arith, Text, Option-cases, inl,
  inr,
}
use newt_rust.Common.Net.{Bytes}
use newt_rust.Common.Json.{Json}
use newt_rust.Holepunch.{Crypto, server_key, plaintext, envelope, seal, build}

module _ {W : Type 0} (json : Json) (crypto : Crypto W json.Value) where
  open crypto use {
    Secret, encode64, random_secret, fill_bytes, public_key, diffie_hellman, encrypt, print,
    as_bytes,
  }

  -- What the exit node has: a secret, and the decryption of the same cipher. Both sides of the key
  -- agreement agree, and decryption undoes encryption.
  pub record ExitNode : Type 0 where
    pub secret : Secret
    pub decrypt : Bytes → Bytes → Bytes → Option Bytes
    pub agreed :
        (eph : Secret)
        → diffie_hellman eph (public_key secret) ≡ diffie_hellman secret (public_key eph)
    pub undone :
        (key nonce text c : Bytes)
        → encrypt key nonce text ≡ some c
        → decrypt key nonce c ≡ some text

  -- A JSON object with these texts in its fields.
  abbrev pub Says : Bytes → List (Text × Text) → Type 0
  Says b fields = b ≡ as_bytes (print (json.object (map (λ f. (f.0, json.string f.1)) fields)))

  -- A datagram whose fields are the public key of the sender, the nonce and the ciphertext, each in base64, and
  -- which opens to the text by these.
  pub record Opened (node : ExitNode) (text datagram : Bytes) : Type 0 where
    pub eph_pub : Bytes
    pub nonce : Bytes
    pub ciphertext : Bytes
    pub wrapped : Says datagram (
        (codes "ephemeralPublicKey", encode64 eph_pub)
        ∷ (codes "nonce", encode64 nonce)
        ∷ (codes "ciphertext", encode64 ciphertext)
        ∷ [])
    pub opens : node.decrypt (diffie_hellman node.secret eph_pub) nonce ciphertext ≡ some text

  seal-Opened :
      (node : ExitNode) (text datagram : Bytes) (w : W)
      → (seal json crypto (public_key node.secret) text w).0 ≡ some datagram
      → Opened node text datagram
  unfolding seal envelope
  seal-Opened node text datagram w h =
      let eph = (random_secret w).0 in
      let nonce = (fill_bytes 12 (random_secret w).1).0 in
      let shared = diffie_hellman eph (public_key node.secret) in
      elim (Option-cases (encrypt shared nonce text)) [
        | inl e ↦ ground (arith, e)
        | inr (c, e) ↦ record {
          eph_pub = public_key eph;
          nonce = nonce;
          ciphertext = c;
          wrapped = ground (arith, e);
          opens =
              ap (λ (key : Bytes). node.decrypt key nonce c) (sym (node.agreed eph))
              ∙ node.undone shared nonce text c e;
        }
      ]

  -- A datagram built for the public key of an exit node is an object with the fields `ephemeralPublicKey`,
  -- `nonce` and `ciphertext` in base64, which this node opens, by its own secret and the key and the nonce in
  -- it, to the object with the id, the token and the public key of the sender.
  pub build-Opened :
      (node : ExitNode) (id_field id token pub_b64 server_pub_b64 : Text) (w : W) (datagram : Bytes)
      → server_key json crypto server_pub_b64 ≡ some (public_key node.secret)
      → (build json crypto id_field id token pub_b64 server_pub_b64 w).0 ≡ some datagram
      → (text : Bytes) × Says text
          ((id_field, id) ∷ (codes "token", token) ∷ (codes "publicKey", pub_b64) ∷ [])
        × Opened node text datagram
  unfolding build plaintext
  build-Opened node id_field id token pub_b64 server_pub_b64 w datagram key h = (
    plaintext json crypto id_field id token pub_b64,
    refl,
    seal-Opened node (plaintext json crypto id_field id token pub_b64) datagram w
        (rw (key, build) at h),
  )
