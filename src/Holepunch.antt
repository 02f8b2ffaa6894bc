-- ===== src/Holepunch.antt =====
-- crates/newt/src/holepunch.rs: the sealed datagram that tells an exit node the live UDP endpoint.
-- x25519-dalek, chacha20poly1305, base64, `str::as_bytes` and serde_json's printer are the parameter
-- `Crypto`, over the world that the system's random generator belongs to.
pub mod Opens
use newt_rust.Common.{
  ℕ, List, [], ◌∷◌, Option, none, some, Text, codes, trim, length, ◌==◌, if◌then◌else◌,
}
use newt_rust.Common.Monads.{◌>>=◌}
use newt_rust.Common.Net.{Bytes}
use newt_rust.Common.Json.{Json}
use mathlib.Core.Option

pub record Crypto (W V : Type 0) : Type 1 where
  pub Secret : Type 0
  pub decode64 : Text → Option Bytes
  pub encode64 : Bytes → Text
  pub random_secret : W → Secret × W
  pub fill_bytes : ℕ → W → Bytes × W
  pub public_key : Secret → Bytes
  pub diffie_hellman : Secret → Bytes → Bytes
  -- by a key and a nonce
  pub encrypt : Bytes → Bytes → Bytes → Option Bytes
  pub print : V → Text
  pub as_bytes : Text → Bytes

-- `try_into` of 32 bytes
abbrev pub key_of : Bytes → Option Bytes
key_of b = if length b == 32 then some b else none

module _ {W : Type 0} (json : Json) (crypto : Crypto W json.Value) where
  open crypto use {
    decode64, encode64, random_secret, fill_bytes, public_key, diffie_hellman, encrypt, print,
    as_bytes,
  }

  abbrev pub server_key : Text → Option Bytes
  server_key server_pub_b64 = do raw ← decode64 (trim server_pub_b64); key_of raw

  pub plaintext : Text → Text → Text → Text → Bytes
  plaintext id_field id token pub_b64 = as_bytes (
      print (
        json.object (
          (id_field, json.string id)
          ∷ (codes "token", json.string token)
          ∷ (codes "publicKey", json.string pub_b64)
          ∷ [])))

  pub envelope : Bytes → Bytes → Bytes → Bytes
  envelope eph_pub nonce ciphertext = as_bytes (
      print (
        json.object (
          (codes "ephemeralPublicKey", json.string (encode64 eph_pub))
          ∷ (codes "nonce", json.string (encode64 nonce))
          ∷ (codes "ciphertext", json.string (encode64 ciphertext))
          ∷ [])))

  -- `build` behind the exit node's key
  seal : Bytes → Bytes → W → Option Bytes × W
  seal server_pub text w =
      let (eph, w1) = random_secret w in
      let (nonce, w2) = fill_bytes 12 w1 in
      let shared = diffie_hellman eph server_pub in
      (Option.map (λ c. envelope (public_key eph) nonce c) (encrypt shared nonce text), w2)

  unfoldable pub build : Text → Text → Text → Text → Text → W → Option Bytes × W
  unfolding seal plaintext envelope trim
  build id_field id token pub_b64 server_pub_b64 w = elim (server_key server_pub_b64) [
    | none ↦ (none, w)
    | some server_pub ↦ seal server_pub (plaintext id_field id token pub_b64) w
  ]
