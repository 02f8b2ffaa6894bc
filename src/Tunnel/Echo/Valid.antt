-- ===== src/Tunnel/Echo/Valid.antt =====
-- What a receiver of the keepalive ping sees.
use newt_rust.Common.{ℕ, ◌^◌, ◌<◌, ◌≡◌, refl, [], ◌∷◌, ◌++◌, arith, All, length, take, drop, some}
use newt_rust.Common.Net.{IsByte, v4}
use newt_rust.Tunnel.Checksum.Verify.{Verifies, checksum-Verifies}
use newt_rust.Tunnel.Echo.{icmp_echo, be16, ping_payload}
use newt_rust.Olm.Router.{dest_ip}

-- The ping between two addresses of four bytes: its header and its message pass the receiver's check of
-- RFC 1071 (their words have a sum that is not zero and is a multiple of 65535), it has the 36 bytes that its
-- length field says, and it is for `dst`.
pub icmp_echo-IsPing :
    (a b c d e f g h ident seq : ℕ)
    → All IsByte (a ∷ b ∷ c ∷ d ∷ e ∷ f ∷ g ∷ h ∷ [])
    → ident < 2 ^ 16
    → seq < 2 ^ 16
    → let src = a ∷ b ∷ c ∷ d ∷ [] in
      let dst = e ∷ f ∷ g ∷ h ∷ [] in
      let packet = icmp_echo src dst ident seq in
      Verifies (take 20 packet)
      × Verifies (drop 20 packet)
      × (length packet ≡ 36)
      × (take 2 (drop 2 packet) ≡ be16 36)
      × (dest_ip packet ≡ some (v4 dst))
unfolding icmp_echo dest_ip
icmp_echo-IsPing a b c d e f g h ident seq (ha, (hb, (hc, (hd, (he, (hf, (hg, (hh, _)))))))) hi hs =
    (
      checksum-Verifies (69 ∷ 0 ∷ 0 ∷ 36 ∷ 0 ∷ 0 ∷ 64 ∷ 0 ∷ 64 ∷ 1 ∷ [])
          (a ∷ b ∷ c ∷ d ∷ e ∷ f ∷ g ∷ h ∷ []) refl (ground arith) (omega arith) (omega arith),
      checksum-Verifies (8 ∷ 0 ∷ []) (be16 ident ++ be16 seq ++ ping_payload) refl (ground arith)
          (omega arith) (omega arith),
      refl,
      refl,
      refl,
    )
