-- ===== src/Core/Target/Accepts.antt =====
-- What `Target::parse` accepts, and what it returns.
use newt_rust.Common.{
  ℕ, ◌+◌, ◌≤◌, ◌≡◌, some, [], ◌∷◌, ◌++◌, Text, arith, strip_prefix, split_once, find_char,
  split_once_sound, rsplit_once_sound, find_char_sound, Lacks, drop, ◌⊎◌, inl, inr, Option-cases,
}
use newt_rust.Common.Monads.{>>=-eq-some}
use newt_rust.Common.Numbers.{parse_uint, max_u16, parse_uint-le}
use newt_rust.Core.Target.{Target, parse, parse_host_port, bracketed_host}

-- A host and a port around a colon, the host bare or in brackets.
abbrev pub HostPort : Text → Text → Text → Type 0
HostPort rest host port =
    (rest ≡ host ++ b':' ∷ port) ⊎ (rest ≡ b'[' ∷ (host ++ b']' ∷ b':' ∷ port))

strip_prefix_sound : (c : ℕ) (s r : Text) → strip_prefix c s ≡ some r → s ≡ c ∷ r
strip_prefix_sound c [] r h = cc
strip_prefix_sound c (d ∷ s) r h = ground arith

parse_host_port_sound :
    (rest host port : Text) → parse_host_port rest ≡ some (host, port) → HostPort rest host port
unfolding parse_host_port
parse_host_port_sound rest host port h = elim (Option-cases (strip_prefix b'[' rest)) [
  | inl bare ↦ inl (rsplit_once_sound b':' rest host port (rw (parse_host_port, bare) at h))
  | inr (after, open_bracket) ↦
      let opened : bracketed_host after ≡ some (host, port) =
        rw (parse_host_port, open_bracket) at h in
      let (close, closed, chain) = >>=-eq-some (find_char b']' after) _ opened in
      let (p, colon, last) = >>=-eq-some (strip_prefix b':' (drop (close + 1) after)) _ chain in
      inr (
        ground (
          arith,
          strip_prefix_sound b'[' rest after open_bracket,
          find_char_sound b']' after close closed,
          strip_prefix_sound b':' (drop (close + 1) after) p colon,
        ))
]

-- What is accepted is a listening port, a colon, the host and a colon and the target port, with the
-- host bare or in brackets; the three fields are what these parts read as, and the ports fit 16 bits.
pub parse_sound :
    (s : Text) (t : Target)
    → parse s ≡ some t
    → (listen : Text) × (rest : Text) × (port : Text) × (s ≡ listen ++ b':' ∷ rest)
      × Lacks b':' listen
      × HostPort rest t.host port
      × (parse_uint max_u16 listen ≡ some t.listen_port)
      × (parse_uint max_u16 port ≡ some t.target_port)
      × (t.listen_port ≤ max_u16)
      × (t.target_port ≤ max_u16)
unfolding parse
parse_sound s t h =
    let ((listen, rest), split, h1) = >>=-eq-some (split_once b':' s) _ h in
    let (l, read_l, h2) = >>=-eq-some (parse_uint max_u16 listen) _ h1 in
    let ((host, port), hp, h3) = >>=-eq-some (parse_host_port rest) _ h2 in
    let (p, read_p, h4) = >>=-eq-some (parse_uint max_u16 port) _ h3 in
    let (whole, lacks) = split_once_sound b':' s listen rest split in
    (
      listen,
      rest,
      port,
      whole,
      lacks,
      ground (arith, parse_host_port_sound rest host port hp),
      ground arith,
      ground arith,
      ground (arith, parse_uint-le max_u16 listen l read_l),
      ground (arith, parse_uint-le max_u16 port p read_p),
    )
