-- ===== src/Core/Target/RoundTrip.antt =====
-- Printing a target and parsing it again.
use newt_rust.Common.{
  ℕ, ◌+◌, ◌≤◌, ◌≡◌, ◌≢◌, refl, none, some, [], ◌∷◌, ◌++◌, Text, arith, strip_prefix,
  split_once-append, rsplit_once-append, find_char-append, take-append, Lacks, length, drop,
}
use newt_rust.Common.Numbers.{decimal, max_u16, parse_uint-decimal, decimal-Lacks}
use newt_rust.Core.Target.{Target, parse, parse_host_port}

-- "listenPort:host:targetPort"
abbrev pub plain : Target → Text
plain t = decimal t.listen_port ++ b':' ∷ (t.host ++ b':' ∷ decimal t.target_port)

-- "listenPort:[host]:targetPort"
abbrev pub bracketed : Target → Text
bracketed t = decimal t.listen_port ++ b':' ∷ b'[' ∷ (t.host ++ b']' ∷ b':' ∷ decimal t.target_port)

abbrev pub PortsFit : Target → Type 0
PortsFit t = (t.listen_port ≤ max_u16) × (t.target_port ≤ max_u16)

drop_suc : (a b : Text) (c : ℕ) → drop (length a + 1) (a ++ c ∷ b) ≡ b
drop_suc [] b c = refl
drop_suc (x ∷ a) b c = ground (arith, drop_suc a b c)

parse_host_port-bracketed :
    (h p : Text) → Lacks b']' h → parse_host_port (b'[' ∷ (h ++ b']' ∷ b':' ∷ p)) ≡ some (h, p)
unfolding parse_host_port
parse_host_port-bracketed h p lacks =
    rw (find_char-append b']' h (b':' ∷ p) lacks)
      (ground (arith, drop_suc h (b':' ∷ p) b']', take-append h (b']' ∷ b':' ∷ p)))

strip_prefix-append :
    (c d : ℕ) (h p : Text) → c ≢ d → strip_prefix c h ≡ none → strip_prefix c (h ++ d ∷ p) ≡ none
strip_prefix-append c d [] p ne e = ground arith
strip_prefix-append c d (x ∷ h) p ne e = ground arith

parse_host_port-plain :
    (h p : Text)
    → strip_prefix b'[' h ≡ none
    → Lacks b':' p
    → parse_host_port (h ++ b':' ∷ p) ≡ some (h, p)
unfolding parse_host_port
parse_host_port-plain h p e lacks =
    rw (parse_host_port, strip_prefix-append b'[' b':' h p (omega arith) e)
      (rsplit_once-append b':' h p lacks)

parse_parts :
    (l p : ℕ) (h rest : Text)
    → l ≤ max_u16
    → p ≤ max_u16
    → parse_host_port rest ≡ some (h, decimal p)
    → parse (decimal l ++ b':' ∷ rest)
      ≡ some (record { listen_port = l; host = h; target_port = p })
unfolding parse
parse_parts l p h rest fl fp e = ground (
  arith,
  split_once-append b':' (decimal l) rest (decimal-Lacks b':' l refl),
  parse_uint-decimal max_u16 l fl,
  parse_uint-decimal max_u16 p fp,
  e,
)

-- A target whose ports fit 16 bits is read back from its plain form, if its host does not start with
-- an opening bracket (it may hold colons), and from its bracketed form, if its host holds no closing
-- bracket.
pub parse-print :
    (t : Target)
    → PortsFit t
    → ((strip_prefix b'[' t.host ≡ none → parse (plain t) ≡ some t)
        × (Lacks b']' t.host → parse (bracketed t) ≡ some t))
parse-print t (fl, fp) = (
  λ e. parse_parts t.listen_port t.target_port t.host _ fl fp (
      parse_host_port-plain t.host (decimal t.target_port) e
        (decimal-Lacks b':' t.target_port refl)),
  λ lacks.
      parse_parts t.listen_port t.target_port t.host _ fl fp
        (parse_host_port-bracketed t.host (decimal t.target_port) lacks),
)
