-- ===== src/Transport/Connect/Head.antt =====
-- The reader of the response's head against a search for the first blank line.
use newt_rust.Common.{
  ◌+◌, ◌≤◌, ◌<◌, ◌≡◌, refl, sym, ◌∙◌, ap, subst, true, false, inl, inr, Bool-cases, Option,
  Option-cases, none, some, [], ◌∷◌, ◌++◌, if◌then◌else◌, ltb, leb, length, length-append,
  append_assoc, append-nil, codes, arith, Text,
}
use newt_rust.Common.Results.{Result, ok, err}
use newt_rust.Common.Net.{Bytes}
use newt_rust.Common.Search.{
  split_first, ends_with, is_some, split_first_sound, split_first-append, split_first-lt,
  split_first-last, ends_with-split_first,
}
use newt_rust.Transport.Connect.{blank_line, read_head}

-- What the head of a response is, by the first blank line of the stream: it ends there, in at most 8193
-- bytes. A stream that ends before is an error, and so are 8193 bytes without it.
abbrev pub head_of : Bytes → Option (Bytes × Bytes) → Result (Bytes × Bytes)
head_of io (some (a, rest)) =
    if leb (length a + 4) 8193
    then ok (a ++ blank_line, rest)
    else err (codes "websocket upgrade headers too large")
head_of io none =
    if leb (length io) 8192
    then err (codes "early eof")
    else err (codes "websocket upgrade headers too large")

too_large :
    (head io : Bytes)
    → split_first blank_line head ≡ none
    → 8192 < length head
    → head_of (head ++ io) (split_first blank_line (head ++ io))
      ≡ err (codes "websocket upgrade headers too large")
too_large head io absent long = elim (Option-cases (split_first blank_line (head ++ io))) [
  | inl e ↦
      let long' : leb (length (head ++ io)) 8192 ≡ false =
        ground (arith, length-append {0} head io) in
      rw (e, long') refl
  | inr ((a, rest), e) ↦
      let late = split_first-lt blank_line head io a rest absent e in
      let long' : leb (length a + 4) 8193 ≡ false = ground (arith, late) in rw (e, long') refl
]

found :
    (head io : Bytes) (a rest : Text)
    → split_first blank_line head ≡ some (a, rest)
    → rest ≡ []
    → length head ≤ 8193
    → head_of (head ++ io) (split_first blank_line (head ++ io)) ≡ ok (head, io)
found head io a rest e last short =
    let whole : head ≡ a ++ blank_line =
      split_first_sound blank_line head a rest e ∙ ap (λ r. a ++ (blank_line ++ r)) last in
    let short' : leb (length a + 4) 8193 ≡ true =
      ground (arith, ap length whole, length-append {0} a blank_line) in
    ap (head_of (head ++ io)) (split_first-append blank_line head io a rest e)
    ∙ rw short' (λ i. ok (sym whole i, last i ++ io))

read_head-behind :
    (head io : Bytes)
    → split_first blank_line head ≡ none
    → length head ≤ 8192
    → read_head head io ≡ head_of (head ++ io) (split_first blank_line (head ++ io))
unfolding read_head
read_head-behind head [] absent short =
    let short' : leb (length head) 8192 ≡ true = ground arith in
    rw (append-nil, absent, short') refl
read_head-behind head (b ∷ io) absent short =
    let head' = head ++ b ∷ [] in
    let regroup : head' ++ io ≡ head ++ b ∷ io = append_assoc head (b ∷ []) io in
    let ends = ends_with-split_first blank_line head b absent in
    let size : length head' ≡ length head + 1 = length-append {0} head (b ∷ []) in
    subst (λ all. read_head head (b ∷ io) ≡ head_of all (split_first blank_line all)) regroup
      (elim (Option-cases (split_first blank_line head')) [
        | inl e ↦
            let goes_on : ends_with blank_line head' ≡ false = ends ∙ ap is_some e in
            rw goes_on (elim (Bool-cases (ltb 8192 (length head'))) [
              | inl long ↦ rw long (sym (too_large head' io e (ground arith)))
              | inr fits ↦ rw fits (read_head-behind head' io e (ground arith))
            ])
        | inr ((a, rest), e) ↦
            let stops : ends_with blank_line head' ≡ true = ends ∙ ap is_some e in
            rw stops (
              sym (
                found head' io a rest e (split_first-last blank_line head b a rest absent e)
                  (omega arith)))
      ])

-- The head of the response is read up to and with the first blank line of the stream, and nothing behind
-- that, if it has at most 8193 bytes; a stream that ends before is an early end, and 8193 bytes without a
-- blank line, or a longer head, are too large.
pub read_head-head_of : (io : Bytes) → read_head [] io ≡ head_of io (split_first blank_line io)
read_head-head_of io = read_head-behind [] io (unfold split_first in refl) (omega arith)
