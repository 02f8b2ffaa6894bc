-- ===== src/Olm/Netlink/Attributes.antt =====
-- The attributes of a request, as the kernel reads them.
use newt_rust.Common.{
  ℕ, zero, suc, ◌+◌, ◌-◌, ◌*◌, ◌/◌, ◌%◌, ◌^◌, ◌<◌, ◌≤◌, Bool, true, false, [], ◌∷◌, ◌++◌, Option,
  none, some, ◌≡◌, refl, sym, ◌∙◌, ap, arith, inl, inr, length, take, drop, replicate, ◌&&◌, leb,
  ◌==◌, if◌then◌else◌, Bool-cases, length-append, length-replicate, take-append, drop-append,
  append_assoc, append-nil, ==→eq, ==→ne,
}
use newt_rust.Common.Net.{Bytes}
use newt_rust.Olm.Netlink.{ne16, from_ne16, pad, push_attr}

-- The bytes that are missing to a multiple of four.
abbrev pub gap : ℕ → ℕ
gap n = (4 - n % 4) % 4

pad_lem :
    (rounds : ℕ) (buf : Bytes)
    → gap (length buf) ≤ rounds
    → pad rounds buf ≡ buf ++ replicate (gap (length buf)) 0
unfolding pad
pad_lem zero buf h =
    let none_missing : gap (length buf) ≡ 0 = omega arith in rw none_missing (sym (append-nil buf))
pad_lem (suc rounds) buf h = elim (Bool-cases (length buf % 4 == 0)) [
  | inl e ↦
      let aligned : gap (length buf) ≡ 0 = omega (arith, ==→eq (length buf % 4) 0 e) in
      rw (e, aligned) (sym (append-nil buf))
  | inr e ↦
      let longer = length-append buf (0 ∷ []) in
      let one_more : gap (length buf) ≡ suc (gap (length (buf ++ 0 ∷ []))) =
        omega (arith, ==→ne (length buf % 4) 0 e, longer) in
      let rest = pad_lem rounds (buf ++ 0 ∷ []) (omega (arith, one_more)) in
      rw (e, one_more) (rest ∙ append_assoc buf (0 ∷ []) _)
]

-- The value of an attribute by its length and type, and the bytes behind its padding.
read_value : ℕ → ℕ → Bytes → Option (ℕ × Bytes × Bytes)
read_value len t rest =
    if leb 4 len && leb (len - 4) (length rest)
    then some (t, take (len - 4) rest, drop (gap (len - 4)) (drop (len - 4) rest))
    else none

-- An attribute at the start of some bytes: its type, its value, and the bytes behind its padding.
unfoldable pub read_attr : Bool → Bytes → Option (ℕ × Bytes × Bytes)
unfolding read_value
read_attr little (a ∷ b ∷ c ∷ d ∷ rest) =
    read_value (from_ne16 little a b) (from_ne16 little c d) rest
read_attr little _ = none

-- What `push_attr` appends.
abbrev pub attribute : Bool → ℕ → Bytes → Bytes
attribute little t value =
    ne16 little (4 + length value) ++ (ne16 little t ++ (value ++ replicate (gap (length value)) 0))

length-ne16 : (little : Bool) (n : ℕ) → length (ne16 little n) ≡ 2
length-ne16 true n = refl
length-ne16 false n = refl

attribute_size :
    (little : Bool) (t : ℕ) (value : Bytes)
    → length (attribute little t value) ≡ 4 + length value + gap (length value)
attribute_size little t value =
    let zeros : Bytes = replicate (gap (length value)) 0 in
    let outer =
      length-append (ne16 little (4 + length value)) (ne16 little t ++ (value ++ zeros)) in
    let inner = length-append (ne16 little t) (value ++ zeros) in
    omega (
      arith,
      outer,
      inner,
      length-append value zeros,
      length-replicate {A = ℕ} (gap (length value)) 0,
      length-ne16 little (4 + length value),
      length-ne16 little t,
    )

pub length-attribute :
    (little : Bool) (t : ℕ) (value : Bytes)
    → (length (attribute little t value) % 4 ≡ 0)
      × (length (attribute little t value) ≤ 7 + length value)
length-attribute little t value =
    let size = attribute_size little t value in (omega (arith, size), omega (arith, size))

-- On an aligned buffer `push_attr` appends an attribute.
pub push_attr-attribute :
    (little : Bool) (buf value : Bytes) (t : ℕ)
    → length buf % 4 ≡ 0
    → 4 + length value < 2 ^ 16
    → push_attr little buf t value ≡ buf ++ attribute little t value
unfolding push_attr pad
push_attr-attribute little buf value t aligned short =
    let len = (4 + length value) % 2 ^ 16 in
    let body = ne16 little len ++ (ne16 little t ++ value) in
    let zeros : Bytes = replicate (gap (length value)) 0 in
    let outer = length-append (ne16 little len) (ne16 little t ++ value) in
    let inner = length-append (ne16 little t) value in
    let all = length-append buf body in
    let same_gap : gap (length (buf ++ body)) ≡ gap (length value) =
      omega (arith, outer, inner, all, length-ne16 little len, length-ne16 little t) in
    let same_len : len ≡ 4 + length value = omega arith in
    pad_lem 3 (buf ++ body) (omega arith)
    ∙ rw same_gap (append_assoc buf body zeros)
    ∙ ap (λ (x : Bytes). buf ++ x)
        (append_assoc (ne16 little len) (ne16 little t ++ value) zeros
          ∙ ap (λ (x : Bytes). ne16 little len ++ x) (append_assoc (ne16 little t) value zeros)
          ∙ ap (λ (n : ℕ). ne16 little n ++ (ne16 little t ++ (value ++ zeros))) same_len)

read_value-padded :
    (t : ℕ) (value rest : Bytes)
    → read_value (4 + length value) t (value ++ (replicate (gap (length value)) 0 ++ rest))
      ≡ some (t, value, rest)
unfolding read_value
read_value-padded t value rest =
    let zeros : Bytes = replicate (gap (length value)) 0 in
    let room : leb (length value) (length (value ++ (zeros ++ rest))) ≡ true =
      ground (arith, length-append value (zeros ++ rest)) in
    let behind : drop (gap (length value)) (zeros ++ rest) ≡ rest =
      ap (λ (n : ℕ). drop n (zeros ++ rest)) (sym (length-replicate (gap (length value)) 0))
      ∙ drop-append zeros rest in
    let size : 4 + length value - 4 ≡ length value = omega arith in
    let header : leb 4 (4 + length value) ≡ true = ground arith in
    rw
      (
        size,
        header,
        room,
        take-append value (zeros ++ rest),
        drop-append value (zeros ++ rest),
        behind,
      )
      refl

read_attr-ne16 :
    (little : Bool) (n t : ℕ) (rest : Bytes)
    → n < 2 ^ 16
    → t < 2 ^ 16
    → read_attr little (ne16 little n ++ (ne16 little t ++ rest)) ≡ read_value n t rest
unfolding read_attr
read_attr-ne16 true n t rest hn ht =
    let len : n % 256 + 256 * (n / 256 % 256) ≡ n = omega arith in
    let typ : t % 256 + 256 * (t / 256 % 256) ≡ t = omega arith in rw (len, typ) refl
read_attr-ne16 false n t rest hn ht =
    let len : n % 256 + 256 * (n / 256 % 256) ≡ n = omega arith in
    let typ : t % 256 + 256 * (t / 256 % 256) ≡ t = omega arith in rw (len, typ) refl

-- An attribute is read back, with its type and its value, and what stands behind its padding is left.
pub read_attr-attribute :
    (little : Bool) (t : ℕ) (value rest : Bytes)
    → t < 2 ^ 16
    → 4 + length value < 2 ^ 16
    → read_attr little (attribute little t value ++ rest) ≡ some (t, value, rest)
read_attr-attribute little t value rest small short =
    let zeros : Bytes = replicate (gap (length value)) 0 in
    let size = ne16 little (4 + length value) in
    ap (read_attr little) (
      append_assoc size (ne16 little t ++ (value ++ zeros)) rest
      ∙ ap (λ (x : Bytes). size ++ x)
          (append_assoc (ne16 little t) (value ++ zeros) rest
            ∙ ap (λ (x : Bytes). ne16 little t ++ x) (append_assoc value zeros rest)))
    ∙ read_attr-ne16 little (4 + length value) t (value ++ (zeros ++ rest)) short small
    ∙ read_value-padded t value rest
