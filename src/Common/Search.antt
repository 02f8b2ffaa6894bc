-- ===== src/Common/Search.antt =====
-- The search for a text (`str::find`, `ends_with` and `starts_with` of `str` and of slices).
use newt_rust.Common.{
  ℕ, ◌+◌, ◌<◌, ◌≡◌, refl, Bool, true, false, ◌||◌, [], ◌∷◌, ◌++◌, Option, none, some, ◌==◌,
  if◌then◌else◌, Text, text_eq, length, drop, arith, ap, length-append, Option-cases, inl, inr, ◌≤◌,
  subst, sym, ◌∙◌, take, take-append, append-nil,
}

-- the text behind a prefix
unfoldable pub strip_text : Text → Text → Option Text
strip_text [] s = some s
strip_text (c ∷ p) [] = none
strip_text (c ∷ p) (d ∷ s) = if c == d then strip_text p s else none

abbrev pub at_front : ℕ → Option Text → Option (Text × Text) → Option (Text × Text)
at_front c (some behind) later = some ([], behind)
at_front c none (some (a, b)) = some (c ∷ a, b)
at_front c none none = none

-- around the first occurrence of the text
unfoldable pub split_first : Text → Text → Option (Text × Text)
unfolding strip_text
split_first p [] = elim p [ [] ↦ some ([], []) | c ∷ q ↦ none ]
split_first p (c ∷ s) = at_front c (strip_text p (c ∷ s)) (split_first p s)

-- `ends_with`
unfoldable pub ends_with : Text → Text → Bool
unfolding text_eq
ends_with p [] = text_eq p []
ends_with p (c ∷ s) = text_eq p (c ∷ s) || ends_with p s

abbrev pub is_some {ℓ} : {A : Type ℓ} → Option A → Bool
is_some none = false
is_some (some a) = true

strip_text-append :
    (p s t b : Text) → strip_text p s ≡ some b → strip_text p (s ++ t) ≡ some (b ++ t)
unfolding strip_text
strip_text-append [] s t b h = ground (arith, h)
strip_text-append (c ∷ p) [] t b h = cc
strip_text-append (c ∷ p) (d ∷ s) t b h = ground (arith, strip_text-append p s t b)

-- An occurrence that is not within the first part reaches to the end of the second, where that is a character.
strip_text-last :
    (p s : Text) (d : ℕ) (b : Text)
    → strip_text p s ≡ none
    → strip_text p (s ++ d ∷ []) ≡ some b
    → b ≡ []
unfolding strip_text
strip_text-last [] s d b h k = cc
strip_text-last (c ∷ []) [] d b h k = ground arith
strip_text-last (c ∷ e ∷ p) [] d b h k = ground arith
strip_text-last (c ∷ p) (e ∷ s) d b h k = ground (arith, strip_text-last p s d b)

strip_text-lt :
    (p s t b : Text) → strip_text p s ≡ none → strip_text p (s ++ t) ≡ some b → length s < length p
unfolding strip_text
strip_text-lt [] s t b h k = cc
strip_text-lt (c ∷ p) [] t b h k = omega arith
strip_text-lt (c ∷ p) (d ∷ s) t b h k = ground (arith, strip_text-lt p s t b)

strip_text-text_eq : (p s : Text) → text_eq p s ≡ true → strip_text p s ≡ some []
unfolding strip_text text_eq
strip_text-text_eq [] [] h = refl
strip_text-text_eq [] (d ∷ s) h = cc
strip_text-text_eq (c ∷ p) [] h = cc
strip_text-text_eq (c ∷ p) (d ∷ s) h = ground (arith, strip_text-text_eq p s)

text_eq-strip_text : (p s : Text) → strip_text p s ≡ some [] → text_eq p s ≡ true
unfolding strip_text text_eq
text_eq-strip_text [] [] h = refl
text_eq-strip_text [] (d ∷ s) h = cc
text_eq-strip_text (c ∷ p) [] h = cc
text_eq-strip_text (c ∷ p) (d ∷ s) h = ground (arith, text_eq-strip_text p s)

strip_text_sound : (p s b : Text) → strip_text p s ≡ some b → s ≡ p ++ b
unfolding strip_text
strip_text_sound [] s b h = cc
strip_text_sound (c ∷ p) [] b h = cc
strip_text_sound (c ∷ p) (d ∷ s) b h = ground (arith, strip_text_sound p s b)

-- The text stands where it was found.
pub split_first_sound : (p s a b : Text) → split_first p s ≡ some (a, b) → s ≡ a ++ (p ++ b)
unfolding split_first
split_first_sound [] [] a b h = ground arith
split_first_sound (e ∷ p) [] a b h = cc
split_first_sound p (c ∷ s) a b h =
    ground (arith, strip_text_sound p (c ∷ s) b, split_first_sound p s (drop 1 a) b)

split_first-length :
    (p s a b : Text) → split_first p s ≡ some (a, b) → length a + length p + length b ≡ length s
split_first-length p s a b h = omega (
  arith,
  ap length (split_first_sound p s a b h),
  length-append {0} a (p ++ b),
  length-append {0} p b,
)

-- A text that is long enough does not begin at the front only because of what follows.
strip_text-none :
    (p s t : Text) → length p ≤ length s → strip_text p s ≡ none → strip_text p (s ++ t) ≡ none
strip_text-none p s t long h = elim (Option-cases (strip_text p (s ++ t))) [
  | inl e ↦ e
  | inr (b, e) ↦ absurd (omega (arith, strip_text-lt p s t b h e))
]

-- What follows does not change where a text is found.
pub split_first-append :
    (p s t a b : Text) → split_first p s ≡ some (a, b) → split_first p (s ++ t) ≡ some (a, b ++ t)
unfolding split_first
split_first-append [] [] [] a b h = ground arith
split_first-append [] [] (d ∷ t) a b h = ground arith
split_first-append (e ∷ p) [] t a b h = cc
split_first-append p (c ∷ s) t a b h =
    let long = split_first-length p (c ∷ s) a b h in
    ground (
      arith,
      strip_text-append p (c ∷ s) t b,
      strip_text-none p (c ∷ s) t,
      split_first-append p s t (drop 1 a) b,
    )

-- A text that occurs behind a part without it reaches beyond that part.
pub split_first-lt :
    (p s t a b : Text)
    → split_first p s ≡ none
    → split_first p (s ++ t) ≡ some (a, b)
    → length s < length a + length p
unfolding split_first
split_first-lt [] [] t a b h k = cc
split_first-lt (e ∷ p) [] t a b h k = omega arith
split_first-lt p (c ∷ s) t a b h k =
    ground (arith, strip_text-lt p (c ∷ s) t b, split_first-lt p s t (drop 1 a) b)

pub split_first-last :
    (p s : Text) (d : ℕ) (a b : Text)
    → split_first p s ≡ none
    → split_first p (s ++ d ∷ []) ≡ some (a, b)
    → b ≡ []
split_first-last p s d a b h k = ground (
  arith,
  split_first-length p (s ++ d ∷ []) a b k,
  split_first-lt p s (d ∷ []) a b h k,
  length-append {0} s (d ∷ []),
)

at_front-last :
    (c : ℕ) (later : Option (Text × Text))
    → ((a b : Text) → at_front c none later ≡ some (a, b) → b ≡ [])
    → (a b : Text) → later ≡ some (a, b)
    → b ≡ []
at_front-last c later last a b h = last (c ∷ a) b (rw h refl)

ends_with-is_some :
    (p s : Text)
    → ((a b : Text) → split_first p s ≡ some (a, b) → b ≡ [])
    → ends_with p s ≡ is_some (split_first p s)
unfolding split_first ends_with text_eq
ends_with-is_some [] [] last = refl
ends_with-is_some (e ∷ p) [] last = refl
ends_with-is_some p (c ∷ s) last = elim (Option-cases (strip_text p (c ∷ s))) [
  | inl e ↦
      let rest : (a b : Text) → split_first p s ≡ some (a, b) → b ≡ [] =
        at_front-last c (split_first p s) (
          subst (λ o. (a b : Text) → at_front c o (split_first p s) ≡ some (a, b) → b ≡ []) e
            last) in
      let ih = ends_with-is_some p s rest in ground (arith, ih, strip_text-text_eq p (c ∷ s))
  | inr (b, e) ↦
      let none_left : b ≡ [] = last [] b (rw e refl) in
      ground (arith, none_left, text_eq-strip_text p (c ∷ s))
]

-- Behind a part without the text, one more character completes it exactly if the whole ends with it.
pub ends_with-split_first :
    (p s : Text) (d : ℕ)
    → split_first p s ≡ none
    → ends_with p (s ++ d ∷ []) ≡ is_some (split_first p (s ++ d ∷ []))
ends_with-split_first p s d h =
    ends_with-is_some p (s ++ d ∷ []) (λ a b k. split_first-last p s d a b h k)

text_eq_self : (p : Text) → text_eq p p ≡ true
unfolding text_eq
text_eq_self [] = refl
text_eq_self (c ∷ p) = ground (arith, text_eq_self p)

ends_with-append : (p a : Text) → ends_with p (a ++ p) ≡ true
unfolding ends_with
ends_with-append [] [] = unfold text_eq in refl
ends_with-append (c ∷ p) [] = rw (text_eq_self (c ∷ p)) refl
ends_with-append p (c ∷ a) = ground (arith, ends_with-append p a)

append-cancel : (a x p : Text) → x ++ p ≡ a ++ p → x ≡ a
append-cancel a x p h =
    let same : length x ≡ length a =
      omega (arith, ap length h, length-append {0} x p, length-append {0} a p) in
    sym (take-append x p) ∙ (λ i. take (same i) (h i)) ∙ take-append a p

-- A text whose last character completes its first occurrence is around that.
pub split_first-ends :
    (p s a : Text) (d : ℕ)
    → split_first p s ≡ none
    → s ++ d ∷ [] ≡ a ++ p
    → split_first p (s ++ d ∷ []) ≡ some (a, [])
split_first-ends p s a d absent h =
    let ends : is_some (split_first p (s ++ d ∷ [])) ≡ true =
      sym (ends_with-split_first p s d absent) ∙ ap (ends_with p) h ∙ ends_with-append p a in
    elim (Option-cases (split_first p (s ++ d ∷ []))) [
      | inl e ↦ let missing = rw e at ends in cc
      | inr ((x, b), e) ↦
          let last = split_first-last p s d x b absent e in
          let whole : x ++ p ≡ a ++ p =
            sym (
              split_first_sound p (s ++ d ∷ []) x b e
              ∙ ap (λ r. x ++ (p ++ r)) last
              ∙ ap (λ r. x ++ r) (append-nil p))
            ∙ h in
          e ∙ (λ i. some (append-cancel a x p whole i, last i))
    ]
