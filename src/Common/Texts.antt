-- ===== src/Common/Texts.antt =====
-- A Rust `str` as the list of its characters (code points), and the `str` methods that the program
-- calls. The byte offsets of Rust's `find` are only used to slice, so character offsets serve.
use Prim.Native.Nat.{ℕ, suc, ◌+◌, ◌-◌}
use Prim.Native.Char.{code}
use Prim.Native.String.{String}
use mathlib.Core.Path.{◌≡◌, refl}
use mathlib.Core.Logic.{◌≢◌}
use mathlib.Core.Bool.{Bool, true, false, ◌||◌, ◌&&◌}
use mathlib.Core.List.{List, [], ◌∷◌, ◌++◌}
use mathlib.Core.Option.{Option, none, some}
use mathlib.Core.Option
use native.Mathlib.Omega.{arith}
use newt_rust.Common.Tests.{leb, ◌==◌, if◌then◌else◌}
use newt_rust.Common.Lists.{All, length, take, drop}

abbrev pub Text : Type 0
Text = List ℕ

-- The characters of a literal.
abbrev pub codes : String → Text
codes String.[] = []
codes (String.◌∷◌ c s) = code c ∷ codes s

-- `==` on `str`
unfoldable pub text_eq : Text → Text → Bool
text_eq [] [] = true
text_eq (c ∷ s) (d ∷ t) = (c == d) && text_eq s t
text_eq _ _ = false

-- `str::is_empty`
abbrev pub is_empty : Text → Bool
is_empty [] = true
is_empty (c ∷ s) = false

-- `str::find` of a character
unfoldable pub find_char : ℕ → Text → Option ℕ
find_char c [] = none
find_char c (d ∷ s) = if d == c then some 0 else Option.map suc (find_char c s)

-- `str::split_once` at a character: around its first occurrence
unfoldable pub split_once : ℕ → Text → Option (Text × Text)
split_once c [] = none
split_once c (d ∷ s) =
    if d == c
    then some ([], s)
    else Option.map (λ (p : Text × Text). (d ∷ p.0, p.1)) (split_once c s)

-- `str::rsplit_once` at a character: around its last occurrence
abbrev prepend : ℕ → ℕ → Text → Option (Text × Text) → Option (Text × Text)
prepend c d s (some (a, b)) = some (d ∷ a, b)
prepend c d s none = if d == c then some ([], s) else none

unfoldable pub rsplit_once : ℕ → Text → Option (Text × Text)
rsplit_once c [] = none
rsplit_once c (d ∷ s) = prepend c d s (rsplit_once c s)

-- `str::strip_prefix` of a character
abbrev pub strip_prefix : ℕ → Text → Option Text
strip_prefix c [] = none
strip_prefix c (d ∷ s) = if d == c then some s else none

-- `char::is_whitespace`: the characters with the property White_Space
pub is_whitespace : ℕ → Bool
is_whitespace c =
    (leb 9 c && leb c 13)
    || c == 0x20
    || c == 0x85
    || c == 0xa0
    || c == 0x1680
    || (leb 0x2000 c && leb c 0x200a)
    || c == 0x2028
    || c == 0x2029
    || c == 0x202f
    || c == 0x205f
    || c == 0x3000

pub trim_start_by : (ℕ → Bool) → Text → Text
trim_start_by p [] = []
trim_start_by p (c ∷ s) = let rest = trim_start_by p s in if p c then rest else c ∷ s

-- `str::trim_end_matches` with a test of one character
unfoldable pub trim_end_by : (ℕ → Bool) → Text → Text
trim_end_by p [] = []
trim_end_by p (c ∷ s) = let rest = trim_end_by p s in if p c && is_empty rest then [] else c ∷ rest

-- `str::trim`
unfoldable pub trim : Text → Text
unfolding trim_end_by trim_start_by is_whitespace
trim s = trim_end_by is_whitespace (trim_start_by is_whitespace s)

-- A text without the character.
abbrev pub Lacks : ℕ → Text → Type 0
Lacks c = All (λ d. d ≢ c)

pub text_eq_refl : (s : Text) → text_eq s s ≡ true
unfolding text_eq
text_eq_refl [] = refl
text_eq_refl (c ∷ s) = ground (arith, text_eq_refl s)

pub text_eq→eq : (s t : Text) → text_eq s t ≡ true → s ≡ t
unfolding text_eq
text_eq→eq [] [] h = refl
text_eq→eq [] (d ∷ t) h = cc
text_eq→eq (c ∷ s) [] h = cc
text_eq→eq (c ∷ s) (d ∷ t) h = ground (arith, text_eq→eq s t)

pub split_once-append : (c : ℕ) (a b : Text) → Lacks c a → split_once c (a ++ c ∷ b) ≡ some (a, b)
unfolding split_once
split_once-append c [] b h = ground arith
split_once-append c (d ∷ a) b (hd, h) = ground (arith, split_once-append c a b h)

pub find_char-append : (c : ℕ) (a b : Text) → Lacks c a → find_char c (a ++ c ∷ b) ≡ some (length a)
unfolding find_char
find_char-append c [] b h = ground arith
find_char-append c (d ∷ a) b (hd, h) = ground (arith, find_char-append c a b h)

pub rsplit_once-Lacks : (c : ℕ) (b : Text) → Lacks c b → rsplit_once c b ≡ none
unfolding rsplit_once
rsplit_once-Lacks c [] h = refl
rsplit_once-Lacks c (d ∷ b) (hd, h) = ground (arith, rsplit_once-Lacks c b h)

pub rsplit_once-append : (c : ℕ) (a b : Text) → Lacks c b → rsplit_once c (a ++ c ∷ b) ≡ some (a, b)
unfolding rsplit_once
rsplit_once-append c [] b h = ground (arith, rsplit_once-Lacks c b h)
rsplit_once-append c (d ∷ a) b h = ground (arith, rsplit_once-append c a b h)

pub split_once_sound :
    (c : ℕ) (s a b : Text) → split_once c s ≡ some (a, b) → (s ≡ a ++ c ∷ b) × Lacks c a
unfolding split_once
split_once_sound c [] a b h = cc
split_once_sound c (d ∷ s) a b h = ground (arith, split_once_sound c s (drop 1 a) b)

pub rsplit_once_sound : (c : ℕ) (s a b : Text) → rsplit_once c s ≡ some (a, b) → (s ≡ a ++ c ∷ b)
unfolding rsplit_once
rsplit_once_sound c [] a b h = cc
rsplit_once_sound c (d ∷ s) a b h = ground (arith, rsplit_once_sound c s (drop 1 a) b)

pub find_char_sound :
    (c : ℕ) (s : Text) (i : ℕ) → find_char c s ≡ some i → s ≡ take i s ++ c ∷ drop (i + 1) s
unfolding find_char
find_char_sound c [] i h = cc
find_char_sound c (d ∷ s) i h = ground (arith, find_char_sound c s (i - 1))

is_empty-append : (a b : Text) → is_empty b ≡ false → is_empty (a ++ b) ≡ false
is_empty-append [] b h = h
is_empty-append (d ∷ a) b h = refl

-- Nothing is trimmed behind a last part that has no character to trim.
pub trim_end_by-all : (c : ℕ) (b : Text) → Lacks c b → trim_end_by (λ d. d == c) b ≡ b
unfolding trim_end_by
trim_end_by-all c [] h = refl
trim_end_by-all c (d ∷ b) (hd, h) = ground (arith, trim_end_by-all c b h)

pub trim_end_by-append :
    (c : ℕ) (a b : Text)
    → is_empty b ≡ false
    → Lacks c b
    → trim_end_by (λ d. d == c) (a ++ b) ≡ a ++ b
unfolding trim_end_by
trim_end_by-append c [] b ne h = trim_end_by-all c b h
trim_end_by-append c (d ∷ a) b ne h =
    let kept = trim_end_by-append c a b ne h in
    let more = is_empty-append a b ne in ground (arith, kept, more)
