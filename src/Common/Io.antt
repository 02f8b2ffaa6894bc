-- ===== src/Common/Io.antt =====
-- Fallible calls (`io::Result`) that act on a world `W`: sockets, files, the resolver. What a call did
-- before it failed stays done.
use newt_rust.Common.{Option, none, some, ◌≡◌, refl, arith}
use newt_rust.Common.Results.{Result, ok, err}

abbrev pub Io : Type 0 → Type 0 → Type 0
Io W A = W → Result A × W

abbrev pub pure : {W A : Type 0} → A → Io W A
pure a w = (ok a, w)

-- a result that was computed without the world
abbrev pub lift : {W A : Type 0} → Result A → Io W A
lift r w = (r, w)

-- The part behind a `?`, run on what the call left.
abbrev pub after : {W A B : Type 0} → Result A × W → (A → Io W B) → Result B × W
after (err why, w) next = (err why, w)
after (ok a, w) next = next a w

infixl 5 ◌>>=◌ ◌>>◌
abbrev pub ◌>>=◌ : {W A B : Type 0} → Io W A → (A → Io W B) → Io W B
◌>>=◌ m next w = after (m w) next

abbrev pub ◌>>◌ : {W A B : Type 0} → Io W A → Io W B → Io W B
m >> k = m >>= λ _. k

-- `.ok()` on what a call returned
abbrev pub forget : {W A : Type 0} → Result A × W → Result (Option A) × W
forget (err why, w) = (ok none, w)
forget (ok a, w) = (ok (some a), w)

abbrev pub attempt : {W A : Type 0} → Io W A → Io W (Option A)
attempt m w = forget (m w)

-- A chain that ends well has a first call that ended well, and the rest ran on what it left.
pub after-eq-ok :
    {W A B : Type 0} (first : Result A × W) (next : A → Io W B) {b : B} {w' : W}
    → after first next ≡ (ok b, w')
    → (a : A) × (w : W) × (first ≡ (ok a, w)) × (next a w ≡ (ok b, w'))
after-eq-ok (err why, w) next h = ground arith
after-eq-ok (ok a, w) next h = (a, w, refl, h)

-- A postcondition of what a call returns, if it ends well.
abbrev pub Ends : {W A : Type 0} → (A → Type 0) → Result A × W → Type 0
Ends P (err why, w) = Unit {0}
Ends P (ok a, w) = P a

pub Ends-after :
    {W A B : Type 0} (Q : A → Type 0) (P : B → Type 0) (first : Result A × W) (next : A → Io W B)
    → Ends Q first
    → ((a : A) (w : W) → Q a → Ends P (next a w))
    → Ends P (after first next)
Ends-after Q P (err why, w) next h keep = tt
Ends-after Q P (ok a, w) next h keep = keep a w h

-- Nothing is said of the first call.
pub Ends-any :
    {W A B : Type 0} (P : B → Type 0) (first : Result A × W) (next : A → Io W B)
    → ((a : A) (w : W) → Ends P (next a w))
    → Ends P (after first next)
Ends-any P (err why, w) next keep = tt
Ends-any P (ok a, w) next keep = keep a w

-- The same, of the world as well.
abbrev pub EndsWith : {W A : Type 0} → (A → W → Type 0) → Result A × W → Type 0
EndsWith P (err why, w) = Unit {0}
EndsWith P (ok a, w) = P a w

pub EndsWith-after :
    {W A B : Type 0} (Q : A → W → Type 0) (P : B → W → Type 0) (first : Result A × W)
    (next : A → Io W B)
    → EndsWith Q first
    → ((a : A) (w : W) → Q a w → EndsWith P (next a w))
    → EndsWith P (after first next)
EndsWith-after Q P (err why, w) next h keep = tt
EndsWith-after Q P (ok a, w) next h keep = keep a w h

pub EndsWith-imp :
    {W A : Type 0} (Q P : A → W → Type 0) (r : Result A × W)
    → EndsWith Q r
    → ((a : A) (w : W) → Q a w → P a w)
    → EndsWith P r
EndsWith-imp Q P (err why, w) h keep = tt
EndsWith-imp Q P (ok a, w) h keep = keep a w h

-- What holds of the world a call leaves, whatever it returns.
pub EndsWith-world :
    {W A : Type 0} (P : W → Type 0) (r : Result A × W) → P r.1 → EndsWith (λ a w. P w) r
EndsWith-world P (err why, w) h = tt
EndsWith-world P (ok a, w) h = h
