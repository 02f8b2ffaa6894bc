-- ===== src/Common/Results.antt =====
-- `Result<_, String>` with `?`, for `do` blocks.
use mathlib.Core.Option.{Option, none, some}
use mathlib.Core.Path.{◌≡◌, refl}
use newt_rust.Common.{Text}

pub data Result {ℓ} (A : Type ℓ) : Type ℓ where
  err : Text → Result A
  ok : A → Result A

-- `Option::ok_or`
abbrev pub ok_or {ℓ} : {A : Type ℓ} → Text → Option A → Result A
ok_or why (some found) = ok found
ok_or why none = err why

infixl 5 ◌>>=◌
-- the `?` behind a fallible call
abbrev pub ◌>>=◌ {κ ℓ} : {A : Type κ} {B : Type ℓ} → Result A → (A → Result B) → Result B
err why >>= next = err why
ok found >>= next = next found

-- A chain that is accepted has an accepted first step, and goes on from what that step found.
pub >>=-eq-ok {κ ℓ} :
    {A : Type κ} {B : Type ℓ} (first : Result A) (next : A → Result B) {last : B}
    → (first >>= next) ≡ ok last
    → (found : A) × (first ≡ ok found) × (next found ≡ ok last)
>>=-eq-ok (err why) next h = cc
>>=-eq-ok (ok found) next h = (found, refl, h)
