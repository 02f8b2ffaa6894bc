-- ===== src/Tunnel/Listeners/Vec.antt =====
-- `Iterator::position` and `Vec::swap_remove`, on lists.
use newt_rust.Common.{
  ℕ, zero, suc, Bool, true, false, not, ◌&&◌, Option, none, some, List, [], ◌∷◌, ◌≡◌, refl, sym, ap,
  subst, Bool-cases, Option-cases, inl, inr, if◌then◌else◌, any, length, retain,
}
use newt_rust.Common.Monads.{◌>>=◌}
use mathlib.Core.List
use mathlib.Core.List.{Perm}
use mathlib.Core.List.Perm

module _ {A : Type 0} where
  abbrev pub position : (A → Bool) → List A → Option ℕ
  position f [] = none
  position f (x ∷ xs) =
      let rest = position f xs in if f x then some zero else do i ← rest; some (suc i)

  -- the last item and the others
  abbrev pub pop : List A → Option (A × List A)
  pop [] = none
  pop (x ∷ xs) = elim (pop xs) [ none ↦ some (x, []) | some (y, ys) ↦ some (y, x ∷ ys) ]

  -- The last item takes the place of the removed one.
  abbrev pub swap_remove : ℕ → List A → Option (A × List A)
  swap_remove i [] = none
  swap_remove zero (x ∷ xs) = elim (pop xs) [
    | none ↦ some (x, [])
    | some (y, ys) ↦ some (x, y ∷ ys)
  ]
  swap_remove (suc i) (x ∷ xs) = do (y, ys) ← swap_remove i xs; some (y, x ∷ ys)

  abbrev PopsOff : List A → Option (A × List A) → Type 0
  PopsOff xs none = xs ≡ []
  PopsOff xs (some (y, ys)) = (length xs ≡ suc (length ys)) × Perm (y ∷ ys) xs

  pop-PopsOff : (xs : List A) → PopsOff xs (pop xs)
  pop-PopsOff [] = refl
  pop-PopsOff (x ∷ xs) = longer (pop xs) (pop-PopsOff xs)
    where
      longer :
          (o : Option (A × List A))
          → PopsOff xs o
          → PopsOff (x ∷ xs) (elim o [ none ↦ some (x, []) | some (y, ys) ↦ some (y, x ∷ ys) ])
      longer none h = rw h (refl, Perm.refl (x ∷ []))
      longer (some (y, ys)) (hl, hp) = (ap suc hl, Perm.trans (Perm.swap x y ys) (Perm.cons x hp))

  -- the items behind a removed one, where the last takes its place
  abbrev pub moved_up : List A → List A
  moved_up rest = elim (pop rest) [ none ↦ [] | some (y, ys) ↦ y ∷ ys ]

  pub moved_up-perm : (xs : List A) → Perm (moved_up xs) xs
  moved_up-perm xs = elim (Option-cases (pop xs)) [
    | inl e ↦
        let last : xs ≡ [] = rw e at (pop-PopsOff xs) in
        rw (e, moved_up) (subst (λ t. Perm [] t) (sym last) Perm.nil)
    | inr ((y, ys), e) ↦ rw (e, moved_up) (rw e at (pop-PopsOff xs)).1
  ]

  -- The item at a position is removed, and every other stays.
  pub record Takes (f : A → Bool) (xs : List A) (x : A) (ys : List A) : Type 0 where
    pub is_taken : f x ≡ true
    pub is_shorter : length xs ≡ suc (length ys)
    pub others : Perm (x ∷ ys) xs

  abbrev pub Taken : (A → Bool) → List A → Option (A × List A) → Type 0
  Taken f xs none = any f xs ≡ false
  Taken f xs (some (y, ys)) = Takes f xs y ys

  first-Taken :
      (f : A → Bool) (x : A) (xs : List A)
      → f x ≡ true
      → Taken f (x ∷ xs) (swap_remove zero (x ∷ xs))
  first-Taken f x xs e = moved (pop xs) (pop-PopsOff xs)
    where
      moved :
          (o : Option (A × List A))
          → PopsOff xs o
          → Taken f (x ∷ xs) (elim o [ none ↦ some (x, []) | some (y, ys) ↦ some (x, y ∷ ys) ])
      moved none h = rw h record { is_taken = e; is_shorter = refl; others = Perm.refl (x ∷ []) }
      moved (some (y, ys)) (hl, hp) = record {
        is_taken = e;
        is_shorter = ap suc hl;
        others = Perm.cons x hp;
      }

  pub position-Taken :
      (f : A → Bool) (xs : List A) → Taken f xs (position f xs >>= λ i. swap_remove i xs)
  position-Taken f [] = refl
  position-Taken f (x ∷ xs) = elim (Bool-cases (f x)) [
    | inl e ↦ rw e (first-Taken f x xs e)
    | inr e ↦ rw e (later (position f xs) (position-Taken f xs) e)
  ]
    where
      kept :
          (o : Option (A × List A))
          → Taken f xs o
          → f x ≡ false
          → Taken f (x ∷ xs) (do (y, ys) ← o; some (y, x ∷ ys))
      kept none h e = rw (e, h) refl
      kept (some (y, ys)) h e = record {
        is_taken = h.is_taken;
        is_shorter = ap suc h.is_shorter;
        others = Perm.trans (Perm.swap x y ys) (Perm.cons x h.others);
      }

      later :
          (o : Option ℕ)
          → Taken f xs (o >>= λ i. swap_remove i xs)
          → f x ≡ false
          → Taken f (x ∷ xs) ((do i ← o; some (suc i)) >>= λ i. swap_remove i (x ∷ xs))
      later none h e = rw (e, h) refl
      later (some i) h e = kept (swap_remove i xs) h e

  -- the items that pass a test, as the library has them
  passing : (A → Bool) → A → Option A
  passing f x = if f x then some x else none

  retain-filter_map : (f : A → Bool) (xs : List A) → retain f xs ≡ List.filter_map (passing f) xs
  unfolding passing List.filter_map
  retain-filter_map f [] = refl
  retain-filter_map f (x ∷ xs) = elim (Bool-cases (f x)) [
    | inl e ↦ rw e (ap (λ t. x ∷ t) (retain-filter_map f xs))
    | inr e ↦ rw e (retain-filter_map f xs)
  ]

  pub retain-perm : (f : A → Bool) (xs ys : List A) → Perm xs ys → Perm (retain f xs) (retain f ys)
  retain-perm f xs ys h =
      subst (λ t. Perm t (retain f ys)) (sym (retain-filter_map f xs))
        (subst (λ t. Perm (List.filter_map (passing f) xs) t) (sym (retain-filter_map f ys))
          (Perm.filter_map (passing f) h))

  pub retain-retain :
      (f g : A → Bool) (xs : List A) → retain g (retain f xs) ≡ retain (λ x. f x && g x) xs
  retain-retain f g [] = refl
  retain-retain f g (x ∷ xs) = elim (Bool-cases (f x)) [
    | inl e ↦ rw e (elim (Bool-cases (g x)) [
      | inl k ↦ rw k (ap (λ t. x ∷ t) (retain-retain f g xs))
      | inr k ↦ rw k (retain-retain f g xs)
    ])
    | inr e ↦ rw e (retain-retain f g xs)
  ]

  -- Nothing is dropped where nothing is to go.
  pub retain-none :
      (f : A → Bool) (xs : List A) → any f xs ≡ false → retain (λ x. not (f x)) xs ≡ xs
  retain-none f [] h = refl
  retain-none f (x ∷ xs) h = elim (Bool-cases (f x)) [
    | inl e ↦ let wrong = rw e at h in cc
    | inr e ↦ rw e (ap (λ t. x ∷ t) (retain-none f xs (rw e at h)))
  ]

  pub retain_all : (xs : List A) → retain (λ x. true) xs ≡ xs
  retain_all [] = refl
  retain_all (x ∷ xs) = ap (λ t. x ∷ t) (retain_all xs)
