-- ===== src/Common/Handles.antt =====
-- `HashMap` with the handles of sockets as its keys, in the order of the insertions, and the laws of `insert`.
use newt_rust.Common.{
  Bool, true, false, List, [], ◌∷◌, Option, none, some, ◌≡◌, refl, ◌∙◌, any, if◌then◌else◌,
  Bool-cases, inl, inr,
}

module _ {H B : Type 0} (same : H → H → Bool) where
  -- `contains_key`
  abbrev pub has : H → List (H × B) → Bool
  has h entries = any (λ e. same e.0 h) entries

  abbrev pub insert : H → B → List (H × B) → List (H × B)
  insert h b [] = (h, b) ∷ []
  insert h b ((k, c) ∷ entries) = if same k h then (k, b) ∷ entries else (k, c) ∷ insert h b entries

  -- `get`
  abbrev pub lookup : H → List (H × B) → Option B
  lookup h [] = none
  lookup h ((k, c) ∷ entries) = if same k h then some c else lookup h entries

  module _ (same-refl : (h : H) → same h h ≡ true)
      (same→eq : (h k : H) → same h k ≡ true → h ≡ k) where
    pub lookup-insert_self :
        (h : H) (b : B) (entries : List (H × B)) → lookup h (insert h b entries) ≡ some b
    lookup-insert_self h b [] = rw (same-refl h) refl
    lookup-insert_self h b ((k, c) ∷ entries) = elim (Bool-cases (same k h)) [
      | inl e ↦ rw (e, e) refl
      | inr e ↦ rw (e, e) (lookup-insert_self h b entries)
    ]

    pub lookup-insert_other :
        (h k : H) (b : B) (entries : List (H × B))
        → same h k ≡ false
        → lookup k (insert h b entries) ≡ lookup k entries
    lookup-insert_other h k b [] ne = rw ne refl
    lookup-insert_other h k b ((j, c) ∷ entries) ne = elim (Bool-cases (same j h)) [
      | inl e ↦
          let other : same j k ≡ false = (λ i. same (same→eq j h e i) k) ∙ ne in rw (e, other) refl
      | inr e ↦ rw e (elim (Bool-cases (same j k)) [
        | inl f ↦ rw f refl
        | inr f ↦ rw f (lookup-insert_other h k b entries ne)
      ])
    ]

    -- Two handles, one of them a key and the other not, are not the same.
    pub ne_of-has :
        (h k : H) (entries : List (H × B))
        → has h entries ≡ false
        → has k entries ≡ true
        → same h k ≡ false
    ne_of-has h k entries absent present = elim (Bool-cases (same h k)) [
      | inl e ↦ let both : has h entries ≡ has k entries = λ i. has (same→eq h k e i) entries in cc
      | inr e ↦ e
    ]
