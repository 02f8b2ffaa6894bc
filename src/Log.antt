-- ===== src/Log.antt =====
-- The level of the log (`set_level` and `enabled` of crates/newt/src/log.rs). The level is state that the caller
-- holds; what a macro prints is left out.
use newt_rust.Common.{
  ℕ, ◌-◌, ◌≤◌, ◌≡◌, ◌&&◌, Bool, true, inl, inr, Bool-cases, leb, if◌then◌else◌, map, Text, codes,
  text_eq, arith,
}

-- INFO
abbrev pub initial_level : ℕ
initial_level = 2

-- `to_ascii_uppercase`
abbrev pub to_ascii_uppercase : Text → Text
to_ascii_uppercase s = map (λ c. if leb 97 c && leb c 122 then c - 32 else c) s

abbrev pub level_of : Text → ℕ
level_of name =
    if text_eq name (codes "DEBUG")
    then 1
    else if text_eq name (codes "INFO")
    then 2
    else if text_eq name (codes "WARN")
    then 3
    else if text_eq name (codes "ERROR")
    then 4
    else 2

-- the level that is stored
unfoldable pub set_level : Text → ℕ
set_level name = level_of (to_ascii_uppercase name)

-- by the level that is stored
unfoldable pub enabled : ℕ → ℕ → Bool
enabled level l = leb level l

level_of_bounds : (name : Text) → (1 ≤ level_of name) × (level_of name ≤ 4)
level_of_bounds name = elim (Bool-cases (text_eq name (codes "DEBUG"))) [
  | inl e ↦ rw e (omega arith, omega arith)
  | inr e ↦ rw e (elim (Bool-cases (text_eq name (codes "INFO"))) [
    | inl f ↦ rw f (omega arith, omega arith)
    | inr f ↦ rw f (elim (Bool-cases (text_eq name (codes "WARN"))) [
      | inl g ↦ rw g (omega arith, omega arith)
      | inr g ↦ rw g (elim (Bool-cases (text_eq name (codes "ERROR"))) [
        | inl i ↦ rw i (omega arith, omega arith)
        | inr i ↦ rw i (omega arith, omega arith)
      ])
    ])
  ])
]

-- Whatever the name of the level, errors are printed.
errors_enabled : (name : Text) → enabled (set_level name) 4 ≡ true
unfolding enabled set_level
errors_enabled name = let h = level_of_bounds (to_ascii_uppercase name) in ground (arith, h)
