-- ===== src/Common/Json.antt =====
-- What the program uses of serde_json and of `f64`, which are not part of it: an abstract type of
-- values with its builders.
use newt_rust.Common.{ℕ, Option, Text, List, Bool}
use newt_rust.Common.Int.{ℤ}

pub record Json : Type 1 where
  pub Value : Type 0
  -- `f64`, with the constant `0.0`
  pub Float : Type 0
  pub float_zero : Float
  -- what `json!` builds
  pub bool : Bool → Value
  pub string : Text → Value
  pub int : ℤ → Value
  pub float : Float → Value
  pub array : List Value → Value
  pub object : List (Text × Value) → Value

-- The reading of values (`value[key]`, `get`, `as_str`, `as_u64`, `as_array`).
pub record Reader (V : Type 0) : Type 0 where
  pub index : V → Text → V
  pub get : V → Text → Option V
  pub as_str : V → Option Text
  pub as_u64 : V → Option ℕ
  pub as_array : V → Option (List V)
