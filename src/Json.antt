-- ===== src/Json.antt =====
-- include/third_party/json.hpp is vendored: its values and the calls that the program makes of it
-- are the fields of this interface. `obj` is a literal `json{{"key", value}, ...}` or an object
-- filled by `object[key] = value`, `arr` an array filled by `push_back`.
pub mod Plain
use system_monitoring_dashbo.Prelude.{Option, Bool, true, false, List, [], ◌∷◌, ◌≡◌}
use system_monitoring_dashbo.Prelude.Int.{ℤ}
use system_monitoring_dashbo.Prelude.Text.{Text}

pub record Json (W J : Type 0) : Type 0 where
  pub null : J
  pub bool : Bool → J
  pub int : ℤ → J
  pub num : W → J
  pub str : Text → J
  pub arr : List J → J
  pub obj : List (Text × J) → J
  pub is_null : J → Bool
  -- `empty()`: null, an empty array or an empty object
  pub is_empty : J → Bool
  -- `none`: it throws, which it does at a text that is not UTF-8
  pub dump : J → Option Text
