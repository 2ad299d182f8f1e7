-- ===== src/Json/Plain.antt =====
-- A concrete JSON value type for the tests: its own text.
use system_monitoring_dashbo.Prelude.{
  some, ℕ, Bool, true, false, List, [], ◌∷◌, ◌++◌, if◌then◌else◌,
}
use system_monitoring_dashbo.Prelude.Text.{Text, codes}
use system_monitoring_dashbo.Scan.{show_ℤ, show_ℕ}
use system_monitoring_dashbo.Json.{Json}

abbrev items : List Text → Text
items [] = []
items (x ∷ xs) = x ++ (b',' ∷ items xs)

abbrev fields : List (Text × Text) → Text
fields [] = []
fields ((k, v) ∷ ps) = k ++ (b':' ∷ (v ++ (b',' ∷ fields ps)))

abbrev is_empty_text : Text → Bool
is_empty_text [] = true
is_empty_text (c ∷ []) = true
is_empty_text (c ∷ d ∷ s) = false

abbrev is_null_text : Text → Bool
is_null_text [] = true
is_null_text (c ∷ s) = false

abbrev pub plain_json : Json ℕ Text
plain_json = record {
  null = [];
  bool = λ b. if b then codes "true" else codes "false";
  int = show_ℤ;
  num = show_ℕ;
  str = λ s. b'"' ∷ s;
  arr = λ js. b'[' ∷ items js;
  obj = λ ps. b'{' ∷ fields ps;
  is_null = is_null_text;
  is_empty = is_empty_text;
  dump = some;
}
