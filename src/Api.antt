-- ===== src/Api.antt =====
-- api/routes.cpp: the HTTP API over the store.
pub mod Number
pub mod Registry
pub mod Validate
pub mod Stored
pub mod Routes
pub mod Query
pub mod Sections
pub mod Bind
pub mod Export
mod Tests
use system_monitoring_dashbo.Prelude.{
  ℕ, ◌+◌, ◌-◌, ◌^◌, Bool, true, false, ◌&&◌, ◌||◌, not, Option, none, some, List, [], ◌∷◌, ◌++◌,
  map, if◌then◌else◌,
}
use system_monitoring_dashbo.Prelude.Int.{ℤ, pos, negsuc}
use system_monitoring_dashbo.Prelude.Text.{Text, codes, is_nil}
use system_monitoring_dashbo.Prelude.Dict.{Dict, lookup, has_key, text_key}
use system_monitoring_dashbo.Scan.{Scanned, no_digits, out_of_range, value, strto, show_ℤ}
use system_monitoring_dashbo.Prelude.Double.{Double}
use system_monitoring_dashbo.Json.{Json}
use system_monitoring_dashbo.Store.{Sample}
use mathlib.Core.List.{Permᴰ}

-- `std::numeric_limits<long long>::max()`
abbrev pub max_int64 : ℤ
max_int64 = pos (2 ^ 63 - 1)

-- `errno != 0 || end == start || *end != '\0'`
abbrev whole : Scanned → Option ℤ
whole no_digits = none
whole out_of_range = none
whole (value z rest) = if is_nil rest then some z else none

unfoldable pub parse_int64 : Text → Option ℤ
unfolding strto
parse_int64 candidate =
    if is_nil candidate then none else whole (strto (2 ^ 63) (2 ^ 63 - 1) candidate)

-- What the handlers take from outside: `cfg::HOST_LABEL`, and the order in which the standard
-- library iterates over a map of labels, which depends on its hash table.
pub record Env : Type 0 where
  pub host_label : Text
  pub labels_order : Dict Text Text → Dict Text Text

-- An iteration visits every entry once.
abbrev pub IsOrder : (Dict Text Text → Dict Text Text) → Type 0
IsOrder order = (labels : Dict Text Text) → Permᴰ (order labels) labels

-- `get_param_value` of the vendored server: empty for a parameter that is not there.
abbrev pub Request : Type 0
Request = Text → Text

-- What a handler sets of the vendored server's response.
pub record Response : Type 0 where
  pub status : ℕ
  pub content : Text
  pub content_type : Text
  pub headers : List (Text × Text)

-- What comes of a handler: its response, or `none` if an exception leaves it. The vendored server
-- answers the request itself then.
abbrev pub Reply : Type 0
Reply = Option Response

module _ {W J : Type 0} (j : Json W J) where
  -- `payload.dump()` may throw.
  unfoldable pub write_json_response : J → ℕ → Reply
  write_json_response payload status = elim (j.dump payload) [
    | none ↦ none
    | some content ↦ some (record {
      status = status;
      content = content;
      content_type = codes "application/json";
      headers = [];
    })
  ]

  unfoldable pub write_error_response : ℕ → Text → Reply
  unfolding write_json_response
  write_error_response status message =
      write_json_response
        (j.obj (
          (
            codes "error",
            j.obj ((codes "code", j.int (pos status)) ∷ (codes "message", j.str message) ∷ []),
          )
          ∷ []))
        status

  unfoldable pub labels_to_json : Dict Text Text → J
  labels_to_json labels = j.obj (map (λ label. (label.0, j.str label.1)) labels)

-- The rows of the CSV export.
unfoldable pub csv_rows : {W : Type 0} ⦃d : Double W⦄ → List (Sample W) → Text
unfolding show_ℤ
csv_rows [] = []
csv_rows ⦃d⦄ (sample ∷ samples) =
    show_ℤ sample.ts_ms ++ (b',' ∷ (d.show sample.value ++ (b'\n' ∷ csv_rows samples)))

unfoldable pub write_csv_response : {W : Type 0} ⦃d : Double W⦄ → List (Sample W) → Text → Response
unfolding csv_rows
write_csv_response samples filename = record {
  status = 200;
  content = codes "timestamp,value" ++ (b'\n' ∷ csv_rows samples);
  content_type = codes "text/csv";
  headers =
      (codes "Content-Disposition", codes "attachment; filename=\"" ++ (filename ++ codes "\""))
      ∷ [];
}
