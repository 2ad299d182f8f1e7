-- ===== src/Selector/Filters.antt =====
-- What `parse_label_filters` accepts.
use system_monitoring_dashbo.Prelude.{
  ◌≡◌, refl, List, [], ◌∷◌, arith, All, false, not, ◌&&◌, none, Bool-cases, Option-cases, inl, inr,
}
use system_monitoring_dashbo.Prelude.Text.{
  Text, Free, is_nil, split_at, split_at-Free, split_at-Free_behind, text_eq, text_eq_iff,
}
use system_monitoring_dashbo.Prelude.Dict.{Dict, lookup, emplace, text_key}
use system_monitoring_dashbo.Scan.{tokens}
use system_monitoring_dashbo.Scan.Lines.{tokens-Free}
use system_monitoring_dashbo.Selector.{read_filters, parse_label_filters}
use system_monitoring_dashbo.Selector.Parse.{IsDistinct}

-- A filter: neither part is empty, the key holds no `:` and neither holds a `,`.
pub record IsFilter (label : Text × Text) : Type 0 where
  pub key_some : is_nil label.0 ≡ false
  pub value_some : is_nil label.1 ≡ false
  pub key_colon : Free b':' label.0
  pub key_comma : Free b',' label.0
  pub value_comma : Free b',' label.1

abbrev IsFilters : Dict Text Text → Type 0
IsFilters labels = All IsFilter labels × IsDistinct labels

emplace-All :
    (k v : Text) (labels : Dict Text Text)
    → IsFilter (k, v)
    → All IsFilter labels
    → All IsFilter (emplace k v labels)
unfolding emplace
emplace-All k v [] f h = (f, tt)
emplace-All k v ((j, w) ∷ labels) f (h, hs) = ground (arith, emplace-All k v labels f hs)

lookup-emplace_ne :
    (k v j : Text) (labels : Dict Text Text)
    → text_eq k j ≡ false
    → lookup j labels ≡ none
    → lookup j (emplace k v labels) ≡ none
unfolding lookup emplace
lookup-emplace_ne k v j [] n h = ground arith
lookup-emplace_ne k v j ((i, w) ∷ labels) n h = ground (arith, lookup-emplace_ne k v j labels n)

emplace-IsDistinct :
    (k v : Text) (labels : Dict Text Text) → IsDistinct labels → IsDistinct (emplace k v labels)
unfolding emplace lookup
emplace-IsDistinct k v [] d = (refl, tt)
emplace-IsDistinct k v ((j, w) ∷ labels) (d, ds) = ground (
  arith,
  emplace-IsDistinct k v labels ds,
  lookup-emplace_ne k v j labels,
  text_eq_iff j k,
  text_eq_iff k j,
)

emplace-IsFilters :
    (k v : Text) (labels : Dict Text Text)
    → IsFilter (k, v)
    → IsFilters labels
    → IsFilters (emplace k v labels)
emplace-IsFilters k v labels f (h, d) =
    (emplace-All k v labels f h, emplace-IsDistinct k v labels d)

read_filters-IsFilters :
    (ts : List Text) (labels : Dict Text Text)
    → All (Free b',') ts
    → IsFilters labels
    → IsFilters (read_filters ts labels)
unfolding read_filters
read_filters-IsFilters [] labels c h = h
read_filters-IsFilters (token ∷ ts) labels (c, cs) h = elim (Option-cases (split_at b':' token)) [
  | inl none_found ↦ rw (none_found, read_filters) (read_filters-IsFilters ts labels cs h)
  | inr ((key, value), found) ↦
      let (key_colon, _) = split_at-Free b':' token key value found in
      let (key_comma, value_comma) = split_at-Free_behind b':' b',' token key value c found in
      rw (found, read_filters)
        (elim (Bool-cases (not (is_nil key) && not (is_nil value))) [
          | inl full ↦
              let f : IsFilter (key, value) = record {
                key_some = ground arith;
                value_some = ground arith;
                key_colon = key_colon;
                key_comma = key_comma;
                value_comma = value_comma;
              } in
              rw full (
                read_filters-IsFilters ts (emplace key value labels) cs
                  (emplace-IsFilters key value labels f h))
          | inr lacking ↦ rw lacking (read_filters-IsFilters ts labels cs h)
        ])
]

-- Whatever the text, every label that `parse_label_filters` returns has a non-empty key without
-- `:` and a non-empty value, neither holds a `,`, and no key stands twice.
pub parse_label_filters-IsFilters :
    (encoded : Text)
    → All IsFilter (parse_label_filters encoded) × IsDistinct (parse_label_filters encoded)
unfolding parse_label_filters
parse_label_filters-IsFilters [] = (tt, tt)
parse_label_filters-IsFilters (c ∷ s) =
    read_filters-IsFilters (tokens b',' (c ∷ s)) [] (tokens-Free b',' (c ∷ s)) (tt, tt)

-- A request without labels.
pub parse_label_filters-nil : parse_label_filters [] ≡ []
unfolding parse_label_filters
parse_label_filters-nil = refl
