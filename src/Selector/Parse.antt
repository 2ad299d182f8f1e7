-- ===== src/Selector/Parse.antt =====
-- Reading a name gives back the metric and the labels that it was built from.
use system_monitoring_dashbo.Prelude.{
  ◌≡◌, ◌≢◌, refl, sym, ap, ◌∙◌, List, [], ◌∷◌, ◌++◌, map, append_assoc, append-nil, arith, All,
  Bool, none, some, true, false,
}
use system_monitoring_dashbo.Prelude.Text.{
  Text, Free, Free-append, split_at, split_at-none, split_at_first, text_eq, text_eq_iff,
}
use system_monitoring_dashbo.Prelude.Dict.{Dict, lookup, insert, text_key}
use mathlib.Core.Path.{subst}
use system_monitoring_dashbo.Scan.{tokens}
use system_monitoring_dashbo.Scan.Lines.{tokens_first, tokens_last}
use system_monitoring_dashbo.Selector.{
  Parts, write_labels, build_selector, read_labels, read_inside, parse_selector,
}

-- A key holds no `,`, `=` and `}`, a value no `,` and `}`.
pub record IsClean (label : Text × Text) : Type 0 where
  pub key_comma : Free b',' label.0
  pub key_equals : Free b'=' label.0
  pub key_brace : Free b'}' label.0
  pub value_comma : Free b',' label.1
  pub value_brace : Free b'}' label.1

-- No key stands twice.
abbrev pub IsDistinct : Dict Text Text → Type 0
IsDistinct [] = Unit
IsDistinct ((k, v) ∷ labels) = (lookup k labels ≡ none) × IsDistinct labels

abbrev pair_text : Text × Text → Text
pair_text (k, v) = k ++ b'=' ∷ v

pair_text-Free : (label : Text × Text) → IsClean label → Free b',' (pair_text label)
pair_text-Free (k, v) c = Free-append b',' k (b'=' ∷ v) c.key_comma ((omega arith), c.value_comma)

tokens-pair_text :
    (label : Text × Text) → IsClean label → tokens b',' (pair_text label) ≡ pair_text label ∷ []
tokens-pair_text ([], v) c = tokens_last b',' b'=' v (pair_text-Free ([], v) c)
tokens-pair_text (x ∷ k, v) c = tokens_last b',' x (k ++ b'=' ∷ v) (pair_text-Free (x ∷ k, v) c)

tokens-write_labels :
    (labels : List (Text × Text))
    → All IsClean labels
    → tokens b',' (write_labels true labels) ≡ map pair_text labels
unfolding write_labels tokens
tokens-write_labels [] h = refl
tokens-write_labels ((k, v) ∷ []) (c, h) =
    ap (λ u. tokens b',' (k ++ b'=' ∷ u)) (append-nil v) ∙ tokens-pair_text (k, v) c
tokens-write_labels ((k, v) ∷ (k', v') ∷ labels) (c, h) =
    let later = write_labels true ((k', v') ∷ labels) in
    ap (tokens b',') (sym (append_assoc k (b'=' ∷ v) (b',' ∷ later)))
    ∙ tokens_first b',' (pair_text (k, v)) later (pair_text-Free (k, v) c)
    ∙ ap (λ ts. pair_text (k, v) ∷ ts) (tokens-write_labels ((k', v') ∷ labels) h)

write_labels-Free :
    (first : Bool) (labels : List (Text × Text))
    → All IsClean labels
    → Free b'}' (write_labels first labels)
unfolding write_labels
write_labels-Free first [] h = tt
write_labels-Free true ((k, v) ∷ labels) (c, h) =
    Free-append b'}' k (b'=' ∷ (v ++ write_labels false labels)) c.key_brace (
      omega arith,
      Free-append b'}' v (write_labels false labels) c.value_brace
          (write_labels-Free false labels h),
    )
write_labels-Free false ((k, v) ∷ labels) (c, h) = (
  omega arith,
  Free-append b'}' k (b'=' ∷ (v ++ write_labels false labels)) c.key_brace (
    omega arith,
    Free-append b'}' v (write_labels false labels) c.value_brace (write_labels-Free false labels h),
  ),
)

insert_new : (k v : Text) (m : Dict Text Text) → lookup k m ≡ none → insert k v m ≡ m ++ (k, v) ∷ []
unfolding lookup insert
insert_new k v [] h = refl
insert_new k v ((j, w) ∷ m) h = ground (arith, insert_new k v m)

lookup-append_ne :
    (j k v : Text) (m n : Dict Text Text) → lookup j (m ++ (k, v) ∷ n) ≡ none → text_eq k j ≡ false
unfolding lookup
lookup-append_ne j k v [] n h = ground arith
lookup-append_ne j k v ((i, w) ∷ m) n h = ground (arith, lookup-append_ne j k v m n)

lookup-append_none :
    (k : Text) (m : Dict Text Text) (v : Text) (n : Dict Text Text)
    → IsDistinct (m ++ (k, v) ∷ n)
    → lookup k m ≡ none
unfolding lookup
lookup-append_none k [] v n h = refl
lookup-append_none k ((j, w) ∷ m) v n (h, hs) = ground (
  arith,
  lookup-append_none k m v n hs,
  lookup-append_ne j k v m n h,
  text_eq_iff j k,
  text_eq_iff k j,
)

read_labels-pair_text :
    (labels m : Dict Text Text)
    → All IsClean labels
    → IsDistinct (m ++ labels)
    → read_labels (map pair_text labels) m ≡ m ++ labels
unfolding read_labels
read_labels-pair_text [] m c h = sym (append-nil m)
read_labels-pair_text ((k, v) ∷ labels) m (c, cs) h =
    let split = split_at_first b'=' k v c.key_equals in
    let added = insert_new k v m (lookup-append_none k m v labels h) in
    let distinct = subst IsDistinct (sym (append_assoc m ((k, v) ∷ []) labels)) h in
    rw (split, read_labels)
      (ap (read_labels (map pair_text labels)) added
        ∙ read_labels-pair_text labels (m ++ (k, v) ∷ []) cs distinct
        ∙ append_assoc m ((k, v) ∷ []) labels)

abbrev parts : Text → Dict Text Text → Parts
parts metric labels = record { metric = metric; labels = labels }

parse_selector-braces :
    (selector metric rest inside behind : Text)
    → split_at b'{' selector ≡ some (metric, rest)
    → split_at b'}' rest ≡ some (inside, behind)
    → parse_selector selector ≡ parts metric (read_labels (tokens b',' inside) [])
unfolding parse_selector
parse_selector-braces selector metric rest inside behind opened closed =
    rw (opened, parse_selector) (ap (λ o. parts metric (read_inside o)) closed)

parse_selector-build_selector_parts :
    (metric : Text) (labels : Dict Text Text)
    → Free b'{' metric
    → All IsClean labels
    → IsDistinct labels
    → parse_selector (build_selector metric labels) ≡ record { metric = metric; labels = labels }
unfolding parse_selector build_selector
parse_selector-build_selector_parts metric [] f c d =
    rw (split_at-none b'{' metric f, parse_selector)
parse_selector-build_selector_parts metric (label ∷ labels) f c d =
    let inside = write_labels true (label ∷ labels) in
    parse_selector-braces (build_selector metric (label ∷ labels)) metric (inside ++ (b'}' ∷ []))
      inside [] (split_at_first b'{' metric (inside ++ (b'}' ∷ [])) f)
      (split_at_first b'}' inside [] (write_labels-Free true (label ∷ labels) c))
    ∙ ap (λ ts. parts metric (read_labels ts [])) (tokens-write_labels (label ∷ labels) c)
    ∙ ap (parts metric) (read_labels-pair_text (label ∷ labels) [] c d)

-- `parse_selector` gives back the metric that `build_selector` wrote, and every label with the value
-- that it wrote, and no other label, if the metric holds no `{`, the labels are clean and no key
-- stands twice.
pub parse_selector-build_selector :
    (metric : Text) (labels : Dict Text Text)
    → Free b'{' metric
    → All IsClean labels
    → IsDistinct labels
    → let parsed = parse_selector (build_selector metric labels) in
      (parsed.metric ≡ metric)
      × ((label_key : Text) → lookup label_key parsed.labels ≡ lookup label_key labels)
parse_selector-build_selector metric labels f c d =
    let read = parse_selector-build_selector_parts metric labels f c d in
    (ap Parts.metric read, λ label_key. ap (λ (p : Parts). lookup label_key p.labels) read)

-- The name of a series depends on the order in which its labels are iterated: two lists of clean
-- labels that differ, also in their order alone, make two names.
pub build_selector-ne :
    (metric : Text) (labels others : Dict Text Text)
    → Free b'{' metric
    → All IsClean labels × IsDistinct labels
    → All IsClean others × IsDistinct others
    → labels ≢ others
    → build_selector metric labels ≢ build_selector metric others
build_selector-ne metric labels others f (c, d) (c', d') apart e = apart (
    ap (λ (p : Parts). p.labels)
      (sym (parse_selector-build_selector_parts metric labels f c d)
        ∙ ap parse_selector e
        ∙ parse_selector-build_selector_parts metric others f c' d'))
