-- ===== src/Api/Validate.antt =====
-- When a request's metric and labels are accepted.
use system_monitoring_dashbo.Prelude.{
  ◌≡◌, ◌≢◌, ◌↔◌, refl, sym, ◌∙◌, Bool, true, none, some, List, [], ◌∷◌, arith, All, all, Bool-cases,
  Option-cases, inl, inr,
}
use mathlib.Core.Path.{subst}
use mathlib.Core.List.{Permᴰ}
use mathlib.Core.List
use system_monitoring_dashbo.Prelude.Text.{Text, text_eq, text_eq_iff}
use system_monitoring_dashbo.Prelude.Dict.{Dict, lookup, text_key}
use system_monitoring_dashbo.Api.{IsOrder}
use system_monitoring_dashbo.Api.Registry.{
  MetricDesc, metric_registry, permitted_label_universe, member, refuse_label,
  validate_metric_and_labels,
}

-- The metric is registered, and its description allows every label.
abbrev pub IsAllowed : Text → Dict Text Text → Type 0
IsAllowed metric_name labels =
    (found : MetricDesc) × (lookup metric_name metric_registry ≡ some found)
    × All (λ label. member label.0 found.labels ≡ true) labels

-- Every label that the registry allows is in the label universe.
abbrev all_permitted : List Text → Bool
all_permitted = all (λ k. member k permitted_label_universe)

member_permitted :
    (k : Text) (ks : List Text)
    → all_permitted ks ≡ true
    → member k ks ≡ true
    → member k permitted_label_universe ≡ true
unfolding member
member_permitted k [] h m = cc
member_permitted k (j ∷ ks) h m = elim (Bool-cases (text_eq j k)) [
  | inl same ↦
      let e : j ≡ k = (text_eq_iff j k).0 same in
      let first : member j permitted_label_universe ≡ true = ground arith in
      subst (λ x. member x permitted_label_universe ≡ true) e first
  | inr other ↦ member_permitted k ks (ground arith) (ground arith)
]

lookup_permitted :
    (name : Text) (registry : Dict Text MetricDesc) (found : MetricDesc)
    → all (λ entry. all_permitted entry.1.labels) registry ≡ true
    → lookup name registry ≡ some found
    → all_permitted found.labels ≡ true
unfolding lookup
lookup_permitted name [] found h e = cc
lookup_permitted name ((n, d) ∷ registry) found h e = elim (Bool-cases (text_eq n name)) [
  | inl same ↦
      let this : d ≡ found = ground arith in
      subst (λ (x : MetricDesc). all_permitted x.labels ≡ true) this (ground arith)
  | inr other ↦ lookup_permitted name registry found (ground arith) (ground arith)
]

registry_permitted : all (λ entry. all_permitted entry.1.labels) metric_registry ≡ true
unfolding member metric_registry permitted_label_universe
registry_permitted = refl

refuse_label-none :
    (metric_name : Text) (allowed : List Text) (labels : Dict Text Text)
    → all_permitted allowed ≡ true
    → (refuse_label metric_name allowed labels ≡ none)
      ↔ All (λ label. member label.0 allowed ≡ true) labels
unfolding refuse_label
refuse_label-none metric_name allowed [] p = (λ _. tt, λ _. refl)
refuse_label-none metric_name allowed ((k, v) ∷ labels) p =
    ground (arith, refuse_label-none metric_name allowed labels p, member_permitted k allowed p)

All-perm : (P : Text × Text → Type 0) {xs ys : Dict Text Text} → Permᴰ xs ys → All P xs → All P ys
All-perm P Permᴰ.nil h = tt
All-perm P (Permᴰ.cons e p) (h, hs) = (subst P e h, All-perm P p hs)
All-perm P (Permᴰ.swap e f) (h, (k, hs)) = (subst P f k, (subst P e h, hs))
All-perm P (Permᴰ.trans p q) h = All-perm P q (All-perm P p h)

validate_absent :
    (metric_name : Text) (labels : Dict Text Text)
    → lookup metric_name metric_registry ≡ none
    → validate_metric_and_labels metric_name labels ≢ none
unfolding validate_metric_and_labels
validate_absent metric_name labels absent h =
    let e = rw (absent, validate_metric_and_labels) at h in cc e

validate_found :
    (metric_name : Text) (labels : Dict Text Text) (found : MetricDesc)
    → lookup metric_name metric_registry ≡ some found
    → validate_metric_and_labels metric_name labels ≡ refuse_label metric_name found.labels labels
unfolding validate_metric_and_labels
validate_found metric_name labels found e = rw (e, validate_metric_and_labels)

found_once : (a b : MetricDesc) → some a ≡ some b → a ≡ b
found_once a b h = cc

registered :
    (order : Dict Text Text → Dict Text Text) (metric_name : Text) (labels : Dict Text Text)
    (found : MetricDesc)
    → IsOrder order
    → lookup metric_name metric_registry ≡ some found
    → (refuse_label metric_name found.labels (order labels) ≡ none) ↔ IsAllowed metric_name labels
registered order metric_name labels found o e =
    let permitted = lookup_permitted metric_name metric_registry found registry_permitted e in
    let (sound, complete) = refuse_label-none metric_name found.labels (order labels) permitted in
    let P : MetricDesc → Text × Text → Type 0 = λ d label. member label.0 d.labels ≡ true in
    (
      λ h. (found, e, All-perm (P found) (o labels) (sound h)),
      λ (found', e', h). complete (
          All-perm (P found) (List.Permᴰ.symm (o labels)) (
            subst (λ (d : MetricDesc). All (P d) labels) (found_once found' found (sym e' ∙ e)) h)),
    )

-- In whatever order the labels are iterated, the request is accepted exactly when the metric is
-- registered and its description allows every label: the second check of the code, against the
-- label universe, refuses nothing more.
pub validate_iff :
    (order : Dict Text Text → Dict Text Text) (metric_name : Text) (labels : Dict Text Text)
    → IsOrder order
    → (validate_metric_and_labels metric_name (order labels) ≡ none) ↔ IsAllowed metric_name labels
validate_iff order metric_name labels o = elim (Option-cases (lookup metric_name metric_registry)) [
  | inl absent ↦ (
    λ h. absurd (validate_absent metric_name (order labels) absent h),
    λ (found, e, _). absurd (cc),
  )
  | inr (found, e) ↦
      let same = validate_found metric_name (order labels) found e in
      let (sound, complete) = registered order metric_name labels found o e in
      (λ h. sound (sym same ∙ h), λ a. same ∙ complete a)
]
