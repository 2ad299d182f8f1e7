-- ===== src/Sampler/Kinds.antt =====
-- No name is one of a scalar series and one of a vector series of the sampler.
use system_monitoring_dashbo.Prelude.{
  ◌≡◌, refl, sym, ap, ◌∙◌, Bool, true, false, Option, some, List, [], ◌∷◌, arith, ℕ, ◌==◌, not, all,
  Bool-cases, inl, inr,
}
use mathlib.Core.Path.{subst}
use system_monitoring_dashbo.Prelude.Text.{
  Text, codes, Free, split_at, split_at_first, text_eq, text_eq_iff,
}
use system_monitoring_dashbo.Prelude.Dict.{Dict, lookup, text_key}
use system_monitoring_dashbo.Selector.{metric_with_labels}
use system_monitoring_dashbo.Api.Registry.{MetricDesc, metric_registry}
use system_monitoring_dashbo.Sampler.Named.{IsSelector, is_vector_metric}

abbrev lacks : ℕ → Text → Bool
lacks c s = all (λ x. not (x == c)) s

lacks-Free : (c : ℕ) (s : Text) → lacks c s ≡ true → Free c s
lacks-Free c [] h = tt
lacks-Free c (x ∷ s) h = (λ e. ground arith, lacks-Free c s (ground arith))

lookup-lacks :
    (metric : Text) (registry : Dict Text MetricDesc) (found : MetricDesc)
    → all (λ entry. lacks b'{' entry.0) registry ≡ true
    → lookup metric registry ≡ some found
    → lacks b'{' metric ≡ true
unfolding lookup
lookup-lacks metric [] found h e = absurd (cc)
lookup-lacks metric ((name, desc) ∷ registry) found h e = elim (Bool-cases (text_eq name metric)) [
  | inl same ↦ subst (λ t. lacks b'{' t ≡ true) ((text_eq_iff name metric).0 same) (ground arith)
  | inr other ↦ lookup-lacks metric registry found (ground arith) (ground arith)
]

-- No registered metric has a brace in its name.
registry-lacks : all (λ entry. lacks b'{' entry.0) metric_registry ≡ true
unfolding metric_registry
registry-lacks = refl

-- The metric stands before the brace.
split_at-metric_with_labels :
    (metric : Text) (labels : List (Text × Text)) (found : MetricDesc)
    → lookup metric metric_registry ≡ some found
    → (rest : Text) × (split_at b'{' (metric_with_labels metric labels) ≡ some (metric, rest))
unfolding metric_with_labels
split_at-metric_with_labels metric labels found e = (
  _,
  split_at_first b'{' metric _
      (lacks-Free b'{' metric (lookup-lacks metric metric_registry found registry-lacks e)),
)

part_same :
    (m rest m' rest' : Text)
    → ◌≡◌ {A = Option (Text × Text)} (some (m, rest)) (some (m', rest'))
    → m ≡ m'
part_same m rest m' rest' e = cc

true_not_false : ¬ (true ≡ false)
true_not_false e = cc

pub IsSelector-apart : (host name : Text) → IsSelector false host name → ¬ IsSelector true host name
IsSelector-apart host name (m, ls, (f, e, _), kind, named) (m', ls', (f', e', _), kind', named') =
    let (rest, first) = split_at-metric_with_labels m ((codes "host", host) ∷ ls) f e in
    let (rest', first') = split_at-metric_with_labels m' ((codes "host", host) ∷ ls') f' e' in
    let same : m ≡ m' =
      part_same m rest m' rest' (sym first ∙ ap (split_at b'{') (sym named ∙ named') ∙ first') in
    true_not_false (sym kind' ∙ ap is_vector_metric (sym same) ∙ kind)
