-- ===== src/Main/Live/Names.antt =====
-- Stores whose tables hold only series that the sampler names.
use system_monitoring_dashbo.Prelude.{
  ℕ, ◌≡◌, refl, true, false, List, [], ◌∷◌, All, Bool-cases, Option-cases, inl, inr, arith,
}
use mathlib.Core.Path.{subst}
use system_monitoring_dashbo.Prelude.Text.{Text, text_eq, text_eq→eq}
use system_monitoring_dashbo.Prelude.Dict.{
  Dict, lookup, emplace, modify, lookup-emplace, lookup-modify, text_key,
}
use system_monitoring_dashbo.Prelude.Double.{Double}
use system_monitoring_dashbo.Ring
use system_monitoring_dashbo.Ring.{Ring}
use system_monitoring_dashbo.Store.{Store, blank, blank_vec, put_snapshot, new}
use system_monitoring_dashbo.Store.History.{Write, scalar, vector, snapshot, metadata}
use system_monitoring_dashbo.Store.Section.{
  Section, find_scalar, push_scalar, find_vector, push_vector, set_snapshot, set_metadata, perform,
  sections,
}
use system_monitoring_dashbo.Store.Section.Same.{IsPresent}
use system_monitoring_dashbo.Store.Section.Reads.{IsApart}
use system_monitoring_dashbo.Sampler.Named.{IsSelector, IsNamed}
use system_monitoring_dashbo.Sampler.Kinds.{IsSelector-apart}
use system_monitoring_dashbo.Config.{keep_seconds, sample_period_s}

module _ {ℓ} {A : Type ℓ} where
  emplace-IsPresent_back :
      (k metric : Text) (v : Ring A) (table : Dict Text (Ring A)) (P : Text → Type 0)
      → P k
      → (IsPresent metric table → P metric)
      → IsPresent metric (emplace k v table)
      → P metric
  emplace-IsPresent_back k metric v table P made before (r, e) =
      elim (Bool-cases (text_eq k metric)) [
        | inl same ↦ subst P (text_eq→eq k metric same) made
        | inr apart ↦ before (r, ground (arith, lookup-emplace k metric v table))
      ]

  modify-IsPresent_back :
      (k metric : Text) (f : Ring A → Ring A) (table : Dict Text (Ring A))
      → IsPresent metric (modify k f table)
      → IsPresent metric table
  modify-IsPresent_back k metric f table (r, e) = elim (Option-cases (lookup metric table)) [
    | inl absent ↦ absurd (ground (arith, lookup-modify k metric f table))
    | inr there ↦ there
  ]

-- Every series of the store is one that the sampler names, in the table of its kind, and the metadata
-- are those that were cached.
pub record IsKept {W J : Type 0} (host : Text) (cached : Dict Text J) (s : Store W J) : Type 0 where
  pub scalars : (metric : Text) → IsPresent metric s.series → IsSelector false host metric
  pub vectors : (metric : Text) → IsPresent metric s.vec_series → IsSelector true host metric
  pub cached_only : s.metadata ≡ cached

-- What a section makes is so named.
abbrev pub IsNamedSection : {W J : Type 0} → Text → Section W J → Type 0
IsNamedSection host (find_scalar metric) = IsSelector false host metric
IsNamedSection host (push_scalar metric ts_ms value) = Unit
IsNamedSection host (find_vector metric) = IsSelector true host metric
IsNamedSection host (push_vector metric ts_ms vals) = Unit
IsNamedSection host (set_snapshot key j) = Unit
IsNamedSection host (set_metadata key value) = ⊥

module _ {W J : Type 0} (host : Text) where
  pub IsKept-IsApart : (cached : Dict Text J) (s : Store W J) → IsKept host cached s → IsApart s
  IsKept-IsApart cached s kept metric there = elim (Option-cases (lookup metric s.vec_series)) [
    | inl absent ↦ absent
    | inr both ↦
        absurd (IsSelector-apart host metric (kept.scalars metric there) (kept.vectors metric both))
  ]

  pub sections-IsNamed :
      (calls : List (Write W J))
      → All (IsNamed host) calls
      → All (IsNamedSection host) (sections calls)
  unfolding sections
  sections-IsNamed [] h = tt
  sections-IsNamed (scalar metric ts_ms value ∷ calls) (named, h) =
      (named, (tt, sections-IsNamed calls h))
  sections-IsNamed (vector metric ts_ms vals ∷ calls) (named, h) =
      (named, (tt, sections-IsNamed calls h))
  sections-IsNamed (snapshot key j ∷ calls) (named, h) = (tt, sections-IsNamed calls h)
  sections-IsNamed (metadata key value ∷ calls) (named, h) = absurd named

  module _ ⦃d : Double W⦄ where
    pub perform-IsKept :
        (cached : Dict Text J) (s : Store W J) (op : Section W J)
        → IsNamedSection host op
        → IsKept host cached s
        → IsKept host cached (perform s op)
    unfolding perform put_snapshot
    perform-IsKept cached s (find_scalar k) named kept = record {
      scalars = λ metric there.
          emplace-IsPresent_back k metric (Ring.new blank s.per_metric_capacity) s.series
            (IsSelector false host) named (kept.scalars metric) there;
      vectors = kept.vectors;
      cached_only = kept.cached_only;
    }
    perform-IsKept cached s (push_scalar k ts_ms value) named kept = record {
      scalars =
          λ metric there. kept.scalars metric (modify-IsPresent_back k metric _ s.series there);
      vectors = kept.vectors;
      cached_only = kept.cached_only;
    }
    perform-IsKept cached s (find_vector k) named kept = record {
      scalars = kept.scalars;
      vectors = λ metric there.
          emplace-IsPresent_back k metric (Ring.new blank_vec s.per_metric_capacity) s.vec_series
            (IsSelector true host) named (kept.vectors metric) there;
      cached_only = kept.cached_only;
    }
    perform-IsKept cached s (push_vector k ts_ms vals) named kept = record {
      scalars = kept.scalars;
      vectors =
          λ metric there. kept.vectors metric (modify-IsPresent_back k metric _ s.vec_series there);
      cached_only = kept.cached_only;
    }
    perform-IsKept cached s (set_snapshot k j) named kept = record {
      scalars = kept.scalars;
      vectors = kept.vectors;
      cached_only = kept.cached_only;
    }
    perform-IsKept cached s (set_metadata k j) named kept = absurd named

  pub new-IsKept :
      (keep_seconds sample_period_s : ℕ)
      → IsKept {W = W} {J = J} host [] (new keep_seconds sample_period_s)
  unfolding new lookup
  new-IsKept keep_seconds sample_period_s = record {
    scalars = λ metric there. absurd (cc);
    vectors = λ metric there. absurd (cc);
    cached_only = refl;
  }
