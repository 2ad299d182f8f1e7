-- ===== src/Net/Rates.antt =====
-- The rates that `get_net_stats` puts out.
use system_monitoring_dashbo.Prelude.{
  ℕ, ◌-◌, ◌≡◌, refl, sym, ap, ◌∙◌, Bool, true, false, Option, none, some, [], ◌∷◌, inl, inr,
  Bool-cases,
}
use system_monitoring_dashbo.Prelude.Text.{Text, text_eq, text_eq→eq, text_eq_self}
use system_monitoring_dashbo.Prelude.Dict.{Dict, lookup, text_key}
use system_monitoring_dashbo.Prelude.Double.{Double}
use system_monitoring_dashbo.Counter.{delta-sub, seconds_between}
use system_monitoring_dashbo.Net.{
  InterfaceCounters, InterfaceRates, NetSnapshot, NetState, rates_of, add_rate, net_rates, net_step,
  net_stats_from, read_proc_net, get_net_stats,
}

module _ {W : Type 0} ⦃d : Double W⦄ where
  -- The bytes per second between two values of a counter; one that ran backwards counts as 0.
  abbrev per_second : W → ℕ → ℕ → W
  per_second dt_s before now = d.div (d.of_nat (now - before)) dt_s

  -- The rate of an interface from its counters in two readings; without one of them, none.
  unfoldable pub rate_for :
      W → Option InterfaceCounters → Option InterfaceCounters → Option (InterfaceRates W)
  rate_for dt_s (some cprev) (some ccurr) = some (record {
    rx_bytes_per_s = per_second dt_s cprev.rx_bytes ccurr.rx_bytes;
    tx_bytes_per_s = per_second dt_s cprev.tx_bytes ccurr.tx_bytes;
  })
  rate_for dt_s none curr = none
  rate_for dt_s (some cprev) none = none

  rates_of-rate_for :
      (dt_s : W) (cprev ccurr : InterfaceCounters)
      → some (rates_of dt_s cprev ccurr) ≡ rate_for dt_s (some cprev) (some ccurr)
  unfolding rates_of rate_for
  rates_of-rate_for dt_s cprev ccurr =
      rw (delta-sub cprev.rx_bytes ccurr.rx_bytes, delta-sub cprev.tx_bytes ccurr.tx_bytes) refl

  rate_for-none : (dt_s : W) (p : Option InterfaceCounters) → rate_for dt_s p none ≡ none
  unfolding rate_for
  rate_for-none dt_s none = refl
  rate_for-none dt_s (some cprev) = refl

  lookup-add_rate_self :
      (dt_s : W) (iface : Text) (p o : Option InterfaceCounters) (ccurr : InterfaceCounters)
      (rest : Dict Text (InterfaceRates W))
      → (lookup iface rest ≡ rate_for dt_s p o)
      → lookup iface (add_rate dt_s iface p ccurr rest) ≡ rate_for dt_s p (some ccurr)
  unfolding add_rate lookup rate_for
  lookup-add_rate_self dt_s iface none o ccurr rest h = h
  lookup-add_rate_self dt_s iface (some cprev) o ccurr rest h =
      rw (text_eq_self iface) (rates_of-rate_for dt_s cprev ccurr)

  lookup-add_rate_other :
      (dt_s : W) (i iface : Text) (p : Option InterfaceCounters) (ccurr : InterfaceCounters)
      (rest : Dict Text (InterfaceRates W))
      → (text_eq i iface ≡ false)
      → lookup iface (add_rate dt_s i p ccurr rest) ≡ lookup iface rest
  unfolding add_rate lookup
  lookup-add_rate_other dt_s i iface none ccurr rest h = refl
  lookup-add_rate_other dt_s i iface (some cprev) ccurr rest h = rw h refl

  pub lookup-net_rates :
      (dt_s : W) (iface : Text) (prev curr : NetSnapshot)
      → lookup iface (net_rates dt_s prev curr)
        ≡ rate_for dt_s (lookup iface prev) (lookup iface curr)
  unfolding net_rates lookup
  lookup-net_rates dt_s iface prev [] = sym (rate_for-none dt_s (lookup iface prev))
  lookup-net_rates dt_s iface prev ((i, ccurr) ∷ curr) =
      let rest = lookup-net_rates dt_s iface prev curr in
      elim (Bool-cases (text_eq i iface)) [
        | inl same ↦
            rw (same, text_eq→eq i iface same)
              (lookup-add_rate_self dt_s iface (lookup iface prev) (lookup iface curr) ccurr
                (net_rates dt_s prev curr) rest)
        | inr other ↦ rw other (
            lookup-add_rate_other dt_s i iface (lookup i prev) ccurr (net_rates dt_s prev curr)
              other
            ∙ rest)
      ]

  -- The rates of a call.
  abbrev pub rates : (Bool × Dict Text (InterfaceRates W) × NetState) → Dict Text (InterfaceRates W)
  rates result = result.1

  -- The static variables after a call.
  abbrev pub kept : (Bool × Dict Text (InterfaceRates W) × NetState) → NetState
  kept result = result.2

  net_step-rates :
      (moved_from curr : NetSnapshot) (time_now : ℕ) (s : NetState) (iface : Text)
      → (s.initialized ≡ true)
      → (d.le (seconds_between s.prev_time time_now) (d.of_nat 0) ≡ false)
      → lookup iface (net_step moved_from curr time_now s).0
        ≡ rate_for (seconds_between s.prev_time time_now) (lookup iface s.prev) (lookup iface curr)
  unfolding net_step
  net_step-rates moved_from curr time_now s iface old ahead =
      rw (old, ahead) (lookup-net_rates (seconds_between s.prev_time time_now) iface s.prev curr)

  -- A call behind the first one keeps its reading and its time.
  old_kept :
      (moved_from curr : NetSnapshot) (time_now : ℕ) (out : Dict Text (InterfaceRates W))
      (s : NetState)
      → (s.initialized ≡ true)
      → kept (net_stats_from moved_from (some curr) time_now out s)
        ≡ record { prev = curr; initialized = true; prev_time = time_now }
  unfolding net_step net_stats_from
  old_kept moved_from curr time_now out s old =
      elim (Bool-cases (d.le (seconds_between s.prev_time time_now) (d.of_nat 0))) [
        | inl still ↦ rw (old, still) refl
        | inr ahead ↦ rw (old, ahead) refl
      ]

  -- Of two calls behind the first one of all, with a positive time between them, the second puts
  -- out a rate for an interface exactly if both calls read it in /proc/net/dev: the bytes that its
  -- counters grew by in each direction, 0 for one that ran backwards, over that time.
  pub lookup-get_net_stats :
      (moved_from again : NetSnapshot) (first second : Option Text) (t₁ t₂ : ℕ)
      (out other : Dict Text (InterfaceRates W)) (s : NetState) (curr₁ curr₂ : NetSnapshot)
      (iface : Text)
      → (s.initialized ≡ true)
      → (read_proc_net first ≡ some curr₁)
      → (read_proc_net second ≡ some curr₂)
      → (d.le (seconds_between t₁ t₂) (d.of_nat 0) ≡ false)
      → lookup iface (
          rates
            (get_net_stats again second t₂ other (kept (get_net_stats moved_from first t₁ out s))))
        ≡ rate_for (seconds_between t₁ t₂) (lookup iface curr₁) (lookup iface curr₂)
  unfolding get_net_stats net_stats_from
  lookup-get_net_stats moved_from again first second t₁ t₂ out other s curr₁ curr₂ iface old found₁
        found₂ ahead =
      rw (found₁, found₂, old_kept moved_from curr₁ t₁ out s old)
        (net_step-rates again curr₂ t₂ (record { prev = curr₁; initialized = true; prev_time = t₁ })
          iface refl ahead)

  net_step-none :
      (moved_from curr : NetSnapshot) (time_now : ℕ) (s : NetState) (iface : Text)
      → (s.initialized ≡ true)
      → (lookup iface s.prev ≡ none)
      → lookup iface (net_step {W = W} moved_from curr time_now s).0 ≡ none
  unfolding net_step rate_for
  net_step-none moved_from curr time_now s iface old lost =
      let dt_s = seconds_between s.prev_time time_now in
      let given : lookup iface (net_rates dt_s s.prev curr) ≡ none =
        lookup-net_rates dt_s iface s.prev curr
        ∙ ap (λ p. rate_for dt_s p (lookup iface curr)) lost in
      elim (Bool-cases (d.le dt_s (d.of_nat 0))) [
        | inl still ↦ rw (old, still) refl
        | inr ahead ↦ rw (old, ahead) given
      ]

  first_kept :
      (moved_from curr : NetSnapshot) (time_now : ℕ) (out : Dict Text (InterfaceRates W))
      (s : NetState)
      → (s.initialized ≡ false)
      → ((kept (net_stats_from moved_from (some curr) time_now out s)).prev ≡ moved_from)
        × ((kept (net_stats_from moved_from (some curr) time_now out s)).initialized ≡ true)
  unfolding net_step net_stats_from
  first_kept moved_from curr time_now out s fresh =
      elim (Bool-cases (d.le (seconds_between time_now time_now) (d.of_nat 0))) [
        | inl still ↦ rw (fresh, still) (refl, refl)
        | inr ahead ↦ rw (fresh, ahead) (refl, refl)
      ]

  -- The first call does not keep its reading: its baseline is what a table holds that has been
  -- moved from. So an interface has no rate in the second call, unless that table has it.
  pub get_net_stats-second :
      (moved_from again : NetSnapshot) (first second : Option Text) (t₁ t₂ : ℕ)
      (out : Dict Text (InterfaceRates W)) (s : NetState) (curr₁ curr₂ : NetSnapshot) (iface : Text)
      → (s.initialized ≡ false)
      → (read_proc_net first ≡ some curr₁)
      → (read_proc_net second ≡ some curr₂)
      → (lookup iface moved_from ≡ none)
      → lookup iface (
          rates
            (get_net_stats again second t₂ out (kept (get_net_stats moved_from first t₁ out s))))
        ≡ none
  unfolding get_net_stats net_stats_from
  get_net_stats-second moved_from again first second t₁ t₂ out s curr₁ curr₂ iface fresh found₁
        found₂ lost =
      let (baseline, old) = first_kept moved_from curr₁ t₁ out s fresh in
      rw (found₁, found₂)
        (net_step-none again curr₂ t₂ (kept (net_stats_from moved_from (some curr₁) t₁ out s)) iface
          old (ap (lookup iface) baseline ∙ lost))
