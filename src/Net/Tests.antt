-- ===== src/Net/Tests.antt =====
-- Concrete readings of /proc/net/dev.
use system_monitoring_dashbo.Prelude.{ℕ, ◌≡◌, refl, true, false, none, some, [], ◌∷◌, ◌++◌}
use system_monitoring_dashbo.Prelude.Text.{Text, codes}
use system_monitoring_dashbo.Prelude.Dict.{Dict, lookup, text_key}
use system_monitoring_dashbo.Prelude.Double.{whole_double}
use system_monitoring_dashbo.Net.{
  InterfaceCounters, InterfaceRates, NetSnapshot, NetState, get_net_stats, read_proc_net,
}
use system_monitoring_dashbo.Counter.{seconds_between}
use system_monitoring_dashbo.Net.Rates.{
  rate_for, rates, kept, lookup-get_net_stats, get_net_stats-second,
}

abbrev header : Text
header = codes "Inter-|\n face |\n"

abbrev at_first : Text
at_first =
    header
    ++ codes
        "    lo: 9 9 0 0 0 0 0 0 9 9 0 0 0 0 0 0\n  eth0: 5000 7 0 0 0 0 0 0 900 4 0 0 0 0 0 0\n"

abbrev later : Text
later =
    header
    ++ codes
        "    lo: 9 9 0 0 0 0 0 0 9 9 0 0 0 0 0 0\n  eth0: 9000 9 0 0 0 0 0 0 100 5 0 0 0 0 0 0\n"

abbrev counters : ℕ → ℕ → ℕ → ℕ → InterfaceCounters
counters rx rx_packets tx tx_packets = record {
  rx_bytes = rx;
  rx_packets = rx_packets;
  rx_errs = 0;
  rx_drop = 0;
  tx_bytes = tx;
  tx_packets = tx_packets;
  tx_errs = 0;
  tx_drop = 0;
}

abbrev reading₁ : NetSnapshot
reading₁ = (codes "eth0", counters 5000 7 900 4) ∷ []

abbrev reading₂ : NetSnapshot
reading₂ = (codes "eth0", counters 9000 9 100 5) ∷ []

abbrev reads₁ : read_proc_net (some at_first) ≡ some reading₁
unfolding read_proc_net
reads₁ = refl

abbrev reads₂ : read_proc_net (some later) ≡ some reading₂
unfolding read_proc_net
reads₂ = refl

abbrev no_rates : Dict Text (InterfaceRates ℕ)
no_rates = []

abbrev fresh : NetState
fresh = record { prev = []; initialized = false; prev_time = 0 }

abbrev settled : NetState
settled = record { prev = []; initialized = true; prev_time = 500 }

abbrev ahead : whole_double.le (seconds_between 1000 3000) (whole_double.of_nat 0) ≡ false
unfolding seconds_between
ahead = refl

abbrev absent : lookup {V = InterfaceCounters} (codes "eth0") [] ≡ none
unfolding lookup
absent = refl

lookup-get_net_stats_example :
    lookup (codes "eth0") (
      rates (
        get_net_stats []
          (some later)
          3000
          no_rates
          (kept (get_net_stats [] (some at_first) 1000 no_rates settled))))
    ≡ rate_for
        (seconds_between 1000 3000)
        (lookup (codes "eth0") reading₁)
        (lookup (codes "eth0") reading₂)
lookup-get_net_stats_example =
    lookup-get_net_stats [] [] (some at_first) (some later) 1000 3000 no_rates no_rates settled
      reading₁ reading₂ (codes "eth0") refl reads₁ reads₂ ahead

get_net_stats-second_example :
    lookup (codes "eth0") (
      rates (
        get_net_stats []
          (some later)
          3000
          no_rates
          (kept (get_net_stats [] (some at_first) 1000 no_rates fresh))))
    ≡ none
get_net_stats-second_example =
    get_net_stats-second [] [] (some at_first) (some later) 1000 3000 no_rates fresh reading₁
      reading₂ (codes "eth0") refl reads₁ reads₂ absent

rates_test :
    rate_for {W = ℕ}
      (seconds_between 1000 3000)
      (lookup (codes "eth0") reading₁)
      (lookup (codes "eth0") reading₂)
    ≡ some (record { rx_bytes_per_s = 2000; tx_bytes_per_s = 0 })
unfolding rate_for lookup seconds_between
rates_test = refl
