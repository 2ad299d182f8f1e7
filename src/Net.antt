-- ===== src/Net.antt =====
-- collector/net_linux.cpp: network rates from two readings of /proc/net/dev. A file is `none` if it
-- cannot be opened; the static variables of the function are its state; the clock is an argument.
pub mod Rates
mod Tests
use system_monitoring_dashbo.Prelude.{
  ℕ, ◌+◌, ◌-◌, Bool, true, false, not, Option, none, some, List, [], ◌∷◌, if◌then◌else◌, ltb,
}
use system_monitoring_dashbo.Prelude.Text.{Text, codes, text_eq, split_at}
use system_monitoring_dashbo.Prelude.Dict.{Dict, lookup, emplace, text_key}
use system_monitoring_dashbo.Prelude.Double.{Double}
use system_monitoring_dashbo.Scan.{In, open_text, tokens, is_space, skip_space, extract_u64}
use system_monitoring_dashbo.Counter.{delta, seconds_between}

pub record InterfaceCounters : Type 0 where
  pub rx_bytes : ℕ
  pub rx_packets : ℕ
  pub rx_errs : ℕ
  pub rx_drop : ℕ
  pub tx_bytes : ℕ
  pub tx_packets : ℕ
  pub tx_errs : ℕ
  pub tx_drop : ℕ

abbrev pub NetSnapshot : Type 0
NetSnapshot = Dict Text InterfaceCounters

pub record InterfaceRates (W : Type 0) : Type 0 where
  pub rx_bytes_per_s : W
  pub tx_bytes_per_s : W

-- The white space at the end removed.
unfoldable pub trim_end : Text → Text
trim_end [] = []
trim_end (c ∷ s) =
    let rest = trim_end s in
    elim rest [ [] ↦ if is_space c then [] else c ∷ [] | d ∷ t ↦ c ∷ d ∷ t ]

unfoldable pub trim : Text → Text
unfolding skip_space trim_end
trim s = trim_end (skip_space s)

-- The numbers of a line: eight received, eight sent. `none` if one of them is malformed.
unfoldable pub read_counters : Text → Option InterfaceCounters
unfolding extract_u64
read_counters rest =
    let (r_bytes, i₁) = extract_u64 0 (open_text rest) in
    let (r_pkts, i₂) = extract_u64 0 i₁ in
    let (r_errs, i₃) = extract_u64 0 i₂ in
    let (r_drop, i₄) = extract_u64 0 i₃ in
    let (r_fifo, i₅) = extract_u64 0 i₄ in
    let (r_frame, i₆) = extract_u64 0 i₅ in
    let (r_comp, i₇) = extract_u64 0 i₆ in
    let (r_mcast, i₈) = extract_u64 0 i₇ in
    let (t_bytes, i₉) = extract_u64 0 i₈ in
    let (t_pkts, j₁) = extract_u64 0 i₉ in
    let (t_errs, j₂) = extract_u64 0 j₁ in
    let (t_drop, j₃) = extract_u64 0 j₂ in
    let (t_fifo, j₄) = extract_u64 0 j₃ in
    let (t_colls, j₅) = extract_u64 0 j₄ in
    let (t_carrier, j₆) = extract_u64 0 j₅ in
    let (t_comp, j₇) = extract_u64 0 j₆ in
    if j₇.good
    then some (record {
      rx_bytes = r_bytes;
      rx_packets = r_pkts;
      rx_errs = r_errs;
      rx_drop = r_drop;
      tx_bytes = t_bytes;
      tx_packets = t_pkts;
      tx_errs = t_errs;
      tx_drop = t_drop;
    })
    else none

unfoldable pub add_interface : Text → Option InterfaceCounters → NetSnapshot → NetSnapshot
unfolding emplace
add_interface iface none out = out
add_interface iface (some curr) out =
    if text_eq iface (codes "lo") then out else emplace iface curr out

-- One line: the name of the interface stands in front of the first colon.
unfoldable pub read_interface : Option (Text × Text) → NetSnapshot → NetSnapshot
unfolding trim read_counters add_interface
read_interface none out = out
read_interface (some (before, rest)) out = add_interface (trim before) (read_counters rest) out

unfoldable pub read_interfaces : List Text → NetSnapshot → NetSnapshot
unfolding read_interface
read_interfaces [] out = out
read_interfaces (line ∷ lines) out = read_interfaces lines (read_interface (split_at b':' line) out)

-- Without the two header lines.
abbrev pub skip_header : List Text → List Text
skip_header (_ ∷ _ ∷ lines) = lines
skip_header _ = []

unfoldable pub read_proc_net : Option Text → Option NetSnapshot
unfolding read_interfaces tokens
read_proc_net none = none
read_proc_net (some file) = some (read_interfaces (skip_header (tokens b'\n' file)) [])

-- The static variables of `get_net_stats`.
pub record NetState : Type 0 where
  pub prev : NetSnapshot
  pub initialized : Bool
  pub prev_time : ℕ

module _ {W : Type 0} ⦃d : Double W⦄ where
  unfoldable pub rates_of : W → InterfaceCounters → InterfaceCounters → InterfaceRates W
  rates_of dt_s cprev ccurr = record {
    rx_bytes_per_s = d.div (d.of_nat (delta cprev.rx_bytes ccurr.rx_bytes)) dt_s;
    tx_bytes_per_s = d.div (d.of_nat (delta cprev.tx_bytes ccurr.tx_bytes)) dt_s;
  }

  -- One interface of the loop over `curr`: one that the last reading lacks is skipped.
  unfoldable pub add_rate :
      W
      → Text
      → Option InterfaceCounters
      → InterfaceCounters
      → Dict Text (InterfaceRates W)
      → Dict Text (InterfaceRates W)
  unfolding rates_of
  add_rate dt_s iface none ccurr rest = rest
  add_rate dt_s iface (some cprev) ccurr rest = (iface, rates_of dt_s cprev ccurr) ∷ rest

  unfoldable pub net_rates : W → NetSnapshot → NetSnapshot → Dict Text (InterfaceRates W)
  unfolding add_rate lookup
  net_rates dt_s prev [] = []
  net_rates dt_s prev ((iface, ccurr) ∷ curr) =
      add_rate dt_s iface (lookup iface prev) ccurr (net_rates dt_s prev curr)

  -- What a call keeps of a reading, and the rates it puts out. The first call goes on to the
  -- calculation behind its block: `curr` has been moved from then, and holds `moved_from`.
  unfoldable pub net_step :
      NetSnapshot → NetSnapshot → ℕ → NetState → Dict Text (InterfaceRates W) × NetState
  unfolding net_rates seconds_between
  net_step moved_from curr time_now s =
      let now : NetSnapshot = if s.initialized then curr else moved_from in
      let prev : NetSnapshot = if s.initialized then s.prev else curr in
      let prev_time = if s.initialized then s.prev_time else time_now in
      let dt_s = seconds_between prev_time time_now in
      let kept : NetState = record { prev = now; initialized = true; prev_time = time_now } in
      if d.le dt_s (d.of_nat 0) then ([], kept) else (net_rates dt_s prev now, kept)

  -- The result, the rates and the static variables after a call.
  unfoldable pub net_stats_from :
      NetSnapshot
      → Option NetSnapshot
      → ℕ
      → Dict Text (InterfaceRates W)
      → NetState
      → Bool × Dict Text (InterfaceRates W) × NetState
  unfolding net_step
  net_stats_from moved_from none time_now out s = (false, out, s)
  net_stats_from moved_from (some curr) time_now out s =
      let (rates, kept) = net_step moved_from curr time_now s in (true, rates, kept)

  unfoldable pub get_net_stats :
      NetSnapshot
      → Option Text
      → ℕ
      → Dict Text (InterfaceRates W)
      → NetState
      → Bool × Dict Text (InterfaceRates W) × NetState
  unfolding net_stats_from read_proc_net
  get_net_stats moved_from file time_now out s =
      net_stats_from moved_from (read_proc_net file) time_now out s
