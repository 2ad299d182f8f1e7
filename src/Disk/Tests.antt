-- ===== src/Disk/Tests.antt =====
-- Concrete readings of /proc/diskstats.
use system_monitoring_dashbo.Prelude.{ℕ, ◌≡◌, refl, true, false, some, [], ◌∷◌}
use system_monitoring_dashbo.Prelude.Text.{Text, codes}
use system_monitoring_dashbo.Prelude.Dict.{Dict}
use system_monitoring_dashbo.Prelude.Double.{whole_double}
use system_monitoring_dashbo.Counter.{delta, seconds_between}
use system_monitoring_dashbo.Disk.{
  Row, DiskState, read_diskstats, disk_values, disk_deltas, aggregate, disk_rates, get_disk_io,
  is_whole_device,
}
use system_monitoring_dashbo.Disk.Baseline.{output, kept, get_disk_io-second}

whole_sda : is_whole_device (codes "sda") ≡ true
unfolding is_whole_device
whole_sda = refl

abbrev at_first : Text
at_first = codes "   8  0 sda 10 0 100 0 5 0 40 0 0 0 0\n   8  1 sda1 9 0 90 0 5 0 40 0 0 0 0\n"

abbrev later : Text
later = codes "   8  0 sda 20 0 300 0 9 0 80 0 0 0 0\n   8  1 sda1 19 0 290 0 9 0 80 0 0 0 0\n"

abbrev row : Text → ℕ → ℕ → Text × Row
row name rd wr = (name, record { name = name; sectors_read = rd; sectors_written = wr })

abbrev rows₁ : Dict Text Row
rows₁ = row (codes "sda") 100 40 ∷ row (codes "sda1") 90 40 ∷ []

abbrev rows₂ : Dict Text Row
rows₂ = row (codes "sda") 300 80 ∷ row (codes "sda1") 290 80 ∷ []

reads₁ : read_diskstats (some at_first) ≡ some rows₁
unfolding read_diskstats
reads₁ = refl

reads₂ : read_diskstats (some later) ≡ some rows₂
unfolding read_diskstats
reads₂ = refl

ahead : whole_double.le (seconds_between 1000 3000) (whole_double.of_nat 0) ≡ false
unfolding seconds_between
ahead = refl

abbrev fresh : DiskState
fresh = record { prev_values = []; initialized = false; prev_time = 0 }

get_disk_io-second_example :
    output {W = ℕ} (
      get_disk_io
        (some later)
        3000
        (kept (get_disk_io ⦃d = whole_double⦄ (some at_first) 1000 fresh)))
    ≡ disk_rates
        (seconds_between 1000 3000)
        (aggregate (disk_deltas (disk_values rows₁ []) (disk_values rows₂ []) []) [])
get_disk_io-second_example =
    get_disk_io-second ⦃d = whole_double⦄ (some at_first) (some later) 1000 3000 fresh rows₁ rows₂
      reads₁ reads₂ ahead

rates_test :
    disk_rates ⦃d = whole_double⦄ 2
      (aggregate (disk_deltas (disk_values rows₁ []) (disk_values rows₂ []) []) [])
    ≡ record { dev_name = codes "sda"; bytes_read_per_s = 51200; bytes_written_per_s = 10240 } ∷ []
unfolding disk_rates aggregate disk_deltas disk_values delta
rates_test = refl
