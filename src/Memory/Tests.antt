-- ===== src/Memory/Tests.antt =====
-- A concrete /proc/meminfo.
use system_monitoring_dashbo.Prelude.{◌+◌, max, ◌≡◌, refl, true, some}
use system_monitoring_dashbo.Prelude.Text.{Text, codes}
use system_monitoring_dashbo.Memory.{MemBytes, get_system_memory_bytes}
use system_monitoring_dashbo.Memory.Use.{entry, get_system_memory_bytes_sum}

abbrev blank : MemBytes
blank = record { total_bytes = 0; used_bytes = 0; free_bytes = 0 }

abbrev meminfo : Text
meminfo = codes "MemTotal:  10 kB\nBroken\nMemAvailable: 4 kB\n"

abbrev reads : (get_system_memory_bytes (some meminfo) blank).0 ≡ true
unfolding get_system_memory_bytes
reads = refl

used_test : ((get_system_memory_bytes (some meminfo) blank).1).used_bytes ≡ 6144
unfolding get_system_memory_bytes
used_test = refl

get_system_memory_bytes_sum_example :
    (entry (codes "MemTotal") (some meminfo)
      ≡ some ((get_system_memory_bytes (some meminfo) blank).1).total_bytes)
    × (((get_system_memory_bytes (some meminfo) blank).1).used_bytes
          + ((get_system_memory_bytes (some meminfo) blank).1).free_bytes
        ≡ max
            ((get_system_memory_bytes (some meminfo) blank).1).total_bytes
            ((get_system_memory_bytes (some meminfo) blank).1).free_bytes)
get_system_memory_bytes_sum_example = get_system_memory_bytes_sum (some meminfo) blank reads
