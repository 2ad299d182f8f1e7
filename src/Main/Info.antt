-- ===== src/Main/Info.antt =====
-- store/system_info.cpp and `cache_system_metadata` of main.cpp: what the dashboard shows of the
-- machine, read once when the server starts.
use system_monitoring_dashbo.Prelude.{Bool, true, false, Option, none, some, [], ◌∷◌}
use system_monitoring_dashbo.Prelude.Int.{ℤ, pos, to_signed}
use system_monitoring_dashbo.Prelude.Text.{Text, codes}
use system_monitoring_dashbo.Json.{Json}
use system_monitoring_dashbo.Memory.{MemBytes, get_system_memory_bytes}
use system_monitoring_dashbo.Store.{Store, put_metadata}

pub record SystemInfo : Type 0 where
  pub cpu_cores : ℤ
  pub mem_total_bytes : ℤ
  pub hostname : Text
  pub os_name : Text
  pub kernel_version : Text

-- What the operating system answers.
pub record Machine : Type 0 where
  -- `sysconf(_SC_NPROCESSORS_ONLN)`, a `long`
  pub processors_online : ℤ
  pub meminfo : Option Text
  -- what stands in the buffer after `gethostname`
  pub hostname : Text
  -- `sysname` and `release` of `uname`, `none` if it fails
  pub uname : Option (Text × Text)

abbrev pub total_of : Bool × MemBytes → ℤ
total_of (false, mb) = pos 0
total_of (true, mb) = to_signed 64 (pos mb.total_bytes)

abbrev pub utsname_of : Option (Text × Text) → Text × Text
utsname_of none = ([], [])
utsname_of (some u) = u

unfoldable pub collect_system_info : Machine → SystemInfo
unfolding to_signed get_system_memory_bytes
collect_system_info m =
    let no_bytes : MemBytes = record { total_bytes = 0; used_bytes = 0; free_bytes = 0 } in
    let (sysname, release) = utsname_of m.uname in
    record {
      cpu_cores = to_signed 32 m.processors_online;
      mem_total_bytes = total_of (get_system_memory_bytes m.meminfo no_bytes);
      hostname = m.hostname;
      os_name = sysname;
      kernel_version = release;
    }

module _ {W J : Type 0} (j : Json W J) where
  unfoldable pub system_json : SystemInfo → J
  system_json info = j.obj (
      (codes "cpu_cores", j.int info.cpu_cores)
      ∷ (codes "mem_total_bytes", j.int info.mem_total_bytes)
      ∷ (codes "hostname", j.str info.hostname)
      ∷ (codes "os_name", j.str info.os_name)
      ∷ (codes "kernel_version", j.str info.kernel_version)
      ∷ [])

  unfoldable pub cache_system_metadata : Machine → Store W J → Store W J
  unfolding system_json
  cache_system_metadata m store =
      put_metadata store (codes "system") (system_json (collect_system_info m))
