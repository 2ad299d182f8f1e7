-- ===== src/Config.antt =====
-- include/config.h: the fixed parameters of the store, and the host's label.
use system_monitoring_dashbo.Prelude.{ℕ, Option, none, some, if◌then◌else◌}
use system_monitoring_dashbo.Prelude.Text.{Text, codes, is_nil}

abbrev pub keep_seconds : ℕ
keep_seconds = 7200

abbrev pub sample_period_s : ℕ
sample_period_s = 1

-- The name of the host, or "unknown".
abbrev pub host_or_unknown : Option Text → Text
host_or_unknown none = codes "unknown"
host_or_unknown (some name) = name

-- The arguments are HOST_LABEL, `none` if it is not set, and what `gethostname` stores, `none` if it
-- fails.
unfoldable pub resolve_host_name : Option Text → Option Text → Text
resolve_host_name none hostname = host_or_unknown hostname
resolve_host_name (some env) hostname = if is_nil env then host_or_unknown hostname else env
