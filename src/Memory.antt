-- ===== src/Memory.antt =====
-- collector/memory_linux.cpp: memory use from /proc/meminfo.
pub mod Use
mod Tests
use system_monitoring_dashbo.Prelude.{
  ℕ, ◌+◌, ◌-◌, ◌*◌, ◌%◌, ◌^◌, Bool, true, false, Option, none, some, List, [], ◌∷◌, if◌then◌else◌,
  ltb, ◌==◌,
}
use system_monitoring_dashbo.Prelude.Text.{Text, codes}
use system_monitoring_dashbo.Prelude.Dict.{Dict, lookup, insert, text_key}
use system_monitoring_dashbo.Scan.{In, open_text, tokens, extract_u64, extract_word}

pub record MemBytes : Type 0 where
  pub total_bytes : ℕ
  pub used_bytes : ℕ
  pub free_bytes : ℕ

-- `if (!key.empty() && key.back() == ':') key.pop_back();`
abbrev pub pop_colon : Text → Text
pop_colon [] = []
pop_colon (c ∷ []) = if c == b':' then [] else c ∷ []
pop_colon (c ∷ d ∷ key) = c ∷ pop_colon (d ∷ key)

-- One line: key, value and unit; a line that lacks one is skipped.
unfoldable pub read_entry : Text → Dict Text ℕ → Dict Text ℕ
unfolding extract_u64 extract_word insert
read_entry line kv =
    let (key, i₁) = extract_word [] (open_text line) in
    let (val_kb, i₂) = extract_u64 0 i₁ in
    let (unit, i₃) = extract_word [] i₂ in
    if i₃.good then insert (pop_colon key) (val_kb * 1024 % 2 ^ 64) kv else kv

unfoldable pub read_entries : List Text → Dict Text ℕ → Dict Text ℕ
unfolding read_entry
read_entries [] kv = kv
read_entries (line ∷ lines) kv = read_entries lines (read_entry line kv)

-- The table, or `none` if the file could not be opened.
unfoldable pub read_meminfo : Option Text → Option (Dict Text ℕ)
unfolding read_entries tokens
read_meminfo none = none
read_meminfo (some file) = some (read_entries (tokens b'\n' file) [])

-- `mi.count(key) ? mi[key] : 0`
unfoldable pub value_or_0 : Text → Dict Text ℕ → ℕ
unfolding lookup
value_or_0 key mi = elim (lookup key mi) [ none ↦ 0 | some v ↦ v ]

-- The estimate for older kernels: MemFree + Buffers + Cached - Shmem.
unfoldable pub estimate : Dict Text ℕ → ℕ
unfolding value_or_0
estimate mi =
    let memfree = value_or_0 (codes "MemFree") mi in
    let buffers = value_or_0 (codes "Buffers") mi in
    let cached = value_or_0 (codes "Cached") mi in
    let shmem = value_or_0 (codes "Shmem") mi in
    let avail = (memfree + buffers + cached) % 2 ^ 64 in
    if ltb shmem avail then avail - shmem else avail

-- MemAvailable, or the estimate without it.
unfoldable pub available : Dict Text ℕ → ℕ
unfolding lookup estimate
available mi = elim (lookup (codes "MemAvailable") mi) [ none ↦ estimate mi | some avail ↦ avail ]

-- The three values that are stored into `mb`.
unfoldable pub mem_bytes : ℕ → ℕ → MemBytes
mem_bytes total avail = record {
  total_bytes = total;
  used_bytes = if ltb avail total then total - avail else 0;
  free_bytes = avail;
}

unfoldable pub memory_from : Option (Dict Text ℕ) → MemBytes → Bool × MemBytes
unfolding lookup available mem_bytes
memory_from none mb = (false, mb)
memory_from (some mi) mb = elim (lookup (codes "MemTotal") mi) [
  | none ↦ (false, mb)
  | some total ↦ (true, mem_bytes total (available mi))
]

-- The result, and `mb` after the call.
unfoldable pub get_system_memory_bytes : Option Text → MemBytes → Bool × MemBytes
unfolding memory_from read_meminfo
get_system_memory_bytes file mb = memory_from (read_meminfo file) mb
