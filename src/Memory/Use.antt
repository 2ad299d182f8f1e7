-- ===== src/Memory/Use.antt =====
-- What `get_system_memory_bytes` reports.
use system_monitoring_dashbo.Prelude.{
  ℕ, ◌+◌, max, ◌≡◌, refl, true, Option, none, some, arith, Option-cases, inl, inr,
}
use system_monitoring_dashbo.Prelude.Text.{Text, codes}
use system_monitoring_dashbo.Prelude.Dict.{Dict, lookup, text_key}
use system_monitoring_dashbo.Memory.{
  MemBytes, read_meminfo, available, mem_bytes, memory_from, get_system_memory_bytes,
}

-- The value of a key in the table of a file.
abbrev pub entry : Text → Option Text → Option ℕ
entry key file = elim (read_meminfo file) [ none ↦ none | some mi ↦ lookup key mi ]

-- Used and free make up the total, unless more is free than there is.
mem_bytes-sum :
    (total avail : ℕ)
    → (mem_bytes total avail).used_bytes + (mem_bytes total avail).free_bytes ≡ max total avail
unfolding mem_bytes
mem_bytes-sum total avail = ground arith

memory_from_lem :
    (table : Option (Dict Text ℕ)) (mb : MemBytes)
    → ((memory_from table mb).0 ≡ true)
    → (elim table [ none ↦ none | some mi ↦ lookup (codes "MemTotal") mi ]
        ≡ some ((memory_from table mb).1).total_bytes)
      × (((memory_from table mb).1).used_bytes + ((memory_from table mb).1).free_bytes
          ≡ max ((memory_from table mb).1).total_bytes ((memory_from table mb).1).free_bytes)
unfolding memory_from mem_bytes
memory_from_lem none mb h = absurd (cc)
memory_from_lem (some mi) mb h = elim (Option-cases (lookup (codes "MemTotal") mi)) [
  | inl lost ↦ absurd (let h' = rw (lost, memory_from) at h in cc)
  | inr (total, found) ↦ rw (found, memory_from) (refl, mem_bytes-sum total (available mi))
]

-- If the call returns true, the file has the entry MemTotal with the total reported, and used and
-- free memory add up to the total, or to the free memory if that is larger.
pub get_system_memory_bytes_sum :
    (file : Option Text) (mb : MemBytes)
    → ((get_system_memory_bytes file mb).0 ≡ true)
    → (entry (codes "MemTotal") file ≡ some ((get_system_memory_bytes file mb).1).total_bytes)
      × (((get_system_memory_bytes file mb).1).used_bytes
            + ((get_system_memory_bytes file mb).1).free_bytes
          ≡ max
              ((get_system_memory_bytes file mb).1).total_bytes
              ((get_system_memory_bytes file mb).1).free_bytes)
unfolding get_system_memory_bytes
get_system_memory_bytes_sum file mb h = memory_from_lem (read_meminfo file) mb h
