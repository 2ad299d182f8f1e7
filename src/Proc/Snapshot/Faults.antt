-- ===== src/Proc/Snapshot/Faults.antt =====
-- When `read_proc_snapshot` throws: one process is enough.
use system_monitoring_dashbo.Prelude.{
  ℕ, ◌≡◌, ◌≢◌, refl, sym, ap, true, none, some, List, [], ◌∷◌, if◌then◌else◌, Bool-cases,
  Option-cases, inl, inr,
}
use mathlib.Core.Path.{subst}
use system_monitoring_dashbo.Prelude.Int.{ℤ, eq_ℤ, eq_ℤ_iff}
use system_monitoring_dashbo.Prelude.Dict.{Dict, int_eq}
use system_monitoring_dashbo.Proc.{ProcSample}
use system_monitoring_dashbo.Proc.Stat.{Outcome, rejected, thrown, done, read_stat}
use system_monitoring_dashbo.Proc.Status.{read_first_cpu_line}
use system_monitoring_dashbo.Proc.Snapshot.{
  DirEntry, ProcDir, pid_of, add_process, add_entry, add_entries, finish, read_proc_snapshot,
}
use system_monitoring_dashbo.Proc.Snapshot.Inv.{names, lists}

module _ (dir : ProcDir) (pid : ℤ) (cut : read_stat pid (dir.files pid).stat ≡ thrown) where
  add_process-thrown :
      (k : ℤ) (table : Dict ℤ ProcSample)
      → eq_ℤ k pid ≡ true
      → add_process dir k (read_stat k (dir.files k).stat) table ≡ thrown
  add_process-thrown k table same =
      let same_pid = (eq_ℤ_iff k pid).0 same in
      let k_cut = subst (λ (j : ℤ). read_stat j (dir.files j).stat ≡ thrown) (sym same_pid) cut in
      ap (λ o. add_process dir k o table) k_cut

  add_entry-thrown :
      (e : DirEntry) (table : Dict ℤ ProcSample)
      → names pid e ≡ true
      → add_entry dir e table ≡ thrown
  unfolding add_entry
  add_entry-thrown e table named =
      elim (Option-cases (if e.considered then pid_of e.name else none)) [
        | inl skipped ↦ absurd (let h = rw (skipped, names) at named in cc)
        | inr (k, found) ↦
            let h = rw (found, names) at named in
            rw (found, add_entry) (add_process-thrown k table h)
      ]

  -- An entry is skipped or thrown at, never an answer for the whole directory.
  add_process-rejected :
      (k : ℤ) (o : Outcome ProcSample) (table : Dict ℤ ProcSample)
      → add_process dir k o table ≢ rejected
  add_process-rejected k rejected table e = cc
  add_process-rejected k thrown table e = cc
  add_process-rejected k (done s) table e = cc

  add_entry-rejected : (x : DirEntry) (table : Dict ℤ ProcSample) → add_entry dir x table ≢ rejected
  unfolding add_entry
  add_entry-rejected x table e =
      elim (Option-cases (if x.considered then pid_of x.name else none)) [
        | inl skipped ↦ let h = rw (skipped, add_entry) at e in cc
        | inr (k, found) ↦
            add_process-rejected k (read_stat k (dir.files k).stat) table
              (rw (found, add_entry) at e)
      ]

  add_entries-thrown :
      (entries : List DirEntry) (table : Dict ℤ ProcSample)
      → lists pid entries ≡ true
      → add_entries dir entries table ≡ thrown
  unfolding add_entries lists
  add_entries-thrown [] table h = absurd (cc)
  add_entries-thrown (x ∷ entries) table h =
      add (add_entry dir x table) refl (add_entries-thrown entries)
    where
      add :
          (o : Outcome (Dict ℤ ProcSample))
          → add_entry dir x table ≡ o
          → ((between : Dict ℤ ProcSample)
              → lists pid entries ≡ true
              → add_entries dir entries between ≡ thrown)
          → (elim o [ rejected ↦ rejected | thrown ↦ thrown | done t ↦ add_entries dir entries t ])
            ≡ thrown
      add rejected e rest = absurd (add_entry-rejected x table e)
      add thrown e rest = refl
      add (done between) e rest = elim (Bool-cases (names pid x)) [
        | inl named ↦ absurd (cc (e, add_entry-thrown x table named))
        | inr other ↦ rest between (rw other at h)
      ]

-- One process that the directory lists and whose stat file `read_stat` throws at makes the whole
-- round throw, whatever the other files hold, once /proc/stat and the directory can be read.
pub read_proc_snapshot-thrown :
    (dir : ProcDir) (total : ℕ) (entries : List DirEntry) (pid : ℤ)
    → read_first_cpu_line dir.stat ≡ some total
    → dir.entries ≡ some entries
    → lists pid entries ≡ true
    → read_stat pid (dir.files pid).stat ≡ thrown
    → read_proc_snapshot dir ≡ thrown
unfolding read_proc_snapshot
read_proc_snapshot-thrown dir total entries pid counted opened listed cut =
    rw (counted, opened, read_proc_snapshot)
      (ap (finish dir total) (add_entries-thrown dir pid cut entries [] listed))
