-- ===== src/Proc/Snapshot/Inv.antt =====
-- What a snapshot holds: each process that the directory lists, as its files say.
use system_monitoring_dashbo.Prelude.{
  ℕ, ◌≡◌, refl, sym, ap, ◌∙◌, Bool, true, false, ◌||◌, Option, none, some, List, [], ◌∷◌,
  if◌then◌else◌, Bool-cases, Option-cases, inl, inr,
}
use system_monitoring_dashbo.Prelude.Int.{ℤ, eq_ℤ, eq_ℤ_iff}
use system_monitoring_dashbo.Prelude.Dict.{Dict, lookup, emplace, lookup-emplace, or_else, int_eq}
use system_monitoring_dashbo.Proc.{ProcSample, ProcSnapshot}
use system_monitoring_dashbo.Proc.Stat.{Outcome, rejected, thrown, done, read_stat, read_cmdline}
use system_monitoring_dashbo.Proc.Status.{read_first_cpu_line, read_status, rss_kb_from_proc}
use system_monitoring_dashbo.Proc.Snapshot.{
  DirEntry, ProcDir, pid_of, add_process, add_entry, add_entries, finish, read_dir,
  read_proc_snapshot,
}

-- What the readers make of the files of a process, from what its stat file gives.
abbrev pub filled : ProcDir → ℤ → ProcSample → ProcSample
filled dir pid s = record (read_status dir.unset (dir.files pid).status s) {
  rss_kb = rss_kb_from_proc dir.page_size (dir.files pid).statm (dir.files pid).status_rss;
  cmdline = read_cmdline (dir.files pid).cmdline;
}

-- What the files of a process say, if its stat file can be read.
abbrev pub sample_from : ProcDir → ℤ → Outcome ProcSample → Option ProcSample
sample_from dir pid rejected = none
sample_from dir pid thrown = none
sample_from dir pid (done s) = some (filled dir pid s)

abbrev pub sample_at : ProcDir → ℤ → Option ProcSample
sample_at dir pid = sample_from dir pid (read_stat pid (dir.files pid).stat)

-- The entry stands for the process.
abbrev pub names : ℤ → DirEntry → Bool
names pid e = elim (if e.considered then pid_of e.name else none) [
  | none ↦ false
  | some k ↦ eq_ℤ k pid
]

unfoldable pub lists : ℤ → List DirEntry → Bool
lists pid [] = false
lists pid (e ∷ entries) = names pid e || lists pid entries

-- The table keeps what it held, and takes the sample where the test says so.
abbrev kept_or : Option ProcSample → Bool → Option ProcSample → Option ProcSample
kept_or (some s) b o = some s
kept_or none b o = if b then o else none

done-value : {A : Type 0} (a b : A) → done a ≡ done b → a ≡ b
done-value a b e = ap (λ (o : Outcome _). elim o [ rejected ↦ a | thrown ↦ a | done x ↦ x ]) e

kept_or-none : (o : Option ProcSample) (b : Bool) → kept_or o b none ≡ o
kept_or-none none true = refl
kept_or-none none false = refl
kept_or-none (some s) b = refl

kept_or-false : (o o' : Option ProcSample) → kept_or o false o' ≡ o
kept_or-false none o' = refl
kept_or-false (some s) o' = refl

kept_or-twice :
    (o x : Option ProcSample) (b c : Bool) → kept_or (kept_or o b x) c x ≡ kept_or o (b || c) x
kept_or-twice none none true c = kept_or-none none c
kept_or-twice none (some s) true c = refl
kept_or-twice none x false c = refl
kept_or-twice (some s) x b c = refl

kept_or-emplace :
    (o : Option ProcSample) (s : ProcSample) (b : Bool)
    → (if b then some (or_else o s) else o) ≡ kept_or o b (some s)
kept_or-emplace none s true = refl
kept_or-emplace none s false = refl
kept_or-emplace (some w) s true = refl
kept_or-emplace (some w) s false = refl

module _ (dir : ProcDir) where
  -- The sample of the process that the test finds.
  same_sample :
      (k pid : ℤ) (outcome : Outcome ProcSample)
      → read_stat pid (dir.files pid).stat ≡ outcome
      → (o : Option ProcSample)
      → kept_or o (eq_ℤ pid k) (sample_from dir pid outcome)
        ≡ kept_or o (eq_ℤ pid k) (sample_at dir k)
  same_sample k pid outcome stat o = elim (Bool-cases (eq_ℤ pid k)) [
    | inl same ↦
        let found : sample_from dir pid outcome ≡ sample_at dir k =
          ap (sample_from dir pid) (sym stat) ∙ ap (sample_at dir) ((eq_ℤ_iff pid k).0 same) in
        ap (kept_or o (eq_ℤ pid k)) found
    | inr other ↦ rw other (kept_or-false o _ ∙ sym (kept_or-false o _))
  ]

  lookup-add_process :
      (k pid : ℤ) (outcome : Outcome ProcSample) (before table : Dict ℤ ProcSample)
      → read_stat pid (dir.files pid).stat ≡ outcome
      → add_process dir pid outcome before ≡ done table
      → lookup k table ≡ kept_or (lookup k before) (eq_ℤ pid k) (sample_at dir k)
  lookup-add_process k pid rejected before table stat e =
      ap (lookup k) (sym (done-value before table e))
      ∙ sym (kept_or-none (lookup k before) (eq_ℤ pid k))
      ∙ same_sample k pid rejected stat (lookup k before)
  lookup-add_process k pid thrown before table stat e = absurd (cc)
  lookup-add_process k pid (done s) before table stat e =
      ap (lookup k) (sym (done-value (emplace pid (filled dir pid s) before) table e))
      ∙ lookup-emplace pid k (filled dir pid s) before
      ∙ kept_or-emplace (lookup k before) (filled dir pid s) (eq_ℤ pid k)
      ∙ same_sample k pid (done s) stat (lookup k before)

  lookup-add_entry :
      (k : ℤ) (e : DirEntry) (before table : Dict ℤ ProcSample)
      → add_entry dir e before ≡ done table
      → lookup k table ≡ kept_or (lookup k before) (names k e) (sample_at dir k)
  unfolding add_entry
  lookup-add_entry k e before table h =
      elim (Option-cases (if e.considered then pid_of e.name else none)) [
        | inl skipped ↦
            let h' = rw (skipped, add_entry) at h in
            rw (skipped, names)
              (ap (lookup k) (sym (done-value before table h'))
                ∙ sym (kept_or-false (lookup k before) _))
        | inr (pid, found) ↦
            let h' = rw (found, add_entry) at h in
            rw (found, names)
              (lookup-add_process k pid (read_stat pid (dir.files pid).stat) before table refl h')
      ]

  lookup-add_entries :
      (k : ℤ) (entries : List DirEntry) (before table : Dict ℤ ProcSample)
      → add_entries dir entries before ≡ done table
      → lookup k table ≡ kept_or (lookup k before) (lists k entries) (sample_at dir k)
  unfolding add_entries lists
  lookup-add_entries k [] before table h =
      ap (lookup k) (sym (done-value before table h)) ∙ sym (kept_or-false (lookup k before) _)
  lookup-add_entries k (e ∷ entries) before table h =
      add (add_entry dir e before) refl h (λ between. lookup-add_entries k entries between table)
    where
      add :
          (o : Outcome (Dict ℤ ProcSample))
          → add_entry dir e before ≡ o
          → (elim o [ rejected ↦ rejected | thrown ↦ thrown | done t ↦ add_entries dir entries t ])
            ≡ done table
          → ((between : Dict ℤ ProcSample)
              → add_entries dir entries between ≡ done table
              → lookup k table ≡ kept_or (lookup k between) (lists k entries) (sample_at dir k))
          → lookup k table
            ≡ kept_or (lookup k before) (names k e || lists k entries) (sample_at dir k)
      add rejected h₁ h₂ rest = absurd (cc)
      add thrown h₁ h₂ rest = absurd (cc)
      add (done between) h₁ h₂ rest =
          rest between h₂
          ∙ ap (λ o. kept_or o (lists k entries) (sample_at dir k))
              (lookup-add_entry k e before between h₁)
          ∙ kept_or-twice (lookup k before) (sample_at dir k) (names k e) (lists k entries)

finish-value :
    (dir : ProcDir) (total : ℕ) (o : Outcome (Dict ℤ ProcSample)) (snap : ProcSnapshot)
    → finish dir total o ≡ done snap
    → o ≡ done snap.by_pid
finish-value dir total rejected snap h = absurd (cc)
finish-value dir total thrown snap h = absurd (cc)
finish-value dir total (done table) snap h = ap done (ap ProcSnapshot.by_pid (done-value _ snap h))

read_dir-value :
    (dir : ProcDir) (o : Option ℕ) (entries : List DirEntry) (snap : ProcSnapshot)
    → read_dir dir o (some entries) ≡ done snap
    → add_entries dir entries [] ≡ done snap.by_pid
read_dir-value dir none entries snap h = absurd (cc)
read_dir-value dir (some total) entries snap h =
    finish-value dir total (add_entries dir entries []) snap h

-- The snapshot that `read_proc_snapshot` returns holds, under each process id, what the readers make
-- of the files of that process, if an entry of the directory stands for it and its stat file can be
-- read, and nothing else.
pub lookup-read_proc_snapshot :
    (dir : ProcDir) (entries : List DirEntry) (snap : ProcSnapshot) (pid : ℤ)
    → dir.entries ≡ some entries
    → read_proc_snapshot dir ≡ done snap
    → lookup pid snap.by_pid ≡ (if lists pid entries then sample_at dir pid else none)
unfolding read_proc_snapshot lookup
lookup-read_proc_snapshot dir entries snap pid listed h =
    lookup-add_entries dir pid entries [] snap.by_pid (
      read_dir-value dir (read_first_cpu_line dir.stat) entries snap
        (ap (read_dir dir (read_first_cpu_line dir.stat)) (sym listed) ∙ h))
