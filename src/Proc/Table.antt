-- ===== src/Proc/Table.antt =====
-- The process table: which rows it has, and in which order.
use system_monitoring_dashbo.Prelude.{
  ℕ, zero, suc, ◌≡◌, ◌≤◌, refl, ap, sym, false, inl, inr, Option, none, some, List, [], ◌∷◌, arith,
  Bool-cases, map, take, length, min, ltb, ◌==◌,
}
use mathlib.Core.List.{Permᴰ}
use system_monitoring_dashbo.Prelude.Int.{ℤ, pos, leb_ℤ}
use system_monitoring_dashbo.Prelude.Text.{Text}
use system_monitoring_dashbo.Prelude.Dict.{Dict, keys, lookup, int_eq}
use system_monitoring_dashbo.Prelude.Double.{Double}
use system_monitoring_dashbo.Proc.{
  ProcSample, ProcSnapshot, ProcRow, row_of, make_row, rows_of, compute_proc_rows, stable_sort,
  limit_rows, top_by_cpu,
}
use system_monitoring_dashbo.Proc.Order.{IsTotal, IsSorted, stable_sort-Perm, stable_sort-IsSorted}

-- How many rows a limit keeps; 0 is no limit.
abbrev pub kept_of : ℕ → ℕ → ℕ
kept_of zero n = n
kept_of (suc limit) n = min (suc limit) n

module _ {W : Type 0} ⦃d : Double W⦄ where
  take_all : (n : ℕ) (rows : List (ProcRow W)) → length rows ≤ n → take n rows ≡ rows
  take_all zero [] h = refl
  take_all (suc n) [] h = refl
  take_all zero (r ∷ rows) h = absurd (omega arith)
  take_all (suc n) (r ∷ rows) h = ap (λ l. r ∷ l) (take_all n rows (omega arith))

  limit_rows-take :
      (limit : ℕ) (rows : List (ProcRow W))
      → limit_rows limit rows ≡ take (kept_of limit (length rows)) rows
  limit_rows-take zero rows = sym (take_all (length rows) rows (omega arith))
  limit_rows-take (suc limit) rows = elim (Bool-cases (ltb (suc limit) (length rows))) [
    | inl over ↦
        let few : min (suc limit) (length rows) ≡ suc limit = ground arith in
        let some_limit : (suc limit == 0) ≡ false = ground arith in rw (over, few, some_limit) refl
    | inr fits ↦
        let all : min (suc limit) (length rows) ≡ length rows = ground arith in
        let some_limit : (suc limit == 0) ≡ false = ground arith in
        rw (fits, all, some_limit) (sym (take_all (length rows) rows (omega arith)))
  ]

  -- The table is the beginning, of the length that the limit allows, of the computed rows put into
  -- an order in which no row uses more processor time than one before it, if doubles are compared
  -- totally.
  pub top_by_cpu-take :
      (pw_name : ℕ → Option Text) (prev cur : ProcSnapshot) (limit : ℕ)
      → IsTotal W
      → (all : List (ProcRow W)) × Permᴰ all (compute_proc_rows pw_name prev cur)
        × IsSorted all
        × (top_by_cpu pw_name prev cur limit ≡ take (kept_of limit (length all)) all)
  unfolding top_by_cpu
  top_by_cpu-take pw_name prev cur limit order =
      let rows = compute_proc_rows pw_name prev cur in
      (
        stable_sort rows,
        stable_sort-Perm rows,
        stable_sort-IsSorted order rows,
        limit_rows-take limit (stable_sort rows),
      )

  row_of-pid :
      (pw_name : ℕ → Option Text) (dt : W) (cur : ProcSnapshot) (pid : ℤ) (a : Option ProcSample)
      (b : ProcSample)
      → (row_of pw_name dt cur pid a b).pid ≡ pid
  unfolding row_of make_row
  row_of-pid pw_name dt cur pid none b = refl
  row_of-pid pw_name dt cur pid (some a) b = refl

  rows_of-pids :
      (pw_name : ℕ → Option Text) (dt : W) (prev cur : ProcSnapshot) (by_pid : Dict ℤ ProcSample)
      → map (λ (r : ProcRow W). r.pid) (rows_of pw_name dt prev cur by_pid) ≡ keys by_pid
  unfolding rows_of
  rows_of-pids pw_name dt prev cur [] = refl
  rows_of-pids pw_name dt prev cur ((pid, b) ∷ by_pid) =
      rw
        (
          row_of-pid pw_name dt cur pid (lookup pid prev.by_pid) b,
          rows_of-pids pw_name dt prev cur by_pid,
        )
        refl

module _ (W : Type 0) ⦃d : Double W⦄ where
  -- If both snapshots have a positive tick rate, each process of the present one has one row, in the
  -- order of iteration.
  compute_proc_rows-pids :
      (pw_name : ℕ → Option Text) (prev cur : ProcSnapshot)
      → (leb_ℤ prev.hz (pos 0) ≡ false)
      → (leb_ℤ cur.hz (pos 0) ≡ false)
      → map (λ (r : ProcRow W). r.pid) (compute_proc_rows {W = W} pw_name prev cur)
        ≡ keys cur.by_pid
  unfolding compute_proc_rows
  compute_proc_rows-pids pw_name prev cur before now =
      rw (before, now) (rows_of-pids pw_name _ prev cur cur.by_pid)
