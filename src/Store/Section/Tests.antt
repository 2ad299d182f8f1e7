-- ===== src/Store/Section/Tests.antt =====
-- Two threads whose sections interleave.
use system_monitoring_dashbo.Prelude.{ℕ, zero, suc, refl, List, [], ◌∷◌}
use system_monitoring_dashbo.Prelude.Int.{pos}
use system_monitoring_dashbo.Prelude.Text.{Text, codes}
use system_monitoring_dashbo.Prelude.Double.{whole_double}
use system_monitoring_dashbo.Store.{Store, new}
use system_monitoring_dashbo.Store.History.{Write, scalar, snapshot, write}
use system_monitoring_dashbo.Store.Section.{
  Section, perform, sections, update, System, Reach, here, later, pick,
}
use system_monitoring_dashbo.Store.Section.Seen.{IsSeenAlike}
use system_monitoring_dashbo.Store.Section.Pending.{Pending}
use system_monitoring_dashbo.Store.Section.Linear.{programs_of, sections_of, Reach-linear}

abbrev name : Text
name = codes "cpu"

-- Both threads write to the series `cpu`, which neither has made yet.
abbrev programs : ℕ → List (Write ℕ Text)
programs zero = scalar name (pos 1) 10 ∷ []
programs (suc zero) = scalar name (pos 2) 20 ∷ snapshot (codes "processes") (codes "rows") ∷ []
programs (suc (suc i)) = []

abbrev empty : Store ℕ Text
unfolding new
empty = new 4 1

abbrev turn : ℕ → System ℕ Text (Section ℕ Text) → System ℕ Text (Section ℕ Text)
unfolding perform
turn i s = elim (s.todo i) [
  | [] ↦ s
  | op ∷ rest ↦ record { store = perform s.store op; todo = update s.todo i rest }
]

-- Each finds the series before either pushes to it; the second pushes first.
abbrev last : System ℕ Text (Section ℕ Text)
unfolding perform sections empty
last = turn 0 (turn 1 (turn 1 (turn 0 (sections_of empty programs))))

reached : Reach perform (sections_of empty programs) last
unfolding perform sections empty
reached = later (later (later (later here (pick 0 refl)) (pick 1 refl)) (pick 1 refl)) (pick 0 refl)

Reach-linear_example :
    (a : System ℕ Text (Write ℕ Text)) × Reach write (programs_of empty programs) a
    × IsSeenAlike last.store a.store
    × ((i : ℕ) → Pending last.store (last.todo i) (a.todo i))
Reach-linear_example = Reach-linear empty programs last reached
