-- ===== src/Store/Section/Linear.antt =====
-- Every interleaving of the critical sections is one of whole calls.
use system_monitoring_dashbo.Prelude.{ℕ, ◌==◌, ◌≡◌, refl, List, Bool-cases, inl, inr, arith}
use mathlib.Core.Path.{subst}
use system_monitoring_dashbo.Prelude.Dict.{text_key}
use system_monitoring_dashbo.Prelude.Double.{Double}
use system_monitoring_dashbo.Store.{Store}
use system_monitoring_dashbo.Store.History.{Write, write}
use system_monitoring_dashbo.Store.Section.{
  Section, perform, sections, update, System, Step, pick, Reach, here, later,
}
use system_monitoring_dashbo.Store.Section.Same.{IsSame, IsSame-refl}
use system_monitoring_dashbo.Store.Section.Seen.{IsSeenAlike, IsSame-IsSeenAlike}
use system_monitoring_dashbo.Store.Section.Pending.{
  Pending, between, perform-Pending, Effect, prepares, completes, EffectOf, Pending-effect,
}

module _ {W J : Type 0} ⦃d : Double W⦄ where
  -- The systems of sections and of whole calls, side by side.
  pub record IsSimulated (s : System W J (Section W J)) (a : System W J (Write W J)) : Type 0 where
    pub stores : IsSame s.store a.store
    pub threads : (i : ℕ) → Pending s.store (s.todo i) (a.todo i)

  update-Pending :
      {s : Store W J} (i : ℕ) (rest : List (Section W J)) (calls : List (Write W J))
      (todo : ℕ → List (Section W J)) (left : ℕ → List (Write W J))
      → Pending s rest calls
      → ((k : ℕ) → Pending s (todo k) (left k))
      → (k : ℕ) → Pending s (update todo i rest k) (update left i calls k)
  update-Pending i rest calls todo left mine others k = elim (Bool-cases (i == k)) [
    | inl same ↦ rw same mine
    | inr apart ↦ rw apart (others k)
  ]

  kept-Pending :
      {s : Store W J} (i : ℕ) (rest : List (Section W J)) (todo : ℕ → List (Section W J))
      (left : ℕ → List (Write W J))
      → Pending s rest (left i)
      → ((k : ℕ) → Pending s (todo k) (left k))
      → (k : ℕ) → Pending s (update todo i rest k) (left k)
  kept-Pending {s} i rest todo left mine others k = elim (Bool-cases (i == k)) [
    | inl same ↦ rw same (subst (λ n. Pending s rest (left n)) (ground arith) mine)
    | inr apart ↦ rw apart (others k)
  ]

  -- A step of the sections is a step of the whole calls, or none.
  Simulation : System W J (Section W J) → System W J (Write W J) → Type 0
  Simulation s start = (a : System W J (Write W J)) × Reach write start a × IsSimulated s a

  Effect-Simulation :
      {start a : System W J (Write W J)} (s : System W J (Section W J)) (i : ℕ) (op : Section W J)
      (rest : List (Section W J)) (calls : List (Write W J))
      → Reach write start a
      → a.todo i ≡ calls
      → IsSimulated s a
      → Effect s.store a.store op rest calls
      → Simulation (record { store = perform s.store op; todo = update s.todo i rest }) start
  unfolding Simulation
  Effect-Simulation {start} {a} s i op rest calls reached left sim (prepares same mine) = (
    a,
    reached,
    record {
      stores = same;
      threads =
          kept-Pending i rest s.todo a.todo (rw left mine)
            (λ k. perform-Pending op (sim.threads k));
    },
  )
  Effect-Simulation {start} {a} s i op rest _ reached left sim
        (completes {call} {calls} same mine) =
      (
        record { store = write a.store call; todo = update a.todo i calls },
        later reached (pick i left),
        record {
          stores = same;
          threads =
              update-Pending i rest calls s.todo a.todo mine
                (λ k. perform-Pending op (sim.threads k));
        },
      )

  Step-Simulation :
      {start a : System W J (Write W J)} {s t : System W J (Section W J)}
      → Reach write start a
      → IsSimulated s a
      → Step perform s t
      → Simulation t start
  unfolding EffectOf
  Step-Simulation {start} {a} {s} reached sim (pick i {op} {rest} e) =
      Effect-Simulation s i op rest (a.todo i) reached refl sim (
        subst (λ todo. EffectOf s.store a.store todo (a.todo i)) e
          (Pending-effect s.store a.store sim.stores (sim.threads i)))

  -- The threads at the start of their programs.
  abbrev pub programs_of : Store W J → (ℕ → List (Write W J)) → System W J (Write W J)
  programs_of store programs = record { store = store; todo = programs }

  abbrev pub sections_of : Store W J → (ℕ → List (Write W J)) → System W J (Section W J)
  sections_of store programs = record { store = store; todo = λ i. sections (programs i) }

  Reach-Simulation :
      (store : Store W J) (programs : ℕ → List (Write W J)) {s : System W J (Section W J)}
      → Reach perform (sections_of store programs) s
      → Simulation s (programs_of store programs)
  unfolding Simulation
  Reach-Simulation store programs here = (
    programs_of store programs,
    here,
    record { stores = IsSame-refl store; threads = λ i. between (programs i) },
  )
  Reach-Simulation store programs (later reached st) =
      let (a, found, sim) = Reach-Simulation store programs reached in Step-Simulation found sim st

  -- Any number of threads each run a program of calls that write to one store. Whenever every method
  -- runs as its critical sections, in any interleaving of the sections of all threads, there is an
  -- interleaving of whole calls, each thread's in the order of its program, whose store answers every
  -- `query`, `query_vector` and `count` alike and holds the same snapshots and metadata; and what a
  -- thread has left is what it has left there, or the second section of the call it is in.
  pub Reach-linear :
      (store : Store W J) (programs : ℕ → List (Write W J)) (s : System W J (Section W J))
      → Reach perform (sections_of store programs) s
      → (a : System W J (Write W J)) × Reach write (programs_of store programs) a
        × IsSeenAlike s.store a.store
        × ((i : ℕ) → Pending s.store (s.todo i) (a.todo i))
  unfolding Simulation
  Reach-linear store programs s reached =
      let (a, found, sim) = Reach-Simulation store programs reached in
      (a, found, IsSame-IsSeenAlike s.store a.store sim.stores, sim.threads)
