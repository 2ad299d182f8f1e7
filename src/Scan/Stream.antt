-- ===== src/Scan/Stream.antt =====
-- Input streams read to their end: `std::getline` to skip a line, and loops that go on while an
-- extraction succeeds.
pub mod Sizes
pub mod Loop
pub mod Printed
use system_monitoring_dashbo.Prelude.{
  ℕ, zero, suc, ◌-◌, ◌%◌, ◌^◌, Bool, true, false, Option, none, some, List, [], ◌∷◌, ltb, ◌==◌,
  if◌then◌else◌, length,
}
use system_monitoring_dashbo.Prelude.Text.{Text}
use system_monitoring_dashbo.Scan.{In, open_text, failed, skip_space, read_number}

-- What stands behind the end of the line.
unfoldable pub skip_line : Text → Text
skip_line [] = []
skip_line (c ∷ s) = if c == b'\n' then s else skip_line s

-- `std::getline(stream, rest)` for a `rest` that nothing reads
unfoldable pub get_line : In → In
unfolding skip_line
get_line i = elim i.good [
  | false ↦ i
  | true ↦ elim i.rest [ [] ↦ failed [] | c ∷ s ↦ open_text (skip_line (c ∷ s)) ]
]

-- One round of a loop over a stream: it leaves the loop, or goes on.
pub data Round (S : Type 0) : Type 0 where
  leave : S → Round S
  go_on : S → In → Round S

-- A loop on fuel.
pub repeat : {S : Type 0} → ℕ → (S → In → Round S) → S → In → S
repeat zero body s i = s
repeat (suc fuel) body s i = elim (body s i) [ leave r ↦ r | go_on s' i' ↦ repeat fuel body s' i' ]

-- A loop whose rounds read a byte at least: the length of the text is fuel enough, `Loop.loop-Ends`.
unfoldable pub loop : {S : Type 0} → (S → In → Round S) → S → In → S
unfolding repeat
loop body s i = repeat (suc (length i.rest)) body s i
