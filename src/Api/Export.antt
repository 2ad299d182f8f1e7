-- ===== src/Api/Export.antt =====
-- GET /api/export: its status, the limit on the rows, and the CSV text.
pub mod Status
use system_monitoring_dashbo.Prelude.{
  min, ◌≡◌, refl, sym, ap, ◌∙◌, Option, none, some, List, [], ◌∷◌, ◌++◌, map, arith, keep_last,
  keep_last_all, length, length-keep_last, append_assoc, Bool-cases, inl, inr,
}
use system_monitoring_dashbo.Prelude.Int.{ℤ, pos, negsuc, pos_part, ltb_ℤ}
use system_monitoring_dashbo.Prelude.Text.{Text, codes, Free, Free-append}
use system_monitoring_dashbo.Prelude.Double.{Double}
use system_monitoring_dashbo.Store.{Sample}
use system_monitoring_dashbo.Scan.{tokens, show_ℤ}
use system_monitoring_dashbo.Scan.Lines.{tokens_first}
use system_monitoring_dashbo.Scan.Digits.{show_ℤ-Free}
use system_monitoring_dashbo.Api.{write_csv_response, csv_rows}
use system_monitoring_dashbo.Api.Routes.{limit_of, last_rows}

limit_of_pos : (o : Option ℤ) → limit_of o ≡ pos (pos_part (limit_of o))
limit_of_pos none = refl
limit_of_pos (some (pos n)) = ground arith
limit_of_pos (some (negsuc n)) = ground arith

last_rows_keep {ℓ} :
    {A : Type ℓ} (limit : ℤ) (rows : List A)
    → limit ≡ pos (pos_part limit)
    → last_rows limit rows ≡ keep_last (pos_part limit) rows
unfolding last_rows
last_rows_keep (pos n) rows e = elim (Bool-cases (ltb_ℤ (pos n) (pos (length rows)))) [
  | inl over ↦ rw over
  | inr fits ↦ rw fits (sym (keep_last_all n rows (ground arith)))
]
last_rows_keep (negsuc n) rows e = absurd (cc)

-- The export keeps the last rows, in order: as many as a positive `limit` says, or else as many as
-- the largest 64-bit number.
pub last_rows-limit_of {ℓ} :
    {A : Type ℓ} (o : Option ℤ) (rows : List A)
    → (last_rows (limit_of o) rows ≡ keep_last (pos_part (limit_of o)) rows)
      × (length (last_rows (limit_of o) rows) ≡ min (pos_part (limit_of o)) (length rows))
last_rows-limit_of o rows =
    let kept = last_rows_keep (limit_of o) rows (limit_of_pos o) in
    (kept, ap length kept ∙ length-keep_last (pos_part (limit_of o)) rows)

-- One line of the export.
abbrev csv_line : {W : Type 0} ⦃d : Double W⦄ → Sample W → Text
csv_line ⦃d⦄ sample = show_ℤ sample.ts_ms ++ (b',' ∷ d.show sample.value)

module _ {W : Type 0} ⦃d : Double W⦄ (one_line : (w : W) → Free b'\n' (d.show w)) where
  tokens-csv_rows :
      (samples : List (Sample W)) → tokens b'\n' (csv_rows samples) ≡ map csv_line samples
  unfolding csv_rows tokens
  tokens-csv_rows [] = refl
  tokens-csv_rows (sample ∷ samples) =
      let stamp = show_ℤ sample.ts_ms in
      let shown = d.show sample.value in
      let line_free : Free b'\n' (csv_line sample) =
        Free-append b'\n' stamp (b',' ∷ shown) (show_ℤ-Free b'\n' sample.ts_ms refl (omega arith))
          (omega arith, one_line sample.value) in
      ap (tokens b'\n') (sym (append_assoc stamp (b',' ∷ shown) (b'\n' ∷ csv_rows samples)))
      ∙ tokens_first b'\n' (csv_line sample) (csv_rows samples) line_free
      ∙ ap (λ ls. csv_line sample ∷ ls) (tokens-csv_rows samples)

  -- Split into lines, the CSV export is the header and one line `timestamp,value` for each sample,
  -- in order, if a printed `double` holds no line break.
  pub tokens-write_csv_response :
      (samples : List (Sample W)) (filename : Text)
      → tokens b'\n' (write_csv_response samples filename).content
        ≡ codes "timestamp,value" ∷ map csv_line samples
  unfolding write_csv_response
  tokens-write_csv_response samples filename =
      tokens_first b'\n' (codes "timestamp,value") (csv_rows samples) (omega arith)
      ∙ ap (λ ls. codes "timestamp,value" ∷ ls) (tokens-csv_rows samples)
