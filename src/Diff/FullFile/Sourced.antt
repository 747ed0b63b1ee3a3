-- ===== src/Diff/FullFile/Sourced.antt =====
-- crates/diff/src/lib.rs, `full_file_rows`: the texts, the numbers and the marks of the rows of a whole source.
use localreview.Prelude.{ℕ, zero, suc, ◌+◌, ◌≡◌, refl, ap, List, [], ◌∷◌, length, map}
use localreview.Prelude.Text.{Bytes}
use localreview.Domain.Annotations.{DiffSide}
use localreview.Diff.Types.{RoaringBitmap, FullFileRow, ReviewDiffDocument, SourceDocument, clamp32}
use localreview.Diff.Source.{source_lines}
use localreview.Diff.FullFile.{source_of, changed_of, number_rows, full_file_rows}

-- The one-based numbers of `n` lines behind the first `i`, none above the largest of 32 bits.
abbrev pub line_numbers : ℕ → ℕ → List ℕ
line_numbers i zero = []
line_numbers i (suc n) = clamp32 (i + 1) ∷ line_numbers (i + 1) n

module _ (bm : RoaringBitmap) where
  -- The rows are the lines of the source in order, numbered from 1 and marked where the set has the number.
  abbrev pub IsSource : SourceDocument → bm.Carrier → List FullFileRow → Type 0
  IsSource source changed rows =
      (map (λ row. row.text) rows ≡ source_lines source)
      × (map (λ row. row.line_number) rows ≡ line_numbers 0 (length (source_lines source)))
      × (map (λ row. row.changed) rows
          ≡ map (λ n. bm.contains n changed) (line_numbers 0 (length (source_lines source))))

  number_rows_lem :
      (side : DiffSide) (source : SourceDocument) (changed : bm.Carrier) (i : ℕ)
      (texts : List Bytes)
      → (map (λ row. row.text) (number_rows bm side source changed i texts) ≡ texts)
        × (map (λ row. row.line_number) (number_rows bm side source changed i texts)
            ≡ line_numbers i (length texts))
        × (map (λ row. row.changed) (number_rows bm side source changed i texts)
            ≡ map (λ n. bm.contains n changed) (line_numbers i (length texts)))
  unfolding number_rows
  number_rows_lem side source changed i [] = (refl, refl, refl)
  number_rows_lem side source changed i (text ∷ texts) =
      let (same_texts, same_numbers, same_marks) =
        number_rows_lem side source changed (i + 1) texts in
      (
        ap (◌∷◌ text) same_texts,
        ap (◌∷◌ (clamp32 (i + 1))) same_numbers,
        ap (◌∷◌ (bm.contains (clamp32 (i + 1)) changed)) same_marks,
      )

  pub full_file_rows-IsSource :
      (document : ReviewDiffDocument bm.Carrier) (side : DiffSide)
      → IsSource
          (source_of bm side document)
          (changed_of bm side document)
          (full_file_rows bm document side)
  unfolding full_file_rows
  full_file_rows-IsSource document side =
      number_rows_lem side (source_of bm side document) (changed_of bm side document) 0
        (source_lines (source_of bm side document))
