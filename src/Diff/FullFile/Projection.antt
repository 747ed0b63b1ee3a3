-- ===== src/Diff/FullFile/Projection.antt =====
-- crates/diff/src/lib.rs: the rows of each side in the full-file projections.
use localreview.Prelude.{ℕ, ◌+◌, ◌≡◌, refl, false, List, [], ◌∷◌, arith, All, All-append}
use localreview.Prelude.Text.{Bytes}
use localreview.Domain.Annotations.{DiffSide, same_side}
use localreview.Diff.Types.{
  RoaringBitmap, HunkHeader, UnifiedRow, ReviewHunk, ReviewDiffDocument, SourceDocument,
}
use localreview.Diff.Source.{source_lines}
use localreview.Diff.FullFile.{
  Gates, current, base, source_of, changed_of, full_file_rows, number_rows, gated_rows,
  full_file_current_rows, full_file_base_rows,
}
use localreview.Diff.FullFile.Sourced.{IsSource, full_file_rows-IsSource}
use localreview.Diff.FullFile.Woven.{
  row_gate, row_gates, hunk_gates, document_gates, gated_rows-woven, kept_lines,
}
use localreview.Diff.FullFile.Parted.{rows_of, AllOf, woven-kept}

row_gates-sides :
    (g : Gates) (kept : ℕ) (header : HunkHeader) (before rows : List UnifiedRow)
    → All (λ placed. placed.1.side ≡ g.gate_side) (row_gates g kept header before rows)
row_gates-sides g kept header before [] = tt
row_gates-sides g kept header before (row ∷ rest) =
    All-append (λ placed. placed.1.side ≡ g.gate_side) (row_gate g kept header before row rest) _
      (ground arith) (row_gates-sides g kept header (row ∷ before) rest)

hunk_gates-sides :
    (g : Gates) (kept : ℕ) (hunks : List ReviewHunk)
    → All (λ placed. placed.1.side ≡ g.gate_side) (hunk_gates g kept hunks)
hunk_gates-sides g kept [] = tt
hunk_gates-sides g kept (hunk ∷ hunks) =
    All-append (λ placed. placed.1.side ≡ g.gate_side)
      (row_gates g kept hunk.header [] hunk.unified_rows) _
      (row_gates-sides g kept hunk.header [] hunk.unified_rows) (hunk_gates-sides g kept hunks)

module _ (bm : RoaringBitmap) where
  number_rows-AllOf :
      (side : DiffSide) (source : SourceDocument) (changed : bm.Carrier) (index : ℕ)
      (texts : List Bytes)
      → AllOf side (number_rows bm side source changed index texts)
  unfolding number_rows
  number_rows-AllOf side source changed index [] = tt
  number_rows-AllOf side source changed index (text ∷ texts) =
      (refl, number_rows-AllOf side source changed (index + 1) texts)

  full_file_rows-AllOf :
      (document : ReviewDiffDocument bm.Carrier) (side : DiffSide)
      → AllOf side (full_file_rows bm document side)
  unfolding full_file_rows
  full_file_rows-AllOf document side =
      number_rows-AllOf side (source_of bm side document) (changed_of bm side document) 0
        (source_lines (source_of bm side document))

  gated_rows-kept :
      (g : Gates) (document : ReviewDiffDocument bm.Carrier)
      → same_side g.gate_side g.kept_side ≡ false
      → rows_of g.kept_side (gated_rows bm g document) ≡ full_file_rows bm document g.kept_side
  gated_rows-kept g document apart = rw (gated_rows-woven bm g document) (
      woven-kept g.kept_side g.gate_side (document_gates bm g document) apart
        (hunk_gates-sides g (kept_lines bm g document) document.hunks) 0
        (full_file_rows bm document g.kept_side) (full_file_rows-AllOf document g.kept_side))

  -- The New rows of the Current projection are the lines of the current source, line by line and in order:
  -- they have its texts, are numbered from 1 on, up to the largest number of 32 bits, and are marked as
  -- changed where the document's set of changed new lines has the number. So are the Old rows of the Base
  -- projection for the base source.
  pub full_file_projections-lossless :
      (document : ReviewDiffDocument bm.Carrier)
      → IsSource bm document.new document.changed_new_lines
          (rows_of DiffSide.new (full_file_current_rows bm document))
        × IsSource bm document.old document.changed_old_lines
            (rows_of DiffSide.old (full_file_base_rows bm document))
  unfolding full_file_current_rows full_file_base_rows
  full_file_projections-lossless document = (
    rw (gated_rows-kept current document refl) (full_file_rows-IsSource bm document DiffSide.new),
    rw (gated_rows-kept base document refl) (full_file_rows-IsSource bm document DiffSide.old),
  )
