-- ===== src/Diff/FullFile.antt =====
-- crates/diff/src/lib.rs, `full_file_rows`, `full_file_current_rows`, `full_file_base_rows`: a whole
-- source, and the whole source with the other side's changed lines at their anchors. The two
-- functions are one with the sides exchanged, so they share a body over the record `Gates`.
pub mod Woven
pub mod Sourced
pub mod Parted
pub mod Projection
pub mod Anchors
use localreview.Prelude.{
  ℕ, suc, ◌+◌, ◌-◌, min, Bool, true, false, ◌||◌, not, List, [], ◌∷◌, ◌++◌, Option, none, some,
  length, get_or, set, replicate, ltb, if◌then◌else◌,
}
use localreview.Prelude.Text.{Bytes}
use localreview.Domain.Annotations.{DiffSide}
use localreview.Diff.Types.{
  RoaringBitmap, SourceDocument, HunkHeader, DiffLineKind, context, addition, removal, DiffCell,
  UnifiedRow, ReviewHunk, FullFileRow, ReviewDiffDocument, clamp32,
}
use localreview.Diff.Source.{source_lines}

-- What differs between the Current and the Base projection.
pub record Gates : Type 0 where
  -- the side whose source is complete, and the side whose lines are put in
  pub kept_side : DiffSide
  pub gate_side : DiffSide
  -- the kind of a row that is put in
  pub gate_kind : DiffLineKind
  pub kept_cell : UnifiedRow → Option DiffCell
  pub gate_cell : UnifiedRow → Option DiffCell
  pub hunk_start : HunkHeader → ℕ

abbrev pub current : Gates
current = record {
  kept_side = DiffSide.new;
  gate_side = DiffSide.old;
  gate_kind = removal;
  kept_cell = λ row. row.new;
  gate_cell = λ row. row.old;
  hunk_start = λ header. header.new_start;
}

abbrev pub base : Gates
base = record {
  kept_side = DiffSide.old;
  gate_side = DiffSide.new;
  gate_kind = addition;
  kept_cell = λ row. row.old;
  gate_cell = λ row. row.new;
  hunk_start = λ header. header.old_start;
}

abbrev pub same_kind : DiffLineKind → DiffLineKind → Bool
same_kind context context = true
same_kind addition addition = true
same_kind removal removal = true
same_kind _ _ = false

-- `iter().find_map(|candidate| candidate.new.map(|value| value.line_number))`.
unfoldable pub first_line : (UnifiedRow → Option DiffCell) → List UnifiedRow → Option ℕ
first_line side [] = none
first_line side (row ∷ rows) = elim (side row) [
  | none ↦ first_line side rows
  | some c ↦ some c.line_number
]

-- The number of kept lines before a gate. `before` holds the earlier rows of the hunk, nearest first.
unfoldable pub anchor_of : Gates → HunkHeader → List UnifiedRow → List UnifiedRow → ℕ
unfolding first_line
anchor_of g header before rest = elim (first_line g.kept_cell rest) [
  | some line ↦ line - 1
  | none ↦ elim (first_line g.kept_cell before) [ some line ↦ line | none ↦ g.hunk_start header ]
]

abbrev pub gate_row : Gates → DiffCell → FullFileRow
gate_row g c = record {
  side = g.gate_side;
  line_number = c.line_number;
  text = c.text;
  changed = true;
  has_trailing_newline = c.has_trailing_newline;
}

-- `buckets[anchor].push(row)`.
abbrev pub push_at : ℕ → FullFileRow → List (List FullFileRow) → List (List FullFileRow)
push_at i row buckets = set buckets i (get_or buckets i [] ++ row ∷ [])

-- One round of the inner loop.
unfoldable pub place_row :
    Gates
    → HunkHeader
    → List UnifiedRow
    → UnifiedRow
    → List UnifiedRow
    → List (List FullFileRow)
    → List (List FullFileRow)
unfolding anchor_of
place_row g header before row rest buckets =
    if not (same_kind row.kind g.gate_kind) then buckets else elim (g.gate_cell row) [
      | none ↦ buckets
      | some c ↦
          push_at (min (anchor_of g header before rest) (length buckets - 1)) (gate_row g c) buckets
    ]

unfoldable pub place_rows :
    Gates
    → HunkHeader
    → List UnifiedRow
    → List UnifiedRow
    → List (List FullFileRow)
    → List (List FullFileRow)
unfolding place_row
place_rows g header before [] buckets = buckets
place_rows g header before (row ∷ rest) buckets =
    place_rows g header (row ∷ before) rest (place_row g header before row rest buckets)

unfoldable pub place_hunks :
    Gates → List ReviewHunk → List (List FullFileRow) → List (List FullFileRow)
unfolding place_rows
place_hunks g [] buckets = buckets
place_hunks g (hunk ∷ hunks) buckets =
    place_hunks g hunks (place_rows g hunk.header [] hunk.unified_rows buckets)

-- `for (index, row) in current.into_iter().enumerate()`.
unfoldable pub weave : List (List FullFileRow) → ℕ → List FullFileRow → List FullFileRow
weave buckets index [] = []
weave buckets index (row ∷ rows) = get_or buckets index [] ++ row ∷ weave buckets (suc index) rows

-- `last_mut`, and the rows in it.
unfoldable pub last_bucket : List (List FullFileRow) → List FullFileRow
last_bucket [] = []
last_bucket (b ∷ []) = b
last_bucket (b ∷ c ∷ bs) = last_bucket (c ∷ bs)

module _ (bm : RoaringBitmap) where
  abbrev pub source_of : DiffSide → ReviewDiffDocument bm.Carrier → SourceDocument
  source_of DiffSide.old document = document.old
  source_of DiffSide.new document = document.new

  abbrev pub changed_of : DiffSide → ReviewDiffDocument bm.Carrier → bm.Carrier
  changed_of DiffSide.old document = document.changed_old_lines
  changed_of DiffSide.new document = document.changed_new_lines

  unfoldable pub number_rows :
      DiffSide → SourceDocument → bm.Carrier → ℕ → List Bytes → List FullFileRow
  number_rows side source changed index [] = []
  number_rows side source changed index (text ∷ texts) =
      let line_number = clamp32 (index + 1) in
      record {
        side = side;
        line_number = line_number;
        text = text;
        changed = bm.contains line_number changed;
        has_trailing_newline = ltb line_number source.line_count || source.has_final_newline;
      }
      ∷ number_rows side source changed (index + 1) texts

  unfoldable pub full_file_rows : ReviewDiffDocument bm.Carrier → DiffSide → List FullFileRow
  unfolding number_rows
  full_file_rows document side =
      number_rows side (source_of side document) (changed_of side document) 0
        (source_lines (source_of side document))

  unfoldable pub gated_rows : Gates → ReviewDiffDocument bm.Carrier → List FullFileRow
  unfolding full_file_rows place_hunks weave last_bucket
  gated_rows g document =
      let lines_kept = length (source_lines (source_of g.kept_side document)) in
      let buckets = place_hunks g document.hunks (replicate (lines_kept + 1) []) in
      weave buckets 0 (full_file_rows document g.kept_side) ++ last_bucket buckets

  unfoldable pub full_file_current_rows : ReviewDiffDocument bm.Carrier → List FullFileRow
  unfolding gated_rows
  full_file_current_rows = gated_rows current

  unfoldable pub full_file_base_rows : ReviewDiffDocument bm.Carrier → List FullFileRow
  unfolding gated_rows
  full_file_base_rows = gated_rows base
