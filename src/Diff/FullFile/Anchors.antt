-- ===== src/Diff/FullFile/Anchors.antt =====
-- crates/diff/src/lib.rs: where the changed lines of a hunk land, for hunks whose kept side is numbered
-- without gaps.
use localreview.Prelude.{
  ℕ, suc, ◌-◌, min, ◌≡◌, false, not, List, [], ◌∷◌, ◌++◌, ◌⊎◌, none, some, if◌then◌else◌,
}
use localreview.Diff.Types.{HunkHeader, UnifiedRow, ReviewHunk}
use localreview.Diff.FullFile.{Gates, same_kind, first_line, gate_row}
use localreview.Diff.FullFile.Woven.{Placed}

-- The kept cells of the rows are numbered `suc n`, `suc (suc n)`, …, and no gate row has one.
abbrev pub Numbered : Gates → ℕ → List UnifiedRow → Type 0
Numbered g n [] = Unit
Numbered g n (row ∷ rows) = elim (g.kept_cell row) [
  | none ↦ Numbered g n rows
  | some c ↦
      (same_kind row.kind g.gate_kind ≡ false) × (c.line_number ≡ suc n) × Numbered g (suc n) rows
]

-- The number of kept lines before the next row.
abbrev pub lines_after : Gates → ℕ → UnifiedRow → ℕ
lines_after g n row = elim (g.kept_cell row) [ none ↦ n | some c ↦ suc n ]

abbrev pub counted_gate : Gates → ℕ → ℕ → UnifiedRow → List Placed
counted_gate g kept n row =
    if not (same_kind row.kind g.gate_kind)
    then []
    else elim (g.gate_cell row) [ none ↦ [] | some c ↦ (min n kept, gate_row g c) ∷ [] ]

-- The gates of rows that follow `n` kept lines, each with the number of kept lines before it.
abbrev pub counted_gates : Gates → ℕ → ℕ → List UnifiedRow → List Placed
counted_gates g kept n [] = []
counted_gates g kept n (row ∷ rows) =
    counted_gate g kept n row ++ counted_gates g kept (lines_after g n row) rows

-- The number of kept lines before a hunk: Git writes an empty range by the line before it, and any
-- other by its first line.
abbrev pub lines_before : Gates → ReviewHunk → ℕ
lines_before g hunk = elim (first_line g.kept_cell hunk.unified_rows) [
  | none ↦ g.hunk_start hunk.header
  | some line ↦ g.hunk_start hunk.header - 1
]

abbrev pub counted_hunk_gates : Gates → ℕ → List ReviewHunk → List Placed
counted_hunk_gates g kept [] = []
counted_hunk_gates g kept (hunk ∷ hunks) =
    counted_gates g kept (lines_before g hunk) hunk.unified_rows ++ counted_hunk_gates g kept hunks

abbrev pub IsNumbered : Gates → ReviewHunk → Type 0
IsNumbered g hunk = Numbered g (lines_before g hunk) hunk.unified_rows

-- What is known of the kept lines before a row: the nearest has number `n`, or there is none in the
-- hunk so far, and then `n` is the header's number if none follows either.
abbrev Follows : Gates → HunkHeader → ℕ → List UnifiedRow → List UnifiedRow → Type 0
Follows g header n before rows =
    (first_line g.kept_cell before ≡ some n)
    ⊎ ((first_line g.kept_cell before ≡ none)
        × (first_line g.kept_cell rows ≡ none → g.hunk_start header ≡ n))
