-- ===== src/Diff/Patch/Numbering.antt =====
-- The shape and the line numbers of the rows that the patch parser makes of a hunk.
use localreview.Prelude.{
  ℕ, ◌+◌, ◌-◌, max, ◌≡◌, refl, List, [], ◌∷◌, ◌++◌, Option, none, some, All, arith,
}
use localreview.Domain.Annotations.{DiffSide}
use localreview.Diff.Types.{
  DiffLineKind, context, addition, removal, DiffCell, UnifiedRow, HunkHeader, wrap32,
}
use localreview.Diff.Split.Lossless.{IsOneSided}
use localreview.Diff.Patch.Builder.{hunk_line_counts}

-- The cell of line `line` of a side: its index counts from 0, and its number is that of the line, or 1 for
-- a line 0.
abbrev pub IsCell : DiffSide → ℕ → DiffLineKind → Option DiffCell → Type 0
IsCell side line kind none = ⊥
IsCell side line kind (some c) =
    (c.side ≡ side)
    × (c.kind ≡ kind)
    × (c.source_line_index ≡ line - 1)
    × (c.line_number ≡ wrap32 (max 1 line))

abbrev pub CellsAt : DiffLineKind → ℕ → ℕ → UnifiedRow → Type 0
CellsAt context i j row =
    IsCell DiffSide.old i context row.old × IsCell DiffSide.new j context row.new
CellsAt removal i j row = IsCell DiffSide.old i removal row.old × (row.new ≡ none)
CellsAt addition i j row = (row.old ≡ none) × IsCell DiffSide.new j addition row.new

-- The row of old line `i` and new line `j`, as its kind has them.
abbrev pub RowAt : ℕ → ℕ → UnifiedRow → Type 0
RowAt i j row = CellsAt row.kind i j row

abbrev pub next_old : DiffLineKind → ℕ → ℕ
next_old addition i = i
next_old _ i = wrap32 (i + 1)

abbrev pub next_new : DiffLineKind → ℕ → ℕ
next_new removal j = j
next_new _ j = wrap32 (j + 1)

-- The line counters behind the rows.
abbrev pub old_after : ℕ → List UnifiedRow → ℕ
old_after i [] = i
old_after i (row ∷ rows) = old_after (next_old row.kind i) rows

abbrev pub new_after : ℕ → List UnifiedRow → ℕ
new_after j [] = j
new_after j (row ∷ rows) = new_after (next_new row.kind j) rows

-- Consecutive rows from old line `i` and new line `j` on.
abbrev pub RowsAt : ℕ → ℕ → List UnifiedRow → Type 0
RowsAt i j [] = Unit
RowsAt i j (row ∷ rows) = RowAt i j row × RowsAt (next_old row.kind i) (next_new row.kind j) rows

-- The rows of a hunk start at its header's lines, and are as many as it says.
abbrev pub IsHunk : HunkHeader → List UnifiedRow → Type 0
IsHunk header rows =
    RowsAt header.old_start header.new_start rows
    × ((hunk_line_counts rows).0 ≡ header.old_count)
    × ((hunk_line_counts rows).1 ≡ header.new_count)

pub RowsAt-append :
    (i j : ℕ) (rows : List UnifiedRow) (row : UnifiedRow)
    → RowsAt i j rows
    → RowAt (old_after i rows) (new_after j rows) row
    → RowsAt i j (rows ++ row ∷ [])
RowsAt-append i j [] row h k = (k, tt)
RowsAt-append i j (r ∷ rows) row h k =
    (h.0, RowsAt-append (next_old r.kind i) (next_new r.kind j) rows row h.1 k)

pub RowsAt-front :
    (i j : ℕ) (rows : List UnifiedRow) (row : UnifiedRow)
    → RowsAt i j (rows ++ row ∷ [])
    → RowsAt i j rows × RowAt (old_after i rows) (new_after j rows) row
RowsAt-front i j [] row h = (tt, h.0)
RowsAt-front i j (r ∷ rows) row h =
    let (front, last) = RowsAt-front (next_old r.kind i) (next_new r.kind j) rows row h.1 in
    ((h.0, front), last)

pub old_after-append :
    (i : ℕ) (rows : List UnifiedRow) (row : UnifiedRow)
    → old_after i (rows ++ row ∷ []) ≡ next_old row.kind (old_after i rows)
old_after-append i [] row = refl
old_after-append i (r ∷ rows) row = old_after-append (next_old r.kind i) rows row

pub new_after-append :
    (j : ℕ) (rows : List UnifiedRow) (row : UnifiedRow)
    → new_after j (rows ++ row ∷ []) ≡ next_new row.kind (new_after j rows)
new_after-append j [] row = refl
new_after-append j (r ∷ rows) row = new_after-append (next_new r.kind j) rows row

CellsAt-IsOneSided :
    (kind : DiffLineKind) (i j : ℕ) (row : UnifiedRow)
    → row.kind ≡ kind
    → RowAt i j row
    → IsOneSided row
CellsAt-IsOneSided kind i j row e h = ground arith

pub RowsAt-IsOneSided : (i j : ℕ) (rows : List UnifiedRow) → RowsAt i j rows → All IsOneSided rows
RowsAt-IsOneSided i j [] h = tt
RowsAt-IsOneSided i j (row ∷ rows) h = (
  CellsAt-IsOneSided row.kind i j row refl h.0,
  RowsAt-IsOneSided (next_old row.kind i) (next_new row.kind j) rows h.1,
)
