-- ===== src/Diff/Patch/Sides.antt =====
-- crates/diff/src/lib.rs, `parse_unified_patch`: the two sides of a hunk against its header, with the
-- arithmetic of the patch parser left behind.
use localreview.Prelude.{
  ℕ, zero, suc, ◌+◌, max, min, ◌≡◌, refl, ap, ◌∙◌, List, [], ◌∷◌, Option, none, some, All, All-mono,
  filter, filter_map, length, map, if◌then◌else◌,
}
use localreview.Prelude.Text.{Bytes}
use localreview.Prelude.Result.{ok}
use localreview.Domain.Annotations.{DiffSide}
use localreview.Diff.Types.{
  RoaringBitmap, DiffLineKind, context, addition, removal, DiffCell, UnifiedRow, HunkHeader,
  ReviewDiffDocument, wrap32, u32_max,
}
use localreview.Diff.Patch.Builder.{is_some, hunk_line_counts}
use localreview.Diff.Patch.Numbering.{IsCell, CellsAt, RowsAt, next_old, next_new, IsHunk}
use localreview.Diff.Patch.Parse.{parse_unified_patch}
use localreview.Diff.Patch.Sound.{IsCounted, parse_unified_patch-IsCounted}

-- `n` numbers counted up from `start` in 32 bits, with 1 in the place of 0.
abbrev pub numbers_from : ℕ → ℕ → List ℕ
numbers_from start zero = []
numbers_from start (suc n) = wrap32 (max 1 start) ∷ numbers_from (wrap32 (start + 1)) n

abbrev Sided : DiffSide → ℕ → List DiffCell → Type 0
Sided side start cells =
    All (λ c. c.side ≡ side) cells
    × (map (λ c. c.line_number) cells ≡ numbers_from start (length cells))

-- The cells are of the side, are numbered from `start` on, and are `count` many, where 2 ^ 32 - 1 stands for
-- any larger number too.
abbrev pub IsSide : DiffSide → ℕ → ℕ → List DiffCell → Type 0
IsSide side start count cells =
    All (λ c. c.side ≡ side) cells
    × (map (λ c. c.line_number) cells ≡ numbers_from start (length cells))
    × (min (length cells) u32_max ≡ count)

abbrev pub IsOf : DiffLineKind → Option DiffCell → Type 0
IsOf kind none = ⊥
IsOf kind (some c) = c.kind ≡ kind

-- A context row has a cell on both sides, a removal one on the old and an addition one on the new, and
-- the cells are of the row's kind.
abbrev pub HasKindCells : DiffLineKind → UnifiedRow → Type 0
HasKindCells context row = IsOf context row.old × IsOf context row.new
HasKindCells removal row = IsOf removal row.old × (row.new ≡ none)
HasKindCells addition row = (row.old ≡ none) × IsOf addition row.new

abbrev pub IsLined : HunkHeader → List UnifiedRow → Type 0
IsLined header rows =
    All (λ row. HasKindCells row.kind row) rows
    × IsSide DiffSide.old header.old_start header.old_count (filter_map (λ row. row.old) rows)
    × IsSide DiffSide.new header.new_start header.new_count (filter_map (λ row. row.new) rows)

-- Every hunk of the document has the lines of its header on both sides.
abbrev pub AreLined : {B : Type 0} → ReviewDiffDocument B → Type 0
AreLined document = All (λ hunk. IsLined hunk.header hunk.unified_rows) document.hunks

cell-IsOf :
    (side : DiffSide) (line : ℕ) (kind : DiffLineKind) (c : Option DiffCell)
    → IsCell side line kind c
    → IsOf kind c
cell-IsOf side line kind none h = h
cell-IsOf side line kind (some c) h = h.1

CellsAt-HasKindCells :
    (kind : DiffLineKind) (i j : ℕ) (row : UnifiedRow)
    → CellsAt kind i j row
    → HasKindCells kind row
CellsAt-HasKindCells context i j row h =
    (cell-IsOf DiffSide.old i context row.old h.0, cell-IsOf DiffSide.new j context row.new h.1)
CellsAt-HasKindCells removal i j row h = (cell-IsOf DiffSide.old i removal row.old h.0, h.1)
CellsAt-HasKindCells addition i j row h = (h.0, cell-IsOf DiffSide.new j addition row.new h.1)

RowsAt-HasKindCells :
    (i j : ℕ) (rows : List UnifiedRow)
    → RowsAt i j rows
    → All (λ row. HasKindCells row.kind row) rows
RowsAt-HasKindCells i j [] h = tt
RowsAt-HasKindCells i j (row ∷ rows) h = (
  CellsAt-HasKindCells row.kind i j row h.0,
  RowsAt-HasKindCells (next_old row.kind i) (next_new row.kind j) rows h.1,
)

-- A cell, where there is one, in front of the others.
abbrev with_cell : Option DiffCell → List DiffCell → List DiffCell
with_cell c cells = elim c [ none ↦ cells | some d ↦ d ∷ cells ]

Sided-cell :
    (side : DiffSide) (line : ℕ) (kind : DiffLineKind) (c : Option DiffCell) (cells : List DiffCell)
    → IsCell side line kind c
    → Sided side (wrap32 (line + 1)) cells
    → Sided side line (with_cell c cells)
Sided-cell side line kind none cells h v = elim h [ ]
Sided-cell side line kind (some c) cells h v = (
  (h.0, v.0),
  ap (◌∷◌ c.line_number) v.1 ∙ ap (λ n. n ∷ numbers_from (wrap32 (line + 1)) (length cells)) h.3,
)

Sided-old :
    (kind : DiffLineKind) (i j : ℕ) (row : UnifiedRow) (cells : List DiffCell)
    → CellsAt kind i j row
    → Sided DiffSide.old (next_old kind i) cells
    → Sided DiffSide.old i (with_cell row.old cells)
Sided-old context i j row cells h v = Sided-cell DiffSide.old i context row.old cells h.0 v
Sided-old removal i j row cells h v = Sided-cell DiffSide.old i removal row.old cells h.0 v
Sided-old addition i j row cells h v = rw h.0 v

Sided-new :
    (kind : DiffLineKind) (i j : ℕ) (row : UnifiedRow) (cells : List DiffCell)
    → CellsAt kind i j row
    → Sided DiffSide.new (next_new kind j) cells
    → Sided DiffSide.new j (with_cell row.new cells)
Sided-new context i j row cells h v = Sided-cell DiffSide.new j context row.new cells h.1 v
Sided-new addition i j row cells h v = Sided-cell DiffSide.new j addition row.new cells h.1 v
Sided-new removal i j row cells h v = rw h.1 v

RowsAt-Sided :
    (i j : ℕ) (rows : List UnifiedRow)
    → RowsAt i j rows
    → Sided DiffSide.old i (filter_map (λ row. row.old) rows)
      × Sided DiffSide.new j (filter_map (λ row. row.new) rows)
RowsAt-Sided i j [] h = ((tt, refl), (tt, refl))
RowsAt-Sided i j (row ∷ rows) h =
    let (old, new) = RowsAt-Sided (next_old row.kind i) (next_new row.kind j) rows h.1 in
    (
      Sided-old row.kind i j row (filter_map (λ r. r.old) rows) h.0 old,
      Sided-new row.kind i j row (filter_map (λ r. r.new) rows) h.0 new,
    )

length-counted :
    (side : UnifiedRow → Option DiffCell) (rows : List UnifiedRow)
    → length (filter_map side rows) ≡ length (filter (λ row. is_some (side row)) rows)
length-counted side [] = refl
length-counted side (row ∷ rows) = first (length-counted side rows) (side row)
  where
    first :
        (rest : length (filter_map side rows) ≡ length (filter (λ r. is_some (side r)) rows))
        (c : Option DiffCell)
        → length (with_cell c (filter_map side rows))
          ≡ length (
              if is_some c
              then row ∷ filter (λ r. is_some (side r)) rows
              else filter (λ r. is_some (side r)) rows)
    first rest none = rest
    first rest (some d) = ap suc rest

IsHunk-IsLined :
    (header : HunkHeader) (rows : List UnifiedRow) → IsHunk header rows → IsLined header rows
unfolding hunk_line_counts
IsHunk-IsLined header rows (at, old_count, new_count) =
    let ((old_sides, old_numbers), (new_sides, new_numbers)) =
      RowsAt-Sided header.old_start header.new_start rows at in
    (
      RowsAt-HasKindCells header.old_start header.new_start rows at,
      (
        old_sides,
        old_numbers,
        ap (λ n. min n u32_max) (length-counted (λ row. row.old) rows) ∙ old_count,
      ),
      (
        new_sides,
        new_numbers,
        ap (λ n. min n u32_max) (length-counted (λ row. row.new) rows) ∙ new_count,
      ),
    )

module _ (hash : Bytes → Bytes) (bm : RoaringBitmap) where
  -- In every hunk of every document of a patch that parses, a context row has a cell on both sides, a
  -- removal one on the old and an addition one on the new, of the row's kind; and the cells of a side are
  -- of that side, carry in order the numbers counted up in 32 bits from the header's start, with 1 in the
  -- place of 0, and are as many as the header says, where its count is below 2 ^ 32 - 1, and at least as
  -- many where it is that.
  pub parse_unified_patch-AreLined :
      (ids : ℕ → ℕ) (patch : Bytes) (comparison_id : ℕ)
      (documents : List (ReviewDiffDocument bm.Carrier))
      → parse_unified_patch hash bm ids patch comparison_id ≡ ok documents
      → All AreLined documents
  parse_unified_patch-AreLined ids patch comparison_id documents e =
      All-mono (λ (d : ReviewDiffDocument bm.Carrier). IsCounted d)
        (λ (d : ReviewDiffDocument bm.Carrier). AreLined d) documents
        (λ d counted.
          All-mono (λ hunk. IsHunk hunk.header hunk.unified_rows)
            (λ hunk. IsLined hunk.header hunk.unified_rows) d.hunks
            (λ hunk v. IsHunk-IsLined hunk.header hunk.unified_rows v) counted)
        (parse_unified_patch-IsCounted hash bm ids patch comparison_id documents e)
