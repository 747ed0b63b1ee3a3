-- ===== src/Diff/Compare/Numbered.antt =====
-- crates/diff/src/lib.rs, `document_from_sources`: the headers of the hunks against their rows.
use localreview.Prelude.{
  ℕ, suc, ◌+◌, ◌≡◌, refl, sym, ◌∙◌, subst, Bool, false, List, [], ◌∷◌, Option, none, some, All,
  All-append, length, filter, ◌==◌, arith, Bool-cases, inl, inr, ◌⊎◌,
}
use localreview.Prelude.Text.{Bytes}
use localreview.Domain.Annotations.{DiffSide}
use localreview.Diff.Types.{
  RoaringBitmap, ReviewFile, DiffLineKind, context, addition, removal, DiffCell, UnifiedRow,
  ReviewHunk,
}
use localreview.Diff.Split.{make_hunk}
use localreview.Diff.Source.{source_document, source_lines}
use localreview.Diff.Compare.{
  Change, Group, push_changes, new_group, start_of, group_header, group_hunk, compare_groups,
  document_from_sources,
}
use localreview.Diff.Compare.Changes.{ChangesAt, olds, news, StartsAt, Inv, push_changes-Inv}
use localreview.Diff.Patch.Builder.{is_some, hunk_line_counts}
use localreview.Diff.Patch.Numbering.{IsCell, CellsAt, RowsAt, next_old, next_new, IsHunk}
use localreview.Diff.Patch.Sound.{IsCounted}

is_some-IsCell :
    (side : DiffSide) (n : ℕ) (kind : DiffLineKind) (c : Option DiffCell)
    → IsCell side n kind c
    → is_some c ≡ false
    → ⊥
is_some-IsCell side n kind none h e = h
is_some-IsCell side n kind (some c) h e = ground arith

old_free_cells :
    (kind : DiffLineKind) (i i' j : ℕ) (row : UnifiedRow)
    → is_some row.old ≡ false
    → CellsAt kind i j row
    → CellsAt kind i' j row
old_free_cells addition i i' j row e h = h
old_free_cells context i i' j row e h = absurd (is_some-IsCell DiffSide.old i context row.old h.0 e)
old_free_cells removal i i' j row e h = absurd (is_some-IsCell DiffSide.old i removal row.old h.0 e)

new_free_cells :
    (kind : DiffLineKind) (i j j' : ℕ) (row : UnifiedRow)
    → is_some row.new ≡ false
    → CellsAt kind i j row
    → CellsAt kind i j' row
new_free_cells removal i j j' row e h = h
new_free_cells context i j j' row e h = absurd (is_some-IsCell DiffSide.new j context row.new h.1 e)
new_free_cells addition i j j' row e h =
    absurd (is_some-IsCell DiffSide.new j addition row.new h.1 e)

none_counted :
    (test : UnifiedRow → Bool) (row : UnifiedRow) (rows : List UnifiedRow)
    → length (filter test (row ∷ rows)) ≡ 0
    → (test row ≡ false) × (length (filter test rows) ≡ 0)
none_counted test row rows h = elim (Bool-cases (test row)) [
  | inr without ↦ (without, rw (without, filter) at h)
  | inl held ↦
      let more : suc (length (filter test rows)) ≡ 0 = rw (held, filter) at h in
      absurd (omega arith)
]

-- Where no row has an old cell, the rows stand at any old line.
old_free :
    (i i' j : ℕ) (rows : List UnifiedRow) → olds rows ≡ 0 → RowsAt i j rows → RowsAt i' j rows
old_free i i' j [] e h = tt
old_free i i' j (row ∷ rows) e h =
    let (without, rest) = none_counted (λ r. is_some r.old) row rows e in
    (
      old_free_cells row.kind i i' j row without h.0,
      old_free (next_old row.kind i) (next_old row.kind i') (next_new row.kind j) rows rest h.1,
    )

new_free :
    (i j j' : ℕ) (rows : List UnifiedRow) → news rows ≡ 0 → RowsAt i j rows → RowsAt i j' rows
new_free i j j' [] e h = tt
new_free i j j' (row ∷ rows) e h =
    let (without, rest) = none_counted (λ r. is_some r.new) row rows e in
    (
      new_free_cells row.kind i j j' row without h.0,
      new_free (next_old row.kind i) (next_new row.kind j) (next_new row.kind j') rows rest h.1,
    )

start_found :
    (first count : ℕ) (empty_start start : Option ℕ)
    → StartsAt first count start
    → (count ≡ 0) ⊎ (first ≡ start_of count empty_start start)
start_found first count empty_start none h = inl h
start_found first count empty_start (some start) h = elim (Bool-cases (count == 0)) [
  | inl none_held ↦ inl (ground arith)
  | inr held ↦ inr (rw held (sym h))
]

old_moved :
    (first j count : ℕ) (empty_start start : Option ℕ) (rows : List UnifiedRow)
    → olds rows ≡ count
    → StartsAt first count start
    → RowsAt first j rows
    → RowsAt (start_of count empty_start start) j rows
old_moved first j count empty_start start rows counted starts h =
    elim (start_found first count empty_start start starts) [
      | inl free ↦ old_free first (start_of count empty_start start) j rows (counted ∙ free) h
      | inr found ↦ subst (λ (i : ℕ). RowsAt i j rows) found h
    ]

new_moved :
    (i first count : ℕ) (empty_start start : Option ℕ) (rows : List UnifiedRow)
    → news rows ≡ count
    → StartsAt first count start
    → RowsAt i first rows
    → RowsAt i (start_of count empty_start start) rows
new_moved i first count empty_start start rows counted starts h =
    elim (start_found first count empty_start start starts) [
      | inl free ↦ new_free i first (start_of count empty_start start) rows (counted ∙ free) h
      | inr found ↦ subst (λ (j : ℕ). RowsAt i j rows) found h
    ]

module _ (hash : Bytes → Bytes) (bm : RoaringBitmap) where
  new_group-Inv :
      (i j : ℕ) (changed_old changed_new : bm.Carrier)
      → Inv i j i j (new_group hash bm changed_old changed_new)
  new_group-Inv i j changed_old changed_new = record {
    numbered = tt;
    old_at = refl;
    new_at = refl;
    old_counted = refl;
    new_counted = refl;
    old_taken = omega arith;
    new_taken = omega arith;
    old_fits = omega arith;
    new_fits = omega arith;
    old_starts = refl;
    new_starts = refl;
  }

  Inv-IsHunk :
      (i₀ j₀ i j : ℕ) (g : Group bm.Carrier)
      → Inv i₀ j₀ i j g
      → IsHunk (group_header hash bm g) g.rows
  unfolding group_header hunk_line_counts
  Inv-IsHunk i₀ j₀ i j g v =
      let at_old =
        old_moved (i₀ + 1) (j₀ + 1) g.old_count g.old_empty_range_start g.old_start g.rows
          v.old_counted v.old_starts v.numbered in
      (
        new_moved (start_of g.old_count g.old_empty_range_start g.old_start) (j₀ + 1) g.new_count
            g.new_empty_range_start g.new_start g.rows v.new_counted v.new_starts at_old,
        omega arith,
        omega arith,
      )

  group_hunk-IsHunk :
      (file : ReviewFile) (g : Group bm.Carrier)
      → IsHunk (group_header hash bm g) g.rows
      → All (λ hunk. IsHunk hunk.header hunk.unified_rows) (group_hunk hash bm file g)
  unfolding make_hunk group_header
  group_hunk-IsHunk file g h = go g.rows h
    where
      go :
          (rows : List UnifiedRow)
          → IsHunk (group_header hash bm g) rows
          → All
              (λ hunk. IsHunk hunk.header hunk.unified_rows)
              (group_hunk hash bm file (record g { rows = rows }))
      go [] k = tt
      go (row ∷ rows) k = (k, tt)

  compare_groups-IsCounted :
      (file : ReviewFile) (old_lines new_lines : ℕ) (groups : List (List Change))
      (changed_old changed_new : bm.Carrier)
      → All (λ changes. (i j : ℕ) × ChangesAt i j changes) groups
      → All
          (λ hunk. IsHunk hunk.header hunk.unified_rows)
          (compare_groups hash bm file old_lines new_lines groups changed_old changed_new).0
  unfolding compare_groups
  compare_groups-IsCounted file old_lines new_lines [] changed_old changed_new h = tt
  compare_groups-IsCounted file old_lines new_lines (changes ∷ groups) changed_old changed_new h =
      let g : Group bm.Carrier =
        push_changes hash bm file old_lines new_lines changes
          (new_group hash bm changed_old changed_new) in
      let (i, j, consecutive) = h.0 in
      let (i', j', v) =
        push_changes-Inv hash bm file i j i j old_lines new_lines changes
          (new_group hash bm changed_old changed_new) consecutive
          (new_group-Inv i j changed_old changed_new) in
      All-append (λ (hunk : ReviewHunk). IsHunk hunk.header hunk.unified_rows)
        (group_hunk hash bm file g)
        (compare_groups hash bm file old_lines new_lines groups g.changed_old g.changed_new).0
        (group_hunk-IsHunk file g (Inv-IsHunk i j i' j' g v))
        (compare_groups-IsCounted file old_lines new_lines groups g.changed_old g.changed_new h.1)

  -- Where each group of changes names consecutive lines of both sources, of fewer than 2 ^ 32 - 1 lines,
  -- each hunk of the document has as many cells on each side as its header says, and its rows, each with
  -- the cells of its kind, are numbered line by line from the header's starts.
  pub document_from_sources-IsCounted :
      (grouped_changes : Bytes → Bytes → List (List Change)) (comparison_id : ℕ) (file : ReviewFile)
      (old_content new_content : Bytes)
      → All (λ changes. (i j : ℕ) × ChangesAt i j changes) (grouped_changes old_content new_content)
      → IsCounted
          (document_from_sources hash bm grouped_changes comparison_id file old_content new_content)
  unfolding document_from_sources
  document_from_sources-IsCounted grouped_changes comparison_id file old_content new_content h =
      compare_groups-IsCounted file (length (source_lines (source_document hash old_content)))
        (length (source_lines (source_document hash new_content)))
        (grouped_changes old_content new_content) bm.empty bm.empty h
