-- ===== src/Diff/Split/Lossless.antt =====
-- crates/diff/src/lib.rs, `build_split_rows`: the cells of the split rows against those of the unified rows.
use localreview.Prelude.{
  ℕ, zero, suc, ◌+◌, ◌≤◌, max, ◌≡◌, refl, sym, ap, ◌∙◌, List, [], ◌∷◌, ◌++◌, Option, none, some,
  arith, length, to_list, drop, drop-get_elem?, drop_all, filter_map, filter_map-append, All,
  append-nil, append_assoc,
}
use localreview.Prelude.Text.{Bytes}
use localreview.Diff.Types.{
  DiffLineKind, context, addition, removal, DiffCell, UnifiedRow, SplitRow, StableHunkId,
}
use localreview.Diff.Split.{
  Pending, push_split, flush_rounds, flush, split_row, split_loop, build_split_rows,
}

-- A removal has no cell on the new side, an addition none on the old side.
abbrev OneSided : DiffLineKind → UnifiedRow → Type 0
OneSided removal row = row.new ≡ none
OneSided addition row = row.old ≡ none
OneSided context row = Unit

abbrev pub IsOneSided : UnifiedRow → Type 0
IsOneSided row = OneSided row.kind row

abbrev pub split_old : List SplitRow → List DiffCell
split_old = filter_map (λ row. row.old)

abbrev pub split_new : List SplitRow → List DiffCell
split_new = filter_map (λ row. row.new)

abbrev pub unified_old : List UnifiedRow → List DiffCell
unified_old = filter_map (λ row. row.old)

abbrev pub unified_new : List UnifiedRow → List DiffCell
unified_new = filter_map (λ row. row.new)

unified_cons :
    (cell : Option DiffCell) (rest : List DiffCell)
    → to_list cell ++ rest ≡ elim cell [ none ↦ rest | some c ↦ c ∷ rest ]
unified_cons none rest = refl
unified_cons (some c) rest = refl

module _ (hash : Bytes → Bytes) (hunk_id : StableHunkId) where
  push_split-old :
      (old new : Option DiffCell) (rows : List SplitRow)
      → split_old (push_split hash hunk_id old new rows) ≡ split_old rows ++ to_list old
  unfolding push_split
  push_split-old none new rows = filter_map-append (λ (row : SplitRow). row.old) rows _
  push_split-old (some c) new rows = filter_map-append (λ (row : SplitRow). row.old) rows _

  push_split-new :
      (old new : Option DiffCell) (rows : List SplitRow)
      → split_new (push_split hash hunk_id old new rows) ≡ split_new rows ++ to_list new
  unfolding push_split
  push_split-new old none rows = filter_map-append (λ (row : SplitRow). row.new) rows _
  push_split-new old (some c) rows = filter_map-append (λ (row : SplitRow). row.new) rows _

  flush_rounds-old :
      (rounds index : ℕ) (rs xs : List DiffCell) (rows : List SplitRow)
      → length rs ≤ index + rounds
      → split_old (flush_rounds hash hunk_id rounds index rs xs rows)
        ≡ split_old rows ++ drop index rs
  unfolding flush_rounds
  flush_rounds-old zero index rs xs rows h =
      rw (drop_all rs index (omega arith)) (sym (append-nil _))
  flush_rounds-old (suc rounds) index rs xs rows h =
      flush_rounds-old rounds (suc index) rs xs _ (omega arith)
      ∙ simp (push_split-old, append_assoc)
          (ap (◌++◌ (split_old rows)) (sym (drop-get_elem? rs index)))

  flush_rounds-new :
      (rounds index : ℕ) (rs xs : List DiffCell) (rows : List SplitRow)
      → length xs ≤ index + rounds
      → split_new (flush_rounds hash hunk_id rounds index rs xs rows)
        ≡ split_new rows ++ drop index xs
  unfolding flush_rounds
  flush_rounds-new zero index rs xs rows h =
      rw (drop_all xs index (omega arith)) (sym (append-nil _))
  flush_rounds-new (suc rounds) index rs xs rows h =
      flush_rounds-new rounds (suc index) rs xs _ (omega arith)
      ∙ simp (push_split-new, append_assoc)
          (ap (◌++◌ (split_new rows)) (sym (drop-get_elem? xs index)))

  -- A flush writes all pending cells out, those of each side in order.
  flush_sides :
      (s : Pending)
      → (split_old (flush hash hunk_id s).result ≡ split_old s.result ++ s.removals)
        × (split_new (flush hash hunk_id s).result ≡ split_new s.result ++ s.additions)
  unfolding flush
  flush_sides s = (
    flush_rounds-old (max (length s.removals) (length s.additions)) 0 s.removals s.additions
        s.result (omega arith),
    flush_rounds-new (max (length s.removals) (length s.additions)) 0 s.removals s.additions
        s.result (omega arith),
  )

  -- All cells of a state, written out or pending.
  abbrev held_old : Pending → List DiffCell
  held_old s = split_old s.result ++ s.removals

  abbrev held_new : Pending → List DiffCell
  held_new s = split_new s.result ++ s.additions

  split_row_sides :
      (kind : DiffLineKind) (row : UnifiedRow) (s : Pending)
      → OneSided kind row
      → (held_old (split_row hash hunk_id kind row s) ≡ held_old s ++ to_list row.old)
        × (held_new (split_row hash hunk_id kind row s) ≡ held_new s ++ to_list row.new)
  unfolding split_row flush
  split_row_sides removal row s h = (rw append_assoc, rw h (sym (append-nil _)))
  split_row_sides addition row s h = (rw h (sym (append-nil _)), rw append_assoc)
  split_row_sides context row s h = (
    append-nil _
        ∙ push_split-old row.old row.new (flush hash hunk_id s).result
        ∙ ap (λ t. t ++ to_list row.old) (flush_sides s).0,
    append-nil _
        ∙ push_split-new row.old row.new (flush hash hunk_id s).result
        ∙ ap (λ t. t ++ to_list row.new) (flush_sides s).1,
  )

  split_loop_sides :
      (rows : List UnifiedRow) (s : Pending)
      → All IsOneSided rows
      → (held_old (split_loop hash hunk_id rows s) ≡ held_old s ++ unified_old rows)
        × (held_new (split_loop hash hunk_id rows s) ≡ held_new s ++ unified_new rows)
  unfolding split_loop
  split_loop_sides [] s h = (sym (append-nil _), sym (append-nil _))
  split_loop_sides (row ∷ rows) s h =
      let step = split_row_sides row.kind row s h.0 in
      let rest = split_loop_sides rows (split_row hash hunk_id row.kind row s) h.1 in
      (
        rest.0
            ∙ rw step.0 (
                append_assoc (held_old s) (to_list row.old) (unified_old rows)
                ∙ ap (◌++◌ (held_old s)) (unified_cons row.old _)),
        rest.1
            ∙ rw step.1 (
                append_assoc (held_new s) (to_list row.new) (unified_new rows)
                ∙ ap (◌++◌ (held_new s)) (unified_cons row.new _)),
      )

  -- The split rows of a hunk hold exactly the old cells of its unified rows, and exactly the new
  -- cells, each in the order of the unified rows, where removals and additions are one-sided.
  pub build_split_rows-lossless :
      (rows : List UnifiedRow)
      → All IsOneSided rows
      → (split_old (build_split_rows hash hunk_id rows) ≡ unified_old rows)
        × (split_new (build_split_rows hash hunk_id rows) ≡ unified_new rows)
  unfolding build_split_rows
  build_split_rows-lossless rows h =
      let start : Pending = record { result = []; removals = []; additions = [] } in
      let looped = split_loop_sides rows start h in
      let flushed = flush_sides (split_loop hash hunk_id rows start) in
      (flushed.0 ∙ looped.0, flushed.1 ∙ looped.1)
