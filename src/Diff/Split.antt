-- ===== src/Diff/Split.antt =====
-- crates/diff/src/lib.rs, `build_split_rows` and `make_hunk`: the side-by-side presentation of a hunk.
pub mod Lossless
use localreview.Prelude.{ℕ, zero, suc, max, List, [], ◌∷◌, ◌++◌, Option, length, get_elem?, to_list}
use localreview.Prelude.Text.{Bytes}
use localreview.Diff.Types.{
  ReviewFile, HunkHeader, DiffLineKind, context, addition, removal, DiffCell, UnifiedRow, SplitRow,
  StableHunkId, ReviewHunk,
}
use localreview.Diff.Rows.{split_id, stable_hunk_id}

-- The local variables of the loop.
pub record Pending : Type 0 where
  pub result : List SplitRow
  pub removals : List DiffCell
  pub additions : List DiffCell

module _ (hash : Bytes → Bytes) (hunk_id : StableHunkId) where
  -- `result.push` of the row of these cells, under the id of its position.
  unfoldable pub push_split : Option DiffCell → Option DiffCell → List SplitRow → List SplitRow
  push_split old new result =
      result
      ++ (record { id = split_id hash hunk_id (length result) old new; old = old; new = new } ∷ [])

  -- `for index in 0..length`: the rounds left, and the index.
  unfoldable pub flush_rounds :
      ℕ → ℕ → List DiffCell → List DiffCell → List SplitRow → List SplitRow
  flush_rounds zero index removals additions result = result
  flush_rounds (suc rounds) index removals additions result =
      flush_rounds rounds (suc index) removals additions
        (push_split (get_elem? removals index) (get_elem? additions index) result)

  unfoldable pub flush : Pending → Pending
  unfolding flush_rounds push_split
  flush s = record {
    result =
        flush_rounds (max (length s.removals) (length s.additions)) 0 s.removals s.additions
          s.result;
    removals = [];
    additions = [];
  }

  -- One round of the loop, by the kind of the row.
  unfoldable pub split_row : DiffLineKind → UnifiedRow → Pending → Pending
  split_row removal row s = record s { removals = s.removals ++ to_list row.old }
  split_row addition row s = record s { additions = s.additions ++ to_list row.new }
  split_row context row s =
      let flushed = flush s in record flushed { result = push_split row.old row.new flushed.result }

  unfoldable pub split_loop : List UnifiedRow → Pending → Pending
  unfolding split_row
  split_loop [] s = s
  split_loop (row ∷ rows) s = split_loop rows (split_row row.kind row s)

  unfoldable pub build_split_rows : List UnifiedRow → List SplitRow
  unfolding split_loop flush
  build_split_rows rows =
      (flush (split_loop rows (record { result = []; removals = []; additions = [] }))).result

unfoldable pub make_hunk :
    (hash : Bytes → Bytes) → ReviewFile → HunkHeader → List UnifiedRow → ReviewHunk
make_hunk hash file header rows =
    let id = stable_hunk_id hash file header rows in
    record {
      id = id;
      header = header;
      unified_rows = rows;
      split_rows = build_split_rows hash id rows;
    }
