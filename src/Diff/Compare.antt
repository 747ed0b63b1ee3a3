-- ===== src/Diff/Compare.antt =====
-- crates/diff/src/lib.rs, `document_from_sources`. The groups of changes come from the similar package
-- (`grouped_ops(3)`, the changes of each operation in order) and are a parameter.
pub mod Changes
pub mod Numbered
use localreview.Prelude.{
  ℕ, ◌+◌, Bool, true, false, List, [], ◌∷◌, ◌++◌, Option, none, some, length, ◌==◌, if◌then◌else◌,
}
use localreview.Prelude.Text.{Bytes, ends_with}
use localreview.Prelude.Lines.{strip_or_self}
use localreview.Domain.Annotations.{DiffSide}
use localreview.Diff.Types.{
  RoaringBitmap, ReviewFile, HunkHeader, DiffLineKind, context, addition, removal, DiffCell,
  UnifiedRow, ReviewHunk, ReviewDiffDocument, SourceDocument, wrap32, clamp32,
}
use localreview.Diff.Rows.{cell, stable_row_id}
use localreview.Diff.Split.{make_hunk}
use localreview.Diff.Source.{source_document, source_lines}

-- `similar::ChangeTag`, and `similar::Change`.
pub data ChangeTag : Type 0 where
  equal delete insert : ChangeTag

pub record Change : Type 0 where
  pub tag : ChangeTag
  pub old_index : Option ℕ
  pub new_index : Option ℕ
  pub value : Bytes

-- The variables of one round of the loop over the groups, and the bitmaps.
pub record Group (Bitmap : Type 0) : Type 0 where
  pub rows : List UnifiedRow
  pub old_start : Option ℕ
  pub new_start : Option ℕ
  pub old_empty_range_start : Option ℕ
  pub new_empty_range_start : Option ℕ
  pub old_count : ℕ
  pub new_count : ℕ
  pub changed_old : Bitmap
  pub changed_new : Bitmap

-- `unwrap_or`.
abbrev pub or_default : Option ℕ → ℕ → ℕ
or_default none otherwise = otherwise
or_default (some n) otherwise = n

-- `get_or_insert`.
abbrev pub get_or_insert : ℕ → Option ℕ → Option ℕ
get_or_insert n none = some n
get_or_insert n (some m) = some m

abbrev pub index_of : Option ℕ → ℕ
index_of index = clamp32 (or_default index 0)

-- Where a side of a hunk starts.
abbrev pub start_of : ℕ → Option ℕ → Option ℕ → ℕ
start_of count empty_start start =
    if count == 0 then or_default empty_start 0 else or_default start 1

module _ (hash : Bytes → Bytes) (bm : RoaringBitmap) where
  -- `rows.push(…)` under the stable id of the row.
  unfoldable pub push_change_row :
      ReviewFile
      → DiffLineKind
      → Option DiffCell
      → Option DiffCell
      → Group bm.Carrier
      → Group bm.Carrier
  push_change_row file kind old new g = record g {
    rows =
        g.rows
        ++ (record {
          id = stable_row_id hash file old new kind (length g.rows);
          kind = kind;
          old = old;
          new = new;
        }
            ∷ []);
  }

  abbrev pub change_cell : DiffSide → ℕ → DiffLineKind → Bytes → DiffCell
  change_cell side index kind value =
      cell side index kind (strip_or_self b'\n' value) (ends_with b'\n' value)

  unfoldable pub push_equal : ReviewFile → Change → Group bm.Carrier → Group bm.Carrier
  unfolding push_change_row
  push_equal file change g =
      let old = index_of change.old_index in
      let new = index_of change.new_index in
      push_change_row file context (some (change_cell DiffSide.old old context change.value))
        (some (change_cell DiffSide.new new context change.value))
        (record g {
          old_start = get_or_insert (wrap32 (old + 1)) g.old_start;
          new_start = get_or_insert (wrap32 (new + 1)) g.new_start;
          old_count = wrap32 (g.old_count + 1);
          new_count = wrap32 (g.new_count + 1);
        })

  -- `lines` is the number of lines of the new source.
  unfoldable pub push_delete : ReviewFile → ℕ → Change → Group bm.Carrier → Group bm.Carrier
  unfolding push_change_row
  push_delete file lines change g =
      let old = index_of change.old_index in
      push_change_row file removal (some (change_cell DiffSide.old old removal change.value)) none
        (record g {
          old_start = get_or_insert (wrap32 (old + 1)) g.old_start;
          new_empty_range_start =
              get_or_insert (clamp32 (or_default change.new_index lines)) g.new_empty_range_start;
          old_count = wrap32 (g.old_count + 1);
          changed_old = bm.insert (wrap32 (old + 1)) g.changed_old;
        })

  -- `lines` is the number of lines of the old source.
  unfoldable pub push_insert : ReviewFile → ℕ → Change → Group bm.Carrier → Group bm.Carrier
  unfolding push_change_row
  push_insert file lines change g =
      let new = index_of change.new_index in
      push_change_row file addition none (some (change_cell DiffSide.new new addition change.value))
        (record g {
          old_empty_range_start =
              get_or_insert (clamp32 (or_default change.old_index lines)) g.old_empty_range_start;
          new_start = get_or_insert (wrap32 (new + 1)) g.new_start;
          new_count = wrap32 (g.new_count + 1);
          changed_new = bm.insert (wrap32 (new + 1)) g.changed_new;
        })

  -- One change, by its tag.
  unfoldable pub push_change :
      ReviewFile → ℕ → ℕ → ChangeTag → Change → Group bm.Carrier → Group bm.Carrier
  unfolding push_equal push_delete push_insert
  push_change file old_lines new_lines equal change g = push_equal file change g
  push_change file old_lines new_lines delete change g = push_delete file new_lines change g
  push_change file old_lines new_lines insert change g = push_insert file old_lines change g

  unfoldable pub push_changes :
      ReviewFile → ℕ → ℕ → List Change → Group bm.Carrier → Group bm.Carrier
  unfolding push_change
  push_changes file old_lines new_lines [] g = g
  push_changes file old_lines new_lines (change ∷ changes) g =
      push_changes file old_lines new_lines changes
        (push_change file old_lines new_lines change.tag change g)

  -- A round begins with the bitmaps of the rounds before.
  abbrev pub new_group : bm.Carrier → bm.Carrier → Group bm.Carrier
  new_group changed_old changed_new = record {
    rows = [];
    old_start = none;
    new_start = none;
    old_empty_range_start = none;
    new_empty_range_start = none;
    old_count = 0;
    new_count = 0;
    changed_old = changed_old;
    changed_new = changed_new;
  }

  unfoldable pub group_header : Group bm.Carrier → HunkHeader
  group_header g = record {
    old_start = start_of g.old_count g.old_empty_range_start g.old_start;
    old_count = g.old_count;
    new_start = start_of g.new_count g.new_empty_range_start g.new_start;
    new_count = g.new_count;
    context = none;
  }

  abbrev pub group_hunk : ReviewFile → Group bm.Carrier → List ReviewHunk
  group_hunk file g = elim g.rows [
    | [] ↦ []
    | row ∷ rows ↦ make_hunk hash file (group_header g) (row ∷ rows) ∷ []
  ]

  -- The hunks of the groups, and the bitmaps behind them.
  unfoldable pub compare_groups :
      ReviewFile
      → ℕ
      → ℕ
      → List (List Change)
      → bm.Carrier
      → bm.Carrier
      → List ReviewHunk × bm.Carrier × bm.Carrier
  unfolding push_changes group_header
  compare_groups file old_lines new_lines [] changed_old changed_new =
      ([], changed_old, changed_new)
  compare_groups file old_lines new_lines (changes ∷ groups) changed_old changed_new =
      let g = push_changes file old_lines new_lines changes (new_group changed_old changed_new) in
      let rest = compare_groups file old_lines new_lines groups g.changed_old g.changed_new in
      (group_hunk file g ++ rest.0, rest.1, rest.2)

  unfoldable pub document_from_sources :
      (Bytes → Bytes → List (List Change))
      → ℕ
      → ReviewFile
      → Bytes
      → Bytes
      → ReviewDiffDocument bm.Carrier
  unfolding compare_groups source_document
  document_from_sources grouped_changes comparison_id file old_content new_content =
      let old = source_document hash old_content in
      let new = source_document hash new_content in
      let compared =
        compare_groups file (length (source_lines old)) (length (source_lines new))
          (grouped_changes old_content new_content) bm.empty bm.empty in
      record {
        comparison_id = comparison_id;
        file = file;
        old = old;
        new = new;
        hunks = compared.0;
        changed_old_lines = compared.1;
        changed_new_lines = compared.2;
      }
