-- ===== src/Diff/Patch/Builder.antt =====
-- crates/diff/src/lib.rs, `PatchFileBuilder`: one file of a patch while its lines are read. A method
-- returns the new builder. `file_id` is the id that `ReviewFileId::new()` draws.
use localreview.Prelude.{
  ℕ, ◌+◌, ◌-◌, Bool, true, false, ◌&&◌, ◌||◌, not, List, [], ◌∷◌, ◌++◌, Option, none, some, length,
  filter, ◌==◌, if◌then◌else◌,
}
use localreview.Prelude.Text.{Bytes}
use localreview.Prelude.Lines.{strip_suffix}
use localreview.Prelude.Result.{Result, ok, err, ◌>>=◌, ◌>>◌, ok_or}
use localreview.Domain.Annotations.{DiffSide}
use localreview.Diff.Types.{
  RoaringBitmap, ReviewFileStatus, modified, ReviewFile, HunkHeader, DiffLineKind, context,
  addition, removal, DiffCell, UnifiedRow, ReviewHunk, ReviewDiffDocument, DiffError,
  invalid_hunk_line, hunk_line_count_mismatch, missing_no_newline_target, wrap32, clamp32,
}
use localreview.Diff.Rows.{cell, stable_row_id}
use localreview.Diff.Split.{make_hunk}
use localreview.Diff.Source.{source_document}
use localreview.Diff.Patch.Header.{parse_hunk_header}

pub record PatchFileBuilder (Bitmap : Type 0) : Type 0 where
  pub path : Bytes
  pub old_path : Option Bytes
  pub status : ReviewFileStatus
  pub hunks : List (HunkHeader × List UnifiedRow)
  pub active_header : Option HunkHeader
  pub active_rows : List UnifiedRow
  pub old_snippet : Bytes
  pub new_snippet : Bytes
  pub old_line : ℕ
  pub new_line : ℕ
  pub changed_old : Bitmap
  pub changed_new : Bitmap

abbrev pub is_some {ℓ} : {A : Type ℓ} → Option A → Bool
is_some none = false
is_some (some x) = true

-- `rows.iter().filter(|row| row.old.is_some()).count()`, and the same of the new side.
unfoldable pub hunk_line_counts : List UnifiedRow → ℕ × ℕ
hunk_line_counts rows = (
  clamp32 (length (filter (λ row. is_some row.old) rows)),
  clamp32 (length (filter (λ row. is_some row.new) rows)),
)

-- `snippet.pop() == Some('\n')`.
unfoldable pub remove_final_newline : Bytes → Result DiffError Bytes
remove_final_newline snippet = ok_or (strip_suffix b'\n' snippet) missing_no_newline_target

-- `last_mut`: the rows before the last, and the last.
unfoldable pub split_last : List UnifiedRow → Option (List UnifiedRow × UnifiedRow)
split_last [] = none
split_last (row ∷ rows) = elim (split_last rows) [
  | none ↦ some ([], row)
  | some (front, last) ↦ some (row ∷ front, last)
]

abbrev pub without_newline : Option DiffCell → Option DiffCell
without_newline none = none
without_newline (some c) = some (record c { has_trailing_newline = false })

module _ (hash : Bytes → Bytes) (bm : RoaringBitmap) where
  abbrev Builder : Type 0
  Builder = PatchFileBuilder bm.Carrier

  unfoldable pub new_builder : Bytes → Bytes → Builder
  new_builder old_path new_path = record {
    path = new_path;
    old_path = some old_path;
    status = modified;
    hunks = [];
    active_header = none;
    active_rows = [];
    old_snippet = [];
    new_snippet = [];
    old_line = 0;
    new_line = 0;
    changed_old = bm.empty;
    changed_new = bm.empty;
  }

  abbrev pub file_of : Builder → ℕ → ReviewFile
  file_of b file_id = record {
    id = file_id;
    path = b.path;
    old_path = b.old_path;
    status = b.status;
  }

  -- The counts of the active rows against the header that was taken.
  unfoldable pub close_hunk : HunkHeader → Builder → Result DiffError Builder
  unfolding hunk_line_counts
  close_hunk header b =
      let counts = hunk_line_counts b.active_rows in
      if not (counts.0 == header.old_count) || not (counts.1 == header.new_count)
      then err (hunk_line_count_mismatch header.old_count header.new_count counts.0 counts.1)
      else ok (record b {
        hunks = b.hunks ++ (header, b.active_rows) ∷ [];
        active_header = none;
        active_rows = [];
      })

  unfoldable pub finish_active_hunk : Builder → Result DiffError Builder
  unfolding close_hunk
  finish_active_hunk b = elim b.active_header [ none ↦ ok b | some header ↦ close_hunk header b ]

  unfoldable pub start_hunk : Bytes → Builder → Result DiffError Builder
  unfolding finish_active_hunk
  start_hunk line b = do
    b' ← finish_active_hunk b
    header ← parse_hunk_header line
    ok (record b' {
      old_line = header.old_start;
      new_line = header.new_start;
      active_header = some header;
    })

  -- `self.active_rows.push(…)` under the stable id of the row.
  unfoldable pub push_row : ℕ → DiffLineKind → Option DiffCell → Option DiffCell → Builder → Builder
  push_row file_id kind old new b = record b {
    active_rows =
        b.active_rows
        ++ (record {
          id = stable_row_id hash (file_of b file_id) old new kind (length b.active_rows);
          kind = kind;
          old = old;
          new = new;
        }
            ∷ []);
  }

  abbrev line_cell : DiffSide → ℕ → DiffLineKind → Bytes → DiffCell
  line_cell side line kind text = cell side (line - 1) kind text true

  unfoldable pub push_context : ℕ → Bytes → Builder → Builder
  unfolding push_row
  push_context file_id text b =
      push_row file_id context (some (line_cell DiffSide.old b.old_line context text))
        (some (line_cell DiffSide.new b.new_line context text))
        (record b {
          old_line = wrap32 (b.old_line + 1);
          new_line = wrap32 (b.new_line + 1);
          old_snippet = b.old_snippet ++ (text ++ b'\n' ∷ []);
          new_snippet = b.new_snippet ++ (text ++ b'\n' ∷ []);
        })

  unfoldable pub push_removal : ℕ → Bytes → Builder → Builder
  unfolding push_row
  push_removal file_id text b =
      push_row file_id removal (some (line_cell DiffSide.old b.old_line removal text)) none
        (record b {
          changed_old = bm.insert b.old_line b.changed_old;
          old_line = wrap32 (b.old_line + 1);
          old_snippet = b.old_snippet ++ (text ++ b'\n' ∷ []);
        })

  unfoldable pub push_addition : ℕ → Bytes → Builder → Builder
  unfolding push_row
  push_addition file_id text b =
      push_row file_id addition none (some (line_cell DiffSide.new b.new_line addition text))
        (record b {
          changed_new = bm.insert b.new_line b.changed_new;
          new_line = wrap32 (b.new_line + 1);
          new_snippet = b.new_snippet ++ (text ++ b'\n' ∷ []);
        })

  -- `line.split_at(1)`, and the match on the prefix.
  unfoldable pub push_prefixed : ℕ → Bytes → Builder → Result DiffError Builder
  push_prefixed file_id [] b = err invalid_hunk_line
  push_prefixed file_id (prefix ∷ text) b =
      if prefix == b' '
      then ok (push_context file_id text b)
      else if prefix == b'-'
      then ok (push_removal file_id text b)
      else if prefix == b'+'
      then ok (push_addition file_id text b)
      else err invalid_hunk_line

  unfoldable pub push_hunk_line : ℕ → Bytes → Builder → Result DiffError Builder
  unfolding push_prefixed push_context push_removal push_addition
  push_hunk_line file_id line b = elim b.active_header [
    | none ↦ ok b
    | some header ↦ push_prefixed file_id line b
  ]

  -- The rows with the last one's cells marked, under its new id.
  unfoldable pub mark_row : ℕ → List UnifiedRow → UnifiedRow → Builder → Builder
  mark_row file_id front last b =
      let old = without_newline last.old in
      let new = without_newline last.new in
      record b {
        active_rows =
            front
            ++ (record {
              id = stable_row_id hash (file_of b file_id) old new last.kind (length front);
              kind = last.kind;
              old = old;
              new = new;
            }
                ∷ []);
      }

  -- The snippet of a side that the row marks.
  abbrev pub unmark : Option DiffCell → Bytes → Result DiffError Bytes
  unmark none snippet = ok snippet
  unmark (some c) snippet = remove_final_newline snippet

  -- A row with no cell takes no mark.
  abbrev pub check_marked : UnifiedRow → Result DiffError (Unit {0})
  check_marked last =
      if not (is_some last.old) && not (is_some last.new)
      then err missing_no_newline_target
      else ok tt

  -- The rest of the method, on the rows before the last and the last.
  unfoldable pub mark_parts : ℕ → List UnifiedRow → UnifiedRow → Builder → Result DiffError Builder
  unfolding mark_row remove_final_newline
  mark_parts file_id front last b = do
    check_marked last
    old_snippet ← unmark last.old b.old_snippet
    new_snippet ← unmark last.new b.new_snippet
    ok (
        mark_row file_id front last
          (record b { old_snippet = old_snippet; new_snippet = new_snippet }))

  unfoldable pub mark_last_line_missing_newline : ℕ → Builder → Result DiffError Builder
  unfolding mark_parts split_last
  mark_last_line_missing_newline file_id b = do
    parts ← ok_or (split_last b.active_rows) missing_no_newline_target
    mark_parts file_id parts.0 parts.1 b

  unfoldable pub make_hunks : ReviewFile → List (HunkHeader × List UnifiedRow) → List ReviewHunk
  make_hunks file [] = []
  make_hunks file ((header, rows) ∷ hunks) = make_hunk hash file header rows ∷ make_hunks file hunks

  unfoldable pub finish : ℕ → ℕ → Builder → Result DiffError (ReviewDiffDocument bm.Carrier)
  unfolding make_hunks finish_active_hunk
  finish file_id comparison_id b = do
    b' ← finish_active_hunk b
    ok (record {
      comparison_id = comparison_id;
      file = file_of b' file_id;
      old = source_document hash b'.old_snippet;
      new = source_document hash b'.new_snippet;
      hunks = make_hunks (file_of b' file_id) b'.hunks;
      changed_old_lines = b'.changed_old;
      changed_new_lines = b'.changed_new;
    })
