-- ===== src/Diff/Patch/Parse.antt =====
-- crates/diff/src/lib.rs, `parse_unified_patch`: the loop over the lines of a patch. `ids` gives the
-- ids that `ReviewFileId::new()` draws, one to a line at most.
use localreview.Prelude.{ℕ, ◌+◌, ◌||◌, not, List, [], ◌∷◌, ◌++◌, Option, none, some, if◌then◌else◌}
use localreview.Prelude.Text.{Bytes, codes, same, strip_prefix, starts_with}
use localreview.Prelude.Lines.{split_inclusive, strip_or_self}
use localreview.Prelude.Result.{Result, ok, err, ◌>>=◌}
use localreview.Diff.Types.{
  RoaringBitmap, added, deleted, renamed, ReviewDiffDocument, DiffError, missing_file_header,
}
use localreview.Diff.Source.{is_empty}
use localreview.Diff.Patch.Paths.{parse_diff_git_paths, parse_git_path, strip_git_patch_prefix}
use localreview.Diff.Patch.Builder.{
  PatchFileBuilder, new_builder, start_hunk, push_hunk_line, mark_last_line_missing_newline, finish,
}

-- The local variables of the loop.
pub record Reading (Bitmap : Type 0) : Type 0 where
  pub documents : List (ReviewDiffDocument Bitmap)
  pub current : Option (PatchFileBuilder Bitmap)

module _ (hash : Bytes → Bytes) (bm : RoaringBitmap) where
  abbrev Builder : Type 0
  Builder = PatchFileBuilder bm.Carrier

  -- The last tests of the ladder: a hunk header, a row of a hunk, the marker.
  unfoldable pub hunk_line : ℕ → Bytes → Builder → Result DiffError Builder
  hunk_line file_id line b =
      if starts_with (codes "@@ ") line
      then start_hunk hash bm line b
      else if starts_with (codes " ") line
          || starts_with (codes "+") line
          || starts_with (codes "-") line
      then push_hunk_line hash bm file_id line b
      else if same line (codes "\\ No newline at end of file")
      then mark_last_line_missing_newline hash bm file_id b
      else ok b

  -- `if let Some(path) = line.strip_prefix(prefix) { … } else …`.
  abbrev pub on_prefix :
      Bytes
      → (Bytes → Builder → Result DiffError Builder)
      → (Bytes → Builder → Result DiffError Builder)
      → Bytes
      → Builder
      → Result DiffError Builder
  on_prefix prefix taken other line b = elim (strip_prefix prefix line) [
    | some rest ↦ taken rest b
    | none ↦ other line b
  ]

  unfoldable pub rename_from : Bytes → Builder → Result DiffError Builder
  rename_from path b = do old ← parse_git_path path; ok (record b { old_path = some old })

  unfoldable pub rename_to : Bytes → Builder → Result DiffError Builder
  rename_to path b = do new ← parse_git_path path; ok (record b { path = new; status = renamed })

  unfoldable pub old_name : Bytes → Builder → Result DiffError Builder
  old_name path b =
      if same path (codes "/dev/null")
      then ok (record b { status = added })
      else (do old ← strip_git_patch_prefix path; ok (record b { old_path = some old }))

  unfoldable pub new_name : Bytes → Builder → Result DiffError Builder
  new_name path b =
      if same path (codes "/dev/null")
      then ok (record b { status = deleted })
      else (do new ← strip_git_patch_prefix path; ok (record b { path = new }))

  -- The ladder on a line of the current file.
  unfoldable pub file_line : ℕ → Bytes → Builder → Result DiffError Builder
  unfolding hunk_line rename_from rename_to old_name new_name
  file_line file_id = on_prefix (codes "rename from ") rename_from (
      on_prefix (codes "rename to ") rename_to
        (on_prefix (codes "--- ") old_name (on_prefix (codes "+++ ") new_name (hunk_line file_id))))

  -- `builder.finish(comparison_id)?` of the file so far, if any.
  unfoldable pub close_file :
      ℕ → ℕ → Reading bm.Carrier → Result DiffError (List (ReviewDiffDocument bm.Carrier))
  close_file file_id comparison_id r = elim r.current [
    | none ↦ ok r.documents
    | some b ↦ do
      document ← finish hash bm file_id comparison_id b
      ok (r.documents ++ document ∷ [])
  ]

  -- One round of the loop, on a line without its newline.
  unfoldable pub read_line :
      ℕ → ℕ → Bytes → Reading bm.Carrier → Result DiffError (Reading bm.Carrier)
  unfolding close_file file_line
  read_line comparison_id file_id line r = elim (strip_prefix (codes "diff --git ") line) [
    | some paths ↦ do
      documents ← close_file file_id comparison_id r
      both ← parse_diff_git_paths paths
      ok (record { documents = documents; current = some (new_builder hash bm both.0 both.1) })
    | none ↦ elim r.current [
      | none ↦ ok r
      | some b ↦ do b' ← file_line file_id line b; ok (record r { current = some b' })
    ]
  ]

  -- `for raw_line in patch.split_inclusive('\n')`; `index` counts the lines.
  unfoldable pub read_lines :
      ℕ
      → (ℕ → ℕ)
      → ℕ
      → List Bytes
      → Reading bm.Carrier
      → Result DiffError (List (ReviewDiffDocument bm.Carrier))
  unfolding read_line close_file
  read_lines comparison_id ids index [] r = close_file (ids index) comparison_id r
  read_lines comparison_id ids index (raw_line ∷ raw_lines) r = do
    r' ← read_line comparison_id (ids index) (strip_or_self b'\n' raw_line) r
    read_lines comparison_id ids (index + 1) raw_lines r'

  -- `documents.is_empty() && !patch.is_empty()`.
  unfoldable pub check_documents :
      Bytes
      → List (ReviewDiffDocument bm.Carrier)
      → Result DiffError (List (ReviewDiffDocument bm.Carrier))
  check_documents patch [] = if not (is_empty patch) then err missing_file_header else ok []
  check_documents patch (document ∷ documents) = ok (document ∷ documents)

  unfoldable pub parse_unified_patch :
      (ids : ℕ → ℕ) → Bytes → ℕ → Result DiffError (List (ReviewDiffDocument bm.Carrier))
  unfolding read_lines check_documents
  parse_unified_patch ids patch comparison_id = do
    documents ←
        read_lines comparison_id ids 0 (split_inclusive patch)
          (record { documents = []; current = none })
    check_documents patch documents
