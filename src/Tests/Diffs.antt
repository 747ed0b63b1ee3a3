-- ===== src/Tests/Diffs.antt =====
-- A small patch through the parser and the presentations of its document.
use localreview.Prelude.{
  ℕ, ◌≡◌, refl, ◌||◌, List, [], ◌∷◌, ◌++◌, map, none, All, arith, length, ◌==◌,
}
use localreview.Prelude.Text.{Bytes, codes, contains_byte}
use localreview.Prelude.Result.{Result, ok, err}
use localreview.Domain.Annotations.{DiffSide}
use localreview.Diff.Types.{
  RoaringBitmap, DiffError, ReviewDiffDocument, ReviewHunk, UnifiedRow, FullFileRow, modified,
}
use localreview.Diff.Split.{build_split_rows, make_hunk}
use localreview.Diff.Rows.{cell}
use localreview.Diff.Split.Lossless.{
  split_old, split_new, unified_old, unified_new, build_split_rows-lossless,
}
use localreview.Diff.Source.{source_document}
use localreview.Diff.FullFile.{full_file_current_rows, full_file_base_rows}
use localreview.Diff.FullFile.Projection.{full_file_projections-lossless}
use localreview.Diff.FullFile.Parted.{rows_of}
use localreview.Diff.FullFile.Sourced.{IsSource}
use localreview.Diff.Patch.Header.{parse_hunk_header}
use localreview.Diff.Patch.Paths.{parse_diff_git_paths, strip_git_patch_prefix}
use localreview.Diff.Patch.Builder.{
  start_hunk, new_builder, push_hunk_line, mark_last_line_missing_newline, finish,
}
use localreview.Diff.Patch.Parse.{parse_unified_patch}
use localreview.Diff.Patch.Sides.{AreLined, parse_unified_patch-AreLined}

-- The length of a text in place of its digest.
abbrev pub digest : Bytes → Bytes
digest text = length text ∷ []

-- A list of numbers as a set.
pub contains_byte-insert :
    (n m : ℕ) (s : List ℕ) → contains_byte n (m ∷ s) ≡ (n == m || contains_byte n s)
contains_byte-insert n m s = ground arith

abbrev pub listed : RoaringBitmap
listed = record {
  Carrier = List ℕ;
  empty = [];
  insert = λ n s. n ∷ s;
  contains = contains_byte;
  contains-empty = λ n. refl;
  contains-insert = contains_byte-insert;
}

abbrev ids : ℕ → ℕ
ids n = n

abbrev patch : Bytes
patch =
    codes
      "diff --git a/f.rs b/f.rs\n--- a/f.rs\n+++ b/f.rs\n@@ -1,3 +1,3 @@ fn f()\n one\n-two\n+TWO\n three\n\\ No newline at end of file\n"

parsed : Result DiffError (List (ReviewDiffDocument (List ℕ)))
unfolding parse_unified_patch parse_diff_git_paths strip_git_patch_prefix start_hunk new_builder
    parse_hunk_header push_hunk_line mark_last_line_missing_newline finish make_hunk cell
parsed = parse_unified_patch digest listed ids patch 7

abbrev documents_of :
    Result DiffError (List (ReviewDiffDocument (List ℕ))) → List (ReviewDiffDocument (List ℕ))
documents_of (ok ds) = ds
documents_of (err e) = []

abbrev hunks_of : List (ReviewDiffDocument (List ℕ)) → List ReviewHunk
hunks_of [] = []
hunks_of (d ∷ ds) = d.hunks ++ hunks_of ds

abbrev texts_of : List FullFileRow → List Bytes
texts_of = map (λ row. row.text)

documents : List (ReviewDiffDocument (List ℕ))
unfolding parsed
documents = documents_of parsed

parsed_ok : parse_unified_patch digest listed ids patch 7 ≡ ok documents
unfolding documents
parsed_ok = refl

parse_unified_patch-AreLined_example : All AreLined documents
parse_unified_patch-AreLined_example =
    parse_unified_patch-AreLined digest listed ids patch 7 documents parsed_ok

abbrev rows_of_patch : List ReviewHunk → List UnifiedRow
rows_of_patch [] = []
rows_of_patch (hunk ∷ hunks) = hunk.unified_rows ++ rows_of_patch hunks

rows : List UnifiedRow
unfolding documents
rows = rows_of_patch (hunks_of documents)

build_split_rows-lossless_example :
    (split_old (build_split_rows digest (codes "h") rows) ≡ unified_old rows)
    × (split_new (build_split_rows digest (codes "h") rows) ≡ unified_new rows)
unfolding rows
build_split_rows-lossless_example =
    build_split_rows-lossless digest (codes "h") rows (tt, (refl, (refl, (tt, tt))))

-- A document of three current lines whose one hunk removes line 2 and adds another.
document : ReviewDiffDocument (List ℕ)
unfolding documents source_document
document = record {
  comparison_id = 7;
  file = record { id = 1; path = codes "f.rs"; old_path = none; status = modified };
  old = source_document digest (codes "one\ntwo\nthree\n");
  new = source_document digest (codes "one\nTWO\nthree\n");
  hunks = hunks_of documents;
  changed_old_lines = 2 ∷ [];
  changed_new_lines = 2 ∷ [];
}

full_file_projections-lossless_example :
    IsSource listed document.new document.changed_new_lines
      (rows_of DiffSide.new (full_file_current_rows listed document))
    × IsSource listed document.old document.changed_old_lines
        (rows_of DiffSide.old (full_file_base_rows listed document))
full_file_projections-lossless_example = full_file_projections-lossless listed document

current_texts :
    texts_of (full_file_current_rows listed document)
    ≡ codes "one" ∷ codes "two" ∷ codes "TWO" ∷ codes "three" ∷ []
unfolding document full_file_current_rows
current_texts = refl
