-- ===== src/Service/Previous.antt =====
-- crates/service/src/lib.rs: the files of a review against those of a previous one. `hash` stands for
-- `ContentFingerprint::from_bytes`.
pub mod Conserved
use localreview.Prelude.{
  ℕ, zero, suc, Bool, true, false, ◌&&◌, ◌||◌, not, List, [], ◌∷◌, ◌++◌, Option, none, some, length,
  take, replicate, set, get_or, get_elem?, ltb, ◌==◌, if◌then◌else◌,
}
use localreview.Prelude.Text.{Bytes, codes, same}
use localreview.Diff.Types.{
  ReviewDiffDocument, ReviewFileStatus, added, modified, deleted, renamed, copied, binary,
  mode_changed, type_changed, submodule, lfs_pointer,
}
use localreview.Git.Pool.Registry.{bytes_le}

pub data PreviousReviewFileChangeKind : Type 0 where
  file_added file_removed file_renamed file_modified unchanged : PreviousReviewFileChangeKind

pub record PreviousReviewFileComparison : Type 0 where
  pub kind : PreviousReviewFileChangeKind
  pub path : Bytes
  pub previous_path : Option Bytes
  pub current_file_id : Option ℕ
  pub previous_file_id : Option ℕ
  pub current_document_fingerprint : Option Bytes
  pub previous_document_fingerprint : Option Bytes

abbrev status_name : ReviewFileStatus → Bytes
status_name added = codes "added"
status_name modified = codes "modified"
status_name deleted = codes "deleted"
status_name renamed = codes "renamed"
status_name copied = codes "copied"
status_name binary = codes "binary"
status_name mode_changed = codes "mode_changed"
status_name type_changed = codes "type_changed"
status_name submodule = codes "submodule"
status_name lfs_pointer = codes "lfs_pointer"

-- The order of optional paths: none is first.
abbrev option_le : Option Bytes → Option Bytes → Bool
option_le none b = true
option_le (some a) none = false
option_le (some a) (some b) = bytes_le a b

abbrev comes_before : PreviousReviewFileComparison → PreviousReviewFileComparison → Bool
comes_before a b =
    if same a.path b.path then option_le a.previous_path b.previous_path else bytes_le a.path b.path

-- `sort_by` of the paths, which is stable.
unfoldable pub insert_comparison :
    PreviousReviewFileComparison
    → List PreviousReviewFileComparison
    → List PreviousReviewFileComparison
insert_comparison c [] = c ∷ []
insert_comparison c (d ∷ rest) =
    let later = insert_comparison c rest in if comes_before c d then c ∷ d ∷ rest else d ∷ later

unfoldable pub sort_comparisons :
    List PreviousReviewFileComparison → List PreviousReviewFileComparison
unfolding insert_comparison
sort_comparisons [] = []
sort_comparisons (c ∷ rest) = insert_comparison c (sort_comparisons rest)

abbrev or_else : Option ℕ → Option ℕ → Option ℕ
or_else (some i) other = some i
or_else none other = other

abbrev is_path : Bytes → Option Bytes → Bool
is_path path none = false
is_path path (some p) = same p path

module _ {Bitmap : Type 0} (hash : Bytes → Bytes) where
  -- `immutable_document_fingerprint`.
  unfoldable pub immutable_document_fingerprint : ReviewDiffDocument Bitmap → Bytes
  immutable_document_fingerprint document = hash (
      status_name document.file.status
      ++ 0 ∷ document.old.fingerprint
      ++ 0 ∷ document.new.fingerprint)

  -- The value of a key in a map from the documents' keys to their indices, where a later document replaces
  -- an earlier.
  unfoldable pub last_index :
      (ReviewDiffDocument Bitmap → Bool) → ℕ → List (ReviewDiffDocument Bitmap) → Option ℕ
  last_index holds index [] = none
  last_index holds index (d ∷ ds) =
      or_else (last_index holds (suc index) ds) (if holds d then some index else none)

  abbrev by_path : Bytes → ReviewDiffDocument Bitmap → Bool
  by_path path d = same d.file.path path || is_path path d.file.old_path

  abbrev index_of_old_path : List (ReviewDiffDocument Bitmap) → Option Bytes → Option ℕ
  index_of_old_path previous none = none
  index_of_old_path previous (some path) = last_index (by_path path) 0 previous

  unfoldable pub prior_index :
      List (ReviewDiffDocument Bitmap) → ReviewDiffDocument Bitmap → Option ℕ
  unfolding last_index
  prior_index previous d = or_else (last_index (λ p. p.file.id == d.file.id) 0 previous) (
      or_else (last_index (by_path d.file.path) 0 previous)
        (index_of_old_path previous d.file.old_path))

  unfoldable pub addition : ReviewDiffDocument Bitmap → PreviousReviewFileComparison
  unfolding immutable_document_fingerprint
  addition d = record {
    kind = file_added;
    path = d.file.path;
    previous_path = none;
    current_file_id = some d.file.id;
    previous_file_id = none;
    current_document_fingerprint = some (immutable_document_fingerprint d);
    previous_document_fingerprint = none;
  }

  unfoldable pub pairing :
      ReviewDiffDocument Bitmap → ReviewDiffDocument Bitmap → PreviousReviewFileComparison
  unfolding immutable_document_fingerprint
  pairing d prior = record {
    kind =
        (if not (same d.file.path prior.file.path)
          then file_renamed
          else if same (immutable_document_fingerprint d) (immutable_document_fingerprint prior)
          then unchanged
          else file_modified);
    path = d.file.path;
    previous_path = some prior.file.path;
    current_file_id = some d.file.id;
    previous_file_id = some prior.file.id;
    current_document_fingerprint = some (immutable_document_fingerprint d);
    previous_document_fingerprint = some (immutable_document_fingerprint prior);
  }

  unfoldable pub removal : ReviewDiffDocument Bitmap → PreviousReviewFileComparison
  unfolding immutable_document_fingerprint
  removal d = record {
    kind = file_removed;
    path = d.file.path;
    previous_path = some d.file.path;
    current_file_id = none;
    previous_file_id = some d.file.id;
    current_document_fingerprint = none;
    previous_document_fingerprint = some (immutable_document_fingerprint d);
  }

  -- The previous document of a current one, when no earlier one has taken it. The set of the indices used
  -- is a flag for each of them.
  unfoldable pub unused_prior :
      List (ReviewDiffDocument Bitmap)
      → List Bool
      → ReviewDiffDocument Bitmap
      → Option (ℕ × ReviewDiffDocument Bitmap)
  unfolding prior_index
  unused_prior previous used d = elim (prior_index previous d) [
    | none ↦ none
    | some i ↦
        if get_or used i true
        then none
        else elim (get_elem? previous i) [ none ↦ none | some prior ↦ some (i, prior) ]
  ]

  -- The loop over the current documents: the records, and the indices used behind it.
  unfoldable pub pair_all :
      List (ReviewDiffDocument Bitmap)
      → List Bool
      → List (ReviewDiffDocument Bitmap)
      → List PreviousReviewFileComparison × List Bool
  unfolding unused_prior addition pairing
  pair_all previous used [] = ([], used)
  pair_all previous used (d ∷ ds) = elim (unused_prior previous used d) [
    | none ↦ (addition d ∷ (pair_all previous used ds).0, (pair_all previous used ds).1)
    | some (i, prior) ↦ (
      pairing d prior ∷ (pair_all previous (set used i true) ds).0,
      (pair_all previous (set used i true) ds).1,
    )
  ]

  -- The loop over the previous documents that are not used.
  unfoldable pub removals :
      List Bool → List (ReviewDiffDocument Bitmap) → List PreviousReviewFileComparison
  unfolding removal
  removals (true ∷ used) (d ∷ ds) = removals used ds
  removals (false ∷ used) (d ∷ ds) = removal d ∷ removals used ds
  removals _ _ = []

  unfoldable pub compare_all :
      List (ReviewDiffDocument Bitmap)
      → List (ReviewDiffDocument Bitmap)
      → List PreviousReviewFileComparison
  unfolding pair_all removals sort_comparisons
  compare_all current previous =
      let paired = pair_all previous (replicate (length previous) false) current in
      sort_comparisons (paired.0 ++ removals paired.1 previous)

  -- `compare_immutable_review_documents`.
  unfoldable pub compare_immutable_review_documents :
      List (ReviewDiffDocument Bitmap)
      → List (ReviewDiffDocument Bitmap)
      → ℕ
      → List PreviousReviewFileComparison × Bool
  unfolding compare_all
  compare_immutable_review_documents current previous max_files =
      let result = compare_all current previous in
      (take max_files result, ltb max_files (length result))
