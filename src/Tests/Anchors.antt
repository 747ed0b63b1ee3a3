-- ===== src/Tests/Anchors.antt =====
-- A selection of one line that stands one line further down, and a review of one file after one of two.
use localreview.Prelude.{
  ◌-◌, ◌↔◌, ℕ, ◌+◌, ◌≤◌, ◌≡◌, refl, true, false, [], ◌∷◌, none, some, map, arith,
}
use localreview.Prelude.Text.{Bytes, codes}
use localreview.Domain.Annotations.{DiffSide, AnnotationAnchor, from_line}
use localreview.Diff.Types.{ReviewDiffDocument, modified}
use localreview.Service.Anchors.{
  get_range, positions, join_lines, surrounding_context, exact_range, unique_range,
  unique_context_selection, candidate, rebuild, reanchor,
}
use localreview.Service.Anchors.Places.{Placed, unique_range-only}
use localreview.Service.Anchors.Selected.{Reattached, reanchor-Reattached}
use localreview.Service.Previous.{
  PreviousReviewFileComparison, unchanged, file_removed, compare_all, pair_all, unused_prior,
  prior_index, last_index, addition, pairing, removals, removal, sort_comparisons,
  insert_comparison, immutable_document_fingerprint,
}
use localreview.Service.Previous.Conserved.{count, has_current, has_previous, compare_all-counted}

abbrev no_hash : Bytes → Bytes
no_hash text = []

abbrev anchor : AnnotationAnchor
anchor = record {
  comparison_id = 1;
  repository_id = 2;
  file_path = codes "f";
  old_path = none;
  side = some DiffSide.new;
  start_line = some 1;
  end_line = some 1;
  selected_source = codes "x";
  surrounding_context = codes "x\ny";
  anchor_fingerprint = [];
  outdated = false;
}

abbrev document : ReviewDiffDocument ℕ
document = record {
  comparison_id = 9;
  file = record { id = 1; path = codes "f"; old_path = none; status = modified };
  old = record { content = []; fingerprint = []; line_count = 0; has_final_newline = false };
  new = record {
    content = codes "w\nx\ny\n";
    fingerprint = [];
    line_count = 3;
    has_final_newline = true;
  };
  hunks = [];
  changed_old_lines = 0;
  changed_new_lines = 0;
}

abbrev rebuilt : AnnotationAnchor
rebuilt = record {
  comparison_id = 9;
  repository_id = 2;
  file_path = codes "f";
  old_path = none;
  side = some DiffSide.new;
  start_line = some 2;
  end_line = some 2;
  selected_source = codes "x";
  surrounding_context = codes "w\nx\ny";
  anchor_fingerprint = [];
  outdated = false;
}

reanchor-Reattached_example : Reattached no_hash anchor document DiffSide.new rebuilt
unfolding reanchor rebuild candidate exact_range unique_range unique_context_selection positions
    join_lines surrounding_context from_line
reanchor-Reattached_example =
    reanchor-Reattached no_hash anchor rebuilt document 9 DiffSide.new refl (omega arith) refl

unique_range-only_example :
    Placed (codes "w" ∷ codes "x" ∷ codes "y" ∷ []) (codes "x" ∷ []) 2 2
    × (1 ≤ 2)
    × (2 ≡ 2 - 1 + 1)
    × ((get_range 0 1 (codes "w" ∷ codes "x" ∷ codes "y" ∷ []) ≡ some (codes "x" ∷ []))
        ↔ (0 + 1 ≡ 2))
unfolding unique_range positions
unique_range-only_example =
    unique_range-only (codes "w" ∷ codes "x" ∷ codes "y" ∷ []) (codes "x" ∷ []) 2 2 0 (omega arith)
      refl

-- The same document, and one under another path and id.
abbrev older : ReviewDiffDocument ℕ
older = record {
  comparison_id = 8;
  file = record { id = 2; path = codes "g"; old_path = none; status = modified };
  old = document.old;
  new = document.new;
  hunks = [];
  changed_old_lines = 0;
  changed_new_lines = 0;
}

compare_all-counted_example :
    (count has_current (compare_all no_hash (document ∷ []) (older ∷ document ∷ [])) ≡ 1)
    × (count has_previous (compare_all no_hash (document ∷ []) (older ∷ document ∷ [])) ≡ 2)
compare_all-counted_example = compare_all-counted no_hash (document ∷ []) (older ∷ document ∷ [])

compared_test :
    map
      (λ (c : PreviousReviewFileComparison). c.kind)
      (compare_all no_hash (document ∷ []) (older ∷ document ∷ []))
    ≡ unchanged ∷ file_removed ∷ []
unfolding compare_all pair_all unused_prior prior_index last_index addition pairing removals removal
    sort_comparisons insert_comparison immutable_document_fingerprint
compared_test = refl
