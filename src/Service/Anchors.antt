-- ===== src/Service/Anchors.antt =====
-- crates/service/src/lib.rs: the anchors of annotations in a document of a later comparison.
pub mod Windows
pub mod Places
pub mod Selected
use localreview.Prelude.{
  ℕ, zero, suc, ◌+◌, ◌-◌, min, Bool, true, false, ◌&&◌, ◌||◌, not, List, [], ◌∷◌, ◌++◌, Option,
  none, some, length, take, drop, ltb, leb, if◌then◌else◌,
}
use localreview.Prelude.Text.{Bytes, same}
use localreview.Prelude.Lines.{lines}
use localreview.Prelude.Result.{ok, err}
use localreview.Domain.Annotations.{DiffSide, AnnotationAnchor, LineAnchorInput, from_line}
use localreview.Diff.Types.{ReviewDiffDocument, u32_max, wrap32, clamp32}

-- The equality of two slices of lines.
abbrev pub same_lines : List Bytes → List Bytes → Bool
same_lines [] [] = true
same_lines (l ∷ ls) (m ∷ ms) = same l m && same_lines ls ms
same_lines _ _ = false

abbrev pub is_empty : List Bytes → Bool
is_empty [] = true
is_empty (l ∷ ls) = false

-- `lines.windows(needle.len()).enumerate()`, less the windows that are not the needle, from an index on.
unfoldable pub positions : ℕ → List Bytes → List Bytes → List ℕ
positions index needle [] = []
positions index needle (l ∷ ls) =
    let rest = positions (suc index) needle ls in
    if same_lines (take (length needle) (l ∷ ls)) needle then index ∷ rest else rest

-- The element of a list that has one.
abbrev pub only : List ℕ → Option ℕ
only (i ∷ []) = some i
only _ = none

-- `lines.get(a..b)`.
abbrev pub get_range : ℕ → ℕ → List Bytes → Option (List Bytes)
get_range a b ls = if ltb b a || ltb (length ls) b then none else some (take (b - a) (drop a ls))

-- `lines[a..b]`, which panics where `get_range` gives none.
abbrev pub slice : ℕ → ℕ → List Bytes → List Bytes
slice a b ls = take (b - a) (drop a ls)

-- `join("\n")`.
unfoldable pub join_lines : List Bytes → Bytes
join_lines [] = []
join_lines (l ∷ []) = l
join_lines (l ∷ m ∷ ls) = l ++ b'\n' ∷ join_lines (m ∷ ls)

abbrev range_at : List Bytes → Option ℕ → Option (ℕ × ℕ)
range_at needle none = none
range_at needle (some index) =
    let start = wrap32 (wrap32 index + 1) in
    some (start, wrap32 (wrap32 (start + clamp32 (length needle)) + u32_max))

-- `unique_range`. To subtract one is to add `u32::MAX`, which wraps.
unfoldable pub unique_range : List Bytes → List Bytes → Option (ℕ × ℕ)
unfolding positions
unique_range ls needle =
    if is_empty needle || ltb (length ls) (length needle)
    then none
    else range_at needle (only (positions 0 needle ls))

abbrev range_within : List Bytes → Option ℕ → Option ℕ → Option (ℕ × ℕ)
range_within selected (some index) (some offset) =
    let start = index + offset + 1 in
    if leb start u32_max && leb (length selected) u32_max
    then some (start, wrap32 (start + (length selected - 1)))
    else none
range_within selected _ _ = none

-- `unique_context_selection`. A sum of two indices of slices does not saturate.
unfoldable pub unique_context_selection : List Bytes → List Bytes → List Bytes → Option (ℕ × ℕ)
unfolding positions
unique_context_selection ls context selected =
    if is_empty context || is_empty selected || ltb (length ls) (length context)
    then none
    else range_within selected (only (positions 0 context ls)) (only (positions 0 selected context))

-- `surrounding_context`.
unfoldable pub surrounding_context : List Bytes → ℕ → ℕ → Bytes
unfolding join_lines
surrounding_context ls start end =
    join_lines (slice (start - 4) (min (min (end + 3) u32_max) (length ls)) ls)

-- `exact_range`: the selection is still where it was.
unfoldable pub exact_range : List Bytes → List Bytes → ℕ → ℕ → Bool
exact_range ls selected start end = elim (get_range (start - 1) end ls) [
  | none ↦ false
  | some candidate ↦ not (is_empty selected) && same_lines candidate selected
]

abbrev pub or_else : Option (ℕ × ℕ) → Option (ℕ × ℕ) → Option (ℕ × ℕ)
or_else (some range) other = some range
or_else none other = other

-- The candidate for the new place.
unfoldable pub candidate : List Bytes → List Bytes → List Bytes → ℕ → ℕ → Option (ℕ × ℕ)
unfolding exact_range unique_range unique_context_selection
candidate ls selected context start end =
    let elsewhere =
      or_else (unique_range ls selected) (unique_context_selection ls context selected) in
    if exact_range ls selected start end then some (start, end) else elsewhere

abbrev pub content_of : {Bitmap : Type 0} → DiffSide → ReviewDiffDocument Bitmap → Bytes
content_of DiffSide.old document = document.old.content
content_of DiffSide.new document = document.new.content

module _ {Bitmap : Type 0} (hash : Bytes → Bytes) where
  -- The anchor at a candidate.
  unfoldable pub rebuild :
      AnnotationAnchor → ReviewDiffDocument Bitmap → ℕ → DiffSide → ℕ × ℕ → Option AnnotationAnchor
  unfolding join_lines surrounding_context
  rebuild anchor document comparison_id side (start, end) =
      let ls = lines (content_of side document) in
      let input : LineAnchorInput = record {
        comparison_id = comparison_id;
        repository_id = anchor.repository_id;
        file_path = document.file.path;
        side = side;
        start_line = start;
        end_line = end;
        selected_source = join_lines (slice (start - 1) end ls);
        surrounding_context = surrounding_context ls start end;
      } in
      elim (from_line hash input) [
        | err e ↦ none
        | ok rebuilt ↦ some (record rebuilt { old_path = document.file.old_path; outdated = false })
      ]

  abbrev pub rebuild_at :
      AnnotationAnchor
      → ReviewDiffDocument Bitmap
      → ℕ
      → DiffSide
      → Option (ℕ × ℕ)
      → Option AnnotationAnchor
  rebuild_at anchor document comparison_id side none = none
  rebuild_at anchor document comparison_id side (some range) =
      rebuild anchor document comparison_id side range

  abbrev pub reanchor_side :
      AnnotationAnchor
      → ReviewDiffDocument Bitmap
      → ℕ
      → Option DiffSide
      → Option ℕ
      → Option ℕ
      → Option AnnotationAnchor
  reanchor_side anchor document comparison_id (some side) (some start) (some end) =
      rebuild_at anchor document comparison_id side (
        candidate (lines (content_of side document)) (lines anchor.selected_source)
          (lines anchor.surrounding_context) start end)
  reanchor_side anchor document comparison_id _ _ _ = none

  -- `reanchor`.
  unfoldable pub reanchor :
      AnnotationAnchor → ReviewDiffDocument Bitmap → ℕ → Option AnnotationAnchor
  unfolding candidate rebuild
  reanchor anchor document comparison_id =
      reanchor_side anchor document comparison_id anchor.side anchor.start_line anchor.end_line

-- `outdated_anchor`.
unfoldable pub outdated_anchor : AnnotationAnchor → ℕ → AnnotationAnchor
outdated_anchor anchor comparison_id = record anchor {
  comparison_id = comparison_id;
  outdated = true;
}
