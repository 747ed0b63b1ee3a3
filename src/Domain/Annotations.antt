-- ===== src/Domain/Annotations.antt =====
-- crates/domain/src/lib.rs: the source side, the states and the anchor of an annotation. `hash`
-- stands for `blake3::hash(…).to_hex()` of the blake3 package; an id of the uuid package is a number.
use localreview.Prelude.{
  ℕ, ◌≤◌, ◌≡◌, Bool, true, false, ◌||◌, [], ◌∷◌, ◌++◌, Option, none, some, arith, ltb, Bool-cases,
  inl, inr, ap, sym, ◌==◌, if◌then◌else◌,
}
use localreview.Prelude.Text.{Bytes, codes, decimal}
use localreview.Prelude.Result.{Result, ok, err, ok-injective, err-ne-ok}
use localreview.Domain.Errors.{DomainError, invalid_line_range}

pub data DiffSide : Type 0 where
  old new : DiffSide

-- The derived `PartialEq`.
abbrev pub same_side : DiffSide → DiffSide → Bool
same_side DiffSide.old DiffSide.old = true
same_side DiffSide.new DiffSide.new = true
same_side _ _ = false

pub data AnnotationKind : Type 0 where
  comment question suggestion file_note review_note : AnnotationKind

-- `AnnotationKind::actionable`.
unfoldable pub actionable : AnnotationKind → Bool
actionable comment = true
actionable suggestion = true
actionable _ = false

pub record AnnotationAnchor : Type 0 where
  pub comparison_id : ℕ
  pub repository_id : ℕ
  pub file_path : Bytes
  pub old_path : Option Bytes
  pub side : Option DiffSide
  pub start_line : Option ℕ
  pub end_line : Option ℕ
  pub selected_source : Bytes
  pub surrounding_context : Bytes
  pub anchor_fingerprint : Bytes
  pub outdated : Bool

pub record LineAnchorInput : Type 0 where
  pub comparison_id : ℕ
  pub repository_id : ℕ
  pub file_path : Bytes
  pub side : DiffSide
  pub start_line : ℕ
  pub end_line : ℕ
  pub selected_source : Bytes
  pub surrounding_context : Bytes

-- `{:?}` of a side.
side_name : DiffSide → Bytes
side_name DiffSide.old = codes "Old"
side_name DiffSide.new = codes "New"

line_seed : LineAnchorInput → Bytes
line_seed input =
    input.file_path
    ++ (0
        ∷ (side_name input.side
            ++ (0
                ∷ (decimal input.start_line
                    ++ (0
                        ∷ (decimal input.end_line
                            ++ (0
                                ∷ (input.selected_source ++ (0 ∷ input.surrounding_context)))))))))

module _ (hash : Bytes → Bytes) where
  -- `AnnotationAnchor::from_file`.
  unfoldable pub from_file : ℕ → ℕ → Bytes → AnnotationAnchor
  from_file comparison_id repository_id file_path = record {
    comparison_id = comparison_id;
    repository_id = repository_id;
    file_path = file_path;
    old_path = none;
    side = none;
    start_line = none;
    end_line = none;
    selected_source = [];
    surrounding_context = [];
    anchor_fingerprint = hash (file_path ++ (0 ∷ codes "file"));
    outdated = false;
  }

  line_anchor : LineAnchorInput → AnnotationAnchor
  line_anchor input = record {
    comparison_id = input.comparison_id;
    repository_id = input.repository_id;
    file_path = input.file_path;
    old_path = none;
    side = some input.side;
    start_line = some input.start_line;
    end_line = some input.end_line;
    selected_source = input.selected_source;
    surrounding_context = input.surrounding_context;
    anchor_fingerprint = hash (line_seed input);
    outdated = false;
  }

  -- `AnnotationAnchor::from_line`.
  unfoldable pub from_line : LineAnchorInput → Result DomainError AnnotationAnchor
  unfolding line_anchor line_seed side_name decimal
  from_line input =
      if input.start_line == 0 || ltb input.end_line input.start_line
      then err invalid_line_range
      else ok (line_anchor input)

  -- A line anchor is made only of a one-based range that is not empty, and keeps its side and lines.
  pub from_line-range :
      (input : LineAnchorInput) (anchor : AnnotationAnchor)
      → from_line input ≡ ok anchor
      → (1 ≤ input.start_line)
        × (input.start_line ≤ input.end_line)
        × (anchor.side ≡ some input.side)
        × (anchor.start_line ≡ some input.start_line)
        × (anchor.end_line ≡ some input.end_line)
  unfolding from_line
  from_line-range input anchor h =
      elim (Bool-cases (input.start_line == 0 || ltb input.end_line input.start_line)) [
        | inl refused ↦ absurd (err-ne-ok (rw (refused, from_line) at h))
        | inr fits ↦
            let made : line_anchor input ≡ anchor = ok-injective (rw (fits, from_line) at h) in
            (
              ground arith,
              ground arith,
              ap (λ a. a.side) (sym made),
              ap (λ a. a.start_line) (sym made),
              ap (λ a. a.end_line) (sym made),
            )
      ]
