-- ===== src/Diff/Rows.antt =====
-- crates/diff/src/lib.rs: cells and the stable ids of rows and hunks. `hash` stands for
-- `blake3::hash(…).to_hex()` of the blake3 package.
use localreview.Prelude.{ℕ, ◌+◌, Bool, true, false, List, [], ◌∷◌, ◌++◌, Option, none, some}
use localreview.Prelude.Text.{Bytes, codes, decimal}
use localreview.Domain.Annotations.{DiffSide}
use localreview.Diff.Types.{
  ReviewFile, HunkHeader, DiffLineKind, context, addition, removal, DiffCell, UnifiedRow,
  StableHunkId, wrap32,
}

unfoldable pub cell : DiffSide → ℕ → DiffLineKind → Bytes → Bool → DiffCell
cell side source_index kind text has_trailing_newline = record {
  side = side;
  line_number = wrap32 (source_index + 1);
  kind = kind;
  source_line_index = source_index;
  text = text;
  has_trailing_newline = has_trailing_newline;
}

-- `{:?}` of a kind, and of a truth value.
kind_name : DiffLineKind → Bytes
kind_name context = codes "Context"
kind_name addition = codes "Addition"
kind_name removal = codes "Removal"

bool_name : Bool → Bytes
bool_name true = codes "true"
bool_name false = codes "false"

-- `map_or(0, |value| value.line_number)`.
line_or_zero : Option DiffCell → ℕ
line_or_zero none = 0
line_or_zero (some c) = c.line_number

-- `old.or(new).map_or("", |value| value.text)`.
either_text : Option DiffCell → Option DiffCell → Bytes
either_text (some c) new = c.text
either_text none (some c) = c.text
either_text none none = []

-- `is_some_and(|value| value.has_trailing_newline)`.
has_newline : Option DiffCell → Bool
has_newline none = false
has_newline (some c) = c.has_trailing_newline

stable_row_seed : ReviewFile → Option DiffCell → Option DiffCell → DiffLineKind → ℕ → Bytes
stable_row_seed file old new kind ordinal =
    file.path
    ++ (0
        ∷ (kind_name kind
            ++ (0
                ∷ (decimal (line_or_zero old)
                    ++ (0
                        ∷ (decimal (line_or_zero new)
                            ++ (0
                                ∷ (either_text old new
                                    ++ (0
                                        ∷ (bool_name (has_newline old)
                                            ++ (0
                                                ∷ (bool_name (has_newline new)
                                                    ++ (0 ∷ decimal ordinal)))))))))))))

stable_hunk_seed : ReviewFile → HunkHeader → Bytes
stable_hunk_seed file header =
    file.path
    ++ (0
        ∷ (decimal header.old_start
            ++ (0
                ∷ (decimal header.old_count
                    ++ (0 ∷ (decimal header.new_start ++ (0 ∷ decimal header.new_count)))))))

row_ids : List UnifiedRow → Bytes
row_ids [] = []
row_ids (row ∷ rows) = row.id ++ row_ids rows

split_seed : StableHunkId → ℕ → Option DiffCell → Option DiffCell → Bytes
split_seed hunk_id ordinal old new =
    hunk_id
    ++ (0
        ∷ (decimal ordinal
            ++ (0 ∷ (decimal (line_or_zero old) ++ (0 ∷ decimal (line_or_zero new))))))

module _ (hash : Bytes → Bytes) where
  unfoldable pub stable_row_id :
      ReviewFile → Option DiffCell → Option DiffCell → DiffLineKind → ℕ → Bytes
  unfolding stable_row_seed kind_name bool_name line_or_zero either_text has_newline decimal
  stable_row_id file old new kind ordinal = hash (stable_row_seed file old new kind ordinal)

  unfoldable pub stable_hunk_id : ReviewFile → HunkHeader → List UnifiedRow → StableHunkId
  unfolding stable_hunk_seed row_ids decimal
  stable_hunk_id file header rows = hash (stable_hunk_seed file header ++ row_ids rows)

  unfoldable pub split_id : StableHunkId → ℕ → Option DiffCell → Option DiffCell → Bytes
  unfolding split_seed line_or_zero decimal
  split_id hunk_id ordinal old new = hash (split_seed hunk_id ordinal old new)
