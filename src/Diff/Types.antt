-- ===== src/Diff/Types.antt =====
-- crates/diff/src/lib.rs: the records of a review diff document. Texts are UTF-8 bytes, an id of the
-- uuid package is a number. The bitmaps of the roaring package are an interface.
use localreview.Prelude.{ℕ, ◌%◌, min, ◌≡◌, Bool, false, ◌||◌, List, Option, ◌==◌}
use localreview.Prelude.Text.{Bytes}
use localreview.Domain.Annotations.{DiffSide}

-- Unsigned 32-bit arithmetic of a release build: `+` wraps.
abbrev pub u32_max : ℕ
u32_max = 4294967295

abbrev pub wrap32 : ℕ → ℕ
wrap32 n = n % 4294967296

-- `u32::try_from(n).unwrap_or(u32::MAX)`.
abbrev pub clamp32 : ℕ → ℕ
clamp32 n = min n u32_max

-- `u32::saturating_sub(1)`: subtraction on ℕ stops at 0 likewise.

-- What the code uses of `roaring::RoaringBitmap`: a set of line numbers.
pub record RoaringBitmap : Type 1 where
  pub Carrier : Type 0
  pub empty : Carrier
  pub insert : ℕ → Carrier → Carrier
  pub contains : ℕ → Carrier → Bool
  pub contains-empty : (n : ℕ) → contains n empty ≡ false
  pub contains-insert : (n m : ℕ) (s : Carrier) → contains n (insert m s) ≡ (n == m || contains n s)

pub data ReviewFileStatus : Type 0 where
  added modified deleted renamed copied binary mode_changed type_changed submodule :
      ReviewFileStatus
  lfs_pointer : ReviewFileStatus

pub record ReviewFile : Type 0 where
  pub id : ℕ
  pub path : Bytes
  pub old_path : Option Bytes
  pub status : ReviewFileStatus

pub record SourceDocument : Type 0 where
  pub content : Bytes
  pub fingerprint : Bytes
  pub line_count : ℕ
  pub has_final_newline : Bool

pub record HunkHeader : Type 0 where
  pub old_start : ℕ
  pub old_count : ℕ
  pub new_start : ℕ
  pub new_count : ℕ
  pub context : Option Bytes

pub data DiffLineKind : Type 0 where
  context addition removal : DiffLineKind

pub record DiffCell : Type 0 where
  pub side : DiffSide
  pub line_number : ℕ
  pub kind : DiffLineKind
  pub source_line_index : ℕ
  pub text : Bytes
  pub has_trailing_newline : Bool

pub record UnifiedRow : Type 0 where
  pub id : Bytes
  pub kind : DiffLineKind
  pub old : Option DiffCell
  pub new : Option DiffCell

pub record SplitRow : Type 0 where
  pub id : Bytes
  pub old : Option DiffCell
  pub new : Option DiffCell

-- `StableHunkId` wraps its text.
abbrev pub StableHunkId : Type 0
StableHunkId = Bytes

pub record ReviewHunk : Type 0 where
  pub id : StableHunkId
  pub header : HunkHeader
  pub unified_rows : List UnifiedRow
  pub split_rows : List SplitRow

pub record FullFileRow : Type 0 where
  pub side : DiffSide
  pub line_number : ℕ
  pub text : Bytes
  pub changed : Bool
  pub has_trailing_newline : Bool

-- Over the type of the bitmaps.
pub record ReviewDiffDocument (Bitmap : Type 0) : Type 0 where
  pub comparison_id : ℕ
  pub file : ReviewFile
  pub old : SourceDocument
  pub new : SourceDocument
  pub hunks : List ReviewHunk
  pub changed_old_lines : Bitmap
  pub changed_new_lines : Bitmap

pub data DiffError : Type 0 where
  missing_file_header : DiffError
  invalid_hunk_header : Bytes → DiffError
  invalid_hunk_line : DiffError
  hunk_line_count_mismatch : (old_expected new_expected old_actual new_actual : ℕ) → DiffError
  missing_no_newline_target : DiffError
