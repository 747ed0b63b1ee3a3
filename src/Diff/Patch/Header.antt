-- ===== src/Diff/Patch/Header.antt =====
-- crates/diff/src/lib.rs, `parse_hunk_header` and `parse_range`.
use localreview.Prelude.{ℕ, ◌≡◌, refl, List, [], ◌∷◌, Option, none, some}
use localreview.Prelude.Text.{Bytes, codes, strip_prefix}
use localreview.Prelude.Words.{split_once, split_whitespace, parse_u32}
use localreview.Prelude.Result.{Result, ok, err, ◌>>=◌, ◌>>◌, ok_or}
use localreview.Diff.Types.{HunkHeader, DiffError, invalid_hunk_header}

-- `value.split_once(',').unwrap_or((value, "1"))`.
start_and_count : Bytes → Bytes × Bytes
start_and_count value = elim (split_once (b',' ∷ []) value) [
  | none ↦ (value, b'1' ∷ [])
  | some parts ↦ parts
]

unfoldable pub parse_range : Bytes → ℕ → Result DiffError (ℕ × ℕ)
unfolding start_and_count split_once parse_u32
parse_range raw prefix = do
  value ← ok_or (strip_prefix (prefix ∷ []) raw) (invalid_hunk_header raw)
  let parts = start_and_count value
  start ← ok_or (parse_u32 parts.0) (invalid_hunk_header raw)
  count ← ok_or (parse_u32 parts.1) (invalid_hunk_header raw)
  ok (start, count)

-- The two ranges between the marks, and no third.
unfoldable pub parse_ranges : Bytes → List Bytes → Result DiffError ((ℕ × ℕ) × (ℕ × ℕ))
unfolding parse_range
parse_ranges line [] = err (invalid_hunk_header line)
parse_ranges line (old ∷ []) = do parse_range old b'-'; err (invalid_hunk_header line)
parse_ranges line (old ∷ new ∷ more) = do
  o ← parse_range old b'-'
  n ← parse_range new b'+'
  elim more [ [] ↦ ok (o, n) | third ∷ rest ↦ err (invalid_hunk_header line) ]

-- `(!context.is_empty()).then(…)` of the text behind the marks, less one space.
section_of : Bytes → Option Bytes
section_of [] = none
section_of (c ∷ s) = some (c ∷ s)

unfoldable pub context_of : Bytes → Option Bytes
unfolding section_of
context_of text = elim (strip_prefix (b' ' ∷ []) text) [
  | none ↦ section_of text
  | some rest ↦ section_of rest
]

unfoldable pub parse_hunk_header : Bytes → Result DiffError HunkHeader
unfolding parse_ranges context_of split_once split_whitespace
parse_hunk_header line = do
  body ← ok_or (strip_prefix (codes "@@ ") line) (invalid_hunk_header line)
  parts ← ok_or (split_once (codes " @@") body) (invalid_hunk_header line)
  ranges ← parse_ranges line (split_whitespace parts.0)
  ok (record {
    old_start = ranges.0.0;
    old_count = ranges.0.1;
    new_start = ranges.1.0;
    new_count = ranges.1.1;
    context = context_of parts.1;
  })

header_of_line :
    parse_hunk_header (codes "@@ -10,2 +10,3 @@ fn demo()")
    ≡ ok (record {
      old_start = 10;
      old_count = 2;
      new_start = 10;
      new_count = 3;
      context = some (codes "fn demo()");
    })
unfolding parse_hunk_header
header_of_line = refl
