-- ===== src/Diff/Patch/Paths.antt =====
-- crates/diff/src/lib.rs, `parse_git_header_tokens` and the paths of a patch's header lines. The
-- loops over `bytes` and `index` are loops over the bytes from `index` on.
use localreview.Prelude.{
  ℕ, zero, suc, ◌+◌, ◌-◌, ◌*◌, min, Bool, true, false, ◌||◌, not, List, [], ◌∷◌, ◌++◌, Option, none,
  some, length, ◌==◌, if◌then◌else◌,
}
use localreview.Prelude.Text.{Bytes, codes, strip_prefix, starts_with}
use localreview.Prelude.Words.{between}
use localreview.Prelude.Lossy.{from_utf8_lossy}
use localreview.Prelude.Result.{Result, ok, err, ◌>>=◌, ok_or}
use localreview.Diff.Types.{DiffError, missing_file_header}

-- `u8::is_ascii_whitespace`: space, tab, line feed, form feed, carriage return.
abbrev pub is_ascii_whitespace : ℕ → Bool
is_ascii_whitespace c = c == 32 || c == 9 || c == 10 || c == 12 || c == 13

unfoldable pub skip_whitespace : Bytes → Bytes
skip_whitespace [] = []
skip_whitespace (c ∷ s) = if is_ascii_whitespace c then skip_whitespace s else c ∷ s

-- The bytes up to white space or the end, and the rest.
unfoldable pub bare_token : Bytes → Bytes × Bytes
bare_token [] = ([], [])
bare_token (c ∷ s) =
    let (token, rest) = bare_token s in
    if is_ascii_whitespace c then ([], c ∷ s) else (c ∷ token, rest)

-- Where the scan of a quoted token stands: between characters, behind a backslash, or behind one or
-- two octal digits of the value given.
pub data Scan : Type 0 where
  plain escaped : Scan
  octal_second octal_third : ℕ → Scan

-- `value.saturating_mul(8).saturating_add(digit - b'0')`.
abbrev octal_digit : ℕ → ℕ → ℕ
octal_digit value digit = min (min (value * 8) 255 + (digit - 48)) 255

abbrev is_octal : ℕ → Bool
is_octal = between 48 55

-- One byte behind a backslash: the byte that it stands for, or the first octal digit.
escape_of : ℕ → Bytes × Scan
escape_of c =
    if c == b'\\' || c == b'"'
    then (c ∷ [], plain)
    else if c == b'n'
    then (10 ∷ [], plain)
    else if c == b't'
    then (9 ∷ [], plain)
    else if c == b'r'
    then (13 ∷ [], plain)
    else if is_octal c
    then ([], octal_second (c - 48))
    else (c ∷ [], plain)

-- The bytes of a quoted token behind its opening quote, and the rest behind the closing one; `none`
-- where it is not closed, or an octal escape is not three digits.
unfoldable pub quoted_token : Scan → Bytes → Bytes → Option (Bytes × Bytes)
unfolding escape_of
quoted_token scan raw [] = none
quoted_token plain raw (c ∷ s) = elim (c == b'"') [
  | true ↦ some (raw, s)
  | false ↦ elim (c == b'\\') [
    | true ↦ quoted_token escaped raw s
    | false ↦ quoted_token plain (raw ++ c ∷ []) s
  ]
]
quoted_token escaped raw (c ∷ s) = quoted_token (escape_of c).1 (raw ++ (escape_of c).0) s
quoted_token (octal_second v) raw (c ∷ s) = elim (is_octal c) [
  | true ↦ quoted_token (octal_third (octal_digit v c)) raw s
  | false ↦ none
]
quoted_token (octal_third v) raw (c ∷ s) = elim (is_octal c) [
  | true ↦ quoted_token plain (raw ++ octal_digit v c ∷ []) s
  | false ↦ none
]

-- One token at the head of a text that is not empty and does not begin with white space.
one_token : ℕ → Bytes → Option (Bytes × Bytes)
one_token c s = elim (c == b'"') [
  | true ↦ elim (quoted_token plain [] s) [
    | none ↦ none
    | some (raw, rest) ↦ some (from_utf8_lossy raw, rest)
  ]
  | false ↦ some (bare_token (c ∷ s))
]

-- The outer loop, on fuel: each round uses up a byte.
unfoldable pub tokens_onto : ℕ → List Bytes → Bytes → Result DiffError (List Bytes)
unfolding skip_whitespace one_token quoted_token bare_token from_utf8_lossy
tokens_onto zero tokens s = err missing_file_header
tokens_onto (suc fuel) tokens s = elim (skip_whitespace s) [
  | [] ↦ ok tokens
  | c ∷ r ↦ elim (one_token c r) [
    | none ↦ err missing_file_header
    | some (token, rest) ↦ tokens_onto fuel (tokens ++ token ∷ []) rest
  ]
]

unfoldable pub parse_git_header_tokens : Bytes → Result DiffError (List Bytes)
unfolding tokens_onto
parse_git_header_tokens value = tokens_onto (suc (length value)) [] value

-- `path.strip_prefix("a/").or_else(|| path.strip_prefix("b/")).unwrap_or(path)`.
unfoldable pub strip_patch_prefix : Bytes → Bytes
strip_patch_prefix path = elim (strip_prefix (codes "a/") path) [
  | some rest ↦ rest
  | none ↦ elim (strip_prefix (codes "b/") path) [ some rest ↦ rest | none ↦ path ]
]

-- `join(" ")`.
join_spaces : List Bytes → Bytes
join_spaces [] = []
join_spaces (t ∷ []) = t
join_spaces (t ∷ u ∷ ts) = t ++ (b' ' ∷ join_spaces (u ∷ ts))

-- The tokens before the first that begins with `b/`, and from it on.
split_at_new : List Bytes → Option (List Bytes × List Bytes)
split_at_new [] = none
split_at_new (t ∷ ts) = elim (starts_with (codes "b/") t) [
  | true ↦ some ([], t ∷ ts)
  | false ↦ elim (split_at_new ts) [ none ↦ none | some (old, new) ↦ some (t ∷ old, new) ]
]

-- `skip(1)` passes the first token whatever it is.
split_tokens : List Bytes → Option (Bytes × Bytes)
split_tokens (old ∷ new ∷ []) = some (old, new)
split_tokens [] = none
split_tokens (t ∷ ts) = elim (split_at_new ts) [
  | none ↦ none
  | some (old, new) ↦ some (join_spaces (t ∷ old), join_spaces new)
]

unfoldable pub parse_diff_git_paths : Bytes → Result DiffError (Bytes × Bytes)
unfolding parse_git_header_tokens split_tokens split_at_new join_spaces strip_patch_prefix
parse_diff_git_paths value = do
  values ← parse_git_header_tokens value
  paths ← ok_or (split_tokens values) missing_file_header
  ok (strip_patch_prefix paths.0, strip_patch_prefix paths.1)

-- Exactly one token.
only_token : List Bytes → Result DiffError Bytes
only_token (path ∷ []) = ok path
only_token _ = err missing_file_header

unfoldable pub parse_git_path : Bytes → Result DiffError Bytes
unfolding parse_git_header_tokens only_token
parse_git_path value =
    if not (starts_with (codes "\"") value)
    then ok value
    else (parse_git_header_tokens value >>= only_token)

unfoldable pub strip_git_patch_prefix : Bytes → Result DiffError Bytes
unfolding parse_git_path strip_patch_prefix
strip_git_patch_prefix value = do path ← parse_git_path value; ok (strip_patch_prefix path)
