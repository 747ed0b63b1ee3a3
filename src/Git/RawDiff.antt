-- ===== src/Git/RawDiff.antt =====
-- crates/git/src/lib.rs: the output of `git diff --raw -z`. A mode is a `u32`; the status is its first byte,
-- which decides for ASCII statuses.
pub mod Shape
use localreview.Prelude.{
  ℕ, ◌+◌, ◌-◌, ◌*◌, Bool, true, false, ◌&&◌, ◌||◌, not, List, [], ◌∷◌, ◌++◌, Option, none, some,
  get_elem?, ltb, ◌==◌, if◌then◌else◌,
}
use localreview.Prelude.Text.{Bytes, codes, same, strip_prefix, starts_with, contains}
use localreview.Prelude.Words.{between, split_whitespace}
use localreview.Prelude.Lossy.{from_utf8_lossy}
use localreview.Prelude.Result.{Result, ok, err, ok_or, ◌>>=◌}
use localreview.Diff.Types.{u32_max}
use localreview.Git.Command.{GitError, parse_failed}
use localreview.Git.Status.{fields, push}

pub data CapturedTrackedFileKind : Type 0 where
  added modified deleted renamed copied mode_changed type_changed submodule :
      CapturedTrackedFileKind

pub record RawDiffEntry : Type 0 where
  pub path : Bytes
  pub old_path : Option Bytes
  pub kind : CapturedTrackedFileKind
  pub old_mode : ℕ
  pub new_mode : ℕ

-- The digits of `u32::from_str_radix(value, 8)`.
unfoldable pub octal_digits : ℕ → Bytes → Option ℕ
octal_digits n [] = some n
octal_digits n (c ∷ s) =
    let next = n * 8 + (c - b'0') in
    let rest = octal_digits next s in
    if between b'0' b'7' c && not (ltb u32_max next) then rest else none

unfoldable pub parse_octal : Bytes → Option ℕ
unfolding octal_digits
parse_octal [] = none
parse_octal (c ∷ []) = if c == b'+' then none else octal_digits 0 (c ∷ [])
parse_octal (c ∷ d ∷ s) = if c == b'+' then octal_digits 0 (d ∷ s) else octal_digits 0 (c ∷ d ∷ s)

abbrev bind_option : {A B : Type 0} → Option A → (A → Option B) → Option B
bind_option none next = none
bind_option (some a) next = next a

abbrev first_byte : Bytes → Option ℕ
first_byte [] = none
first_byte (c ∷ s) = some c

abbrev is_some : Option Bytes → Bool
is_some none = false
is_some (some part) = true

abbrev pub Header : Type 0
Header = ℕ × ℕ × ℕ

-- The modes and the status of a header's parts.
unfoldable pub parse_parts : List Bytes → Result GitError Header
unfolding parse_octal
parse_parts parts = do
  old_mode ←
      ok_or (bind_option (bind_option (get_elem? parts 0) (strip_prefix (codes ":"))) parse_octal)
        (parse_failed (codes "raw diff old mode was invalid"))
  new_mode ←
      ok_or (bind_option (get_elem? parts 1) parse_octal)
        (parse_failed (codes "raw diff new mode was invalid"))
  old_sha ← ok_or (get_elem? parts 2) (parse_failed (codes "raw diff old object was missing"))
  new_sha ← ok_or (get_elem? parts 3) (parse_failed (codes "raw diff new object was missing"))
  status ←
      ok_or (bind_option (get_elem? parts 4) first_byte)
        (parse_failed (codes "raw diff status was missing"))
  (if is_some (get_elem? parts 5)
      then err (parse_failed (codes "raw diff header had extra fields"))
      else ok (old_mode, new_mode, status))

-- `std::str::from_utf8` accepts what the lossy decoding leaves as it is.
unfoldable pub parse_header : Bytes → Result GitError Header
unfolding parse_parts
parse_header header =
    let parts = parse_parts (split_whitespace header) in
    if same (from_utf8_lossy header) header
    then parts
    else err (parse_failed (codes "raw diff header was not ASCII"))

abbrev pub is_moved : ℕ → Bool
is_moved status = status == b'R' || status == b'C'

-- The kinds with one path.
unfoldable pub single_kind : Header → Result GitError CapturedTrackedFileKind
single_kind (old_mode, new_mode, status) =
    if status == b'A'
    then ok added
    else if status == b'D'
    then ok deleted
    else if status == b'T'
    then ok type_changed
    else if status == b'M'
    then ok (if not (old_mode == new_mode) then mode_changed else modified)
    else err (parse_failed (codes "unsupported raw diff status"))

unfoldable pub moved_entry : Header → Bytes → Bytes → RawDiffEntry
moved_entry (old_mode, new_mode, status) first_path second_path = record {
  path = from_utf8_lossy second_path;
  old_path = some (from_utf8_lossy first_path);
  kind = if status == b'R' then renamed else copied;
  old_mode = old_mode;
  new_mode = new_mode;
}

unfoldable pub single_entry : Header → Bytes → CapturedTrackedFileKind → RawDiffEntry
single_entry (old_mode, new_mode, status) first_path kind = record {
  path = from_utf8_lossy first_path;
  old_path = none;
  kind = kind;
  old_mode = old_mode;
  new_mode = new_mode;
}

-- An entry of one path, in front of the later ones.
abbrev pub push_single :
    Header → Bytes → Result GitError (List RawDiffEntry) → Result GitError (List RawDiffEntry)
push_single header first_path later =
    single_kind header >>= λ kind. push (single_entry header first_path kind) later

-- The loop over the fields.
unfoldable pub parse_raw_fields : List Bytes → Result GitError (List RawDiffEntry)
unfolding parse_header single_kind moved_entry single_entry
parse_raw_fields [] = ok []
parse_raw_fields (field ∷ []) =
    parse_header field >>= λ header. err (parse_failed (codes "raw diff path was missing"))
parse_raw_fields (field ∷ first_path ∷ []) = parse_header field >>= λ (header : Header).
    if is_moved header.2
    then err (parse_failed (codes "raw diff rename/copy target was missing"))
    else push_single header first_path (ok [])
parse_raw_fields (field ∷ first_path ∷ second_path ∷ rest) =
    let behind_two = parse_raw_fields rest in
    let behind_one = parse_raw_fields (second_path ∷ rest) in
    parse_header field >>= λ (header : Header).
    if is_moved header.2
    then push (moved_entry header first_path second_path) behind_two
    else push_single header first_path behind_one

-- `parse_raw_diff_z`.
unfoldable pub parse_raw_diff_z : Bytes → Result GitError (List RawDiffEntry)
unfolding parse_raw_fields
parse_raw_diff_z bytes = parse_raw_fields (fields bytes)

-- `is_lfs_pointer`.
unfoldable pub is_lfs_pointer : Bytes → Bool
is_lfs_pointer bytes =
    starts_with (codes "version https://git-lfs.github.com/spec/v1\n") bytes
    && contains (codes "oid sha256:") bytes
