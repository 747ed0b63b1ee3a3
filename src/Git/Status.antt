-- ===== src/Git/Status.antt =====
-- crates/git/src/lib.rs: the output of `git status --porcelain=v1 -z`. A char of a status is its code.
pub mod Letters
pub mod RoundTrip
use localreview.Prelude.{
  ℕ, Bool, true, false, ◌&&◌, ◌||◌, not, List, [], ◌∷◌, ◌++◌, Option, none, some, filter, ◌==◌,
  if◌then◌else◌,
}
use localreview.Prelude.Text.{Bytes, codes, same}
use localreview.Prelude.Lossy.{from_utf8_lossy}
use localreview.Prelude.Result.{Result, ok, err, ◌>>=◌}
use localreview.Protocol.Local.Texts.{split_at}
use localreview.Git.Command.{GitError, parse_failed}

pub data WorkingTreeChangeKind : Type 0 where
  added modified deleted renamed copied untracked unmerged type_changed unknown :
      WorkingTreeChangeKind

pub record WorkingTreeChange : Type 0 where
  pub index_status : ℕ
  pub worktree_status : ℕ
  pub kind : WorkingTreeChangeKind
  pub path : Bytes
  pub original_path : Option Bytes

abbrev pub kind_of : ℕ → WorkingTreeChangeKind
kind_of status =
    if status == b'?'
    then untracked
    else if status == b'A'
    then added
    else if status == b'M'
    then modified
    else if status == b'D'
    then deleted
    else if status == b'R'
    then renamed
    else if status == b'C'
    then copied
    else if status == b'U'
    then unmerged
    else if status == b'T'
    then type_changed
    else unknown

-- `change_kind`.
unfoldable pub change_kind : ℕ → ℕ → WorkingTreeChangeKind
change_kind index_status worktree_status =
    if not (index_status == b' ') then kind_of index_status else kind_of worktree_status

-- The fields that are not empty between NULs.
abbrev pub is_filled : Bytes → Bool
is_filled [] = false
is_filled (c ∷ s) = true

unfoldable pub fields : Bytes → List Bytes
fields bytes = filter is_filled (split_at 0 bytes)

abbrev pub is_move : ℕ → Bool
is_move status = status == b'R' || status == b'C'

abbrev pub has_original : ℕ → ℕ → Bool
has_original index_status worktree_status = is_move index_status || is_move worktree_status

unfoldable pub change_of : ℕ → ℕ → Bytes → Option Bytes → WorkingTreeChange
unfolding change_kind
change_of index_status worktree_status path original_path = record {
  index_status = index_status;
  worktree_status = worktree_status;
  kind = change_kind index_status worktree_status;
  path = from_utf8_lossy path;
  original_path = original_path;
}

-- The two states and the path of a field.
abbrev pub field_parts : Bytes → Result GitError (ℕ × ℕ × Bytes)
field_parts (x ∷ y ∷ space ∷ path) =
    if space == b' '
    then ok (x, y, path)
    else err (parse_failed (codes "invalid porcelain v1 record"))
field_parts _ = err (parse_failed (codes "invalid porcelain v1 record"))

abbrev pub push : {A : Type 0} → A → Result GitError (List A) → Result GitError (List A)
push change (ok changes) = ok (change ∷ changes)
push change (err e) = err e

-- The loop over the fields; a rename takes two of them.
unfoldable pub parse_fields : List Bytes → Result GitError (List WorkingTreeChange)
unfolding change_of
parse_fields [] = ok []
parse_fields (field ∷ []) = do
  (x, y, path) ← field_parts field
  (if has_original x y
      then err (parse_failed (codes "rename record missing original path"))
      else ok (change_of x y path none ∷ []))
parse_fields (field ∷ next ∷ rest) =
    let with_original = parse_fields rest in
    let without = parse_fields (next ∷ rest) in
    field_parts field >>= λ ((x, y, path) : ℕ × ℕ × Bytes).
    if has_original x y
    then push (change_of x y path (some (from_utf8_lossy next))) with_original
    else push (change_of x y path none) without

-- `parse_porcelain_v1_z`.
unfoldable pub parse_porcelain_v1_z : Bytes → Result GitError (List WorkingTreeChange)
unfolding fields parse_fields
parse_porcelain_v1_z bytes = parse_fields (fields bytes)
