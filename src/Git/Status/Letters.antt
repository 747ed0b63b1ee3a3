-- ===== src/Git/Status/Letters.antt =====
-- crates/git/src/lib.rs: the lines of a status as git documents them, and the letters of `change_kind`.
use localreview.Prelude.{
  ℕ, ◌≡◌, refl, Bool, true, false, ◌||◌, List, [], ◌∷◌, ◌++◌, Option, none, some, ◌==◌, arith,
}
use localreview.Prelude.Text.{Bytes, codes, contains_byte}
use localreview.Prelude.Lossy.{from_utf8_lossy}
use localreview.Git.Status.{
  WorkingTreeChangeKind, added, modified, deleted, renamed, copied, untracked, unmerged,
  type_changed, unknown, WorkingTreeChange, kind_of, change_kind, is_filled, is_move,
}

-- What git says of a file in the index or in the working tree, as `git status` documents it; `other` is any
-- further letter.
pub data FileState : Type 0 where
  unchanged changed retyped created removed moved duplicated conflicted untracked_file : FileState
  other : (letter : ℕ) → FileState

abbrev pub letter_of : FileState → ℕ
letter_of unchanged = b' '
letter_of changed = b'M'
letter_of retyped = b'T'
letter_of created = b'A'
letter_of removed = b'D'
letter_of moved = b'R'
letter_of duplicated = b'C'
letter_of conflicted = b'U'
letter_of untracked_file = b'?'
letter_of (other letter) = letter

-- A further letter is no NUL and none of the above.
abbrev pub IsState : FileState → Type 0
IsState (other letter) =
    ((letter == 0) ≡ false) × (contains_byte letter (codes " MTADRCU?") ≡ false)
IsState _ = Unit {0}

abbrev pub named_kind : FileState → WorkingTreeChangeKind
named_kind unchanged = unknown
named_kind changed = modified
named_kind retyped = type_changed
named_kind created = added
named_kind removed = deleted
named_kind moved = renamed
named_kind duplicated = copied
named_kind conflicted = unmerged
named_kind untracked_file = untracked
named_kind (other letter) = unknown

-- The kind of a change is that of the index, and of the working tree where the index has none.
abbrev pub kind_between : FileState → FileState → WorkingTreeChangeKind
kind_between unchanged worktree = named_kind worktree
kind_between index worktree = named_kind index

-- A file that was moved or copied has the path it comes from.
abbrev pub has_source : FileState → Bool
has_source moved = true
has_source duplicated = true
has_source _ = false

-- One line of the report.
pub record Report : Type 0 where
  pub index : FileState
  pub worktree : FileState
  pub path : Bytes
  pub original_path : Option Bytes

-- A record of the format: two letters, a space, the path and a NUL, and for a move or a copy the original
-- path and a NUL.
abbrev pub original_field : Option Bytes → Bytes
original_field none = []
original_field (some path) = path ++ 0 ∷ []

abbrev pub record_of : Report → Bytes
record_of report =
    letter_of report.index ∷ letter_of report.worktree ∷ b' ' ∷ report.path
    ++ 0 ∷ original_field report.original_path

abbrev pub render : List Report → Bytes
render [] = []
render (report ∷ reports) = record_of report ++ render reports

-- The change that a line of the report stands for.
abbrev pub change_in : Report → WorkingTreeChange
change_in report = record {
  index_status = letter_of report.index;
  worktree_status = letter_of report.worktree;
  kind = kind_between report.index report.worktree;
  path = report.path;
  original_path = report.original_path;
}

-- UTF-8 without a NUL.
abbrev pub IsName : Bytes → Type 0
IsName path = (contains_byte 0 path ≡ false) × (from_utf8_lossy path ≡ path)

abbrev pub IsOriginal : Bool → Option Bytes → Type 0
IsOriginal false none = Unit {0}
IsOriginal true (some path) = IsName path × (is_filled path ≡ true)
IsOriginal _ _ = ⊥

-- A line that git can write: it has an original path exactly when one of its states has a source.
pub record IsReported (report : Report) : Type 0 where
  pub index : IsState report.index
  pub worktree : IsState report.worktree
  pub name : IsName report.path
  pub original :
      IsOriginal (has_source report.index || has_source report.worktree) report.original_path

pub letter-nonzero : (state : FileState) → IsState state → (letter_of state == 0) ≡ false
letter-nonzero unchanged h = refl
letter-nonzero changed h = refl
letter-nonzero retyped h = refl
letter-nonzero created h = refl
letter-nonzero removed h = refl
letter-nonzero moved h = refl
letter-nonzero duplicated h = refl
letter-nonzero conflicted h = refl
letter-nonzero untracked_file h = refl
letter-nonzero (other letter) h = h.0

pub is_move-letter :
    (state : FileState) → IsState state → is_move (letter_of state) ≡ has_source state
is_move-letter unchanged h = refl
is_move-letter changed h = refl
is_move-letter retyped h = refl
is_move-letter created h = refl
is_move-letter removed h = refl
is_move-letter moved h = refl
is_move-letter duplicated h = refl
is_move-letter conflicted h = refl
is_move-letter untracked_file h = refl
is_move-letter (other letter) h = ground (arith, h.1)

kind_of-letter : (state : FileState) → IsState state → kind_of (letter_of state) ≡ named_kind state
kind_of-letter unchanged h = refl
kind_of-letter changed h = refl
kind_of-letter retyped h = refl
kind_of-letter created h = refl
kind_of-letter removed h = refl
kind_of-letter moved h = refl
kind_of-letter duplicated h = refl
kind_of-letter conflicted h = refl
kind_of-letter untracked_file h = refl
kind_of-letter (other letter) h = ground (arith, h.1)

pub change_kind-letters :
    (index worktree : FileState)
    → IsState index
    → IsState worktree
    → change_kind (letter_of index) (letter_of worktree) ≡ kind_between index worktree
unfolding change_kind
change_kind-letters unchanged worktree v w = kind_of-letter worktree w
change_kind-letters changed worktree v w = refl
change_kind-letters retyped worktree v w = refl
change_kind-letters created worktree v w = refl
change_kind-letters removed worktree v w = refl
change_kind-letters moved worktree v w = refl
change_kind-letters duplicated worktree v w = refl
change_kind-letters conflicted worktree v w = refl
change_kind-letters untracked_file worktree v w = refl
change_kind-letters (other letter) worktree v w =
    let apart : (letter == b' ') ≡ false = ground (arith, v.1) in
    rw apart (kind_of-letter (other letter) v)
