-- ===== src/Domain/Paths.antt =====
-- crates/domain/src/lib.rs, `is_safe_repository_relative_path`, with the components that
-- `std::path::Path` gives on Unix.
use localreview.Prelude.{
  ◌≡◌, refl, Bool, true, false, ◌&&◌, ◌||◌, not, List, [], ◌∷◌, ◌++◌, arith, ◌==◌, if◌then◌else◌,
}
use localreview.Prelude.Text.{Bytes, codes, same, starts_with, contains_byte}
use localreview.Prelude.Lines.{attach}

pub data Component : Type 0 where
  root_dir cur_dir parent_dir : Component
  normal : Bytes → Component

-- The pieces between slashes.
abbrev pub split_slashes : Bytes → List Bytes
split_slashes [] = [] ∷ []
split_slashes (c ∷ s) = let rest = split_slashes s in if c == b'/' then [] ∷ rest else attach c rest

-- An empty piece and `.` are no component, except a leading `.` of a relative path.
abbrev pub piece_component : Bytes → List Component
piece_component piece =
    if same piece [] || same piece (codes ".")
    then []
    else if same piece (codes "..")
    then parent_dir ∷ []
    else normal piece ∷ []

abbrev pub piece_components : List Bytes → List Component
piece_components [] = []
piece_components (piece ∷ pieces) = piece_component piece ++ piece_components pieces

abbrev pub relative_components : List Bytes → List Component
relative_components [] = []
relative_components (piece ∷ pieces) =
    (if same piece (codes ".") then cur_dir ∷ [] else piece_component piece)
    ++ piece_components pieces

-- `Path::components`.
unfoldable pub components : Bytes → List Component
components path =
    if starts_with (codes "/") path
    then root_dir ∷ piece_components (split_slashes path)
    else relative_components (split_slashes path)

-- `ParentDir | RootDir | Prefix(_)`.
abbrev pub is_escape : Component → Bool
is_escape root_dir = true
is_escape cur_dir = false
is_escape parent_dir = true
is_escape (normal piece) = false

abbrev pub any_escape : List Component → Bool
any_escape [] = false
any_escape (component ∷ rest) = is_escape component || any_escape rest

unfoldable pub is_safe_repository_relative_path : Bytes → Bool
is_safe_repository_relative_path path =
    not (same path [])
    && not (contains_byte 0 path)
    && not (starts_with (codes ":") path)
    && not (starts_with (codes "/") path)
    && not (any_escape (components path))

-- Where a path leads from a directory, given by its names from the innermost out.
abbrev pub resolve : List Bytes → List Component → List Bytes
resolve dirs [] = dirs
resolve dirs (root_dir ∷ rest) = resolve [] rest
resolve dirs (cur_dir ∷ rest) = resolve dirs rest
resolve [] (parent_dir ∷ rest) = resolve [] rest
resolve (dir ∷ dirs) (parent_dir ∷ rest) = resolve dirs rest
resolve dirs (normal piece ∷ rest) = resolve (piece ∷ dirs) rest

pub resolve-append :
    (base dirs : List Bytes) (path : List Component)
    → any_escape path ≡ false
    → (below : List Bytes) × (resolve (dirs ++ base) path ≡ below ++ base)
resolve-append base dirs [] h = (dirs, refl)
resolve-append base dirs (root_dir ∷ rest) h = absurd (true-ne-false h)
  where
    true-ne-false : true ≡ false → ⊥
    true-ne-false e = cc
resolve-append base dirs (cur_dir ∷ rest) h = resolve-append base dirs rest h
resolve-append base dirs (parent_dir ∷ rest) h = absurd (true-ne-false h)
  where
    true-ne-false : true ≡ false → ⊥
    true-ne-false e = cc
resolve-append base dirs (normal piece ∷ rest) h = resolve-append base (piece ∷ dirs) rest h

-- A safe repository path never leads out of the directory that it is read in: from any directory it
-- leads to that directory or to one below it.
pub is_safe_repository_relative_path-resolve :
    (path : Bytes) (base : List Bytes)
    → is_safe_repository_relative_path path ≡ true
    → (below : List Bytes) × (resolve base (components path) ≡ below ++ base)
unfolding is_safe_repository_relative_path
is_safe_repository_relative_path-resolve path base h =
    resolve-append base [] (components path) (ground arith)
