-- ===== src/Git/Pool/Sets.antt =====
-- The sets of paths in crates/git/src: a `BTreeSet<PathBuf>` is in the order of its paths' components.
use localreview.Prelude.{Bool, true, false, not, List, [], ◌∷◌, Option, none, some, if◌then◌else◌}
use localreview.Prelude.Text.{Bytes}
use localreview.Domain.Paths.{Component, root_dir, cur_dir, parent_dir, normal, components}
use localreview.Git.Pool.Names.{same_component}
use localreview.Git.Pool.Registry.{bytes_le}

-- The order of two components, and of two paths.
abbrev component_lt : Component → Component → Bool
component_lt root_dir root_dir = false
component_lt root_dir _ = true
component_lt cur_dir root_dir = false
component_lt cur_dir cur_dir = false
component_lt cur_dir _ = true
component_lt parent_dir (normal b) = true
component_lt parent_dir _ = false
component_lt (normal a) (normal b) = not (bytes_le b a)
component_lt (normal a) _ = false

abbrev pub path_compare : List Component → List Component → Option Bool
path_compare [] [] = none
path_compare [] (d ∷ ds) = some true
path_compare (c ∷ cs) [] = some false
path_compare (c ∷ cs) (d ∷ ds) =
    let rest = path_compare cs ds in if same_component c d then rest else some (component_lt c d)

-- A `BTreeSet` of paths, in its order.
unfoldable pub insert_path : Bytes → List Bytes → List Bytes
insert_path path [] = path ∷ []
insert_path path (p ∷ ps) =
    let later = insert_path path ps in
    elim (path_compare (components path) (components p)) [
      | none ↦ p ∷ ps
      | some before ↦ if before then path ∷ p ∷ ps else p ∷ later
    ]

unfoldable pub insert_paths : List Bytes → List Bytes → List Bytes
unfolding insert_path
insert_paths [] set = set
insert_paths (p ∷ ps) set = insert_paths ps (insert_path p set)

abbrev pub has_path : Bytes → List Bytes → Bool
has_path path [] = false
has_path path (p ∷ ps) = elim (path_compare (components path) (components p)) [
  | none ↦ true
  | some before ↦ has_path path ps
]
