-- ===== src/Git/Discovery.antt =====
-- crates/git/src/lib.rs, `discover_repositories`: the search for repositories below a directory, breadth first.
pub mod Finishes
use localreview.Prelude.{
  ℕ, zero, suc, ◌+◌, Bool, true, false, ◌&&◌, ◌||◌, not, List, [], ◌∷◌, ◌++◌, Option, none, some,
  map, leb, if◌then◌else◌,
}
use localreview.Prelude.Text.{Bytes, codes, same}
use localreview.Prelude.Result.{Result, ok, err, ◌>>=◌}
use localreview.Domain.Paths.{Component, components}
use localreview.Git.Command.{GitError, file_error}
use localreview.Git.Pool.Names.{join, same_component, is_prefix}
use localreview.Git.Pool.Sets.{path_compare, has_path}
use localreview.Git.Pool.Sources.{RepositoryIdentity}

pub record DiscoveryConfig : Type 0 where
  pub max_depth : ℕ
  pub excluded_directory_names : List Bytes
  pub excluded_relative_prefixes : List Bytes

-- `DiscoveryConfig::default`.
unfoldable pub default_config : DiscoveryConfig
default_config = record {
  max_depth = 4;
  excluded_directory_names =
      codes ".git"
      ∷ codes "node_modules"
      ∷ codes ".cache"
      ∷ codes "target"
      ∷ codes "build"
      ∷ codes "dist"
      ∷ [];
  excluded_relative_prefixes = [];
}

-- A relative path is its components.
pub record DiscoveredRepository : Type 0 where
  pub relative_path : List Component
  pub identity : RepositoryIdentity

-- An entry of a directory: its name, and whether it is a directory and no symbolic link.
pub record DirEntry : Type 0 where
  pub name : Bytes
  pub is_plain_dir : Bool

-- The file system and git as the search asks them; `inspect` is `GitRepository::inspect`.
pub record Walker : Type 0 where
  -- Whether a path is a directory and no symbolic link, unless that cannot be read.
  pub symlink_metadata : Bytes → Option Bool
  pub has_git_marker : Bytes → Bool
  pub inspect : Bytes → Result GitError RepositoryIdentity
  pub canonicalize : Bytes → Option Bytes
  pub read_dir : Bytes → Result GitError (List DirEntry)

pub record Walk : Type 0 where
  pub pending : List (Bytes × ℕ)
  pub discovered : List DiscoveredRepository
  pub seen : List Bytes

-- `strip_prefix(root).unwrap_or(path)`.
abbrev pub strip_components : List Component → List Component → Option (List Component)
strip_components [] path = some path
strip_components (c ∷ root) [] = none
strip_components (c ∷ root) (d ∷ path) =
    if same_component c d then strip_components root path else none

unfoldable pub relative_to : Bytes → Bytes → List Component
relative_to root path = elim (strip_components (components root) (components path)) [
  | none ↦ components path
  | some rest ↦ rest
]

abbrev one_of : Bytes → List Bytes → Bool
one_of name [] = false
one_of name (n ∷ names) = same n name || one_of name names

abbrev any_prefix : List Bytes → List Component → Bool
any_prefix [] path = false
any_prefix (prefix ∷ prefixes) path = is_prefix (components prefix) path || any_prefix prefixes path

-- `sort_by` of the relative paths, which is stable.
abbrev comes_first : Option Bool → Bool
comes_first none = true
comes_first (some before) = before

abbrev insert_repository :
    DiscoveredRepository → List DiscoveredRepository → List DiscoveredRepository
insert_repository r [] = r ∷ []
insert_repository r (q ∷ rest) =
    let later = insert_repository r rest in
    if comes_first (path_compare r.relative_path q.relative_path) then r ∷ q ∷ rest else q ∷ later

unfoldable pub sort_repositories : List DiscoveredRepository → List DiscoveredRepository
sort_repositories [] = []
sort_repositories (r ∷ rest) = insert_repository r (sort_repositories rest)

module _ (walker : Walker) (root : Bytes) (config : DiscoveryConfig) where
  -- The entries that are searched.
  unfoldable pub is_searched : Bytes → DirEntry → Bool
  unfolding join relative_to
  is_searched directory entry =
      entry.is_plain_dir
      && not (one_of entry.name config.excluded_directory_names)
      && not (
          any_prefix config.excluded_relative_prefixes
            (relative_to root (join directory entry.name)))

  unfoldable pub candidates : Bytes → List DirEntry → List Bytes
  unfolding is_searched join
  candidates directory [] = []
  candidates directory (entry ∷ entries) =
      let rest = candidates directory entries in
      if is_searched directory entry then join directory entry.name ∷ rest else rest

  abbrev pub dedupe_key : RepositoryIdentity → Bytes
  dedupe_key identity = elim (walker.canonicalize identity.common_dir) [
    | none ↦ identity.worktree
    | some path ↦ path
  ]

  -- A repository is kept unless its common directory has been seen.
  unfoldable pub keep : Bytes → RepositoryIdentity → Walk → Walk
  unfolding relative_to
  keep directory identity walk = if has_path (dedupe_key identity) walk.seen then walk else record {
    pending = walk.pending;
    discovered =
        walk.discovered
        ++ record { relative_path = relative_to root directory; identity = identity } ∷ [];
    seen = dedupe_key identity ∷ walk.seen;
  }

  abbrev pub below : ℕ → List Bytes → List (Bytes × ℕ)
  below depth [] = []
  below depth (d ∷ ds) = (d, depth) ∷ below depth ds

  -- The directories of a directory, behind those that wait.
  unfoldable pub descend : Bytes → ℕ → Walk → Result GitError Walk
  unfolding candidates
  descend directory depth walk = do
    entries ← walker.read_dir directory
    ok (record walk { pending = walk.pending ++ below (suc depth) (candidates directory entries) })

  -- One turn of the loop, for a directory that is taken from the queue.
  unfoldable pub visit : Bytes → ℕ → Walk → Result GitError Walk
  unfolding keep descend
  visit directory depth walk =
      let found = (walker.inspect directory >>= λ identity. ok (keep directory identity walk)) in
      let deeper = descend directory depth walk in
      let searched = (if leb config.max_depth depth then ok walk else deeper) in
      elim (walker.symlink_metadata directory) [
        | none ↦ err (file_error directory)
        | some plain ↦
            if not plain
            then ok walk
            else if walker.has_git_marker directory
            then found
            else searched
      ]

  -- The loop, with `none` where the fuel is used up.
  unfoldable pub search : ℕ → Walk → Result GitError (Option (List DiscoveredRepository))
  unfolding visit sort_repositories
  search zero walk = elim (walk.pending) [
    | [] ↦ ok (some (sort_repositories walk.discovered))
    | next ∷ rest ↦ ok none
  ]
  search (suc fuel) walk = elim (walk.pending) [
    | [] ↦ ok (some (sort_repositories walk.discovered))
    | next ∷ rest ↦ visit next.0 next.1 (record walk { pending = rest }) >>= search fuel
  ]

  -- `discover_repositories`.
  unfoldable pub discover_repositories : ℕ → Result GitError (Option (List DiscoveredRepository))
  unfolding search
  discover_repositories fuel =
      search fuel (record { pending = (root, 0) ∷ []; discovered = []; seen = [] })
