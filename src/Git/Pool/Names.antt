-- ===== src/Git/Pool/Names.antt =====
-- crates/git/src/pool.rs: the identities and paths that the pool derives.
use localreview.Prelude.{
  Bool, true, false, ◌&&◌, ◌||◌, not, List, [], ◌∷◌, ◌++◌, Option, none, some, map, length, ltb,
  leb, if◌then◌else◌,
}
use localreview.Prelude.Text.{Bytes, codes, same, starts_with, ends_with, contains_byte}
use localreview.Prelude.Words.{rsplit_once, trim_end_matches}
use localreview.Prelude.Result.{Result, ok, err, ◌>>=◌}
use localreview.Domain.References.{all_bytes, lowercase}
use localreview.Domain.Paths.{Component, root_dir, cur_dir, parent_dir, normal, components}
use localreview.Protocol.Local.Texts.{is_identifier_byte}
use localreview.Git.Command.{normalize_remote_url}
use localreview.Git.Pool.Types.{
  RepositoryLocator, RepositoryPoolError, invalid_locator_component, invalid_review_id,
  invalid_clone_url,
}

-- `safe_component`.
unfoldable pub safe_component : Bytes → Bool
safe_component value =
    not (same value [])
    && leb (length value) 128
    && not (same value (codes "."))
    && not (same value (codes ".."))
    && all_bytes is_identifier_byte value

unfoldable pub check_component : Bytes → Bytes → Result RepositoryPoolError (Unit {0})
check_component label value =
    if safe_component value then ok tt else err (invalid_locator_component label value)

-- `RepositoryLocator::new`.
unfoldable pub repository_locator :
    Bytes → Bytes → Bytes → Result RepositoryPoolError RepositoryLocator
unfolding check_component
repository_locator host owner repository = do
  checked_host ← check_component (codes "host") (map lowercase host)
  checked_owner ← check_component (codes "owner") owner
  checked_repository ← check_component (codes "repository") repository
  ok (record { host = map lowercase host; owner = owner; repository = repository })

unfoldable pub validate_review_id : Bytes → Result RepositoryPoolError (Unit {0})
validate_review_id review_id =
    if safe_component review_id then ok tt else err (invalid_review_id review_id)

unfoldable pub validate_clone_url : Bytes → Result RepositoryPoolError (Unit {0})
validate_clone_url clone_url =
    if same clone_url [] || ltb 4096 (length clone_url) || contains_byte 0 clone_url
    then err invalid_clone_url
    else ok tt

-- `Path::join`: an absolute second path replaces the first.
unfoldable pub join : Bytes → Bytes → Bytes
join a b =
    if starts_with (codes "/") b
    then b
    else if same a [] || ends_with b'/' a
    then a ++ b
    else a ++ b'/' ∷ b

-- `Path::parent` of a path that does not end in a slash.
unfoldable pub parent : Bytes → Option Bytes
parent path = elim (rsplit_once b'/' path) [
  | none ↦ if same path [] then none else some []
  | some (front, name) ↦
      if not (same front []) then some front else if same name [] then none else some (codes "/")
]

abbrev pub same_component : Component → Component → Bool
same_component root_dir root_dir = true
same_component cur_dir cur_dir = true
same_component parent_dir parent_dir = true
same_component (normal a) (normal b) = same a b
same_component _ _ = false

abbrev pub is_prefix : List Component → List Component → Bool
is_prefix [] path = true
is_prefix (c ∷ cs) [] = false
is_prefix (c ∷ cs) (d ∷ ds) = same_component c d && is_prefix cs ds

-- `Path::starts_with`.
unfoldable pub path_starts_with : Bytes → Bytes → Bool
path_starts_with path root = is_prefix (components root) (components path)

-- `RepositoryPool`, and where it keeps its files.
pub record RepositoryPool : Type 0 where
  pub cache_root : Bytes
  pub application_data_root : Bytes

-- `RepositoryPool::mirror_path`.
unfoldable pub mirror_path : RepositoryPool → RepositoryLocator → Bytes
unfolding join
mirror_path pool repository =
    join (join (join (join pool.cache_root (codes "git-mirrors")) repository.host) repository.owner)
      (repository.repository ++ codes ".git")

abbrev pub reviews_root : RepositoryPool → Bytes
reviews_root pool = join pool.application_data_root (codes "reviews")

-- `RepositoryPool::worktree_path`.
unfoldable pub worktree_path : RepositoryPool → Bytes → Result RepositoryPoolError Bytes
unfolding validate_review_id join
worktree_path pool review_id = do
  checked ← validate_review_id review_id
  ok (join (join (reviews_root pool) review_id) (codes "worktree"))

-- `WorktreeRegistry::new`.
unfoldable pub registry_path : RepositoryPool → Bytes
unfolding join
registry_path pool = join pool.application_data_root (codes "managed-worktrees.json")

unfoldable pub equivalent_remotes : Bytes → Bytes → Bool
equivalent_remotes left right =
    same (normalize_remote_url left) (normalize_remote_url right)
    || same (trim_end_matches b'/' left) (trim_end_matches b'/' right)

abbrev pub has_parent_dir : List Component → Bool
has_parent_dir [] = false
has_parent_dir (parent_dir ∷ rest) = true
has_parent_dir (_ ∷ rest) = has_parent_dir rest
