-- ===== src/Git/Pool/Types.antt =====
-- crates/git/src/pool.rs: the records of the pool and its errors. A `PathBuf` is its text, a time a number.
use localreview.Prelude.{ℕ, Bool, List}
use localreview.Prelude.Text.{Bytes}
use localreview.Domain.References.{GitSha}
use localreview.Git.Command.{GitError}

pub record RepositoryLocator : Type 0 where
  pub host : Bytes
  pub owner : Bytes
  pub repository : Bytes

pub record PinnedGitRevision : Type 0 where
  pub base_sha : GitSha
  pub head_sha : GitSha

pub data RepositoryObjectSource : Type 0 where
  known_clone managed_mirror : (path : Bytes) → RepositoryObjectSource

-- `RepositoryObjectSource::path`.
abbrev pub source_path : RepositoryObjectSource → Bytes
source_path (known_clone path) = path
source_path (managed_mirror path) = path

pub record ManagedWorktree : Type 0 where
  pub review_id : Bytes
  pub repository : RepositoryLocator
  pub worktree_path : Bytes
  pub source : RepositoryObjectSource
  pub revision : PinnedGitRevision
  pub created_at : ℕ

pub record PrepareManagedWorktreeRequest : Type 0 where
  pub review_id : Bytes
  pub repository : RepositoryLocator
  pub clone_url : Bytes
  pub revision : PinnedGitRevision
  pub known_clones : List Bytes

pub record DeletedManagedWorktree : Type 0 where
  pub record_of : ManagedWorktree
  pub mirror_retained : Bool

pub record UnregisteredManagedWorktree : Type 0 where
  pub source_path_of : Bytes
  pub worktree_path : Bytes

pub record WorktreeOrphanReport : Type 0 where
  pub missing_registrations : List ManagedWorktree
  pub unregistered_worktrees : List UnregisteredManagedWorktree

pub record WorktreeRepairReport : Type 0 where
  pub repaired_missing_registrations : List Bytes
  pub removed_unregistered : List UnregisteredManagedWorktree
  pub dirty_unregistered : List UnregisteredManagedWorktree

pub record RegistryFile : Type 0 where
  pub version : ℕ
  pub worktrees : List ManagedWorktree

-- The foreign errors inside `File`, `RegistryDecode` and `RegistryEncode` are left out.
pub data RepositoryPoolError : Type 0 where
  git_failed : GitError → RepositoryPoolError
  file_failed : (path : Bytes) → RepositoryPoolError
  invalid_locator_component : (label value : Bytes) → RepositoryPoolError
  invalid_review_id : (review_id : Bytes) → RepositoryPoolError
  invalid_clone_url : RepositoryPoolError
  review_id_already_managed : (review_id : Bytes) → RepositoryPoolError
  worktree_path_already_exists : (path : Bytes) → RepositoryPoolError
  dirty_managed_worktree missing_managed_worktree : (path : Bytes) → RepositoryPoolError
  unknown_managed_worktree : (review_id : Bytes) → RepositoryPoolError
  unsafe_managed_path unsafe_mirror_path unusable_mirror mirror_remote_mismatch :
      (path : Bytes) → RepositoryPoolError
  known_clone_missing_pinned_commit : (path : Bytes) → RepositoryPoolError
  pinned_commit_unavailable :
      (source_path : Bytes) (base_sha head_sha : GitSha) (clone_url : Bytes) → RepositoryPoolError
  mirror_in_use : (path : Bytes) → RepositoryPoolError
  mirror_has_worktrees : (path : Bytes) (worktrees : List Bytes) → RepositoryPoolError
  registry_decode : (path : Bytes) → RepositoryPoolError
  registry_encode : RepositoryPoolError
  unsupported_registry_version : (path : Bytes) (version : ℕ) → RepositoryPoolError
  lock_timeout : (path : Bytes) → RepositoryPoolError
