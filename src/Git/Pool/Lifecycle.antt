-- ===== src/Git/Pool/Lifecycle.antt =====
-- crates/git/src/pool.rs: a managed worktree is prepared, examined and deleted.
use localreview.Prelude.{Bool, true, false, ◌&&◌, not, List, [], ◌∷◌, none, some, if◌then◌else◌}
use localreview.Prelude.Text.{Bytes, codes, same}
use localreview.Git.Command.{GitCommand, command_failed, display, stderr_trimmed}
use localreview.Git.Pool.Types.{
  RepositoryLocator, PinnedGitRevision, RepositoryObjectSource, known_clone, managed_mirror,
  source_path, ManagedWorktree, PrepareManagedWorktreeRequest, DeletedManagedWorktree, git_failed,
  review_id_already_managed, worktree_path_already_exists, dirty_managed_worktree,
  missing_managed_worktree, unknown_managed_worktree, unsafe_managed_path, file_failed,
}
use localreview.Git.Pool.Names.{
  RepositoryPool, parent, validate_review_id, validate_clone_url, worktree_path, registry_path,
}
use localreview.Git.Pool.Host.{
  Host, M, created, removed, ◌>>=◌, pure, fail, lift, ask, or_fail, effect, ask_dir, run_git,
  require_git, with_lock,
}
use localreview.Git.Pool.Registry.{get_worktree, upsert, remove_worktree}
use localreview.Git.Pool.Sources.{select_source, ensure_pinned_objects, ensure_managed_path}

-- The derived equality of a locator and of a revision.
abbrev pub same_locator : RepositoryLocator → RepositoryLocator → Bool
same_locator a b = same a.host b.host && same a.owner b.owner && same a.repository b.repository

abbrev pub same_revision : PinnedGitRevision → PinnedGitRevision → Bool
same_revision a b = same a.base_sha b.base_sha && same a.head_sha b.head_sha

abbrev pub is_mirror : RepositoryObjectSource → Bool
is_mirror (known_clone path) = false
is_mirror (managed_mirror path) = true

abbrev pub status_arguments : List Bytes
status_arguments =
    codes "status" ∷ codes "--porcelain=v1" ∷ codes "-z" ∷ codes "--untracked-files=all" ∷ []

abbrev pub remove_arguments : Bytes → List Bytes
remove_arguments path = codes "worktree" ∷ codes "remove" ∷ path ∷ []

abbrev pub prune_arguments : List Bytes
prune_arguments = codes "worktree" ∷ codes "prune" ∷ []

module _ {World : Type 0} (host : Host World) (pool : RepositoryPool) where
  -- A review that is registered: its record, when nothing about it differs.
  unfoldable pub reuse : PrepareManagedWorktreeRequest → ManagedWorktree → M World ManagedWorktree
  reuse request existing = do
    let known =
        same_locator existing.repository request.repository
        && same_revision existing.revision request.revision
    let present : M World ManagedWorktree = (do
      there ← ask_dir host existing.worktree_path
      if there then pure existing else fail (review_id_already_managed request.review_id))
    if known then present else fail (review_id_already_managed request.review_id)

  -- A review that is not.
  unfoldable pub check_out : PrepareManagedWorktreeRequest → Bytes → M World ManagedWorktree
  unfolding require_git ensure_pinned_objects upsert
  check_out request target = do
    source ← select_source host pool request
    complete ← ensure_pinned_objects host source request.clone_url request.revision
    directory ← or_fail (parent target) (unsafe_managed_path target)
    made ← effect (λ w. host.create_dir_all w directory) (created directory) directory
    added ← require_git host (source_path source) (
        codes "worktree"
        ∷ codes "add"
        ∷ codes "--detach"
        ∷ codes "--quiet"
        ∷ target
        ∷ request.revision.head_sha
        ∷ [])
    created_at ← ask (λ w. host.now w)
    let record_new : ManagedWorktree = record {
      review_id = request.review_id;
      repository = request.repository;
      worktree_path = target;
      source = source;
      revision = request.revision;
      created_at = created_at;
    }
    stored ← upsert host (registry_path pool) record_new
    pure record_new

  -- `prepare` behind the lock.
  unfoldable pub prepare_locked : PrepareManagedWorktreeRequest → M World ManagedWorktree
  unfolding worktree_path get_worktree reuse check_out
  prepare_locked request = do
    checked_id ← lift (validate_review_id request.review_id)
    checked_url ← lift (validate_clone_url request.clone_url)
    target ← lift (worktree_path pool request.review_id)
    existing ← get_worktree host (registry_path pool) request.review_id
    let fresh : M World ManagedWorktree = (do
      there ← ask (λ w. host.path_exists w target)
      if there then fail (worktree_path_already_exists target) else check_out request target)
    elim existing [ none ↦ fresh | some found ↦ reuse request found ]

  -- `RepositoryPool::prepare`.
  unfoldable pub prepare : PrepareManagedWorktreeRequest → M World ManagedWorktree
  unfolding prepare_locked
  prepare request = with_lock host (prepare_locked request)

  -- `RepositoryPool::is_dirty` of the path of a record. The command in its error leaves an option out.
  unfoldable pub is_dirty : Bytes → M World Bool
  unfolding run_git
  is_dirty path = do
    there ← ask_dir host path
    let examined : M World Bool = (do
      output ← run_git host path status_arguments
      let shown : GitCommand = record {
        working_directory = path;
        arguments = codes "status" ∷ codes "--porcelain=v1" ∷ codes "-z" ∷ [];
      }
      if not output.success
          then fail (git_failed (command_failed (display shown) (stderr_trimmed output)))
          else pure (not (same output.stdout [])))
    if there then examined else fail (missing_managed_worktree path)

  -- The worktree goes, unless it is dirty.
  unfoldable pub remove_clean : Bytes → Bytes → M World (Unit {0})
  unfolding is_dirty require_git
  remove_clean source path = do
    dirty ← is_dirty path
    let remove : M World (Unit {0}) = (do
      done ← require_git host source (remove_arguments path)
      pure tt)
    if dirty then fail (dirty_managed_worktree path) else remove

  unfoldable pub prune : Bytes → M World (Unit {0})
  unfolding require_git
  prune source = do
    there ← ask (λ w. host.path_exists w source)
    let run : M World (Unit {0}) = (do done ← require_git host source prune_arguments; pure tt)
    if there then run else pure tt

  -- `remove_empty_review_directory`.
  unfoldable pub remove_empty_review_directory : Bytes → M World (Unit {0})
  remove_empty_review_directory path = elim (parent path) [
    | none ↦ pure tt
    | some directory ↦ (do
      there ← ask (λ w. host.is_dir w directory)
      let look : M World (Unit {0}) = (do
        listed ← ask (λ w. host.is_empty_dir w directory)
        empty ← or_fail listed (file_failed directory)
        if empty
            then effect (λ w. host.remove_dir w directory) (removed directory) directory
            else pure tt)
      if there then look else pure tt)
  ]

  -- `delete` behind the lock.
  unfoldable pub delete_locked : Bytes → M World DeletedManagedWorktree
  unfolding get_worktree ensure_managed_path remove_clean prune remove_worktree
      remove_empty_review_directory
  delete_locked review_id = do
    checked ← lift (validate_review_id review_id)
    found ← get_worktree host (registry_path pool) review_id
    existing ← or_fail found (unknown_managed_worktree review_id)
    safe ← ensure_managed_path host pool existing.worktree_path
    there ← ask (λ w. host.path_exists w existing.worktree_path)
    cleared ←
        (if there
          then remove_clean (source_path existing.source) existing.worktree_path
          else pure tt)
    pruned ← prune (source_path existing.source)
    unregistered ← remove_worktree host (registry_path pool) review_id
    emptied ← remove_empty_review_directory existing.worktree_path
    pure (record { record_of = existing; mirror_retained = is_mirror existing.source })

  -- `RepositoryPool::delete`.
  unfoldable pub delete : Bytes → M World DeletedManagedWorktree
  unfolding delete_locked
  delete review_id = with_lock host (delete_locked review_id)
