-- ===== src/Git/Pool/Trace/Removals.antt =====
-- crates/git/src/pool.rs: `delete` and `prepare` before their removals.
use localreview.Prelude.{refl}
use localreview.Prelude.Text.{Bytes}
use localreview.Git.Pool.Types.{source_path, ManagedWorktree, PrepareManagedWorktreeRequest}
use localreview.Git.Pool.Names.{RepositoryPool, parent, registry_path}
use localreview.Git.Pool.Host.{Host}
use localreview.Git.Pool.Lifecycle.{
  reuse, check_out, prepare_locked, prepare, is_dirty, remove_clean, prune,
  remove_empty_review_directory, delete_locked, delete,
}
use localreview.Git.Pool.Trace.{
  licensed, Keeps, or_fail-Keeps, bind-Keeps, if-Keeps, option-Keeps, ask_dir-Keeps,
  require_git-Keeps, with_lock-Keeps,
}
use localreview.Git.Pool.Trace.Sources.{
  select_from-Keeps, ensure_pinned_objects-Keeps, ensure_managed_path-Keeps,
}
use localreview.Git.Pool.Trace.Records.{get_worktree-Keeps, upsert-Keeps, remove_worktree-Keeps}
use localreview.Git.Pool.Trace.Clean.{is_dirty-clean, is_dirty-Keeps, test-Keeps, removal_first}

module _ {World : Type 0} (host : Host World) where
  pub prune-Keeps : (pool : RepositoryPool) (source : Bytes) → Keeps (prune host pool source)
  unfolding prune
  prune-Keeps pool source =
      bind-Keeps _ _ (λ s h. h)
        (λ there.
          if-Keeps there _ _
            (bind-Keeps _ _ (require_git-Keeps host source _ refl) (λ output s h. h)) (λ s h. h))

  remove_empty-Keeps :
      (pool : RepositoryPool) (path : Bytes) → Keeps (remove_empty_review_directory host pool path)
  unfolding remove_empty_review_directory licensed
  remove_empty-Keeps pool path =
      option-Keeps (parent path) _ _ (λ s h. h)
        (λ directory.
          bind-Keeps _ _ (λ s h. h)
            (λ there.
              if-Keeps there _ _
                (bind-Keeps _ _ (λ s h. h)
                  (λ listed.
                    bind-Keeps _ _ (or_fail-Keeps _ _)
                      (λ empty. if-Keeps empty _ _ (λ s h. h) (λ s h. h))))
                (λ s h. h)))

  remove_clean-Keeps :
      (pool : RepositoryPool) (source path : Bytes) → Keeps (remove_clean host pool source path)
  unfolding remove_clean
  remove_clean-Keeps pool source path =
      test-Keeps host (is_dirty host pool path) _ _ path (is_dirty-clean host pool path)
        (is_dirty-Keeps host pool path) (λ s h. h)
        (removal_first host source path _ (λ done s h. h))

  delete_locked-Keeps :
      (pool : RepositoryPool) (review_id : Bytes) → Keeps (delete_locked host pool review_id)
  unfolding delete_locked
  delete_locked-Keeps pool review_id =
      bind-Keeps _ _ (λ s h. h)
        (λ checked.
          bind-Keeps _ _ (get_worktree-Keeps host (registry_path pool) review_id) (λ found.
            bind-Keeps _ _ (or_fail-Keeps _ _) (λ existing.
              bind-Keeps _ _ (ensure_managed_path-Keeps host pool existing.worktree_path) (λ safe.
                bind-Keeps _ _ (λ s h. h)
                  (λ there.
                    bind-Keeps _ _
                      (if-Keeps there _ _
                        (remove_clean-Keeps pool (source_path existing.source)
                          existing.worktree_path)
                        (λ s h. h))
                      (λ cleared.
                        bind-Keeps _ _ (prune-Keeps pool (source_path existing.source)) (λ pruned.
                          bind-Keeps _ _ (remove_worktree-Keeps host (registry_path pool) review_id)
                            (λ unregistered.
                              bind-Keeps _ _ (remove_empty-Keeps pool existing.worktree_path)
                                (λ emptied s h. h)))))))))

  pub delete-Keeps :
      (pool : RepositoryPool) (review_id : Bytes) → Keeps (delete host pool review_id)
  unfolding delete
  delete-Keeps pool review_id =
      with_lock-Keeps host (delete_locked host pool review_id) (delete_locked-Keeps pool review_id)

  reuse-Keeps :
      (pool : RepositoryPool) (request : PrepareManagedWorktreeRequest) (existing : ManagedWorktree)
      → Keeps (reuse host pool request existing)
  unfolding reuse
  reuse-Keeps pool request existing =
      if-Keeps _ _ _
        (bind-Keeps _ _ (ask_dir-Keeps host existing.worktree_path)
          (λ there. if-Keeps there _ _ (λ s h. h) (λ s h. h)))
        (λ s h. h)

  check_out-Keeps :
      (pool : RepositoryPool) (request : PrepareManagedWorktreeRequest) (target : Bytes)
      → Keeps (check_out host pool request target)
  unfolding check_out licensed
  check_out-Keeps pool request target =
      bind-Keeps _ _ (select_from-Keeps host pool request request.known_clones) (λ source.
        bind-Keeps _ _ (ensure_pinned_objects-Keeps host source request.clone_url request.revision)
          (λ complete. bind-Keeps _ _ (or_fail-Keeps _ _) (λ directory.
            bind-Keeps _ _ (λ s h. h)
              (λ made. bind-Keeps _ _ (require_git-Keeps host (source_path source) _ refl) (λ added.
                bind-Keeps _ _ (λ s h. h)
                  (λ created_at.
                    bind-Keeps _ _ (upsert-Keeps host (registry_path pool) _)
                      (λ stored s h. h)))))))

  prepare_locked-Keeps :
      (pool : RepositoryPool) (request : PrepareManagedWorktreeRequest)
      → Keeps (prepare_locked host pool request)
  unfolding prepare_locked
  prepare_locked-Keeps pool request =
      bind-Keeps _ _ (λ s h. h)
        (λ checked_id.
          bind-Keeps _ _ (λ s h. h)
            (λ checked_url.
              bind-Keeps _ _ (λ s h. h)
                (λ target.
                  bind-Keeps _ _ (get_worktree-Keeps host (registry_path pool) request.review_id)
                    (λ existing.
                      option-Keeps existing _ _
                        (bind-Keeps _ _ (λ s h. h)
                          (λ there.
                            if-Keeps there _ _ (λ s h. h) (check_out-Keeps pool request target)))
                        (λ found. reuse-Keeps pool request found)))))

  pub prepare-Keeps :
      (pool : RepositoryPool) (request : PrepareManagedWorktreeRequest)
      → Keeps (prepare host pool request)
  unfolding prepare
  prepare-Keeps pool request =
      with_lock-Keeps host (prepare_locked host pool request) (prepare_locked-Keeps pool request)
