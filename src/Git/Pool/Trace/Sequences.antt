-- ===== src/Git/Pool/Trace/Sequences.antt =====
-- crates/git/src/pool.rs: the pool's operations one after another, each in the world that the ones before it left.
use localreview.Prelude.{◌≡◌, true, List, [], ◌∷◌}
use localreview.Prelude.Text.{Bytes}
use localreview.Git.Pool.Types.{RepositoryLocator, PrepareManagedWorktreeRequest}
use localreview.Git.Pool.Names.{RepositoryPool, registry_path, mirror_path}
use localreview.Git.Pool.Host.{Host, Session}
use localreview.Git.Pool.Lifecycle.{prepare, delete}
use localreview.Git.Pool.Orphans.{
  is_empty_list, repair_orphans, remove_unlinked, remove_mirror_locked, remove_unused_mirror,
}
use localreview.Git.Pool.Trace.{licensed, Keeps, bind-Keeps, if-Keeps, with_lock-Keeps}
use localreview.Git.Pool.Trace.Sources.{listed_worktrees-Keeps, ensure_mirror_path-Keeps}
use localreview.Git.Pool.Trace.Records.{list_worktrees-Keeps}
use localreview.Git.Pool.Trace.Removals.{delete-Keeps, prepare-Keeps}
use localreview.Git.Pool.Trace.Repairs.{repair_orphans-Keeps}

-- A call of the pool.
pub data PoolOperation : Type 0 where
  preparing : (request : PrepareManagedWorktreeRequest) → PoolOperation
  deleting : (review_id : Bytes) → PoolOperation
  repairing : PoolOperation
  removing_mirror : (repository : RepositoryLocator) → PoolOperation

module _ {World : Type 0} (host : Host World) (pool : RepositoryPool) where
  abbrev pub run_operation : PoolOperation → Session World → Session World
  run_operation (preparing request) s = (prepare host pool request s).1
  run_operation (deleting review_id) s = (delete host pool review_id s).1
  run_operation repairing s = (repair_orphans host pool s).1
  run_operation (removing_mirror repository) s = (remove_unused_mirror host pool repository s).1

  abbrev pub run_operations : List PoolOperation → Session World → Session World
  run_operations [] s = s
  run_operations (operation ∷ later) s = run_operations later (run_operation operation s)

  remove_unlinked-Keeps : (mirror : Bytes) → Keeps (remove_unlinked host pool mirror)
  unfolding remove_unlinked licensed
  remove_unlinked-Keeps mirror = bind-Keeps _ _ (listed_worktrees-Keeps host mirror) (λ listed.
      bind-Keeps _ _ (λ s h. h)
        (λ linked. if-Keeps (is_empty_list host pool linked) _ _ (λ s h. h) (λ s h. h)))

  remove_mirror_locked-Keeps :
      (repository : RepositoryLocator) → Keeps (remove_mirror_locked host pool repository)
  unfolding remove_mirror_locked
  remove_mirror_locked-Keeps repository =
      bind-Keeps _ _ (ensure_mirror_path-Keeps host pool (mirror_path pool repository)) (λ safe.
        bind-Keeps _ _ (list_worktrees-Keeps host (registry_path pool)) (λ records.
          bind-Keeps _ _ (λ s h. h)
            (λ there.
              if-Keeps _ _ _ (λ s h. h)
                (if-Keeps there _ _ (remove_unlinked-Keeps (mirror_path pool repository))
                  (λ s h. h)))))

  remove_unused_mirror-Keeps :
      (repository : RepositoryLocator) → Keeps (remove_unused_mirror host pool repository)
  unfolding remove_unused_mirror
  remove_unused_mirror-Keeps repository =
      with_lock-Keeps host (remove_mirror_locked host pool repository)
        (remove_mirror_locked-Keeps repository)

  run_operation-Keeps :
      (operation : PoolOperation) (s : Session World)
      → licensed s.events ≡ true
      → licensed ((run_operation operation s).events) ≡ true
  run_operation-Keeps (preparing request) s h = prepare-Keeps host pool request s h
  run_operation-Keeps (deleting review_id) s h = delete-Keeps host pool review_id s h
  run_operation-Keeps repairing s h = repair_orphans-Keeps host pool s h
  run_operation-Keeps (removing_mirror repository) s h = remove_unused_mirror-Keeps repository s h

  -- Whatever the file system and git do, and whichever operations run one after another, each
  -- `git worktree remove` stands directly behind a clean status of that path or behind a look that finds
  -- no directory there, once all earlier removals do.
  pub run_operations-IsLicensed :
      (operations : List PoolOperation) (s : Session World)
      → licensed s.events ≡ true
      → licensed ((run_operations operations s).events) ≡ true
  run_operations-IsLicensed [] s h = h
  run_operations-IsLicensed (operation ∷ later) s h =
      run_operations-IsLicensed later (run_operation operation s)
        (run_operation-Keeps operation s h)
