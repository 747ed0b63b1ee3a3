-- ===== src/Git/Pool/Trace/Repairs.antt =====
-- crates/git/src/pool.rs: `repair_orphans` before its removals.
use localreview.Prelude.{refl, List, [], ◌∷◌}
use localreview.Prelude.Text.{Bytes}
use localreview.Git.Pool.Types.{source_path, ManagedWorktree, UnregisteredManagedWorktree}
use localreview.Git.Pool.Names.{RepositoryPool, registry_path}
use localreview.Git.Pool.Host.{Host, M}
use localreview.Git.Pool.Orphans.{
  each_directory, managed_mirror_paths, missing_records, find_orphans, inspect_orphans,
  repair_missing, orphan_is_dirty, repair_unregistered, repair_locked, repair_orphans,
  mirrors_of_owner, mirrors_of_host, read_directories,
}
use localreview.Git.Pool.Trace.{
  Keeps, or_fail-Keeps, bind-Keeps, if-Keeps, ask_dir-Keeps, require_git-Keeps, with_lock-Keeps,
}
use localreview.Git.Pool.Trace.Sources.{listed_worktrees-Keeps}
use localreview.Git.Pool.Trace.Records.{list_worktrees-Keeps, remove_worktree-Keeps}
use localreview.Git.Pool.Trace.Clean.{
  orphan_is_dirty-clean, orphan_is_dirty-Keeps, test-Keeps, removal_first,
}
use localreview.Git.Pool.Trace.Removals.{prune-Keeps}

module _ {World : Type 0} (host : Host World) where
  each_directory-Keeps :
      (pool : RepositoryPool) (visit : Bytes → M World (List Bytes))
      → ((d : Bytes) → Keeps (visit d))
      → (ds : List Bytes) → Keeps (each_directory host pool visit ds)
  each_directory-Keeps pool visit keeps [] = λ s h. h
  each_directory-Keeps pool visit keeps (d ∷ ds) =
      bind-Keeps _ _ (keeps d)
        (λ here. bind-Keeps _ _ (each_directory-Keeps pool visit keeps ds) (λ rest s h. h))

  read_directories-Keeps :
      (pool : RepositoryPool) (d : Bytes) → Keeps (read_directories host pool d)
  read_directories-Keeps pool d = bind-Keeps _ _ (λ s h. h) (λ listed. or_fail-Keeps _ _)

  mirrors_of_owner-Keeps :
      (pool : RepositoryPool) (d : Bytes) → Keeps (mirrors_of_owner host pool d)
  mirrors_of_owner-Keeps pool d = bind-Keeps _ _ (read_directories-Keeps pool d) (λ found s h. h)

  mirrors_of_host-Keeps : (pool : RepositoryPool) (d : Bytes) → Keeps (mirrors_of_host host pool d)
  mirrors_of_host-Keeps pool d =
      bind-Keeps _ _ (read_directories-Keeps pool d)
        (each_directory-Keeps pool (mirrors_of_owner host pool) (mirrors_of_owner-Keeps pool))

  managed_mirror_paths-Keeps : (pool : RepositoryPool) → Keeps (managed_mirror_paths host pool)
  unfolding managed_mirror_paths
  managed_mirror_paths-Keeps pool =
      bind-Keeps _ _ (λ s h. h)
        (λ there.
          if-Keeps there _ _
            (bind-Keeps _ _ (read_directories-Keeps pool _) (λ hosts.
              bind-Keeps _ _
                (each_directory-Keeps pool (mirrors_of_host host pool) (mirrors_of_host-Keeps pool)
                  hosts)
                (λ mirrors s h. h)))
            (λ s h. h))

  missing_records-Keeps :
      (pool : RepositoryPool) (records : List ManagedWorktree)
      → Keeps (missing_records host pool records)
  unfolding missing_records
  missing_records-Keeps pool [] = λ s h. h
  missing_records-Keeps pool (r ∷ rest) =
      bind-Keeps _ _ (ask_dir-Keeps host r.worktree_path)
        (λ there. bind-Keeps _ _ (missing_records-Keeps pool rest) (λ later s h. h))

  find_orphans-Keeps :
      (pool : RepositoryPool) (registered sources : List Bytes)
      → Keeps (find_orphans host pool registered sources)
  unfolding find_orphans
  find_orphans-Keeps pool registered [] = λ s h. h
  find_orphans-Keeps pool registered (source ∷ sources) =
      bind-Keeps _ _ (λ s h. h)
        (λ there.
          if-Keeps there _ _
            (bind-Keeps _ _ (listed_worktrees-Keeps host source) (λ paths.
              bind-Keeps _ _ (λ s h. h)
                (λ here.
                  bind-Keeps _ _ (find_orphans-Keeps pool registered sources) (λ rest s h. h))))
            (find_orphans-Keeps pool registered sources))

  inspect_orphans-Keeps : (pool : RepositoryPool) → Keeps (inspect_orphans host pool)
  unfolding inspect_orphans
  inspect_orphans-Keeps pool =
      bind-Keeps _ _ (list_worktrees-Keeps host (registry_path pool)) (λ records.
        bind-Keeps _ _ (λ s h. h)
          (λ registered. bind-Keeps _ _ (missing_records-Keeps pool records) (λ missing.
            bind-Keeps _ _ (managed_mirror_paths-Keeps pool) (λ mirrors.
              bind-Keeps _ _ (find_orphans-Keeps pool registered _) (λ unregistered s h. h)))))

  repair_missing-Keeps :
      (pool : RepositoryPool) (records : List ManagedWorktree)
      → Keeps (repair_missing host pool records)
  unfolding repair_missing
  repair_missing-Keeps pool [] = λ s h. h
  repair_missing-Keeps pool (r ∷ rest) =
      bind-Keeps _ _ (prune-Keeps host pool (source_path r.source)) (λ pruned.
        bind-Keeps _ _ (remove_worktree-Keeps host (registry_path pool) r.review_id)
          (λ unregistered. bind-Keeps _ _ (repair_missing-Keeps pool rest) (λ later s h. h)))

  repair_unregistered-Keeps :
      (pool : RepositoryPool) (orphans : List UnregisteredManagedWorktree)
      → Keeps (repair_unregistered host pool orphans)
  unfolding repair_unregistered
  repair_unregistered-Keeps pool [] = λ s h. h
  repair_unregistered-Keeps pool (orphan ∷ orphans) =
      test-Keeps host (orphan_is_dirty host pool orphan.worktree_path) _ _ orphan.worktree_path
        (orphan_is_dirty-clean host pool orphan.worktree_path)
        (orphan_is_dirty-Keeps host pool orphan.worktree_path)
        (bind-Keeps _ _ (repair_unregistered-Keeps pool orphans) (λ rest s h. h))
        (removal_first host orphan.source_path_of orphan.worktree_path _ (λ gone.
          bind-Keeps _ _ (require_git-Keeps host orphan.source_path_of _ refl)
            (λ pruned. bind-Keeps _ _ (repair_unregistered-Keeps pool orphans) (λ rest s h. h))))

  repair_locked-Keeps : (pool : RepositoryPool) → Keeps (repair_locked host pool)
  unfolding repair_locked
  repair_locked-Keeps pool = bind-Keeps _ _ (inspect_orphans-Keeps pool) (λ report.
      bind-Keeps _ _ (repair_missing-Keeps pool report.missing_registrations) (λ repaired.
        bind-Keeps _ _ (repair_unregistered-Keeps pool report.unregistered_worktrees)
          (λ both s h. h)))

  pub repair_orphans-Keeps : (pool : RepositoryPool) → Keeps (repair_orphans host pool)
  unfolding repair_orphans
  repair_orphans-Keeps pool =
      with_lock-Keeps host (repair_locked host pool) (repair_locked-Keeps pool)
