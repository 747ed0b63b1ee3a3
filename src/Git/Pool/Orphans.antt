-- ===== src/Git/Pool/Orphans.antt =====
-- crates/git/src/pool.rs: registrations against git's own worktrees, their repair, and the removal of a mirror.
use localreview.Prelude.{Bool, true, false, ◌&&◌, ◌||◌, not, List, [], ◌∷◌, ◌++◌, if◌then◌else◌}
use localreview.Prelude.Text.{Bytes, codes, same}
use localreview.Git.Pool.Types.{
  RepositoryLocator, source_path, ManagedWorktree, UnregisteredManagedWorktree,
  WorktreeOrphanReport, WorktreeRepairReport, mirror_in_use, mirror_has_worktrees, file_failed,
}
use localreview.Git.Pool.Names.{RepositoryPool, join, mirror_path, registry_path}
use localreview.Git.Pool.Host.{
  Host, M, removed, ◌>>=◌, pure, fail, ask, or_fail, effect, ask_dir, run_git, require_git,
  with_lock,
}
use localreview.Git.Pool.Sets.{insert_path, insert_paths, has_path}
use localreview.Git.Pool.Registry.{bytes_le, list_worktrees, remove_worktree}
use localreview.Git.Pool.Sources.{
  ensure_mirror_path, is_managed_path, listed_worktrees, comparable_path,
}
use localreview.Git.Pool.Lifecycle.{status_arguments, remove_arguments, prune_arguments, prune}

-- `sort_by` of the worktrees' paths, which is stable.
abbrev insert_orphan :
    UnregisteredManagedWorktree
    → List UnregisteredManagedWorktree
    → List UnregisteredManagedWorktree
insert_orphan orphan [] = orphan ∷ []
insert_orphan orphan (o ∷ rest) =
    let later = insert_orphan orphan rest in
    if bytes_le orphan.worktree_path o.worktree_path then orphan ∷ o ∷ rest else o ∷ later

unfoldable pub sort_orphans : List UnregisteredManagedWorktree → List UnregisteredManagedWorktree
sort_orphans [] = []
sort_orphans (o ∷ rest) = insert_orphan o (sort_orphans rest)

abbrev source_paths_of : List ManagedWorktree → List Bytes
source_paths_of [] = []
source_paths_of (r ∷ rest) = source_path r.source ∷ source_paths_of rest

abbrev same_source : Bytes → List ManagedWorktree → Bool
same_source mirror records = has_path mirror (source_paths_of records)

-- `ends_with` of a text.
abbrev text_ends_with : Bytes → Bytes → Bool
text_ends_with text [] = same text []
text_ends_with text (c ∷ s) = same text (c ∷ s) || text_ends_with text s

-- The names that end in `.git`.
abbrev bare_repositories : List Bytes → List Bytes
bare_repositories [] = []
bare_repositories (p ∷ ps) =
    let rest = bare_repositories ps in if text_ends_with (codes ".git") p then p ∷ rest else rest

module _ {World : Type 0} (host : Host World) (pool : RepositoryPool) where
  abbrev pub each_directory : (Bytes → M World (List Bytes)) → List Bytes → M World (List Bytes)
  each_directory visit [] = pure []
  each_directory visit (d ∷ ds) = do
    here ← visit d
    rest ← each_directory visit ds
    pure (here ++ rest)

  -- `read_dir` of a directory, less what is not a directory.
  abbrev pub read_directories : Bytes → M World (List Bytes)
  read_directories d = do listed ← ask (λ w. host.directories w d); or_fail listed (file_failed d)

  abbrev pub mirrors_of_owner : Bytes → M World (List Bytes)
  mirrors_of_owner owner = do
    repositories ← read_directories owner
    pure (bare_repositories repositories)

  abbrev pub mirrors_of_host : Bytes → M World (List Bytes)
  mirrors_of_host directory = do
    owners ← read_directories directory
    each_directory mirrors_of_owner owners

  -- `managed_mirror_paths`. Its sorted paths are different from each other, so that a set of them is the same.
  unfoldable pub managed_mirror_paths : M World (List Bytes)
  unfolding insert_paths
  managed_mirror_paths = do
    let root = join pool.cache_root (codes "git-mirrors")
    there ← ask (λ w. host.path_exists w root)
    let look : M World (List Bytes) = (do
      hosts ← read_directories root
      mirrors ← each_directory mirrors_of_host hosts
      pure (insert_paths mirrors []))
    if there then look else pure []

  abbrev comparable_paths : World → List ManagedWorktree → List Bytes
  comparable_paths w [] = []
  comparable_paths w (r ∷ rest) =
      insert_path (comparable_path host w r.worktree_path) (comparable_paths w rest)

  -- The records whose worktree is no directory.
  unfoldable pub missing_records : List ManagedWorktree → M World (List ManagedWorktree)
  missing_records [] = pure []
  missing_records (r ∷ rest) = do
    there ← ask_dir host r.worktree_path
    later ← missing_records rest
    pure (if there then later else r ∷ later)

  unfoldable pub select_orphans :
      World → List Bytes → Bytes → List Bytes → List UnregisteredManagedWorktree
  unfolding is_managed_path
  select_orphans w registered source [] = []
  select_orphans w registered source (path ∷ paths) =
      let later = select_orphans w registered source paths in
      if is_managed_path host pool w path && not (has_path (comparable_path host w path) registered)
      then record { source_path_of = source; worktree_path = path } ∷ later
      else later

  -- The loop over the sources.
  unfoldable pub find_orphans : List Bytes → List Bytes → M World (List UnregisteredManagedWorktree)
  unfolding listed_worktrees select_orphans
  find_orphans registered [] = pure []
  find_orphans registered (source ∷ sources) = do
    there ← ask (λ w. host.path_exists w source)
    let later : M World (List UnregisteredManagedWorktree) = find_orphans registered sources
    let look : M World (List UnregisteredManagedWorktree) = (do
      paths ← listed_worktrees host source
      here ← ask (λ w. select_orphans w registered source paths)
      rest ← later
      pure (here ++ rest))
    if there then look else later

  -- `RepositoryPool::inspect_orphans`.
  unfoldable pub inspect_orphans : M World WorktreeOrphanReport
  unfolding list_worktrees managed_mirror_paths missing_records find_orphans
  inspect_orphans = do
    records ← list_worktrees host (registry_path pool)
    registered ← ask (λ w. comparable_paths w records)
    missing ← missing_records records
    mirrors ← managed_mirror_paths
    unregistered ←
        find_orphans registered (insert_paths mirrors (insert_paths (source_paths_of records) []))
    pure (record {
      missing_registrations = missing;
      unregistered_worktrees = sort_orphans unregistered;
    })

  -- The first loop of `repair_orphans`: the ids that are no longer registered.
  unfoldable pub repair_missing : List ManagedWorktree → M World (List Bytes)
  unfolding prune remove_worktree
  repair_missing [] = pure []
  repair_missing (r ∷ rest) = do
    pruned ← prune host pool (source_path r.source)
    unregistered ← remove_worktree host (registry_path pool) r.review_id
    later ← repair_missing rest
    pure (r.review_id ∷ later)

  -- Whether a worktree without a record is to stay. What git cannot examine is.
  unfoldable pub orphan_is_dirty : Bytes → M World Bool
  unfolding run_git
  orphan_is_dirty path = do
    there ← ask_dir host path
    let examined : M World Bool = (do
      status ← run_git host path status_arguments
      pure (not status.success || not (same status.stdout [])))
    if there then examined else pure false

  -- The second loop: the worktrees that are removed, and those that stay.
  unfoldable pub repair_unregistered :
      List UnregisteredManagedWorktree
      → M World (List UnregisteredManagedWorktree × List UnregisteredManagedWorktree)
  unfolding orphan_is_dirty require_git
  repair_unregistered [] = pure ([], [])
  repair_unregistered (orphan ∷ orphans) = do
    dirty ← orphan_is_dirty orphan.worktree_path
    let later : M World (List UnregisteredManagedWorktree × List UnregisteredManagedWorktree) =
        repair_unregistered orphans
    let stay : M World (List UnregisteredManagedWorktree × List UnregisteredManagedWorktree) = (do
      rest ← later
      pure (rest.0, orphan ∷ rest.1))
    let remove : M World (List UnregisteredManagedWorktree × List UnregisteredManagedWorktree) = (do
      gone ← require_git host orphan.source_path_of (remove_arguments orphan.worktree_path)
      pruned ← require_git host orphan.source_path_of prune_arguments
      rest ← later
      pure (orphan ∷ rest.0, rest.1))
    if dirty then stay else remove

  unfoldable pub repair_locked : M World WorktreeRepairReport
  unfolding inspect_orphans repair_missing repair_unregistered
  repair_locked = do
    report ← inspect_orphans
    repaired ← repair_missing report.missing_registrations
    both ← repair_unregistered report.unregistered_worktrees
    pure (record {
      repaired_missing_registrations = repaired;
      removed_unregistered = both.0;
      dirty_unregistered = both.1;
    })

  -- `RepositoryPool::repair_orphans`.
  unfoldable pub repair_orphans : M World WorktreeRepairReport
  unfolding repair_locked
  repair_orphans = with_lock host repair_locked

  abbrev linked_worktrees : World → Bytes → List Bytes → List Bytes
  linked_worktrees w mirror [] = []
  linked_worktrees w mirror (path ∷ paths) =
      let later = linked_worktrees w mirror paths in
      if has_path (comparable_path host w path) (comparable_path host w mirror ∷ [])
      then later
      else path ∷ later

  abbrev pub is_empty_list : List Bytes → Bool
  is_empty_list [] = true
  is_empty_list (p ∷ ps) = false

  -- The mirror goes, unless git lists worktrees of it.
  unfoldable pub remove_unlinked : Bytes → M World (Unit {0})
  unfolding listed_worktrees
  remove_unlinked mirror = do
    listed ← listed_worktrees host mirror
    linked ← ask (λ w. linked_worktrees w mirror listed)
    if is_empty_list linked
        then effect (λ w. host.remove_dir_all w mirror) (removed mirror) mirror
        else fail (mirror_has_worktrees mirror linked)

  unfoldable pub remove_mirror_locked : RepositoryLocator → M World (Unit {0})
  unfolding ensure_mirror_path list_worktrees remove_unlinked
  remove_mirror_locked repository = do
    let mirror = mirror_path pool repository
    safe ← ensure_mirror_path host pool mirror
    records ← list_worktrees host (registry_path pool)
    there ← ask (λ w. host.path_exists w mirror)
    if same_source mirror records
        then fail (mirror_in_use mirror)
        else if there
        then remove_unlinked mirror
        else pure tt

  -- `RepositoryPool::remove_unused_mirror`.
  unfoldable pub remove_unused_mirror : RepositoryLocator → M World (Unit {0})
  unfolding remove_mirror_locked
  remove_unused_mirror repository = with_lock host (remove_mirror_locked repository)
