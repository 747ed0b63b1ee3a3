-- ===== src/Git/Pool/Outcomes/Dirty.antt =====
-- crates/git/src/pool.rs, `delete`: a worktree with changes.
use localreview.Prelude.{◌≡◌, true, false, [], ◌∷◌, some}
use localreview.Prelude.Text.{Bytes, same}
use localreview.Prelude.Result.{ok, err}
use localreview.Git.Command.{GitOutput}
use localreview.Git.Pool.Types.{ManagedWorktree, dirty_managed_worktree}
use localreview.Git.Pool.Names.{RepositoryPool, registry_path, safe_component, validate_review_id}
use localreview.Git.Pool.Host.{Host, Session, asked_dir, ran, ◌>>=◌, run_git}
use localreview.Git.Pool.Registry.Refined.{Holds, Worktrees, get_worktree-Holds}
use localreview.Git.Pool.Sources.{is_managed_path, ensure_managed_path}
use localreview.Git.Pool.Lifecycle.{delete, delete_locked, remove_clean, is_dirty, status_arguments}

module _ {World : Type 0} (host : Host World) (pool : RepositoryPool) where
  -- Under a lock that is taken, a registered worktree beneath the reviews root whose directory is there
  -- and whose status is not empty is not deleted: that status is the only command, and only the lock and
  -- the status change the world.
  pub delete-dirty :
      (s : Session World) (map : Worktrees) (review_id : Bytes) (existing : ManagedWorktree)
      (output : GitOutput)
      → safe_component review_id ≡ true
      → (host.lock s.world).0 ≡ ok tt
      → Holds host (registry_path pool) (host.lock s.world).1 map
      → map review_id ≡ some existing
      → is_managed_path host pool (host.lock s.world).1 existing.worktree_path ≡ true
      → host.path_exists (host.lock s.world).1 existing.worktree_path ≡ true
      → host.is_dir (host.lock s.world).1 existing.worktree_path ≡ true
      → (host.execute
          (host.lock s.world).1
          (record { working_directory = existing.worktree_path; arguments = status_arguments })).0
        ≡ ok output
      → output.success ≡ true
      → same output.stdout [] ≡ false
      → delete host pool review_id s ≡ (
        err (dirty_managed_worktree existing.worktree_path),
        record {
          world =
              host.unlock
                (host.execute (host.lock s.world).1 (record {
                  working_directory = existing.worktree_path;
                  arguments = status_arguments;
                })).1;
          events =
              ran
                (record {
                  working_directory = existing.worktree_path;
                  arguments = status_arguments;
                })
                (ok output)
              ∷ asked_dir existing.worktree_path true
              ∷ s.events;
        },
      )
  unfolding delete delete_locked remove_clean is_dirty ensure_managed_path validate_review_id
      run_git ◌>>=◌
  delete-dirty s map review_id existing output safe taken holds found managed there directory done
        success printed =
      rw (
        taken,
        safe,
        get_worktree-Holds host (registry_path pool)
            (record { world = (host.lock s.world).1; events = s.events }) map review_id holds,
        found,
        managed,
        there,
        directory,
        done,
        success,
        printed,
      )
