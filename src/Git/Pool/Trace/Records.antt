-- ===== src/Git/Pool/Trace/Records.antt =====
-- crates/git/src/pool.rs: the effects of the registry's operations.
use localreview.Prelude.Text.{Bytes}
use localreview.Git.Pool.Types.{ManagedWorktree, RegistryFile}
use localreview.Git.Pool.Host.{Host}
use localreview.Git.Pool.Registry.{
  read_registry, write_registry, list_worktrees, get_worktree, upsert, remove_worktree, find_record,
}
use localreview.Git.Pool.Trace.{licensed, Keeps, or_fail-Keeps, bind-Keeps, if-Keeps, option-Keeps}

module _ {World : Type 0} (host : Host World) where
  read_registry-Keeps : (path : Bytes) → Keeps (read_registry host path)
  unfolding read_registry
  read_registry-Keeps path =
      bind-Keeps _ _ (λ s h. h)
        (λ there.
          if-Keeps there _ _
            (bind-Keeps _ _ (λ s h. h)
              (λ found. bind-Keeps _ _ (or_fail-Keeps _ _) (λ contents.
                bind-Keeps _ _ (or_fail-Keeps _ _) (λ file. if-Keeps _ _ _ (λ s h. h) (λ s h. h)))))
            (λ s h. h))

  write_registry-Keeps :
      (path : Bytes) (file : RegistryFile) → Keeps (write_registry host path file)
  unfolding write_registry licensed
  write_registry-Keeps path file = bind-Keeps _ _ (or_fail-Keeps _ _) (λ directory.
      bind-Keeps _ _ (λ s h. h)
        (λ made.
          bind-Keeps _ _ (or_fail-Keeps _ _)
            (λ bytes. bind-Keeps _ _ (λ s h. h) (λ written. λ s h. h))))

  pub list_worktrees-Keeps : (path : Bytes) → Keeps (list_worktrees host path)
  unfolding list_worktrees
  list_worktrees-Keeps path = bind-Keeps _ _ (read_registry-Keeps path) (λ file s h. h)

  pub get_worktree-Keeps : (path id : Bytes) → Keeps (get_worktree host path id)
  unfolding get_worktree
  get_worktree-Keeps path id = bind-Keeps _ _ (read_registry-Keeps path) (λ file s h. h)

  pub upsert-Keeps : (path : Bytes) (r : ManagedWorktree) → Keeps (upsert host path r)
  unfolding upsert
  upsert-Keeps path r =
      bind-Keeps _ _ (read_registry-Keeps path) (λ file. write_registry-Keeps path _)

  pub remove_worktree-Keeps : (path id : Bytes) → Keeps (remove_worktree host path id)
  unfolding remove_worktree
  remove_worktree-Keeps path id = bind-Keeps _ _ (read_registry-Keeps path) (λ file.
      option-Keeps (find_record id file.worktrees) _ _ (λ s h. h)
        (λ r. bind-Keeps _ _ (write_registry-Keeps path _) (λ written s h. h)))
