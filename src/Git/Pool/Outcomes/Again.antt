-- ===== src/Git/Pool/Outcomes/Again.antt =====
-- crates/git/src/pool.rs, `prepare`: a review that is prepared again.
use localreview.Prelude.{◌≡◌, Bool, ◌&&◌, some, if◌then◌else◌, Bool-cases, inl, inr}
use localreview.Prelude.Result.{ok, err}
use localreview.Git.Pool.Types.{
  ManagedWorktree, PrepareManagedWorktreeRequest, review_id_already_managed,
}
use localreview.Git.Pool.Names.{
  RepositoryPool, registry_path, validate_review_id, validate_clone_url, worktree_path,
}
use localreview.Git.Pool.Host.{Host, Session, ◌>>=◌}
use localreview.Git.Pool.Registry.Refined.{Holds, Worktrees, get_worktree-Holds}
use localreview.Git.Pool.Lifecycle.{prepare, prepare_locked, reuse, same_locator, same_revision}

module _ {World : Type 0} (host : Host World) (pool : RepositoryPool) where
  -- The pins of a request against those of the record that is there.
  abbrev pub same_pins : PrepareManagedWorktreeRequest → ManagedWorktree → Bool
  same_pins request existing =
      same_locator existing.repository request.repository
      && same_revision existing.revision request.revision

  -- Under a lock that is taken, with an acceptable id and URL, a review that is registered gives its record
  -- where repository and pins are the same and the directory is there, and an error otherwise.
  pub prepare-again :
      (s : Session World) (map : Worktrees) (request : PrepareManagedWorktreeRequest)
      (existing : ManagedWorktree)
      → validate_review_id request.review_id ≡ ok tt
      → validate_clone_url request.clone_url ≡ ok tt
      → (host.lock s.world).0 ≡ ok tt
      → Holds host (registry_path pool) (host.lock s.world).1 map
      → map request.review_id ≡ some existing
      → (prepare host pool request s).0 ≡ (
          if same_pins request existing && host.is_dir (host.lock s.world).1 existing.worktree_path
          then ok existing
          else err (review_id_already_managed request.review_id))
  unfolding prepare prepare_locked reuse worktree_path ◌>>=◌
  prepare-again s map request existing valid url taken holds found =
      rw
        (
          taken,
          valid,
          url,
          get_worktree-Holds host (registry_path pool)
              (record { world = (host.lock s.world).1; events = s.events }) map request.review_id
              holds,
          found,
        )
        (elim (Bool-cases (same_pins request existing)) [
          | inr other ↦ rw other
          | inl pinned ↦
              rw pinned
                (elim (Bool-cases (host.is_dir (host.lock s.world).1 existing.worktree_path)) [
                  | inl there ↦ rw there
                  | inr gone ↦ rw gone
                ])
        ])
