-- ===== src/Git/Pool/Trace/Sources.antt =====
-- crates/git/src/pool.rs: the effects of the choice of a source.
use localreview.Prelude.{◌≡◌, refl, Bool, true, false, List, [], ◌∷◌, none, if◌then◌else◌, not}
use localreview.Prelude.Text.{Bytes, codes, same}
use localreview.Domain.References.{GitSha, git_sha}
use localreview.Git.Command.{stdout_trimmed}
use localreview.Git.Pool.Types.{
  RepositoryLocator, PinnedGitRevision, RepositoryObjectSource, source_path,
  PrepareManagedWorktreeRequest,
}
use localreview.Git.Pool.Names.{RepositoryPool, mirror_path}
use localreview.Git.Pool.Host.{Host}
use localreview.Git.Pool.Sources.{
  has_commit, has_commits, inspect_head, inspect, try_inspect, clone_is_usable,
  known_clone_is_usable, ensure_mirror_path, check_mirror, create_mirror, ensure_mirror,
  select_from, refspec, fetch_arguments, fetch_pinned, ensure_pinned_objects, ensure_managed_path,
  listed_worktrees,
}
use localreview.Git.Pool.Trace.{
  removal_target, licensed, Keeps, or_fail-Keeps, bind-Keeps, if-Keeps, option-Keeps, result-Keeps,
  ask_dir-Keeps, run_git-Keeps, require_git-Keeps,
}

module _ {World : Type 0} (host : Host World) where
  pub has_commit-Keeps : (path : Bytes) (sha : GitSha) → Keeps (has_commit host path sha)
  unfolding has_commit
  has_commit-Keeps path sha = bind-Keeps _ _ (run_git-Keeps host path _ refl) (λ output s h. h)

  has_commits-Keeps : (path : Bytes) (r : PinnedGitRevision) → Keeps (has_commits host path r)
  has_commits-Keeps path r =
      bind-Keeps _ _ (has_commit-Keeps path r.base_sha)
        (λ base. if-Keeps base _ _ (has_commit-Keeps path r.head_sha) (λ s h. h))

  inspect_head-Keeps : (root : Bytes) → Keeps (inspect_head host root)
  unfolding inspect_head
  inspect_head-Keeps root = bind-Keeps _ _ (run_git-Keeps host root _ refl) (λ branch.
      if-Keeps branch.success _ _ (λ s h. h)
        (bind-Keeps _ _ (run_git-Keeps host root _ refl) (λ head.
          if-Keeps (not head.success) _ _ (λ s h. h)
            (result-Keeps (git_sha (stdout_trimmed head)) _ _ (λ sha s h. h) (λ e s h. h)))))

  inspect-Keeps : (root : Bytes) → Keeps (inspect host root)
  unfolding inspect
  inspect-Keeps root = bind-Keeps _ _ (run_git-Keeps host root _ refl) (λ inside.
      bind-Keeps _ _ (if-Keeps _ _ _ (λ s h. h) (λ s h. h)) (λ checked.
        bind-Keeps _ _ (require_git-Keeps host root _ refl) (λ worktree.
          bind-Keeps _ _ (require_git-Keeps host root _ refl) (λ common.
            bind-Keeps _ _ (inspect_head-Keeps root)
              (λ head. bind-Keeps _ _ (run_git-Keeps host root _ refl) (λ origin s h. h))))))

  try_inspect-Keeps : (root : Bytes) → Keeps (try_inspect host root)
  try_inspect-Keeps root = inspect-Keeps root

  clone_is_usable-Keeps :
      (candidate : Bytes) (r : PinnedGitRevision) → Keeps (clone_is_usable host candidate r)
  unfolding clone_is_usable
  clone_is_usable-Keeps candidate r = bind-Keeps _ _ (run_git-Keeps host candidate _ refl) (λ bare.
      if-Keeps _ _ _ (λ s h. h)
        (bind-Keeps _ _ (run_git-Keeps host candidate _ refl) (λ git_dir.
          bind-Keeps _ _ (run_git-Keeps host candidate _ refl)
            (λ common_dir. if-Keeps _ _ _ (λ s h. h) (has_commits-Keeps candidate r)))))

  known_clone_is_usable-Keeps :
      (candidate clone_url : Bytes) (r : PinnedGitRevision)
      → Keeps (known_clone_is_usable host candidate clone_url r)
  unfolding known_clone_is_usable
  known_clone_is_usable-Keeps candidate clone_url r =
      bind-Keeps _ _ (ask_dir-Keeps host candidate) (λ there.
        if-Keeps there _ _
          (bind-Keeps _ _ (try_inspect-Keeps candidate) (λ identity.
            option-Keeps identity _ _ (λ s h. h)
              (λ found.
                option-Keeps found.primary_remote _ _ (λ s h. h)
                  (λ remote. if-Keeps _ _ _ (λ s h. h) (clone_is_usable-Keeps candidate r)))))
          (λ s h. h))

  check_mirror-Keeps : (mirror clone_url : Bytes) → Keeps (check_mirror host mirror clone_url)
  unfolding check_mirror
  check_mirror-Keeps mirror clone_url = bind-Keeps _ _ (run_git-Keeps host mirror _ refl) (λ bare.
      bind-Keeps _ _ (if-Keeps _ _ _ (λ s h. h) (λ s h. h)) (λ checked.
        bind-Keeps _ _ (require_git-Keeps host mirror _ refl)
          (λ remote. if-Keeps _ _ _ (λ s h. h) (λ s h. h))))

  create_mirror-Keeps : (mirror clone_url : Bytes) → Keeps (create_mirror host mirror clone_url)
  unfolding create_mirror licensed
  create_mirror-Keeps mirror clone_url = bind-Keeps _ _ (or_fail-Keeps _ _) (λ directory.
      bind-Keeps _ _ (λ s h. h)
        (λ made.
          bind-Keeps _ _ (require_git-Keeps host directory _ refl) (λ initialised.
            bind-Keeps _ _ (require_git-Keeps host mirror _ refl) (λ added s h. h))))

  pub ensure_mirror_path-Keeps :
      (pool : RepositoryPool) (path : Bytes) → Keeps (ensure_mirror_path host pool path)
  unfolding ensure_mirror_path
  ensure_mirror_path-Keeps pool path = if-Keeps _ _ _ (λ s h. h) (λ s h. h)

  ensure_mirror-Keeps :
      (pool : RepositoryPool) (l : RepositoryLocator) (clone_url : Bytes)
      → Keeps (ensure_mirror host pool l clone_url)
  unfolding ensure_mirror
  ensure_mirror-Keeps pool l clone_url =
      bind-Keeps _ _ (ensure_mirror_path-Keeps pool (mirror_path pool l)) (λ safe.
        bind-Keeps _ _ (λ s h. h)
          (λ there.
            if-Keeps there _ _ (check_mirror-Keeps (mirror_path pool l) clone_url)
              (create_mirror-Keeps (mirror_path pool l) clone_url)))

  pub select_from-Keeps :
      (pool : RepositoryPool) (request : PrepareManagedWorktreeRequest) (candidates : List Bytes)
      → Keeps (select_from host pool request candidates)
  unfolding select_from
  select_from-Keeps pool request [] =
      bind-Keeps _ _ (ensure_mirror-Keeps pool request.repository request.clone_url)
        (λ mirror s h. h)
  select_from-Keeps pool request (candidate ∷ candidates) =
      bind-Keeps _ _ (known_clone_is_usable-Keeps candidate request.clone_url request.revision)
        (λ usable. if-Keeps usable _ _ (λ s h. h) (select_from-Keeps pool request candidates))

  one_refspec_harmless :
      (one : Bool) (a b : Bytes)
      → removal_target
          (codes "fetch" ∷ codes "--no-tags" ∷ codes "origin" ∷ a ∷ (if one then [] else b ∷ []))
        ≡ none
  one_refspec_harmless true a b = refl
  one_refspec_harmless false a b = refl

  fetch_harmless : (r : PinnedGitRevision) → removal_target (fetch_arguments host r) ≡ none
  fetch_harmless r =
      one_refspec_harmless (same r.head_sha r.base_sha) (refspec host (codes "base") r.base_sha)
        (refspec host (codes "head") r.head_sha)

  fetch_pinned-Keeps :
      (path clone_url : Bytes) (r : PinnedGitRevision) → Keeps (fetch_pinned host path clone_url r)
  unfolding fetch_pinned
  fetch_pinned-Keeps path clone_url r =
      bind-Keeps _ _ (require_git-Keeps host path _ (fetch_harmless r)) (λ fetched.
        bind-Keeps _ _ (has_commits-Keeps path r)
          (λ complete. if-Keeps complete _ _ (λ s h. h) (λ s h. h)))

  pub ensure_pinned_objects-Keeps :
      (source : RepositoryObjectSource) (clone_url : Bytes) (r : PinnedGitRevision)
      → Keeps (ensure_pinned_objects host source clone_url r)
  unfolding ensure_pinned_objects
  ensure_pinned_objects-Keeps source clone_url r =
      bind-Keeps _ _ (has_commits-Keeps (source_path source) r) (λ complete.
        if-Keeps complete _ _ (λ s h. h)
          (if-Keeps _ _ _ (λ s h. h) (fetch_pinned-Keeps (source_path source) clone_url r)))

  pub ensure_managed_path-Keeps :
      (pool : RepositoryPool) (path : Bytes) → Keeps (ensure_managed_path host pool path)
  unfolding ensure_managed_path
  ensure_managed_path-Keeps pool path =
      bind-Keeps _ _ (λ s h. h) (λ managed. if-Keeps _ _ _ (λ s h. h) (λ s h. h))

  pub listed_worktrees-Keeps : (source : Bytes) → Keeps (listed_worktrees host source)
  unfolding listed_worktrees
  listed_worktrees-Keeps source =
      bind-Keeps _ _ (require_git-Keeps host source _ refl) (λ output s h. h)
