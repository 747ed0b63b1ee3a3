-- ===== src/Git/Pool/Sources.antt =====
-- crates/git/src/pool.rs: the repository that a review worktree is made from, a known clone or a mirror.
use localreview.Prelude.{
  Bool, true, false, ◌||◌, not, List, [], ◌∷◌, ◌++◌, Option, none, some, if◌then◌else◌,
}
use localreview.Prelude.Text.{Bytes, codes, same, strip_prefix}
use localreview.Prelude.Lines.{lines}
use localreview.Prelude.Lossy.{from_utf8_lossy}
use localreview.Prelude.Result.{ok, err}
use localreview.Domain.References.{GitSha, git_sha}
use localreview.Domain.Paths.{components}
use localreview.Git.Command.{not_a_repository, parse_failed, stdout_trimmed, normalize_remote_url}
use localreview.Git.Pool.Types.{
  RepositoryLocator, PinnedGitRevision, RepositoryObjectSource, known_clone, managed_mirror,
  source_path, PrepareManagedWorktreeRequest, git_failed, unsafe_managed_path, unsafe_mirror_path,
  unusable_mirror, mirror_remote_mismatch, known_clone_missing_pinned_commit,
  pinned_commit_unavailable,
}
use localreview.Git.Pool.Names.{
  RepositoryPool, join, parent, path_starts_with, mirror_path, reviews_root, equivalent_remotes,
  has_parent_dir,
}
use localreview.Git.Pool.Host.{
  Host, M, created, ◌>>=◌, pure, fail, ask, or_fail, effect, ask_dir, run_git, require_git,
}

-- `HeadState`, whose branch and commit are not used here, is left out.
pub record RepositoryIdentity : Type 0 where
  pub worktree : Bytes
  pub common_dir : Bytes
  pub primary_remote : Option Bytes

module _ {World : Type 0} (host : Host World) where
  -- `has_commit`.
  unfoldable pub has_commit : Bytes → GitSha → M World Bool
  unfolding run_git
  has_commit path sha = do
    output ← run_git host path (codes "cat-file" ∷ codes "-e" ∷ (sha ++ codes "^{commit}") ∷ [])
    pure output.success

  abbrev pub has_commits : Bytes → PinnedGitRevision → M World Bool
  has_commits path revision = do
    base ← has_commit path revision.base_sha
    if base then has_commit path revision.head_sha else pure false

  -- The state of `HEAD` in `inspect`: an id that is malformed is its only error.
  unfoldable pub inspect_head : Bytes → M World (Unit {0})
  unfolding run_git
  inspect_head root = do
    branch ←
        run_git host root (codes "symbolic-ref" ∷ codes "-q" ∷ codes "--short" ∷ codes "HEAD" ∷ [])
    let detached : M World (Unit {0}) = (do
      head ← run_git host root (codes "rev-parse" ∷ codes "--verify" ∷ codes "HEAD" ∷ [])
      (if not head.success then pure tt else elim (git_sha (stdout_trimmed head)) [
        | ok sha ↦ pure tt
        | err e ↦ fail (
            git_failed
              (parse_failed (codes "a git sha must contain 7 to 64 hexadecimal characters")))
      ]))
    if branch.success then pure tt else detached

  -- `GitRepository::inspect`.
  unfoldable pub inspect : Bytes → M World RepositoryIdentity
  unfolding run_git require_git inspect_head
  inspect root = do
    inside ← run_git host root (codes "rev-parse" ∷ codes "--is-inside-work-tree" ∷ [])
    checked ←
        (if not inside.success || not (same (stdout_trimmed inside) (codes "true"))
          then fail (git_failed (not_a_repository root))
          else pure tt)
    worktree ← require_git host root (codes "rev-parse" ∷ codes "--show-toplevel" ∷ [])
    common ←
        require_git host root
          (codes "rev-parse" ∷ codes "--path-format=absolute" ∷ codes "--git-common-dir" ∷ [])
    head ← inspect_head root
    origin ← run_git host root (codes "remote" ∷ codes "get-url" ∷ codes "origin" ∷ [])
    pure (record {
      worktree = stdout_trimmed worktree;
      common_dir = stdout_trimmed common;
      primary_remote =
          (if origin.success then some (normalize_remote_url (stdout_trimmed origin)) else none);
    })

  -- `GitRepository::open(candidate).inspect()`, where an error says only that there is none.
  abbrev pub try_inspect : Bytes → M World (Option RepositoryIdentity)
  try_inspect root s =
      let done = inspect root s in
      (ok (elim (done.0) [ ok identity ↦ some identity | err e ↦ none ]), done.1)

  -- The tests of a candidate behind its identity.
  unfoldable pub clone_is_usable : Bytes → PinnedGitRevision → M World Bool
  unfolding run_git has_commit
  clone_is_usable candidate revision = do
    bare ← run_git host candidate (codes "rev-parse" ∷ codes "--is-bare-repository" ∷ [])
    let inside : M World Bool = (do
      git_dir ←
          run_git host candidate
            (codes "rev-parse" ∷ codes "--path-format=absolute" ∷ codes "--git-dir" ∷ [])
      common_dir ←
          run_git host candidate
            (codes "rev-parse" ∷ codes "--path-format=absolute" ∷ codes "--git-common-dir" ∷ [])
      (if not git_dir.success
            || not common_dir.success
            || not (same (stdout_trimmed git_dir) (stdout_trimmed common_dir))
          then pure false
          else has_commits candidate revision))
    if not bare.success || not (same (stdout_trimmed bare) (codes "false"))
        then pure false
        else inside

  -- `known_clone_is_usable`.
  unfoldable pub known_clone_is_usable : Bytes → Bytes → PinnedGitRevision → M World Bool
  unfolding inspect clone_is_usable
  known_clone_is_usable candidate clone_url revision = do
    there ← ask_dir host candidate
    let known : M World Bool = (do
      identity ← try_inspect candidate
      elim identity [
        | none ↦ pure false
        | some found ↦ elim (found.primary_remote) [
          | none ↦ pure false
          | some remote ↦
              if not (equivalent_remotes remote clone_url)
              then pure false
              else clone_is_usable candidate revision
        ]
      ])
    if there then known else pure false

  unfoldable pub ensure_mirror_path : RepositoryPool → Bytes → M World (Unit {0})
  ensure_mirror_path pool path =
      if path_starts_with path (join pool.cache_root (codes "git-mirrors"))
      then pure tt
      else fail (unsafe_mirror_path path)

  -- `ensure_mirror` where the mirror is there.
  unfoldable pub check_mirror : Bytes → Bytes → M World Bytes
  unfolding run_git require_git
  check_mirror mirror clone_url = do
    bare ← run_git host mirror (codes "rev-parse" ∷ codes "--is-bare-repository" ∷ [])
    checked ←
        (if not bare.success || not (same (stdout_trimmed bare) (codes "true"))
          then fail (unusable_mirror mirror)
          else pure tt)
    remote ← require_git host mirror (codes "remote" ∷ codes "get-url" ∷ codes "origin" ∷ [])
    (if not (equivalent_remotes (stdout_trimmed remote) clone_url)
        then fail (mirror_remote_mismatch mirror)
        else pure mirror)

  -- `ensure_mirror` where it is not.
  unfoldable pub create_mirror : Bytes → Bytes → M World Bytes
  unfolding require_git
  create_mirror mirror clone_url = do
    directory ← or_fail (parent mirror) (unsafe_mirror_path mirror)
    made ← effect (λ w. host.create_dir_all w directory) (created directory) directory
    initialised ← require_git host directory (codes "init" ∷ codes "--bare" ∷ mirror ∷ [])
    added ← require_git host mirror (codes "remote" ∷ codes "add" ∷ codes "origin" ∷ clone_url ∷ [])
    pure mirror

  unfoldable pub ensure_mirror : RepositoryPool → RepositoryLocator → Bytes → M World Bytes
  unfolding ensure_mirror_path check_mirror create_mirror
  ensure_mirror pool repository clone_url = do
    let mirror = mirror_path pool repository
    safe ← ensure_mirror_path pool mirror
    there ← ask (λ w. host.path_exists w mirror)
    if there then check_mirror mirror clone_url else create_mirror mirror clone_url

  -- The loop over the known clones, and the mirror behind it.
  unfoldable pub select_from :
      RepositoryPool → PrepareManagedWorktreeRequest → List Bytes → M World RepositoryObjectSource
  unfolding known_clone_is_usable ensure_mirror
  select_from pool request [] = do
    mirror ← ensure_mirror pool request.repository request.clone_url
    pure (managed_mirror mirror)
  select_from pool request (candidate ∷ candidates) = do
    usable ← known_clone_is_usable candidate request.clone_url request.revision
    let others : M World RepositoryObjectSource = select_from pool request candidates
    if usable then pure (known_clone candidate) else others

  -- `select_source`.
  abbrev pub select_source :
      RepositoryPool → PrepareManagedWorktreeRequest → M World RepositoryObjectSource
  select_source pool request = select_from pool request request.known_clones

  abbrev pub is_known_clone : RepositoryObjectSource → Bool
  is_known_clone (known_clone path) = true
  is_known_clone (managed_mirror path) = false

  -- `<sha>:refs/localreview/<side>/<sha>`.
  abbrev pub refspec : Bytes → GitSha → Bytes
  refspec side sha = sha ++ codes ":refs/localreview/" ++ side ++ b'/' ∷ sha

  abbrev pub fetch_arguments : PinnedGitRevision → List Bytes
  fetch_arguments revision =
      codes "fetch"
      ∷ codes "--no-tags"
      ∷ codes "origin"
      ∷ refspec (codes "base") revision.base_sha
      ∷ (if same revision.head_sha revision.base_sha
          then []
          else refspec (codes "head") revision.head_sha ∷ [])

  unfoldable pub fetch_pinned : Bytes → Bytes → PinnedGitRevision → M World (Unit {0})
  unfolding require_git has_commit
  fetch_pinned path clone_url revision = do
    fetched ← require_git host path (fetch_arguments revision)
    complete ← has_commits path revision
    (if complete
        then pure tt
        else fail (pinned_commit_unavailable path revision.base_sha revision.head_sha clone_url))

  -- `ensure_pinned_objects`.
  unfoldable pub ensure_pinned_objects :
      RepositoryObjectSource → Bytes → PinnedGitRevision → M World (Unit {0})
  unfolding has_commit fetch_pinned
  ensure_pinned_objects source clone_url revision = do
    complete ← has_commits (source_path source) revision
    let missing : M World (Unit {0}) =
        (if is_known_clone source
          then fail (known_clone_missing_pinned_commit (source_path source))
          else fetch_pinned (source_path source) clone_url revision)
    if complete then pure tt else missing

  -- `is_managed_path`.
  unfoldable pub is_managed_path : RepositoryPool → World → Bytes → Bool
  is_managed_path pool w path =
      if has_parent_dir (components path) then false else elim (host.canonicalize w path) [
        | none ↦ path_starts_with path (reviews_root pool)
        | some canonical_path ↦ elim (host.canonicalize w (reviews_root pool)) [
          | none ↦ path_starts_with path (reviews_root pool)
          | some canonical_root ↦ path_starts_with canonical_path canonical_root
        ]
      ]

  unfoldable pub ensure_managed_path : RepositoryPool → Bytes → M World (Unit {0})
  unfolding is_managed_path
  ensure_managed_path pool path = do
    managed ← ask (λ w. is_managed_path pool w path)
    if managed then pure tt else fail (unsafe_managed_path path)

  abbrev worktree_lines : List Bytes → List Bytes
  worktree_lines [] = []
  worktree_lines (line ∷ rest) = elim (strip_prefix (codes "worktree ") line) [
    | none ↦ worktree_lines rest
    | some path ↦ path ∷ worktree_lines rest
  ]

  -- `listed_worktrees`.
  unfoldable pub listed_worktrees : Bytes → M World (List Bytes)
  unfolding require_git
  listed_worktrees source = do
    output ← require_git host source (codes "worktree" ∷ codes "list" ∷ codes "--porcelain" ∷ [])
    pure (worktree_lines (lines (from_utf8_lossy output.stdout)))

  -- `comparable_path`.
  abbrev pub comparable_path : World → Bytes → Bytes
  comparable_path w path = elim (host.canonicalize w path) [ none ↦ path | some real ↦ real ]
