-- ===== src/Tests/Walks.antt =====
-- A directory with one repository in it and one directory that is not searched.
use localreview.Prelude.{◌≡◌, refl, true, [], ◌∷◌, none, some, if◌then◌else◌, arith}
use localreview.Prelude.Text.{codes, same}
use localreview.Prelude.Result.{ok}
use localreview.Domain.Paths.{normal, components}
use localreview.Git.Pool.Names.{join}
use localreview.Git.Pool.Sources.{RepositoryIdentity}
use localreview.Git.Discovery.{
  default_config, Walker, is_searched, candidates, relative_to, keep, descend, visit,
  sort_repositories, search, discover_repositories,
}
use localreview.Git.Discovery.Finishes.{Finished, discover_repositories-Finished}

abbrev identity : RepositoryIdentity
identity = record { worktree = codes "/w/a"; common_dir = codes "/w/a/.git"; primary_remote = none }

abbrev walker : Walker
walker = record {
  symlink_metadata = λ path. some true;
  has_git_marker = λ path. same path (codes "/w/a");
  inspect = λ path. ok identity;
  canonicalize = λ path. some path;
  read_dir = λ path.
      if same path (codes "/w")
      then ok (
          record { name = codes "a"; is_plain_dir = true }
          ∷ record { name = codes "target"; is_plain_dir = true }
          ∷ [])
      else ok [];
}

found_test :
    discover_repositories walker (codes "/w") default_config 3
    ≡ ok (some (record { relative_path = normal (codes "a") ∷ []; identity = identity } ∷ []))
unfolding discover_repositories search visit descend keep candidates is_searched relative_to join
    components default_config sort_repositories
found_test = refl

discover_repositories-Finished_example :
    Finished walker
      (codes "/w")
      default_config
      (discover_repositories walker (codes "/w") default_config 3)
unfolding candidates is_searched relative_to join components default_config
discover_repositories-Finished_example =
    discover_repositories-Finished walker (codes "/w") default_config 3 (omega arith)
