-- ===== src/Service/Config/Layers.antt =====
-- crates/service/src/config.rs, `overlay`: what a merged configuration says of a repository.
use localreview.Prelude.{◌≡◌, List, [], ◌∷◌, Option, none, some, if◌then◌else◌}
use localreview.Prelude.Text.{Bytes, same}
use localreview.Service.Config.{RepositoryFileConfig, WorkspaceFileConfig, prefer, inherit}

-- `BTreeMap::get`.
abbrev pub get : Bytes → List (Bytes × RepositoryFileConfig) → Option RepositoryFileConfig
get path [] = none
get path ((p, repository) ∷ entries) = if same p path then some repository else get path entries

-- Each key is in the map once.
abbrev pub IsMap : List (Bytes × RepositoryFileConfig) → Type 0
IsMap [] = Unit {0}
IsMap ((path, repository) ∷ entries) = (get path entries ≡ none) × IsMap entries

-- A repository of two layers: each field inherits on its own.
abbrev pub merged :
    Option RepositoryFileConfig → Option RepositoryFileConfig → Option RepositoryFileConfig
merged lower none = lower
merged none (some higher) = some higher
merged (some lower) (some higher) = some (inherit lower higher)

-- What two layers say of every repository and of the workspace.
pub record IsLayered (lower higher result : WorkspaceFileConfig) : Type 0 where
  pub default_base : result.default_base ≡ prefer higher.default_base lower.default_base
  pub depth : result.discovery_depth ≡ prefer higher.discovery_depth lower.discovery_depth
  pub excluded :
      result.excluded_relative_prefixes
      ≡ prefer higher.excluded_relative_prefixes lower.excluded_relative_prefixes
  pub repository :
      (path : Bytes)
      → get path result.repositories
        ≡ merged (get path lower.repositories) (get path higher.repositories)
