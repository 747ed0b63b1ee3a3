-- ===== src/Service/Config.antt =====
-- crates/service/src/config.rs: the configuration of a workspace and its layers. A `BTreeMap` is the list
-- of its entries, whose keys differ.
pub mod Layers
pub mod Inside
pub mod Normal
pub mod Names
use localreview.Prelude.{
  ℕ, ◌+◌, Bool, true, false, ◌&&◌, ◌||◌, not, List, [], ◌∷◌, ◌++◌, Option, none, some, ◌==◌,
  if◌then◌else◌,
}
use localreview.Prelude.Text.{Bytes, codes, same, starts_with, decimal}
use localreview.Prelude.Result.{Result, ok, err, ◌>>=◌}
use localreview.Domain.Errors.{DomainError}
use localreview.Domain.References.{BaseReference, base_reference, any_byte}
use localreview.Domain.Paths.{Component, normal, components, any_escape}

pub record RepositoryFileConfig : Type 0 where
  pub base : Option BaseReference
  pub enabled : Option Bool

pub record WorkspaceFileConfig : Type 0 where
  pub default_base : Option BaseReference
  pub discovery_depth : Option ℕ
  pub excluded_relative_prefixes : Option (List Bytes)
  pub repositories : List (Bytes × RepositoryFileConfig)

-- The errors of reading the file and of its TOML are those of other code.
pub data WorkspaceConfigError : Type 0 where
  invalid_base : (field : Bytes) (reason : DomainError) → WorkspaceConfigError
  unsafe_path : (field value : Bytes) → WorkspaceConfigError

pub record RawRepository : Type 0 where
  pub base : Option Bytes
  pub enabled : Option Bool

-- `RawConfig` with its `RawWorkspace`.
pub record RawConfig : Type 0 where
  pub default_base : Option Bytes
  pub discovery_depth : Option ℕ
  pub exclude : Option (List Bytes)
  pub repositories : List (Bytes × RawRepository)

-- The higher layer's value where it has one.
abbrev pub prefer {ℓ} : {A : Type ℓ} → Option A → Option A → Option A
prefer none lower = lower
prefer (some value) lower = some value

abbrev pub inherit : RepositoryFileConfig → RepositoryFileConfig → RepositoryFileConfig
inherit lower higher = record {
  base = prefer higher.base lower.base;
  enabled = prefer higher.enabled lower.enabled;
}

-- One repository of the higher layer, by the entry of its path.
unfoldable pub overlay_repository :
    Bytes
    → RepositoryFileConfig
    → List (Bytes × RepositoryFileConfig)
    → List (Bytes × RepositoryFileConfig)
overlay_repository path repository [] = (path, repository) ∷ []
overlay_repository path repository ((p, lower) ∷ entries) =
    let rest = overlay_repository path repository entries in
    if same p path then (p, inherit lower repository) ∷ entries else (p, lower) ∷ rest

unfoldable pub overlay_repositories :
    List (Bytes × RepositoryFileConfig)
    → List (Bytes × RepositoryFileConfig)
    → List (Bytes × RepositoryFileConfig)
unfolding overlay_repository
overlay_repositories lower [] = lower
overlay_repositories lower ((path, repository) ∷ higher) =
    overlay_repositories (overlay_repository path repository lower) higher

-- `WorkspaceFileConfig::overlay`.
unfoldable pub overlay : WorkspaceFileConfig → WorkspaceFileConfig → WorkspaceFileConfig
unfolding overlay_repositories
overlay lower higher = record {
  default_base = prefer higher.default_base lower.default_base;
  discovery_depth = prefer higher.discovery_depth lower.discovery_depth;
  excluded_relative_prefixes =
      prefer higher.excluded_relative_prefixes lower.excluded_relative_prefixes;
  repositories = overlay_repositories lower.repositories higher.repositories;
}

unfoldable pub parse_base : Bytes → Bytes → Result WorkspaceConfigError BaseReference
parse_base field value = elim (base_reference value) [
  | ok reference ↦ ok reference
  | err reason ↦ err (invalid_base field reason)
]

-- The normal components, with slashes between them.
abbrev pub normal_path : List Component → Bytes
normal_path [] = []
normal_path (normal part ∷ rest) = elim (normal_path rest) [
  | [] ↦ part
  | c ∷ path ↦ part ++ b'/' ∷ c ∷ path
]
normal_path (_ ∷ rest) = normal_path rest

unfoldable pub normalize_relative_path : Bytes → Bytes → Result WorkspaceConfigError Bytes
unfolding components
normalize_relative_path field value =
    let normalized = normal_path (components value) in
    if same value [] || starts_with (codes "/") value || any_escape (components value)
    then err (unsafe_path field value)
    else if same normalized [] && not (same value (codes "."))
    then err (unsafe_path field value)
    else if same normalized []
    then ok (codes ".")
    else ok normalized

-- `strip_suffix("/**").unwrap_or(value)`.
abbrev pub strip_glob : Bytes → Bytes
strip_glob [] = []
strip_glob (c ∷ s) = let rest = strip_glob s in if same (c ∷ s) (codes "/**") then [] else c ∷ rest

-- `'*' | '?' | '[' | ']'`.
abbrev pub is_glob_byte : ℕ → Bool
is_glob_byte c = c == b'*' || c == b'?' || c == b'[' || c == b']'

abbrev pub exclude_field : ℕ → Bytes
exclude_field index = codes "workspace.exclude[" ++ decimal index ++ codes "]"

unfoldable pub parse_excluded_prefix : ℕ → Bytes → Result WorkspaceConfigError Bytes
unfolding normalize_relative_path
parse_excluded_prefix index value =
    if any_byte is_glob_byte (strip_glob value)
    then err (unsafe_path (exclude_field index) value)
    else normalize_relative_path (exclude_field index) (strip_glob value)

-- `enumerate`, and the first error.
unfoldable pub parse_excluded : ℕ → List Bytes → Result WorkspaceConfigError (List Bytes)
unfolding parse_excluded_prefix
parse_excluded index [] = ok []
parse_excluded index (value ∷ values) = do
  prefix ← parse_excluded_prefix index value
  prefixes ← parse_excluded (index + 1) values
  ok (prefix ∷ prefixes)

-- `map` and `transpose` of an optional field.
abbrev pub optional {ℓ κ} :
    {A : Type ℓ} {B : Type κ}
    → (A → Result WorkspaceConfigError B)
    → Option A
    → Result WorkspaceConfigError (Option B)
optional parse none = ok none
optional parse (some value) = do result ← parse value; ok (some result)

-- `trim_end_matches("/**")`.
abbrev pub is_globs : Bytes → Bool
is_globs [] = true
is_globs (a ∷ b ∷ c ∷ s) = a == b'/' && b == b'*' && c == b'*' && is_globs s
is_globs _ = false

abbrev pub trim_globs : Bytes → Bytes
trim_globs [] = []
trim_globs (c ∷ s) = let rest = trim_globs s in if is_globs (c ∷ s) then [] else c ∷ rest

unfoldable pub parse_repository :
    Bytes → RawRepository → Result WorkspaceConfigError (Bytes × RepositoryFileConfig)
unfolding normalize_relative_path parse_base
parse_repository path repository = do
  normalized ← normalize_relative_path (codes "repositories." ++ path) (trim_globs path)
  base ← optional (parse_base (codes "repositories." ++ path ++ codes ".base")) repository.base
  ok (normalized, record { base = base; enabled = repository.enabled })

-- `BTreeMap::insert`.
abbrev pub put :
    Bytes
    → RepositoryFileConfig
    → List (Bytes × RepositoryFileConfig)
    → List (Bytes × RepositoryFileConfig)
put path repository [] = (path, repository) ∷ []
put path repository ((p, before) ∷ entries) =
    let rest = put path repository entries in
    if same p path then (p, repository) ∷ entries else (p, before) ∷ rest

-- The entries in the order of their paths, collected; a path that comes twice keeps the last.
unfoldable pub parse_repositories :
    List (Bytes × RepositoryFileConfig)
    → List (Bytes × RawRepository)
    → Result WorkspaceConfigError (List (Bytes × RepositoryFileConfig))
unfolding parse_repository
parse_repositories collected [] = ok collected
parse_repositories collected ((path, repository) ∷ rest) = do
  entry ← parse_repository path repository
  parse_repositories (put entry.0 entry.1 collected) rest

-- `WorkspaceFileConfig::try_from_raw`.
unfoldable pub try_from_raw : RawConfig → Result WorkspaceConfigError WorkspaceFileConfig
unfolding parse_base parse_excluded parse_repositories
try_from_raw raw = do
  default_base ← optional (parse_base (codes "workspace.default_base")) raw.default_base
  prefixes ← optional (parse_excluded 0) raw.exclude
  repositories ← parse_repositories [] raw.repositories
  ok (record {
    default_base = default_base;
    discovery_depth = raw.discovery_depth;
    excluded_relative_prefixes = prefixes;
    repositories = repositories;
  })
