-- ===== src/Tests/Configs.antt =====
-- Two layers of a configuration, an exclusion, and a header-like line of a patch.
use localreview.Prelude.{ℕ, ◌≡◌, refl, true, false, List, [], ◌∷◌, ◌++◌, none, some, inl, ◌⊎◌}
use localreview.Prelude.Text.{Bytes, codes}
use localreview.Prelude.Result.{ok}
use localreview.Domain.References.{any_byte}
use localreview.Domain.Paths.{components, resolve}
use localreview.Service.Config.{
  WorkspaceFileConfig, is_glob_byte, normalize_relative_path, parse_excluded_prefix,
}
use localreview.Service.Config.Names.{parse_excluded_prefix-resolve}
use localreview.Diff.Types.{modified}
use localreview.Diff.Patch.Paths.{strip_git_patch_prefix}
use localreview.Diff.Patch.Builder.{PatchFileBuilder}
use localreview.Diff.Patch.Parse.{file_line}
use localreview.Diff.Patch.Headers.{IsSameHunk, file_line-IsSameHunk}
use localreview.Tests.Diffs.{digest, listed}

abbrev global_layer : WorkspaceFileConfig
global_layer = record {
  default_base = some (codes "origin/global");
  discovery_depth = some 8;
  excluded_relative_prefixes = some (codes "vendor" ∷ []);
  repositories = (codes "a", record { base = some (codes "v1"); enabled = some false }) ∷ [];
}

abbrev workspace_layer : WorkspaceFileConfig
workspace_layer = record {
  default_base = none;
  discovery_depth = none;
  excluded_relative_prefixes = some [];
  repositories =
      (codes "a", record { base = none; enabled = some true })
      ∷ (codes "b", record { base = some (codes "v2"); enabled = none })
      ∷ [];
}

excluded : parse_excluded_prefix 0 (codes "vendor/**") ≡ ok (codes "vendor")
unfolding parse_excluded_prefix normalize_relative_path components
excluded = refl

parse_excluded_prefix-resolve_example :
    (prefix : Bytes) × ((codes "vendor/**" ≡ prefix) ⊎ (codes "vendor/**" ≡ prefix ++ codes "/**"))
    × (any_byte is_glob_byte prefix ≡ false)
    × (resolve (codes "home" ∷ []) (components (codes "vendor"))
        ≡ resolve (codes "home" ∷ []) (components prefix))
    × ((below : List Bytes) × (resolve (codes "home" ∷ []) (components (codes "vendor"))
          ≡ below ++ codes "home" ∷ []))
parse_excluded_prefix-resolve_example =
    parse_excluded_prefix-resolve 0 (codes "vendor/**") (codes "vendor") (codes "home" ∷ [])
      excluded

abbrev before : PatchFileBuilder (List ℕ)
before = record {
  path = codes "f.sql";
  old_path = some (codes "f.sql");
  status = modified;
  hunks = [];
  active_header =
      some (record { old_start = 4; old_count = 1; new_start = 4; new_count = 0; context = none });
  active_rows = [];
  old_snippet = [];
  new_snippet = [];
  old_line = 4;
  new_line = 4;
  changed_old = [];
  changed_new = [];
}

-- The removal of the comment `-- a/x`: the path changes, the row is lost.
comment_taken :
    file_line digest listed 1 (codes "--- a/x") before
    ≡ ok (record before { old_path = some (codes "x") })
unfolding file_line strip_git_patch_prefix
comment_taken = refl

file_line-IsSameHunk_example : IsSameHunk before (record before { old_path = some (codes "x") })
file_line-IsSameHunk_example =
    file_line-IsSameHunk digest listed 1 (codes "a/x") before
      (record before { old_path = some (codes "x") }) (inl comment_taken)
