-- ===== src/Tests/Domains.antt =====
-- The grammars of base references, object ids, paths, filters and ranges, at concrete texts.
use localreview.Prelude.{
  none, true, false, ◌↔◌, ◌≡◌, ◌≤◌, refl, List, [], ◌∷◌, ◌++◌, All, some, length, arith,
}
use localreview.Prelude.Text.{Bytes, codes}
use localreview.Prelude.Words.{is_blank, has_whitespace}
use localreview.Prelude.Result.{Result, ok, err}
use localreview.Domain.Errors.{DomainError, invalid_comparison_path_filter}
use localreview.Domain.References.{is_refused, base_reference, git_sha}
use localreview.Domain.References.Plain.{IsPlain, base_reference-IsPlain, base_reference_names}
use localreview.Domain.References.Sha.{is_lower_hex, git_sha_canonical}
use localreview.Domain.Baseline.{BaselineRequest, effective, head_or, candidates, effective-first}
use localreview.Domain.Paths.{
  components, resolve, is_safe_repository_relative_path, is_safe_repository_relative_path-resolve,
}
use localreview.Domain.Options.{
  ComparisonOptions, AllSafe, check_filters, validate, validate_iff, validate-first_unsafe,
}
use localreview.Domain.Annotations.{
  DiffSide, LineAnchorInput, AnnotationAnchor, from_file, from_line, from_line-range,
}

main_accepted : base_reference (codes "origin/main") ≡ ok (codes "origin/main")
unfolding base_reference is_refused is_blank has_whitespace
main_accepted = refl

base_reference-IsPlain_example : IsPlain (codes "origin/main") (codes "origin/main")
base_reference-IsPlain_example =
    base_reference-IsPlain (codes "origin/main") (codes "origin/main") main_accepted

base_reference_names_example : base_reference (codes "a/b") ≡ ok (codes "a/b")
base_reference_names_example =
    base_reference_names b'a' (codes "/b") (refl, (refl, (refl, tt))) (λ e. omega arith)
      (omega arith)

sha_accepted : git_sha (codes "0123ABCdef") ≡ ok (codes "0123abcdef")
unfolding git_sha
sha_accepted = refl

git_sha_canonical_example :
    (7 ≤ length (codes "0123abcdef"))
    × (length (codes "0123abcdef") ≤ 64)
    × All (λ c. is_lower_hex c ≡ true) (codes "0123abcdef")
    × (git_sha (codes "0123abcdef") ≡ ok (codes "0123abcdef"))
git_sha_canonical_example = git_sha_canonical (codes "0123ABCdef") (codes "0123abcdef") sha_accepted

path_accepted : is_safe_repository_relative_path (codes "./a//b") ≡ true
unfolding is_safe_repository_relative_path components
path_accepted = refl

is_safe_repository_relative_path-resolve_example :
    (below : List Bytes) × (resolve (codes "home" ∷ []) (components (codes "./a//b"))
      ≡ below ++ codes "home" ∷ [])
is_safe_repository_relative_path-resolve_example =
    is_safe_repository_relative_path-resolve (codes "./a//b") (codes "home" ∷ []) path_accepted

abbrev options : ComparisonOptions
options = record {
  ignore_all_whitespace = true;
  ignore_space_at_eol = false;
  ignore_cr_at_eol = false;
  path_filters = codes "src" ∷ codes "./a//b" ∷ [];
}

validate_iff_example :
    (validate options ≡ ok tt)
    ↔ ((length options.path_filters ≤ 2048) × AllSafe options.path_filters)
validate_iff_example = validate_iff options

second_refused :
    check_filters (codes "src" ∷ codes "a/../b" ∷ [])
    ≡ err (invalid_comparison_path_filter (codes "a/../b"))
unfolding check_filters is_safe_repository_relative_path components
second_refused = refl

validate-first_unsafe_example :
    (before after : List Bytes) × (codes "src" ∷ codes "a/../b" ∷ []
      ≡ before ++ codes "a/../b" ∷ after)
    × AllSafe before
    × (is_safe_repository_relative_path (codes "a/../b") ≡ false)
validate-first_unsafe_example =
    validate-first_unsafe (codes "src" ∷ codes "a/../b" ∷ []) (codes "a/../b") second_refused

abbrev range : LineAnchorInput
range = record {
  comparison_id = 1;
  repository_id = 2;
  file_path = codes "f.rs";
  side = DiffSide.new;
  start_line = 3;
  end_line = 5;
  selected_source = codes "x";
  surrounding_context = [];
}

abbrev digest : Bytes → Bytes
digest text = length text ∷ []

abbrev anchor_of : Result DomainError AnnotationAnchor → AnnotationAnchor → AnnotationAnchor
anchor_of (ok anchor) otherwise = anchor
anchor_of (err e) otherwise = otherwise

anchor : AnnotationAnchor
unfolding from_line from_file
anchor = anchor_of (from_line digest range) (from_file digest 1 2 [])

range_accepted : from_line digest range ≡ ok anchor
unfolding anchor
range_accepted = refl

from_line-range_example :
    (1 ≤ 3)
    × (3 ≤ 5)
    × (anchor.side ≡ some DiffSide.new)
    × (anchor.start_line ≡ some 3)
    × (anchor.end_line ≡ some 5)
from_line-range_example = from_line-range digest range anchor range_accepted

abbrev request : BaselineRequest
request = record {
  application_default_reference = codes "origin/master";
  workspace_default_reference = none;
  repository_override_reference = some (codes "v1");
  temporary_override_reference = none;
}

effective-first_example : effective request ≡ head_or (effective request) (candidates request)
effective-first_example = effective-first request (effective request)
