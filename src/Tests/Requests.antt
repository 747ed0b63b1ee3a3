-- ===== src/Tests/Requests.antt =====
-- Commands and their texts through the validation.
use localreview.Prelude.{◌≡◌, refl, List, [], ◌∷◌, ◌++◌, some, if◌then◌else◌}
use localreview.Prelude.Text.{Bytes, codes}
use localreview.Prelude.Words.{has_whitespace}
use localreview.Prelude.Result.{ok, err}
use localreview.Domain.Errors.{invalid_base_reference}
use localreview.Domain.References.{base_reference}
use localreview.Domain.Paths.{components, resolve}
use localreview.Protocol.Local.Commands.{LocalRequest, open_workspace}
use localreview.Protocol.Local.Texts.{
  is_unsafe_ref, validate_text, validate_identifier, validate_path, validate_relative_path,
  validate_ref,
}
use localreview.Protocol.Local.Validate.{validate_override, validate_command, validate_shape}
use localreview.Protocol.Local.Passed.{IsIdentifier}
use localreview.Protocol.Local.Revisions.{validate_ref-base_reference}
use localreview.Protocol.Local.Beneath.{validate_relative_path-resolve}
use localreview.Protocol.Local.Boundary.{IsConfined, validate_shape-IsConfined}

-- A base with a tab passes the protocol.
tabbed : validate_ref (codes "a\tb") (codes "base") ≡ ok tt
unfolding validate_ref validate_text is_unsafe_ref
tabbed = refl

validate_ref-base_reference_example :
    base_reference (codes "a\tb")
    ≡ (if has_whitespace (codes "a\tb") then err invalid_base_reference else ok (codes "a\tb"))
validate_ref-base_reference_example =
    validate_ref-base_reference (codes "a\tb") (codes "base") tabbed

nested : validate_relative_path (codes "a/./b") ≡ ok tt
unfolding validate_relative_path validate_path validate_text
nested = refl

validate_relative_path-resolve_example :
    (below : List Bytes) × (resolve (codes "home" ∷ []) (components (codes "a/./b"))
      ≡ below ++ codes "home" ∷ [])
validate_relative_path-resolve_example =
    validate_relative_path-resolve (codes "a/./b") (codes "home" ∷ []) nested

abbrev request : LocalRequest
request = record {
  version = 5;
  request_id = codes "r-1";
  issued_at_unix_secs = 100;
  command =
      open_workspace (codes "/home/a") (some (codes "origin/main"))
        (record { relative_path = codes "b"; base = codes "v1" } ∷ []);
  authentication = [];
}

shaped : validate_shape request ≡ ok tt
unfolding validate_shape validate_command validate_override validate_identifier validate_path
    validate_relative_path validate_ref validate_text is_unsafe_ref
shaped = refl

validate_shape-IsConfined_example :
    (request.version ≡ 5) × IsIdentifier request.request_id × IsConfined request.command
validate_shape-IsConfined_example = validate_shape-IsConfined request shaped
