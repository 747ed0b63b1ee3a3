-- ===== src/Protocol/Local/Boundary.antt =====
-- crates/protocol/src/local.rs: what a command that passes `validate` can name.
use localreview.Prelude.{
  ◌≤◌, ◌≡◌, List, ◌++◌, Option, All, All-mono, length, arith, Bool-cases, ◌==◌, inl, inr,
}
use localreview.Prelude.Text.{Bytes, codes}
use localreview.Prelude.Result.{ok, err-ne-ok}
use localreview.Domain.Paths.{components, resolve}
use localreview.Protocol.Local.Commands.{
  RepositoryBaseOverride, ProgrammaticRepositoryBase, LocalCommand, LocalRequest,
  configure_baselines, open_workspace, programmatic,
}
use localreview.Protocol.Local.Texts.{validate_identifier, validate_relative_path, validate_ref}
use localreview.Protocol.Local.Validate.{
  protocol_version, if_present, validate_repository_base, validate_operation, validate_override,
  validate_command, validate_shape,
}
use localreview.Protocol.Local.Passed.{
  ok_and, not_refused, each_passed, present, present_passed, IsIdentifier,
  validate_identifier-IsIdentifier,
}
use localreview.Protocol.Local.Revisions.{IsRevision, validate_ref-IsRevision}
use localreview.Protocol.Local.Beneath.{validate_relative_path-resolve}

-- From any directory the path leads to that directory or below it.
abbrev pub StaysBeneath : Bytes → Type 0
StaysBeneath path =
    (base : List Bytes) → (below : List Bytes) × (resolve base (components path) ≡ below ++ base)

-- An override names a directory beneath the workspace and a plain revision.
pub record IsConfinedOverride (override : RepositoryBaseOverride) : Type 0 where
  pub path : StaysBeneath override.relative_path
  pub revision : IsRevision override.base

pub record IsConfinedBase (item : ProgrammaticRepositoryBase) : Type 0 where
  pub ids : All IsIdentifier (present item.repository_id)
  pub paths : All StaysBeneath (present item.relative_path)
  pub revisions : All IsRevision (present item.base)

-- What the commands that carry paths and revisions may name.
abbrev pub IsConfined : LocalCommand → Type 0
IsConfined (open_workspace path base overrides) =
    All IsRevision (present base) × All IsConfinedOverride overrides
IsConfined (programmatic (configure_baselines workspace_id base items)) =
    IsIdentifier workspace_id
    × All IsRevision (present base)
    × (length items ≤ 10000)
    × All IsConfinedBase items
IsConfined _ = Unit {0}

pub revisions_present :
    (label : Bytes) (value : Option Bytes)
    → if_present (λ base. validate_ref base label) value ≡ ok tt
    → All IsRevision (present value)
revisions_present label value h =
    All-mono (λ v. validate_ref v label ≡ ok tt) IsRevision (present value)
      (λ v k. validate_ref-IsRevision v label k)
      (present_passed (λ base. validate_ref base label) value h)

validate_override-IsConfined :
    (override : RepositoryBaseOverride)
    → validate_override override ≡ ok tt
    → IsConfinedOverride override
unfolding validate_override
validate_override-IsConfined override h =
    let (path, base) = ok_and _ _ h in
    record {
      path = λ dirs. validate_relative_path-resolve override.relative_path dirs path;
      revision = validate_ref-IsRevision override.base _ base;
    }

validate_base-IsConfined :
    (item : ProgrammaticRepositoryBase)
    → validate_repository_base item ≡ ok tt
    → IsConfinedBase item
unfolding validate_repository_base
validate_base-IsConfined item h =
    let (r0, base) = ok_and _ _ h in
    let (r1, named) = ok_and _ _ r0 in
    let (id, path) = ok_and _ _ r1 in
    record {
      ids =
          All-mono (λ v. validate_identifier v (codes "repository id") ≡ ok tt) IsIdentifier
            (present item.repository_id)
            (λ v k. validate_identifier-IsIdentifier v (codes "repository id") k)
            (present_passed _ item.repository_id id);
      paths =
          All-mono (λ v. validate_relative_path v ≡ ok tt) StaysBeneath (present item.relative_path)
            (λ v k dirs. validate_relative_path-resolve v dirs k)
            (present_passed validate_relative_path item.relative_path path);
      revisions = revisions_present (codes "repository base") item.base base;
    }

-- Every relative path of a command that passes leads to the workspace or below it, every base is one
-- plain revision, and the ids of a baseline configuration are identifiers, of 10000 repositories at
-- most.
pub validate_command-IsConfined :
    (command : LocalCommand) → validate_command command ≡ ok tt → IsConfined command
unfolding validate_command validate_operation
validate_command-IsConfined (open_workspace path base overrides) h =
    let (r0, each) = ok_and _ _ h in
    let (located, based) = ok_and _ _ r0 in
    (
      revisions_present (codes "base reference") base based,
      All-mono (λ v. validate_override v ≡ ok tt) IsConfinedOverride overrides
          validate_override-IsConfined (each_passed validate_override overrides each),
    )
validate_command-IsConfined (programmatic (configure_baselines workspace_id base items)) h =
    let (r0, each) = ok_and _ _ h in
    let (r1, few) = ok_and _ _ r0 in
    let (workspace, based) = ok_and _ _ r1 in
    let bound = not_refused _ _ few in
    (
      validate_identifier-IsIdentifier workspace_id (codes "workspace id") workspace,
      revisions_present (codes "default base") base based,
      ground arith,
      All-mono (λ v. validate_repository_base v ≡ ok tt) IsConfinedBase items
          validate_base-IsConfined (each_passed validate_repository_base items each),
    )
validate_command-IsConfined _ h = tt

-- A request that passes has this version, an identifier for its id, and a command that is confined.
pub validate_shape-IsConfined :
    (request : LocalRequest)
    → validate_shape request ≡ ok tt
    → (request.version ≡ 5) × IsIdentifier request.request_id × IsConfined request.command
unfolding validate_shape
validate_shape-IsConfined request h = elim (Bool-cases (request.version == protocol_version)) [
  | inr other ↦ absurd (err-ne-ok (rw (other, validate_shape) at h))
  | inl same ↦
      let checked = rw (same, validate_shape) at h in
      let (id, command) = ok_and _ _ checked in
      (
        ground arith,
        validate_identifier-IsIdentifier request.request_id (codes "request id") id,
        validate_command-IsConfined request.command command,
      )
]
