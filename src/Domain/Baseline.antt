-- ===== src/Domain/Baseline.antt =====
-- crates/domain/src/lib.rs, `BaselineRequest::effective`: which base a comparison is made against.
use localreview.Prelude.{arith, ◌++◌, ◌≡◌, List, [], ◌∷◌, Option, none, some}
use localreview.Domain.References.{BaseReference}

pub data BaselineSource : Type 0 where
  temporary_review_override repository_override workspace_default application_default :
      BaselineSource

pub record BaselineRequest : Type 0 where
  pub application_default_reference : BaseReference
  pub workspace_default_reference : Option BaseReference
  pub repository_override_reference : Option BaseReference
  pub temporary_override_reference : Option BaseReference

pub record ResolvedBaseline : Type 0 where
  pub reference : BaseReference
  pub source : BaselineSource

abbrev resolved : BaseReference → BaselineSource → ResolvedBaseline
resolved reference source = record { reference = reference; source = source }

unfoldable pub effective : BaselineRequest → ResolvedBaseline
effective request = elim request.temporary_override_reference [
  | some reference ↦ resolved reference temporary_review_override
  | none ↦ elim request.repository_override_reference [
    | some reference ↦ resolved reference repository_override
    | none ↦ elim request.workspace_default_reference [
      | some reference ↦ resolved reference workspace_default
      | none ↦ resolved request.application_default_reference application_default
    ]
  ]
]

-- The references that a request names, the one that counts first in front.
abbrev named : Option BaseReference → BaselineSource → List ResolvedBaseline
named none source = []
named (some reference) source = resolved reference source ∷ []

abbrev pub candidates : BaselineRequest → List ResolvedBaseline
candidates request =
    named request.temporary_override_reference temporary_review_override
    ++ named request.repository_override_reference repository_override
    ++ named request.workspace_default_reference workspace_default
    ++ resolved request.application_default_reference application_default ∷ []

abbrev pub head_or : ResolvedBaseline → List ResolvedBaseline → ResolvedBaseline
head_or otherwise [] = otherwise
head_or otherwise (first ∷ rest) = first

-- The base of a comparison is the first reference that is given, in the order temporary override,
-- repository override, workspace default, application default; there always is one, so the result does
-- not depend on what an empty list would give.
pub effective-first :
    (request : BaselineRequest) (otherwise : ResolvedBaseline)
    → effective request ≡ head_or otherwise (candidates request)
unfolding effective
effective-first request otherwise = ground arith
