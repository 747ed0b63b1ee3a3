-- ===== src/Protocol/Reverse/Confined.antt =====
-- crates/protocol/src/reverse.rs: what a request that passes can name.
use localreview.Prelude.{
  ℕ, ◌≤◌, ◌≡◌, true, false, List, All, All-mono, length, arith, ltb, Bool-cases, ◌==◌, inl, inr,
}
use localreview.Prelude.Text.{Bytes, codes, starts_with}
use localreview.Prelude.Result.{ok, err-ne-ok}
use localreview.Domain.References.{all_bytes, is_hex_digit}
use localreview.Protocol.Local.Commands.{RepositoryBaseOverride}
use localreview.Protocol.Local.Passed.{ok_and, not_refused, twice_negated, each_passed, present}
use localreview.Protocol.Local.Revisions.{IsRevision, validate_ref-IsRevision}
use localreview.Protocol.Local.Beneath.{validate_relative_path-resolve}
use localreview.Protocol.Local.Boundary.{IsConfinedOverride, revisions_present}
use localreview.Protocol.Reverse.{
  ManagedForwardCommand, open_remote_workspace, ManagedForwardRequest, ManagedForwardRelayCommand,
  probe, relay_open, ManagedForwardRelayRequest, validate_reverse_base, validate_forward,
  validate_relay, check_version, validate_forward_request, validate_relay_request,
}

-- An absolute path, plain revisions, and at most 4096 overrides that stay beneath the workspace.
abbrev pub IsRemoteOpen : Bytes → List Bytes → List RepositoryBaseOverride → Type 0
IsRemoteOpen path bases overrides =
    (starts_with (codes "/") path ≡ true)
    × All IsRevision bases
    × (length overrides ≤ 4096)
    × All IsConfinedOverride overrides

abbrev pub IsConfinedForward : ManagedForwardCommand → Type 0
IsConfinedForward (open_remote_workspace path base overrides) =
    IsRemoteOpen path (present base) overrides

abbrev pub IsConfinedRelay : ManagedForwardRelayCommand → Type 0
IsConfinedRelay probe = Unit {0}
IsConfinedRelay (relay_open path base overrides) = IsRemoteOpen path (present base) overrides

reverse_base-IsConfined :
    (override : RepositoryBaseOverride)
    → validate_reverse_base override ≡ ok tt
    → IsConfinedOverride override
unfolding validate_reverse_base
reverse_base-IsConfined override h =
    let (path, base) = ok_and _ _ h in
    record {
      path = λ dirs. validate_relative_path-resolve override.relative_path dirs path;
      revision = validate_ref-IsRevision override.base _ base;
    }

validate_forward-IsConfined :
    (command : ManagedForwardCommand) → validate_forward command ≡ ok tt → IsConfinedForward command
unfolding validate_forward
validate_forward-IsConfined (open_remote_workspace path base overrides) h =
    let (r0, each) = ok_and _ _ h in
    let (r1, few) = ok_and _ _ r0 in
    let (r2, based) = ok_and _ _ r1 in
    let (located, rooted) = ok_and _ _ r2 in
    let first = not_refused _ _ rooted in
    let bound : ltb 4096 (length overrides) ≡ false = not_refused _ _ few in
    (
      twice_negated (starts_with (codes "/") path) first,
      revisions_present (codes "managed remote base") base based,
      ground arith,
      All-mono (λ v. validate_reverse_base v ≡ ok tt) IsConfinedOverride overrides
          reverse_base-IsConfined (each_passed validate_reverse_base overrides each),
    )

relay_confined :
    (command : ManagedForwardRelayCommand)
    → validate_relay command ≡ ok tt
    → IsConfinedRelay command
unfolding validate_relay
relay_confined probe h = tt
relay_confined (relay_open path base overrides) h =
    validate_forward-IsConfined (open_remote_workspace path base overrides) h

version_passed : (version : ℕ) → check_version version ≡ ok tt → version ≡ 1
version_passed version h = elim (Bool-cases (version == 1)) [
  | inl same ↦ ground arith
  | inr other ↦ absurd (err-ne-ok (rw other at h))
]

-- A request that passes has version 1, a token of 64 hexadecimal digits, and opens an absolute path with
-- plain revisions for bases and at most 4096 overrides, each of a path that stays beneath the workspace.
pub validate_forward_request-IsConfined :
    (request : ManagedForwardRequest)
    → validate_forward_request request ≡ ok tt
    → (request.version ≡ 1)
      × (length request.token_hex ≡ 64)
      × (all_bytes is_hex_digit request.token_hex ≡ true)
      × IsConfinedForward request.command
unfolding validate_forward_request
validate_forward_request-IsConfined request h =
    let (r0, command) = ok_and _ _ h in
    let (version, token) = ok_and _ _ r0 in
    let tested = not_refused _ _ token in
    (
      version_passed request.version version,
      ground arith,
      ground arith,
      validate_forward-IsConfined request.command command,
    )

-- A relay's request that passes has version 1, and is a probe or opens what a forwarded request may open.
pub validate_relay_request-IsConfined :
    (request : ManagedForwardRelayRequest)
    → validate_relay_request request ≡ ok tt
    → (request.version ≡ 1) × IsConfinedRelay request.command
unfolding validate_relay_request
validate_relay_request-IsConfined request h =
    let (version, command) = ok_and _ _ h in
    (version_passed request.version version, relay_confined request.command command)
