-- ===== src/Tests/Agents.antt =====
-- A watcher of two repositories, and a workspace that a remote session opens.
use localreview.Prelude.{◌≡◌, ◌≤◌, refl, true, [], ◌∷◌, Option, none, some, replicate, length, ◌⊎◌}
use localreview.Prelude.Text.{Bytes, codes}
use localreview.Domain.References.{all_bytes, is_hex_digit}
use localreview.Protocol.Local.Texts.{
  validate_text, validate_identifier, validate_path, validate_relative_path, validate_ref,
  is_unsafe_ref,
}
use localreview.Protocol.Local.Passed.{IsIdentifier}
use localreview.Protocol.Agent.Types.{AgentRequest, watch_workspace_changes}
use localreview.Protocol.Agent.Validate.{
  SocketAddr, validate_absolute_remote_path, validate_reference, validate_watched,
  validate_agent_operation, is_control, validate_agent_request,
}
use localreview.Protocol.Agent.Bounded.{IsBoundedOperation, validate_agent_request-IsBounded}
use localreview.Protocol.Reverse.{
  ManagedForwardRequest, ManagedForwardRelayRequest, open_remote_workspace, relay_open,
  validate_reverse_base, validate_forward, validate_relay, validate_forward_request,
  validate_relay_request,
}
use localreview.Protocol.Reverse.Confined.{
  IsConfinedForward, IsConfinedRelay, validate_forward_request-IsConfined,
  validate_relay_request-IsConfined,
}

-- No text is an address.
abbrev no_address : Bytes → Option SocketAddr
no_address text = none

abbrev watching : AgentRequest
watching = record {
  id = codes "job-1";
  generation = 3;
  operation =
      watch_workspace_changes
        (record { workspace_root = codes "/w"; relative_path = codes "." }
          ∷ record { workspace_root = codes "/w"; relative_path = codes "a/b" }
          ∷ [])
        500;
}

validate_agent_request-IsBounded_example :
    IsIdentifier watching.id
    × ((1 ≤ watching.generation) ⊎ (is_control no_address watching.operation ≡ true))
    × IsBoundedOperation no_address watching.operation
unfolding validate_agent_request validate_agent_operation validate_watched validate_reference
    validate_absolute_remote_path validate_path validate_relative_path validate_identifier
    validate_text
validate_agent_request-IsBounded_example = validate_agent_request-IsBounded no_address watching refl

abbrev forwarded : ManagedForwardRequest
forwarded = record {
  version = 1;
  token_hex = replicate 64 b'a';
  command =
      open_remote_workspace (codes "/work/a") (some (codes "origin/main"))
        (record { relative_path = codes "lib"; base = codes "v1" } ∷ []);
}

validate_forward_request-IsConfined_example :
    (forwarded.version ≡ 1)
    × (length forwarded.token_hex ≡ 64)
    × (all_bytes is_hex_digit forwarded.token_hex ≡ true)
    × IsConfinedForward forwarded.command
unfolding validate_forward_request validate_forward validate_reverse_base validate_path
    validate_relative_path validate_ref validate_text is_unsafe_ref
validate_forward_request-IsConfined_example = validate_forward_request-IsConfined forwarded refl

abbrev relayed : ManagedForwardRelayRequest
relayed = record { version = 1; command = relay_open (codes "/work/a") none [] }

validate_relay_request-IsConfined_example : (relayed.version ≡ 1) × IsConfinedRelay relayed.command
unfolding validate_relay_request validate_relay validate_forward validate_path validate_text
validate_relay_request-IsConfined_example = validate_relay_request-IsConfined relayed refl
