-- ===== src/Protocol/Reverse.antt =====
-- crates/protocol/src/reverse.rs: the one command that a remote session may send to the desktop.
pub mod Confined
use localreview.Prelude.{ℕ, Bool, ◌||◌, not, List, Option, length, ltb, ◌==◌, if◌then◌else◌}
use localreview.Prelude.Text.{Bytes, codes, starts_with}
use localreview.Prelude.Result.{ok, err, ◌>>◌}
use localreview.Domain.References.{all_bytes, is_hex_digit}
use localreview.Protocol.Errors.{unsupported_version}
use localreview.Protocol.Local.Commands.{RepositoryBaseOverride}
use localreview.Protocol.Local.Texts.{
  Checked, refuse_if, validate_path, validate_relative_path, validate_ref,
}
use localreview.Protocol.Local.Validate.{if_present, for_each}

pub data ManagedForwardCommand : Type 0 where
  open_remote_workspace :
      (path : Bytes) (base : Option Bytes) (repository_bases : List RepositoryBaseOverride)
      → ManagedForwardCommand

pub record ManagedForwardRequest : Type 0 where
  pub version : ℕ
  pub token_hex : Bytes
  pub command : ManagedForwardCommand

pub data ManagedForwardRelayCommand : Type 0 where
  probe : ManagedForwardRelayCommand
  relay_open :
      (path : Bytes) (base : Option Bytes) (repository_bases : List RepositoryBaseOverride)
      → ManagedForwardRelayCommand

pub record ManagedForwardRelayRequest : Type 0 where
  pub version : ℕ
  pub command : ManagedForwardRelayCommand

pub data ManagedForwardResponse : Type 0 where
  accepted : ManagedForwardResponse
  refused : (message : Bytes) → ManagedForwardResponse

-- One override of a repository's base.
unfoldable pub validate_reverse_base : RepositoryBaseOverride → Checked
validate_reverse_base override =
    validate_relative_path override.relative_path
    >> validate_ref override.base (codes "managed repository base")

-- `ManagedForwardCommand::validate`.
unfoldable pub validate_forward : ManagedForwardCommand → Checked
unfolding validate_reverse_base
validate_forward (open_remote_workspace path base repository_bases) =
    validate_path path (codes "managed remote workspace path")
    >> refuse_if (not (starts_with (codes "/") path))
        (codes "managed remote workspace path must be absolute")
    >> if_present (λ value. validate_ref value (codes "managed remote base")) base
    >> refuse_if (ltb 4096 (length repository_bases))
        (codes "too many managed remote base overrides")
    >> for_each validate_reverse_base repository_bases

-- `ManagedForwardRelayCommand::validate`.
unfoldable pub validate_relay : ManagedForwardRelayCommand → Checked
unfolding validate_forward
validate_relay probe = ok tt
validate_relay (relay_open path base repository_bases) =
    validate_forward (open_remote_workspace path base repository_bases)

-- The test of `REVERSE_FORWARD_VERSION`.
abbrev pub check_version : ℕ → Checked
check_version version = if version == 1 then ok tt else err (unsupported_version version 1)

-- `ManagedForwardRequest::validate`.
unfoldable pub validate_forward_request : ManagedForwardRequest → Checked
unfolding validate_forward
validate_forward_request request =
    check_version request.version
    >> refuse_if
        (not (length request.token_hex == 64) || not (all_bytes is_hex_digit request.token_hex))
        (codes "managed forward token must be exactly 32 bytes of hex")
    >> validate_forward request.command

-- `ManagedForwardRelayRequest::validate`.
unfoldable pub validate_relay_request : ManagedForwardRelayRequest → Checked
unfolding validate_relay
validate_relay_request request = check_version request.version >> validate_relay request.command
