-- ===== src/Protocol/Agent/Validate.antt =====
-- crates/protocol/src/agent.rs: `validate` of a request and of its parts. The socket addresses of Rust's
-- standard library are a parameter: the parse of one gives whether it is a loopback address, and its port.
use localreview.Prelude.{
  ℕ, Bool, true, false, ◌&&◌, ◌||◌, not, List, [], ◌∷◌, ◌++◌, Option, none, some, length, ltb, ◌==◌,
  if◌then◌else◌,
}
use localreview.Prelude.Text.{Bytes, codes, same, starts_with}
use localreview.Prelude.Words.{between}
use localreview.Prelude.Result.{ok, err, ◌>>◌}
use localreview.Domain.References.{all_bytes, is_hex_digit}
use localreview.Protocol.Errors.{invalid_input}
use localreview.Protocol.Local.Texts.{
  Checked, refuse_if, validate_identifier, validate_path, validate_relative_path, validate_ref,
}
use localreview.Protocol.Local.Validate.{for_each}
use localreview.Protocol.Agent.Types.{
  RemoteRepositoryRef, RemoteComparisonOptions, AgentOperation, handshake, ping,
  configure_managed_forward_relay, discover_repositories, capture_comparison, read_source_window,
  watch_repository_changes, watch_workspace_changes, cancel, AgentRequest,
}

pub record SocketAddr : Type 0 where
  pub is_loopback : Bool
  pub port : ℕ

unfoldable pub validate_absolute_remote_path : Bytes → Bytes → Checked
validate_absolute_remote_path value label =
    validate_path value label
    >> refuse_if (not (starts_with (codes "/") value))
        (label ++ codes " must be an absolute POSIX path")

-- `RemoteRepositoryRef::validate`.
unfoldable pub validate_reference : RemoteRepositoryRef → Checked
unfolding validate_absolute_remote_path
validate_reference reference =
    let beneath = validate_relative_path reference.relative_path in
    validate_absolute_remote_path reference.workspace_root (codes "remote workspace root")
    >> (if same reference.relative_path (codes ".") then ok tt else beneath)

-- `RemoteComparisonOptions::validate`.
unfoldable pub validate_options : RemoteComparisonOptions → Checked
validate_options options =
    refuse_if (ltb 4096 (length options.path_filters))
      (codes "too many remote comparison path filters")
    >> for_each validate_relative_path options.path_filters

abbrev pub is_session_byte : ℕ → Bool
is_session_byte c =
    between b'0' b'9' c || between b'A' b'Z' c || between b'a' b'z' c || c == b'-' || c == b'_'

abbrev pub same_reference : RemoteRepositoryRef → RemoteRepositoryRef → Bool
same_reference a b = same a.workspace_root b.workspace_root && same a.relative_path b.relative_path

abbrev pub has_reference : RemoteRepositoryRef → List RemoteRepositoryRef → Bool
has_reference r [] = false
has_reference r (s ∷ seen) = same_reference s r || has_reference r seen

abbrev pub other_root : Option Bytes → Bytes → Bool
other_root none path = false
other_root (some root) path = not (same root path)

-- The loop over the repositories of a workspace, with the root of the first and those seen so far.
unfoldable pub validate_watched :
    Option Bytes → List RemoteRepositoryRef → List RemoteRepositoryRef → Checked
unfolding validate_reference
validate_watched root seen [] = ok tt
validate_watched root seen (r ∷ rest) =
    validate_reference r
    >> refuse_if (other_root root r.workspace_root)
        (codes "remote workspace watcher repositories must share one root")
    >> refuse_if (has_reference r seen)
        (codes "remote workspace watcher has duplicate repositories")
    >> validate_watched (some r.workspace_root) (r ∷ seen) rest

-- The range of a watcher's interval.
abbrev pub interval : ℕ → Checked
interval millis =
    refuse_if (ltb millis 250 || ltb 60000 millis)
      (codes "remote watcher interval must be between 250ms and 60s")

-- The condition under which a relay is refused.
abbrev pub is_bad_relay : SocketAddr → Bytes → Bytes → Bool
is_bad_relay address token_hex session_id =
    not address.is_loopback
    || address.port == 0
    || not (length token_hex == 64)
    || not (all_bytes is_hex_digit token_hex)
    || same session_id []
    || ltb 64 (length session_id)
    || not (all_bytes is_session_byte session_id)

module _ (parse_address : Bytes → Option SocketAddr) where
  -- `AgentOperation::validate`.
  unfoldable pub validate_agent_operation : AgentOperation → Checked
  unfolding validate_absolute_remote_path validate_reference validate_options validate_watched
  validate_agent_operation (handshake versions) =
      refuse_if (length versions == 0 || ltb 16 (length versions))
        (codes "desktop protocol versions must contain 1..=16 entries")
  validate_agent_operation ping = ok tt
  validate_agent_operation (configure_managed_forward_relay endpoint token_hex session_id) =
      elim (parse_address endpoint) [
        | none ↦
            err (invalid_input (codes "managed forward endpoint must be a loopback socket address"))
        | some address ↦
            refuse_if (is_bad_relay address token_hex session_id)
              (codes "managed forward relay configuration is invalid")
      ]
  validate_agent_operation (discover_repositories root max_depth) =
      validate_absolute_remote_path root (codes "remote workspace root")
      >> refuse_if (ltb 32 max_depth) (codes "remote discovery depth exceeds 32")
  validate_agent_operation (capture_comparison repository base options) =
      validate_reference repository
      >> validate_ref base (codes "remote comparison base")
      >> validate_options options
  validate_agent_operation
        (read_source_window capture_id generation repository path revision start count) =
      validate_identifier capture_id (codes "remote capture id")
      >> refuse_if (generation == 0) (codes "remote capture generation must be non-zero")
      >> validate_reference repository
      >> validate_relative_path path
      >> refuse_if (start == 0 || count == 0 || ltb 4096 count)
          (codes "remote source window must request 1..=4096 lines")
  validate_agent_operation (watch_repository_changes repository millis) =
      validate_reference repository >> interval millis
  validate_agent_operation (watch_workspace_changes repositories millis) =
      refuse_if (length repositories == 0 || ltb 1024 (length repositories))
        (codes "remote workspace watcher must include 1..=1024 repositories")
      >> validate_watched none [] repositories
      >> interval millis
  validate_agent_operation (cancel request_id) =
      validate_identifier request_id (codes "cancel request id")

  -- The operations that need no review.
  abbrev pub is_control : AgentOperation → Bool
  is_control (handshake versions) = true
  is_control ping = true
  is_control (configure_managed_forward_relay endpoint token_hex session_id) = true
  is_control _ = false

  -- `AgentRequest::validate`.
  unfoldable pub validate_agent_request : AgentRequest → Checked
  unfolding validate_agent_operation
  validate_agent_request request =
      validate_identifier request.id (codes "agent request id")
      >> refuse_if (request.generation == 0 && not (is_control request.operation))
          (codes "review operations require a non-zero generation")
      >> validate_agent_operation request.operation
