-- ===== src/Protocol/Agent/Types.antt =====
-- crates/protocol/src/agent.rs: the messages between the desktop and a companion.
use localreview.Prelude.{ℕ, Bool, List, [], ◌∷◌, Option}
use localreview.Prelude.Text.{Bytes}

pub data AgentCapability : Type 0 where
  repository_discovery comparison_capture source_windows change_notifications cancellation :
      AgentCapability
  zstd_compression reverse_forwarding : AgentCapability

pub record AgentHello : Type 0 where
  pub protocol_versions : List ℕ
  pub agent_version : Bytes
  pub capabilities : List AgentCapability
  pub platform : Bytes
  pub architecture : Bytes

-- `AgentHello::current`.
unfoldable pub current : Bytes → Bytes → Bytes → AgentHello
current agent_version platform architecture = record {
  protocol_versions = 5 ∷ [];
  agent_version = agent_version;
  capabilities =
      repository_discovery ∷ comparison_capture ∷ source_windows ∷ change_notifications
      ∷ cancellation ∷ zstd_compression ∷ reverse_forwarding ∷ [];
  platform = platform;
  architecture = architecture;
}

pub record RemoteRepositoryRef : Type 0 where
  pub workspace_root : Bytes
  pub relative_path : Bytes

pub data RemoteHead : Type 0 where
  branch detached : (name : Bytes) → RemoteHead
  unborn : RemoteHead

pub record RemoteRepository : Type 0 where
  pub reference : RemoteRepositoryRef
  pub canonical_worktree : Bytes
  pub git_common_dir : Option Bytes
  pub primary_remote : Option Bytes
  pub head : RemoteHead

pub record RemoteComparisonOptions : Type 0 where
  pub ignore_all_whitespace : Bool
  pub ignore_space_at_eol : Bool
  pub ignore_cr_at_eol : Bool
  pub path_filters : List Bytes

pub data RemoteChangeLayer : Type 0 where
  committed staged unstaged untracked : RemoteChangeLayer

pub data RemoteFileStatus : Type 0 where
  added modified deleted renamed copied mode_changed type_changed submodule untracked :
      RemoteFileStatus

pub record RemoteCapturedFile : Type 0 where
  pub path : Bytes
  pub old_path : Option Bytes
  pub status : RemoteFileStatus
  pub similarity_percent : Option ℕ
  pub old_mode : ℕ
  pub new_mode : ℕ
  pub old_object_id : Option Bytes
  pub new_object_id : Option Bytes
  pub is_untracked : Bool
  pub binary : Bool
  pub lfs_pointer : Bool
  pub captured_byte_len : Option ℕ
  pub layers : List RemoteChangeLayer

pub record RemoteLayerSummary : Type 0 where
  pub changed_files : ℕ

pub record RemoteComparisonCapture : Type 0 where
  pub capture_id : Bytes
  pub generation : ℕ
  pub repository : RemoteRepositoryRef
  pub requested_base : Bytes
  pub base_tip_sha : Bytes
  pub merge_base_sha : Bytes
  pub head_sha : Option Bytes
  pub head : RemoteHead
  pub committed_summary : RemoteLayerSummary
  pub staged_summary : RemoteLayerSummary
  pub unstaged_summary : RemoteLayerSummary
  pub untracked_summary : RemoteLayerSummary
  pub files : List RemoteCapturedFile

pub data RemoteSourceRevision : Type 0 where
  worktree head merge_base : RemoteSourceRevision

pub record RemoteSourceWindow : Type 0 where
  pub capture_id : Bytes
  pub capture_generation : ℕ
  pub repository : RemoteRepositoryRef
  pub path : Bytes
  pub revision : RemoteSourceRevision
  pub start_line : ℕ
  pub total_lines : ℕ
  pub byte_len : ℕ
  pub content_sha256_hex : Bytes
  pub bytes : Bytes
  pub end_of_file : Bool

pub data AgentOperation : Type 0 where
  handshake : (desktop_versions : List ℕ) → AgentOperation
  ping : AgentOperation
  configure_managed_forward_relay : (endpoint token_hex session_id : Bytes) → AgentOperation
  discover_repositories : (root : Bytes) (max_depth : ℕ) → AgentOperation
  capture_comparison :
      (repository : RemoteRepositoryRef) (base : Bytes) (options : RemoteComparisonOptions)
      → AgentOperation
  read_source_window :
      (capture_id : Bytes) (capture_generation : ℕ) (repository : RemoteRepositoryRef)
      (path : Bytes) (revision : RemoteSourceRevision) (start_line line_count : ℕ)
      → AgentOperation
  watch_repository_changes :
      (repository : RemoteRepositoryRef) (poll_interval_millis : ℕ) → AgentOperation
  watch_workspace_changes :
      (repositories : List RemoteRepositoryRef) (poll_interval_millis : ℕ) → AgentOperation
  cancel : (request_id : Bytes) → AgentOperation

pub record AgentRequest : Type 0 where
  pub id : Bytes
  pub generation : ℕ
  pub operation : AgentOperation

pub data AgentErrorCode : Type 0 where
  invalid_request unsupported_version not_found path_denied git_failed binary_content
        stale_capture :
      AgentErrorCode
  stale_generation too_large cancelled timed_out unavailable internal : AgentErrorCode

pub data AgentErrorScope : Type 0 where
  request : AgentErrorScope
  workspace_root : (root : Bytes) → AgentErrorScope
  repository : (reference : RemoteRepositoryRef) → AgentErrorScope
  source_path : (reference : RemoteRepositoryRef) (path : Bytes) → AgentErrorScope

pub record AgentError : Type 0 where
  pub code : AgentErrorCode
  pub scope : AgentErrorScope
  pub message : Bytes
  pub retryable : Bool

-- `AgentError::request`.
unfoldable pub request_error : AgentErrorCode → Bytes → Bool → AgentError
request_error code message retryable = record {
  code = code;
  scope = AgentErrorScope.request;
  message = message;
  retryable = retryable;
}

pub data AgentResult : Type 0 where
  handshaken : (selected_version : ℕ) (hello : AgentHello) → AgentResult
  pong managed_forward_relay_configured watching cancelled : AgentResult
  repositories_found : (repositories : List RemoteRepository) → AgentResult
  captured : (capture : RemoteComparisonCapture) → AgentResult
  source_window : (window : RemoteSourceWindow) → AgentResult
  cancel_accepted : (request_id : Bytes) → AgentResult
  failed : (error : AgentError) → AgentResult

pub record AgentResponse : Type 0 where
  pub id : Bytes
  pub generation : ℕ
  pub result : AgentResult

pub data AgentProgressPhase : Type 0 where
  validating discovering resolving_base capturing reading_source : AgentProgressPhase
  watching_changes complete : AgentProgressPhase

pub record AgentProgress : Type 0 where
  pub id : Bytes
  pub generation : ℕ
  pub phase : AgentProgressPhase
  pub completed : ℕ
  pub total : Option ℕ

pub data AgentNotification : Type 0 where
  filesystem_changes_available :
      (reference : RemoteRepositoryRef) (generation : ℕ) → AgentNotification
  connection_status : (connected : Bool) (detail : Bytes) → AgentNotification

pub data AgentMessage : Type 0 where
  asks : AgentRequest → AgentMessage
  answers : AgentResponse → AgentMessage
  progresses : AgentProgress → AgentMessage
  notifies : AgentNotification → AgentMessage
