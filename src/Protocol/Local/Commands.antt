-- ===== src/Protocol/Local/Commands.antt =====
-- crates/protocol/src/local.rs: the closed set of commands, with serde's defaults left to the decoder.
use localreview.Prelude.{ℕ, Bool, List, Option}
use localreview.Prelude.Text.{Bytes}

pub record RepositoryBaseOverride : Type 0 where
  pub relative_path : Bytes
  pub base : Bytes

pub record ProgrammaticRepositoryBase : Type 0 where
  pub repository_id : Option Bytes
  pub relative_path : Option Bytes
  pub base : Option Bytes

pub record ProgrammaticAnnotation : Type 0 where
  pub id : Option Bytes
  pub file_id : Bytes
  pub kind : Bytes
  pub side : Bytes
  pub start_line : ℕ
  pub end_line : ℕ
  pub body : Bytes
  pub labels : List Bytes
  pub local_only : Bool

pub data ProgrammaticOperation : Type 0 where
  show_workspace : (selector : Bytes) → ProgrammaticOperation
  list_archived_workspaces : ProgrammaticOperation
  reopen_archived_workspace load_review review_files list_annotations :
      (workspace_id : Bytes) → ProgrammaticOperation
  review_rows : (file_id mode : Bytes) → ProgrammaticOperation
  review_hunks : (file_id : Bytes) → ProgrammaticOperation
  repository_setup : (workspace_id : Bytes) → ProgrammaticOperation
  configure_baselines :
      (workspace_id : Bytes) (default_base : Option Bytes)
      (repository_bases : List ProgrammaticRepositoryBase)
      → ProgrammaticOperation
  set_repository_inclusion :
      (workspace_id : Bytes) (repository_ids : List Bytes) (enabled : Bool) → ProgrammaticOperation
  start_review refresh_review : (workspace_id : Bytes) (fetch : Bool) → ProgrammaticOperation
  add_annotation :
      (workspace_id : Bytes) (annotation : ProgrammaticAnnotation) → ProgrammaticOperation
  delete_annotation : (workspace_id annotation_id : Bytes) → ProgrammaticOperation
  set_annotation_state : (workspace_id annotation_id state : Bytes) → ProgrammaticOperation
  mark_file_viewed : (workspace_id file_id : Bytes) (viewed : Bool) → ProgrammaticOperation
  query_symbols :
      (workspace_id repository_id symbol kind : Bytes) (limit : Option ℕ) → ProgrammaticOperation
  generate_prompt :
      (workspace_id scope : Bytes) (annotation_ids : List Bytes) (path_style : Option Bytes)
      (include_diff_hunks include_git_state : Bool) (history_id : Option Bytes)
      → ProgrammaticOperation
  review_history : (workspace_id : Bytes) → ProgrammaticOperation
  archive_workspace delete_workspace : (workspace_id confirmation : Bytes) → ProgrammaticOperation
  github_inspect : (workspace_id : Bytes) → ProgrammaticOperation
  github_preview_review :
      (workspace_id : Bytes) (annotation_ids : List Bytes) (summary conclusion : Bytes)
      → ProgrammaticOperation
  github_submit_review :
      (workspace_id preview_token : Bytes) (confirm : Bool) → ProgrammaticOperation
  ssh_status : (workspace_id : Bytes) (reconnect : Bool) → ProgrammaticOperation
  effective_settings : (workspace_id : Bytes) → ProgrammaticOperation

pub data LocalCommand : Type 0 where
  open_workspace :
      (path : Bytes) (base : Option Bytes) (repository_bases : List RepositoryBaseOverride)
      → LocalCommand
  focus_workspace : (selector : Bytes) → LocalCommand
  open_pull_request : (url : Bytes) → LocalCommand
  open_ssh_workspace : (target : Bytes) → LocalCommand
  list_workspaces doctor : LocalCommand
  programmatic : (command : ProgrammaticOperation) → LocalCommand

-- `AuthProof` of auth.rs is the text of a proof.
pub record LocalRequest : Type 0 where
  pub version : ℕ
  pub request_id : Bytes
  pub issued_at_unix_secs : ℕ
  pub command : LocalCommand
  pub authentication : Bytes
