-- ===== src/Protocol/Local/Validate.antt =====
-- crates/protocol/src/local.rs: `validate` of the commands and `validate_shape` of a request.
use localreview.Prelude.{
  ℕ, Bool, true, false, ◌&&◌, ◌||◌, not, List, [], ◌∷◌, Option, none, some, length, ltb, ◌==◌,
  if◌then◌else◌,
}
use localreview.Prelude.Text.{Bytes, codes, same}
use localreview.Prelude.Result.{ok, err, ◌>>◌}
use localreview.Protocol.Errors.{unsupported_version}
use localreview.Protocol.Local.Commands.{
  RepositoryBaseOverride, ProgrammaticRepositoryBase, ProgrammaticAnnotation, ProgrammaticOperation,
  LocalCommand, LocalRequest, show_workspace, list_archived_workspaces, reopen_archived_workspace,
  load_review, review_files, list_annotations, review_rows, review_hunks, repository_setup,
  configure_baselines, set_repository_inclusion, start_review, refresh_review, add_annotation,
  delete_annotation, set_annotation_state, mark_file_viewed, query_symbols, generate_prompt,
  review_history, archive_workspace, delete_workspace, github_inspect, github_preview_review,
  github_submit_review, ssh_status, effective_settings, open_workspace, focus_workspace,
  open_pull_request, open_ssh_workspace, list_workspaces, doctor, programmatic,
}
use localreview.Protocol.Local.Texts.{
  Checked, refuse_if, validate_text, validate_identifier, validate_path, validate_relative_path,
  validate_ref, validate_github_pr_url, validate_ssh_target,
}

-- `PROTOCOL_VERSION`.
abbrev pub protocol_version : ℕ
protocol_version = 5

-- A check of a field that may be absent.
abbrev pub if_present : (Bytes → Checked) → Option Bytes → Checked
if_present check none = ok tt
if_present check (some value) = check value

-- A loop that returns at the first value that is refused.
abbrev pub for_each {ℓ} : {A : Type ℓ} → (A → Checked) → List A → Checked
for_each check [] = ok tt
for_each check (x ∷ xs) = check x >> for_each check xs

abbrev pub one_of : List Bytes → Bytes → Bool
one_of [] value = false
one_of (choice ∷ choices) value = same value choice || one_of choices value

abbrev workspace : Bytes → Checked
workspace value = validate_identifier value (codes "workspace id")

abbrev repository : Bytes → Checked
repository value = validate_identifier value (codes "repository id")

abbrev file : Bytes → Checked
file value = validate_identifier value (codes "file id")

abbrev annotation_id_check : Bytes → Checked
annotation_id_check value = validate_identifier value (codes "annotation id")

abbrev is_none : Option Bytes → Bool
is_none none = true
is_none (some value) = false

-- One repository of `ConfigureBaselines`.
unfoldable pub validate_repository_base : ProgrammaticRepositoryBase → Checked
validate_repository_base item =
    if_present repository item.repository_id
    >> if_present validate_relative_path item.relative_path
    >> refuse_if (is_none item.repository_id && is_none item.relative_path)
        (codes "repository base requires repositoryId or relativePath")
    >> if_present (λ base. validate_ref base (codes "repository base")) item.base

-- `AddAnnotation`.
unfoldable pub validate_annotation : Bytes → ProgrammaticAnnotation → Checked
validate_annotation workspace_id annotation =
    workspace workspace_id
    >> file annotation.file_id
    >> validate_text annotation.kind (codes "annotation kind") 32
    >> validate_text annotation.side (codes "annotation side") 8
    >> validate_text annotation.body (codes "annotation body") 1048576
    >> refuse_if (ltb 100 (length annotation.labels))
        (codes "annotation may contain at most 100 labels")
    >> for_each (λ label. validate_text label (codes "annotation label") 128) annotation.labels
    >> if_present annotation_id_check annotation.id

abbrev limit_refused : Option ℕ → Bool
limit_refused none = false
limit_refused (some limit) = limit == 0 || ltb 500 limit

-- `ProgrammaticOperation::validate`.
unfoldable pub validate_operation : ProgrammaticOperation → Checked
validate_operation (show_workspace selector) =
    validate_text selector (codes "workspace selector") 256
validate_operation list_archived_workspaces = ok tt
validate_operation (reopen_archived_workspace workspace_id) = workspace workspace_id
validate_operation (load_review workspace_id) = workspace workspace_id
validate_operation (review_files workspace_id) = workspace workspace_id
validate_operation (list_annotations workspace_id) = workspace workspace_id
validate_operation (review_rows file_id mode) =
    file file_id
    >> refuse_if
        (not
          (one_of (codes "unified" ∷ codes "split" ∷ codes "full" ∷ codes "difftastic" ∷ []) mode))
        (codes "diff mode must be unified, split, full, or difftastic")
validate_operation (review_hunks file_id) = file file_id
validate_operation (repository_setup workspace_id) = workspace workspace_id
validate_operation (configure_baselines workspace_id default_base repository_bases) =
    workspace workspace_id
    >> if_present (λ base. validate_ref base (codes "default base")) default_base
    >> refuse_if (ltb 10000 (length repository_bases)) (codes "too many repository base overrides")
    >> for_each validate_repository_base repository_bases
validate_operation (set_repository_inclusion workspace_id repository_ids enabled) =
    workspace workspace_id
    >> refuse_if (length repository_ids == 0 || ltb 10000 (length repository_ids))
        (codes "repositoryIds must contain between 1 and 10000 values")
    >> for_each repository repository_ids
validate_operation (start_review workspace_id fetch) = workspace workspace_id
validate_operation (refresh_review workspace_id fetch) = workspace workspace_id
validate_operation (add_annotation workspace_id annotation) =
    validate_annotation workspace_id annotation
validate_operation (delete_annotation workspace_id annotation_id) =
    workspace workspace_id >> annotation_id_check annotation_id
validate_operation (set_annotation_state workspace_id annotation_id state) =
    workspace workspace_id
    >> annotation_id_check annotation_id
    >> refuse_if (not (one_of (codes "open" ∷ codes "resolved" ∷ []) state))
        (codes "annotation state must be open or resolved")
validate_operation (mark_file_viewed workspace_id file_id viewed) =
    workspace workspace_id >> file file_id
validate_operation (query_symbols workspace_id repository_id symbol kind limit) =
    workspace workspace_id
    >> repository repository_id
    >> validate_text symbol (codes "symbol") 256
    >> refuse_if (not (one_of (codes "all" ∷ codes "definitions" ∷ codes "references" ∷ []) kind))
        (codes "symbol kind must be all, definitions, or references")
    >> refuse_if (limit_refused limit) (codes "symbol limit must be between 1 and 500")
validate_operation
      (generate_prompt workspace_id scope annotation_ids path_style hunks git_state history_id) =
    workspace workspace_id
    >> validate_text scope (codes "prompt scope") 64
    >> refuse_if (ltb 10000 (length annotation_ids)) (codes "too many annotation ids")
    >> for_each annotation_id_check annotation_ids
    >> if_present
        (λ style.
          refuse_if
            (not (one_of (codes "portable" ∷ codes "qualified" ∷ codes "absolute" ∷ []) style))
            (codes "path style must be portable, qualified, or absolute"))
        path_style
    >> if_present (λ id. validate_text id (codes "history id") 256) history_id
validate_operation (review_history workspace_id) = workspace workspace_id
validate_operation (archive_workspace workspace_id confirmation) = workspace workspace_id
validate_operation (delete_workspace workspace_id confirmation) = workspace workspace_id
validate_operation (github_inspect workspace_id) = workspace workspace_id
validate_operation (github_preview_review workspace_id annotation_ids summary conclusion) =
    workspace workspace_id
    >> validate_text summary (codes "review summary") 100000
    >> refuse_if
        (not (one_of (codes "comment" ∷ codes "approve" ∷ codes "request_changes" ∷ []) conclusion))
        (codes "conclusion must be comment, approve, or request_changes")
    >> for_each annotation_id_check annotation_ids
validate_operation (github_submit_review workspace_id preview_token confirm) =
    workspace workspace_id
validate_operation (ssh_status workspace_id reconnect) = workspace workspace_id
validate_operation (effective_settings workspace_id) = workspace workspace_id

unfoldable pub validate_override : RepositoryBaseOverride → Checked
validate_override override =
    validate_relative_path override.relative_path
    >> validate_ref override.base (codes "repository base reference")

-- `LocalCommand::validate`.
unfoldable pub validate_command : LocalCommand → Checked
unfolding validate_override validate_operation
validate_command (open_workspace path base repository_bases) =
    validate_path path (codes "workspace path")
    >> if_present (λ base'. validate_ref base' (codes "base reference")) base
    >> for_each validate_override repository_bases
validate_command (focus_workspace selector) =
    validate_text selector (codes "workspace selector") 256
validate_command (open_pull_request url) = validate_github_pr_url url
validate_command (open_ssh_workspace target) = validate_ssh_target target
validate_command (programmatic command) = validate_operation command
validate_command list_workspaces = ok tt
validate_command doctor = ok tt

-- `LocalRequest::validate_shape`.
unfoldable pub validate_shape : LocalRequest → Checked
unfolding validate_command
validate_shape request =
    if request.version == protocol_version
    then validate_identifier request.request_id (codes "request id")
      >> validate_command request.command
    else err (unsupported_version request.version protocol_version)
