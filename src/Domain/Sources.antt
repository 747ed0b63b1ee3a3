-- ===== src/Domain/Sources.antt =====
-- crates/domain/src/lib.rs, `WorkspaceSource`: where a workspace comes from.
use localreview.Prelude.{ℕ, List, [], ◌∷◌}
use localreview.Prelude.Text.{Bytes}

pub data WorkspaceSource : Type 0 where
  local_directory : (root : Bytes) → WorkspaceSource
  pull_request : (url owner repository : Bytes) (number : ℕ) (worktree : Bytes) → WorkspaceSource
  remote_directory : (host root : Bytes) → WorkspaceSource
  remote_pull_request :
      (host url owner repository : Bytes) (number : ℕ) (root : Bytes) → WorkspaceSource

pub data WorkspaceSourceTag : Type 0 where
  git_hub local ssh : WorkspaceSourceTag

unfoldable pub tags : WorkspaceSource → List WorkspaceSourceTag
tags (local_directory r) = local ∷ []
tags (pull_request u o p n w) = git_hub ∷ []
tags (remote_directory h r) = ssh ∷ []
tags (remote_pull_request h u o p n r) = git_hub ∷ ssh ∷ []

unfoldable pub root : WorkspaceSource → Bytes
root (local_directory r) = r
root (pull_request u o p n w) = w
root (remote_directory h r) = r
root (remote_pull_request h u o p n r) = r
