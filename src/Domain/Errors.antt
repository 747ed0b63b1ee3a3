-- ===== src/Domain/Errors.antt =====
-- crates/domain/src/lib.rs, `DomainError`.
use localreview.Prelude.{ℕ}
use localreview.Prelude.Text.{Bytes}

pub data DomainError : Type 0 where
  invalid_base_reference invalid_git_sha invalid_line_range : DomainError
  invalid_comparison_path_filter : (path : Bytes) → DomainError
  too_many_comparison_path_filters : (limit : ℕ) → DomainError
