-- ===== src/Git/Command.antt =====
-- crates/git/src/lib.rs: commands, their output, and the form in which remotes are compared.
use localreview.Prelude.{ℕ, Bool, List, [], ◌∷◌, ◌++◌, none, some, map}
use localreview.Prelude.Text.{Bytes, codes, strip_prefix}
use localreview.Prelude.Words.{trim, trim_end_matches, trim_end_text, rsplit_once, split_once}
use localreview.Prelude.Lossy.{from_utf8_lossy}
use localreview.Domain.References.{lowercase}

pub record GitCommand : Type 0 where
  pub working_directory : Bytes
  pub arguments : List Bytes

-- `ExitStatus` is whether it is a success.
pub record GitOutput : Type 0 where
  pub success : Bool
  pub stdout : Bytes
  pub stderr : Bytes

-- The errors of running git; the texts of foreign errors are left out.
pub data GitError : Type 0 where
  spawn : (command : Bytes) → GitError
  command_failed : (command stderr : Bytes) → GitError
  not_a_repository : (path : Bytes) → GitError
  parse_failed : (message : Bytes) → GitError
  file_error : (path : Bytes) → GitError
  unsafe_repository_path : (path : Bytes) → GitError
  invalid_blame_range invalid_commit_context_limit : (limit : ℕ) → GitError
  commit_outside_comparison_range : (commit : Bytes) → GitError
  output_too_large : (operation : Bytes) (limit : ℕ) → GitError
  unborn_head : GitError
  untracked_file_too_large : (path : Bytes) (byte_len limit : ℕ) → GitError
  concurrent_modification : (attempts : ℕ) → GitError

abbrev pub join_words : List Bytes → Bytes
join_words [] = []
join_words (word ∷ []) = word
join_words (word ∷ next ∷ words) = word ++ b' ' ∷ join_words (next ∷ words)

-- `GitCommand::display`.
unfoldable pub display : GitCommand → Bytes
display command =
    codes "git -C " ++ command.working_directory ++ b' ' ∷ join_words command.arguments

unfoldable pub stdout_trimmed : GitOutput → Bytes
unfolding trim
stdout_trimmed output = trim (from_utf8_lossy output.stdout)

unfoldable pub stderr_trimmed : GitOutput → Bytes
unfolding trim
stderr_trimmed output = trim (from_utf8_lossy output.stderr)

-- The text behind `://`, if it begins with `git@` behind that; otherwise the text as it was.
abbrev pub strip_scheme : Bytes → Bytes
strip_scheme without_scheme =
    elim (strip_prefix (codes "git@") (elim (split_once (codes "://") without_scheme) [
      | none ↦ without_scheme
      | some (scheme, rest) ↦ rest
    ])) [ none ↦ without_scheme | some rest ↦ rest ]

abbrev pub behind_user : Bytes → Bytes
behind_user rest = elim (rsplit_once b'@' rest) [ none ↦ rest | some (user, remainder) ↦ remainder ]

abbrev pub colon_to_slash : Bytes → Bytes
colon_to_slash rest = elim (split_once (codes ":") rest) [
  | none ↦ rest
  | some (host, path) ↦ host ++ b'/' ∷ path
]

abbrev pub lower_host : Bytes → Bytes
lower_host normalized = elim (split_once (codes "/") normalized) [
  | none ↦ map lowercase normalized
  | some (host, path) ↦ map lowercase host ++ b'/' ∷ path
]

-- `normalize_remote_url`.
unfoldable pub normalize_remote_url : Bytes → Bytes
unfolding trim trim_end_text split_once
normalize_remote_url raw = lower_host (
    colon_to_slash (
      behind_user (strip_scheme (trim_end_text (codes ".git") (trim_end_matches b'/' (trim raw))))))
