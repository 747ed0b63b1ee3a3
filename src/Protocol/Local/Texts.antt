-- ===== src/Protocol/Local/Texts.antt =====
-- crates/protocol/src/local.rs: what the texts of a command may be.
use localreview.Prelude.{
  ℕ, Bool, false, ◌&&◌, ◌||◌, not, List, [], ◌∷◌, ◌++◌, none, some, length, ltb, ◌==◌,
  if◌then◌else◌,
}
use localreview.Prelude.Text.{
  Bytes, codes, same, starts_with, ends_with, contains, contains_byte, strip_prefix, decimal,
}
use localreview.Prelude.Words.{between, trim, trim_end_matches, is_positive_u64, split_once}
use localreview.Prelude.Lines.{attach}
use localreview.Prelude.Result.{Result, ok, err, ◌>>◌}
use localreview.Domain.References.{any_byte, all_bytes}
use localreview.Domain.Paths.{split_slashes}
use localreview.Protocol.Errors.{ProtocolError, invalid_input}

-- The result of a validation.
abbrev pub Checked : Type 0
Checked = Result ProtocolError (Unit {0})

-- An early return with a message.
abbrev pub refuse_if : Bool → Bytes → Checked
refuse_if bad message = if bad then err (invalid_input message) else ok tt

unfoldable pub validate_text : Bytes → Bytes → ℕ → Checked
validate_text value label max_bytes =
    refuse_if (same value []) (label ++ codes " cannot be empty")
    >> refuse_if (ltb max_bytes (length value))
        (label ++ codes " exceeds " ++ decimal max_bytes ++ codes " bytes")
    >> refuse_if (contains_byte 0 value) (label ++ codes " contains NUL")

-- `is_ascii_alphanumeric()`, `-`, `_` or `.`.
abbrev pub is_identifier_byte : ℕ → Bool
is_identifier_byte c =
    between b'0' b'9' c
    || between b'A' b'Z' c
    || between b'a' b'z' c
    || c == b'-'
    || c == b'_'
    || c == b'.'

unfoldable pub validate_identifier : Bytes → Bytes → Checked
unfolding validate_text
validate_identifier value label =
    validate_text value label 128
    >> refuse_if (not (all_bytes is_identifier_byte value))
        (label ++ codes " contains unsupported characters")

unfoldable pub validate_path : Bytes → Bytes → Checked
unfolding validate_text
validate_path value label =
    validate_text value label 4096
    >> refuse_if (contains_byte 0 value) (label ++ codes " contains NUL")

-- The pieces of `split` at one byte.
abbrev pub split_at : ℕ → Bytes → List Bytes
split_at b [] = [] ∷ []
split_at b (c ∷ s) = let rest = split_at b s in if c == b then [] ∷ rest else attach c rest

abbrev pub any_parent : List Bytes → Bool
any_parent [] = false
any_parent (segment ∷ segments) = same segment (codes "..") || any_parent segments

unfoldable pub validate_relative_path : Bytes → Checked
unfolding validate_path
validate_relative_path value =
    validate_path value (codes "repository relative path")
    >> refuse_if
        (starts_with (codes "/") value
          || same value (codes ".")
          || any_parent (split_slashes value)
          || any_parent (split_at b'\\' value))
        (codes "repository relative path must stay beneath its workspace")

-- The condition under which `validate_ref` calls a text unsafe.
unfoldable pub is_unsafe_ref : Bytes → Bool
is_unsafe_ref value =
    starts_with (codes "-") value
    || contains_byte 0 value
    || contains (codes "..") value
    || ends_with b'.' value
    || contains (codes "@{") value
    || contains_byte b' ' value
    || contains_byte b'~' value
    || contains_byte b'^' value
    || contains_byte b':' value
    || contains_byte b'\\' value
    || contains_byte b'?' value
    || contains_byte b'*' value
    || contains_byte b'[' value

unfoldable pub validate_ref : Bytes → Bytes → Checked
unfolding validate_text is_unsafe_ref
validate_ref value label =
    validate_text value label 512
    >> refuse_if (is_unsafe_ref value) (label ++ codes " is not a safe Git revision")

-- The text in front of the first `?` or `#`.
abbrev pub before_query : Bytes → Bytes
before_query [] = []
before_query (c ∷ s) = let rest = before_query s in if c == b'?' || c == b'#' then [] else c ∷ rest

-- The parts of a path are `<owner>/<repo>/pull/<number>` and whatever follows.
abbrev pub is_pull_path : List Bytes → Bool
is_pull_path (owner ∷ repo ∷ word ∷ number ∷ rest) =
    not (same owner []) && not (same repo []) && same word (codes "pull") && is_positive_u64 number
is_pull_path _ = false

unfoldable pub validate_github_pr_url : Bytes → Checked
unfolding validate_text
validate_github_pr_url value =
    validate_text value (codes "GitHub pull request URL") 2048
    >> (elim (strip_prefix (codes "https://github.com/") (trim value)) [
      | none ↦ err (invalid_input (codes "pull request URL must use https://github.com"))
      | some rest ↦
          refuse_if (not (is_pull_path (split_slashes (trim_end_matches b'/' (before_query rest)))))
            (codes "pull request URL must be github.com/<owner>/<repo>/pull/<number>")
    ])

-- `is_ascii_whitespace()`, NUL, `/`, `;`, `|` or `&`.
abbrev pub is_host_breaker : ℕ → Bool
is_host_breaker c =
    (c == 9 || c == 10 || c == 12 || c == 13 || c == 32)
    || c == 0
    || c == b'/'
    || c == b';'
    || c == b'|'
    || c == b'&'

-- The condition under which the two parts of a target are refused.
abbrev pub is_unsafe_target : Bytes → Bytes → Bool
is_unsafe_target host path =
    same host []
    || ltb (length path) 2
    || not (starts_with (codes "/") path)
    || any_byte is_host_breaker host

unfoldable pub validate_ssh_target : Bytes → Checked
unfolding validate_text
validate_ssh_target value =
    validate_text value (codes "SSH workspace target") 4096
    >> (elim (split_once (codes ":") value) [
      | none ↦ err (invalid_input (codes "SSH target must be host:/absolute/path"))
      | some (host, path) ↦
          refuse_if (is_unsafe_target host path)
            (codes "SSH target must be a safe host:/absolute/path value")
    ])
