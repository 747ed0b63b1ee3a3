-- ===== src/Domain/References.antt =====
-- crates/domain/src/lib.rs, `BaseReference` and `GitSha`. Both wrap their text.
pub mod Plain
pub mod Sha
use localreview.Prelude.{
  ℕ, ◌+◌, ◌≡◌, refl, Bool, true, false, ◌&&◌, ◌||◌, not, List, [], ◌∷◌, map, length, ltb, leb, ◌==◌,
  if◌then◌else◌,
}
use localreview.Prelude.Text.{Bytes, codes, starts_with, ends_with, contains, contains_byte}
use localreview.Prelude.Words.{between, is_blank, has_whitespace}
use localreview.Prelude.Result.{Result, ok, err}
use localreview.Domain.Errors.{DomainError, invalid_base_reference, invalid_git_sha}

abbrev pub BaseReference : Type 0
BaseReference = Bytes

-- `'~' | '^' | ':' | '\\' | '?' | '*' | '['`.
abbrev pub is_revision_operator : ℕ → Bool
is_revision_operator c =
    c == b'~' || c == b'^' || c == b':' || c == b'\\' || c == b'?' || c == b'*' || c == b'['

abbrev pub any_byte : (ℕ → Bool) → Bytes → Bool
any_byte test [] = false
any_byte test (c ∷ s) = test c || any_byte test s

abbrev pub all_bytes : (ℕ → Bool) → Bytes → Bool
all_bytes test [] = true
all_bytes test (c ∷ s) = test c && all_bytes test s

-- The condition under which `BaseReference::new` refuses a text.
unfoldable pub is_refused : Bytes → Bool
is_refused value =
    is_blank value
    || ltb 512 (length value)
    || starts_with (codes "-") value
    || contains_byte 0 value
    || contains (codes "..") value
    || ends_with b'.' value
    || contains (codes "@{") value
    || (has_whitespace value || any_byte is_revision_operator value)

-- `BaseReference::new`.
unfoldable pub base_reference : Bytes → Result DomainError BaseReference
unfolding is_refused
base_reference value = if is_refused value then err invalid_base_reference else ok value

-- `BaseReference::DEFAULT`.
abbrev pub default_reference : BaseReference
default_reference = codes "origin/master"

default_is_accepted : base_reference default_reference ≡ ok default_reference
unfolding base_reference is_blank has_whitespace
default_is_accepted = refl

abbrev pub is_hex_digit : ℕ → Bool
is_hex_digit c = between 48 57 c || between b'A' b'F' c || between b'a' b'f' c

-- `to_ascii_lowercase` of one byte.
abbrev pub lowercase : ℕ → ℕ
lowercase c = if between b'A' b'Z' c then c + 32 else c

abbrev pub GitSha : Type 0
GitSha = Bytes

-- `GitSha::new`.
unfoldable pub git_sha : Bytes → Result DomainError GitSha
git_sha value =
    if between 7 64 (length value) && all_bytes is_hex_digit value
    then ok (map lowercase value)
    else err invalid_git_sha
