-- ===== src/Domain/References/Plain.antt =====
-- crates/domain/src/lib.rs, `BaseReference::new`: the texts that it accepts.
use localreview.Prelude.{
  ℕ, ◌≤◌, ◌≡◌, ◌≢◌, refl, ◌∙◌, Bool, true, false, ◌||◌, [], ◌∷◌, ◌++◌, All, length, append-nil,
  append_assoc, arith, ltb, ◌==◌,
}
use localreview.Prelude.Text.{Bytes, codes, starts_with, ends_with, contains, contains_byte}
use localreview.Prelude.Words.{
  between, whitespace_len, split_words, split_whitespace, emit, is_blank, has_whitespace,
}
use localreview.Prelude.Result.{ok}
use localreview.Domain.References.{is_revision_operator, any_byte, is_refused, base_reference}

starts_with-append : (p b : Bytes) → starts_with p (p ++ b) ≡ true
starts_with-append [] b = refl
starts_with-append (c ∷ p) b = ground (arith, starts_with-append p b)

contains-append : (p a b : Bytes) → contains p (a ++ (p ++ b)) ≡ true
contains-append p [] b = contains_head (p ++ b) (starts_with-append p b)
  where
    contains_head : (s : Bytes) → starts_with p s ≡ true → contains p s ≡ true
    contains_head [] h = h
    contains_head (c ∷ s) h = rw h
contains-append p (c ∷ a) b = ground (arith, contains-append p a b)

-- A text with no such byte.
abbrev Without : (ℕ → Bool) → Bytes → Type 0
Without test = All (λ c. test c ≡ false)

any_byte-Without : (test : ℕ → Bool) (s : Bytes) → any_byte test s ≡ false → Without test s
any_byte-Without test [] h = tt
any_byte-Without test (c ∷ s) h = (ground arith, any_byte-Without test s (ground arith))

-- One byte of white space is white space wherever it stands.
abbrev is_space : ℕ → Bool
is_space c = between 9 13 c || c == 32

has_whitespace-Without : (s : Bytes) → has_whitespace s ≡ false → Without is_space s
unfolding has_whitespace whitespace_len
has_whitespace-Without [] h = tt
has_whitespace-Without (c ∷ s) h = (ground arith, has_whitespace-Without s (ground arith))

-- What is known of an accepted text.
pub record IsPlain (value reference : Bytes) : Type 0 where
  pub unchanged : reference ≡ value
  pub nonempty : value ≢ []
  pub short : length value ≤ 512
  pub no_option : (s : Bytes) → value ≢ b'-' ∷ s
  pub no_range : (a b : Bytes) → value ≢ a ++ (codes ".." ++ b)
  pub no_reflog : (a b : Bytes) → value ≢ a ++ (codes "@{" ++ b)
  pub no_operator : Without is_revision_operator value
  pub no_space : Without is_space value

-- The tests that an accepted text passes.
passed :
    (value reference : Bytes)
    → base_reference value ≡ ok reference
    → (reference ≡ value)
      × (is_blank value ≡ false)
      × (ltb 512 (length value) ≡ false)
      × (starts_with (codes "-") value ≡ false)
      × (contains (codes "..") value ≡ false)
      × (contains (codes "@{") value ≡ false)
      × (has_whitespace value ≡ false)
      × (any_byte is_revision_operator value ≡ false)
unfolding base_reference
passed value reference h = ground arith

not-contains : (p value : Bytes) → contains p value ≡ false → (a b : Bytes) → value ≢ a ++ (p ++ b)
not-contains p value h a b e =
    let held : contains p value ≡ true = rw e (contains-append p a b) in ground arith

nonblank : (v : Bytes) → is_blank v ≡ false → v ≡ [] → ⊥
unfolding is_blank
nonblank [] b e = cc
nonblank (c ∷ v) b e = cc

-- A base reference that is accepted is the given text, not empty, of 512 bytes at most; it is no
-- option (no leading `-`), holds no `..` and no `@{` anywhere, and none of `~^:\?*[` nor white space.
pub base_reference-IsPlain :
    (value reference : Bytes) → base_reference value ≡ ok reference → IsPlain value reference
base_reference-IsPlain value reference h =
    let (same, blank, short, option, range, reflog, space, operator) = passed value reference h in
    record {
      unchanged = same;
      nonempty = λ e. nonblank value blank e;
      short = ground arith;
      no_option = λ s e. dashed value s option e;
      no_range = not-contains (codes "..") value range;
      no_reflog = not-contains (codes "@{") value reflog;
      no_operator = any_byte-Without is_revision_operator value operator;
      no_space = has_whitespace-Without value space;
    }
  where
    dashed : (v s : Bytes) → starts_with (codes "-") v ≡ false → v ≡ b'-' ∷ s → ⊥
    dashed [] s d e = ground arith
    dashed (c ∷ v) s d e = ground arith

-- Letters, digits, `/`, `_` and `-`.
abbrev pub is_name_byte : ℕ → Bool
is_name_byte c =
    between b'a' b'z' c
    || between b'A' b'Z' c
    || between b'0' b'9' c
    || c == b'/'
    || c == b'_'
    || c == b'-'

abbrev pub Named : Bytes → Type 0
Named = All (λ c. is_name_byte c ≡ true)

whitespace_len_name : (c : ℕ) (s : Bytes) → is_name_byte c ≡ true → whitespace_len (c ∷ s) ≡ 0
unfolding whitespace_len
whitespace_len_name c s h = ground arith

split_words_name : (word s : Bytes) → Named s → split_words 0 word s ≡ emit (word ++ s) []
unfolding split_words
split_words_name word [] h = rw append-nil
split_words_name word (c ∷ s) h =
    rw (whitespace_len_name c s h.0, split_words)
      (split_words_name (word ++ c ∷ []) s h.1 ∙ rw append_assoc)

-- A name byte is none of those that the tests look for.
name_byte :
    (c : ℕ)
    → is_name_byte c ≡ true
    → (is_revision_operator c ≡ false)
      × ((c == 0) ≡ false)
      × ((b'.' == c) ≡ false)
      × ((b'@' == c) ≡ false)
      × ((c == b'.') ≡ false)
name_byte c h = ground arith

module _ (test : ℕ → Bool) (apart : (c : ℕ) → is_name_byte c ≡ true → test c ≡ false) where
  any_byte_name : (s : Bytes) → Named s → any_byte test s ≡ false
  any_byte_name [] h = refl
  any_byte_name (c ∷ s) h = rw (apart c h.0) (any_byte_name s h.1)

contains_byte_name : (s : Bytes) → Named s → contains_byte 0 s ≡ false
contains_byte_name [] h = refl
contains_byte_name (c ∷ s) h = rw ((name_byte c h.0).1) (contains_byte_name s h.1)

contains_range_name : (s : Bytes) → Named s → contains (codes "..") s ≡ false
contains_range_name [] h = refl
contains_range_name (c ∷ s) h = rw ((name_byte c h.0).2) (contains_range_name s h.1)

contains_reflog_name : (s : Bytes) → Named s → contains (codes "@{") s ≡ false
contains_reflog_name [] h = refl
contains_reflog_name (c ∷ s) h = rw ((name_byte c h.0).3) (contains_reflog_name s h.1)

ends_with_name : (s : Bytes) → Named s → ends_with b'.' s ≡ false
ends_with_name [] h = refl
ends_with_name (c ∷ []) h = (name_byte c h.0).4
ends_with_name (c ∷ d ∷ s) h = ends_with_name (d ∷ s) h.1

has_whitespace_name : (s : Bytes) → Named s → has_whitespace s ≡ false
unfolding has_whitespace
has_whitespace_name [] h = refl
has_whitespace_name (c ∷ s) h = rw (whitespace_len_name c s h.0) (has_whitespace_name s h.1)

is_blank_name : (c : ℕ) (s : Bytes) → Named (c ∷ s) → is_blank (c ∷ s) ≡ false
unfolding is_blank split_whitespace
is_blank_name c s h = rw (is_blank, split_whitespace, split_words_name [] (c ∷ s) h)

-- Every name of letters, digits, `/`, `_` and `-` that does not begin with `-` and is 1 to 512 bytes
-- long is accepted as it is.
pub base_reference_names :
    (c : ℕ) (s : Bytes)
    → Named (c ∷ s)
    → c ≢ b'-'
    → length (c ∷ s) ≤ 512
    → base_reference (c ∷ s) ≡ ok (c ∷ s)
unfolding base_reference
base_reference_names c s h dash short =
    let head : (b'-' == c) ≡ false = ground arith in
    let fits : ltb 512 (length (c ∷ s)) ≡ false = ground arith in
    rw (
      is_refused,
      is_blank_name c s h,
      fits,
      head,
      contains_byte_name (c ∷ s) h,
      contains_range_name (c ∷ s) h,
      ends_with_name (c ∷ s) h,
      contains_reflog_name (c ∷ s) h,
      has_whitespace_name (c ∷ s) h,
      any_byte_name is_revision_operator (λ d k. (name_byte d k).0) (c ∷ s) h,
    )
