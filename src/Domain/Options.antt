-- ===== src/Domain/Options.antt =====
-- crates/domain/src/lib.rs, `ComparisonOptions` and the classification of a review file.
use localreview.Prelude.{
  ℕ, ◌≤◌, ◌≡◌, ◌↔◌, refl, ap, Bool, true, false, ◌||◌, not, List, [], ◌∷◌, ◌++◌, All, arith, length,
  ltb, if◌then◌else◌, Bool-cases, inl, inr,
}
use localreview.Prelude.Text.{Bytes}
use localreview.Prelude.Result.{Result, ok, err, err-ne-ok}
use localreview.Domain.Errors.{
  DomainError, invalid_comparison_path_filter, too_many_comparison_path_filters,
}
use localreview.Domain.Paths.{is_safe_repository_relative_path}

pub record ComparisonOptions : Type 0 where
  pub ignore_all_whitespace : Bool
  pub ignore_space_at_eol : Bool
  pub ignore_cr_at_eol : Bool
  pub path_filters : List Bytes

abbrev pub max_path_filters : ℕ
max_path_filters = 2048

pub data WhitespaceComparisonMode : Type 0 where
  exact ignore_all ignore_space_at_eol_mode : WhitespaceComparisonMode

pub data LineEndingComparisonMode : Type 0 where
  respect ignore_carriage_return_at_eol : LineEndingComparisonMode

-- The loop over the filters: the first that is not safe is the error.
unfoldable pub check_filters : List Bytes → Result DomainError (Unit {0})
check_filters [] = ok tt
check_filters (path ∷ paths) =
    let rest = check_filters paths in
    if not (is_safe_repository_relative_path path)
    then err (invalid_comparison_path_filter path)
    else rest

unfoldable pub validate : ComparisonOptions → Result DomainError (Unit {0})
unfolding check_filters
validate options =
    if ltb max_path_filters (length options.path_filters)
    then err (too_many_comparison_path_filters max_path_filters)
    else check_filters options.path_filters

unfoldable pub whitespace_mode : ComparisonOptions → WhitespaceComparisonMode
whitespace_mode options =
    if options.ignore_all_whitespace
    then ignore_all
    else if options.ignore_space_at_eol
    then ignore_space_at_eol_mode
    else exact

unfoldable pub line_ending_mode : ComparisonOptions → LineEndingComparisonMode
line_ending_mode options =
    if options.ignore_cr_at_eol then ignore_carriage_return_at_eol else respect

pub record ReviewFileClassification : Type 0 where
  pub generated : Bool
  pub vendored : Bool
  pub lockfile : Bool
  pub binary : Bool
  pub lfs_pointer : Bool
  pub submodule : Bool

unfoldable pub requires_non_text_presentation : ReviewFileClassification → Bool
requires_non_text_presentation c = c.binary || c.lfs_pointer || c.submodule

unfoldable pub has_review_attention_hint : ReviewFileClassification → Bool
unfolding requires_non_text_presentation
has_review_attention_hint c =
    c.generated || c.vendored || c.lockfile || requires_non_text_presentation c

abbrev pub AllSafe : List Bytes → Type 0
AllSafe = All (λ path. is_safe_repository_relative_path path ≡ true)

check_filters-AllSafe : (paths : List Bytes) → check_filters paths ≡ ok tt → AllSafe paths
unfolding check_filters
check_filters-AllSafe [] h = tt
check_filters-AllSafe (path ∷ paths) h = elim (Bool-cases (is_safe_repository_relative_path path)) [
  | inl safe ↦ (safe, check_filters-AllSafe paths (rw (safe, check_filters) at h))
  | inr bad ↦ absurd (err-ne-ok (rw (bad, check_filters) at h))
]

AllSafe-check_filters : (paths : List Bytes) → AllSafe paths → check_filters paths ≡ ok tt
unfolding check_filters
AllSafe-check_filters [] h = refl
AllSafe-check_filters (path ∷ paths) h = rw (h.0, check_filters) (AllSafe-check_filters paths h.1)

-- Options are valid exactly when there are 2048 path filters at most and each is a safe path.
pub validate_iff :
    (options : ComparisonOptions)
    → (validate options ≡ ok tt)
      ↔ ((length options.path_filters ≤ 2048) × AllSafe options.path_filters)
unfolding validate
validate_iff options = (
  λ h. elim (Bool-cases (ltb max_path_filters (length options.path_filters))) [
    | inl many ↦ absurd (err-ne-ok (rw (many, validate) at h))
    | inr few ↦ (ground arith, check_filters-AllSafe options.path_filters (rw (few, validate) at h))
  ],
  λ h.
      let few : ltb max_path_filters (length options.path_filters) ≡ false = ground (arith, h.0) in
      rw (few, validate) (AllSafe-check_filters options.path_filters h.1),
)

-- The path that a refusal names is the first unsafe one: all filters before it are safe.
pub validate-first_unsafe :
    (paths : List Bytes) (path : Bytes)
    → check_filters paths ≡ err (invalid_comparison_path_filter path)
    → (before after : List Bytes) × (paths ≡ before ++ path ∷ after)
      × AllSafe before
      × (is_safe_repository_relative_path path ≡ false)
unfolding check_filters
validate-first_unsafe [] path h = absurd (ok-ne-err h)
  where
    ok-ne-err :
        ◌≡◌ {A = Result DomainError (Unit {0})} (ok tt) (err (invalid_comparison_path_filter path))
        → ⊥
    ok-ne-err e = cc
validate-first_unsafe (p ∷ paths) path h = elim (Bool-cases (is_safe_repository_relative_path p)) [
  | inl safe ↦
      let (before, after, split, all_safe, bad) =
        validate-first_unsafe paths path (rw (safe, check_filters) at h) in
      (p ∷ before, after, ap (◌∷◌ p) split, (safe, all_safe), bad)
  | inr bad ↦ first (rw (bad, check_filters) at h) bad
]
  where
    first :
        ◌≡◌ {A = Result DomainError (Unit {0})}
          (err (invalid_comparison_path_filter p))
          (err (invalid_comparison_path_filter path))
        → is_safe_repository_relative_path p ≡ false
        → (before after : List Bytes) × (p ∷ paths ≡ before ++ path ∷ after)
          × AllSafe before
          × (is_safe_repository_relative_path path ≡ false)
    first e bad =
        let is_p : p ≡ path = cc e in ([], paths, ap (λ q. q ∷ paths) is_p, tt, rw is_p at bad)
