-- ===== src/Service/Previous/Conserved.antt =====
-- crates/service/src/lib.rs, `compare_immutable_review_documents`: how many records it makes, before they
-- are cut to a number of files.
use localreview.Prelude.{
  ℕ, zero, suc, ◌+◌, ◌≡◌, refl, sym, subst, ◌∙◌, Bool, true, false, List, [], ◌∷◌, ◌++◌, Option,
  none, some, length, replicate, set, get_or, get_elem?, length-set, length-replicate,
  if◌then◌else◌, Bool-cases, Option-cases, inl, inr, arith,
}
use localreview.Prelude.Text.{Bytes}
use localreview.Diff.Types.{ReviewDiffDocument}
use localreview.Service.Previous.{
  PreviousReviewFileComparison, comes_before, insert_comparison, sort_comparisons, prior_index,
  addition, pairing, removal, unused_prior, pair_all, removals, compare_all,
}

abbrev is_given : Option ℕ → Bool
is_given none = false
is_given (some id) = true

abbrev pub has_current : PreviousReviewFileComparison → Bool
has_current c = is_given c.current_file_id

abbrev pub has_previous : PreviousReviewFileComparison → Bool
has_previous c = is_given c.previous_file_id

module _ {A : Type 0} where
  abbrev pub count : (A → Bool) → List A → ℕ
  count p [] = 0
  count p (x ∷ xs) = let rest = count p xs in if p x then suc rest else rest

  count-append : (p : A → Bool) (xs ys : List A) → count p (xs ++ ys) ≡ count p xs + count p ys
  count-append p [] ys = omega arith
  count-append p (x ∷ xs) ys = ground (arith, count-append p xs ys)

count-insert_comparison :
    (p : PreviousReviewFileComparison → Bool) (c : PreviousReviewFileComparison)
    (rest : List PreviousReviewFileComparison)
    → count p (insert_comparison c rest) ≡ count p (c ∷ rest)
unfolding insert_comparison
count-insert_comparison p c [] = refl
count-insert_comparison p c (d ∷ rest) =
    let later = count-insert_comparison p c rest in
    elim (Bool-cases (comes_before c d)) [
      | inl here ↦ rw here
      | inr further ↦ rw further (ground (arith, later))
    ]

count-sort_comparisons :
    (p : PreviousReviewFileComparison → Bool) (cs : List PreviousReviewFileComparison)
    → count p (sort_comparisons cs) ≡ count p cs
unfolding sort_comparisons
count-sort_comparisons p [] = refl
count-sort_comparisons p (c ∷ cs) =
    let rest = count-sort_comparisons p cs in
    count-insert_comparison p c (sort_comparisons cs) ∙ ground (arith, rest)

-- The indices that are used.
abbrev is_used : Bool → Bool
is_used b = b

count-set :
    (used : List Bool) (i : ℕ)
    → get_or used i true ≡ false
    → count is_used (set used i true) ≡ suc (count is_used used)
count-set [] i h = let clash : true ≡ false = h in cc
count-set (b ∷ used) zero h = let here : b ≡ false = h in rw here
count-set (b ∷ used) (suc i) h = ground (arith, count-set used i h)

count-replicate : (n : ℕ) → count is_used (replicate n false) ≡ 0
count-replicate zero = refl
count-replicate (suc n) = count-replicate n

abbrev Paired : Type 0
Paired = List PreviousReviewFileComparison × List Bool

module _ {Bitmap : Type 0} (hash : Bytes → Bytes) where
  unused_prior-unused :
      (previous : List (ReviewDiffDocument Bitmap)) (used : List Bool)
      (d prior : ReviewDiffDocument Bitmap) (i : ℕ)
      → unused_prior hash previous used d ≡ some (i, prior)
      → get_or used i true ≡ false
  unfolding unused_prior
  unused_prior-unused previous used d prior i h =
      elim (Option-cases (prior_index hash previous d)) [
        | inl fresh ↦ let clash : none ≡ some (i, prior) = rw (unused_prior, fresh) at h in cc
        | inr (j, known) ↦ elim (Bool-cases (get_or used j true)) [
          | inl taken ↦
              let clash : none ≡ some (i, prior) = rw (unused_prior, known, taken) at h in cc
          | inr free ↦ elim (Option-cases (get_elem? previous j)) [
            | inl outside ↦
                let clash : none ≡ some (i, prior) = rw (unused_prior, known, free, outside) at h in
                cc
            | inr (p, there) ↦
                let value : some (j, p) ≡ some (i, prior) =
                  rw (unused_prior, known, free, there) at h in
                let same_index : j ≡ i = cc in
                subst (λ k. get_or used k true ≡ false) same_index free
          ]
        ]
      ]

  added_first :
      (previous : List (ReviewDiffDocument Bitmap)) (used : List Bool)
      (d : ReviewDiffDocument Bitmap) (ds : List (ReviewDiffDocument Bitmap))
      → unused_prior hash previous used d ≡ none
      → pair_all hash previous used (d ∷ ds)
        ≡ (addition hash d ∷ (pair_all hash previous used ds).0, (pair_all hash previous used ds).1)
  unfolding pair_all
  added_first previous used d ds fresh = rw (pair_all, fresh)

  paired_first :
      (previous : List (ReviewDiffDocument Bitmap)) (used : List Bool)
      (d prior : ReviewDiffDocument Bitmap) (ds : List (ReviewDiffDocument Bitmap)) (i : ℕ)
      → unused_prior hash previous used d ≡ some (i, prior)
      → pair_all hash previous used (d ∷ ds) ≡ (
        pairing hash d prior ∷ (pair_all hash previous (set used i true) ds).0,
        (pair_all hash previous (set used i true) ds).1,
      )
  unfolding pair_all
  paired_first previous used d prior ds i known = rw (pair_all, known)

  abbrev Counted :
      List (ReviewDiffDocument Bitmap)
      → List Bool
      → List (ReviewDiffDocument Bitmap)
      → Paired
      → Type 0
  Counted previous used ds out =
      (count has_current out.0 ≡ length ds)
      × (count has_previous out.0 + count is_used used ≡ count is_used out.1)
      × (length out.1 ≡ length used)

  -- What the loop over the current documents keeps.
  pair_all-Counted :
      (previous : List (ReviewDiffDocument Bitmap)) (used : List Bool)
      (ds : List (ReviewDiffDocument Bitmap))
      → Counted previous used ds (pair_all hash previous used ds)
  unfolding pair_all addition pairing
  pair_all-Counted previous used [] = (refl, omega arith, refl)
  pair_all-Counted previous used (d ∷ ds) =
      elim (Option-cases (unused_prior hash previous used d)) [
        | inl fresh ↦
            let (a, b, c) = pair_all-Counted previous used ds in
            subst (Counted previous used (d ∷ ds)) (sym (added_first previous used d ds fresh))
              (omega arith, omega arith, c)
        | inr ((i, prior), known) ↦
            let (a, b, c) = pair_all-Counted previous (set used i true) ds in
            let one_more = count-set used i (unused_prior-unused previous used d prior i known) in
            subst (Counted previous used (d ∷ ds))
              (sym (paired_first previous used d prior ds i known))
              (omega arith, omega arith, c ∙ length-set used i true)
      ]

  -- What the loop over the previous documents adds.
  removals-counted :
      (used : List Bool) (previous : List (ReviewDiffDocument Bitmap))
      → length used ≡ length previous
      → (count has_current (removals hash used previous) ≡ 0)
        × (count has_previous (removals hash used previous) + count is_used used ≡ length previous)
  unfolding removals removal
  removals-counted [] [] h = (refl, refl)
  removals-counted [] (d ∷ ds) h = absurd (omega arith)
  removals-counted (b ∷ used) [] h = absurd (omega arith)
  removals-counted (true ∷ used) (d ∷ ds) h =
      let (a, b) = removals-counted used ds (omega arith) in (a, omega arith)
  removals-counted (false ∷ used) (d ∷ ds) h =
      let (a, b) = removals-counted used ds (omega arith) in (a, omega arith)

  -- In the records of a comparison, before they are cut to a number of files, as many records have a
  -- current file as there are current documents, and as many have a previous file as there are previous
  -- documents.
  pub compare_all-counted :
      (current previous : List (ReviewDiffDocument Bitmap))
      → (count has_current (compare_all hash current previous) ≡ length current)
        × (count has_previous (compare_all hash current previous) ≡ length previous)
  unfolding compare_all
  compare_all-counted current previous =
      let unused : List Bool = replicate (length previous) false in
      let paired = pair_all hash previous unused current in
      let (a, b, c) = pair_all-Counted previous unused current in
      let (e, f) =
        removals-counted paired.1 previous (c ∙ length-replicate (length previous) false) in
      let none_used = count-replicate (length previous) in
      let all_current = count-append has_current paired.0 (removals hash paired.1 previous) in
      let all_previous = count-append has_previous paired.0 (removals hash paired.1 previous) in
      (
        count-sort_comparisons has_current (paired.0 ++ removals hash paired.1 previous)
            ∙ omega arith,
        count-sort_comparisons has_previous (paired.0 ++ removals hash paired.1 previous)
            ∙ omega arith,
      )
