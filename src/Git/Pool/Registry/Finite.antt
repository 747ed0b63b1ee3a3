-- ===== src/Git/Pool/Registry/Finite.antt =====
-- crates/git/src/pool.rs: the operations on the registry's list of records, through `find`.
use localreview.Prelude.{
  ◌≡◌, refl, ap, subst, ◌∙◌, true, false, List, [], ◌∷◌, Option, none, some, if◌then◌else◌,
  Bool-cases, inl, inr, arith,
}
use localreview.Prelude.Text.{Bytes, same, same-eq, same_self}
use localreview.Git.Pool.Types.{ManagedWorktree}
use localreview.Git.Pool.Registry.{
  bytes_le, insert_sorted, sort_records, find_record, replace_or_push, remove_record,
}

-- Each review id has one record.
abbrev pub IsRegistry : List ManagedWorktree → Type 0
IsRegistry [] = Unit {0}
IsRegistry (r ∷ rest) = (find_record r.review_id rest ≡ none) × IsRegistry rest

same_apart : (a b c : Bytes) → same a b ≡ true → same a c ≡ same b c
same_apart a b c h = ap (λ k. same k c) (same-eq a b h)

same_comm : (a b : Bytes) → same a b ≡ false → same b a ≡ false
same_comm a b h = elim (Bool-cases (same b a)) [
  | inr apart ↦ apart
  | inl equal ↦
      let turned : same a b ≡ true = rw (same-eq b a equal) (same_self a) in absurd (ground arith)
]

find-cons :
    (id : Bytes) (r : ManagedWorktree) (l : List ManagedWorktree)
    → (if same r.review_id id then some r else find_record id l) ≡ find_record id (r ∷ l)
unfolding find_record
find-cons id r l = refl

absent :
    (k : Bytes) (x : ManagedWorktree) (l : List ManagedWorktree)
    → find_record k (x ∷ l) ≡ none
    → (same x.review_id k ≡ false) × (find_record k l ≡ none)
unfolding find_record
absent k x l h = ground arith

module _ (id : Bytes) (r : ManagedWorktree) where
  find-insert_sorted :
      (l : List ManagedWorktree)
      → find_record r.review_id l ≡ none
      → find_record id (insert_sorted r l)
        ≡ (if same r.review_id id then some r else find_record id l)
  unfolding insert_sorted find_record
  find-insert_sorted [] h = refl
  find-insert_sorted (x ∷ l) h =
      let (other, rest) = absent r.review_id x l h in
      ground (
        arith,
        find-insert_sorted l rest,
        same_apart x.review_id id r.review_id,
        same_comm id r.review_id,
      )

  pub find-replace_or_push :
      (l : List ManagedWorktree)
      → find_record id (replace_or_push r l)
        ≡ (if same r.review_id id then some r else find_record id l)
  unfolding replace_or_push find_record
  find-replace_or_push [] = refl
  find-replace_or_push (x ∷ l) = ground (
    arith,
    find-replace_or_push l,
    same_apart x.review_id r.review_id id,
    same_apart x.review_id id r.review_id,
    same_comm id r.review_id,
  )

IsRegistry-insert_sorted :
    (r : ManagedWorktree) (l : List ManagedWorktree)
    → find_record r.review_id l ≡ none
    → IsRegistry l
    → IsRegistry (insert_sorted r l)
unfolding insert_sorted
IsRegistry-insert_sorted r [] h v = (h, tt)
IsRegistry-insert_sorted r (x ∷ l) h v =
    let (other, rest) = absent r.review_id x l h in
    elim (Bool-cases (bytes_le r.review_id x.review_id)) [
      | inl first ↦ rw first (h, v)
      | inr later ↦ rw later (
        find-insert_sorted x.review_id r l rest ∙ rw (same_comm x.review_id r.review_id other) v.0,
        IsRegistry-insert_sorted r l rest v.1,
      )
    ]

pub find-sort_records :
    (id : Bytes) (l : List ManagedWorktree)
    → IsRegistry l
    → (find_record id (sort_records l) ≡ find_record id l) × IsRegistry (sort_records l)
unfolding sort_records
find-sort_records id [] v = (refl, tt)
find-sort_records id (r ∷ l) v =
    let (found, sorted) = find-sort_records id l v.1 in
    let missing = (find-sort_records r.review_id l v.1).0 ∙ v.0 in
    (
      find-insert_sorted id r (sort_records l) missing
          ∙ ap (λ (o : Option ManagedWorktree). if same r.review_id id then some r else o) found
          ∙ find-cons id r l,
      IsRegistry-insert_sorted r (sort_records l) missing sorted,
    )

pub IsRegistry-replace_or_push :
    (r : ManagedWorktree) (l : List ManagedWorktree)
    → IsRegistry l
    → IsRegistry (replace_or_push r l)
unfolding replace_or_push
IsRegistry-replace_or_push r [] v = (unfold find_record in refl, tt)
IsRegistry-replace_or_push r (x ∷ l) v = elim (Bool-cases (same x.review_id r.review_id)) [
  | inl here ↦ rw here (
    subst (λ (k : Bytes). find_record k l ≡ none) (same-eq x.review_id r.review_id here) v.0,
    v.1,
  )
  | inr other ↦ rw other (
    find-replace_or_push x.review_id r l ∙ rw (same_comm x.review_id r.review_id other) v.0,
    IsRegistry-replace_or_push r l v.1,
  )
]

pub find-remove_record :
    (id k : Bytes) (l : List ManagedWorktree)
    → IsRegistry l
    → find_record id (remove_record k l) ≡ (if same k id then none else find_record id l)
unfolding remove_record find_record
find-remove_record id k [] v = elim (Bool-cases (same k id)) [ inl h ↦ rw h | inr h ↦ rw h ]
find-remove_record id k (x ∷ l) v = elim (Bool-cases (same x.review_id k)) [
  | inl here ↦ rw here (elim (Bool-cases (same k id)) [
    | inl removed ↦ rw removed (
        subst (λ (j : Bytes). find_record j l ≡ none)
          (same-eq x.review_id k here ∙ same-eq k id removed) v.0)
    | inr kept ↦ rw (kept, same_apart x.review_id k id here ∙ kept) refl
  ])
  | inr other ↦ rw other (elim (Bool-cases (same x.review_id id)) [
    | inl found ↦
        let kept : same k id ≡ false =
          rw (← same-eq x.review_id id found) (same_comm x.review_id k other) in
        rw (found, kept) refl
    | inr apart ↦ rw apart (find-remove_record id k l v.1)
  ])
]

pub IsRegistry-remove_record :
    (k : Bytes) (l : List ManagedWorktree) → IsRegistry l → IsRegistry (remove_record k l)
unfolding remove_record
IsRegistry-remove_record k [] v = tt
IsRegistry-remove_record k (x ∷ l) v = elim (Bool-cases (same x.review_id k)) [
  | inl here ↦ rw here v.1
  | inr other ↦ rw other (
    find-remove_record x.review_id k l v.1 ∙ rw (same_comm x.review_id k other) v.0,
    IsRegistry-remove_record k l v.1,
  )
]
