-- ===== src/Git/Pool/Registry/Mapped.antt =====
-- crates/git/src/pool.rs: a list of records that stands for a map from review ids, said of its members.
use localreview.Prelude.{
  ◌≡◌, ◌↔◌, refl, sym, subst, ◌∙◌, true, false, List, [], ◌∷◌, Option, none, some, All, Bool-cases,
  Option-cases, inl, inr, ◌⊎◌,
}
use localreview.Prelude.Text.{Bytes, same, same-eq, same_self}
use localreview.Git.Pool.Types.{ManagedWorktree}
use localreview.Git.Pool.Registry.{find_record}
use localreview.Git.Pool.Registry.Finite.{IsRegistry}

-- The record stands in the list.
abbrev pub HasRecord : ManagedWorktree → List ManagedWorktree → Type 0
HasRecord r [] = ⊥
HasRecord r (x ∷ rest) = (x ≡ r) ⊎ HasRecord r rest

-- No later record has the review id of an earlier one.
abbrev pub HasUniqueIds : List ManagedWorktree → Type 0
HasUniqueIds [] = Unit {0}
HasUniqueIds (x ∷ rest) = All (λ r. same r.review_id x.review_id ≡ false) rest × HasUniqueIds rest

-- The map has a worktree at an id exactly when it is a record of the list under that id.
pub record IsMap (records : List ManagedWorktree) (map : Bytes → Option ManagedWorktree)
    : Type 0 where
  pub unique : HasUniqueIds records
  pub members :
      (id : Bytes) (r : ManagedWorktree)
      → (map id ≡ some r) ↔ (HasRecord r records × (r.review_id ≡ id))

find-HasRecord :
    (id : Bytes) (r : ManagedWorktree) (l : List ManagedWorktree)
    → find_record id l ≡ some r
    → HasRecord r l × (r.review_id ≡ id)
unfolding find_record
find-HasRecord id r [] h = let clash : none ≡ some r = h in cc
find-HasRecord id r (x ∷ rest) h = elim (Bool-cases (same x.review_id id)) [
  | inl here ↦
      let found : some x ≡ some r = rw here at h in
      let first : x ≡ r = cc in
      (
        inl first,
        subst (λ (y : ManagedWorktree). y.review_id ≡ id) first (same-eq x.review_id id here),
      )
  | inr apart ↦ let (later, named) = find-HasRecord id r rest (rw apart at h) in (inr later, named)
]

apart_from :
    (k : Bytes) (r : ManagedWorktree) (l : List ManagedWorktree)
    → All (λ x. same x.review_id k ≡ false) l
    → HasRecord r l
    → same r.review_id k ≡ false
apart_from k r [] h there = elim there [ ]
apart_from k r (x ∷ rest) h (inl first) =
    subst (λ (y : ManagedWorktree). same y.review_id k ≡ false) first h.0
apart_from k r (x ∷ rest) h (inr later) = apart_from k r rest h.1 later

same_turned : (a b : Bytes) → same a b ≡ false → same b a ≡ false
same_turned a b h = elim (Bool-cases (same b a)) [
  | inr apart ↦ apart
  | inl equal ↦
      let turned : same a b ≡ true = rw (same-eq b a equal) (same_self a) in
      let clash : true ≡ false = sym turned ∙ h in cc
]

HasRecord-find :
    (r : ManagedWorktree) (l : List ManagedWorktree)
    → HasUniqueIds l
    → HasRecord r l
    → find_record r.review_id l ≡ some r
unfolding find_record
HasRecord-find r [] v there = elim there [ ]
HasRecord-find r (x ∷ rest) v (inl first) = rw (first, same_self r.review_id) refl
HasRecord-find r (x ∷ rest) v (inr later) =
    let apart = same_turned r.review_id x.review_id (apart_from x.review_id r rest v.0 later) in
    rw apart (HasRecord-find r rest v.1 later)

absent-apart :
    (k : Bytes) (l : List ManagedWorktree)
    → find_record k l ≡ none
    → All (λ x. same x.review_id k ≡ false) l
unfolding find_record
absent-apart k [] h = tt
absent-apart k (x ∷ rest) h = elim (Bool-cases (same x.review_id k)) [
  | inl here ↦ let clash : some x ≡ none = rw here at h in cc
  | inr apart ↦ (apart, absent-apart k rest (rw apart at h))
]

apart-absent :
    (k : Bytes) (l : List ManagedWorktree)
    → All (λ x. same x.review_id k ≡ false) l
    → find_record k l ≡ none
unfolding find_record
apart-absent k [] h = refl
apart-absent k (x ∷ rest) h = rw h.0 (apart-absent k rest h.1)

IsRegistry-HasUniqueIds : (l : List ManagedWorktree) → IsRegistry l → HasUniqueIds l
IsRegistry-HasUniqueIds [] v = tt
IsRegistry-HasUniqueIds (x ∷ rest) v =
    (absent-apart x.review_id rest v.0, IsRegistry-HasUniqueIds rest v.1)

HasUniqueIds-IsRegistry : (l : List ManagedWorktree) → HasUniqueIds l → IsRegistry l
HasUniqueIds-IsRegistry [] v = tt
HasUniqueIds-IsRegistry (x ∷ rest) v =
    (apart-absent x.review_id rest v.0, HasUniqueIds-IsRegistry rest v.1)

-- Where the list is the map, the search of the list gives what the map has.
pub IsMap-find :
    (records : List ManagedWorktree) (map : Bytes → Option ManagedWorktree)
    → IsMap records map
    → IsRegistry records × ((id : Bytes) → find_record id records ≡ map id)
IsMap-find records map v = (
  HasUniqueIds-IsRegistry records v.unique,
  λ id. elim (Option-cases (find_record id records)) [
    | inr (r, found) ↦ found ∙ sym ((v.members id r).1 (find-HasRecord id r records found))
    | inl missing ↦ elim (Option-cases (map id)) [
      | inl absent ↦ missing ∙ sym absent
      | inr (r, held) ↦
          let (there, named) = (v.members id r).0 held in
          let found : find_record id records ≡ some r =
            subst (λ (k : Bytes). find_record k records ≡ some r) named
              (HasRecord-find r records v.unique there) in
          let clash : none ≡ some r = sym missing ∙ found in cc
    ]
  ],
)

-- Where each id has one record and the search gives what the map has, the list is the map.
pub find-IsMap :
    (records : List ManagedWorktree) (map : Bytes → Option ManagedWorktree)
    → IsRegistry records
    → ((id : Bytes) → find_record id records ≡ map id)
    → IsMap records map
find-IsMap records map v same_answers = record {
  unique = IsRegistry-HasUniqueIds records v;
  members = λ id r. (
    λ held. find-HasRecord id r records (same_answers id ∙ held),
    λ ((there, named) : HasRecord r records × (r.review_id ≡ id)).
        sym (same_answers id)
        ∙ subst (λ (k : Bytes). find_record k records ≡ some r) named
            (HasRecord-find r records (IsRegistry-HasUniqueIds records v) there),
  );
}
