-- ===== src/Git/RawDiff/Shape.antt =====
-- crates/git/src/lib.rs, `parse_raw_diff_z`: how the paths and modes of an entry go with its kind.
use localreview.Prelude.{
  ℕ, ◌≡◌, refl, false, List, [], ◌∷◌, Option, none, some, All, ◌==◌, Bool-cases, inl, inr, subst,
  arith,
}
use localreview.Prelude.Text.{Bytes}
use localreview.Prelude.Result.{Result, ok, err, >>=-eq-ok, ok-injective, err-ne-ok}
use localreview.Git.Command.{GitError}
use localreview.Git.Status.{fields, push}
use localreview.Git.RawDiff.{
  CapturedTrackedFileKind, added, modified, deleted, renamed, copied, mode_changed, type_changed,
  submodule, RawDiffEntry, Header, parse_header, is_moved, single_kind, moved_entry, single_entry,
  push_single, parse_raw_fields, parse_raw_diff_z,
}

abbrev Moved : Option Bytes → Type 0
Moved none = ⊥
Moved (some path) = Unit {0}

-- The old path, and the modes, that belong to a kind. No entry of this format is a submodule.
abbrev pub Shape : CapturedTrackedFileKind → Option Bytes → ℕ → ℕ → Type 0
Shape renamed old_path old_mode new_mode = Moved old_path
Shape copied old_path old_mode new_mode = Moved old_path
Shape mode_changed old_path old_mode new_mode = (old_path ≡ none) × ((old_mode == new_mode) ≡ false)
Shape modified old_path old_mode new_mode = (old_path ≡ none) × (old_mode ≡ new_mode)
Shape submodule old_path old_mode new_mode = ⊥
Shape _ old_path old_mode new_mode = old_path ≡ none

abbrev pub IsShaped : RawDiffEntry → Type 0
IsShaped e = Shape e.kind e.old_path e.old_mode e.new_mode

moved_entry-IsShaped : (header : Header) (a b : Bytes) → IsShaped (moved_entry header a b)
unfolding moved_entry
moved_entry-IsShaped (old_mode, new_mode, status) a b = elim (Bool-cases (status == b'R')) [
  | inl moved ↦ rw moved tt
  | inr other ↦ rw other tt
]

single_entry-IsShaped :
    (header : Header) (a : Bytes) (kind : CapturedTrackedFileKind)
    → single_kind header ≡ ok kind
    → IsShaped (single_entry header a kind)
unfolding single_entry single_kind
single_entry-IsShaped (old_mode, new_mode, status) a kind h =
    let shape : (k : CapturedTrackedFileKind)
        → k ≡ kind
        → Shape k none old_mode new_mode
        → Shape kind none old_mode new_mode =
      λ k same_kind shaped. subst (λ j. Shape j none old_mode new_mode) same_kind shaped in
    elim (Bool-cases (status == b'A')) [
      | inl is_added ↦ shape added (ok-injective (rw (single_kind, is_added) at h)) refl
      | inr a1 ↦ elim (Bool-cases (status == b'D')) [
        | inl is_deleted ↦ shape deleted (ok-injective (rw (single_kind, a1, is_deleted) at h)) refl
        | inr a2 ↦ elim (Bool-cases (status == b'T')) [
          | inl is_typed ↦
              shape type_changed (ok-injective (rw (single_kind, a1, a2, is_typed) at h)) refl
          | inr a3 ↦ elim (Bool-cases (status == b'M')) [
            | inr a4 ↦ absurd (err-ne-ok (rw (single_kind, a1, a2, a3, a4) at h))
            | inl changed ↦ elim (Bool-cases (old_mode == new_mode)) [
              | inl equal ↦
                  shape modified (ok-injective (rw (single_kind, a1, a2, a3, changed, equal) at h))
                    (refl, ground arith)
              | inr different ↦
                  shape mode_changed
                    (ok-injective (rw (single_kind, a1, a2, a3, changed, different) at h))
                    (refl, different)
            ]
          ]
        ]
      ]
    ]

push-AreShaped :
    (e : RawDiffEntry) (later : Result GitError (List RawDiffEntry)) (entries : List RawDiffEntry)
    → IsShaped e
    → ((rest : List RawDiffEntry) → later ≡ ok rest → All IsShaped rest)
    → push e later ≡ ok entries
    → All IsShaped entries
push-AreShaped e (err failure) entries shaped others h = absurd (err-ne-ok h)
push-AreShaped e (ok rest) entries shaped others h =
    subst (All IsShaped) (ok-injective h) (shaped, others rest refl)

push_single-AreShaped :
    (header : Header) (a : Bytes) (later : Result GitError (List RawDiffEntry))
    (entries : List RawDiffEntry)
    → ((rest : List RawDiffEntry) → later ≡ ok rest → All IsShaped rest)
    → push_single header a later ≡ ok entries
    → All IsShaped entries
push_single-AreShaped header a later entries others h =
    let (kind, known, pushed) = >>=-eq-ok (single_kind header) _ h in
    push-AreShaped (single_entry header a kind) later entries
      (single_entry-IsShaped header a kind known) others pushed

fields-AreShaped :
    (fs : List Bytes) (entries : List RawDiffEntry)
    → parse_raw_fields fs ≡ ok entries
    → All IsShaped entries
unfolding parse_raw_fields
fields-AreShaped [] entries h = subst (All IsShaped) (ok-injective h) tt
fields-AreShaped (field ∷ []) entries h =
    let (header, read, failed) = >>=-eq-ok (parse_header field) _ h in absurd (err-ne-ok failed)
fields-AreShaped (field ∷ a ∷ []) entries h =
    let (header, read, pushed) = >>=-eq-ok (parse_header field) _ h in
    elim (Bool-cases (is_moved header.2)) [
      | inl moved ↦ absurd (err-ne-ok (rw moved at pushed))
      | inr plain ↦
          push_single-AreShaped header a (ok []) entries
            (λ rest none_left. subst (All IsShaped) (ok-injective none_left) tt)
            (rw plain at pushed)
    ]
fields-AreShaped (field ∷ a ∷ b ∷ fs) entries h =
    let (header, read, pushed) = >>=-eq-ok (parse_header field) _ h in
    elim (Bool-cases (is_moved header.2)) [
      | inl moved ↦
          push-AreShaped (moved_entry header a b) (parse_raw_fields fs) entries
            (moved_entry-IsShaped header a b) (λ rest done. fields-AreShaped fs rest done)
            (rw moved at pushed)
      | inr plain ↦
          push_single-AreShaped header a (parse_raw_fields (b ∷ fs)) entries
            (λ rest done. fields-AreShaped (b ∷ fs) rest done) (rw plain at pushed)
    ]

-- Every entry that is parsed has an old path exactly when it is a rename or a copy, has different modes
-- when it is a change of mode and equal ones when it is a change of content, and is no submodule.
pub parse_raw_diff_z-AreShaped :
    (bytes : Bytes) (entries : List RawDiffEntry)
    → parse_raw_diff_z bytes ≡ ok entries
    → All IsShaped entries
unfolding parse_raw_diff_z
parse_raw_diff_z-AreShaped bytes entries h = fields-AreShaped (fields bytes) entries h
