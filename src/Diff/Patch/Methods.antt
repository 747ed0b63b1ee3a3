-- ===== src/Diff/Patch/Methods.antt =====
-- crates/diff/src/lib.rs: the builder's invariant through the methods that read a line of a hunk, and `finish`.
use mathlib.Core.List.{concat-ne-nil}
use localreview.Prelude.{
  ℕ, ◌≡◌, refl, sym, ap, ◌∙◌, subst, subst₂, List, [], ◌∷◌, ◌++◌, Option, none, some, length, All,
  arith, ◌⊎◌, inl, inr, Option-cases,
}
use localreview.Prelude.Text.{Bytes}
use localreview.Prelude.Result.{ok, >>=-eq-ok, ok-injective, err-ne-ok}
use localreview.Domain.Annotations.{DiffSide}
use localreview.Diff.Types.{
  RoaringBitmap, HunkHeader, DiffLineKind, context, addition, removal, UnifiedRow, DiffCell,
  ReviewFile, ReviewDiffDocument,
}
use localreview.Diff.Rows.{stable_row_id}
use localreview.Diff.Split.{make_hunk}
use localreview.Diff.Patch.Builder.{
  PatchFileBuilder, push_context, push_removal, push_addition, push_prefixed, push_hunk_line,
  mark_last_line_missing_newline, mark_row, mark_parts, split_last, make_hunks, finish,
  finish_active_hunk, without_newline, file_of, unmark, check_marked,
}
use localreview.Diff.Patch.Numbering.{IsHunk, IsCell, CellsAt}
use localreview.Diff.Patch.Invariant.{
  ActiveAt, Inv, finish_active_hunk-Inv, ActiveAt-mark, push_context-Inv, push_removal-Inv,
  push_addition-Inv,
}

split_last-append :
    (rows front : List UnifiedRow) (last : UnifiedRow)
    → split_last rows ≡ some (front, last)
    → rows ≡ front ++ last ∷ []
unfolding split_last
split_last-append [] front last e = cc
split_last-append (row ∷ rows) front last e = elim (Option-cases (split_last rows)) [
  | inl end ↦ ground (arith, split_last_none rows end)
  | inr ((f, l), more) ↦ ground (arith, split_last-append rows f l more)
]
  where
    split_last_none : (rs : List UnifiedRow) → split_last rs ≡ none → rs ≡ []
    split_last_none [] h = refl
    split_last_none (r ∷ rs) h = ground arith

IsCell-without_newline :
    (side : DiffSide) (line : ℕ) (kind : DiffLineKind) (c : Option DiffCell)
    → IsCell side line kind c
    → IsCell side line kind (without_newline c)
IsCell-without_newline side line kind none h = h
IsCell-without_newline side line kind (some c) h = h

module _ (hash : Bytes → Bytes) (bm : RoaringBitmap) where
  abbrev Builder : Type 0
  Builder = PatchFileBuilder bm.Carrier

  -- The row that `mark_row` writes.
  abbrev marked : ℕ → List UnifiedRow → Builder → UnifiedRow → UnifiedRow
  marked file_id front b last = record {
    id =
        stable_row_id hash (file_of hash bm b file_id) (without_newline last.old)
          (without_newline last.new) last.kind (length front);
    kind = last.kind;
    old = without_newline last.old;
    new = without_newline last.new;
  }

  marked-RowAt :
      (kind : DiffLineKind) (file_id : ℕ) (front : List UnifiedRow) (b : Builder)
      (last : UnifiedRow) (m n : ℕ)
      → CellsAt kind m n last
      → CellsAt kind m n (marked file_id front b last)
  marked-RowAt context file_id front b last m n (old, new) = (
    IsCell-without_newline DiffSide.old m context last.old old,
    IsCell-without_newline DiffSide.new n context last.new new,
  )
  marked-RowAt removal file_id front b last m n (old, new) =
      (IsCell-without_newline DiffSide.old m removal last.old old, ap without_newline new)
  marked-RowAt addition file_id front b last m n (old, new) =
      (ap without_newline old, IsCell-without_newline DiffSide.new n addition last.new new)

  mark_row-Inv :
      (file_id : ℕ) (front : List UnifiedRow) (last : UnifiedRow) (b : Builder)
      → b.active_rows ≡ front ++ last ∷ []
      → Inv b
      → Inv (mark_row hash bm file_id front last b)
  unfolding mark_row
  mark_row-Inv file_id front last b e v = record {
    closed = v.closed;
    active = elim (Option-cases b.active_header) [
      | inl idle ↦
          let empty : b.active_rows ≡ [] =
            subst (λ o. ActiveAt o b.active_rows b.old_line b.new_line) idle v.active in
          absurd (concat-ne-nil last front (sym e ∙ empty))
      | inr (header, busy) ↦
          let here : ActiveAt (some header) (front ++ last ∷ []) b.old_line b.new_line =
            subst₂ (λ o rows. ActiveAt o rows b.old_line b.new_line) busy e v.active in
          subst (λ o. ActiveAt o (front ++ marked file_id front b last ∷ []) b.old_line b.new_line)
            (sym busy)
            (ActiveAt-mark hash bm header front last (marked file_id front b last) b.old_line
              b.new_line (marked-RowAt last.kind file_id front b last) refl here)
    ];
  }

  push_prefixed_cases :
      (file_id : ℕ) (line : Bytes) (b b' : Builder)
      → push_prefixed hash bm file_id line b ≡ ok b'
      → (text : Bytes) × ((push_context hash bm file_id text b ≡ b')
          ⊎ (push_removal hash bm file_id text b ≡ b')
          ⊎ (push_addition hash bm file_id text b ≡ b'))
  unfolding push_prefixed
  push_prefixed_cases file_id [] b b' e = cc
  push_prefixed_cases file_id (prefix ∷ text) b b' e = (text, ground arith)

  pub push_hunk_line-Inv :
      (file_id : ℕ) (line : Bytes) (b b' : Builder)
      → Inv b
      → push_hunk_line hash bm file_id line b ≡ ok b'
      → Inv b'
  unfolding push_hunk_line
  push_hunk_line-Inv file_id line b b' v e = elim (Option-cases b.active_header) [
    | inl idle ↦ subst (λ (c : Builder). Inv c) (ok-injective (rw (idle, push_hunk_line) at e)) v
    | inr (header, busy) ↦
        let (text, cases) =
          push_prefixed_cases file_id line b b' (rw (busy, push_hunk_line) at e) in
        elim cases [
          | inl is_context ↦
              subst (λ (c : Builder). Inv c) is_context
                (push_context-Inv hash bm file_id header b v busy text)
          | inr (inl is_removal) ↦
              subst (λ (c : Builder). Inv c) is_removal
                (push_removal-Inv hash bm file_id header b v busy text)
          | inr (inr is_addition) ↦
              subst (λ (c : Builder). Inv c) is_addition
                (push_addition-Inv hash bm file_id header b v busy text)
        ]
  ]

  mark_parts-Inv :
      (file_id : ℕ) (front : List UnifiedRow) (last : UnifiedRow) (b b' : Builder)
      → b.active_rows ≡ front ++ last ∷ []
      → Inv b
      → mark_parts hash bm file_id front last b ≡ ok b'
      → Inv b'
  unfolding mark_parts
  mark_parts-Inv file_id front last b b' rows v e =
      let (t, _, e₁) = >>=-eq-ok (check_marked hash bm last) _ e in
      let (old_snippet, _, e₂) = >>=-eq-ok (unmark hash bm last.old b.old_snippet) _ e₁ in
      let (new_snippet, _, e₃) = >>=-eq-ok (unmark hash bm last.new b.new_snippet) _ e₂ in
      subst (λ (c : Builder). Inv c) (ok-injective e₃)
        (mark_row-Inv file_id front last
          (record b { old_snippet = old_snippet; new_snippet = new_snippet }) rows
          (record { closed = v.closed; active = v.active }))

  pub mark_last_line_missing_newline-Inv :
      (file_id : ℕ) (b b' : Builder)
      → Inv b
      → mark_last_line_missing_newline hash bm file_id b ≡ ok b'
      → Inv b'
  unfolding mark_last_line_missing_newline
  mark_last_line_missing_newline-Inv file_id b b' v e =
      elim (Option-cases (split_last b.active_rows)) [
        | inl nothing ↦ absurd (err-ne-ok (rw nothing at e))
        | inr ((front, last), parted) ↦
            mark_parts-Inv file_id front last b b'
              (split_last-append b.active_rows front last parted) v (rw parted at e)
      ]

  make_hunks-All :
      (file : ReviewFile) (hunks : List (HunkHeader × List UnifiedRow))
      → All (λ hunk. IsHunk hunk.0 hunk.1) hunks
      → All (λ hunk. IsHunk hunk.header hunk.unified_rows) (make_hunks hash bm file hunks)
  unfolding make_hunks make_hunk
  make_hunks-All file [] h = tt
  make_hunks-All file ((header, rows) ∷ hunks) h = (h.0, make_hunks-All file hunks h.1)

  -- Each hunk of a finished file has the lines and the counts of its header.
  pub finish-All :
      (file_id comparison_id : ℕ) (b : Builder) (document : ReviewDiffDocument bm.Carrier)
      → Inv b
      → finish hash bm file_id comparison_id b ≡ ok document
      → All (λ hunk. IsHunk hunk.header hunk.unified_rows) document.hunks
  unfolding finish
  finish-All file_id comparison_id b document v e =
      let (c, finished, e') = >>=-eq-ok (finish_active_hunk hash bm b) _ e in
      let (v', _) = finish_active_hunk-Inv hash bm b c v finished in
      subst
        (λ (d : ReviewDiffDocument bm.Carrier).
          All (λ hunk. IsHunk hunk.header hunk.unified_rows) d.hunks)
        (ok-injective e') (make_hunks-All (file_of hash bm c file_id) c.hunks v'.closed)
