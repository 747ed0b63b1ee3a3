-- ===== src/Diff/Patch/Invariant.antt =====
-- crates/diff/src/lib.rs: an invariant of a patch builder between two lines, through its methods.
use localreview.Prelude.{
  ℕ, ◌+◌, ◌-◌, max, ◌≡◌, refl, sym, ap, ◌∙◌, subst, subst₂, true, List, [], ◌∷◌, ◌++◌, Option, none,
  some, length, All, All-append, arith, inl, inr, Option-cases,
}
use localreview.Prelude.Text.{Bytes}
use localreview.Prelude.Result.{ok, >>=-eq-ok, ok-injective}
use localreview.Diff.Types.{
  RoaringBitmap, HunkHeader, DiffLineKind, context, addition, removal, UnifiedRow, DiffCell, wrap32,
}
use localreview.Domain.Annotations.{DiffSide}
use localreview.Diff.Rows.{cell, stable_row_id}
use localreview.Diff.Patch.Header.{parse_hunk_header}
use localreview.Diff.Patch.Builder.{
  PatchFileBuilder, new_builder, close_hunk, finish_active_hunk, start_hunk, push_context,
  push_removal, push_addition, hunk_line_counts, file_of,
}
use localreview.Diff.Patch.Numbering.{
  RowAt, RowsAt, IsHunk, next_old, next_new, old_after, new_after, RowsAt-append, RowsAt-front,
  old_after-append, new_after-append,
}

numbered : (line : ℕ) → wrap32 (line - 1 + 1) ≡ wrap32 (max 1 line)
numbered line = ap wrap32 (omega arith)

-- The rows of the hunk that is read, and the line counters behind them.
abbrev pub ActiveAt : Option HunkHeader → List UnifiedRow → ℕ → ℕ → Type 0
ActiveAt none rows i j = rows ≡ []
ActiveAt (some header) rows i j =
    RowsAt header.old_start header.new_start rows
    × (i ≡ old_after header.old_start rows)
    × (j ≡ new_after header.new_start rows)

pub record Inv {B : Type 0} (b : PatchFileBuilder B) : Type 0 where
  pub closed : All (λ hunk. IsHunk hunk.0 hunk.1) b.hunks
  pub active : ActiveAt b.active_header b.active_rows b.old_line b.new_line

module _ (hash : Bytes → Bytes) (bm : RoaringBitmap) where
  abbrev Builder : Type 0
  Builder = PatchFileBuilder bm.Carrier

  pub new_builder-Inv : (old_path new_path : Bytes) → Inv (new_builder hash bm old_path new_path)
  unfolding new_builder
  new_builder-Inv old_path new_path = record { closed = tt; active = refl }

  abbrev closed_builder : HunkHeader → Builder → Builder
  closed_builder header b = record b {
    hunks = b.hunks ++ (header, b.active_rows) ∷ [];
    active_header = none;
    active_rows = [];
  }

  close_hunk-ok :
      (header : HunkHeader) (b b' : Builder)
      → close_hunk hash bm header b ≡ ok b'
      → ((hunk_line_counts b.active_rows).0 ≡ header.old_count)
        × ((hunk_line_counts b.active_rows).1 ≡ header.new_count)
        × (closed_builder header b ≡ b')
  unfolding close_hunk
  close_hunk-ok header b b' e = ground arith

  close_hunk-Inv :
      (header : HunkHeader) (b b' : Builder)
      → RowsAt header.old_start header.new_start b.active_rows
      → All (λ hunk. IsHunk hunk.0 hunk.1) b.hunks
      → close_hunk hash bm header b ≡ ok b'
      → Inv b' × (b'.active_header ≡ none)
  close_hunk-Inv header b b' rows closed e =
      let (old_count, new_count, is_b') = close_hunk-ok header b b' e in
      subst (λ (c : Builder). Inv c × (c.active_header ≡ none)) is_b'
        (
          record {
            closed =
                All-append (λ hunk. IsHunk hunk.0 hunk.1) b.hunks ((header, b.active_rows) ∷ [])
                  closed ((rows, old_count, new_count), tt);
            active = refl;
          },
          refl,
        )

  pub finish_active_hunk-Inv :
      (b b' : Builder)
      → Inv b
      → finish_active_hunk hash bm b ≡ ok b'
      → Inv b' × (b'.active_header ≡ none)
  unfolding finish_active_hunk
  finish_active_hunk-Inv b b' v e = elim (Option-cases b.active_header) [
    | inl idle ↦
        let same : b ≡ b' = ok-injective (rw (idle, finish_active_hunk) at e) in
        subst (λ (c : Builder). Inv c × (c.active_header ≡ none)) same (v, idle)
    | inr (header, busy) ↦
        close_hunk-Inv header b b' (rw (busy, ActiveAt) at v.active).0 v.closed
          (rw (busy, finish_active_hunk) at e)
  ]

  pub start_hunk-Inv :
      (line : Bytes) (b b' : Builder) → Inv b → start_hunk hash bm line b ≡ ok b' → Inv b'
  unfolding start_hunk
  start_hunk-Inv line b b' v e =
      let (c, finished, e') = >>=-eq-ok (finish_active_hunk hash bm b) _ e in
      let (header, parsed, e'') = >>=-eq-ok (parse_hunk_header line) _ e' in
      let (v', idle) = finish_active_hunk-Inv b c v finished in
      subst (λ (d : Builder). Inv d) (ok-injective e'')
        (record {
          closed = v'.closed;
          active = rw (rw (idle, ActiveAt) at v'.active) (tt, refl, refl);
        })

  ActiveAt-push :
      (header : HunkHeader) (rows : List UnifiedRow) (row : UnifiedRow) (i j i' j' : ℕ)
      → ActiveAt (some header) rows i j
      → RowAt i j row
      → i' ≡ next_old row.kind i
      → j' ≡ next_new row.kind j
      → ActiveAt (some header) (rows ++ row ∷ []) i' j'
  ActiveAt-push header rows row i j i' j' (before, old, new) at old' new' = (
    RowsAt-append header.old_start header.new_start rows row before
        (subst₂ (λ m n. RowAt m n row) old new at),
    old' ∙ ap (next_old row.kind) old ∙ sym (old_after-append header.old_start rows row),
    new' ∙ ap (next_new row.kind) new ∙ sym (new_after-append header.new_start rows row),
  )

  -- The marked rows stand where the rows stood.
  pub ActiveAt-mark :
      (header : HunkHeader) (front : List UnifiedRow) (row row' : UnifiedRow) (i j : ℕ)
      → ((m n : ℕ) → RowAt m n row → RowAt m n row')
      → row.kind ≡ row'.kind
      → ActiveAt (some header) (front ++ row ∷ []) i j
      → ActiveAt (some header) (front ++ row' ∷ []) i j
  ActiveAt-mark header front row row' i j keep kind (rows, old, new) =
      let (before, last) = RowsAt-front header.old_start header.new_start front row rows in
      (
        RowsAt-append header.old_start header.new_start front row' before (keep _ _ last),
        old
            ∙ old_after-append header.old_start front row
            ∙ ap (λ k. next_old k (old_after header.old_start front)) kind
            ∙ sym (old_after-append header.old_start front row'),
        new
            ∙ new_after-append header.new_start front row
            ∙ ap (λ k. next_new k (new_after header.new_start front)) kind
            ∙ sym (new_after-append header.new_start front row'),
      )

  module _ (file_id : ℕ) (header : HunkHeader) (b : Builder) (v : Inv b)
      (busy : b.active_header ≡ some header) where
    active_here : ActiveAt (some header) b.active_rows b.old_line b.new_line
    active_here = subst (λ o. ActiveAt o b.active_rows b.old_line b.new_line) busy v.active

    -- The row of each kind that is pushed.
    abbrev pushed : DiffLineKind → Option DiffCell → Option DiffCell → UnifiedRow
    pushed kind old new = record {
      id = stable_row_id hash (file_of hash bm b file_id) old new kind (length b.active_rows);
      kind = kind;
      old = old;
      new = new;
    }

    abbrev pushed_context : Bytes → UnifiedRow
    pushed_context text =
        pushed context (some (cell DiffSide.old (b.old_line - 1) context text true))
          (some (cell DiffSide.new (b.new_line - 1) context text true))

    abbrev pushed_removal : Bytes → UnifiedRow
    pushed_removal text =
        pushed removal (some (cell DiffSide.old (b.old_line - 1) removal text true)) none

    abbrev pushed_addition : Bytes → UnifiedRow
    pushed_addition text =
        pushed addition none (some (cell DiffSide.new (b.new_line - 1) addition text true))

    pub push_context-Inv : (text : Bytes) → Inv (push_context hash bm file_id text b)
    unfolding push_context cell
    push_context-Inv text =
        let c = push_context hash bm file_id text b in
        record {
          closed = v.closed;
          active =
              subst (λ o. ActiveAt o c.active_rows c.old_line c.new_line) (sym busy)
                (ActiveAt-push header b.active_rows (pushed_context text) b.old_line b.new_line
                  c.old_line c.new_line active_here
                  ((refl, refl, refl, numbered _), (refl, refl, refl, numbered _)) refl refl);
        }

    pub push_removal-Inv : (text : Bytes) → Inv (push_removal hash bm file_id text b)
    unfolding push_removal cell
    push_removal-Inv text =
        let c = push_removal hash bm file_id text b in
        record {
          closed = v.closed;
          active =
              subst (λ o. ActiveAt o c.active_rows c.old_line c.new_line) (sym busy)
                (ActiveAt-push header b.active_rows (pushed_removal text) b.old_line b.new_line
                  c.old_line c.new_line active_here ((refl, refl, refl, numbered _), refl) refl
                  refl);
        }

    pub push_addition-Inv : (text : Bytes) → Inv (push_addition hash bm file_id text b)
    unfolding push_addition cell
    push_addition-Inv text =
        let c = push_addition hash bm file_id text b in
        record {
          closed = v.closed;
          active =
              subst (λ o. ActiveAt o c.active_rows c.old_line c.new_line) (sym busy)
                (ActiveAt-push header b.active_rows (pushed_addition text) b.old_line b.new_line
                  c.old_line c.new_line active_here (refl, (refl, refl, refl, numbered _)) refl
                  refl);
        }
