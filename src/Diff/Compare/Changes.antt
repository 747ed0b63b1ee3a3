-- ===== src/Diff/Compare/Changes.antt =====
-- crates/diff/src/lib.rs, `document_from_sources`: what holds of a group after each of its changes.
use localreview.Prelude.{
  ℕ, ◌+◌, ◌≤◌, ◌<◌, ◌≡◌, refl, ap, ◌∙◌, Bool, List, [], ◌∷◌, ◌++◌, Option, none, some, length,
  filter, if◌then◌else◌, arith, Bool-cases, inl, inr,
}
use localreview.Prelude.Text.{Bytes}
use localreview.Domain.Annotations.{DiffSide}
use localreview.Diff.Types.{
  RoaringBitmap, ReviewFile, DiffLineKind, context, addition, removal, UnifiedRow, wrap32,
}
use localreview.Diff.Rows.{cell}
use localreview.Diff.Compare.{
  ChangeTag, equal, delete, insert, Change, Group, index_of, get_or_insert, push_change_row,
  change_cell, push_equal, push_delete, push_insert, push_change, push_changes,
}
use localreview.Diff.Patch.Builder.{is_some}
use localreview.Diff.Patch.Numbering.{
  IsCell, RowsAt, old_after, new_after, next_old, next_new, RowsAt-append, old_after-append,
  new_after-append,
}

-- The change of old line `i` and new line `j`, counted from 0, and what follows it. The lines are fewer
-- than 2 ^ 32 - 1.
abbrev pub ChangeAt : ChangeTag → ℕ → ℕ → Change → Type 0
ChangeAt equal i j change =
    (change.old_index ≡ some i) × (change.new_index ≡ some j) × (i < 4294967294) × (j < 4294967294)
ChangeAt delete i j change = (change.old_index ≡ some i) × (i < 4294967294)
ChangeAt insert i j change = (change.new_index ≡ some j) × (j < 4294967294)

abbrev pub after_old : ChangeTag → ℕ → ℕ
after_old insert i = i
after_old _ i = i + 1

abbrev pub after_new : ChangeTag → ℕ → ℕ
after_new delete j = j
after_new _ j = j + 1

-- Consecutive changes.
abbrev pub ChangesAt : ℕ → ℕ → List Change → Type 0
ChangesAt i j [] = Unit {0}
ChangesAt i j (change ∷ changes) =
    ChangeAt change.tag i j change
    × ChangesAt (after_old change.tag i) (after_new change.tag j) changes

-- How many rows have a cell of a side.
abbrev pub olds : List UnifiedRow → ℕ
olds rows = length (filter (λ row. is_some row.old) rows)

abbrev pub news : List UnifiedRow → ℕ
news rows = length (filter (λ row. is_some row.new) rows)

-- The start of a side is unset while the side has no cell, and then its first line.
abbrev pub StartsAt : ℕ → ℕ → Option ℕ → Type 0
StartsAt first count none = count ≡ 0
StartsAt first count (some start) = start ≡ first

-- A group that began at lines `i₀` and `j₀` and has come to `i` and `j`.
pub record Inv {B : Type 0} (i₀ j₀ i j : ℕ) (g : Group B) : Type 0 where
  pub numbered : RowsAt (i₀ + 1) (j₀ + 1) g.rows
  pub old_at : old_after (i₀ + 1) g.rows ≡ i + 1
  pub new_at : new_after (j₀ + 1) g.rows ≡ j + 1
  pub old_counted : olds g.rows ≡ g.old_count
  pub new_counted : news g.rows ≡ g.new_count
  pub old_taken : i₀ + g.old_count ≡ i
  pub new_taken : j₀ + g.new_count ≡ j
  pub old_fits : g.old_count ≤ 4294967294
  pub new_fits : g.new_count ≤ 4294967294
  pub old_starts : StartsAt (i₀ + 1) g.old_count g.old_start
  pub new_starts : StartsAt (j₀ + 1) g.new_count g.new_start

filter-append :
    (test : UnifiedRow → Bool) (rows : List UnifiedRow) (row : UnifiedRow)
    → length (filter test (rows ++ row ∷ []))
      ≡ length (filter test rows) + (if test row then 1 else 0)
filter-append test [] row = elim (Bool-cases (test row)) [ inl h ↦ rw h | inr h ↦ rw h ]
filter-append test (r ∷ rows) row = elim (Bool-cases (test r)) [
  | inl h ↦ rw (h, filter, filter-append test rows row) (omega arith)
  | inr h ↦ rw (h, filter) (filter-append test rows row)
]

starts_step :
    (first count n start' : ℕ) (start : Option ℕ)
    → StartsAt first count start
    → (count ≡ 0 → n ≡ first)
    → StartsAt first start' (get_or_insert n start)
starts_step first count n start' none h k = k h
starts_step first count n start' (some start) h k = h

index_value : (index : Option ℕ) (i : ℕ) → index ≡ some i → i < 4294967294 → index_of index ≡ i
index_value index i e fits = rw e (omega arith)

-- The cell of a change at line `i`, in a row of line `n`.
change_cell-IsCell :
    (hash : Bytes → Bytes) (bm : RoaringBitmap) (side : DiffSide) (kind : DiffLineKind)
    (index : Option ℕ) (value : Bytes) (i n : ℕ)
    → index ≡ some i
    → i < 4294967294
    → n ≡ i + 1
    → IsCell side n kind (some (change_cell hash bm side (index_of index) kind value))
unfolding cell
change_cell-IsCell hash bm side kind index value i n e fits line =
    let value = index_value index i e fits in
    (refl, refl, rw value (omega arith), rw value (omega arith))

counted :
    (n count i₀ i : ℕ) → n ≡ count → i₀ + count ≡ i → i < 4294967294 → n + 1 ≡ wrap32 (count + 1)
counted n count i₀ i same at fits = omega arith

uncounted : {n count : ℕ} → n ≡ count → n + 0 ≡ count
uncounted same = omega arith

taken :
    (count i₀ i : ℕ)
    → i₀ + count ≡ i
    → i < 4294967294
    → (i₀ + wrap32 (count + 1) ≡ i + 1) × (wrap32 (count + 1) ≤ 4294967294)
taken count i₀ i at fits = (omega arith, omega arith)

-- The first line of a side, set by a change at line `i`.
first_set :
    (index : Option ℕ) (i i₀ count : ℕ)
    → index ≡ some i
    → i < 4294967294
    → i₀ + count ≡ i
    → count ≡ 0
    → wrap32 (index_of index + 1) ≡ i₀ + 1
first_set index i i₀ count e fits taken none_before =
    let value = index_value index i e fits in rw value (omega arith)

module _ (hash : Bytes → Bytes) (bm : RoaringBitmap) (file : ReviewFile) where
  push_equal-Inv :
      (i₀ j₀ i j : ℕ) (change : Change) (g : Group bm.Carrier)
      → ChangeAt equal i j change
      → Inv i₀ j₀ i j g
      → Inv i₀ j₀ (i + 1) (j + 1) (push_equal hash bm file change g)
  unfolding push_equal push_change_row
  push_equal-Inv i₀ j₀ i j change g (old, new, fits_old, fits_new) v = record {
    numbered = RowsAt-append (i₀ + 1) (j₀ + 1) g.rows _ v.numbered (
      change_cell-IsCell hash bm DiffSide.old context change.old_index change.value i
          (old_after (i₀ + 1) g.rows) old fits_old v.old_at,
      change_cell-IsCell hash bm DiffSide.new context change.new_index change.value j
          (new_after (j₀ + 1) g.rows) new fits_new v.new_at,
    );
    old_at = old_after-append (i₀ + 1) g.rows _ ∙ ap (next_old context) v.old_at ∙ omega arith;
    new_at = new_after-append (j₀ + 1) g.rows _ ∙ ap (next_new context) v.new_at ∙ omega arith;
    old_counted =
        filter-append (λ row. is_some row.old) g.rows _
        ∙ counted (olds g.rows) g.old_count i₀ i v.old_counted v.old_taken fits_old;
    new_counted =
        filter-append (λ row. is_some row.new) g.rows _
        ∙ counted (news g.rows) g.new_count j₀ j v.new_counted v.new_taken fits_new;
    old_taken = (taken g.old_count i₀ i v.old_taken fits_old).0;
    old_fits = (taken g.old_count i₀ i v.old_taken fits_old).1;
    new_taken = (taken g.new_count j₀ j v.new_taken fits_new).0;
    new_fits = (taken g.new_count j₀ j v.new_taken fits_new).1;
    old_starts =
        starts_step (i₀ + 1) g.old_count _ _ g.old_start v.old_starts
          (first_set change.old_index i i₀ g.old_count old fits_old v.old_taken);
    new_starts =
        starts_step (j₀ + 1) g.new_count _ _ g.new_start v.new_starts
          (first_set change.new_index j j₀ g.new_count new fits_new v.new_taken);
  }

  push_delete-Inv :
      (i₀ j₀ i j lines : ℕ) (change : Change) (g : Group bm.Carrier)
      → ChangeAt delete i j change
      → Inv i₀ j₀ i j g
      → Inv i₀ j₀ (i + 1) j (push_delete hash bm file lines change g)
  unfolding push_delete push_change_row
  push_delete-Inv i₀ j₀ i j lines change g (old, fits_old) v = record {
    numbered = RowsAt-append (i₀ + 1) (j₀ + 1) g.rows _ v.numbered (
      change_cell-IsCell hash bm DiffSide.old removal change.old_index change.value i
          (old_after (i₀ + 1) g.rows) old fits_old v.old_at,
      refl,
    );
    old_at = old_after-append (i₀ + 1) g.rows _ ∙ ap (next_old removal) v.old_at ∙ omega arith;
    new_at = new_after-append (j₀ + 1) g.rows _ ∙ v.new_at;
    old_counted =
        filter-append (λ row. is_some row.old) g.rows _
        ∙ counted (olds g.rows) g.old_count i₀ i v.old_counted v.old_taken fits_old;
    new_counted = filter-append (λ row. is_some row.new) g.rows _ ∙ uncounted v.new_counted;
    old_taken = (taken g.old_count i₀ i v.old_taken fits_old).0;
    old_fits = (taken g.old_count i₀ i v.old_taken fits_old).1;
    new_taken = v.new_taken;
    new_fits = v.new_fits;
    old_starts =
        starts_step (i₀ + 1) g.old_count _ _ g.old_start v.old_starts
          (first_set change.old_index i i₀ g.old_count old fits_old v.old_taken);
    new_starts = v.new_starts;
  }

  push_insert-Inv :
      (i₀ j₀ i j lines : ℕ) (change : Change) (g : Group bm.Carrier)
      → ChangeAt insert i j change
      → Inv i₀ j₀ i j g
      → Inv i₀ j₀ i (j + 1) (push_insert hash bm file lines change g)
  unfolding push_insert push_change_row
  push_insert-Inv i₀ j₀ i j lines change g (new, fits_new) v = record {
    numbered = RowsAt-append (i₀ + 1) (j₀ + 1) g.rows _ v.numbered (
      refl,
      change_cell-IsCell hash bm DiffSide.new addition change.new_index change.value j
          (new_after (j₀ + 1) g.rows) new fits_new v.new_at,
    );
    old_at = old_after-append (i₀ + 1) g.rows _ ∙ v.old_at;
    new_at = new_after-append (j₀ + 1) g.rows _ ∙ ap (next_new addition) v.new_at ∙ omega arith;
    old_counted = filter-append (λ row. is_some row.old) g.rows _ ∙ uncounted v.old_counted;
    new_counted =
        filter-append (λ row. is_some row.new) g.rows _
        ∙ counted (news g.rows) g.new_count j₀ j v.new_counted v.new_taken fits_new;
    old_taken = v.old_taken;
    old_fits = v.old_fits;
    new_taken = (taken g.new_count j₀ j v.new_taken fits_new).0;
    new_fits = (taken g.new_count j₀ j v.new_taken fits_new).1;
    old_starts = v.old_starts;
    new_starts =
        starts_step (j₀ + 1) g.new_count _ _ g.new_start v.new_starts
          (first_set change.new_index j j₀ g.new_count new fits_new v.new_taken);
  }

  push_change-Inv :
      (i₀ j₀ i j old_lines new_lines : ℕ) (tag : ChangeTag) (change : Change) (g : Group bm.Carrier)
      → ChangeAt tag i j change
      → Inv i₀ j₀ i j g
      → Inv i₀ j₀
          (after_old tag i)
          (after_new tag j)
          (push_change hash bm file old_lines new_lines tag change g)
  unfolding push_change
  push_change-Inv i₀ j₀ i j old_lines new_lines equal change g h v =
      push_equal-Inv i₀ j₀ i j change g h v
  push_change-Inv i₀ j₀ i j old_lines new_lines delete change g h v =
      push_delete-Inv i₀ j₀ i j new_lines change g h v
  push_change-Inv i₀ j₀ i j old_lines new_lines insert change g h v =
      push_insert-Inv i₀ j₀ i j old_lines change g h v

  pub push_changes-Inv :
      (i₀ j₀ i j old_lines new_lines : ℕ) (changes : List Change) (g : Group bm.Carrier)
      → ChangesAt i j changes
      → Inv i₀ j₀ i j g
      → (i' j' : ℕ) × Inv i₀ j₀ i' j' (push_changes hash bm file old_lines new_lines changes g)
  unfolding push_changes
  push_changes-Inv i₀ j₀ i j old_lines new_lines [] g h v = (i, j, v)
  push_changes-Inv i₀ j₀ i j old_lines new_lines (change ∷ changes) g h v =
      push_changes-Inv i₀ j₀ (after_old change.tag i) (after_new change.tag j) old_lines new_lines
        changes (push_change hash bm file old_lines new_lines change.tag change g) h.1
        (push_change-Inv i₀ j₀ i j old_lines new_lines change.tag change g h.0 v)
