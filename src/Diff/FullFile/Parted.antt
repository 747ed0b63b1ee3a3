-- ===== src/Diff/FullFile/Parted.antt =====
-- crates/diff/src/lib.rs: a projection as it is woven, parted by the side of its rows.
use mathlib.Core.List.{Perm, perm_middle}
use mathlib.Core.List.Perm
use localreview.Prelude.{
  ℕ, suc, ◌+◌, ◌≤◌, ◌≡◌, refl, ap, ◌∙◌, true, false, not, List, [], ◌∷◌, ◌++◌, none, some, arith,
  length, All, filter, map, filter-append, leb, if◌then◌else◌,
}
use localreview.Domain.Annotations.{DiffSide, same_side}
use localreview.Diff.Types.{DiffCell, UnifiedRow, ReviewHunk, FullFileRow}
use localreview.Diff.FullFile.{Gates, same_kind}
use localreview.Diff.FullFile.Woven.{Placed, gates_at, woven}

-- The rows of one side.
abbrev pub rows_of : DiffSide → List FullFileRow → List FullFileRow
rows_of side = filter (λ row. same_side row.side side)

abbrev pub AllOf : DiffSide → List FullFileRow → Type 0
AllOf side = All (λ row. row.side ≡ side)

-- The changed cells that a projection puts in: those of the rows of the gate kind.
abbrev pub row_gate_cells : Gates → UnifiedRow → List DiffCell
row_gate_cells g row =
    if not (same_kind row.kind g.gate_kind)
    then []
    else elim (g.gate_cell row) [ none ↦ [] | some c ↦ c ∷ [] ]

abbrev pub rows_gate_cells : Gates → List UnifiedRow → List DiffCell
rows_gate_cells g [] = []
rows_gate_cells g (row ∷ rows) = row_gate_cells g row ++ rows_gate_cells g rows

abbrev pub gate_cells : Gates → List ReviewHunk → List DiffCell
gate_cells g [] = []
gate_cells g (hunk ∷ hunks) = rows_gate_cells g hunk.unified_rows ++ gate_cells g hunks

same_side_self : (side : DiffSide) → same_side side side ≡ true
same_side_self DiffSide.old = refl
same_side_self DiffSide.new = refl

side_test : (row : FullFileRow) (side : DiffSide) → row.side ≡ side → same_side row.side side ≡ true
side_test row side h = ap (λ s. same_side s side) h ∙ same_side_self side

rows_of_all :
    (side : DiffSide) (rows : List FullFileRow) → AllOf side rows → rows_of side rows ≡ rows
rows_of_all side [] h = refl
rows_of_all side (row ∷ rows) h =
    rw (side_test row side h.0) (ap (◌∷◌ row) (rows_of_all side rows h.1))

rows_of_none :
    (side other : DiffSide) (rows : List FullFileRow)
    → same_side other side ≡ false
    → AllOf other rows
    → rows_of side rows ≡ []
rows_of_none side other [] d h = refl
rows_of_none side other (row ∷ rows) d h = rw (h.0, d) (rows_of_none side other rows d h.1)

gates_at-AllOf :
    (side : DiffSide) (i : ℕ) (gates : List Placed)
    → All (λ gate. gate.1.side ≡ side) gates
    → AllOf side (gates_at i gates)
gates_at-AllOf side i [] h = tt
gates_at-AllOf side i (gate ∷ gates) h = ground (arith, gates_at-AllOf side i gates h.1)

module _ (kept gate : DiffSide) (gates : List Placed) (apart : same_side gate kept ≡ false)
    (sided : All (λ placed. placed.1.side ≡ gate) gates) where
  pub woven-kept :
      (i : ℕ) (rows : List FullFileRow) → AllOf kept rows → rows_of kept (woven gates i rows) ≡ rows
  woven-kept i [] h =
      rows_of_none kept gate (gates_at i gates) apart (gates_at-AllOf gate i gates sided)
  woven-kept i (row ∷ rows) h =
      filter-append (λ (r : FullFileRow). same_side r.side kept) (gates_at i gates) _
      ∙ rw
          (
            rows_of_none kept gate (gates_at i gates) apart (gates_at-AllOf gate i gates sided),
            side_test row kept h.0,
          )
          (ap (◌∷◌ row) (woven-kept (suc i) rows h.1))

-- The gates whose anchor is not below `i`.
abbrev pub gates_from : ℕ → List Placed → List FullFileRow
gates_from i gates = map (λ placed. placed.1) (filter (λ placed. leb i placed.0) gates)

pub gates_from-zero : (gates : List Placed) → gates_from 0 gates ≡ map (λ placed. placed.1) gates
gates_from-zero [] = refl
gates_from-zero (gate ∷ gates) = ground (arith, gates_from-zero gates)

gates_at-last :
    (i : ℕ) (gates : List Placed)
    → All (λ placed. placed.0 ≤ i) gates
    → gates_at i gates ≡ gates_from i gates
gates_at-last i [] h = refl
gates_at-last i (gate ∷ gates) h = ground (arith, gates_at-last i gates h.1)

gates_at-perm :
    (i : ℕ) (gates : List Placed)
    → Perm (gates_at i gates ++ gates_from (suc i) gates) (gates_from i gates)
gates_at-perm i [] = Perm.nil
gates_at-perm i ((j, row) ∷ gates) = ground (
  arith,
  gates_at-perm i gates,
  Perm.cons row (gates_at-perm i gates),
  Perm.trans (perm_middle {a = row} (gates_at i gates) (gates_from (suc i) gates))
      (Perm.cons row (gates_at-perm i gates)),
)

module _ (kept gate : DiffSide) (gates : List Placed) (apart : same_side kept gate ≡ false)
    (sided : All (λ placed. placed.1.side ≡ gate) gates) where
  pub woven-gates :
      (i : ℕ) (rows : List FullFileRow) (n : ℕ)
      → n ≡ i + length rows
      → AllOf kept rows
      → All (λ placed. placed.0 ≤ n) gates
      → Perm (rows_of gate (woven gates i rows)) (gates_from i gates)
  woven-gates i [] n e h fits =
      let e' : n ≡ i = omega arith in
      rw
        (
          rows_of_all gate (gates_at i gates) (gates_at-AllOf gate i gates sided),
          gates_at-last i gates (rw e' at fits),
        )
        (Perm.refl (gates_from i gates))
  woven-gates i (row ∷ rows) n e h fits =
      rw
        (
          filter-append (λ (r : FullFileRow). same_side r.side gate) (gates_at i gates)
              (row ∷ woven gates (suc i) rows),
          rows_of_all gate (gates_at i gates) (gates_at-AllOf gate i gates sided),
          ap (λ s. same_side s gate) h.0 ∙ apart,
        )
        (Perm.trans
          (Perm.append (Perm.refl (gates_at i gates))
            (woven-gates (suc i) rows n (omega arith) h.1 fits))
          (gates_at-perm i gates))
