-- ===== src/Diff/FullFile/Woven.antt =====
-- crates/diff/src/lib.rs: the loops of the full-file projections against a description by anchors.
use localreview.Prelude.{
  ℕ, zero, suc, ◌+◌, ◌<◌, min, ◌≡◌, refl, sym, ap, ◌∙◌, not, List, [], ◌∷◌, ◌++◌, none, some, arith,
  length, get_or, replicate, length-set, length-replicate, get_or-set, get_or-replicate, All,
  All-append, append-nil, append_assoc, filter, map, ◌==◌, ==_iff, if◌then◌else◌, Bool-cases, inl,
  inr,
}
use localreview.Prelude.Text.{Bytes}
use localreview.Domain.Annotations.{DiffSide}
use localreview.Diff.Types.{
  RoaringBitmap, HunkHeader, UnifiedRow, ReviewHunk, FullFileRow, ReviewDiffDocument,
  SourceDocument,
}
use localreview.Diff.Source.{source_lines}
use localreview.Diff.FullFile.{
  Gates, same_kind, anchor_of, gate_row, push_at, place_row, place_rows, place_hunks, weave,
  last_bucket, source_of, changed_of, full_file_rows, number_rows, gated_rows,
}

-- A gate row with its anchor.
abbrev pub Placed : Type 0
Placed = ℕ × FullFileRow

-- The gates of a hunk, in the order of its rows, each anchor cut at the number of kept lines.
abbrev pub row_gate :
    Gates → ℕ → HunkHeader → List UnifiedRow → UnifiedRow → List UnifiedRow → List Placed
row_gate g kept header before row rest =
    if not (same_kind row.kind g.gate_kind) then [] else elim (g.gate_cell row) [
      | none ↦ []
      | some c ↦ (min (anchor_of g header before rest) kept, gate_row g c) ∷ []
    ]

abbrev pub row_gates : Gates → ℕ → HunkHeader → List UnifiedRow → List UnifiedRow → List Placed
row_gates g kept header before [] = []
row_gates g kept header before (row ∷ rest) =
    row_gate g kept header before row rest ++ row_gates g kept header (row ∷ before) rest

abbrev pub hunk_gates : Gates → ℕ → List ReviewHunk → List Placed
hunk_gates g kept [] = []
hunk_gates g kept (hunk ∷ hunks) =
    row_gates g kept hunk.header [] hunk.unified_rows ++ hunk_gates g kept hunks

abbrev pub gates_at : ℕ → List Placed → List FullFileRow
gates_at i gates = map (λ gate. gate.1) (filter (λ gate. gate.0 == i) gates)

-- Each kept row behind the gates of its index, and the gates of the end behind all.
abbrev pub woven : List Placed → ℕ → List FullFileRow → List FullFileRow
woven gates i [] = gates_at i gates
woven gates i (row ∷ rows) = gates_at i gates ++ row ∷ woven gates (suc i) rows

push_all : List Placed → List (List FullFileRow) → List (List FullFileRow)
push_all [] buckets = buckets
push_all ((i, row) ∷ gates) buckets = push_all gates (push_at i row buckets)

push_all-append :
    (xs ys : List Placed) (buckets : List (List FullFileRow))
    → push_all (xs ++ ys) buckets ≡ push_all ys (push_all xs buckets)
unfolding push_all
push_all-append [] ys buckets = refl
push_all-append ((i, row) ∷ xs) ys buckets = push_all-append xs ys (push_at i row buckets)

length-push_all :
    (gates : List Placed) (buckets : List (List FullFileRow))
    → length (push_all gates buckets) ≡ length buckets
unfolding push_all
length-push_all [] buckets = refl
length-push_all ((i, row) ∷ gates) buckets =
    length-push_all gates (push_at i row buckets) ∙ length-set buckets i _

push_at-gates_at :
    (j i : ℕ) (row : FullFileRow) (gates : List Placed) (buckets : List (List FullFileRow))
    → j < length buckets
    → get_or (push_at j row buckets) i [] ++ gates_at i gates
      ≡ get_or buckets i [] ++ gates_at i ((j, row) ∷ gates)
push_at-gates_at j i row gates buckets h =
    rw (get_or-set buckets j i (get_or buckets j [] ++ row ∷ []) [] h) (elim (Bool-cases (j == i)) [
      | inl hit ↦
          rw (hit, (==_iff j i).0 hit)
            (append_assoc (get_or buckets i []) (row ∷ []) (gates_at i gates))
      | inr miss ↦ rw miss
    ])

get_or-push_all :
    (gates : List Placed) (buckets : List (List FullFileRow)) (i : ℕ)
    → All (λ gate. gate.0 < length buckets) gates
    → get_or (push_all gates buckets) i [] ≡ get_or buckets i [] ++ gates_at i gates
unfolding push_all
get_or-push_all [] buckets i h = sym (append-nil _)
get_or-push_all ((j, row) ∷ gates) buckets i h =
    get_or-push_all gates (push_at j row buckets) i (rw length-set h.1)
    ∙ push_at-gates_at j i row gates buckets h.0

place_row-push_all :
    (g : Gates) (header : HunkHeader) (before : List UnifiedRow) (row : UnifiedRow)
    (rest : List UnifiedRow) (buckets : List (List FullFileRow)) (kept : ℕ)
    → length buckets ≡ suc kept
    → place_row g header before row rest buckets
      ≡ push_all (row_gate g kept header before row rest) buckets
unfolding place_row push_all
place_row-push_all g header before row rest buckets kept h = ground arith

place_rows-push_all :
    (g : Gates) (header : HunkHeader) (before rows : List UnifiedRow)
    (buckets : List (List FullFileRow)) (kept : ℕ)
    → length buckets ≡ suc kept
    → place_rows g header before rows buckets
      ≡ push_all (row_gates g kept header before rows) buckets
unfolding place_rows
place_rows-push_all g header before [] buckets kept h = unfold push_all in refl
place_rows-push_all g header before (row ∷ rest) buckets kept h =
    let gate = row_gate g kept header before row rest in
    rw (place_row-push_all g header before row rest buckets kept h) (
      place_rows-push_all g header (row ∷ before) rest (push_all gate buckets) kept
        (length-push_all gate buckets ∙ h)
      ∙ sym (push_all-append gate (row_gates g kept header (row ∷ before) rest) buckets))

place_hunks-push_all :
    (g : Gates) (hunks : List ReviewHunk) (buckets : List (List FullFileRow)) (kept : ℕ)
    → length buckets ≡ suc kept
    → place_hunks g hunks buckets ≡ push_all (hunk_gates g kept hunks) buckets
unfolding place_hunks
place_hunks-push_all g [] buckets kept h = unfold push_all in refl
place_hunks-push_all g (hunk ∷ hunks) buckets kept h =
    let gates = row_gates g kept hunk.header [] hunk.unified_rows in
    rw (place_rows-push_all g hunk.header [] hunk.unified_rows buckets kept h) (
      place_hunks-push_all g hunks (push_all gates buckets) kept (length-push_all gates buckets ∙ h)
      ∙ sym (push_all-append gates (hunk_gates g kept hunks) buckets))

-- `gates_at` behind the last bucket too.
last_bucket-get_or :
    (buckets : List (List FullFileRow)) (n : ℕ)
    → length buckets ≡ suc n
    → last_bucket buckets ≡ get_or buckets n []
unfolding last_bucket
last_bucket-get_or [] n h = absurd (omega arith)
last_bucket-get_or (b ∷ []) zero h = refl
last_bucket-get_or (b ∷ []) (suc n) h = absurd (omega arith)
last_bucket-get_or (b ∷ c ∷ bs) zero h = absurd (omega arith)
last_bucket-get_or (b ∷ c ∷ bs) (suc n) h = last_bucket-get_or (c ∷ bs) n (omega arith)

weave-woven :
    (gates : List Placed) (buckets : List (List FullFileRow)) (index : ℕ) (rows : List FullFileRow)
    → ((i : ℕ) → get_or buckets i [] ≡ gates_at i gates)
    → length buckets ≡ suc (index + length rows)
    → weave buckets index rows ++ last_bucket buckets ≡ woven gates index rows
unfolding weave
weave-woven gates buckets index [] at h = last_bucket-get_or buckets index (omega arith) ∙ at index
weave-woven gates buckets index (row ∷ rows) at h =
    let rest = weave-woven gates buckets (suc index) rows at (omega arith) in
    append_assoc (get_or buckets index []) (row ∷ weave buckets (suc index) rows)
      (last_bucket buckets)
    ∙ rw (at index, rest)

row_gate-All :
    (g : Gates) (kept : ℕ) (header : HunkHeader) (before : List UnifiedRow) (row : UnifiedRow)
    (rest : List UnifiedRow)
    → All (λ gate. gate.0 < suc kept) (row_gate g kept header before row rest)
row_gate-All g kept header before row rest = ground arith

row_gates-All :
    (g : Gates) (kept : ℕ) (header : HunkHeader) (before rows : List UnifiedRow)
    → All (λ gate. gate.0 < suc kept) (row_gates g kept header before rows)
row_gates-All g kept header before [] = tt
row_gates-All g kept header before (row ∷ rest) =
    All-append _ _ _ (row_gate-All g kept header before row rest)
      (row_gates-All g kept header (row ∷ before) rest)

pub hunk_gates-All :
    (g : Gates) (kept : ℕ) (hunks : List ReviewHunk)
    → All (λ gate. gate.0 < suc kept) (hunk_gates g kept hunks)
hunk_gates-All g kept [] = tt
hunk_gates-All g kept (hunk ∷ hunks) =
    All-append _ _ _ (row_gates-All g kept hunk.header [] hunk.unified_rows)
      (hunk_gates-All g kept hunks)

module _ (bm : RoaringBitmap) where
  pub length-number_rows :
      (source : SourceDocument) (side : DiffSide) (changed : bm.Carrier) (index : ℕ)
      (texts : List Bytes)
      → length (number_rows bm side source changed index texts) ≡ length texts
  unfolding number_rows
  length-number_rows source side changed index [] = refl
  length-number_rows source side changed index (text ∷ texts) =
      ap suc (length-number_rows source side changed (index + 1) texts)

  pub length-full_file_rows :
      (document : ReviewDiffDocument bm.Carrier) (side : DiffSide)
      → length (full_file_rows bm document side)
        ≡ length (source_lines (source_of bm side document))
  unfolding full_file_rows
  length-full_file_rows document side =
      length-number_rows (source_of bm side document) side (changed_of bm side document) 0
        (source_lines (source_of bm side document))

  -- How many lines the kept source of a document has.
  abbrev pub kept_lines : Gates → ReviewDiffDocument bm.Carrier → ℕ
  kept_lines g document = length (source_lines (source_of bm g.kept_side document))

  -- The gates of a document.
  abbrev pub document_gates : Gates → ReviewDiffDocument bm.Carrier → List Placed
  document_gates g document = hunk_gates g (kept_lines g document) document.hunks

  -- Each row of the complete source comes directly behind the gate rows whose anchor is the number
  -- of source rows before it, in the order of the hunks, and those anchored at the end come last.
  pub gated_rows-woven :
      (g : Gates) (document : ReviewDiffDocument bm.Carrier)
      → gated_rows bm g document
        ≡ woven (document_gates g document) 0 (full_file_rows bm document g.kept_side)
  unfolding gated_rows
  gated_rows-woven g document =
      let kept = kept_lines g document in
      let gates = document_gates g document in
      let empty : List (List FullFileRow) = replicate (kept + 1) [] in
      let sized : length empty ≡ suc kept = length-replicate (kept + 1) [] ∙ omega arith in
      rw (place_hunks-push_all g document.hunks empty kept sized) (
        weave-woven gates (push_all gates empty) 0 (full_file_rows bm document g.kept_side)
          (λ i.
            get_or-push_all gates empty i (rw sized (hunk_gates-All g kept document.hunks))
            ∙ rw get_or-replicate)
          (length-push_all gates empty
            ∙ sized
            ∙ omega (arith, length-full_file_rows document g.kept_side)))
