-- ===== src/Service/Anchors/Places.antt =====
-- crates/service/src/lib.rs: where the searches for a selection place it.
use localreview.Prelude.{
  ℕ, ◌+◌, ◌-◌, ◌≤◌, ◌<◌, ◌≡◌, ◌↔◌, refl, sym, ap, subst, subst₂, ◌∙◌, true, false, ◌&&◌, ◌||◌, not,
  List, [], ◌∷◌, none, some, length, take, drop, ltb, leb, inl, inr, Bool-cases, Option-cases,
  arith,
}
use localreview.Prelude.Text.{Bytes}
use localreview.Diff.Types.{u32_max, wrap32, clamp32}
use localreview.Service.Anchors.{
  same_lines, is_empty, positions, only, get_range, unique_range, range_at,
  unique_context_selection, range_within, exact_range, candidate, or_else,
}
use localreview.Service.Anchors.Windows.{
  same_lines-eq, Among-only, only-Among, positions_sound, positions_complete, get_range-window,
  window-get_range, take-drop-take, drop-drop,
}

-- The lines from `start` to `end`, one-based, are the selection.
abbrev pub Placed : List Bytes → List Bytes → ℕ → ℕ → Type 0
Placed ls selected start end = (end ≤ length ls) × (get_range (start - 1) end ls ≡ some selected)

nonempty : (ls : List Bytes) → is_empty ls ≡ false → 1 ≤ length ls
nonempty [] h = let clash : true ≡ false = h in cc
nonempty (l ∷ ls) h = omega arith

abbrev Index : ℕ → List Bytes → List Bytes → Type 0
Index i needle ls = take (length needle) (drop i ls) ≡ needle

only-Index :
    (needle ls : List Bytes) (i : ℕ) → only (positions 0 needle ls) ≡ some i → Index i needle ls
only-Index needle ls i h =
    let (j, place, window) =
      positions_sound 0 needle ls i (only-Among (positions 0 needle ls) i h) in
    let same_index : j ≡ i = omega arith in subst (λ k. Index k needle ls) same_index window

is_empty_of :
    (needle ls : List Bytes)
    → (is_empty needle || ltb (length ls) (length needle)) ≡ false
    → is_empty needle ≡ false
is_empty_of [] ls h = let clash : true ≡ false = h in cc
is_empty_of (l ∷ needle) ls h = refl

range_value :
    (selected : List Bytes) (i start end : ℕ)
    → i + length selected < 4294967296
    → 1 ≤ length selected
    → range_at selected (some i) ≡ some (start, end)
    → (start ≡ i + 1) × (end ≡ i + length selected)
range_value selected i start end few counted h =
    let first : wrap32 (wrap32 i + 1) ≡ start = cc in
    let last : wrap32 (wrap32 (wrap32 (wrap32 i + 1) + clamp32 (length selected)) + u32_max) ≡ end =
      cc in
    (omega arith, omega arith)

-- The only place of the selection.
unique_range_found :
    (ls selected : List Bytes) (start end : ℕ)
    → length ls < 4294967296
    → unique_range ls selected ≡ some (start, end)
    → Placed ls selected start end
      × (1 ≤ start)
      × (end ≡ start - 1 + length selected)
      × ((j : ℕ) → get_range j (j + length selected) ls ≡ some selected → j + 1 ≡ start)
unfolding unique_range
unique_range_found ls selected start end few h =
    elim (Bool-cases (is_empty selected || ltb (length ls) (length selected))) [
      | inl refused ↦ let clash : none ≡ some (start, end) = rw refused at h in cc
      | inr sought ↦ elim (Option-cases (only (positions 0 selected ls))) [
        | inl several ↦ let clash : none ≡ some (start, end) = rw (sought, several) at h in cc
        | inr (i, found) ↦
            let window = only-Index selected ls i found in
            let counted = nonempty selected (is_empty_of selected ls sought) in
            let (fits, range) = get_range-window i selected ls counted window in
            let (first, last) =
              range_value selected i start end (omega arith) counted (rw (sought, found) at h) in
            (
              (
                omega arith,
                subst₂ (λ a b. get_range a b ls ≡ some selected) (omega arith) (sym last) range,
              ),
              omega arith,
              omega arith,
              λ j there.
                  let (forth, inside, other) =
                    window-get_range j (j + length selected) selected ls there in
                  let width : (j + length selected) - j ≡ length selected = omega arith in
                  let given =
                    positions_complete 0 selected ls j (omega arith) (rw width at other) in
                  let same_index : 0 + j ≡ i =
                    Among-only (positions 0 selected ls) i (0 + j) found given in
                  omega arith,
            )
      ]
    ]

-- Among fewer than 2 ^ 32 lines, the range that `unique_range` gives is one-based, as long as the
-- selection, within the lines and holds the selection, and the selection stands at an index of the lines
-- exactly when that is the index where the range begins.
pub unique_range-only :
    (ls selected : List Bytes) (start end j : ℕ)
    → length ls < 4294967296
    → unique_range ls selected ≡ some (start, end)
    → Placed ls selected start end
      × (1 ≤ start)
      × (end ≡ start - 1 + length selected)
      × ((get_range j (j + length selected) ls ≡ some selected) ↔ (j + 1 ≡ start))
unique_range-only ls selected start end j few h =
    let (placed, based, size, only_there) = unique_range_found ls selected start end few h in
    (
      placed,
      based,
      size,
      (
        only_there j,
        λ (at_start : j + 1 ≡ start).
            subst₂ (λ a b. get_range a b ls ≡ some selected) (omega arith) (omega arith) placed.1,
      ),
    )

context_value :
    (selected : List Bytes) (c o start end : ℕ)
    → c + o + length selected < 4294967296
    → 1 ≤ length selected
    → range_within selected (some c) (some o) ≡ some (start, end)
    → (start ≡ c + o + 1) × (end ≡ c + o + length selected)
context_value selected c o start end few counted h =
    let small : (leb (c + o + 1) u32_max && leb (length selected) u32_max) ≡ true = ground arith in
    let value : some (c + o + 1, wrap32 ((c + o + 1) + (length selected - 1))) ≡ some (start, end) =
      rw small at h in
    let first : c + o + 1 ≡ start = cc in
    let last : wrap32 ((c + o + 1) + (length selected - 1)) ≡ end = cc in (omega arith, omega arith)

-- The selection's window in the context's window is a window.
inner_window :
    (ls context selected : List Bytes) (c o : ℕ)
    → 1 ≤ length context
    → 1 ≤ length selected
    → Index c context ls
    → Index o selected context
    → (c + o + length selected ≤ length ls)
      × (get_range (c + o) (c + o + length selected) ls ≡ some selected)
inner_window ls context selected c o counted_context counted_selected outer inner =
    let (fits, range) = get_range-window o selected context counted_selected inner in
    let whole : take (length selected) (drop o (take (length context) (drop c ls))) ≡ selected =
      rw outer inner in
    let direct : take (length selected) (drop o (drop c ls)) ≡ selected =
      sym (take-drop-take (length selected) o (length context) (drop c ls) fits) ∙ whole in
    get_range-window (c + o) selected ls counted_selected
      (ap (take (length selected)) (sym (drop-drop o c ls)) ∙ direct)

-- Where the context occurs once and the selection once in it, the selection is there.
context-Placed :
    (ls context selected : List Bytes) (start end : ℕ)
    → length ls < 4294967296
    → unique_context_selection ls context selected ≡ some (start, end)
    → Placed ls selected start end
unfolding unique_context_selection
context-Placed ls context selected start end few h =
    elim (Bool-cases (is_empty context || is_empty selected || ltb (length ls) (length context))) [
      | inl refused ↦ let clash : none ≡ some (start, end) = rw refused at h in cc
      | inr sought ↦ elim (Option-cases (only (positions 0 context ls))) [
        | inl several ↦ let clash : none ≡ some (start, end) = rw (sought, several) at h in cc
        | inr (c, found) ↦ elim (Option-cases (only (positions 0 selected context))) [
          | inl several ↦
              let clash : none ≡ some (start, end) = rw (sought, found, several) at h in cc
          | inr (o, within) ↦
              let some_context : is_empty context ≡ false = ground (arith, sought) in
              let some_selected : is_empty selected ≡ false = ground (arith, sought) in
              let counted = nonempty selected some_selected in
              let (fits, range) =
                inner_window ls context selected c o (nonempty context some_context) counted
                  (only-Index context ls c found) (only-Index selected context o within) in
              let (first, last) =
                context_value selected c o start end (omega arith) counted
                  (rw (sought, found, within) at h) in
              (
                omega arith,
                subst₂ (λ a b. get_range a b ls ≡ some selected) (omega arith) (sym last) range,
              )
        ]
      ]
    ]

exact-Placed :
    (ls selected : List Bytes) (start end : ℕ)
    → exact_range ls selected start end ≡ true
    → Placed ls selected start end
unfolding exact_range
exact-Placed ls selected start end h = elim (Option-cases (get_range (start - 1) end ls)) [
  | inl outside ↦ let clash : false ≡ true = rw (exact_range, outside) at h in cc
  | inr (found, range) ↦
      let equal : (not (is_empty selected) && same_lines found selected) ≡ true =
        rw (exact_range, range) at h in
      let same_found : found ≡ selected = same_lines-eq found selected (ground (arith, equal)) in
      let (forth, inside, window) = window-get_range (start - 1) end found ls range in
      (inside, rw (← same_found) range)
]

-- The candidate for the new place holds the selection.
pub candidate-Placed :
    (ls selected context : List Bytes) (old_start old_end start end : ℕ)
    → length ls < 4294967296
    → candidate ls selected context old_start old_end ≡ some (start, end)
    → Placed ls selected start end
unfolding candidate
candidate-Placed ls selected context old_start old_end start end few h =
    elim (Bool-cases (exact_range ls selected old_start old_end)) [
      | inl stayed ↦
          let value : some (old_start, old_end) ≡ some (start, end) = rw stayed at h in
          let first : old_start ≡ start = cc in
          let last : old_end ≡ end = cc in
          subst₂ (Placed ls selected) first last (exact-Placed ls selected old_start old_end stayed)
      | inr moved ↦
          let sought : or_else (unique_range ls selected)
                (unique_context_selection ls context selected)
              ≡ some (start, end) =
            rw moved at h in
          elim (Option-cases (unique_range ls selected)) [
            | inr ((a, b), found) ↦
                let value : some (a, b) ≡ some (start, end) = rw found at sought in
                (unique_range_found ls selected start end few (found ∙ value)).0
            | inl several ↦ context-Placed ls context selected start end few (rw several at sought)
          ]
    ]
