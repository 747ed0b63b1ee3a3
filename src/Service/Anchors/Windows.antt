-- ===== src/Service/Anchors/Windows.antt =====
-- crates/service/src/lib.rs: the windows of a list of lines that are a given list.
use localreview.Prelude.{
  ℕ, zero, suc, ◌+◌, ◌-◌, ◌≤◌, ◌<◌, ◌≡◌, refl, ap, subst, true, false, ◌||◌, List, [], ◌∷◌, none,
  some, length, take, drop, ltb, ◌⊎◌, inl, inr, Bool-cases, arith, length-take, length-drop,
}
use localreview.Prelude.Text.{Bytes, same, same-eq, same_self}
use localreview.Service.Anchors.{same_lines, positions, only, get_range}

pub same_lines-eq : (a b : List Bytes) → same_lines a b ≡ true → a ≡ b
same_lines-eq [] [] h = refl
same_lines-eq [] (m ∷ ms) h = cc
same_lines-eq (l ∷ ls) [] h = cc
same_lines-eq (l ∷ ls) (m ∷ ms) h = elim (Bool-cases (same l m)) [
  | inl one ↦ rw (same-eq l m one, same_lines-eq ls ms (rw one at h)) refl
  | inr other ↦ let clash : false ≡ true = rw other at h in cc
]

pub same_lines_self : (a : List Bytes) → same_lines a a ≡ true
same_lines_self [] = refl
same_lines_self (l ∷ ls) = rw (same_self l, same_lines_self ls)

abbrev pub Among : ℕ → List ℕ → Type 0
Among i [] = ⊥
Among i (x ∷ xs) = (i ≡ x) ⊎ Among i xs

pub Among-only : (xs : List ℕ) (i j : ℕ) → only xs ≡ some i → Among j xs → j ≡ i
Among-only [] i j h given = elim given [ ]
Among-only (x ∷ []) i j h (inl here) = cc
Among-only (x ∷ []) i j h (inr later) = elim later [ ]
Among-only (x ∷ y ∷ xs) i j h given = let clash : none ≡ some i = h in cc

pub only-Among : (xs : List ℕ) (i : ℕ) → only xs ≡ some i → Among i xs
only-Among [] i h = cc
only-Among (x ∷ []) i h = inl cc
only-Among (x ∷ y ∷ xs) i h = cc

-- An index that is given is one of a window that is the needle.
pub positions_sound :
    (k : ℕ) (needle ls : List Bytes) (i : ℕ)
    → Among i (positions k needle ls)
    → (j : ℕ) × (i ≡ k + j) × (take (length needle) (drop j ls) ≡ needle)
unfolding positions
positions_sound k needle [] i given = elim given [ ]
positions_sound k needle (l ∷ ls) i given =
    elim (Bool-cases (same_lines (take (length needle) (l ∷ ls)) needle)) [
      | inl here ↦ elim (rw here at given) [
        | inl first ↦ (0, omega arith, same_lines-eq _ _ here)
        | inr later ↦
            let (j, place, window) = positions_sound (suc k) needle ls i later in
            (suc j, omega arith, window)
      ]
      | inr away ↦
          let (j, place, window) = positions_sound (suc k) needle ls i (rw away at given) in
          (suc j, omega arith, window)
    ]

-- A window that is the needle has its index given.
pub positions_complete :
    (k : ℕ) (needle ls : List Bytes) (j : ℕ)
    → j < length ls
    → take (length needle) (drop j ls) ≡ needle
    → Among (k + j) (positions k needle ls)
unfolding positions
positions_complete k needle [] j below window = absurd (omega arith)
positions_complete k needle (l ∷ ls) zero below window =
    let here : same_lines (take (length needle) (l ∷ ls)) needle ≡ true =
      rw window (same_lines_self needle) in
    rw here (inl (omega arith))
positions_complete k needle (l ∷ ls) (suc j) below window =
    let later : Among (suc k + j) (positions (suc k) needle ls) =
      positions_complete (suc k) needle ls j (omega arith) window in
    let moved : Among (k + suc j) (positions (suc k) needle ls) =
      subst (λ i. Among i (positions (suc k) needle ls)) (omega arith) later in
    elim (Bool-cases (same_lines (take (length needle) (l ∷ ls)) needle)) [
      | inl here ↦ rw here (inr moved)
      | inr away ↦ rw away moved
    ]

-- A window is a range.
pub get_range-window :
    (a : ℕ) (needle ls : List Bytes)
    → 1 ≤ length needle
    → take (length needle) (drop a ls) ≡ needle
    → (a + length needle ≤ length ls) × (get_range a (a + length needle) ls ≡ some needle)
get_range-window a needle ls some_line window =
    let counted : length (take (length needle) (drop a ls)) ≡ length needle = ap length window in
    let shorter = length-take (length needle) (drop a ls) in
    let dropped = length-drop a ls in
    let fits : a + length needle ≤ length ls = ground (arith, counted, shorter, dropped) in
    let width : (a + length needle) - a ≡ length needle = omega arith in
    let forth : ltb (a + length needle) a ≡ false = ground arith in
    let inside : ltb (length ls) (a + length needle) ≡ false = ground (arith, fits) in
    (fits, rw (forth, inside, width, window))

-- A range that is the needle is a window.
pub window-get_range :
    (a b : ℕ) (needle ls : List Bytes)
    → get_range a b ls ≡ some needle
    → (a ≤ b) × (b ≤ length ls) × (take (b - a) (drop a ls) ≡ needle)
window-get_range a b needle ls h = elim (Bool-cases (ltb b a || ltb (length ls) b)) [
  | inl out ↦ let clash : none ≡ some needle = rw out at h in cc
  | inr inside ↦
      let window : some (take (b - a) (drop a ls)) ≡ some needle = rw inside at h in
      (ground arith, ground arith, cc)
]

-- A window of a window is a window.
pub take-drop-take :
    {A : Type 0} (n o m : ℕ) (xs : List A)
    → o + n ≤ m
    → take n (drop o (take m xs)) ≡ take n (drop o xs)
take-drop-take zero o m xs h = refl
take-drop-take (suc n) o zero xs h = absurd (omega arith)
take-drop-take (suc n) zero (suc m) [] h = refl
take-drop-take (suc n) zero (suc m) (x ∷ xs) h =
    ap (λ l. x ∷ l) (take-drop-take n zero m xs (omega arith))
take-drop-take (suc n) (suc o) (suc m) [] h = refl
take-drop-take (suc n) (suc o) (suc m) (x ∷ xs) h = take-drop-take (suc n) o m xs (omega arith)

pub drop-drop : {A : Type 0} (o c : ℕ) (xs : List A) → drop o (drop c xs) ≡ drop (c + o) xs
drop-drop o zero xs = let same_place : 0 + o ≡ o = omega arith in rw same_place
drop-drop zero (suc c) [] = let next : suc c + 0 ≡ suc c = omega arith in rw next
drop-drop (suc o) (suc c) [] = let next : suc c + suc o ≡ suc (c + suc o) = omega arith in rw next
drop-drop o (suc c) (x ∷ xs) =
    let next : suc c + o ≡ suc (c + o) = omega arith in rw next (drop-drop o c xs)
