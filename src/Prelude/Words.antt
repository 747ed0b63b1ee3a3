-- ===== src/Prelude/Words.antt =====
-- White space and numerals of a text: `char::is_whitespace`, `split_whitespace`, `trim`, `u32::from_str`,
-- `u64::from_str`, `trim_end_matches`, `split_once`.
use Prim.Native.Nat.{ℕ, zero, suc, ◌+◌, ◌-◌, ◌*◌}
use mathlib.Core.Bool.{Bool, true, false, ◌&&◌, ◌||◌}
use mathlib.Core.Option.{Option, none, some}
use mathlib.Core.List.{List, [], ◌∷◌, ◌++◌}
use localreview.Prelude.Tests.{ltb, leb, ◌==◌, if◌then◌else◌}
use localreview.Prelude.Text.{Bytes, strip_prefix}

abbrev pub between : ℕ → ℕ → ℕ → Bool
between lo hi c = leb lo c && leb c hi

wide3 : ℕ → ℕ → Bytes → ℕ
wide3 a b [] = 0
wide3 a b (c ∷ s) =
    if (a == 0xE1 && b == 0x9A && c == 0x80)
      || (a == 0xE2 && b == 0x80 && (between 0x80 0x8A c || c == 0xA8 || c == 0xA9 || c == 0xAF))
      || (a == 0xE2 && b == 0x81 && c == 0x9F)
      || (a == 0xE3 && b == 0x80 && c == 0x80)
    then 3
    else 0

wide2 : ℕ → Bytes → ℕ
wide2 a [] = 0
wide2 a (b ∷ s) = if a == 0xC2 && (b == 0x85 || b == 0xA0) then 2 else wide3 a b s

-- How many bytes the Unicode white space character at the head has; 0 if there is none.
unfoldable pub whitespace_len : Bytes → ℕ
unfolding wide2 wide3
whitespace_len [] = 0
whitespace_len (a ∷ s) = if between 9 13 a || a == 32 then 1 else wide2 a s

abbrev pub emit : Bytes → List Bytes → List Bytes
emit [] rest = rest
emit (c ∷ word) rest = (c ∷ word) ∷ rest

-- The bytes of the current white space character still to pass, the word so far, and the rest.
unfoldable pub split_words : ℕ → Bytes → Bytes → List Bytes
unfolding whitespace_len
split_words skip word [] = emit word []
split_words (suc k) word (c ∷ s) = split_words k word s
split_words zero word (c ∷ s) = elim (whitespace_len (c ∷ s)) [
  | zero ↦ split_words 0 (word ++ c ∷ []) s
  | suc k ↦ emit word (split_words k [] s)
]

unfoldable pub split_whitespace : Bytes → List Bytes
unfolding split_words
split_whitespace = split_words 0 []

-- `trim().is_empty()`.
unfoldable pub is_blank : Bytes → Bool
unfolding split_whitespace
is_blank s = elim (split_whitespace s) [ [] ↦ true | word ∷ words ↦ false ]

-- `chars().any(char::is_whitespace)`, over the characters of a UTF-8 text.
unfoldable pub has_whitespace : Bytes → Bool
unfolding whitespace_len
has_whitespace [] = false
has_whitespace (c ∷ s) = ltb 0 (whitespace_len (c ∷ s)) || has_whitespace s

unfoldable pub split_once : Bytes → Bytes → Option (Bytes × Bytes)
split_once sep [] = elim (strip_prefix sep []) [ none ↦ none | some rest ↦ some ([], rest) ]
split_once sep (c ∷ s) = elim (strip_prefix sep (c ∷ s)) [
  | some rest ↦ some ([], rest)
  | none ↦ elim (split_once sep s) [ none ↦ none | some (a, b) ↦ some (c ∷ a, b) ]
]

abbrev pub is_digit : ℕ → Bool
is_digit = between 48 57

-- Digits onto a number, refused beyond `u32::MAX`.
unfoldable pub parse_digits : ℕ → Bytes → Option ℕ
parse_digits n [] = some n
parse_digits n (c ∷ s) =
    let next = n * 10 + (c - 48) in
    elim (is_digit c && ltb next 4294967296) [ true ↦ parse_digits next s | false ↦ none ]

abbrev nonempty_digits : Bytes → Option ℕ
nonempty_digits [] = none
nonempty_digits (c ∷ s) = parse_digits 0 (c ∷ s)

-- `u32::from_str`: one `+` may stand in front.
unfoldable pub parse_u32 : Bytes → Option ℕ
unfolding parse_digits
parse_u32 [] = none
parse_u32 (c ∷ s) = if c == b'+' then nonempty_digits s else parse_digits 0 (c ∷ s)

-- `str::trim_start`: the bytes of the current white space character still to pass, and the text.
trim_start_from : ℕ → Bytes → Bytes
trim_start_from skip [] = []
trim_start_from (suc k) (c ∷ s) = trim_start_from k s
trim_start_from zero (c ∷ s) = elim (whitespace_len (c ∷ s)) [
  | zero ↦ c ∷ s
  | suc k ↦ trim_start_from k s
]

trim_end : Bytes → Bytes
trim_end [] = []
trim_end (c ∷ s) = let rest = trim_end s in if is_blank (c ∷ s) then [] else c ∷ rest

unfoldable pub trim : Bytes → Bytes
unfolding trim_start_from trim_end
trim s = trim_end (trim_start_from 0 s)

-- `trim_end_matches` of one byte.
abbrev pub trim_end_matches : ℕ → Bytes → Bytes
trim_end_matches b [] = []
trim_end_matches b (c ∷ s) = elim (trim_end_matches b s) [
  | [] ↦ if c == b then [] else c ∷ []
  | d ∷ rest ↦ c ∷ d ∷ rest
]

-- The same on digits behind a number, refused beyond `u64::MAX`.
positive_from : ℕ → Bytes → Bool
positive_from n [] = ltb 0 n
positive_from n (c ∷ s) =
    let next = n * 10 + (c - 48) in
    elim (is_digit c && ltb next 18446744073709551616) [
      | true ↦ positive_from next s
      | false ↦ false
    ]

-- `u64::from_str` gives a number that is not zero.
unfoldable pub is_positive_u64 : Bytes → Bool
unfolding positive_from
is_positive_u64 [] = false
is_positive_u64 (c ∷ s) =
    if c == b'+'
    then (elim s [ [] ↦ false | d ∷ rest ↦ positive_from 0 (d ∷ rest) ])
    else positive_from 0 (c ∷ s)

-- A text that is repetitions of `p`, the first of which has `q` left.
repeats_from : Bytes → Bytes → Bytes → Bool
repeats_from p [] [] = true
repeats_from p (x ∷ q) [] = false
repeats_from p (x ∷ q) (c ∷ s) = x == c && repeats_from p q s
repeats_from [] [] (c ∷ s) = false
repeats_from (x ∷ p) [] (c ∷ s) = x == c && repeats_from (x ∷ p) p s

-- `trim_end_matches` of a text.
unfoldable pub trim_end_text : Bytes → Bytes → Bytes
unfolding repeats_from
trim_end_text p [] = []
trim_end_text p (c ∷ s) =
    let rest = trim_end_text p s in if repeats_from p [] (c ∷ s) then [] else c ∷ rest

-- `rsplit_once` of one byte.
abbrev pub rsplit_once : ℕ → Bytes → Option (Bytes × Bytes)
rsplit_once b [] = none
rsplit_once b (c ∷ s) = elim (rsplit_once b s) [
  | some (before, after) ↦ some (c ∷ before, after)
  | none ↦ if c == b then some ([], s) else none
]
