-- ===== src/Prelude/Lines.antt =====
-- Lines of a text: `str::split_inclusive('\n')` and `str::lines`.
use localreview.Prelude.Tests.{◌==◌, if◌then◌else◌}
use localreview.Prelude.Text.{Bytes}
use Prim.Native.Nat.{ℕ}
use mathlib.Core.Option.{Option, none, some}
use mathlib.Core.List.{List, [], ◌∷◌, map}

-- A byte in front of the first piece.
abbrev pub attach : ℕ → List Bytes → List Bytes
attach c [] = (c ∷ []) ∷ []
attach c (piece ∷ pieces) = (c ∷ piece) ∷ pieces

abbrev pub split_inclusive : Bytes → List Bytes
split_inclusive [] = []
split_inclusive (c ∷ s) =
    let rest = split_inclusive s in if c == b'\n' then (c ∷ []) ∷ rest else attach c rest

-- `strip_suffix` of one byte.
abbrev pub strip_suffix : ℕ → Bytes → Option Bytes
strip_suffix b [] = none
strip_suffix b (c ∷ []) = if c == b then some [] else none
strip_suffix b (c ∷ d ∷ s) = elim (strip_suffix b (d ∷ s)) [ none ↦ none | some r ↦ some (c ∷ r) ]

abbrev pub strip_or_self : ℕ → Bytes → Bytes
strip_or_self b s = elim (strip_suffix b s) [ none ↦ s | some r ↦ r ]

-- A `\r` goes only with the `\n` behind it.
abbrev pub line_of_piece : Bytes → Bytes
line_of_piece piece = elim (strip_suffix b'\n' piece) [
  | none ↦ piece
  | some r ↦ strip_or_self b'\r' r
]

abbrev pub lines : Bytes → List Bytes
lines s = map line_of_piece (split_inclusive s)
