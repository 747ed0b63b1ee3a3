-- ===== src/Prelude/Lossy.antt =====
-- `String::from_utf8_lossy`: each maximal invalid piece becomes U+FFFD.
use Prim.Native.Nat.{ℕ, zero, suc}
use mathlib.Core.List.{[], ◌∷◌, ◌++◌}
use localreview.Prelude.Tests.{ltb, ◌==◌, if◌then◌else◌}
use localreview.Prelude.Text.{Bytes}
use localreview.Prelude.Words.{between}

abbrev replacement : Bytes
replacement = 0xEF ∷ 0xBF ∷ 0xBD ∷ []

-- The bytes of an unfinished character, how many are missing, and the range of the next one.
pub record Partial : Type 0 where
  pub seen : Bytes
  pub missing : ℕ
  pub low : ℕ
  pub high : ℕ

abbrev whole : Partial
whole = record { seen = []; missing = 0; low = 0x80; high = 0xBF }

abbrev starting : ℕ → ℕ → ℕ → ℕ → Partial
starting c missing low high = record { seen = c ∷ []; missing = missing; low = low; high = high }

-- A byte where a character begins: the text that it completes, and what it leaves open.
first_byte : ℕ → Bytes × Partial
first_byte c =
    if ltb c 0x80
    then (c ∷ [], whole)
    else if between 0xC2 0xDF c
    then ([], starting c 1 0x80 0xBF)
    else if c == 0xE0
    then ([], starting c 2 0xA0 0xBF)
    else if c == 0xED
    then ([], starting c 2 0x80 0x9F)
    else if between 0xE1 0xEF c
    then ([], starting c 2 0x80 0xBF)
    else if c == 0xF0
    then ([], starting c 3 0x90 0xBF)
    else if between 0xF1 0xF3 c
    then ([], starting c 3 0x80 0xBF)
    else if c == 0xF4
    then ([], starting c 3 0x80 0x8F)
    else (replacement, whole)

next_byte : ℕ → Partial → ℕ → Bytes × Partial
next_byte zero p c = first_byte c
next_byte (suc zero) p c =
    if between p.low p.high c
    then (p.seen ++ c ∷ [], whole)
    else (replacement ++ (first_byte c).0, (first_byte c).1)
next_byte (suc (suc k)) p c =
    if between p.low p.high c
    then ([], record { seen = p.seen ++ c ∷ []; missing = suc k; low = 0x80; high = 0xBF })
    else (replacement ++ (first_byte c).0, (first_byte c).1)

lossy_from : Partial → Bytes → Bytes
lossy_from p [] = elim p.missing [ zero ↦ [] | suc k ↦ replacement ]
lossy_from p (c ∷ s) = let (out, p') = next_byte p.missing p c in out ++ lossy_from p' s

unfoldable pub from_utf8_lossy : Bytes → Bytes
unfolding lossy_from next_byte first_byte
from_utf8_lossy = lossy_from whole
