-- ===== src/Tests/Comparisons.antt =====
-- The changes of a small pair of sources, and the document that is made of them.
use localreview.Prelude.{refl, List, [], ◌∷◌, none, some, arith}
use localreview.Prelude.Text.{Bytes, codes}
use localreview.Diff.Types.{ReviewFile, modified}
use localreview.Diff.Compare.{equal, delete, insert, Change, document_from_sources}
use localreview.Diff.Compare.Numbered.{document_from_sources-IsCounted}
use localreview.Diff.Patch.Sound.{IsCounted}
use localreview.Tests.Diffs.{digest, listed}

abbrev file : ReviewFile
file = record { id = 1; path = codes "f.rs"; old_path = none; status = modified }

-- The second of three lines is replaced.
abbrev changes : List Change
changes =
    record { tag = equal; old_index = some 0; new_index = some 0; value = codes "one\n" }
    ∷ record { tag = delete; old_index = some 1; new_index = none; value = codes "two\n" }
    ∷ record { tag = insert; old_index = none; new_index = some 1; value = codes "TWO\n" }
    ∷ record { tag = equal; old_index = some 2; new_index = some 2; value = codes "three\n" }
    ∷ []

abbrev grouped : Bytes → Bytes → List (List Change)
grouped old new = changes ∷ []

document_from_sources-IsCounted_example : IsCounted (
    document_from_sources digest listed grouped 7 file
      (codes "one\ntwo\nthree\n")
      (codes "one\nTWO\nthree\n"))
document_from_sources-IsCounted_example =
    document_from_sources-IsCounted digest listed grouped 7 file (codes "one\ntwo\nthree\n")
      (codes "one\nTWO\nthree\n")
      (
        (
          0,
          0,
          (
            (refl, refl, omega arith, omega arith),
            (
              (refl, omega arith),
              ((refl, omega arith), ((refl, refl, omega arith, omega arith), tt)),
            ),
          ),
        ),
        tt,
      )
