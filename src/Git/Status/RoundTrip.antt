-- ===== src/Git/Status/RoundTrip.antt =====
-- crates/git/src/lib.rs, `parse_porcelain_v1_z`, against the lines of a status and the text that git writes
-- for them.
use localreview.Prelude.{
  ℕ, ◌≡◌, refl, ap, ◌∙◌, Bool, true, false, ◌||◌, List, [], ◌∷◌, ◌++◌, Option, none, some, All, map,
  ◌==◌, arith,
}
use localreview.Prelude.Text.{Bytes, contains_byte}
use localreview.Prelude.Lossy.{from_utf8_lossy}
use localreview.Prelude.Result.{ok}
use localreview.Protocol.Local.Texts.{split_at}
use localreview.Git.Status.{
  is_filled, fields, has_original, change_of, push, parse_fields, parse_porcelain_v1_z,
}
use localreview.Git.Status.Letters.{
  letter_of, has_source, Report, original_field, record_of, render, change_in, IsOriginal,
  IsReported, letter-nonzero, is_move-letter, change_kind-letters,
}

split_at-field :
    (field rest : Bytes)
    → contains_byte 0 field ≡ false
    → split_at 0 (field ++ 0 ∷ rest) ≡ field ∷ split_at 0 rest
split_at-field [] rest h = refl
split_at-field (c ∷ field) rest h =
    let apart : (c == 0) ≡ false = ground (arith, h) in
    let clean : contains_byte 0 field ≡ false = ground (arith, h) in
    rw (apart, split_at-field field rest clean)

pub fields-field :
    (field rest : Bytes)
    → contains_byte 0 field ≡ false
    → is_filled field ≡ true
    → fields (field ++ 0 ∷ rest) ≡ field ∷ fields rest
unfolding fields
fields-field field rest clean filled = rw (split_at-field field rest clean, filled)

head_field : Report → Bytes
head_field report = letter_of report.index ∷ letter_of report.worktree ∷ b' ' ∷ report.path

head_clean : (report : Report) → IsReported report → contains_byte 0 (head_field report) ≡ false
unfolding head_field
head_clean report h =
    rw (letter-nonzero report.index h.index, letter-nonzero report.worktree h.worktree, h.name.0)

-- A record that is no move takes one field.
parse-plain :
    (x y : ℕ) (path : Bytes) (rest : List Bytes)
    → has_original x y ≡ false
    → parse_fields ((x ∷ y ∷ b' ' ∷ path) ∷ rest)
      ≡ push (change_of x y path none) (parse_fields rest)
unfolding parse_fields
parse-plain x y path [] plain = rw plain
parse-plain x y path (next ∷ rest) plain = rw plain

parse-move :
    (x y : ℕ) (path next : Bytes) (rest : List Bytes)
    → has_original x y ≡ true
    → parse_fields ((x ∷ y ∷ b' ' ∷ path) ∷ next ∷ rest)
      ≡ push (change_of x y path (some (from_utf8_lossy next))) (parse_fields rest)
unfolding parse_fields
parse-move x y path next rest a_move = rw a_move

made_again :
    (report : Report)
    → IsReported report
    → change_of
        (letter_of report.index)
        (letter_of report.worktree)
        report.path
        report.original_path
      ≡ change_in report
unfolding change_of
made_again report h =
    rw (h.name.1, change_kind-letters report.index report.worktree h.index h.worktree)

front_append : (a b c : Bytes) → (a ++ 0 ∷ b) ++ c ≡ a ++ 0 ∷ (b ++ c)
front_append [] b c = refl
front_append (x ∷ a) b c = ap (λ s. x ∷ s) (front_append a b c)

record-step :
    (x y : ℕ) (path : Bytes) (original : Option Bytes) (a_move : Bool) (rest : Bytes)
    → has_original x y ≡ a_move
    → IsOriginal a_move original
    → contains_byte 0 (x ∷ y ∷ b' ' ∷ path) ≡ false
    → parse_fields (fields ((x ∷ y ∷ b' ' ∷ path) ++ 0 ∷ (original_field original ++ rest)))
      ≡ push (change_of x y path original) (parse_fields (fields rest))
record-step x y path none false rest plain given clean =
    ap parse_fields (fields-field (x ∷ y ∷ b' ' ∷ path) rest clean refl)
    ∙ parse-plain x y path (fields rest) plain
record-step x y path (some next) true rest a_move ((next_clean, lossless), filled) clean =
    let behind : (next ++ 0 ∷ []) ++ rest ≡ next ++ 0 ∷ rest = front_append next [] rest in
    ap parse_fields (
      fields-field (x ∷ y ∷ b' ' ∷ path) ((next ++ 0 ∷ []) ++ rest) clean refl
      ∙ ap (λ l. (x ∷ y ∷ b' ' ∷ path) ∷ l)
          (ap fields behind ∙ fields-field next rest next_clean filled))
    ∙ parse-move x y path next (fields rest) a_move
    ∙ ap (λ n. push (change_of x y path (some n)) (parse_fields (fields rest))) lossless
record-step x y path none true rest a_move given clean = elim given [ ]
record-step x y path (some next) false rest plain given clean = elim given [ ]

record-front :
    (report : Report) (rest : Bytes)
    → record_of report ++ rest
      ≡ head_field report ++ 0 ∷ (original_field report.original_path ++ rest)
unfolding head_field
record-front report rest =
    ap (λ s. letter_of report.index ∷ letter_of report.worktree ∷ b' ' ∷ s)
      (front_append report.path (original_field report.original_path) rest)

-- What git writes for the lines of a report is parsed as the changes of these lines: each with the letters,
-- the paths, and the kind that git documents for the letter of the index, or of the working tree where
-- the index is unchanged.
pub parse_porcelain_v1_z-render :
    (reports : List Report)
    → All IsReported reports
    → parse_porcelain_v1_z (render reports) ≡ ok (map change_in reports)
unfolding parse_porcelain_v1_z head_field
parse_porcelain_v1_z-render [] h = unfold fields parse_fields in refl
parse_porcelain_v1_z-render (report ∷ reports) (reported, others) =
    let sources : has_original (letter_of report.index) (letter_of report.worktree)
        ≡ (has_source report.index || has_source report.worktree) =
      rw (
        is_move-letter report.index reported.index,
        is_move-letter report.worktree reported.worktree,
      ) in
    ap (λ s. parse_fields (fields s)) (record-front report (render reports))
    ∙ record-step (letter_of report.index) (letter_of report.worktree) report.path
        report.original_path (has_source report.index || has_source report.worktree)
        (render reports) sources reported.original (head_clean report reported)
    ∙ ap (λ c. push c (parse_fields (fields (render reports)))) (made_again report reported)
    ∙ ap (push (change_in report)) (parse_porcelain_v1_z-render reports others)
