-- ===== src/Diff/Patch/Sound.antt =====
-- crates/diff/src/lib.rs, `parse_unified_patch`: the builder's invariant through the loop over the lines.
use localreview.Prelude.{
  ℕ, ◌+◌, ◌≡◌, subst, Bool, true, false, List, [], ◌∷◌, Option, none, some, All, All-append, arith,
  inl, inr, Option-cases, Bool-cases, if◌then◌else◌,
}
use localreview.Prelude.Text.{Bytes, codes, same, strip_prefix}
use localreview.Prelude.Lines.{split_inclusive, strip_or_self}
use localreview.Prelude.Result.{Result, ok, ◌>>=◌, >>=-eq-ok, ok-injective}
use localreview.Diff.Types.{RoaringBitmap, DiffError, ReviewDiffDocument}
use localreview.Diff.Patch.Paths.{parse_diff_git_paths, parse_git_path, strip_git_patch_prefix}
use localreview.Diff.Patch.Builder.{PatchFileBuilder, finish}
use localreview.Diff.Patch.Numbering.{IsHunk}
use localreview.Diff.Patch.Invariant.{Inv, new_builder-Inv, start_hunk-Inv}
use localreview.Diff.Patch.Methods.{
  push_hunk_line-Inv, mark_last_line_missing_newline-Inv, finish-All,
}
use localreview.Diff.Patch.Parse.{
  Reading, on_prefix, rename_from, rename_to, old_name, new_name, hunk_line, file_line, close_file,
  read_line, read_lines, check_documents, parse_unified_patch,
}

-- Every hunk has the lines and the counts of its header.
abbrev pub IsCounted : {B : Type 0} → ReviewDiffDocument B → Type 0
IsCounted document = All (λ hunk. IsHunk hunk.header hunk.unified_rows) document.hunks

module _ (hash : Bytes → Bytes) (bm : RoaringBitmap) where
  abbrev Builder : Type 0
  Builder = PatchFileBuilder bm.Carrier

  abbrev Document : Type 0
  Document = ReviewDiffDocument bm.Carrier

  -- A method that gives a sound builder whenever it gives one.
  abbrev Keeps : (Builder → Result DiffError Builder) → Type 0
  Keeps f = (b b' : Builder) → Inv b → f b ≡ ok b' → Inv b'

  Keeps-on_prefix :
      (prefix : Bytes) (taken other : Bytes → Builder → Result DiffError Builder)
      → ((line : Bytes) → Keeps (taken line))
      → ((line : Bytes) → Keeps (other line))
      → (line : Bytes) → Keeps (on_prefix hash bm prefix taken other line)
  Keeps-on_prefix prefix taken other t o line b b' v e =
      elim (Option-cases (strip_prefix prefix line)) [
        | inl skipped ↦ o line b b' v (rw (skipped, on_prefix) at e)
        | inr (rest, found) ↦ t rest b b' v (rw (found, on_prefix) at e)
      ]

  -- A step that fails or sets fields other than those of the hunks.
  Keeps-bind :
      {A : Type 0} (m : Result DiffError A) (f : A → Builder → Builder)
      → ((a : A) (b : Builder) → Inv b → Inv (f a b))
      → Keeps (λ b. m >>= λ a. ok (f a b))
  Keeps-bind m f keep b b' v e =
      let (a, _, e') = >>=-eq-ok m _ e in
      subst (λ (c : Builder). Inv c) (ok-injective e') (keep a b v)

  rename_from-Keeps : (path : Bytes) → Keeps (rename_from hash bm path)
  unfolding rename_from
  rename_from-Keeps path =
      Keeps-bind (parse_git_path path) (λ old b. record b { old_path = some old })
        (λ old b v. record { closed = v.closed; active = v.active })

  rename_to-Keeps : (path : Bytes) → Keeps (rename_to hash bm path)
  unfolding rename_to
  rename_to-Keeps path =
      Keeps-bind (parse_git_path path) (λ new b. record b { path = new; status = _ })
        (λ new b v. record { closed = v.closed; active = v.active })

  old_name-Keeps : (path : Bytes) → Keeps (old_name hash bm path)
  unfolding old_name
  old_name-Keeps path b b' v e = elim (Bool-cases (same path (codes "/dev/null"))) [
    | inl missing ↦
        subst (λ (c : Builder). Inv c) (ok-injective (rw missing at e))
          (record { closed = v.closed; active = v.active })
    | inr named ↦
        Keeps-bind (strip_git_patch_prefix path) (λ old c. record c { old_path = some old })
          (λ old c w. record { closed = w.closed; active = w.active }) b b' v (rw named at e)
  ]

  new_name-Keeps : (path : Bytes) → Keeps (new_name hash bm path)
  unfolding new_name
  new_name-Keeps path b b' v e = elim (Bool-cases (same path (codes "/dev/null"))) [
    | inl missing ↦
        subst (λ (c : Builder). Inv c) (ok-injective (rw missing at e))
          (record { closed = v.closed; active = v.active })
    | inr named ↦
        Keeps-bind (strip_git_patch_prefix path) (λ new c. record c { path = new })
          (λ new c w. record { closed = w.closed; active = w.active }) b b' v (rw named at e)
  ]

  -- A choice by a test between two such methods.
  Keeps-if :
      (test : Bool) (f g : Builder → Result DiffError Builder)
      → Keeps f
      → Keeps g
      → Keeps (λ b. if test then f b else g b)
  Keeps-if true f g kf kg = kf
  Keeps-if false f g kf kg = kg

  hunk_line-Keeps : (file_id : ℕ) (line : Bytes) → Keeps (hunk_line hash bm file_id line)
  unfolding hunk_line
  hunk_line-Keeps file_id line = Keeps-if _ _ _ (start_hunk-Inv hash bm line) (
      Keeps-if _ _ _ (push_hunk_line-Inv hash bm file_id line) (
        Keeps-if _ _ _ (mark_last_line_missing_newline-Inv hash bm file_id)
          (λ b b' v e. subst (λ (c : Builder). Inv c) (ok-injective e) v)))

  file_line-Keeps : (file_id : ℕ) (line : Bytes) → Keeps (file_line hash bm file_id line)
  unfolding file_line
  file_line-Keeps file_id = Keeps-on_prefix (codes "rename from ") _ _ rename_from-Keeps (
      Keeps-on_prefix (codes "rename to ") _ _ rename_to-Keeps (
        Keeps-on_prefix (codes "--- ") _ _ old_name-Keeps
          (Keeps-on_prefix (codes "+++ ") _ _ new_name-Keeps (hunk_line-Keeps file_id))))

  check_documents-ok :
      (patch : Bytes) (read documents : List Document)
      → check_documents hash bm patch read ≡ ok documents
      → read ≡ documents
  unfolding check_documents
  check_documents-ok patch [] documents e = ground arith
  check_documents-ok patch (document ∷ read) documents e = ok-injective e

  none-ne-some : {A : Type 0} {a : A} → ◌≡◌ {A = Option A} none (some a) → ⊥
  none-ne-some h = cc

  same-builder : {b c : Builder} → ◌≡◌ {A = Option Builder} (some b) (some c) → b ≡ c
  same-builder h = cc

  -- Between two lines: all finished documents are counted, and the current file is sound.
  record ReadingInv (r : Reading bm.Carrier) : Type 0 where
    finished : All IsCounted r.documents
    building : (b : Builder) → r.current ≡ some b → Inv b

  close_file-IsCounted :
      (file_id comparison_id : ℕ) (r : Reading bm.Carrier) (documents : List Document)
      → ReadingInv r
      → close_file hash bm file_id comparison_id r ≡ ok documents
      → All IsCounted documents
  unfolding close_file
  close_file-IsCounted file_id comparison_id r documents v e = elim (Option-cases r.current) [
    | inl idle ↦
        subst (All (λ (d : Document). IsCounted d)) (ok-injective (rw (idle, close_file) at e))
          v.finished
    | inr (b, busy) ↦
        let (document, made, e') =
          >>=-eq-ok (finish hash bm file_id comparison_id b) _ (rw (busy, close_file) at e) in
        subst (All (λ (d : Document). IsCounted d)) (ok-injective e') (
          All-append (λ (d : Document). IsCounted d) r.documents (document ∷ []) v.finished
            (finish-All hash bm file_id comparison_id b document (v.building b busy) made, tt))
  ]

  read_line-ReadingInv :
      (comparison_id file_id : ℕ) (line : Bytes) (r r' : Reading bm.Carrier)
      → ReadingInv r
      → read_line hash bm comparison_id file_id line r ≡ ok r'
      → ReadingInv r'
  unfolding read_line
  read_line-ReadingInv comparison_id file_id line r r' v e =
      elim (Option-cases (strip_prefix (codes "diff --git ") line)) [
        | inr (paths, found) ↦
            let (documents, closed, e₁) =
              >>=-eq-ok (close_file hash bm file_id comparison_id r) _
                (rw (found, read_line) at e) in
            let (both, _, e₂) = >>=-eq-ok (parse_diff_git_paths paths) _ e₁ in
            subst (λ (q : Reading bm.Carrier). ReadingInv q) (ok-injective e₂)
              (record {
                finished = close_file-IsCounted file_id comparison_id r documents v closed;
                building = λ b now.
                    subst (λ (c : Builder). Inv c) (same-builder now)
                      (new_builder-Inv hash bm both.0 both.1);
              })
        | inl other ↦ elim (Option-cases r.current) [
          | inl idle ↦
              subst (λ (q : Reading bm.Carrier). ReadingInv q)
                (ok-injective (rw (idle, read_line) at (rw (other, read_line) at e))) v
          | inr (b, busy) ↦
              let (b', read, e₁) =
                >>=-eq-ok (file_line hash bm file_id line b) _
                  (rw (busy, read_line) at (rw (other, read_line) at e)) in
              subst (λ (q : Reading bm.Carrier). ReadingInv q) (ok-injective e₁)
                (record {
                  finished = v.finished;
                  building = λ c now.
                      subst (λ (d : Builder). Inv d) (same-builder now)
                        (file_line-Keeps file_id line b b' (v.building b busy) read);
                })
        ]
      ]

  read_lines-IsCounted :
      (comparison_id : ℕ) (ids : ℕ → ℕ) (index : ℕ) (raw_lines : List Bytes)
      (r : Reading bm.Carrier) (documents : List Document)
      → ReadingInv r
      → read_lines hash bm comparison_id ids index raw_lines r ≡ ok documents
      → All IsCounted documents
  unfolding read_lines
  read_lines-IsCounted comparison_id ids index [] r documents v e =
      close_file-IsCounted (ids index) comparison_id r documents v e
  read_lines-IsCounted comparison_id ids index (raw ∷ raws) r documents v e =
      let line = strip_or_self b'\n' raw in
      let (r', read, e') = >>=-eq-ok (read_line hash bm comparison_id (ids index) line r) _ e in
      read_lines-IsCounted comparison_id ids (index + 1) raws r' documents
        (read_line-ReadingInv comparison_id (ids index) line r r' v read) e'

  -- In every document of a patch that parses, the rows of each hunk stand at the lines from the header's
  -- starts on, have the cells of their kinds, and have its counts.
  pub parse_unified_patch-IsCounted :
      (ids : ℕ → ℕ) (patch : Bytes) (comparison_id : ℕ) (documents : List Document)
      → parse_unified_patch hash bm ids patch comparison_id ≡ ok documents
      → All IsCounted documents
  unfolding parse_unified_patch
  parse_unified_patch-IsCounted ids patch comparison_id documents e =
      let (read, reads, e') =
        >>=-eq-ok (read_lines hash bm comparison_id ids 0 (split_inclusive patch) _) _ e in
      subst (All (λ (d : Document). IsCounted d)) (check_documents-ok patch read documents e') (
        read_lines-IsCounted comparison_id ids 0 (split_inclusive patch) _ read
          (record { finished = tt; building = λ b now. absurd (none-ne-some now) }) reads)
