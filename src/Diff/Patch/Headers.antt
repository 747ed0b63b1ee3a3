-- ===== src/Diff/Patch/Headers.antt =====
-- crates/diff/src/lib.rs, `parse_unified_patch`: lines that begin like the header of a file.
use localreview.Prelude.{ℕ, ◌≡◌, refl, subst, ◌++◌, Bool-cases, inl, inr, ◌⊎◌}
use localreview.Prelude.Text.{Bytes, codes, same}
use localreview.Prelude.Result.{ok, >>=-eq-ok, ok-injective}
use localreview.Diff.Types.{RoaringBitmap}
use localreview.Diff.Patch.Paths.{strip_git_patch_prefix}
use localreview.Diff.Patch.Builder.{PatchFileBuilder}
use localreview.Diff.Patch.Parse.{old_name, new_name, file_line}

-- The hunk that is being read, as it was.
pub record IsSameHunk {B : Type 0} (b b' : PatchFileBuilder B) : Type 0 where
  pub rows : b'.active_rows ≡ b.active_rows
  pub header : b'.active_header ≡ b.active_header
  pub old_line : b'.old_line ≡ b.old_line
  pub new_line : b'.new_line ≡ b.new_line

module _ (hash : Bytes → Bytes) (bm : RoaringBitmap) where
  abbrev Builder : Type 0
  Builder = PatchFileBuilder bm.Carrier

  old_name-IsSameHunk :
      (path : Bytes) (b b' : Builder) → old_name hash bm path b ≡ ok b' → IsSameHunk b b'
  unfolding old_name
  old_name-IsSameHunk path b b' h = elim (Bool-cases (same path (codes "/dev/null"))) [
    | inl null ↦
        let made = ok-injective (rw (null, old_name) at h) in
        subst (λ (d : Builder). IsSameHunk b d) made
          (record { rows = refl; header = refl; old_line = refl; new_line = refl })
    | inr named ↦
        let (old, found, h1) =
          >>=-eq-ok (strip_git_patch_prefix path) _ (rw (named, old_name) at h) in
        let made = ok-injective h1 in
        subst (λ (d : Builder). IsSameHunk b d) made
          (record { rows = refl; header = refl; old_line = refl; new_line = refl })
  ]

  new_name-IsSameHunk :
      (path : Bytes) (b b' : Builder) → new_name hash bm path b ≡ ok b' → IsSameHunk b b'
  unfolding new_name
  new_name-IsSameHunk path b b' h = elim (Bool-cases (same path (codes "/dev/null"))) [
    | inl null ↦
        let made = ok-injective (rw (null, new_name) at h) in
        subst (λ (d : Builder). IsSameHunk b d) made
          (record { rows = refl; header = refl; old_line = refl; new_line = refl })
    | inr named ↦
        let (new, found, h1) =
          >>=-eq-ok (strip_git_patch_prefix path) _ (rw (named, new_name) at h) in
        let made = ok-injective h1 in
        subst (λ (d : Builder). IsSameHunk b d) made
          (record { rows = refl; header = refl; old_line = refl; new_line = refl })
  ]

  -- A line that begins with three dashes and a space, or three pluses and a space, adds no row to the
  -- hunk that is being read and moves no line counter, also where the hunk still waits for a removal or
  -- an addition.
  pub file_line-IsSameHunk :
      (file_id : ℕ) (text : Bytes) (b b' : Builder)
      → (file_line hash bm file_id (codes "--- " ++ text) b ≡ ok b')
        ⊎ (file_line hash bm file_id (codes "+++ " ++ text) b ≡ ok b')
      → IsSameHunk b b'
  unfolding file_line
  file_line-IsSameHunk file_id text b b' (inl h) = old_name-IsSameHunk text b b' h
  file_line-IsSameHunk file_id text b b' (inr h) = new_name-IsSameHunk text b b' h
