-- ===== src/Tests/Outputs.antt =====
-- Five records of a status and two of a raw diff.
use localreview.Prelude.{◌≡◌, refl, true, List, [], ◌∷◌, ◌++◌, none, some, All, map}
use localreview.Prelude.Text.{Bytes, codes}
use localreview.Prelude.Lossy.{from_utf8_lossy}
use localreview.Prelude.Words.{whitespace_len, split_words, split_whitespace}
use localreview.Prelude.Result.{ok}
use localreview.Git.Status.{parse_porcelain_v1_z, fields}
use localreview.Git.Status.Letters.{
  FileState, unchanged, moved, duplicated, untracked_file, Report, change_in, render, IsReported,
}
use localreview.Git.Status.RoundTrip.{parse_porcelain_v1_z-render}
use localreview.Git.RawDiff.{
  RawDiffEntry, mode_changed, copied, octal_digits, parse_octal, parse_parts, parse_header,
  single_kind, moved_entry, single_entry, parse_raw_fields, parse_raw_diff_z, is_lfs_pointer,
}
use localreview.Git.RawDiff.Shape.{IsShaped, parse_raw_diff_z-AreShaped}

abbrev reports : List Report
reports =
    record {
      index = unchanged;
      worktree = FileState.changed;
      path = codes "a b";
      original_path = none;
    }
    ∷ record {
      index = moved;
      worktree = unchanged;
      path = codes "new";
      original_path = some (codes "old");
    }
    ∷ record {
      index = duplicated;
      worktree = FileState.changed;
      path = codes "copy";
      original_path = some (codes "old");
    }
    ∷ record {
      index = untracked_file;
      worktree = untracked_file;
      path = codes "extra";
      original_path = none;
    }
    ∷ record {
      index = FileState.other b'!';
      worktree = FileState.other b'!';
      path = codes "target/";
      original_path = none;
    }
    ∷ []

reported : All IsReported reports
unfolding from_utf8_lossy
reported = (
  record { index = tt; worktree = tt; name = (refl, refl); original = tt },
  (
    record { index = tt; worktree = tt; name = (refl, refl); original = ((refl, refl), refl) },
    (
      record { index = tt; worktree = tt; name = (refl, refl); original = ((refl, refl), refl) },
      (
        record { index = tt; worktree = tt; name = (refl, refl); original = tt },
        (
          record {
            index = (refl, refl);
            worktree = (refl, refl);
            name = (refl, refl);
            original = tt;
          },
          tt,
        ),
      ),
    ),
  ),
)

parse_porcelain_v1_z-render_example :
    parse_porcelain_v1_z (render reports) ≡ ok (map change_in reports)
parse_porcelain_v1_z-render_example = parse_porcelain_v1_z-render reports reported

abbrev raw : Bytes
raw =
    codes ":100644 100755 1111111 2222222 M"
    ++ 0 ∷ codes "run.sh"
    ++ 0 ∷ codes ":100644 100644 1111111 2222222 C75"
    ++ 0 ∷ codes "one"
    ++ 0 ∷ codes "two"
    ++ 0 ∷ []

abbrev entries : List RawDiffEntry
entries =
    record {
      path = codes "run.sh";
      old_path = none;
      kind = mode_changed;
      old_mode = 33188;
      new_mode = 33261;
    }
    ∷ record {
      path = codes "two";
      old_path = some (codes "one");
      kind = copied;
      old_mode = 33188;
      new_mode = 33188;
    }
    ∷ []

parse_raw_diff_z-AreShaped_example : All IsShaped entries
unfolding parse_raw_diff_z parse_raw_fields parse_header parse_parts parse_octal octal_digits
    single_kind moved_entry single_entry fields split_whitespace split_words whitespace_len
    from_utf8_lossy
parse_raw_diff_z-AreShaped_example = parse_raw_diff_z-AreShaped raw entries refl

pointer_test :
    is_lfs_pointer (codes "version https://git-lfs.github.com/spec/v1\noid sha256:ab") ≡ true
unfolding is_lfs_pointer
pointer_test = refl
