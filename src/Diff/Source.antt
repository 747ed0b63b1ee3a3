-- ===== src/Diff/Source.antt =====
-- crates/diff/src/lib.rs, `SourceDocument`: one side's text with its line count.
use localreview.Prelude.{Bool, true, ◌||◌, List, [], ◌∷◌, length}
use localreview.Prelude.Text.{Bytes, ends_with}
use localreview.Prelude.Lines.{lines}
use localreview.Diff.Types.{SourceDocument, clamp32}

-- `content.is_empty()`.
abbrev pub is_empty : Bytes → Bool
is_empty [] = true
is_empty (c ∷ s) = Bool.false

-- `SourceDocument::new`.
unfoldable pub source_document : (hash : Bytes → Bytes) → Bytes → SourceDocument
source_document hash content = record {
  content = content;
  fingerprint = hash content;
  line_count = clamp32 (length (lines content));
  has_final_newline = is_empty content || ends_with b'\n' content;
}

-- `SourceDocument::lines`.
abbrev pub source_lines : SourceDocument → List Bytes
source_lines source = lines source.content
