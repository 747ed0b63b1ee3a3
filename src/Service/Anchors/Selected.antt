-- ===== src/Service/Anchors/Selected.antt =====
-- crates/service/src/lib.rs, `reanchor`: the lines of an annotation that is attached again.
use localreview.Prelude.{
  ℕ, ◌-◌, ◌≤◌, ◌<◌, ◌≡◌, sym, ap, ◌∙◌, false, List, none, some, length, inl, inr, Option-cases,
}
use localreview.Prelude.Text.{Bytes}
use localreview.Prelude.Lines.{lines}
use localreview.Prelude.Result.{Result-cases}
use localreview.Domain.Annotations.{
  DiffSide, AnnotationAnchor, LineAnchorInput, from_line, from_line-range,
}
use localreview.Diff.Types.{ReviewDiffDocument}
use localreview.Service.Anchors.{
  get_range, slice, join_lines, surrounding_context, candidate, content_of, rebuild, rebuild_at,
  reanchor,
}
use localreview.Service.Anchors.Places.{Placed, candidate-Placed}

module _ {Bitmap : Type 0} (hash : Bytes → Bytes) where
  -- The new anchor is current and on the same side, and its lines are there and
  -- are the lines of the old selection.
  abbrev pub Reattached :
      AnnotationAnchor → ReviewDiffDocument Bitmap → DiffSide → AnnotationAnchor → Type 0
  Reattached anchor document side rebuilt =
      (start : ℕ) × (end : ℕ) × (rebuilt.start_line ≡ some start)
      × (rebuilt.end_line ≡ some end)
      × (rebuilt.side ≡ some side)
      × (rebuilt.outdated ≡ false)
      × (1 ≤ start)
      × (start ≤ end)
      × (end ≤ length (lines (content_of side document)))
      × (get_range (start - 1) end (lines (content_of side document))
          ≡ some (lines anchor.selected_source))

  rebuild-Reattached :
      (anchor rebuilt : AnnotationAnchor) (document : ReviewDiffDocument Bitmap) (comparison_id : ℕ)
      (side : DiffSide) (start end : ℕ)
      → Placed (lines (content_of side document)) (lines anchor.selected_source) start end
      → rebuild hash anchor document comparison_id side (start, end) ≡ some rebuilt
      → Reattached anchor document side rebuilt
  unfolding rebuild
  rebuild-Reattached anchor rebuilt document comparison_id side start end (inside, range) h =
      let ls : List Bytes = lines (content_of side document) in
      let input : LineAnchorInput = record {
        comparison_id = comparison_id;
        repository_id = anchor.repository_id;
        file_path = document.file.path;
        side = side;
        start_line = start;
        end_line = end;
        selected_source = join_lines (slice (start - 1) end ls);
        surrounding_context = surrounding_context ls start end;
      } in
      elim (Result-cases (from_line hash input)) [
        | inr (e, refused) ↦ let clash : none ≡ some rebuilt = rw (rebuild, refused) at h in cc
        | inl (made, done) ↦
            let (based, forth, sided, first, last) = from_line-range hash input made done in
            let value : some (record made { old_path = document.file.old_path; outdated = false })
                ≡ some rebuilt =
              rw (rebuild, done) at h in
            let same_anchor : record made { old_path = document.file.old_path; outdated = false }
                ≡ rebuilt =
              cc in
            (
              start,
              end,
              ap (λ (a : AnnotationAnchor). a.start_line) (sym same_anchor) ∙ first,
              ap (λ (a : AnnotationAnchor). a.end_line) (sym same_anchor) ∙ last,
              ap (λ (a : AnnotationAnchor). a.side) (sym same_anchor) ∙ sided,
              ap (λ (a : AnnotationAnchor). a.outdated) (sym same_anchor),
              based,
              forth,
              inside,
              range,
            )
      ]

  -- Where the document has fewer than 2 ^ 32 lines on the side of an anchor, the anchor that `reanchor`
  -- makes of it is current and on that side, and its lines are lines of the document and are the lines
  -- that the old anchor selected.
  pub reanchor-Reattached :
      (anchor rebuilt : AnnotationAnchor) (document : ReviewDiffDocument Bitmap) (comparison_id : ℕ)
      (side : DiffSide)
      → anchor.side ≡ some side
      → length (lines (content_of side document)) < 4294967296
      → reanchor hash anchor document comparison_id ≡ some rebuilt
      → Reattached anchor document side rebuilt
  unfolding reanchor
  reanchor-Reattached anchor rebuilt document comparison_id side sided few h =
      elim (Option-cases anchor.start_line) [
        | inl missing ↦ let clash : none ≡ some rebuilt = rw (sided, missing) at h in cc
        | inr (old_start, first) ↦ elim (Option-cases anchor.end_line) [
          | inl missing ↦ let clash : none ≡ some rebuilt = rw (sided, first, missing) at h in cc
          | inr (old_end, last) ↦
              let placed : rebuild_at hash anchor document comparison_id side (
                    candidate (lines (content_of side document)) (lines anchor.selected_source)
                      (lines anchor.surrounding_context) old_start old_end)
                  ≡ some rebuilt =
                rw (sided, first, last) at h in
              elim (Option-cases (
                candidate (lines (content_of side document)) (lines anchor.selected_source)
                  (lines anchor.surrounding_context) old_start old_end)) [
                    | inl lost ↦ let clash : none ≡ some rebuilt = rw lost at placed in cc
                    | inr ((start, end), found) ↦
                        rebuild-Reattached anchor rebuilt document comparison_id side start end
                          (candidate-Placed (lines (content_of side document))
                            (lines anchor.selected_source) (lines anchor.surrounding_context)
                            old_start old_end start end few found)
                          (rw found at placed)
                  ]
        ]
      ]
