-- ===== src/Protocol/Local/Revisions.antt =====
-- crates/protocol/src/local.rs, `validate_ref`, against crates/domain/src/lib.rs, `BaseReference::new`.
use localreview.Prelude.{
  ℕ, ◌≡◌, refl, ◌∙◌, Bool, true, false, ◌||◌, [], ◌∷◌, ◌++◌, length, ltb, ◌==◌, if◌then◌else◌,
  arith, Bool-cases, inl, inr, append-nil, append_assoc,
}
use localreview.Prelude.Text.{Bytes, codes, same, starts_with, ends_with, contains, contains_byte}
use localreview.Prelude.Words.{
  whitespace_len, split_words, split_whitespace, emit, is_blank, has_whitespace,
}
use localreview.Prelude.Result.{ok, err}
use localreview.Domain.Errors.{invalid_base_reference}
use localreview.Domain.References.{is_revision_operator, any_byte, is_refused, base_reference}
use localreview.Protocol.Local.Texts.{is_unsafe_ref, validate_ref}
use localreview.Protocol.Local.Passed.{ok_and, not_refused, validate_text-passed}

split_words_solid :
    (word s : Bytes) → has_whitespace s ≡ false → split_words 0 word s ≡ emit (word ++ s) []
unfolding split_words has_whitespace
split_words_solid word [] h = rw append-nil
split_words_solid word (c ∷ s) h =
    let solid : whitespace_len (c ∷ s) ≡ 0 = ground arith in
    let later : has_whitespace s ≡ false = ground arith in
    rw (solid, split_words) (split_words_solid (word ++ c ∷ []) s later ∙ rw append_assoc)

is_blank_solid : (s : Bytes) → same s [] ≡ false → has_whitespace s ≡ false → is_blank s ≡ false
unfolding is_blank split_whitespace
is_blank_solid [] filled solid = ground arith
is_blank_solid (c ∷ s) filled solid =
    rw (is_blank, split_whitespace, split_words_solid [] (c ∷ s) solid)

byte_absent :
    (b c : ℕ) (s : Bytes)
    → contains_byte b (c ∷ s) ≡ false
    → ((c == b) ≡ false) × (contains_byte b s ≡ false)
byte_absent b c s h = ground arith

no_operator :
    (s : Bytes)
    → contains_byte b'~' s ≡ false
    → contains_byte b'^' s ≡ false
    → contains_byte b':' s ≡ false
    → contains_byte b'\\' s ≡ false
    → contains_byte b'?' s ≡ false
    → contains_byte b'*' s ≡ false
    → contains_byte b'[' s ≡ false
    → any_byte is_revision_operator s ≡ false
no_operator [] a b c d e f g = refl
no_operator (x ∷ s) a b c d e f g =
    let (a0, a1) = byte_absent b'~' x s a in
    let (b0, b1) = byte_absent b'^' x s b in
    let (c0, c1) = byte_absent b':' x s c in
    let (d0, d1) = byte_absent b'\\' x s d in
    let (e0, e1) = byte_absent b'?' x s e in
    let (f0, f1) = byte_absent b'*' x s f in
    let (g0, g1) = byte_absent b'[' x s g in
    rw (a0, b0, c0, d0, e0, f0, g0) (no_operator s a1 b1 c1 d1 e1 f1 g1)

or_false : (a b : Bool) → (a || b) ≡ false → (a ≡ false) × (b ≡ false)
or_false true b h = absurd (ground arith)
or_false false b h = (refl, h)

or_true : (b : Bool) → (b || true) ≡ true
or_true true = refl
or_true false = refl

-- A text that Git reads as one revision: no option, range, reflog entry or operator.
pub record IsRevision (value : Bytes) : Type 0 where
  pub filled : same value [] ≡ false
  pub fits : ltb 512 (length value) ≡ false
  pub no_option : starts_with (codes "-") value ≡ false
  pub no_nul : contains_byte 0 value ≡ false
  pub no_range : contains (codes "..") value ≡ false
  pub no_final_dot : ends_with b'.' value ≡ false
  pub no_reflog : contains (codes "@{") value ≡ false
  pub no_operators : any_byte is_revision_operator value ≡ false

pub validate_ref-IsRevision :
    (value label : Bytes) → validate_ref value label ≡ ok tt → IsRevision value
unfolding validate_ref is_unsafe_ref
validate_ref-IsRevision value label h =
    let (text, tested) = ok_and _ _ h in
    let (filled, fits, clean) = validate_text-passed value label 512 text in
    let unsafe_passed : is_unsafe_ref value ≡ false = not_refused (is_unsafe_ref value) _ tested in
    let (r0, g) = or_false _ _ unsafe_passed in
    let (r1, f) = or_false _ _ r0 in
    let (r2, e) = or_false _ _ r1 in
    let (r3, d) = or_false _ _ r2 in
    let (r4, c) = or_false _ _ r3 in
    let (r5, b) = or_false _ _ r4 in
    let (r6, a) = or_false _ _ r5 in
    let (r7, space) = or_false _ _ r6 in
    let (r8, reflog) = or_false _ _ r7 in
    let (r9, dot) = or_false _ _ r8 in
    let (r10, range) = or_false _ _ r9 in
    let (dash, nul) = or_false _ _ r10 in
    record {
      filled = filled;
      fits = fits;
      no_option = dash;
      no_nul = nul;
      no_range = range;
      no_final_dot = dot;
      no_reflog = reflog;
      no_operators = no_operator value a b c d e f g;
    }

-- A text that the forwarding protocol accepts as a base reference is one that the domain accepts, unless
-- it holds white space: such a text, a tab for one, passes the protocol and is refused by the domain.
pub validate_ref-base_reference :
    (value label : Bytes)
    → validate_ref value label ≡ ok tt
    → base_reference value ≡ (if has_whitespace value then err invalid_base_reference else ok value)
unfolding base_reference is_refused
validate_ref-base_reference value label h =
    let r = validate_ref-IsRevision value label h in
    elim (Bool-cases (has_whitespace value)) [
      | inl spaced ↦ rw (spaced, or_true)
      | inr solid ↦ rw (
        is_blank_solid value r.filled solid,
        r.fits,
        r.no_option,
        r.no_nul,
        r.no_range,
        r.no_final_dot,
        r.no_reflog,
        solid,
        r.no_operators,
      )
    ]
