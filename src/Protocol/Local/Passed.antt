-- ===== src/Protocol/Local/Passed.antt =====
-- crates/protocol/src/local.rs: what a validation that succeeds has tested.
use localreview.Prelude.{
  ℕ, ◌≤◌, ◌≡◌, refl, Bool, true, false, not, List, [], ◌∷◌, Option, none, some, All, length, ltb,
  arith,
}
use localreview.Prelude.Text.{Bytes, same, contains_byte}
use localreview.Prelude.Result.{ok, err, ◌>>◌, err-ne-ok}
use localreview.Domain.References.{all_bytes}
use localreview.Protocol.Local.Texts.{
  Checked, refuse_if, is_identifier_byte, validate_text, validate_identifier,
}
use localreview.Protocol.Local.Validate.{if_present, for_each}

pub ok_and :
    (first second : Checked) → (first >> second) ≡ ok tt → (first ≡ ok tt) × (second ≡ ok tt)
ok_and (err e) second h = absurd (err-ne-ok h)
ok_and (ok tt) second h = (refl, h)

pub not_refused : (bad : Bool) (message : Bytes) → refuse_if bad message ≡ ok tt → bad ≡ false
not_refused true message h = absurd (err-ne-ok h)
not_refused false message h = refl

pub twice_negated : (b : Bool) → not b ≡ false → b ≡ true
twice_negated true h = refl
twice_negated false h = let clash : true ≡ false = h in cc

pub each_passed {ℓ} :
    {A : Type ℓ} (check : A → Checked) (xs : List A)
    → for_each check xs ≡ ok tt
    → All (λ x. check x ≡ ok tt) xs
each_passed check [] h = tt
each_passed check (x ∷ xs) h =
    let (head, rest) = ok_and (check x) (for_each check xs) h in (head, each_passed check xs rest)

-- The texts of an optional field.
abbrev pub present : Option Bytes → List Bytes
present none = []
present (some value) = value ∷ []

pub present_passed :
    (check : Bytes → Checked) (value : Option Bytes)
    → if_present check value ≡ ok tt
    → All (λ x. check x ≡ ok tt) (present value)
present_passed check none h = tt
present_passed check (some value) h = (h, tt)

pub validate_text-passed :
    (value label : Bytes) (n : ℕ)
    → validate_text value label n ≡ ok tt
    → (same value [] ≡ false) × (ltb n (length value) ≡ false) × (contains_byte 0 value ≡ false)
unfolding validate_text
validate_text-passed value label n h =
    let (a, b) = ok_and _ _ h in
    let (first, second) = ok_and _ _ a in
    (not_refused _ _ first, not_refused _ _ second, not_refused _ _ b)

-- A text of at least one byte and 128 at most, all of them letters, digits, `-`, `_` or `.`.
pub record IsIdentifier (value : Bytes) : Type 0 where
  pub nonempty : same value [] ≡ false
  pub short : length value ≤ 128
  pub plain : all_bytes is_identifier_byte value ≡ true

pub validate_identifier-IsIdentifier :
    (value label : Bytes) → validate_identifier value label ≡ ok tt → IsIdentifier value
unfolding validate_identifier
validate_identifier-IsIdentifier value label h =
    let (text, tested) = ok_and _ _ h in
    let (filled, fits, clean) = validate_text-passed value label 128 text in
    let bytes = not_refused _ _ tested in
    record { nonempty = filled; short = ground arith; plain = ground arith }
