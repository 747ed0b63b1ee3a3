-- ===== src/Protocol/Local/Beneath.antt =====
-- crates/protocol/src/local.rs, `validate_relative_path`: where an accepted path leads.
use localreview.Prelude.{
  ◌≡◌, refl, Bool, true, false, ◌||◌, List, [], ◌∷◌, ◌++◌, if◌then◌else◌, arith, Bool-cases, inl,
  inr,
}
use localreview.Prelude.Text.{Bytes, codes, same, starts_with}
use localreview.Prelude.Result.{ok}
use localreview.Domain.Paths.{
  Component, cur_dir, split_slashes, piece_component, piece_components, relative_components,
  components, any_escape, resolve, resolve-append,
}
use localreview.Protocol.Local.Texts.{any_parent, split_at, validate_relative_path}
use localreview.Protocol.Local.Passed.{ok_and, not_refused}

any_escape-append :
    (a b : List Component)
    → any_escape a ≡ false
    → any_escape b ≡ false
    → any_escape (a ++ b) ≡ false
any_escape-append [] b h k = k
any_escape-append (c ∷ a) b h k = let rest = any_escape-append a b (ground arith) k in ground arith

piece_stays :
    (piece : Bytes) → same piece (codes "..") ≡ false → any_escape (piece_component piece) ≡ false
piece_stays piece h = elim (Bool-cases (same piece [] || same piece (codes "."))) [
  | inl empty ↦ rw empty
  | inr full ↦ rw (full, h)
]

pieces_stay :
    (pieces : List Bytes) → any_parent pieces ≡ false → any_escape (piece_components pieces) ≡ false
pieces_stay [] h = refl
pieces_stay (piece ∷ pieces) h =
    any_escape-append (piece_component piece) (piece_components pieces)
      (piece_stays piece (ground arith)) (pieces_stay pieces (ground arith))

first_stays :
    (here : Bool) (first rest : List Component)
    → any_escape first ≡ false
    → any_escape rest ≡ false
    → any_escape ((if here then cur_dir ∷ [] else first) ++ rest) ≡ false
first_stays true first rest h k = k
first_stays false first rest h k = any_escape-append first rest h k

relative_stays :
    (pieces : List Bytes)
    → any_parent pieces ≡ false
    → any_escape (relative_components pieces) ≡ false
relative_stays [] h = refl
relative_stays (piece ∷ pieces) h =
    let rest = pieces_stay pieces (ground arith) in
    let head = piece_stays piece (ground arith) in
    first_stays (same piece (codes ".")) (piece_component piece) (piece_components pieces) head rest

or_false : (a b : Bool) → (a || b) ≡ false → (a ≡ false) × (b ≡ false)
or_false true b h = absurd (ground arith)
or_false false b h = (refl, h)

-- A relative path that the protocol accepts leads, from any directory, to that directory or to one below
-- it.
pub validate_relative_path-resolve :
    (value : Bytes) (base : List Bytes)
    → validate_relative_path value ≡ ok tt
    → (below : List Bytes) × (resolve base (components value) ≡ below ++ base)
unfolding validate_relative_path components
validate_relative_path-resolve value base h =
    let (text, tested) = ok_and _ _ h in
    let passed : (starts_with (codes "/") value
          || same value (codes ".")
          || any_parent (split_slashes value)
          || any_parent (split_at b'\\' value))
        ≡ false =
      not_refused _ (codes "repository relative path must stay beneath its workspace") tested in
    let (r0, backslashes) = or_false _ _ passed in
    let (r1, slashes) = or_false _ _ r0 in
    let absolute : starts_with (codes "/") value ≡ false =
      (or_false (starts_with (codes "/") value) (same value (codes ".")) r1).0 in
    let stays : any_escape (components value) ≡ false =
      rw (components, absolute) (relative_stays (split_slashes value) slashes) in
    resolve-append base [] (components value) stays
