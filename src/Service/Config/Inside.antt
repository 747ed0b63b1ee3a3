-- ===== src/Service/Config/Inside.antt =====
-- crates/service/src/config.rs: relative paths that never go up, as components.
use localreview.Prelude.{
  ℕ, ◌≡◌, refl, sym, subst, true, false, ◌==◌, ◌||◌, List, [], ◌∷◌, ◌++◌, All, map, Bool-cases, inl,
  inr, arith,
}
use localreview.Prelude.Text.{Bytes, codes, same, starts_with, contains_byte}
use localreview.Prelude.Lines.{attach}
use localreview.Domain.Paths.{
  Component, root_dir, cur_dir, parent_dir, normal, split_slashes, piece_component,
  piece_components, relative_components, components, is_escape, any_escape, resolve,
}

-- A text that is the name of a file.
pub record IsPathName (piece : Bytes) : Type 0 where
  pub slashless : contains_byte b'/' piece ≡ false
  pub filled : same piece [] ≡ false
  pub undotted : same piece (codes ".") ≡ false
  pub twice_undotted : same piece (codes "..") ≡ false

abbrev pub IsInside : Component → Type 0
IsInside root_dir = ⊥
IsInside cur_dir = Unit {0}
IsInside parent_dir = ⊥
IsInside (normal piece) = IsPathName piece

abbrev pub names : List Component → List Bytes
names [] = []
names (normal piece ∷ rest) = piece ∷ names rest
names (_ ∷ rest) = names rest

abbrev pub Slashless : List Bytes → Type 0
Slashless = All (λ piece. contains_byte b'/' piece ≡ false)

attach-Slashless :
    (c : ℕ) (pieces : List Bytes)
    → (c == b'/') ≡ false
    → Slashless pieces
    → Slashless (attach c pieces)
attach-Slashless c [] h v = (ground arith, tt)
attach-Slashless c (piece ∷ pieces) h v = (ground (arith, v.0), v.1)

split_slashes-Slashless : (s : Bytes) → Slashless (split_slashes s)
split_slashes-Slashless [] = (refl, tt)
split_slashes-Slashless (c ∷ s) =
    let rest = split_slashes-Slashless s in
    elim (Bool-cases (c == b'/')) [
      | inl slash ↦ rw slash (refl, rest)
      | inr other ↦ rw other (attach-Slashless c (split_slashes s) other rest)
    ]

piece_component-IsInside :
    (piece : Bytes)
    → contains_byte b'/' piece ≡ false
    → any_escape (piece_component piece) ≡ false
    → All IsInside (piece_component piece)
piece_component-IsInside piece h e = elim (Bool-cases (same piece [] || same piece (codes "."))) [
  | inl none_made ↦ rw none_made tt
  | inr made ↦ elim (Bool-cases (same piece (codes ".."))) [
    | inl up ↦ let clash : true ≡ false = rw (made, up) at e in cc
    | inr down ↦
        rw (made, down)
          (
            record {
              slashless = h;
              filled = ground (arith, made);
              undotted = ground (arith, made);
              twice_undotted = down;
            },
            tt,
          )
  ]
]

any_escape-append :
    (a b : List Component)
    → any_escape (a ++ b) ≡ false
    → (any_escape a ≡ false) × (any_escape b ≡ false)
any_escape-append [] b h = (refl, h)
any_escape-append (c ∷ a) b h = elim (Bool-cases (is_escape c)) [
  | inl out ↦ let clash : true ≡ false = rw out at h in cc
  | inr stays ↦ let (front, back) = any_escape-append a b (rw stays at h) in (rw stays front, back)
]

IsInside-append : (a b : List Component) → All IsInside a → All IsInside b → All IsInside (a ++ b)
IsInside-append [] b v w = w
IsInside-append (c ∷ a) b v w = (v.0, IsInside-append a b v.1 w)

piece_components-IsInside :
    (pieces : List Bytes)
    → Slashless pieces
    → any_escape (piece_components pieces) ≡ false
    → All IsInside (piece_components pieces)
piece_components-IsInside [] v h = tt
piece_components-IsInside (piece ∷ pieces) v h =
    let (front, back) = any_escape-append (piece_component piece) (piece_components pieces) h in
    IsInside-append (piece_component piece) (piece_components pieces)
      (piece_component-IsInside piece v.0 front) (piece_components-IsInside pieces v.1 back)

pub relative_components-piece :
    (piece : Bytes) (pieces : List Bytes)
    → same piece (codes ".") ≡ false
    → relative_components (piece ∷ pieces) ≡ piece_components (piece ∷ pieces)
relative_components-piece piece pieces other = rw other

relative_components-IsInside :
    (pieces : List Bytes)
    → Slashless pieces
    → any_escape (relative_components pieces) ≡ false
    → All IsInside (relative_components pieces)
relative_components-IsInside [] v h = tt
relative_components-IsInside (piece ∷ pieces) v h = elim (Bool-cases (same piece (codes "."))) [
  | inl dot ↦ rw dot (tt, piece_components-IsInside pieces v.1 (rw dot at h))
  | inr other ↦
      let as_piece = relative_components-piece piece pieces other in
      subst (λ path. All IsInside path) (sym as_piece)
        (piece_components-IsInside (piece ∷ pieces) v
          (subst (λ path. any_escape path ≡ false) as_piece h))
]

-- A relative path that never goes up has only names and dots.
pub components-IsInside :
    (value : Bytes)
    → starts_with (codes "/") value ≡ false
    → any_escape (components value) ≡ false
    → All IsInside (components value)
unfolding components
components-IsInside value relative h = rw relative (
    relative_components-IsInside (split_slashes value) (split_slashes-Slashless value)
      (rw relative at h))

-- The dots lead nowhere.
pub resolve-names :
    (path : List Component) (base : List Bytes)
    → All IsInside path
    → resolve base (map normal (names path)) ≡ resolve base path
resolve-names [] base v = refl
resolve-names (root_dir ∷ rest) base v = elim v.0 [ ]
resolve-names (cur_dir ∷ rest) base v = resolve-names rest base v.1
resolve-names (parent_dir ∷ rest) base v = elim v.0 [ ]
resolve-names (normal piece ∷ rest) base v = resolve-names rest (piece ∷ base) v.1

pub names-All : (path : List Component) → All IsInside path → All IsPathName (names path)
names-All [] v = tt
names-All (root_dir ∷ rest) v = elim v.0 [ ]
names-All (cur_dir ∷ rest) v = names-All rest v.1
names-All (parent_dir ∷ rest) v = elim v.0 [ ]
names-All (normal piece ∷ rest) v = (v.0, names-All rest v.1)
