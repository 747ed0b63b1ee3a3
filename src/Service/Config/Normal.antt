-- ===== src/Service/Config/Normal.antt =====
-- crates/service/src/config.rs, `normalize_relative_path`: the path that it makes against the one it is given.
use localreview.Prelude.{
  ◌≡◌, refl, ap, subst, ◌∙◌, true, false, ◌==◌, List, [], ◌∷◌, ◌++◌, All, map, arith,
}
use localreview.Prelude.Text.{Bytes, codes, same, starts_with, contains_byte}
use localreview.Domain.Paths.{
  Component, root_dir, cur_dir, parent_dir, normal, split_slashes, piece_components, components,
}
use localreview.Service.Config.{normal_path}
use localreview.Service.Config.Inside.{
  IsPathName, IsInside, names, relative_components-piece, names-All,
}

-- Names with slashes between them.
joined : List Bytes → Bytes
joined [] = []
joined (name ∷ []) = name
joined (name ∷ other ∷ rest) = name ++ b'/' ∷ joined (other ∷ rest)

filled-append : (a b : Bytes) → same a [] ≡ false → same (a ++ b) [] ≡ false
filled-append [] b h = let clash : true ≡ false = h in cc
filled-append (c ∷ a) b h = refl

joined-filled :
    (name : Bytes) (rest : List Bytes) → IsPathName name → same (joined (name ∷ rest)) [] ≡ false
unfolding joined
joined-filled name [] v = v.filled
joined-filled name (other ∷ rest) v = filled-append name (b'/' ∷ joined (other ∷ rest)) v.filled

joined-cons :
    (name : Bytes) (rest : List Bytes)
    → All IsPathName rest
    → (elim (joined rest) [ [] ↦ name | c ∷ path ↦ name ++ b'/' ∷ c ∷ path ]) ≡ joined (name ∷ rest)
unfolding joined
joined-cons name [] v = refl
joined-cons name (other ∷ rest) v = after (joined (other ∷ rest)) (joined-filled other rest v.0)
  where
    after :
        (path : Bytes)
        → same path [] ≡ false
        → (elim path [ [] ↦ name | c ∷ p ↦ name ++ b'/' ∷ c ∷ p ]) ≡ name ++ b'/' ∷ path
    after [] h = let clash : true ≡ false = h in cc
    after (c ∷ p) h = refl

normal_path-joined :
    (path : List Component) → All IsInside path → normal_path path ≡ joined (names path)
normal_path-joined [] v = unfold joined in refl
normal_path-joined (root_dir ∷ rest) v = elim v.0 [ ]
normal_path-joined (cur_dir ∷ rest) v = normal_path-joined rest v.1
normal_path-joined (parent_dir ∷ rest) v = elim v.0 [ ]
normal_path-joined (normal piece ∷ rest) v =
    rw (normal_path-joined rest v.1) (joined-cons piece (names rest) (names-All rest v.1))

split_slashes-name :
    (name : Bytes) → contains_byte b'/' name ≡ false → split_slashes name ≡ name ∷ []
split_slashes-name [] h = refl
split_slashes-name (c ∷ name) h =
    let other : (c == b'/') ≡ false = ground (arith, h) in
    let later : contains_byte b'/' name ≡ false = ground (arith, h) in
    rw (other, split_slashes-name name later)

split_slashes-front :
    (name s : Bytes)
    → contains_byte b'/' name ≡ false
    → split_slashes (name ++ b'/' ∷ s) ≡ name ∷ split_slashes s
split_slashes-front [] s h = refl
split_slashes-front (c ∷ name) s h =
    let other : (c == b'/') ≡ false = ground (arith, h) in
    let later : contains_byte b'/' name ≡ false = ground (arith, h) in
    rw (other, split_slashes-front name s later)

split_slashes-joined :
    (name : Bytes) (rest : List Bytes)
    → All IsPathName (name ∷ rest)
    → split_slashes (joined (name ∷ rest)) ≡ name ∷ rest
unfolding joined
split_slashes-joined name [] v = split_slashes-name name v.0.slashless
split_slashes-joined name (other ∷ rest) v =
    split_slashes-front name (joined (other ∷ rest)) v.0.slashless
    ∙ ap (◌∷◌ name) (split_slashes-joined other rest v.1)

piece_components-names :
    (pieces : List Bytes) → All IsPathName pieces → piece_components pieces ≡ map normal pieces
piece_components-names [] v = refl
piece_components-names (piece ∷ pieces) v =
    rw (v.0.filled, v.0.undotted, v.0.twice_undotted)
      (ap (◌∷◌ (normal piece)) (piece_components-names pieces v.1))

joined-relative :
    (name : Bytes) (rest : List Bytes)
    → IsPathName name
    → starts_with (codes "/") (joined (name ∷ rest)) ≡ false
unfolding joined
joined-relative [] rest v = let clash : true ≡ false = v.filled in cc
joined-relative (c ∷ name) [] v = ground (arith, v.slashless)
joined-relative (c ∷ name) (other ∷ rest) v = ground (arith, v.slashless)

-- The normal path of such components, read again, is their names.
pub components-normal_path :
    (path : List Component) (name : Bytes) (rest : List Bytes)
    → All IsInside path
    → names path ≡ name ∷ rest
    → components (normal_path path) ≡ map normal (names path)
unfolding components
components-normal_path path name rest v e =
    let named : All IsPathName (name ∷ rest) = subst (λ l. All IsPathName l) e (names-All path v) in
    rw
      (
        normal_path-joined path v,
        e,
        joined-relative name rest named.0,
        split_slashes-joined name rest named,
      )
      (relative_components-piece name rest named.0.undotted
        ∙ piece_components-names (name ∷ rest) named)

-- Without a name, the normal path is empty.
pub normal_path-nameless :
    (path : List Component) → All IsInside path → names path ≡ [] → normal_path path ≡ []
normal_path-nameless path v e = normal_path-joined path v ∙ rw e (unfold joined in refl)
