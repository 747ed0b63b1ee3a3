-- ===== src/Service/Config/Names.antt =====
-- crates/service/src/config.rs: where the paths of a configuration lead.
use localreview.Prelude.{
  ℕ, ◌≡◌, refl, sym, ap, subst, ◌∙◌, true, false, ◌||◌, List, [], ◌∷◌, ◌++◌, All, Bool-cases, inl,
  inr, ◌⊎◌, arith,
}
use localreview.Prelude.Text.{Bytes, codes, same, same-eq, starts_with}
use localreview.Prelude.Result.{ok, err-ne-ok, ok-injective}
use localreview.Domain.References.{any_byte}
use localreview.Domain.Paths.{Component, components, any_escape, resolve, resolve-append}
use localreview.Service.Config.{
  normal_path, normalize_relative_path, strip_glob, is_glob_byte, exclude_field,
  parse_excluded_prefix,
}
use localreview.Service.Config.Inside.{IsInside, names, components-IsInside, resolve-names}
use localreview.Service.Config.Normal.{components-normal_path, normal_path-nameless}

strip_glob_cases :
    (value : Bytes) → (value ≡ strip_glob value) ⊎ (value ≡ strip_glob value ++ codes "/**")
strip_glob_cases [] = inl refl
strip_glob_cases (c ∷ s) = elim (Bool-cases (same (c ∷ s) (codes "/**"))) [
  | inl glob ↦ inr (rw glob (same-eq (c ∷ s) (codes "/**") glob))
  | inr other ↦ elim (strip_glob_cases s) [
    | inl whole ↦ inl (rw other (ap (◌∷◌ c) whole))
    | inr cut ↦ inr (rw other (ap (◌∷◌ c) cut))
  ]
]

-- What a relative path that is accepted leads to, and that it does not go up.
abbrev Leads : Bytes → Bytes → List Bytes → Type 0
Leads value path base =
    (any_escape (components value) ≡ false)
    × (resolve base (components path) ≡ resolve base (components value))

named-Leads :
    (cs : List Component) (base l : List Bytes)
    → All IsInside cs
    → names cs ≡ l
    → same (normal_path cs) [] ≡ false
    → resolve base (components (normal_path cs)) ≡ resolve base cs
named-Leads cs base [] v e filled =
    let clash : true ≡ false =
      subst (λ (s : Bytes). same s [] ≡ false) (normal_path-nameless cs v e) filled in
    cc
named-Leads cs base (name ∷ rest) v e filled =
    ap (resolve base) (components-normal_path cs name rest v e) ∙ resolve-names cs base v

normalize_relative_path-Leads :
    (field value path : Bytes) (base : List Bytes)
    → normalize_relative_path field value ≡ ok path
    → Leads value path base
unfolding normalize_relative_path
normalize_relative_path-Leads field value path base h =
    elim (Bool-cases
      (same value [] || starts_with (codes "/") value || any_escape (components value))) [
        | inl refused ↦ absurd (err-ne-ok (rw (refused, normalize_relative_path) at h))
        | inr passed ↦
            let stays : any_escape (components value) ≡ false = ground (arith, passed) in
            let relative : starts_with (codes "/") value ≡ false = ground (arith, passed) in
            let inside = components-IsInside value relative stays in
            elim (Bool-cases (same (normal_path (components value)) [])) [
              | inr filled ↦
                  let made : normal_path (components value) ≡ path =
                    ok-injective (rw (passed, filled) at h) in
                  (
                    stays,
                    rw (← made) (
                        named-Leads (components value) base (names (components value)) inside refl
                          filled),
                  )
              | inl empty ↦ elim (Bool-cases (same value (codes "."))) [
                | inr other ↦ absurd (err-ne-ok (rw (passed, empty, other) at h))
                | inl dot ↦
                    let made : codes "." ≡ path = ok-injective (rw (passed, empty, dot) at h) in
                    (
                      stays,
                      ap (λ s. resolve base (components s))
                          (sym made ∙ sym (same-eq value (codes ".") dot)),
                    )
              ]
            ]
      ]

-- An exclusion that is accepted is a text without wildcards, or such a text with `/**` behind it. The path
-- that is made of it, read from any directory, leads to the same directory as that text, which is the one
-- it is read from or one below it.
pub parse_excluded_prefix-resolve :
    (index : ℕ) (value path : Bytes) (base : List Bytes)
    → parse_excluded_prefix index value ≡ ok path
    → (prefix : Bytes) × ((value ≡ prefix) ⊎ (value ≡ prefix ++ codes "/**"))
      × (any_byte is_glob_byte prefix ≡ false)
      × (resolve base (components path) ≡ resolve base (components prefix))
      × ((below : List Bytes) × (resolve base (components path) ≡ below ++ base))
unfolding parse_excluded_prefix
parse_excluded_prefix-resolve index value path base h =
    elim (Bool-cases (any_byte is_glob_byte (strip_glob value))) [
      | inl wild ↦ absurd (err-ne-ok (rw (wild, parse_excluded_prefix) at h))
      | inr plain ↦
          let (stays, leads) =
            normalize_relative_path-Leads (exclude_field index) (strip_glob value) path base
              (rw (plain, parse_excluded_prefix) at h) in
          let (below, beneath) = resolve-append base [] (components (strip_glob value)) stays in
          (strip_glob value, strip_glob_cases value, plain, leads, (below, leads ∙ beneath))
    ]
