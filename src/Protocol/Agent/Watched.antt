-- ===== src/Protocol/Agent/Watched.antt =====
-- crates/protocol/src/agent.rs: a remote repository, and the repositories of a workspace that are watched.
use localreview.Prelude.{
  ◌≡◌, sym, true, false, List, [], ◌∷◌, none, some, All, ◌⊎◌, inl, inr, Bool-cases, arith,
}
use localreview.Prelude.Text.{Bytes, codes, same, same-eq, starts_with}
use localreview.Prelude.Result.{ok}
use localreview.Protocol.Local.Passed.{ok_and, not_refused, twice_negated}
use localreview.Protocol.Local.Boundary.{StaysBeneath}
use localreview.Protocol.Local.Beneath.{validate_relative_path-resolve}
use localreview.Protocol.Agent.Types.{RemoteRepositoryRef}
use localreview.Protocol.Agent.Validate.{
  validate_absolute_remote_path, validate_reference, validate_watched, same_reference,
  has_reference,
}

-- An absolute root, and a path that stays beneath it.
pub record IsReference (reference : RemoteRepositoryRef) : Type 0 where
  pub rooted : starts_with (codes "/") reference.workspace_root ≡ true
  pub beneath : (reference.relative_path ≡ codes ".") ⊎ StaysBeneath reference.relative_path

pub absolute-rooted :
    (value label : Bytes)
    → validate_absolute_remote_path value label ≡ ok tt
    → starts_with (codes "/") value ≡ true
unfolding validate_absolute_remote_path
absolute-rooted value label h =
    let (path, tested) = ok_and _ _ h in
    twice_negated (starts_with (codes "/") value) (not_refused _ _ tested)

pub validate_reference-IsReference :
    (reference : RemoteRepositoryRef) → validate_reference reference ≡ ok tt → IsReference reference
unfolding validate_reference
validate_reference-IsReference reference h =
    let (root, relative) = ok_and _ _ h in
    record {
      rooted = absolute-rooted reference.workspace_root (codes "remote workspace root") root;
      beneath = elim (Bool-cases (same reference.relative_path (codes "."))) [
        | inl here ↦ inl (same-eq reference.relative_path (codes ".") here)
        | inr below ↦ inr (λ dirs.
            validate_relative_path-resolve reference.relative_path dirs (rw below at relative))
      ];
    }

-- References of one root that are all different.
abbrev pub AreDistinct : List RemoteRepositoryRef → Type 0
AreDistinct [] = Unit {0}
AreDistinct (r ∷ rest) = All (λ q. same_reference r q ≡ false) rest × AreDistinct rest

abbrev pub ShareRoot : Bytes → List RemoteRepositoryRef → Type 0
ShareRoot root rs = All (λ (r : RemoteRepositoryRef). r.workspace_root ≡ root) rs

abbrev Unseen : List RemoteRepositoryRef → List RemoteRepositoryRef → Type 0
Unseen seen rs = All (λ q. has_reference q seen ≡ false) rs

Unseen-cons :
    (r : RemoteRepositoryRef) (seen rs : List RemoteRepositoryRef)
    → Unseen (r ∷ seen) rs
    → All (λ q. same_reference r q ≡ false) rs × Unseen seen rs
Unseen-cons r seen [] h = (tt, tt)
Unseen-cons r seen (q ∷ rs) (first, rest) =
    let (apart, others) = Unseen-cons r seen rs rest in
    ((ground (arith, first), apart), (ground (arith, first), others))

-- What the loop has tested, behind a first root.
pub validate_watched-tested :
    (root : Bytes) (seen rs : List RemoteRepositoryRef)
    → validate_watched (some root) seen rs ≡ ok tt
    → All IsReference rs × ShareRoot root rs × AreDistinct rs × Unseen seen rs
unfolding validate_watched
validate_watched-tested root seen [] h = (tt, tt, tt, tt)
validate_watched-tested root seen (r ∷ rest) h =
    let (r0, later) = ok_and _ _ h in
    let (r1, fresh) = ok_and _ _ r0 in
    let (reference, rooted) = ok_and _ _ r1 in
    let one_root : same root r.workspace_root ≡ true = twice_negated _ (not_refused _ _ rooted) in
    let here : root ≡ r.workspace_root = same-eq root r.workspace_root one_root in
    let moved : validate_watched (some root) (r ∷ seen) rest ≡ ok tt = rw here later in
    let (references, roots, distinct, unseen) =
      validate_watched-tested root (r ∷ seen) rest moved in
    let (apart, others) = Unseen-cons r seen rest unseen in
    (
      (validate_reference-IsReference r reference, references),
      (sym here, roots),
      (apart, distinct),
      (not_refused _ _ fresh, others),
    )

-- The repositories of a watcher that passes are references of one root, all different.
pub validate_watched-distinct :
    (r : RemoteRepositoryRef) (rest : List RemoteRepositoryRef)
    → validate_watched none [] (r ∷ rest) ≡ ok tt
    → All IsReference (r ∷ rest) × ShareRoot r.workspace_root rest × AreDistinct (r ∷ rest)
unfolding validate_watched
validate_watched-distinct r rest h =
    let (r0, later) = ok_and _ _ h in
    let (r1, fresh) = ok_and _ _ r0 in
    let (reference, rooted) = ok_and _ _ r1 in
    let (references, roots, distinct, unseen) =
      validate_watched-tested r.workspace_root (r ∷ []) rest later in
    let (apart, others) = Unseen-cons r [] rest unseen in
    ((validate_reference-IsReference r reference, references), roots, (apart, distinct))
