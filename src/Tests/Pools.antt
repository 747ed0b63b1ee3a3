-- ===== src/Tests/Pools.antt =====
-- The pool on a file system with one registered worktree, and the normal forms of two remotes.
use localreview.Prelude.{
  ◌≡◌, refl, ap, ◌∙◌, subst, subst₂, true, [], ◌∷◌, none, some, if◌then◌else◌, Bool-cases, inl, inr,
}
use localreview.Prelude.Text.{Bytes, codes, same, same-eq}
use localreview.Prelude.Result.{ok, err}
use localreview.Prelude.Words.{whitespace_len, is_blank}
use localreview.Domain.Paths.{components}
use localreview.Git.Command.{GitOutput, normalize_remote_url}
use localreview.Git.Pool.Types.{
  ManagedWorktree, RegistryFile, managed_mirror, dirty_managed_worktree,
  PrepareManagedWorktreeRequest,
}
use localreview.Git.Pool.Names.{
  path_starts_with, registry_path, join, safe_component, validate_review_id, validate_clone_url,
}
use localreview.Git.Pool.Host.{Session, asked_dir, ran}
use localreview.Git.Pool.Registry.{find_record, get_worktree, upsert, remove_worktree}
use localreview.Git.Pool.Registry.Mapped.{HasRecord}
use localreview.Git.Pool.Registry.Refined.{
  Holds, Refines, Worktrees, inserted, deleted, get_worktree-Holds, upsert-Refines,
  remove_worktree-Refines,
}
use localreview.Git.Pool.Sources.{is_managed_path}
use localreview.Git.Pool.Lifecycle.{prepare, delete, status_arguments}
use localreview.Git.Pool.Orphans.{repair_missing}
use localreview.Git.Pool.Trace.{licensed}
use localreview.Git.Pool.Trace.Sequences.{
  deleting, repairing, run_operations, run_operations-IsLicensed,
}
use localreview.Git.Pool.Outcomes.Dirty.{delete-dirty}
use localreview.Git.Pool.Outcomes.Again.{prepare-again}
use localreview.Git.Pool.Outcomes.Repaired.{Repaired, repair_missing-Repaired}
use localreview.Tests.Registries.{Files, host, pool, disk, encode}

abbrev existing : ManagedWorktree
existing = record {
  review_id = codes "r1";
  repository = record { host = codes "h"; owner = codes "o"; repository = codes "n" };
  worktree_path = codes "/d/reviews/r1/worktree";
  source = managed_mirror (codes "/c/git-mirrors/h/o/n.git");
  revision = record { base_sha = codes "aaaaaaa"; head_sha = codes "bbbbbbb" };
  created_at = 3;
}

abbrev file : RegistryFile
file = record { version = 1; worktrees = existing ∷ [] }

abbrev files : Files
files = record {
  directory = true;
  registry = encode file;
  temporary = none;
  worktree = true;
  changes = codes "?? new\n";
}

abbrev session : Session Files
session = record { world = files; events = [] }

path_test : registry_path pool ≡ codes "/d/managed-worktrees.json"
unfolding registry_path join
path_test = refl

here : same (registry_path pool) (codes "/d/managed-worktrees.json") ≡ true
unfolding registry_path join
here = refl

-- One worktree, under its id.
abbrev known : Worktrees
known id = if same (codes "r1") id then some existing else none

holding : Holds host (registry_path pool) files known
unfolding registry_path join
holding = record {
  file = file;
  reads = refl;
  maps = record {
    unique = (tt, tt);
    members = λ id r. (λ held. known-HasRecord id r held, λ there. HasRecord-known id r there);
  };
}
  where
    known-HasRecord :
        (id : Bytes) (r : ManagedWorktree)
        → known id ≡ some r
        → HasRecord r (existing ∷ []) × (r.review_id ≡ id)
    known-HasRecord id r held = elim (Bool-cases (same (codes "r1") id)) [
      | inl here ↦
          let found : some existing ≡ some r = rw here at held in
          let first : existing ≡ r = cc in
          (
            inl first,
            subst (λ (w : ManagedWorktree). w.review_id ≡ id) first (same-eq (codes "r1") id here),
          )
      | inr apart ↦ let clash : none ≡ some r = rw apart at held in cc
    ]

    HasRecord-known :
        (id : Bytes) (r : ManagedWorktree)
        → HasRecord r (existing ∷ []) × (r.review_id ≡ id)
        → known id ≡ some r
    HasRecord-known id r (inl first, named) =
        subst₂ (λ (k : Bytes) (w : ManagedWorktree). known k ≡ some w)
          (ap (λ (w : ManagedWorktree). w.review_id) first ∙ named) first refl
    HasRecord-known id r (inr none_there, named) = elim none_there [ ]

normal_scp : normalize_remote_url (codes "git@GitHub.com:o/r.git") ≡ codes "github.com/o/r"
unfolding normalize_remote_url whitespace_len is_blank
normal_scp = refl

normal_https :
    normalize_remote_url (codes "https://GitHub.com/o/r.git") ≡ codes "https///GitHub.com/o/r"
unfolding normalize_remote_url whitespace_len is_blank
normal_https = refl

get_worktree-Holds_example :
    get_worktree host (registry_path pool) (codes "r1") session ≡ (ok (some existing), session)
unfolding find_record
get_worktree-Holds_example =
    get_worktree-Holds host (registry_path pool) session known (codes "r1") holding

upsert-Refines_example :
    Refines host
      (registry_path pool)
      tt
      known
      (inserted existing known)
      (upsert host (registry_path pool) existing session)
upsert-Refines_example =
    upsert-Refines host (registry_path pool) (disk (registry_path pool) here) session known existing
      holding

remove_worktree-Refines_example :
    Refines host
      (registry_path pool)
      (some existing)
      known
      (deleted (codes "r1") known)
      (remove_worktree host (registry_path pool) (codes "r1") session)
unfolding find_record
remove_worktree-Refines_example =
    remove_worktree-Refines host (registry_path pool) (disk (registry_path pool) here) session known
      (codes "r1") holding

repair_missing-Repaired_example :
    Repaired host pool (existing ∷ []) known (repair_missing host pool (existing ∷ []) session)
repair_missing-Repaired_example =
    repair_missing-Repaired host pool (disk (registry_path pool) here) (λ w source. refl)
      (existing ∷ []) known session holding

abbrev request : PrepareManagedWorktreeRequest
request = record {
  review_id = codes "r1";
  repository = existing.repository;
  clone_url = codes "https://h/o/n.git";
  revision = existing.revision;
  known_clones = [];
}

prepare-again_example : (prepare host pool request session).0 ≡ ok existing
unfolding find_record validate_review_id safe_component validate_clone_url
prepare-again_example =
    prepare-again host pool session known request existing refl refl refl holding refl

abbrev output : GitOutput
output = record { success = true; stdout = codes "?? new\n"; stderr = [] }

delete-dirty_example : delete host pool (codes "r1") session ≡ (
  err (dirty_managed_worktree (codes "/d/reviews/r1/worktree")),
  record {
    world = files;
    events =
        ran
          (record {
            working_directory = codes "/d/reviews/r1/worktree";
            arguments = status_arguments;
          })
          (ok output)
        ∷ asked_dir (codes "/d/reviews/r1/worktree") true
        ∷ [];
  },
)
unfolding find_record safe_component is_managed_path join components path_starts_with
delete-dirty_example =
    delete-dirty host pool session known (codes "r1") existing output refl refl holding refl refl
      refl refl refl refl refl

run_operations-IsLicensed_example :
    licensed ((run_operations host pool (deleting (codes "r1") ∷ repairing ∷ []) session).events)
    ≡ true
unfolding licensed
run_operations-IsLicensed_example =
    run_operations-IsLicensed host pool (deleting (codes "r1") ∷ repairing ∷ []) session refl
