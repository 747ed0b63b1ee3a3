-- ===== src/Git/Pool/Outcomes/Repaired.antt =====
-- crates/git/src/pool.rs, `repair_orphans`: its first loop, over the missing worktrees.
use localreview.Prelude.{
  ◌≡◌, refl, sym, ap, ◌∙◌, List, [], ◌∷◌, ◌++◌, Option, map, Bool-cases, inl, inr, ◌⊎◌,
}
use localreview.Prelude.Text.{Bytes}
use localreview.Prelude.Result.{Result, ok, err, err-ne-ok, ok-injective, Result-cases}
use localreview.Git.Command.{GitCommand}
use localreview.Git.Pool.Types.{ManagedWorktree, RepositoryPoolError, source_path}
use localreview.Git.Pool.Names.{RepositoryPool, registry_path}
use localreview.Git.Pool.Host.{Host, Session, ◌>>=◌, then_run, pure, run_git, require_git}
use localreview.Git.Pool.Registry.{remove_worktree}
use localreview.Git.Pool.Registry.Durable.{Disk, stored}
use localreview.Git.Pool.Registry.Refined.{
  Holds, Refines, Worktrees, deleted, remove_worktree-Refines,
}
use localreview.Git.Pool.Lifecycle.{prune, prune_arguments}
use localreview.Git.Pool.Orphans.{repair_missing}

-- Every one of the reviews is gone from the map.
abbrev pub without_all : List ManagedWorktree → Worktrees → Worktrees
without_all [] before = before
without_all (r ∷ rest) before = without_all rest (deleted r.review_id before)

abbrev pub id_of : ManagedWorktree → Bytes
id_of r = r.review_id

module _ {World : Type 0} (host : Host World) (pool : RepositoryPool) where
  -- `git worktree prune` in the repository `source`.
  abbrev pub prune_command : Bytes → GitCommand
  prune_command source = record { working_directory = source; arguments = prune_arguments }

  -- `git worktree prune` does not touch the registry's file.
  abbrev pub LeavesRegistry : Type 0
  LeavesRegistry =
      (w : World) (source : Bytes)
      → stored host (registry_path pool) (host.execute w (prune_command source)).1
        ≡ stored host (registry_path pool) w

  -- The records before the failure, and those behind it.
  abbrev pub Repaired :
      List ManagedWorktree
      → Worktrees
      → Result RepositoryPoolError (List Bytes) × Session World
      → Type 0
  Repaired records before out =
      ((out.0 ≡ ok (map id_of records))
        × Holds host (registry_path pool) out.1.world (without_all records before))
      ⊎ ((e : RepositoryPoolError) × (done : List ManagedWorktree) × (later : List ManagedWorktree)
          × (out.0 ≡ err e)
          × (records ≡ done ++ later)
          × Holds host (registry_path pool) out.1.world (without_all done before))

  abbrev Kept : Worktrees → Session World → Type 0
  Kept before s = Holds host (registry_path pool) s.world before

  prune-Kept :
      LeavesRegistry
      → (source : Bytes) (before : Worktrees) (s : Session World) → Kept before s
      → Kept before ((prune host pool source s).1)
  unfolding prune require_git run_git ◌>>=◌
  prune-Kept leaves source before s h = elim (Bool-cases (host.path_exists s.world source)) [
    | inr gone ↦ rw gone h
    | inl there ↦
        let command : GitCommand = prune_command source in
        let kept : Holds host (registry_path pool) (host.execute s.world command).1 before =
          record { file = h.file; reads = leaves s.world source ∙ h.reads; maps = h.maps } in
        rw there (elim (Result-cases (host.execute s.world command).0) [
          | inr (e, failed) ↦ rw failed kept
          | inl (output, done) ↦ rw done (elim (Bool-cases output.success) [
            | inl success ↦ rw success kept
            | inr failure ↦ rw failure kept
          ])
        ])
  ]

  then_listed :
      (r : ManagedWorktree) (rest : List ManagedWorktree) (before : Worktrees)
      (out : Result RepositoryPoolError (List Bytes) × Session World)
      → Repaired rest (deleted r.review_id before) out
      → Repaired (r ∷ rest) before (then_run out (λ later. pure (r.review_id ∷ later)))
  then_listed r rest before (ok ids, s) (inl (same_ids, holds)) =
      inl (ap (λ (l : List Bytes). ok (r.review_id ∷ l)) (ok-injective same_ids), holds)
  then_listed r rest before (ok ids, s) (inr (e, done, later, failed, split, holds)) =
      absurd (err-ne-ok (sym failed))
  then_listed r rest before (err e, s) (inl (same_ids, holds)) = absurd (err-ne-ok same_ids)
  then_listed r rest before (err e, s) (inr (d, done, later, failed, split, holds)) =
      inr (e, r ∷ done, later, refl, ap (λ (l : List ManagedWorktree). r ∷ l) split, holds)

  Onward : ManagedWorktree → List ManagedWorktree → Worktrees → Type 0
  Onward r rest before =
      (t : Session World)
      → Kept (deleted r.review_id before) t
      → Repaired rest (deleted r.review_id before) (repair_missing host pool rest t)

  then_removed :
      (r : ManagedWorktree) (rest : List ManagedWorktree) (before : Worktrees)
      (out : Result RepositoryPoolError (Option ManagedWorktree) × Session World)
      → Refines host
          (registry_path pool)
          (before r.review_id)
          before
          (deleted r.review_id before)
          out
      → Onward r rest before
      → Repaired (r ∷ rest) before (
          then_run out
            (λ _. repair_missing host pool rest >>= (λ later. pure (r.review_id ∷ later))))
  unfolding ◌>>=◌ Onward
  then_removed r rest before (ok _, s) (inl (same_answer, holds)) onward =
      then_listed r rest before (repair_missing host pool rest s) (onward s holds)
  then_removed r rest before (ok _, s) (inr (e, failed, holds)) onward =
      absurd (err-ne-ok (sym failed))
  then_removed r rest before (err e, s) (inl (same_answer, holds)) onward =
      absurd (err-ne-ok same_answer)
  then_removed r rest before (err e, s) (inr (d, failed, holds)) onward =
      inr (e, [], r ∷ rest, refl, refl, holds)

  module _ (disk : Disk host (registry_path pool)) (leaves : LeavesRegistry) where
    then_pruned :
        (r : ManagedWorktree) (rest : List ManagedWorktree) (before : Worktrees)
        (out : Result RepositoryPoolError (Unit {0}) × Session World)
        → Kept before out.1
        → Onward r rest before
        → Repaired (r ∷ rest) before (
            then_run out (λ _.
              remove_worktree host (registry_path pool) r.review_id
              >>= (λ _. repair_missing host pool rest >>= (λ later. pure (r.review_id ∷ later)))))
    unfolding ◌>>=◌
    then_pruned r rest before (err e, s) holds onward = inr (e, [], r ∷ rest, refl, refl, holds)
    then_pruned r rest before (ok done, s) holds onward =
        then_removed r rest before (remove_worktree host (registry_path pool) r.review_id s)
          (remove_worktree-Refines host (registry_path pool) disk s before r.review_id holds) onward

    -- Where the laws of the disk hold and git leaves the file alone, the loop gives all the review ids and
    -- the file holds the map without them; or it fails and the file holds the map without those of a
    -- first part of the list.
    pub repair_missing-Repaired :
        (records : List ManagedWorktree) (before : Worktrees) (s : Session World)
        → Holds host (registry_path pool) s.world before
        → Repaired records before (repair_missing host pool records s)
    unfolding repair_missing ◌>>=◌ Onward
    repair_missing-Repaired [] before s h = inl (refl, h)
    repair_missing-Repaired (r ∷ rest) before s h =
        then_pruned r rest before (prune host pool (source_path r.source) s)
          (prune-Kept leaves (source_path r.source) before s h)
          (λ t kept. repair_missing-Repaired rest (deleted r.review_id before) t kept)
