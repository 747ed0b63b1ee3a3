-- ===== src/Git/Pool/Trace.antt =====
-- crates/git/src/pool.rs: what the pool did and asked before each worktree that it had git remove.
pub mod Sources
pub mod Records
pub mod Clean
pub mod Removals
pub mod Repairs
pub mod Sequences
use localreview.Prelude.{
  ℕ, ◌≡◌, refl, sym, ap, Bool, true, false, ◌&&◌, not, List, [], ◌∷◌, Option, none, some,
  if◌then◌else◌, Bool-cases, inl, inr,
}
use localreview.Prelude.Text.{Bytes, codes, same}
use localreview.Prelude.Result.{Result, ok, err, Result-cases}
use localreview.Git.Command.{GitCommand, GitOutput, GitError}
use localreview.Git.Pool.Types.{RepositoryPoolError}
use localreview.Git.Pool.Lifecycle.{status_arguments}
use localreview.Git.Pool.Host.{
  Host, Session, M, Event, asked_dir, ran, wrote, created, removed, renamed, then_run, ◌>>=◌, pure,
  fail, lift, ask, or_fail, effect, to_pool, successful, ask_dir, run_git, require_git, unlocked,
  with_lock,
}

-- The worktree that a command removes.
abbrev pub removal_target : List Bytes → Option Bytes
removal_target (a ∷ b ∷ path ∷ []) =
    if same a (codes "worktree") && same b (codes "remove") then some path else none
removal_target _ = none

abbrev same_words : List Bytes → List Bytes → Bool
same_words [] [] = true
same_words (a ∷ rest) (b ∷ others) = same a b && same_words rest others
same_words _ _ = false

-- The status of everything, untracked files too.
abbrev pub is_status : List Bytes → Bool
is_status arguments = same_words arguments status_arguments

-- The latest event says that nothing is lost with the worktree at a path: its status succeeded and
-- printed nothing, or there is no directory there.
unfoldable pub nothing_lost : Bytes → List Event → Bool
nothing_lost path (asked_dir p answer ∷ rest) = same p path && not answer
nothing_lost path (ran command (ok output) ∷ rest) =
    same command.working_directory path
    && is_status command.arguments
    && output.success
    && same output.stdout []
nothing_lost path _ = false

-- Each removal stands directly on an event that licenses it.
unfoldable pub licensed : List Event → Bool
unfolding nothing_lost
licensed [] = true
licensed (ran command answer ∷ rest) = elim (removal_target command.arguments) [
  | none ↦ licensed rest
  | some path ↦ nothing_lost path rest && licensed rest
]
licensed (_ ∷ rest) = licensed rest

-- An operation that keeps every removal licensed.
abbrev pub Keeps : {World A : Type 0} → M World A → Type 0
Keeps {World} m = (s : Session World) → licensed s.events ≡ true → licensed ((m s).1.events) ≡ true

pub or_fail-Keeps :
    {World A : Type 0} (o : Option A) (e : RepositoryPoolError)
    → Keeps {World = World} (or_fail o e)
or_fail-Keeps (some a) e s h = h
or_fail-Keeps none e s h = h

pub then_run-Keeps :
    {World A B : Type 0} (out : Result RepositoryPoolError A × Session World) (next : A → M World B)
    → ((a : A) → Keeps (next a))
    → licensed out.1.events ≡ true
    → licensed ((then_run out next).1.events) ≡ true
then_run-Keeps (ok a, s) next keeps h = keeps a s h
then_run-Keeps (err e, s) next keeps h = h

pub bind-Keeps :
    {World A B : Type 0} (first : M World A) (next : A → M World B)
    → Keeps first
    → ((a : A) → Keeps (next a))
    → Keeps (first >>= next)
unfolding ◌>>=◌
bind-Keeps first next keeps_first keeps_next s h =
    then_run-Keeps (first s) next keeps_next (keeps_first s h)

pub if-Keeps :
    {World A : Type 0} (b : Bool) (one other : M World A)
    → Keeps one
    → Keeps other
    → Keeps (if b then one else other)
if-Keeps true one other keeps_one keeps_other = keeps_one
if-Keeps false one other keeps_one keeps_other = keeps_other

pub option-Keeps :
    {World A B : Type 0} (o : Option A) (without : M World B) (inside : A → M World B)
    → Keeps without
    → ((a : A) → Keeps (inside a))
    → Keeps (elim o [ none ↦ without | some a ↦ inside a ])
option-Keeps none without inside keeps_without keeps_inside = keeps_without
option-Keeps (some a) without inside keeps_without keeps_inside = keeps_inside a

pub result-Keeps :
    {World E A B : Type 0} (r : Result E A) (good : A → M World B) (bad : E → M World B)
    → ((a : A) → Keeps (good a))
    → ((e : E) → Keeps (bad e))
    → Keeps (elim r [ ok a ↦ good a | err e ↦ bad e ])
result-Keeps (ok a) good bad keeps_good keeps_bad = keeps_good a
result-Keeps (err e) good bad keeps_good keeps_bad = keeps_bad e

module _ {World : Type 0} (host : Host World) where
  pub ask_dir-Keeps : (path : Bytes) → Keeps (ask_dir host path)
  unfolding licensed
  ask_dir-Keeps path s h = h

  pub run_git-Keeps :
      (directory : Bytes) (arguments : List Bytes)
      → removal_target arguments ≡ none
      → Keeps (run_git host directory arguments)
  unfolding licensed run_git
  run_git-Keeps directory arguments harmless s h = rw (licensed, run_git, harmless) h

  pub require_git-Keeps :
      (directory : Bytes) (arguments : List Bytes)
      → removal_target arguments ≡ none
      → Keeps (require_git host directory arguments)
  unfolding require_git
  require_git-Keeps directory arguments harmless =
      bind-Keeps (run_git host directory arguments) _ (run_git-Keeps directory arguments harmless)
        (λ output s h. h)

  pub with_lock-Keeps : {A : Type 0} (body : M World A) → Keeps body → Keeps (with_lock host body)
  with_lock-Keeps body keeps s h = elim (Result-cases (host.lock s.world).0) [
    | inl (held, taken) ↦ rw taken (keeps _ h)
    | inr (e, failed) ↦ rw failed h
  ]
