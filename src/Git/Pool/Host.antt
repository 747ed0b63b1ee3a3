-- ===== src/Git/Pool/Host.antt =====
-- The file system and the program git as crates/git/src/pool.rs uses them: what they answer, and how they
-- leave the world. Each effect is written down, the latest in front.
use localreview.Prelude.{ℕ, Bool, List, ◌∷◌, Option, none, some, if◌then◌else◌}
use localreview.Prelude.Text.{Bytes}
use localreview.Prelude.Result.{Result, ok, err}
use localreview.Git.Command.{
  GitCommand, GitOutput, GitError, command_failed, display, stderr_trimmed,
}
use localreview.Git.Pool.Types.{RegistryFile, RepositoryPoolError, git_failed, file_failed}

pub record Host (World : Type 0) : Type 0 where
  pub path_exists : World → Bytes → Bool
  pub is_dir : World → Bytes → Bool
  pub is_empty_dir : World → Bytes → Option Bool
  pub canonicalize : World → Bytes → Option Bytes
  pub directories : World → Bytes → Option (List Bytes)
  pub read : World → Bytes → Option Bytes
  pub write : World → Bytes → Bytes → Bool × World
  pub rename : World → Bytes → Bytes → Bool × World
  pub create_dir_all : World → Bytes → Bool × World
  pub remove_dir : World → Bytes → Bool × World
  pub remove_dir_all : World → Bytes → Bool × World
  pub execute : World → GitCommand → Result GitError GitOutput × World
  -- `RepositoryPool::acquire_lock`, which waits for the lock file, and the removal of that file.
  pub lock : World → Result RepositoryPoolError (Unit {0}) × World
  pub unlock : World → World
  pub now : World → ℕ
  -- serde_json on the registry's file.
  pub encode : RegistryFile → Option Bytes
  pub decode : Bytes → Option RegistryFile

-- What was done or asked, with the answer where one was given.
pub data Event : Type 0 where
  asked_dir : (path : Bytes) (answer : Bool) → Event
  ran : (command : GitCommand) (answer : Result GitError GitOutput) → Event
  wrote created removed : (path : Bytes) → Event
  renamed : (from to : Bytes) → Event

pub record Session (World : Type 0) : Type 0 where
  pub world : World
  pub events : List Event

-- Effects stay where a step fails.
abbrev pub M : Type 0 → Type 0 → Type 0
M World A = Session World → Result RepositoryPoolError A × Session World

abbrev pub then_run :
    {World A B : Type 0}
    → Result RepositoryPoolError A × Session World
    → (A → M World B)
    → Result RepositoryPoolError B × Session World
then_run (ok a, s) next = next a s
then_run (err e, s) next = (err e, s)

infixl 5 ◌>>=◌
unfoldable pub ◌>>=◌ : {World A B : Type 0} → M World A → (A → M World B) → M World B
◌>>=◌ first next s = then_run (first s) next

abbrev pub pure : {World A : Type 0} → A → M World A
pure a s = (ok a, s)

abbrev pub fail : {World A : Type 0} → RepositoryPoolError → M World A
fail e s = (err e, s)

-- `?` on a result that has no effect.
abbrev pub lift : {World A : Type 0} → Result RepositoryPoolError A → M World A
lift result s = (result, s)

-- The answer to a question that changes nothing.
abbrev pub ask : {World A : Type 0} → (World → A) → M World A
ask question s = (ok (question s.world), s)

abbrev pub or_fail : {World A : Type 0} → Option A → RepositoryPoolError → M World A
or_fail (some a) e s = (ok a, s)
or_fail none e s = (err e, s)

-- A step on the file system, with the event that it is.
abbrev pub effect : {World : Type 0} → (World → Bool × World) → Event → Bytes → M World (Unit {0})
effect step event path s =
    let done = step s.world in
    let s' = record s { world = done.1; events = event ∷ s.events } in
    (if done.0 then ok tt else err (file_failed path), s')

abbrev pub to_pool : {A : Type 0} → Result GitError A → Result RepositoryPoolError A
to_pool (ok a) = ok a
to_pool (err e) = err (git_failed e)

-- `GitError::CommandFailed` unless the output is a success.
abbrev pub successful : GitCommand → GitOutput → Result GitError GitOutput
successful command output =
    if output.success
    then ok output
    else err (command_failed (display command) (stderr_trimmed output))

module _ {World : Type 0} (host : Host World) where
  abbrev pub ask_dir : Bytes → M World Bool
  ask_dir path s =
      let answer = host.is_dir s.world path in
      (ok answer, record s { events = asked_dir path answer ∷ s.events })

  -- `run_git`.
  unfoldable pub run_git : Bytes → List Bytes → M World GitOutput
  run_git directory arguments s =
      let command : GitCommand = record { working_directory = directory; arguments = arguments } in
      let done = host.execute s.world command in
      (to_pool done.0, record s { world = done.1; events = ran command done.0 ∷ s.events })

  -- `require_git`.
  unfoldable pub require_git : Bytes → List Bytes → M World GitOutput
  unfolding run_git
  require_git directory arguments = do
    output ← run_git directory arguments
    lift (
        to_pool
          (successful (record { working_directory = directory; arguments = arguments }) output))

  abbrev pub unlocked :
      {A : Type 0}
      → Result RepositoryPoolError A × Session World
      → Result RepositoryPoolError A × Session World
  unlocked (result, s) = (result, record s { world = host.unlock s.world })

  abbrev pub under :
      {A : Type 0}
      → Result RepositoryPoolError (Unit {0})
      → M World A
      → Session World
      → Result RepositoryPoolError A × Session World
  under (ok held) body s = unlocked (body s)
  under (err e) body s = (err e, s)

  -- `let _lock = self.acquire_lock()?;` and the drop of the lock at the end.
  abbrev pub with_lock : {A : Type 0} → M World A → M World A
  with_lock body s =
      let taken = host.lock s.world in under taken.0 body (record s { world = taken.1 })
