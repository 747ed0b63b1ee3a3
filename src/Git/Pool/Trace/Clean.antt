-- ===== src/Git/Pool/Trace/Clean.antt =====
-- crates/git/src/pool.rs: a status that is clean, and the removal directly behind it.
use localreview.Prelude.{◌≡◌, refl, Bool, true, false, [], if◌then◌else◌, Bool-cases, inl, inr}
use localreview.Prelude.Text.{Bytes, same, same_self}
use localreview.Prelude.Result.{Result, ok, err, err-ne-ok, ok-injective, Result-cases}
use localreview.Git.Command.{GitCommand, GitOutput}
use localreview.Git.Pool.Types.{RepositoryPoolError}
use localreview.Git.Pool.Names.{RepositoryPool}
use localreview.Git.Pool.Host.{Host, M, Session, ◌>>=◌, run_git, require_git, then_run}
use localreview.Git.Pool.Lifecycle.{is_dirty, status_arguments, remove_arguments}
use localreview.Git.Pool.Orphans.{orphan_is_dirty}
use localreview.Git.Pool.Trace.{
  licensed, nothing_lost, Keeps, bind-Keeps, if-Keeps, ask_dir-Keeps, run_git-Keeps, then_run-Keeps,
}

module _ {World : Type 0} (host : Host World) where
  -- The event on top licenses a removal.
  remove-Keeps :
      (source path : Bytes) (s : Session World)
      → nothing_lost path s.events ≡ true
      → licensed s.events ≡ true
      → licensed ((run_git host source (remove_arguments path) s).1.events) ≡ true
  unfolding run_git licensed
  remove-Keeps source path s now h = rw now h

  require_remove-Keeps :
      (source path : Bytes) (s : Session World)
      → nothing_lost path s.events ≡ true
      → licensed s.events ≡ true
      → licensed ((require_git host source (remove_arguments path) s).1.events) ≡ true
  unfolding require_git ◌>>=◌
  require_remove-Keeps source path s now h =
      then_run-Keeps (run_git host source (remove_arguments path) s) _ (λ output t k. k)
        (remove-Keeps source path s now h)

  -- The status of the directory is the last thing asked, and clean, where it says so.
  pub is_dirty-clean :
      (pool : RepositoryPool) (path : Bytes) (s : Session World)
      → (is_dirty host pool path s).0 ≡ ok false
      → nothing_lost path ((is_dirty host pool path s).1.events) ≡ true
  unfolding is_dirty ◌>>=◌ nothing_lost run_git
  is_dirty-clean pool path s clean = elim (Bool-cases (host.is_dir s.world path)) [
    | inr missing ↦ absurd (err-ne-ok (rw missing at clean))
    | inl there ↦
        let command : GitCommand = record {
          working_directory = path;
          arguments = status_arguments;
        } in
        let clean2 = rw there at clean in
        rw there (elim (Result-cases (host.execute s.world command).0) [
          | inr (e, failed) ↦ absurd (err-ne-ok (rw failed at clean2))
          | inl (output, done) ↦
              let clean3 = rw done at clean2 in
              rw done (elim (Bool-cases output.success) [
                | inr failed ↦ absurd (err-ne-ok (rw failed at clean3))
                | inl success ↦
                    let clean4 = rw success at clean3 in
                    rw success (elim (Bool-cases (same output.stdout [])) [
                      | inl empty ↦ rw (same_self path, empty)
                      | inr printed ↦
                          let clash : true ≡ false = ok-injective (rw printed at clean4) in cc
                    ])
              ])
        ])
  ]

  pub orphan_is_dirty-clean :
      (pool : RepositoryPool) (path : Bytes) (s : Session World)
      → (orphan_is_dirty host pool path s).0 ≡ ok false
      → nothing_lost path ((orphan_is_dirty host pool path s).1.events) ≡ true
  unfolding orphan_is_dirty ◌>>=◌ nothing_lost run_git
  orphan_is_dirty-clean pool path s clean = elim (Bool-cases (host.is_dir s.world path)) [
    | inr missing ↦ rw (missing, same_self path)
    | inl there ↦
        let command : GitCommand = record {
          working_directory = path;
          arguments = status_arguments;
        } in
        let clean2 = rw there at clean in
        rw there (elim (Result-cases (host.execute s.world command).0) [
          | inr (e, failed) ↦ absurd (err-ne-ok (rw failed at clean2))
          | inl (output, done) ↦
              let clean3 = rw done at clean2 in
              rw (done, same_self path)
                (elim (Bool-cases output.success) [
                  | inr failed ↦ let clash : true ≡ false = ok-injective (rw failed at clean3) in cc
                  | inl success ↦
                      let clean4 = rw success at clean3 in
                      rw success (elim (Bool-cases (same output.stdout [])) [
                        | inl empty ↦ empty
                        | inr printed ↦
                            let clash : true ≡ false = ok-injective (rw printed at clean4) in cc
                      ])
                ])
        ])
  ]

  pub is_dirty-Keeps : (pool : RepositoryPool) (path : Bytes) → Keeps (is_dirty host pool path)
  unfolding is_dirty
  is_dirty-Keeps pool path = bind-Keeps _ _ (ask_dir-Keeps host path) (λ there.
      if-Keeps there _ _
        (bind-Keeps _ _ (run_git-Keeps host path _ refl)
          (λ output. if-Keeps _ _ _ (λ s h. h) (λ s h. h)))
        (λ s h. h))

  pub orphan_is_dirty-Keeps :
      (pool : RepositoryPool) (path : Bytes) → Keeps (orphan_is_dirty host pool path)
  unfolding orphan_is_dirty
  orphan_is_dirty-Keeps pool path = bind-Keeps _ _ (ask_dir-Keeps host path) (λ there.
      if-Keeps there _ _ (bind-Keeps _ _ (run_git-Keeps host path _ refl) (λ output s h. h))
        (λ s h. h))

  -- A test and what follows it: where it says no, the world is as the test left it.
  after_test :
      {A : Type 0} (test : Result RepositoryPoolError Bool × Session World)
      (stay remove : M World A) (path : Bytes)
      → (test.0 ≡ ok false → nothing_lost path test.1.events ≡ true)
      → licensed test.1.events ≡ true
      → Keeps stay
      → ((s : Session World)
          → nothing_lost path s.events ≡ true
          → licensed s.events ≡ true
          → licensed ((remove s).1.events) ≡ true)
      → licensed ((then_run test (λ dirty. if dirty then stay else remove)).1.events) ≡ true
  after_test (err e, s) stay remove path clean h keeps_stay keeps_remove = h
  after_test (ok true, s) stay remove path clean h keeps_stay keeps_remove = keeps_stay s h
  after_test (ok false, s) stay remove path clean h keeps_stay keeps_remove =
      keeps_remove s (clean refl) h

  pub test-Keeps :
      {A : Type 0} (test : M World Bool) (stay remove : M World A) (path : Bytes)
      → ((s : Session World) → (test s).0 ≡ ok false → nothing_lost path (test s).1.events ≡ true)
      → Keeps test
      → Keeps stay
      → ((s : Session World)
          → nothing_lost path s.events ≡ true
          → licensed s.events ≡ true
          → licensed ((remove s).1.events) ≡ true)
      → Keeps (test >>= (λ dirty. if dirty then stay else remove))
  unfolding ◌>>=◌
  test-Keeps test stay remove path clean keeps_test keeps_stay keeps_remove s h =
      after_test (test s) stay remove path (clean s) (keeps_test s h) keeps_stay keeps_remove

  pub removal_first :
      {A : Type 0} (source path : Bytes) (next : GitOutput → M World A)
      → ((output : GitOutput) → Keeps (next output))
      → (s : Session World) → nothing_lost path s.events ≡ true
      → licensed s.events ≡ true
      → licensed (((require_git host source (remove_arguments path) >>= next) s).1.events) ≡ true
  unfolding ◌>>=◌
  removal_first source path next keeps s now h =
      then_run-Keeps (require_git host source (remove_arguments path) s) next keeps
        (require_remove-Keeps source path s now h)
