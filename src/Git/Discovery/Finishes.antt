-- ===== src/Git/Discovery/Finishes.antt =====
-- crates/git/src/lib.rs, `discover_repositories`: the fuel that its loop takes.
use localreview.Prelude.{
  ℕ, zero, suc, ◌+◌, ◌-◌, ◌≤◌, ◌<◌, ◌≡◌, refl, sym, ap, subst, ◌∙◌, List, [], ◌∷◌, ◌++◌, Option,
  some, leb, ◌⊎◌, inl, inr, Bool-cases, Option-cases, arith,
}
use localreview.Prelude.Text.{Bytes}
use localreview.Prelude.Result.{
  Result, ok, err, ◌>>=◌, >>=-eq-ok, ok-injective, err-ne-ok, Result-cases,
}
use localreview.Git.Command.{GitError}
use localreview.Git.Pool.Sets.{has_path}
use localreview.Git.Pool.Sources.{RepositoryIdentity}
use localreview.Git.Discovery.{
  DiscoveryConfig, DiscoveredRepository, DirEntry, Walker, Walk, candidates, dedupe_key, keep,
  below, descend, visit, sort_repositories, search, discover_repositories,
}

abbrev pub sum_of : (Bytes → ℕ) → List Bytes → ℕ
sum_of f [] = 0
sum_of f (d ∷ ds) = f d + sum_of f ds

module _ (walker : Walker) (root : Bytes) (config : DiscoveryConfig) where
  abbrev pub children : Bytes → List Bytes
  children directory = elim (walker.read_dir directory) [
    | ok entries ↦ candidates walker root config directory entries
    | err e ↦ []
  ]

  -- The directories down to a number of levels below a directory, itself counted.
  abbrev pub weight : ℕ → Bytes → ℕ
  weight zero directory = 1
  weight (suc levels) directory = suc (sum_of (weight levels) (children directory))

  abbrev queue_weight : List (Bytes × ℕ) → ℕ
  queue_weight [] = 0
  queue_weight ((directory, depth) ∷ rest) =
      weight (config.max_depth - depth) directory + queue_weight rest

  weight_positive : (levels : ℕ) (directory : Bytes) → 1 ≤ weight levels directory
  weight_positive zero directory = omega arith
  weight_positive (suc levels) directory = omega arith

  queue_weight-append :
      (a b : List (Bytes × ℕ)) → queue_weight (a ++ b) ≡ queue_weight a + queue_weight b
  queue_weight-append [] b = omega arith
  queue_weight-append ((directory, depth) ∷ a) b = let rest = queue_weight-append a b in omega arith

  queue_weight-below :
      (depth : ℕ) (ds : List Bytes)
      → queue_weight (below walker root config depth ds)
        ≡ sum_of (weight (config.max_depth - depth)) ds
  queue_weight-below depth [] = refl
  queue_weight-below depth (d ∷ ds) = let rest = queue_weight-below depth ds in omega arith

  keep-pending :
      (directory : Bytes) (identity : RepositoryIdentity) (walk : Walk)
      → (keep walker root config directory identity walk).pending ≡ walk.pending
  unfolding keep
  keep-pending directory identity walk =
      elim (Bool-cases (has_path (dedupe_key walker root config identity) walk.seen)) [
        | inl known ↦ rw known
        | inr fresh ↦ rw fresh
      ]

  children_listed :
      (directory : Bytes) (entries : List DirEntry)
      → walker.read_dir directory ≡ ok entries
      → children directory ≡ candidates walker root config directory entries
  children_listed directory entries listed = rw (children, listed)

  weight_step :
      (levels below_levels : ℕ) (directory : Bytes) (entries : List DirEntry)
      → levels ≡ suc below_levels
      → walker.read_dir directory ≡ ok entries
      → weight levels directory
        ≡ suc (sum_of (weight below_levels) (candidates walker root config directory entries))
  weight_step levels below_levels directory entries deeper listed =
      rw deeper (
        ap (λ ds. suc (sum_of (weight below_levels) ds)) (children_listed directory entries listed))

  descend-weight :
      (directory : Bytes) (depth : ℕ) (walk after : Walk)
      → depth < config.max_depth
      → descend walker root config directory depth walk ≡ ok after
      → suc (queue_weight after.pending)
        ≤ weight (config.max_depth - depth) directory + queue_weight walk.pending
  unfolding descend
  descend-weight directory depth walk after higher h =
      let (entries, listed, made) = >>=-eq-ok (walker.read_dir directory) _ h in
      let ds : List Bytes = candidates walker root config directory entries in
      let same_walk : record walk {
        pending = walk.pending ++ below walker root config (suc depth) ds;
      }
          ≡ after =
        ok-injective made in
      let waiting : queue_weight (walk.pending ++ below walker root config (suc depth) ds)
          ≡ queue_weight walk.pending + sum_of (weight (config.max_depth - suc depth)) ds =
        queue_weight-append walk.pending (below walker root config (suc depth) ds)
        ∙ ap (λ n. queue_weight walk.pending + n) (queue_weight-below (suc depth) ds) in
      let levels : config.max_depth - depth ≡ suc (config.max_depth - suc depth) = omega arith in
      let counted : weight (config.max_depth - depth) directory
          ≡ suc (sum_of (weight (config.max_depth - suc depth)) ds) =
        weight_step (config.max_depth - depth) (config.max_depth - suc depth) directory entries
          levels listed in
      subst
        (λ (w : Walk).
          suc (queue_weight w.pending)
          ≤ weight (config.max_depth - depth) directory + queue_weight walk.pending)
        same_walk (omega arith)

  visit-weight :
      (directory : Bytes) (depth : ℕ) (walk after : Walk)
      → visit walker root config directory depth walk ≡ ok after
      → suc (queue_weight after.pending)
        ≤ weight (config.max_depth - depth) directory + queue_weight walk.pending
  unfolding visit
  visit-weight directory depth walk after h =
      let some_weight = weight_positive (config.max_depth - depth) directory in
      let unchanged : (after.pending ≡ walk.pending)
          → suc (queue_weight after.pending)
            ≤ weight (config.max_depth - depth) directory + queue_weight walk.pending =
        (λ same_queue. let weights = ap queue_weight same_queue in omega arith) in
      elim (Option-cases (walker.symlink_metadata directory)) [
        | inl unread ↦ absurd (err-ne-ok (rw (visit, unread) at h))
        | inr (plain, read) ↦ elim (Bool-cases plain) [
          | inr file ↦
              unchanged
                (ap (λ (w : Walk). w.pending) (sym (ok-injective (rw (visit, read, file) at h))))
          | inl dir ↦ elim (Bool-cases (walker.has_git_marker directory)) [
            | inl marked ↦
                let (identity, inspected, kept) =
                  >>=-eq-ok (walker.inspect directory)
                    (λ identity. ok (keep walker root config directory identity walk))
                    (rw (visit, read, dir, marked) at h) in
                unchanged (
                  ap (λ (w : Walk). w.pending) (sym (ok-injective kept))
                  ∙ keep-pending directory identity walk)
            | inr unmarked ↦ elim (Bool-cases (leb config.max_depth depth)) [
              | inl deepest ↦ unchanged (
                  ap (λ (w : Walk). w.pending)
                    (sym (ok-injective (rw (visit, read, dir, unmarked, deepest) at h))))
              | inr higher ↦
                  descend-weight directory depth walk after (ground (arith, higher))
                    (rw (visit, read, dir, unmarked, higher) at h)
            ]
          ]
        ]
      ]

  -- An error, or the repositories; not the end of the fuel.
  abbrev pub Finished : Result GitError (Option (List DiscoveredRepository)) → Type 0
  Finished out =
      ((e : GitError) × (out ≡ err e))
      ⊎ ((found : List DiscoveredRepository) × (out ≡ ok (some found)))

  search-Finished :
      (fuel : ℕ) (pending : List (Bytes × ℕ)) (discovered : List DiscoveredRepository)
      (seen : List Bytes)
      → queue_weight pending ≤ fuel
      → Finished (
          search walker root config fuel
            (record { pending = pending; discovered = discovered; seen = seen }))
  unfolding search
  search-Finished zero [] discovered seen h = inr (sort_repositories discovered, refl)
  search-Finished (suc fuel) [] discovered seen h = inr (sort_repositories discovered, refl)
  search-Finished zero ((directory, depth) ∷ rest) discovered seen h =
      let some_weight = weight_positive (config.max_depth - depth) directory in absurd (omega arith)
  search-Finished (suc fuel) ((directory, depth) ∷ rest) discovered seen h =
      let walk : Walk = record { pending = rest; discovered = discovered; seen = seen } in
      elim (Result-cases (visit walker root config directory depth walk)) [
        | inr (e, failed) ↦ inl (e, ap (λ out. out >>= search walker root config fuel) failed)
        | inl (after, done) ↦
            let lighter = visit-weight directory depth walk after done in
            subst Finished (sym (ap (λ out. out >>= search walker root config fuel) done))
              (search-Finished fuel after.pending after.discovered after.seen (omega arith))
      ]

  -- With fuel for the directories down to the greatest depth, the search ends: with an error, or with the
  -- repositories.
  pub discover_repositories-Finished :
      (fuel : ℕ)
      → weight config.max_depth root ≤ fuel
      → Finished (discover_repositories walker root config fuel)
  unfolding discover_repositories
  discover_repositories-Finished fuel h =
      search-Finished fuel ((root, 0) ∷ []) [] [] (
        let whole : config.max_depth - 0 ≡ config.max_depth = omega arith in rw whole (omega arith))
