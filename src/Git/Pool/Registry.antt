-- ===== src/Git/Pool/Registry.antt =====
-- crates/git/src/pool.rs, `WorktreeRegistry`: the file of the managed worktrees.
pub mod Finite
pub mod Mapped
pub mod Durable
pub mod Refined
use localreview.Prelude.{
  ℕ, Bool, true, false, not, List, [], ◌∷◌, ◌++◌, Option, none, some, ltb, ◌==◌, if◌then◌else◌,
}
use localreview.Prelude.Text.{Bytes, codes, same}
use localreview.Prelude.Result.{Result, ok, err}
use localreview.Git.Pool.Types.{
  ManagedWorktree, RegistryFile, RepositoryPoolError, file_failed, registry_decode, registry_encode,
  unsupported_registry_version,
}
use localreview.Git.Pool.Names.{parent}
use localreview.Git.Pool.Host.{
  Host, wrote, created, renamed, M, Session, ◌>>=◌, pure, fail, ask, or_fail, effect,
}

-- `cmp` of texts.
abbrev pub bytes_le : Bytes → Bytes → Bool
bytes_le [] b = true
bytes_le (x ∷ a) [] = false
bytes_le (x ∷ a) (y ∷ b) = if x == y then bytes_le a b else ltb x y

-- `sort_by` of the review ids, which is stable.
unfoldable pub insert_sorted : ManagedWorktree → List ManagedWorktree → List ManagedWorktree
insert_sorted record_new [] = record_new ∷ []
insert_sorted record_new (r ∷ rest) =
    let later = insert_sorted record_new rest in
    if bytes_le record_new.review_id r.review_id then record_new ∷ r ∷ rest else r ∷ later

unfoldable pub sort_records : List ManagedWorktree → List ManagedWorktree
unfolding insert_sorted
sort_records [] = []
sort_records (r ∷ rest) = insert_sorted r (sort_records rest)

-- `find` by the review id.
unfoldable pub find_record : Bytes → List ManagedWorktree → Option ManagedWorktree
find_record review_id [] = none
find_record review_id (r ∷ rest) =
    if same r.review_id review_id then some r else find_record review_id rest

-- The existing record is replaced, or the new one pushed.
unfoldable pub replace_or_push : ManagedWorktree → List ManagedWorktree → List ManagedWorktree
replace_or_push record_new [] = record_new ∷ []
replace_or_push record_new (r ∷ rest) =
    let later = replace_or_push record_new rest in
    if same r.review_id record_new.review_id then record_new ∷ rest else r ∷ later

-- `position` and `Vec::remove`.
unfoldable pub remove_record : Bytes → List ManagedWorktree → List ManagedWorktree
remove_record review_id [] = []
remove_record review_id (r ∷ rest) =
    let later = remove_record review_id rest in
    if same r.review_id review_id then rest else r ∷ later

-- `RegistryFile::default`.
abbrev pub default_file : RegistryFile
default_file = record { version = 1; worktrees = [] }

module _ {World : Type 0} (host : Host World) where
  abbrev check_version : Bytes → RegistryFile → M World RegistryFile
  check_version path file =
      if file.version == 1 then pure file else fail (unsupported_registry_version path file.version)

  -- `WorktreeRegistry::read`.
  unfoldable pub read_registry : Bytes → M World RegistryFile
  read_registry path = do
    there ← ask (λ w. host.path_exists w path)
    let load : M World RegistryFile = (do
      found ← ask (λ w. host.read w path)
      contents ← or_fail found (file_failed path)
      file ← or_fail (host.decode contents) (registry_decode path)
      check_version path file)
    if there then load else pure default_file

  -- `with_extension("json.tmp")` of the registry's path.
  abbrev pub temporary_path : Bytes → Bytes
  temporary_path path = path ++ codes ".tmp"

  -- `WorktreeRegistry::write`.
  unfoldable pub write_registry : Bytes → RegistryFile → M World (Unit {0})
  write_registry path file = do
    directory ← or_fail (parent path) (file_failed path)
    made ← effect (λ w. host.create_dir_all w directory) (created directory) directory
    bytes ← or_fail (host.encode file) registry_encode
    written ←
        effect (λ w. host.write w (temporary_path path) bytes) (wrote (temporary_path path))
          (temporary_path path)
    effect (λ w. host.rename w (temporary_path path) path) (renamed (temporary_path path) path) path

  -- `WorktreeRegistry::list`.
  unfoldable pub list_worktrees : Bytes → M World (List ManagedWorktree)
  unfolding read_registry
  list_worktrees path = do file ← read_registry path; pure file.worktrees

  -- `WorktreeRegistry::get`.
  unfoldable pub get_worktree : Bytes → Bytes → M World (Option ManagedWorktree)
  unfolding read_registry find_record
  get_worktree path review_id = do
    file ← read_registry path
    pure (find_record review_id file.worktrees)

  -- `WorktreeRegistry::upsert`.
  unfoldable pub upsert : Bytes → ManagedWorktree → M World (Unit {0})
  unfolding read_registry write_registry sort_records replace_or_push
  upsert path record_new = do
    file ← read_registry path
    write_registry path
        (record file { worktrees = sort_records (replace_or_push record_new file.worktrees) })

  -- `WorktreeRegistry::remove`.
  unfoldable pub remove_worktree : Bytes → Bytes → M World (Option ManagedWorktree)
  unfolding read_registry write_registry find_record remove_record
  remove_worktree path review_id = do
    file ← read_registry path
    let removed = find_record review_id file.worktrees
    elim removed [
      | none ↦ pure none
      | some r ↦ (do
        written ←
            write_registry path (record file { worktrees = remove_record review_id file.worktrees })
        pure (some r))
    ]
