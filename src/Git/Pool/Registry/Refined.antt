-- ===== src/Git/Pool/Registry/Refined.antt =====
-- crates/git/src/pool.rs: `WorktreeRegistry` against a finite map from review ids to worktrees.
use localreview.Prelude.{
  ◌≡◌, refl, sym, ap, ◌∙◌, [], Option, none, some, if◌then◌else◌, Option-cases, Bool-cases, subst,
  inl, inr, ◌⊎◌,
}
use localreview.Prelude.Text.{Bytes, same, same-eq}
use localreview.Prelude.Result.{Result, ok, err, err-ne-ok}
use localreview.Git.Pool.Types.{ManagedWorktree, RegistryFile, RepositoryPoolError}
use localreview.Git.Pool.Host.{Host, Session, then_run, ◌>>=◌, pure}
use localreview.Git.Pool.Registry.{
  find_record, sort_records, replace_or_push, remove_record, write_registry, get_worktree, upsert,
  remove_worktree,
}
use localreview.Git.Pool.Registry.Finite.{
  IsRegistry, find-sort_records, find-replace_or_push, IsRegistry-replace_or_push,
  find-remove_record, IsRegistry-remove_record,
}
use localreview.Git.Pool.Registry.Mapped.{IsMap, IsMap-find, find-IsMap}
use localreview.Git.Pool.Registry.Durable.{
  Disk, stored, read-stored, Wrote, write_registry-Wrote, version_of,
}

-- A map of worktrees by review id.
abbrev pub Worktrees : Type 0
Worktrees = Bytes → Option ManagedWorktree

abbrev worktrees_of : RegistryFile → Worktrees
worktrees_of file id = find_record id file.worktrees

abbrev pub inserted : ManagedWorktree → Worktrees → Worktrees
inserted r before id = if same r.review_id id then some r else before id

abbrev pub deleted : Bytes → Worktrees → Worktrees
deleted k before id = if same k id then none else before id

absent_deleted :
    (map : Worktrees) (k : Bytes) (file : RegistryFile)
    → ((id : Bytes) → worktrees_of file id ≡ map id)
    → find_record k file.worktrees ≡ none
    → (id : Bytes) → worktrees_of file id ≡ deleted k map id
absent_deleted map k file holds missing id = elim (Bool-cases (same k id)) [
  | inl here ↦
      rw here
        (subst (λ (j : Bytes). find_record j file.worktrees ≡ none) (same-eq k id here) missing)
  | inr apart ↦ rw apart (holds id)
]

module _ {World : Type 0} (host : Host World) (path : Bytes) where
  -- The file is a registry of records with different review ids, and the map has exactly these.
  pub record Holds (w : World) (map : Worktrees) : Type 0 where
    pub file : RegistryFile
    pub reads : stored host path w ≡ ok file
    pub maps : IsMap file.worktrees map

  -- An operation succeeds and the file holds the new map, or fails and it holds the old.
  abbrev pub Refines :
      {A : Type 0}
      → A
      → Worktrees
      → Worktrees
      → Result RepositoryPoolError A × Session World
      → Type 0
  Refines answer before after out =
      ((out.0 ≡ ok answer) × Holds out.1.world after)
      ⊎ ((e : RepositoryPoolError) × (out.0 ≡ err e) × Holds out.1.world before)

  -- Where the file holds a map, which has a worktree at an id exactly when it is the file's record of that
  -- id, `get` gives what the map has at the id, and changes nothing.
  pub get_worktree-Holds :
      (s : Session World) (map : Worktrees) (id : Bytes)
      → Holds s.world map
      → get_worktree host path id s ≡ (ok (map id), s)
  unfolding get_worktree ◌>>=◌
  get_worktree-Holds s map id h =
      let (unique, holds) = IsMap-find h.file.worktrees map h.maps in
      rw (read-stored host path s, h.reads, holds id)

  Wrote-Refines :
      (file : RegistryFile) (s : Session World) (before after : Worktrees)
      (out : Result RepositoryPoolError (Unit {0}) × Session World)
      → Holds s.world before
      → IsRegistry file.worktrees
      → ((id : Bytes) → worktrees_of file id ≡ after id)
      → Wrote host path file s out
      → Refines tt before after out
  Wrote-Refines file s before after out h unique holds (inl (done, succeeded, now)) = inl (
    succeeded,
    record { file = file; reads = now; maps = find-IsMap file.worktrees after unique holds },
  )
  Wrote-Refines file s before after out h unique holds (inr (e, failed, kept)) =
      inr (e, failed, record { file = h.file; reads = kept ∙ h.reads; maps = h.maps })

  Refines-pure :
      {A : Type 0} (answer : A) (before after : Worktrees)
      (out : Result RepositoryPoolError (Unit {0}) × Session World)
      → Refines tt before after out
      → Refines answer before after (then_run out (λ _. pure answer))
  Refines-pure answer before after (ok tt, s) (inl (succeeded, now)) = inl (refl, now)
  Refines-pure answer before after (ok tt, s) (inr (e, failed, kept)) =
      absurd (err-ne-ok (sym failed))
  Refines-pure answer before after (err e, s) (inl (succeeded, now)) = absurd (err-ne-ok succeeded)
  Refines-pure answer before after (err e, s) (inr (d, failed, kept)) = inr (e, refl, kept)

  module _ (disk : Disk host path) where
    -- Under the laws of the disk, where the file holds a map, `upsert` succeeds and the file holds the map
    -- with the worktree at its review id, or fails and the file holds the map as it was.
    pub upsert-Refines :
        (s : Session World) (map : Worktrees) (r : ManagedWorktree)
        → Holds s.world map
        → Refines tt map (inserted r map) (upsert host path r s)
    unfolding upsert ◌>>=◌
    upsert-Refines s map r h =
        let (unique, holds) = IsMap-find h.file.worktrees map h.maps in
        let unsorted = IsRegistry-replace_or_push r h.file.worktrees unique in
        let new_file : RegistryFile = record h.file {
          worktrees = sort_records (replace_or_push r h.file.worktrees);
        } in
        rw (read-stored host path s, h.reads)
          (Wrote-Refines new_file s map (inserted r map) (write_registry host path new_file s) h
            (find-sort_records [] (replace_or_push r h.file.worktrees) unsorted).1
            (λ id.
              (find-sort_records id (replace_or_push r h.file.worktrees) unsorted).0
              ∙ find-replace_or_push id r h.file.worktrees
              ∙ ap (λ (o : Option ManagedWorktree). if same r.review_id id then some r else o)
                  (holds id))
            (write_registry-Wrote host path disk new_file s
              (version_of host path s.world h.file h.reads)))

    -- Under the laws of the disk, where the file holds a map, `remove` succeeds with what the map has at
    -- the id and the file holds the map without it, or fails and the file holds the map as it was.
    pub remove_worktree-Refines :
        (s : Session World) (map : Worktrees) (k : Bytes)
        → Holds s.world map
        → Refines (map k) map (deleted k map) (remove_worktree host path k s)
    unfolding remove_worktree ◌>>=◌
    remove_worktree-Refines s map k h =
        let (unique, holds) = IsMap-find h.file.worktrees map h.maps in
        elim (Option-cases (find_record k h.file.worktrees)) [
          | inl missing ↦
              rw (read-stored host path s, h.reads, then_run, missing)
                (inl (
                  ap ok (sym missing ∙ holds k),
                  record {
                    file = h.file;
                    reads = h.reads;
                    maps =
                        find-IsMap h.file.worktrees (deleted k map) unique
                          (absent_deleted map k h.file holds missing);
                  },
                ))
          | inr (r, found) ↦
              let new_file : RegistryFile = record h.file {
                worktrees = remove_record k h.file.worktrees;
              } in
              rw (read-stored host path s, h.reads, then_run, found)
                (subst
                  (λ (answer : Option ManagedWorktree).
                    Refines answer map (deleted k map)
                      (then_run (write_registry host path new_file s) (λ _. pure (some r))))
                  (sym found ∙ holds k)
                  (Refines-pure (some r) map (deleted k map) (write_registry host path new_file s) (
                    Wrote-Refines new_file s map (deleted k map)
                      (write_registry host path new_file s) h
                      (IsRegistry-remove_record k h.file.worktrees unique)
                      (λ id.
                        find-remove_record id k h.file.worktrees unique
                        ∙ ap (λ (o : Option ManagedWorktree). if same k id then none else o)
                            (holds id))
                      (write_registry-Wrote host path disk new_file s
                        (version_of host path s.world h.file h.reads)))))
        ]
