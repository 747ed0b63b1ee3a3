-- ===== src/Tests/Registries.antt =====
-- A file system with one registry and one worktree, whose registry is written as numbers with their counts.
use localreview.Prelude.{
  ℕ, zero, suc, ◌≡◌, refl, Bool, true, false, List, [], ◌∷◌, ◌++◌, Option, none, some, length,
  if◌then◌else◌, Option-cases, Bool-cases, inl, inr,
}
use localreview.Prelude.Text.{Bytes, codes, same}
use localreview.Prelude.Result.{ok}
use localreview.Git.Pool.Types.{
  ManagedWorktree, RegistryFile, RepositoryObjectSource, known_clone, managed_mirror,
}
use localreview.Git.Pool.Names.{RepositoryPool}
use localreview.Git.Pool.Host.{Host}
use localreview.Git.Pool.Registry.Durable.{Disk}

abbrev split : ℕ → Bytes → Option (Bytes × Bytes)
split zero s = some ([], s)
split (suc n) [] = none
split (suc n) (c ∷ s) = elim (split n s) [ none ↦ none | some (a, rest) ↦ some (c ∷ a, rest) ]

abbrev put : Bytes → Bytes → Bytes
put a rest = length a ∷ a ++ rest

abbrev get : Bytes → Option (Bytes × Bytes)
get [] = none
get (n ∷ s) = split n s

split-append : (a rest : Bytes) → split (length a) (a ++ rest) ≡ some (a, rest)
split-append [] rest = refl
split-append (c ∷ a) rest = rw (split-append a rest)

abbrev bind : {A B : Type 0} → Option A → (A → Option B) → Option B
bind none next = none
bind (some a) next = next a

abbrev source_bytes : RepositoryObjectSource → Bytes → Bytes
source_bytes (known_clone path) rest = 0 ∷ put path rest
source_bytes (managed_mirror path) rest = 1 ∷ put path rest

abbrev source_of : Bytes → Option (RepositoryObjectSource × Bytes)
source_of [] = none
source_of (zero ∷ s) = bind (get s) (λ found. some (known_clone found.0, found.1))
source_of (suc n ∷ s) = bind (get s) (λ found. some (managed_mirror found.0, found.1))

source_of-bytes :
    (source : RepositoryObjectSource) (rest : Bytes)
    → source_of (source_bytes source rest) ≡ some (source, rest)
source_of-bytes (known_clone path) rest = rw (split-append path rest)
source_of-bytes (managed_mirror path) rest = rw (split-append path rest)

abbrev bytes_of : ManagedWorktree → Bytes → Bytes
bytes_of r rest = put r.review_id (
    put r.repository.host (
      put r.repository.owner (
        put r.repository.repository (
          put r.worktree_path (
            source_bytes r.source
              (put r.revision.base_sha (put r.revision.head_sha (r.created_at ∷ rest))))))))

abbrev head_of : Bytes → Option (ℕ × Bytes)
head_of [] = none
head_of (n ∷ s) = some (n, s)

abbrev worktree_of : Bytes → Option (ManagedWorktree × Bytes)
worktree_of s = bind (get s) (λ id. bind (get id.1) (λ host. bind (get host.1) (λ owner.
    bind (get owner.1) (λ name. bind (get name.1) (λ path. bind (source_of path.1) (λ source.
      bind (get source.1) (λ base. bind (get base.1) (λ head. bind (head_of head.1) (λ time. some (
        record {
          review_id = id.0;
          repository = record { host = host.0; owner = owner.0; repository = name.0 };
          worktree_path = path.0;
          source = source.0;
          revision = record { base_sha = base.0; head_sha = head.0 };
          created_at = time.0;
        },
        time.1,
      ))))))))))

worktree_of-bytes :
    (r : ManagedWorktree) (rest : Bytes) → worktree_of (bytes_of r rest) ≡ some (r, rest)
worktree_of-bytes r rest = rw (
  split-append r.review_id _,
  split-append r.repository.host _,
  split-append r.repository.owner _,
  split-append r.repository.repository _,
  split-append r.worktree_path _,
  source_of-bytes r.source _,
  split-append r.revision.base_sha _,
  split-append r.revision.head_sha _,
)

abbrev all_bytes_of : List ManagedWorktree → Bytes
all_bytes_of [] = []
all_bytes_of (r ∷ rest) = bytes_of r (all_bytes_of rest)

abbrev worktrees_in : ℕ → Bytes → Option (List ManagedWorktree)
worktrees_in zero s = some []
worktrees_in (suc n) s =
    bind (worktree_of s) (λ found. bind (worktrees_in n found.1) (λ rest. some (found.0 ∷ rest)))

abbrev count : List ManagedWorktree → ℕ
count [] = 0
count (r ∷ rest) = suc (count rest)

worktrees_in-bytes :
    (rs : List ManagedWorktree) → worktrees_in (count rs) (all_bytes_of rs) ≡ some rs
worktrees_in-bytes [] = refl
worktrees_in-bytes (r ∷ rest) =
    rw (worktree_of-bytes r (all_bytes_of rest), worktrees_in-bytes rest)

abbrev pub encode : RegistryFile → Option Bytes
encode file = some (file.version ∷ count file.worktrees ∷ all_bytes_of file.worktrees)

abbrev decode : Bytes → Option RegistryFile
decode (version ∷ n ∷ s) =
    bind (worktrees_in n s) (λ rs. some (record { version = version; worktrees = rs }))
decode _ = none

decode-encode :
    (file : RegistryFile) (bytes : Bytes) → encode file ≡ some bytes → decode bytes ≡ some file
decode-encode file bytes encoded =
    let same_bytes : (file.version ∷ count file.worktrees ∷ all_bytes_of file.worktrees) ≡ bytes =
      cc in
    rw (← same_bytes, worktrees_in-bytes file.worktrees)

pub record Files : Type 0 where
  -- the registry's directory is there
  pub directory : Bool
  pub registry : Option Bytes
  pub temporary : Option Bytes
  pub worktree : Bool
  pub changes : Bytes

abbrev is_some : Option Bytes → Bool
is_some none = false
is_some (some b) = true

abbrev is_status : List Bytes → Bool
is_status [] = false
is_status (a ∷ rest) = same a (codes "status")

abbrev rename : Files → Bool × Files
rename w = elim (w.temporary) [
  | none ↦ (false, w)
  | some bytes ↦ (
    true,
    record {
      directory = w.directory;
      registry = some bytes;
      temporary = none;
      worktree = w.worktree;
      changes = w.changes;
    },
  )
]

abbrev create_dir_all : Files → Bytes → Files
create_dir_all w p =
    if same p (codes "/d")
    then record {
      directory = true;
      registry = w.registry;
      temporary = w.temporary;
      worktree = w.worktree;
      changes = w.changes;
    }
    else w

abbrev pub host : Host Files
host = record {
  path_exists = λ w p.
      if same p (codes "/d/managed-worktrees.json")
      then is_some w.registry
      else if same p (codes "/d")
      then w.directory
      else w.worktree;
  is_dir = λ w p. w.worktree;
  is_empty_dir = λ w p. some false;
  canonicalize = λ w p. some p;
  directories = λ w p. some [];
  read = λ w p. w.registry;
  write = λ w p bytes. (
    w.directory,
    record {
      directory = w.directory;
      registry = w.registry;
      temporary = if w.directory then some bytes else w.temporary;
      worktree = w.worktree;
      changes = w.changes;
    },
  );
  rename = λ w a b. rename w;
  create_dir_all = λ w p. (true, create_dir_all w p);
  remove_dir = λ w p. (true, w);
  remove_dir_all = λ w p. (true, w);
  execute = λ w c. (
    ok (record {
      success = true;
      stdout = if is_status c.arguments then w.changes else [];
      stderr = [];
    }),
    w,
  );
  lock = λ w. (ok tt, w);
  unlock = λ w. w;
  now = λ w. 7;
  encode = encode;
  decode = decode;
}

abbrev pub pool : RepositoryPool
pool = record { cache_root = codes "/c"; application_data_root = codes "/d" }

pub disk : (path : Bytes) → same path (codes "/d/managed-worktrees.json") ≡ true → Disk host path
disk path here = record {
  create_keeps = λ w d named. elim (Bool-cases (same d (codes "/d"))) [
    | inl made ↦ (rw (here, made), rw made)
    | inr apart ↦ (rw apart, rw apart)
  ];
  write_keeps = λ w bytes. (rw here, refl);
  rename_fails = λ w failed. elim (Option-cases w.temporary) [
    | inl missing ↦ (rw missing, rw missing)
    | inr (bytes, found) ↦ let clash : true ≡ false = rw found at failed in cc
  ];
  rename_replaces = λ w bytes written done. (rw (here, written), rw written);
  decode-encode = decode-encode;
}
