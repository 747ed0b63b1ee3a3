-- ===== src/Git/Pool/Registry/Durable.antt =====
-- crates/git/src/pool.rs: the registry's file through writes that may fail.
use localreview.Prelude.{
  ◌≡◌, refl, subst, ◌∙◌, true, false, ◌++◌, Option, none, some, ◌==◌, if◌then◌else◌, Bool-cases,
  Option-cases, inl, inr, ◌⊎◌,
}
use localreview.Prelude.Text.{Bytes, codes}
use localreview.Prelude.Result.{Result, ok, err, ok-injective, err-ne-ok}
use localreview.Git.Pool.Types.{
  RegistryFile, RepositoryPoolError, file_failed, registry_decode, registry_encode,
  unsupported_registry_version,
}
use localreview.Git.Pool.Names.{parent}
use localreview.Git.Pool.Host.{Host, Session, ◌>>=◌}
use localreview.Git.Pool.Registry.{default_file, temporary_path, read_registry, write_registry}

-- What the file system and serde_json do to the registry's file at `path`: making its parent directory and
-- writing the temporary file beside it leave it alone, only a rename that succeeds replaces it, by what
-- was written last, and what was encoded is decoded.
pub record Disk {World : Type 0} (host : Host World) (path : Bytes) : Type 0 where
  pub create_keeps :
      (w : World) (d : Bytes)
      → parent path ≡ some d
      → (host.path_exists (host.create_dir_all w d).1 path ≡ host.path_exists w path)
        × (host.read (host.create_dir_all w d).1 path ≡ host.read w path)
  pub write_keeps :
      (w : World) (bytes : Bytes)
      → (host.path_exists (host.write w (path ++ codes ".tmp") bytes).1 path
          ≡ host.path_exists w path)
        × (host.read (host.write w (path ++ codes ".tmp") bytes).1 path ≡ host.read w path)
  pub rename_fails :
      (w : World)
      → (host.rename w (path ++ codes ".tmp") path).0 ≡ false
      → (host.path_exists (host.rename w (path ++ codes ".tmp") path).1 path
          ≡ host.path_exists w path)
        × (host.read (host.rename w (path ++ codes ".tmp") path).1 path ≡ host.read w path)
  pub rename_replaces :
      (w : World) (bytes : Bytes)
      → (host.write w (path ++ codes ".tmp") bytes).0 ≡ true
      → (host.rename (host.write w (path ++ codes ".tmp") bytes).1 (path ++ codes ".tmp") path).0
        ≡ true
      → (host.path_exists
            (host.rename
              (host.write w (path ++ codes ".tmp") bytes).1
              (path ++ codes ".tmp")
              path).1
            path
          ≡ true)
        × (host.read
              (host.rename
                (host.write w (path ++ codes ".tmp") bytes).1
                (path ++ codes ".tmp")
                path).1
              path
            ≡ some bytes)
  pub decode-encode :
      (file : RegistryFile) (bytes : Bytes)
      → host.encode file ≡ some bytes
      → host.decode bytes ≡ some file

module _ {World : Type 0} (host : Host World) (path : Bytes) where
  abbrev checked : Option RegistryFile → Result RepositoryPoolError RegistryFile
  checked none = err (registry_decode path)
  checked (some file) =
      if file.version == 1 then ok file else err (unsupported_registry_version path file.version)

  abbrev contents : Option Bytes → Result RepositoryPoolError RegistryFile
  contents none = err (file_failed path)
  contents (some bytes) = checked (host.decode bytes)

  -- What the file reads as.
  abbrev pub stored : World → Result RepositoryPoolError RegistryFile
  stored w = if host.path_exists w path then contents (host.read w path) else ok default_file

  pub read-stored : (s : Session World) → read_registry host path s ≡ (stored s.world, s)
  unfolding read_registry ◌>>=◌
  read-stored s = elim (Bool-cases (host.path_exists s.world path)) [
    | inr missing ↦ rw missing
    | inl there ↦ rw there (elim (Option-cases (host.read s.world path)) [
      | inl unread ↦ rw unread
      | inr (bytes, found) ↦ rw found (elim (Option-cases (host.decode bytes)) [
        | inl garbled ↦ rw garbled
        | inr (file, made) ↦ rw made (elim (Bool-cases (file.version == 1)) [
          | inl supported ↦ rw supported
          | inr other ↦ rw other
        ])
      ])
    ])
  ]

  stored_same :
      (w v : World)
      → (host.path_exists v path ≡ host.path_exists w path) × (host.read v path ≡ host.read w path)
      → stored v ≡ stored w
  stored_same w v same_file = rw (same_file.0, same_file.1)

  -- A write that succeeds leaves the new file, and one that fails the old.
  abbrev pub Wrote :
      {A : Type 0}
      → RegistryFile
      → Session World
      → Result RepositoryPoolError A × Session World
      → Type 0
  Wrote {A} file s out =
      ((a : A) × (out.0 ≡ ok a) × (stored out.1.world ≡ ok file))
      ⊎ ((e : RepositoryPoolError) × (out.0 ≡ err e) × (stored out.1.world ≡ stored s.world))

  module _ (disk : Disk host path) where
    stored_new :
        (file : RegistryFile) (bytes : Bytes) (w : World)
        → (file.version == 1) ≡ true
        → host.encode file ≡ some bytes
        → (host.path_exists w path ≡ true) × (host.read w path ≡ some bytes)
        → stored w ≡ ok file
    stored_new file bytes w version encoded now =
        rw (now.0, now.1, disk.decode-encode file bytes encoded, version)

    pub write_registry-Wrote :
        (file : RegistryFile) (s : Session World)
        → (file.version == 1) ≡ true
        → Wrote file s (write_registry host path file s)
    unfolding write_registry ◌>>=◌
    write_registry-Wrote file s version = elim (Option-cases (parent path)) [
      | inl rootless ↦ inr (file_failed path, rw rootless, rw rootless)
      | inr (directory, named) ↦
          let made : World = (host.create_dir_all s.world directory).1 in
          let kept = stored_same s.world made (disk.create_keeps s.world directory named) in
          elim (Bool-cases (host.create_dir_all s.world directory).0) [
            | inr failed ↦ inr (file_failed directory, rw (named, failed), rw (named, failed) kept)
            | inl created ↦ elim (Option-cases (host.encode file)) [
              | inl unencoded ↦ inr (
                registry_encode,
                rw (named, created, unencoded),
                rw (named, created, unencoded) kept,
              )
              | inr (bytes, encoded) ↦
                  let written : World = (host.write made (temporary_path host path) bytes).1 in
                  let kept_twice = stored_same made written (disk.write_keeps made bytes) ∙ kept in
                  elim (Bool-cases (host.write made (temporary_path host path) bytes).0) [
                    | inr failed ↦ inr (
                      file_failed (temporary_path host path),
                      rw (named, created, encoded, failed),
                      rw (named, created, encoded, failed) kept_twice,
                    )
                    | inl wrote_it ↦
                        elim (Bool-cases (host.rename written (temporary_path host path) path).0) [
                          | inr failed ↦ inr (
                            file_failed path,
                            rw (named, created, encoded, wrote_it, failed),
                            rw (named, created, encoded, wrote_it)
                                (stored_same written
                                    (host.rename written (temporary_path host path) path).1
                                    (disk.rename_fails written failed)
                                  ∙ kept_twice),
                          )
                          | inl replaced ↦ inl (
                            tt,
                            rw (named, created, encoded, wrote_it, replaced),
                            rw (named, created, encoded, wrote_it)
                                (stored_new file bytes
                                  (host.rename written (temporary_path host path) path).1 version
                                  encoded (disk.rename_replaces made bytes wrote_it replaced)),
                          )
                        ]
                  ]
            ]
          ]
    ]

  pub version_of :
      (w : World) (file : RegistryFile) → stored w ≡ ok file → (file.version == 1) ≡ true
  version_of w file h = elim (Bool-cases (host.path_exists w path)) [
    | inr missing ↦
        let default : default_file ≡ file = ok-injective (rw missing at h) in rw (← default) refl
    | inl there ↦
        let h' = rw there at h in
        elim (Option-cases (host.read w path)) [
          | inl unread ↦ absurd (err-ne-ok (rw unread at h'))
          | inr (bytes, found) ↦
              let h2 = rw found at h' in
              elim (Option-cases (host.decode bytes)) [
                | inl garbled ↦ absurd (err-ne-ok (rw garbled at h2))
                | inr (other, made) ↦
                    let h3 = rw made at h2 in
                    elim (Bool-cases (other.version == 1)) [
                      | inr unsupported ↦ absurd (err-ne-ok (rw unsupported at h3))
                      | inl supported ↦
                          let same_file : other ≡ file = ok-injective (rw supported at h3) in
                          subst (λ (f : RegistryFile). (f.version == 1) ≡ true) same_file supported
                    ]
              ]
        ]
  ]
