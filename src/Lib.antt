-- ===== src/Lib.antt =====
-- A model of LocalReview, a desktop tool for reviewing a workspace of Git repositories, in the
-- order in which a review passes through it: a command reaches the desktop through the protocol,
-- names its repositories and bases in the grammar of the domain, the repositories are found and a
-- worktree of their own is made for a pull request, the patches that Git gives for them become the
-- rows that the window shows, and the annotations are carried to the next comparison.
--
-- Prelude models what the program uses of Rust's standard library: texts as lists of UTF-8 bytes,
-- lines, white space, numerals, `String::from_utf8_lossy`, and `Result` with `?` as the bind of a
-- `do` block.
--
-- Domain models crates/domain/src/lib.rs. References: `BaseReference::new` and `GitSha::new`.
-- Paths: `is_safe_repository_relative_path`, over the components that `std::path` gives on Unix.
-- Options: `ComparisonOptions` and the classification of files. Baseline:
-- `BaselineRequest::effective`. Sources: `WorkspaceSource`. Annotations: the anchors of an
-- annotation.
--
-- Diff models crates/diff/src/lib.rs. Types: the document and its rows. Rows: cells and stable row
-- ids. Split: `make_hunk` and `build_split_rows`. Source: `SourceDocument`. FullFile: the
-- projections of a complete source, `full_file_rows`, `full_file_current_rows` and
-- `full_file_base_rows`; the two projections are one function of the side that is kept. Compare:
-- `document_from_sources`. Patch: `parse_unified_patch`, with Header for `parse_hunk_header`, Paths
-- for the names of a `diff --git` line, Builder and Methods for `PatchFileBuilder`, Parse for
-- the loop over the lines and Sides for what the hunks hold. The other children of these modules hold lemmas and theorems.
--
-- Protocol models crates/protocol/src. Frame: frame.rs, with a stream as the bytes still to be
-- read. Local: local.rs, the commands, the validation of their texts and of each command, and of
-- the shape of a request. Auth: `sign` and `verify` of auth.rs. Agent: agent.rs, the operations of an
-- SSH companion, with Types for the messages and Validate for their checks; the parse of a socket
-- address is a parameter. Reverse: reverse.rs, the command that a remote session may send.
--
-- Service models crates/service/src. Config: config.rs, the configuration of a workspace, its parsers
-- and `overlay`, with the other children for its theorems. Anchors: `reanchor` of lib.rs, with Windows,
-- Places and Selected for the windows of a list of lines, the searches and the new anchor. Previous:
-- `compare_immutable_review_documents` of lib.rs.
--
-- Git models crates/git/src. Command: lib.rs, the command, its output and `normalize_remote_url`.
-- Status and RawDiff: `parse_porcelain_v1_z` and `parse_raw_diff_z` of lib.rs. Discovery:
-- `discover_repositories`, over the interface Walker to the file system and git.
-- Pool: pool.rs, the worktrees that the tool manages for reviews of pull requests. Its Host is the
-- interface to the file system, serde_json and the program git; a step gives a result and leaves
-- the world as it is then, also where it fails, and notes each effect. Names: the identities and
-- paths. Registry: `WorktreeRegistry`, with Finite and Mapped for its lists, Durable for its file and
-- Refined for its operations against a map. Sources: known clones and mirrors. Sets: sets of paths. Lifecycle:
-- `prepare`, `is_dirty` and `delete`. Orphans: `inspect_orphans`, `repair_orphans` and
-- `remove_unused_mirror`. Trace: what stands before each removal. Outcomes: single calls.
-- `PreparedManagedWorktree` is the record that it holds.
--
-- Tests holds runs at concrete inputs.
--
-- Numbers. A `u32` is a natural number; where the source adds to line numbers, the release build's
-- wrap is written out as a remainder modulo 2 ^ 32, and a parse that would overflow is refused.
-- Fuel stands in three places: the tokens of a `diff --git` line, where each step takes at least one
-- byte and the fuel is the length of the line; the digits of a numeral, where it is the number itself
-- plus one; and the search for repositories, where it is the number of the directories down to the
-- greatest depth.
--
-- Code that the repository does not hold is a parameter: the blake3 digest is a function on texts,
-- the RoaringBitmap an interface of insertion and membership, serde_cbor and zstd the interface
-- `Codec`, HMAC and hex the interface `Signer`, ids of the uuid package numbers, the changes that
-- the similar package finds a function of the two sources. Round trips through `Codec` assume that
-- decoding undoes encoding.
--
-- Not modelled: the runtime paths of crates/protocol; the services but for what is named above, the
-- captures and the other parsers of Git's output, `acquire_lock`, which waits by the clock, SSH and
-- GitHub access, persistence, the command line, the desktop shell and the window.
pub mod Prelude
pub mod Domain
pub mod Diff
pub mod Protocol
pub mod Service
pub mod Git
pub mod Tests
