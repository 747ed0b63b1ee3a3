-- ===== src/Protocol/Agent/Bounded.antt =====
-- crates/protocol/src/agent.rs: what a request to a companion that passes can ask for.
use localreview.Prelude.{
  ℕ, ◌≤◌, ◌≡◌, true, false, ◌&&◌, ◌||◌, not, List, [], ◌∷◌, Option, some, All, All-mono, length,
  ltb, ◌==◌, arith, Bool-cases, Option-cases, ◌⊎◌, inl, inr,
}
use localreview.Prelude.Text.{Bytes, codes, starts_with}
use localreview.Prelude.Result.{ok, err-ne-ok}
use localreview.Domain.References.{all_bytes, is_hex_digit}
use localreview.Protocol.Local.Texts.{validate_relative_path}
use localreview.Protocol.Local.Passed.{
  ok_and, not_refused, each_passed, IsIdentifier, validate_identifier-IsIdentifier,
}
use localreview.Protocol.Local.Revisions.{IsRevision, validate_ref-IsRevision}
use localreview.Protocol.Local.Beneath.{validate_relative_path-resolve}
use localreview.Protocol.Local.Boundary.{StaysBeneath}
use localreview.Protocol.Agent.Types.{
  RemoteRepositoryRef, RemoteComparisonOptions, AgentOperation, handshake, ping,
  configure_managed_forward_relay, discover_repositories, capture_comparison, read_source_window,
  watch_repository_changes, watch_workspace_changes, cancel, AgentRequest,
}
use localreview.Protocol.Agent.Validate.{
  SocketAddr, is_bad_relay, interval, validate_options, validate_watched, is_control,
  validate_agent_operation, validate_agent_request,
}
use localreview.Protocol.Agent.Watched.{
  IsReference, absolute-rooted, validate_reference-IsReference, AreDistinct, ShareRoot,
  validate_watched-distinct,
}

-- The repositories of a watcher: one at least, of one root, all different.
abbrev pub AreWatched : List RemoteRepositoryRef → Type 0
AreWatched [] = ⊥
AreWatched (r ∷ rest) =
    All IsReference (r ∷ rest) × ShareRoot r.workspace_root rest × AreDistinct (r ∷ rest)

abbrev InInterval : ℕ → Type 0
InInterval millis = (250 ≤ millis) × (millis ≤ 60000)

module _ (parse_address : Bytes → Option SocketAddr) where
  -- A loopback address with a port, and 32 bytes of hexadecimal digits.
  abbrev pub IsRelay : Bytes → Bytes → Bytes → Type 0
  IsRelay endpoint token_hex session_id =
      (address : SocketAddr) × (parse_address endpoint ≡ some address)
      × (address.is_loopback ≡ true)
      × (1 ≤ address.port)
      × (length token_hex ≡ 64)
      × (all_bytes is_hex_digit token_hex ≡ true)
      × (length session_id ≤ 64)

  -- What an operation that passes asks for.
  abbrev pub IsBoundedOperation : AgentOperation → Type 0
  IsBoundedOperation (handshake versions) = (1 ≤ length versions) × (length versions ≤ 16)
  IsBoundedOperation ping = Unit {0}
  IsBoundedOperation (configure_managed_forward_relay endpoint token_hex session_id) =
      IsRelay endpoint token_hex session_id
  IsBoundedOperation (discover_repositories root max_depth) =
      (starts_with (codes "/") root ≡ true) × (max_depth ≤ 32)
  IsBoundedOperation (capture_comparison repository base options) =
      IsReference repository
      × IsRevision base
      × (length options.path_filters ≤ 4096)
      × All StaysBeneath options.path_filters
  IsBoundedOperation
        (read_source_window capture_id generation repository path revision start count) =
      IsIdentifier capture_id
      × (1 ≤ generation)
      × IsReference repository
      × StaysBeneath path
      × (1 ≤ start)
      × (1 ≤ count)
      × (count ≤ 4096)
  IsBoundedOperation (watch_repository_changes repository millis) =
      IsReference repository × InInterval millis
  IsBoundedOperation (watch_workspace_changes repositories millis) =
      (length repositories ≤ 1024) × AreWatched repositories × InInterval millis
  IsBoundedOperation (cancel request_id) = IsIdentifier request_id

  interval-bounds : (millis : ℕ) → interval millis ≡ ok tt → InInterval millis
  interval-bounds millis h =
      let bound : (ltb millis 250 || ltb 60000 millis) ≡ false = not_refused _ _ h in
      (ground arith, ground arith)

  options-bounds :
      (options : RemoteComparisonOptions)
      → validate_options options ≡ ok tt
      → (length options.path_filters ≤ 4096) × All StaysBeneath options.path_filters
  unfolding validate_options
  options-bounds options h =
      let (few, each) = ok_and _ _ h in
      let bound : ltb 4096 (length options.path_filters) ≡ false = not_refused _ _ few in
      (
        ground arith,
        All-mono (λ v. validate_relative_path v ≡ ok tt) StaysBeneath options.path_filters
            (λ v k dirs. validate_relative_path-resolve v dirs k)
            (each_passed validate_relative_path options.path_filters each),
      )

  validate_operation-IsRelay :
      (endpoint token_hex session_id : Bytes)
      → validate_agent_operation parse_address
          (configure_managed_forward_relay endpoint token_hex session_id)
        ≡ ok tt
      → IsRelay endpoint token_hex session_id
  unfolding validate_agent_operation
  validate_operation-IsRelay endpoint token_hex session_id h =
      elim (Option-cases (parse_address endpoint)) [
        | inl malformed ↦ absurd (err-ne-ok (rw (validate_agent_operation, malformed) at h))
        | inr (address, parsed) ↦
            let good : is_bad_relay address token_hex session_id ≡ false =
              not_refused _ _ (rw (validate_agent_operation, parsed) at h) in
            (address, parsed, ground arith, ground arith, ground arith, ground arith, ground arith)
      ]

  pub validate_operation-IsBounded :
      (operation : AgentOperation)
      → validate_agent_operation parse_address operation ≡ ok tt
      → IsBoundedOperation operation
  unfolding validate_agent_operation validate_watched
  validate_operation-IsBounded (handshake versions) h =
      let bound : (length versions == 0 || ltb 16 (length versions)) ≡ false = not_refused _ _ h in
      (ground arith, ground arith)
  validate_operation-IsBounded ping h = tt
  validate_operation-IsBounded (configure_managed_forward_relay endpoint token_hex session_id) h =
      validate_operation-IsRelay endpoint token_hex session_id h
  validate_operation-IsBounded (discover_repositories root max_depth) h =
      let (rooted, shallow) = ok_and _ _ h in
      let bound : ltb 32 max_depth ≡ false = not_refused _ _ shallow in
      (absolute-rooted root (codes "remote workspace root") rooted, ground arith)
  validate_operation-IsBounded (capture_comparison repository base options) h =
      let (r0, filters) = ok_and _ _ h in
      let (reference, based) = ok_and _ _ r0 in
      let (few, beneath) = options-bounds options filters in
      (
        validate_reference-IsReference repository reference,
        validate_ref-IsRevision base _ based,
        few,
        beneath,
      )
  validate_operation-IsBounded
        (read_source_window capture_id generation repository path revision start count) h =
      let (r0, window) = ok_and _ _ h in
      let (r1, beneath) = ok_and _ _ r0 in
      let (r2, reference) = ok_and _ _ r1 in
      let (id, generated) = ok_and _ _ r2 in
      let some_generation : (generation == 0) ≡ false = not_refused _ _ generated in
      let bound : (start == 0 || count == 0 || ltb 4096 count) ≡ false = not_refused _ _ window in
      (
        validate_identifier-IsIdentifier capture_id (codes "remote capture id") id,
        ground arith,
        validate_reference-IsReference repository reference,
        (λ dirs. validate_relative_path-resolve path dirs beneath),
        ground arith,
        ground arith,
        ground arith,
      )
  validate_operation-IsBounded (watch_repository_changes repository millis) h =
      let (reference, timed) = ok_and _ _ h in
      (validate_reference-IsReference repository reference, interval-bounds millis timed)
  validate_operation-IsBounded (watch_workspace_changes [] millis) h = absurd (err-ne-ok h)
  validate_operation-IsBounded (watch_workspace_changes (r ∷ rest) millis) h =
      let (r0, timed) = ok_and _ _ h in
      let (few, watched) = ok_and _ _ r0 in
      let bound : (length (r ∷ rest) == 0 || ltb 1024 (length (r ∷ rest))) ≡ false =
        not_refused _ _ few in
      (ground arith, validate_watched-distinct r rest watched, interval-bounds millis timed)
  validate_operation-IsBounded (cancel request_id) h =
      validate_identifier-IsIdentifier request_id (codes "cancel request id") h

  -- A request to a companion that passes has an identifier for its id, has generation 0 only for a
  -- handshake, a ping or the relay, and asks only for what is bounded: absolute roots, paths that stay
  -- beneath them, plain revisions, at most 4096 lines from the first on, watchers of 1 to 1024
  -- different repositories of one root, and a relay on a loopback port.
  pub validate_agent_request-IsBounded :
      (request : AgentRequest)
      → validate_agent_request parse_address request ≡ ok tt
      → IsIdentifier request.id
        × ((1 ≤ request.generation) ⊎ (is_control parse_address request.operation ≡ true))
        × IsBoundedOperation request.operation
  unfolding validate_agent_request
  validate_agent_request-IsBounded request h =
      let (r0, operation) = ok_and _ _ h in
      let (id, ruled) = ok_and _ _ r0 in
      let rule : (request.generation == 0 && not (is_control parse_address request.operation))
          ≡ false =
        not_refused _ _ ruled in
      (
        validate_identifier-IsIdentifier request.id (codes "agent request id") id,
        elim (Bool-cases (is_control parse_address request.operation)) [
          | inl control ↦ inr control
          | inr review ↦ inl (ground (arith, rule, review))
        ],
        validate_operation-IsBounded request.operation operation,
      )
