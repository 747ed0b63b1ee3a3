-- ===== src/Protocol/Frame/RoundTrip.antt =====
-- crates/protocol/src/frame.rs: `read_frame` on what `write_frame` writes.
use localreview.Prelude.{
  ℕ, zero, suc, ◌+◌, ◌*◌, ◌/◌, ◌%◌, ◌≤◌, ◌<◌, ◌≡◌, refl, ap, ◌∙◌, subst, false, [], ◌∷◌, ◌++◌,
  Option, none, some, length, take, drop, ltb, leb, arith, inl, inr, Bool-cases, Option-cases,
  length-append,
}
use localreview.Prelude.Text.{Bytes}
use localreview.Prelude.Result.{ok, ◌>>=◌, >>=-eq-ok, ok-injective, err-ne-ok, ok_or}
use localreview.Protocol.Errors.{ProtocolError, compression, serialization}
use localreview.Protocol.Frame.{
  frame_compression_threshold_bytes, max_frame_bytes, max_uncompressed_frame_bytes, FrameEnvelope,
  raw, zstd, Codec, be_bytes, envelope_of, check_size, write_frame, read_exact, read_header,
  payload_of, read_frame,
}

-- What the packages promise: decoding undoes encoding, and a bounded read of a packed text gives its
-- first bytes.
pub record Undoes {T : Type 0} (codec : Codec T) : Type 0 where
  pub from_slice-to_vec :
      (value : T) (bytes : Bytes)
      → codec.to_vec value ≡ some bytes
      → codec.from_slice bytes ≡ some value
  pub envelope_undone :
      (envelope : FrameEnvelope) (bytes : Bytes)
      → codec.envelope_to_vec envelope ≡ some bytes
      → codec.envelope_from_slice bytes ≡ some envelope
  pub read_to_end-encode_all :
      (bytes packed : Bytes) (n : ℕ)
      → codec.encode_all bytes ≡ some packed
      → codec.read_to_end n packed ≡ some (take n bytes)

take_all : (s : Bytes) (n : ℕ) → length s ≤ n → take n s ≡ s
take_all [] zero h = refl
take_all [] (suc n) h = refl
take_all (c ∷ s) zero h = absurd (omega arith)
take_all (c ∷ s) (suc n) h = ap (◌∷◌ c) (take_all s n (omega arith))

take-length : (s rest : Bytes) → take (length s) (s ++ rest) ≡ s
take-length [] rest = refl
take-length (c ∷ s) rest = ap (◌∷◌ c) (take-length s rest)

drop-length : (s rest : Bytes) → drop (length s) (s ++ rest) ≡ rest
drop-length [] rest = refl
drop-length (c ∷ s) rest = drop-length s rest

pub ok_or-some :
    {A : Type 0} (o : Option A) {a : A} (e : ProtocolError) → ok_or o e ≡ ok a → o ≡ some a
ok_or-some none e h = absurd (err-ne-ok h)
ok_or-some (some a) e h = cc (ok-injective h)

be_bytes_value :
    (n : ℕ)
    → n < 4294967296
    → (n / 16777216) % 256 * 16777216 + (n / 65536) % 256 * 65536 + (n / 256) % 256 * 256 + n % 256
      ≡ n
be_bytes_value n h = omega arith

module _ {T : Type 0} (codec : Codec T) where
  pub check_size-ok :
      (limit : ℕ) (payload result : Bytes)
      → check_size codec limit payload ≡ ok result
      → (payload ≡ result) × (length result ≤ limit)
  check_size-ok limit payload result h = elim (Bool-cases (ltb limit (length payload))) [
    | inl large ↦ absurd (err-ne-ok (rw large at h))
    | inr small ↦
        let same : payload ≡ result = ok-injective (rw small at h) in
        (same, rw (← same) (ground arith))
  ]

  check_size_within :
      (limit : ℕ) (payload : Bytes)
      → length payload ≤ limit
      → check_size codec limit payload ≡ ok payload
  check_size_within limit payload h = ground arith

  read_exact-append : (s rest : Bytes) → read_exact codec (length s) (s ++ rest) ≡ ok (s, rest)
  unfolding read_exact
  read_exact-append s rest =
      let enough : ltb (length (s ++ rest)) (length s) ≡ false =
        ground (arith, length-append s rest) in
      rw (enough, take-length s rest, drop-length s rest)

  module _ (undoes : Undoes codec) where
    payload_of-zstd :
        (payload packed : Bytes)
        → length payload ≤ max_uncompressed_frame_bytes
        → codec.encode_all payload ≡ some packed
        → payload_of codec (zstd packed) ≡ ok payload
    unfolding payload_of
    payload_of-zstd payload packed fits h =
        let output : codec.read_to_end 33554433 packed ≡ some payload =
          undoes.read_to_end-encode_all payload packed 33554433 h
          ∙ ap some (take_all payload 33554433 (omega arith)) in
        rw output (check_size_within max_uncompressed_frame_bytes payload fits)

    payload_of_packed :
        (payload : Bytes) (envelope : FrameEnvelope)
        → length payload ≤ max_uncompressed_frame_bytes
        → (ok_or (codec.encode_all payload) compression >>= λ packed. ok (zstd packed))
          ≡ ok envelope
        → payload_of codec envelope ≡ ok payload
    payload_of_packed payload envelope fits h = elim (Option-cases (codec.encode_all payload)) [
      | inl stopped ↦ absurd (err-ne-ok (rw stopped at h))
      | inr (packed, found) ↦
          let same : zstd packed ≡ envelope = ok-injective (rw found at h) in
          subst (λ (e : FrameEnvelope). payload_of codec e ≡ ok payload) same
            (payload_of-zstd payload packed fits found)
    ]

    payload_of-envelope_of :
        (payload : Bytes) (envelope : FrameEnvelope)
        → length payload ≤ max_uncompressed_frame_bytes
        → envelope_of codec payload ≡ ok envelope
        → payload_of codec envelope ≡ ok payload
    unfolding envelope_of payload_of
    payload_of-envelope_of payload envelope fits h =
        elim (Bool-cases (leb frame_compression_threshold_bytes (length payload))) [
          | inr small ↦
              let same : raw payload ≡ envelope = ok-injective (rw small at h) in
              subst (λ (e : FrameEnvelope). payload_of codec e ≡ ok payload) same
                (check_size_within max_uncompressed_frame_bytes payload fits)
          | inl large ↦ payload_of_packed payload envelope fits (rw large at h)
        ]

    read_frame_framed :
        (value : T) (payload sent rest : Bytes) (envelope : FrameEnvelope)
        → codec.from_slice payload ≡ some value
        → payload_of codec envelope ≡ ok payload
        → codec.envelope_from_slice sent ≡ some envelope
        → length sent ≤ max_frame_bytes
        → read_frame codec ((be_bytes (length sent) ++ sent) ++ rest) ≡ ok (value, rest)
    unfolding read_frame read_header
    read_frame_framed value payload sent rest envelope v p e fits =
        let n = be_bytes_value (length sent) (omega arith) in
        let small : ltb max_frame_bytes (length sent) ≡ false = ground arith in
        rw (n, small, read_exact-append sent rest, e, p, v)

    -- What `write_frame` writes, at the head of any stream, is read back as the value, and the rest of
    -- the stream is left.
    pub read_frame-write_frame :
        (value : T) (bytes rest : Bytes)
        → write_frame codec value ≡ ok bytes
        → read_frame codec (bytes ++ rest) ≡ ok (value, rest)
    unfolding write_frame read_frame read_header
    read_frame-write_frame value bytes rest h =
        let (encoded, e1, h1) = >>=-eq-ok (ok_or (codec.to_vec value) serialization) _ h in
        let (payload, e2, h2) =
          >>=-eq-ok (check_size codec max_uncompressed_frame_bytes encoded) _ h1 in
        let (envelope, e3, h3) = >>=-eq-ok (envelope_of codec payload) _ h2 in
        let (framed, e4, h4) =
          >>=-eq-ok (ok_or (codec.envelope_to_vec envelope) serialization) _ h3 in
        let (sent, e5, h5) = >>=-eq-ok (check_size codec max_frame_bytes framed) _ h4 in
        let same_encoded = check_size-ok max_uncompressed_frame_bytes encoded payload e2 in
        let same_framed = check_size-ok max_frame_bytes framed sent e5 in
        let written : codec.to_vec value ≡ some payload =
          ok_or-some _ _ (rw same_encoded.0 at e1) in
        let framed_as : codec.envelope_to_vec envelope ≡ some sent =
          ok_or-some _ _ (rw same_framed.0 at e4) in
        let taken : envelope_of codec payload ≡ ok envelope = e3 in
        subst (λ (stream : Bytes). read_frame codec (stream ++ rest) ≡ ok (value, rest))
          (ok-injective h5)
          (read_frame_framed value payload sent rest envelope
            (undoes.from_slice-to_vec value payload written)
            (payload_of-envelope_of payload envelope same_encoded.1 taken)
            (undoes.envelope_undone envelope sent framed_as) same_framed.1)
