-- ===== src/Protocol/Frame/Bounds.antt =====
-- crates/protocol/src/frame.rs: the sizes of what `read_frame` takes in.
use localreview.Prelude.{
  ℕ, zero, suc, ◌≤◌, ◌≡◌, refl, sym, ap, ◌∙◌, subst, [], ◌∷◌, ◌++◌, some, length, take, drop, ltb,
  if◌then◌else◌, arith, inl, inr, Bool-cases,
}
use localreview.Prelude.Text.{Bytes}
use localreview.Prelude.Result.{Result, ok, err, >>=-eq-ok, ok-injective, err-ne-ok, ok_or}
use localreview.Protocol.Errors.{ProtocolError, frame_too_large, serialization, compression}
use localreview.Protocol.Frame.{
  max_frame_bytes, max_uncompressed_frame_bytes, FrameEnvelope, raw, zstd, Codec, read_exact,
  read_header, decompress_bounded, payload_of, read_frame,
}
use localreview.Protocol.Frame.RoundTrip.{check_size-ok, ok_or-some}

take-drop : (n : ℕ) (s : Bytes) → take n s ++ drop n s ≡ s
take-drop zero s = refl
take-drop (suc n) [] = refl
take-drop (suc n) (c ∷ s) = ap (◌∷◌ c) (take-drop n s)

length-take_le : (n : ℕ) (s : Bytes) → length (take n s) ≤ n
length-take_le zero s = omega arith
length-take_le (suc n) [] = omega arith
length-take_le (suc n) (c ∷ s) = let rest = length-take_le n s in omega arith

-- What a frame that was read is made of.
pub record IsBounded {T : Type 0} (codec : Codec T) (stream : Bytes) (value : T) (rest : Bytes)
    : Type 0 where
  pub header : Bytes
  pub sent : Bytes
  pub payload : Bytes
  pub split : stream ≡ header ++ (sent ++ rest)
  pub header_length : length header ≡ 4
  pub sent_bound : length sent ≤ 8388608
  pub payload_bound : length payload ≤ 33554432
  pub decoded : codec.from_slice payload ≡ some value

module _ {T : Type 0} (codec : Codec T) where
  payload_of-bound :
      (envelope : FrameEnvelope) (payload : Bytes)
      → payload_of codec envelope ≡ ok payload
      → length payload ≤ max_uncompressed_frame_bytes
  unfolding payload_of decompress_bounded
  payload_of-bound (raw sent) payload h =
      (check_size-ok codec max_uncompressed_frame_bytes sent payload h).1
  payload_of-bound (zstd sent) payload h =
      let (output, e, h1) = >>=-eq-ok (ok_or (codec.read_to_end 33554433 sent) compression) _ h in
      (check_size-ok codec max_uncompressed_frame_bytes output payload h1).1

  read_header-split :
      (stream : Bytes) (header : ℕ × Bytes)
      → read_header codec stream ≡ ok header
      → (four : Bytes) × (stream ≡ four ++ header.1) × (length four ≡ 4)
  unfolding read_header
  read_header-split [] header h = absurd (err-ne-ok h)
  read_header-split (a ∷ []) header h = absurd (err-ne-ok h)
  read_header-split (a ∷ b ∷ []) header h = absurd (err-ne-ok h)
  read_header-split (a ∷ b ∷ c ∷ []) header h = absurd (err-ne-ok h)
  read_header-split (a ∷ b ∷ c ∷ d ∷ rest) header h = (
    a ∷ b ∷ c ∷ d ∷ [],
    ap (λ (t : Bytes). a ∷ b ∷ c ∷ d ∷ t) (ap (λ (p : ℕ × Bytes). p.1) (ok-injective h)),
    refl,
  )

  fits_eq :
      (n fits : ℕ)
      → ◌≡◌ {A = Result ProtocolError ℕ}
          (if ltb max_frame_bytes n then err (frame_too_large n) else ok n)
          (ok fits)
      → (n ≡ fits) × (fits ≤ 8388608)
  fits_eq n fits h = elim (Bool-cases (ltb max_frame_bytes n)) [
    | inl large ↦ absurd (err-ne-ok (rw large at h))
    | inr small ↦
        let same : n ≡ fits = ok-injective (rw small at h) in (same, rw (← same) (ground arith))
  ]

  read_exact-split :
      (n : ℕ) (stream : Bytes) (parts : Bytes × Bytes)
      → read_exact codec n stream ≡ ok parts
      → (stream ≡ parts.0 ++ parts.1) × (length parts.0 ≤ n)
  unfolding read_exact
  read_exact-split n stream parts h = elim (Bool-cases (ltb (length stream) n)) [
    | inl short ↦ absurd (err-ne-ok (rw (short, read_exact) at h))
    | inr enough ↦
        let same : (take n stream, drop n stream) ≡ parts =
          ok-injective (rw (enough, read_exact) at h) in
        subst (λ (p : Bytes × Bytes). (stream ≡ p.0 ++ p.1) × (length p.0 ≤ n)) same
          (sym (take-drop n stream), length-take_le n stream)
  ]

  -- A frame that is read is four bytes of header and at most 8 MiB behind them, at the head of the
  -- stream, and the bytes that its value is decoded from are at most 32 MiB; what is behind the frame is
  -- left.
  pub read_frame-IsBounded :
      (stream : Bytes) (value : T) (rest : Bytes)
      → read_frame codec stream ≡ ok (value, rest)
      → IsBounded codec stream value rest
  unfolding read_frame
  read_frame-IsBounded stream value rest h =
      let (header, e0, h0) = >>=-eq-ok (read_header codec stream) _ h in
      let (fits, e1, h1) =
        >>=-eq-ok
          (if ltb max_frame_bytes header.0 then err (frame_too_large header.0) else ok header.0) _
          h0 in
      let (parts, e2, h2) = >>=-eq-ok (read_exact codec fits header.1) _ h1 in
      let (envelope, e3, h3) =
        >>=-eq-ok (ok_or (codec.envelope_from_slice parts.0) serialization) _ h2 in
      let (payload, e4, h4) = >>=-eq-ok (payload_of codec envelope) _ h3 in
      let (found, e5, h5) = >>=-eq-ok (ok_or (codec.from_slice payload) serialization) _ h4 in
      let (four, split0, four_long) = read_header-split stream header e0 in
      let (split1, short) = read_exact-split fits header.1 parts e2 in
      let fit = (fits_eq header.0 fits e1).1 in
      let pair : (found, parts.1) ≡ (value, rest) = ok-injective h5 in
      subst (λ (p : T × Bytes). IsBounded codec stream p.0 p.1) pair
        (record {
          header = four;
          sent = parts.0;
          payload = payload;
          split = split0 ∙ ap (λ (t : Bytes). four ++ t) split1;
          header_length = four_long;
          sent_bound = omega arith;
          payload_bound = payload_of-bound envelope payload e4;
          decoded = ok_or-some (codec.from_slice payload) serialization e5;
        })
