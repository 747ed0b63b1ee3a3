-- ===== src/Protocol/Frame.antt =====
-- crates/protocol/src/frame.rs: length-prefixed frames. CBOR (serde_cbor) and zstd are an interface,
-- a stream is the bytes that are written to it or still to be read.
pub mod Bounds
pub mod RoundTrip
use localreview.Prelude.{
  ℕ, zero, suc, ◌+◌, ◌*◌, ◌/◌, ◌%◌, ◌≡◌, Bool, true, false, List, [], ◌∷◌, ◌++◌, Option, none, some,
  length, take, drop, ltb, leb, if◌then◌else◌,
}
use localreview.Prelude.Text.{Bytes}
use localreview.Prelude.Result.{Result, ok, err, ◌>>=◌, ok_or}
use localreview.Protocol.Errors.{ProtocolError, frame_too_large, compression, io, serialization}

-- `MAX_FRAME_BYTES`, `MAX_UNCOMPRESSED_FRAME_BYTES`, `FRAME_COMPRESSION_THRESHOLD_BYTES`.
abbrev pub max_frame_bytes : ℕ
max_frame_bytes = 8388608

abbrev pub max_uncompressed_frame_bytes : ℕ
max_uncompressed_frame_bytes = 33554432

abbrev pub frame_compression_threshold_bytes : ℕ
frame_compression_threshold_bytes = 65536

pub data FrameEnvelope : Type 0 where
  raw zstd : Bytes → FrameEnvelope

-- `to_vec` and `from_slice` of serde_cbor on values of `T` and on envelopes; `encode_all` of zstd, and
-- the first bytes that its decoder gives, at most so many.
pub record Codec (T : Type 0) : Type 0 where
  pub to_vec : T → Option Bytes
  pub from_slice : Bytes → Option T
  pub envelope_to_vec : FrameEnvelope → Option Bytes
  pub envelope_from_slice : Bytes → Option FrameEnvelope
  pub encode_all : Bytes → Option Bytes
  pub read_to_end : ℕ → Bytes → Option Bytes

-- `u32::to_be_bytes`.
abbrev pub be_bytes : ℕ → Bytes
be_bytes n = (n / 16777216) % 256 ∷ (n / 65536) % 256 ∷ (n / 256) % 256 ∷ n % 256 ∷ []

module _ {T : Type 0} (codec : Codec T) where
  open codec use {to_vec, from_slice, envelope_to_vec, envelope_from_slice, encode_all, read_to_end}

  -- The envelope of a payload.
  unfoldable pub envelope_of : Bytes → Result ProtocolError FrameEnvelope
  envelope_of payload =
      if leb frame_compression_threshold_bytes (length payload)
      then (do packed ← ok_or (encode_all payload) compression; ok (zstd packed))
      else ok (raw payload)

  abbrev pub check_size : ℕ → Bytes → Result ProtocolError Bytes
  check_size limit payload =
      if ltb limit (length payload) then err (frame_too_large (length payload)) else ok payload

  -- The bytes that `write_frame` writes.
  unfoldable pub write_frame : T → Result ProtocolError Bytes
  write_frame value = do
    encoded ← ok_or (to_vec value) serialization
    payload ← check_size max_uncompressed_frame_bytes encoded
    envelope ← envelope_of payload
    framed ← ok_or (envelope_to_vec envelope) serialization
    sent ← check_size max_frame_bytes framed
    ok (be_bytes (length sent) ++ sent)

  -- `read_exact` of a payload: the bytes read and those left, or the end of the stream.
  unfoldable pub read_exact : ℕ → Bytes → Result ProtocolError (Bytes × Bytes)
  read_exact n stream = if ltb (length stream) n then err io else ok (take n stream, drop n stream)

  -- The header's four bytes as a number.
  unfoldable pub read_header : Bytes → Result ProtocolError (ℕ × Bytes)
  read_header (a ∷ b ∷ c ∷ d ∷ rest) = ok (a * 16777216 + b * 65536 + c * 256 + d, rest)
  read_header _ = err io

  unfoldable pub decompress_bounded : Bytes → Result ProtocolError Bytes
  decompress_bounded payload = do
    output ← ok_or (read_to_end (max_uncompressed_frame_bytes + 1) payload) compression
    check_size max_uncompressed_frame_bytes output

  unfoldable pub payload_of : FrameEnvelope → Result ProtocolError Bytes
  unfolding decompress_bounded
  payload_of (raw payload) = check_size max_uncompressed_frame_bytes payload
  payload_of (zstd payload) = decompress_bounded payload

  -- The value of the first frame of a stream, and the bytes behind the frame.
  unfoldable pub read_frame : Bytes → Result ProtocolError (T × Bytes)
  read_frame stream = do
    header ← read_header stream
    let n = header.0
    fits ← (if ltb max_frame_bytes n then err (frame_too_large n) else ok n)
    parts ← read_exact fits header.1
    envelope ← ok_or (envelope_from_slice parts.0) serialization
    payload ← payload_of envelope
    value ← ok_or (from_slice payload) serialization
    ok (value, parts.1)
