-- ===== src/Tests/Frames.antt =====
-- Frames through a codec that writes bytes as they are.
use localreview.Prelude.{
  zero, suc, subst, ◌≡◌, refl, sym, ap, [], ◌∷◌, ◌++◌, Option, none, some, take,
}
use localreview.Prelude.Text.{Bytes}
use localreview.Prelude.Result.{ok}
use localreview.Protocol.Frame.{
  FrameEnvelope, raw, zstd, Codec, envelope_of, write_frame, read_frame,
}
use localreview.Protocol.Frame.RoundTrip.{Undoes, read_frame-write_frame}
use localreview.Protocol.Frame.Bounds.{IsBounded, read_frame-IsBounded}

abbrev tagged : FrameEnvelope → Bytes
tagged (raw bytes) = 0 ∷ bytes
tagged (zstd bytes) = 1 ∷ bytes

abbrev untagged : Bytes → Option FrameEnvelope
untagged (zero ∷ bytes) = some (raw bytes)
untagged (suc zero ∷ bytes) = some (zstd bytes)
untagged _ = none

abbrev plain : Codec Bytes
plain = record {
  to_vec = some;
  from_slice = some;
  envelope_to_vec = λ envelope. some (tagged envelope);
  envelope_from_slice = untagged;
  encode_all = some;
  read_to_end = λ n bytes. some (take n bytes);
}

untagged-tagged : (envelope : FrameEnvelope) → untagged (tagged envelope) ≡ some envelope
untagged-tagged (raw bytes) = refl
untagged-tagged (zstd bytes) = refl

some-injective : {A : Type 0} {a b : A} → some a ≡ some b → a ≡ b
some-injective e = cc

plain-Undoes : Undoes plain
plain-Undoes = record {
  from_slice-to_vec = λ value bytes h. sym h;
  envelope_undone = λ envelope bytes h.
      subst (λ (b : Bytes). untagged b ≡ some envelope) (some-injective h)
        (untagged-tagged envelope);
  read_to_end-encode_all =
      λ bytes packed n h. ap (λ (b : Bytes). some (take n b)) (sym (some-injective h));
}

written : write_frame plain (7 ∷ 9 ∷ []) ≡ ok (0 ∷ 0 ∷ 0 ∷ 3 ∷ 0 ∷ 7 ∷ 9 ∷ [])
unfolding write_frame envelope_of
written = refl

read_frame-write_frame_example :
    read_frame plain ((0 ∷ 0 ∷ 0 ∷ 3 ∷ 0 ∷ 7 ∷ 9 ∷ []) ++ (5 ∷ [])) ≡ ok (7 ∷ 9 ∷ [], 5 ∷ [])
read_frame-write_frame_example =
    read_frame-write_frame plain plain-Undoes (7 ∷ 9 ∷ []) (0 ∷ 0 ∷ 0 ∷ 3 ∷ 0 ∷ 7 ∷ 9 ∷ []) (5 ∷ [])
      written

read_frame-IsBounded_example :
    IsBounded plain ((0 ∷ 0 ∷ 0 ∷ 3 ∷ 0 ∷ 7 ∷ 9 ∷ []) ++ (5 ∷ [])) (7 ∷ 9 ∷ []) (5 ∷ [])
read_frame-IsBounded_example =
    read_frame-IsBounded plain ((0 ∷ 0 ∷ 0 ∷ 3 ∷ 0 ∷ 7 ∷ 9 ∷ []) ++ (5 ∷ [])) (7 ∷ 9 ∷ []) (5 ∷ [])
      read_frame-write_frame_example
