-- ===== src/Protocol/Auth.antt =====
-- crates/protocol/src/auth.rs: the proof that a request carries. HMAC-SHA256, the CBOR writer and the hex
-- package are an interface.
use localreview.Prelude.{
  ℕ, ◌≡◌, refl, subst, Option, none, some, if◌then◌else◌, Bool-cases, inl, inr,
}
use localreview.Prelude.Text.{Bytes, same, same-eq, same_self}
use localreview.Prelude.Result.{Result, ok, err, ◌>>=◌, >>=-eq-ok, ok-injective, err-ne-ok, ok_or}
use localreview.Protocol.Errors.{ProtocolError, authentication_failed, serialization}
use localreview.Protocol.Local.Commands.{LocalCommand, LocalRequest}

pub record LocalSigningPayload : Type 0 where
  pub version : ℕ
  pub request_id : Bytes
  pub issued_at_unix_secs : ℕ
  pub command : LocalCommand

-- `LocalRequest::signing_payload`.
abbrev pub signing_payload : LocalRequest → LocalSigningPayload
signing_payload request = record {
  version = request.version;
  request_id = request.request_id;
  issued_at_unix_secs = request.issued_at_unix_secs;
  command = request.command;
}

-- `to_vec` of a payload, the code of a text under a key, and `hex::encode` and `hex::decode`.
pub record Signer : Type 0 where
  pub to_vec : LocalSigningPayload → Option Bytes
  pub mac : Bytes → Bytes → Bytes
  pub encode : Bytes → Bytes
  pub decode : Bytes → Option Bytes

module _ (signer : Signer) where
  -- `InstallationSecret::sign`.
  unfoldable pub sign : Bytes → LocalRequest → Result ProtocolError Bytes
  sign secret request = do
    bytes ← ok_or (signer.to_vec (signing_payload request)) serialization
    ok (signer.encode (signer.mac secret bytes))

  -- `verify_slice`.
  abbrev pub verify_slice : Bytes → Bytes → Result ProtocolError (Unit {0})
  verify_slice code received = if same code received then ok tt else err authentication_failed

  -- `InstallationSecret::verify`.
  unfoldable pub verify : Bytes → LocalRequest → Result ProtocolError (Unit {0})
  verify secret request = do
    received ← ok_or (signer.decode request.authentication) authentication_failed
    bytes ← ok_or (signer.to_vec (signing_payload request)) serialization
    verify_slice (signer.mac secret bytes) received

  some_of : {A : Type 0} (o : Option A) (a : A) (e : ProtocolError) → ok_or o e ≡ ok a → o ≡ some a
  some_of none a e h = absurd (err-ne-ok h)
  some_of (some b) a e h = cc (ok-injective h)

  -- Where decoding hex undoes encoding it, a request that carries the proof that `sign` gives for it
  -- passes under the same secret.
  pub verify-sign :
      (decode-encode : (bytes : Bytes) → signer.decode (signer.encode bytes) ≡ some bytes)
      (secret proof : Bytes) (request : LocalRequest)
      → sign secret request ≡ ok proof
      → verify secret (record request { authentication = proof }) ≡ ok tt
  unfolding sign verify
  verify-sign decode-encode secret proof request h =
      let (bytes, written, h1) =
        >>=-eq-ok (ok_or (signer.to_vec (signing_payload request)) serialization) _ h in
      let found = some_of (signer.to_vec (signing_payload request)) bytes serialization written in
      let made : signer.encode (signer.mac secret bytes) ≡ proof = ok-injective h1 in
      let decoded : signer.decode proof ≡ some (signer.mac secret bytes) =
        subst (λ (p : Bytes). signer.decode p ≡ some (signer.mac secret bytes)) made
          (decode-encode (signer.mac secret bytes)) in
      rw (decoded, found, same_self (signer.mac secret bytes)) refl

  -- A request passes only with the code of its own payload under the secret: its proof decodes to it.
  pub verify-code :
      (secret : Bytes) (request : LocalRequest)
      → verify secret request ≡ ok tt
      → (bytes : Bytes) × (signer.to_vec (signing_payload request) ≡ some bytes)
        × (signer.decode request.authentication ≡ some (signer.mac secret bytes))
  unfolding verify
  verify-code secret request h =
      let (received, e0, h0) =
        >>=-eq-ok (ok_or (signer.decode request.authentication) authentication_failed) _ h in
      let (bytes, e1, h1) =
        >>=-eq-ok (ok_or (signer.to_vec (signing_payload request)) serialization) _ h0 in
      let found = some_of (signer.to_vec (signing_payload request)) bytes serialization e1 in
      let decoded =
        some_of (signer.decode request.authentication) received authentication_failed e0 in
      elim (Bool-cases (same (signer.mac secret bytes) received)) [
        | inr other ↦ absurd (err-ne-ok (rw other at h1))
        | inl equal ↦
            let is_code = same-eq (signer.mac secret bytes) received equal in
            (bytes, found, rw is_code decoded)
      ]
