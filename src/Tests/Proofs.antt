-- ===== src/Tests/Proofs.antt =====
-- A request signed and verified, with codes that are their texts.
use localreview.Prelude.{◌≡◌, refl, some, [], ◌∷◌, ◌++◌}
use localreview.Prelude.Text.{Bytes, codes}
use localreview.Prelude.Result.{ok}
use localreview.Protocol.Local.Commands.{LocalRequest, list_workspaces}
use localreview.Protocol.Auth.{Signer, signing_payload, sign, verify, verify-sign, verify-code}

abbrev signer : Signer
signer = record {
  to_vec = λ payload. some (payload.issued_at_unix_secs ∷ payload.request_id);
  mac = λ secret bytes. secret ++ bytes;
  encode = λ bytes. bytes;
  decode = λ text. some text;
}

abbrev request : LocalRequest
request = record {
  version = 5;
  request_id = codes "r1";
  issued_at_unix_secs = 17;
  command = list_workspaces;
  authentication = [];
}

abbrev proof : Bytes
proof = codes "k" ++ 17 ∷ codes "r1"

signed : sign signer (codes "k") request ≡ ok proof
unfolding sign
signed = refl

verify-sign_example : verify signer (codes "k") (record request { authentication = proof }) ≡ ok tt
verify-sign_example = verify-sign signer (λ bytes. refl) (codes "k") proof request signed

verify-code_example :
    (bytes : Bytes) × (signer.to_vec (signing_payload (record request { authentication = proof }))
      ≡ some bytes)
    × (signer.decode proof ≡ some (signer.mac (codes "k") bytes))
verify-code_example =
    verify-code signer (codes "k") (record request { authentication = proof }) verify-sign_example
