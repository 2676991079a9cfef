-- ===== src/Tests/Receipts.antt =====
-- A signed receipt, verified offline.
use xahc.Prelude.{◌≡◌, ◌↔◌, refl, true, none, some}
use xahc.Prelude.Text.{Text, codes, text_eq}
use xahc.Js.{Value, str, num, nat, null, obj, field, end}
use xahc.Receipt.Json.{canonical_json}
use xahc.Receipt.{
  Crypto, Signable, Proof, receipt_signable_payload, sign_receipt, verify_receipt, proof_texts,
  check_proof, verifies, well_formed,
}
use xahc.Receipt.Accepts.{IsSigned, verify_receipt_iff}
use xahc.Receipt.RoundTrip.{proof_value, verify_receipt-sign_receipt}

abbrev zeros : Text
zeros = codes "0000000000000000000000000000000000000000000000000000000000000000"

abbrev signer : Crypto
signer = record {
  public_hex = zeros;
  sign = λ bytes. some (codes "aa");
  verify = λ key bytes sig. some true;
}

abbrev paid : Signable
paid = record {
  network = str (codes "xahau");
  tx_hash = str (codes "H1");
  payer = str (codes "rA");
  pay_to = str (codes "rB");
  asset = null;
  delivered = str (codes "1000");
  required = str (codes "1000");
  ts = num (nat 1000);
}

abbrev proof : Proof
proof = record { alg = codes "ed25519"; pubkey = zeros; sig = codes "aa" }

abbrev receipt : Value
receipt = obj (
    field "network" (str (codes "xahau")) (
      field "txHash" (str (codes "H1")) (
        field "payer" (str (codes "rA")) (
          field "payTo" (str (codes "rB")) (
            field "asset" null (
              field "delivered" (str (codes "1000")) (
                field "required" (str (codes "1000"))
                  (field "ts" (num (nat 1000)) (field "proof" (proof_value proof) end)))))))))

signs : sign_receipt signer paid ≡ some proof
unfolding sign_receipt canonical_json receipt_signable_payload
signs = refl

shape : well_formed proof ≡ true
unfolding text_eq
shape = refl

verify_receipt-sign_receipt_example : verify_receipt signer receipt none ≡ true
verify_receipt-sign_receipt_example =
    verify_receipt-sign_receipt signer paid proof receipt none (λ bytes sig h. refl) signs shape
      refl
      (record {
        network = refl;
        tx_hash = refl;
        payer = refl;
        pay_to = refl;
        asset = refl;
        delivered = refl;
        required = refl;
        ts = refl;
      })
      refl

verifies_own : verify_receipt signer receipt none ≡ true
unfolding verify_receipt check_proof proof_texts canonical_json receipt_signable_payload verifies
    text_eq
verifies_own = refl

verify_receipt_iff_example :
    (verify_receipt signer receipt none ≡ true) ↔ IsSigned signer receipt none
verify_receipt_iff_example = verify_receipt_iff signer receipt none
