-- ===== src/Receipt/RoundTrip.antt =====
-- A receipt that carries the fields and the proof that were signed verifies offline.
use xahc.Prelude.{
  ◌≡◌, refl, ap, subst, sym, ◌∙◌, ◌&&◌, if◌then◌else◌, true, false, Option, none, some,
  Option-cases, inl, inr, arith,
}
use xahc.Prelude.Text.{Text}
use xahc.Js.{Value, str, obj, field, end, prop}
use xahc.Receipt.Json.{canonical_json}
use xahc.Receipt.{
  Crypto, Signable, Proof, receipt_signable_payload, sign_receipt, fields_of, well_formed,
  expected_key, proof_texts, check_proof, verifies, verify_receipt,
}

-- { alg, pubkey, sig }
abbrev pub proof_value : Proof → Value
proof_value p =
    obj (field "alg" (str p.alg) (field "pubkey" (str p.pubkey) (field "sig" (str p.sig) end)))

-- The fields of a receipt are the values that are signed.
pub record Carries (receipt : Value) (s : Signable) : Type 0 where
  pub network : prop "network" receipt ≡ s.network
  pub tx_hash : prop "txHash" receipt ≡ s.tx_hash
  pub payer : prop "payer" receipt ≡ s.payer
  pub pay_to : prop "payTo" receipt ≡ s.pay_to
  pub asset : prop "asset" receipt ≡ s.asset
  pub delivered : prop "delivered" receipt ≡ s.delivered
  pub required : prop "required" receipt ≡ s.required
  pub ts : prop "ts" receipt ≡ s.ts

fields_of-Carries : (receipt : Value) (s : Signable) → Carries receipt s → fields_of receipt ≡ s
fields_of-Carries receipt s c =
    rw (c.network, c.tx_hash, c.payer, c.pay_to, c.asset, c.delivered, c.required, c.ts) refl

-- The key pair verifies what it has signed: the documented law of the primitives.
abbrev pub VerifiesOwn : Crypto → Type 0
VerifiesOwn crypto =
    (bytes sig : Text)
    → crypto.sign bytes ≡ some sig
    → crypto.verify crypto.public_hex bytes sig ≡ some true

pub check_proof-verifies :
    (crypto : Crypto) (receipt : Value) (expected : Option Text) (p : Proof) (bytes : Text)
    → well_formed p ≡ true
    → expected_key expected p.pubkey ≡ true
    → canonical_json (receipt_signable_payload (fields_of receipt)) ≡ some bytes
    → crypto.verify p.pubkey bytes p.sig ≡ some true
    → check_proof crypto receipt expected p ≡ true
unfolding check_proof verifies
check_proof-verifies crypto receipt expected p bytes shape key e v =
    let both : well_formed p && expected_key expected p.pubkey ≡ true = rw (shape, key) refl in
    subst
      (λ b.
        (if b
          then elim (canonical_json (receipt_signable_payload (fields_of receipt))) [
            | none ↦ false
            | some c ↦ verifies (crypto.verify p.pubkey c p.sig)
          ]
          else false)
        ≡ true)
      (sym both) (rw (e, v) refl)

proof_texts-proof_value : (p : Proof) → proof_texts (proof_value p) ≡ some p
unfolding proof_texts
proof_texts-proof_value p = refl

pub verify_receipt-read :
    (crypto : Crypto) (receipt : Value) (expected : Option Text) (p : Proof)
    → proof_texts (prop "proof" receipt) ≡ some p
    → verify_receipt crypto receipt expected ≡ check_proof crypto receipt expected p
unfolding verify_receipt
verify_receipt-read crypto receipt expected p read =
    subst
      (λ x.
        elim x [ none ↦ false | some q ↦ check_proof crypto receipt expected q ]
        ≡ check_proof crypto receipt expected p)
      (sym read) refl

-- A receipt that has the signed values as its fields and the proof that signReceipt made passes
-- verifyReceipt, given that the primitive verifies what the key pair signs, that the key and the signature
-- are printed as hexadecimal digits, and that a key that the verifier expects is that of the proof, up to
-- case.
pub verify_receipt-sign_receipt :
    (crypto : Crypto) (s : Signable) (p : Proof) (receipt : Value) (expected : Option Text)
    → VerifiesOwn crypto
    → sign_receipt crypto s ≡ some p
    → well_formed p ≡ true
    → expected_key expected p.pubkey ≡ true
    → Carries receipt s
    → prop "proof" receipt ≡ proof_value p
    → verify_receipt crypto receipt expected ≡ true
unfolding sign_receipt
verify_receipt-sign_receipt crypto s p receipt expected law signed shape key fields proof =
    elim (Option-cases (canonical_json (receipt_signable_payload s))) [
      | inl e ↦ absurd (ground (arith, e))
      | inr (bytes, e) ↦ elim (Option-cases (crypto.sign bytes)) [
        | inl f ↦ absurd (ground (arith, e, f))
        | inr (sig, f) ↦
            let own : crypto.verify p.pubkey bytes p.sig ≡ some true =
              ground (arith, e, f, law bytes sig f) in
            verify_receipt-read crypto receipt expected p
              (ap proof_texts proof ∙ proof_texts-proof_value p)
            ∙ check_proof-verifies crypto receipt expected p bytes shape key
                (ap (λ x. canonical_json (receipt_signable_payload x))
                    (fields_of-Carries receipt s fields)
                  ∙ e)
                own
      ]
    ]
