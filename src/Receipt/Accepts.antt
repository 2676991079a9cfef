-- ===== src/Receipt/Accepts.antt =====
-- Which receipts verifyReceipt of x402-xahau/server.mjs accepts.
use xahc.Prelude.{
  ◌%◌, String, if◌then◌else◌, ◌≤◌, ◌≡◌, ◌↔◌, refl, ap, sym, ◌∙◌, all, length, true, Option, some,
  Option-cases, inl, inr, arith,
}
use xahc.Prelude.Text.{Text, codes, text_eq_iff, text_eq_refl}
use xahc.Amount.Currency.{is_hex}
use xahc.Js.{Value, null, str, num, obj, nat, field, end, prop, as_text, is_nullish}
use xahc.Receipt.Json.{canonical_json}
use xahc.Receipt.{
  Crypto, Proof, receipt_signable_payload, fields_of, well_formed, expected_key, proof_texts,
  check_proof, verifies, verify_receipt,
}
use xahc.Receipt.RoundTrip.{check_proof-verifies, verify_receipt-read}

-- A field of the receipt, null where it has none.
abbrev own : Value → String → Value
own receipt name = if is_nullish (prop name receipt) then null else prop name receipt

-- What a signature of a receipt is over.
abbrev pub signed_object : Value → Value
signed_object r = obj (
    field "v" (num (nat 1)) (
      field "network" (own r "network") (
        field "txHash" (own r "txHash") (
          field "payer" (own r "payer") (
            field "payTo" (own r "payTo") (
              field "asset" (own r "asset") (
                field "delivered" (own r "delivered")
                  (field "required" (own r "required") (field "ts" (own r "ts") end)))))))))

-- The receipt has a proof in the format of ed25519, by the expected key if there is one, and the signature
-- verifies over the canonical text of its own eight fields.
pub record IsSigned (crypto : Crypto) (receipt : Value) (expected : Option Text) : Type 0 where
  pub key : Text
  pub sig : Text
  pub bytes : Text
  pub is_alg : prop "alg" (prop "proof" receipt) ≡ str (codes "ed25519")
  pub is_key : prop "pubkey" (prop "proof" receipt) ≡ str key
  pub is_sig : prop "sig" (prop "proof" receipt) ≡ str sig
  pub key_length : length key ≡ 64
  pub key_hex : all is_hex key ≡ true
  pub sig_length : 1 ≤ length sig
  pub sig_even : length sig % 2 ≡ 0
  pub sig_hex : all is_hex sig ≡ true
  pub wanted : expected_key expected key ≡ true
  pub canonical : canonical_json (signed_object receipt) ≡ some bytes
  pub verified : crypto.verify key bytes sig ≡ some true

as_text-str : (v : Value) (t : Text) → as_text v ≡ some t → v ≡ str t
as_text-str (str u) t h = ground (arith, h)
as_text-str _ t h = ground (arith, h)

-- The three texts of a proof.
texts-proof_texts :
    (v : Value) (p : Proof)
    → prop "alg" v ≡ str p.alg
    → prop "pubkey" v ≡ str p.pubkey
    → prop "sig" v ≡ str p.sig
    → proof_texts v ≡ some p
unfolding proof_texts
texts-proof_texts v p a k s = rw (a, k, s, proof_texts) refl

proof_texts-texts :
    (v : Value) (p : Proof)
    → proof_texts v ≡ some p
    → (prop "alg" v ≡ str p.alg) × (prop "pubkey" v ≡ str p.pubkey) × (prop "sig" v ≡ str p.sig)
unfolding proof_texts
proof_texts-texts v p h = elim (Option-cases (as_text (prop "alg" v))) [
  | inl e ↦ absurd (ground (arith, e, h))
  | inr (alg, a) ↦ elim (Option-cases (as_text (prop "pubkey" v))) [
    | inl e ↦ absurd (ground (arith, e, a, h))
    | inr (key, k) ↦ elim (Option-cases (as_text (prop "sig" v))) [
      | inl e ↦ absurd (ground (arith, e, a, k, h))
      | inr (sig, s) ↦ (
        as_text-str (prop "alg" v) p.alg (ground (arith, a, k, s, h)),
        as_text-str (prop "pubkey" v) p.pubkey (ground (arith, a, k, s, h)),
        as_text-str (prop "sig" v) p.sig (ground (arith, a, k, s, h)),
      )
    ]
  ]
]

module _ (crypto : Crypto) (receipt : Value) (expected : Option Text) where
  IsSigned-accepted :
      IsSigned crypto receipt expected → verify_receipt crypto receipt expected ≡ true
  unfolding receipt_signable_payload
  IsSigned-accepted s =
      let p : Proof = record { alg = codes "ed25519"; pubkey = s.key; sig = s.sig } in
      let alg = text_eq_refl (codes "ed25519") in
      let shape : well_formed p ≡ true =
        ground (arith, alg, s.key_length, s.key_hex, s.sig_length, s.sig_even, s.sig_hex) in
      verify_receipt-read crypto receipt expected p
        (texts-proof_texts (prop "proof" receipt) p s.is_alg s.is_key s.is_sig)
      ∙ check_proof-verifies crypto receipt expected p s.bytes shape s.wanted s.canonical s.verified

  shape-IsSigned :
      (p : Proof) (bytes : Text)
      → proof_texts (prop "proof" receipt) ≡ some p
      → well_formed p ≡ true
      → expected_key expected p.pubkey ≡ true
      → canonical_json (signed_object receipt) ≡ some bytes
      → crypto.verify p.pubkey bytes p.sig ≡ some true
      → IsSigned crypto receipt expected
  shape-IsSigned p bytes read shape wanted canonical verified =
      let (alg, key, sig) = proof_texts-texts (prop "proof" receipt) p read in
      record {
        key = p.pubkey;
        sig = p.sig;
        bytes = bytes;
        is_alg = alg ∙ ap str ((text_eq_iff p.alg (codes "ed25519")).0 (ground (arith, shape)));
        is_key = key;
        is_sig = sig;
        key_length = ground (arith, shape);
        key_hex = ground (arith, shape);
        sig_length = ground (arith, shape);
        sig_even = ground (arith, shape);
        sig_hex = ground (arith, shape);
        wanted = wanted;
        canonical = canonical;
        verified = verified;
      }

  checked-IsSigned :
      (p : Proof)
      → proof_texts (prop "proof" receipt) ≡ some p
      → check_proof crypto receipt expected p ≡ true
      → IsSigned crypto receipt expected
  unfolding check_proof verifies receipt_signable_payload
  checked-IsSigned p read h =
      elim (Option-cases (canonical_json (receipt_signable_payload (fields_of receipt)))) [
        | inl f ↦ absurd (ground (arith, f, h))
        | inr (bytes, f) ↦ elim (Option-cases (crypto.verify p.pubkey bytes p.sig)) [
          | inl g ↦ absurd (ground (arith, f, g, h))
          | inr (b, g) ↦
              shape-IsSigned p bytes read (ground (arith, f, g, h)) (ground (arith, f, g, h)) f
                (ground (arith, f, g, h))
        ]
      ]

  accepted-IsSigned :
      verify_receipt crypto receipt expected ≡ true → IsSigned crypto receipt expected
  unfolding verify_receipt
  accepted-IsSigned h = elim (Option-cases (proof_texts (prop "proof" receipt))) [
    | inl e ↦ absurd (ground (arith, e, h))
    | inr (p, e) ↦ checked-IsSigned p e (sym (verify_receipt-read crypto receipt expected p e) ∙ h)
  ]

  -- verifyReceipt accepts exactly the receipts whose proof is in the format of ed25519, by the expected
  -- key, up to case, if there is one, and verifies over the canonical text of the object of the version 1
  -- and the receipt's own network, txHash, payer, payTo, asset, delivered, required and ts.
  pub verify_receipt_iff :
      (verify_receipt crypto receipt expected ≡ true) ↔ IsSigned crypto receipt expected
  verify_receipt_iff = (accepted-IsSigned, IsSigned-accepted)
