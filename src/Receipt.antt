-- ===== src/Receipt.antt =====
-- Signed receipts of x402-xahau/server.mjs: the canonical JSON of the signable fields, signing and
-- offline verification. The ed25519 primitives are parameters.
pub mod Json
pub mod RoundTrip
pub mod Accepts
pub mod Key
use xahc.Prelude.{
  ℕ, String, Bool, true, false, not, ◌&&◌, Option, none, some, [], ◌∷◌, if◌then◌else◌, ◌==◌, ◌+◌,
  ◌%◌, leb, all, length, map,
}
use xahc.Prelude.Text.{Text, codes, text_eq}
use xahc.Js.{
  Value, undefined, null, str, num, obj, nat, Fields, end, field, prop, as_text, is_nullish,
  is_object,
}
use xahc.Amount.Currency.{is_hex}
use Json.{canonical_json}

-- A key pair and the primitives: node:crypto's sign and verify over texts of code units. `none` is a
-- throw.
pub record Crypto : Type 0 where
  pub public_hex : Text
  pub sign : Text → Option Text
  pub verify : Text → Text → Text → Option Bool

-- Buffer.toString("hex") of a signature, and the arguments that the signer projects.
pub record Signable : Type 0 where
  pub network : Value
  pub tx_hash : Value
  pub payer : Value
  pub pay_to : Value
  pub asset : Value
  pub delivered : Value
  pub required : Value
  pub ts : Value

-- v ?? null
abbrev or_null : Value → Value
or_null v = if is_nullish v then null else v

unfoldable pub receipt_signable_payload : Signable → Value
receipt_signable_payload s = obj (
    field "v" (num (nat 1)) (
      field "network" (or_null s.network) (
        field "txHash" (or_null s.tx_hash) (
          field "payer" (or_null s.payer) (
            field "payTo" (or_null s.pay_to) (
              field "asset" (or_null s.asset) (
                field "delivered" (or_null s.delivered)
                  (field "required" (or_null s.required) (field "ts" (or_null s.ts) end)))))))))

pub record Proof : Type 0 where
  pub alg : Text
  pub pubkey : Text
  pub sig : Text

-- null where the fields cannot be serialised or the primitive throws.
unfoldable pub sign_receipt : Crypto → Signable → Option Proof
sign_receipt crypto s = elim (canonical_json (receipt_signable_payload s)) [
  | none ↦ none
  | some bytes ↦ elim (crypto.sign bytes) [
    | none ↦ none
    | some sig ↦ some (record { alg = codes "ed25519"; pubkey = crypto.public_hex; sig = sig })
  ]
]

-- What a receipt offers to a verifier: its own fields.
abbrev pub fields_of : Value → Signable
fields_of r = record {
  network = prop "network" r;
  tx_hash = prop "txHash" r;
  payer = prop "payer" r;
  pay_to = prop "payTo" r;
  asset = prop "asset" r;
  delivered = prop "delivered" r;
  required = prop "required" r;
  ts = prop "ts" r;
}

-- toLowerCase, on hexadecimal digits.
abbrev pub lower_hex : ℕ → ℕ
lower_hex c = if leb 65 c && leb c 70 then c + 32 else c

-- expectedPubkey, if it is given, is the key of the proof up to case.
abbrev pub expected_key : Option Text → Text → Bool
expected_key none key = true
expected_key (some want) key = text_eq (map lower_hex key) (map lower_hex want)

unfoldable pub proof_texts : Value → Option Proof
proof_texts p = elim (as_text (prop "alg" p)) [
  | none ↦ none
  | some alg ↦ elim (as_text (prop "pubkey" p)) [
    | none ↦ none
    | some pubkey ↦ elim (as_text (prop "sig" p)) [
      | none ↦ none
      | some sig ↦ some (record { alg = alg; pubkey = pubkey; sig = sig })
    ]
  ]
]

-- The shape of a proof: 64 digits of the key, an even number of digits of the signature.
abbrev pub well_formed : Proof → Bool
well_formed p =
    text_eq p.alg (codes "ed25519")
    && (length p.pubkey == 64
        && all is_hex p.pubkey
        && (not (length p.sig == 0) && (all is_hex p.sig && length p.sig % 2 == 0)))

unfoldable pub verifies : Option Bool → Bool
verifies none = false
verifies (some b) = b

unfoldable pub check_proof : Crypto → Value → Option Text → Proof → Bool
unfolding verifies
check_proof crypto receipt expected p =
    if well_formed p && expected_key expected p.pubkey
    then elim (canonical_json (receipt_signable_payload (fields_of receipt))) [
      | none ↦ false
      | some bytes ↦ verifies (crypto.verify p.pubkey bytes p.sig)
    ]
    else false

unfoldable pub verify_receipt : Crypto → Value → Option Text → Bool
unfolding proof_texts check_proof
verify_receipt crypto receipt expected = elim (proof_texts (prop "proof" receipt)) [
  | none ↦ false
  | some p ↦ check_proof crypto receipt expected p
]
