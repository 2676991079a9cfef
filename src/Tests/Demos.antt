-- ===== src/Tests/Demos.antt =====
-- The launcher beside the server, the agent's payment, and the scripts.
use xahc.Prelude.{
  ℕ, ◌≡◌, refl, true, false, none, some, [], ◌∷◌, ◌&&◌, if◌then◌else◌, length, ◌==◌, take, List,
  Bool-cases, &&_true, inl, inr, subst,
}
use xahc.Prelude.Text.{Text, codes, text_eq, text_eq_sound}
use xahc.Digits.{decimal}
use xahc.Message.{ok}
use xahc.Js.{str}
use xahc.Libs.{Libs, is_valid_r_address, valid_address_text, verify_tx_signature}
use xahc.Amount.Drops.{parse_strict_drops}
use xahc.Digits.{value_of}
use xahc.Verify.{Verified, exact, upto, native, read_terms, verify_exact}
use xahc.Http.Body
use xahc.Http.Body.{on_data, on_end}
use xahc.Demo.Facilitator.{read_body}
use xahc.Demo.Facilitator.Mirrors.{outcome_if, read_body-mirrors}
use xahc.Demo.Resource.{offer, requirements, payload_of}
use xahc.Demo.Resource.Terms.{read_terms-offer}
use xahc.Demo.Agent.{Wallet, Ledger, Keys, Draft, draft_for, sign_payment, blob_for}
use xahc.Demo.Agent.Pays.{tx_of, Agree, blob_for-accepted}
use xahc.Scripts.Emit.{without_padding}
use xahc.Scripts.Emit.Padding.{IsTrimmed, without_padding-IsTrimmed}
use xahc.Scripts.EmitVm
use xahc.Scripts.EmitVm.{Read, Run, AllAmounts, exit_code, exit_code_iff}
use xahc.Tests.Samples

read_body-mirrors_example :
    read_body (λ bytes. none) (on_data (b'{' ∷ []) ∷ on_end ∷ [])
    ≡ outcome_if (Body.read_body (λ bytes. none) (on_data (b'{' ∷ []) ∷ on_end ∷ []))
read_body-mirrors_example = read_body-mirrors (λ bytes. none) (on_data (b'{' ∷ []) ∷ on_end ∷ [])

valid_merchant : is_valid_r_address Samples.libs (str (codes "rB")) ≡ true
unfolding is_valid_r_address valid_address_text
valid_merchant = refl

priced : parse_strict_drops (str (codes "1000000")) ≡ some 1000000
unfolding parse_strict_drops value_of
priced = refl

read_terms-offer_example :
    (read_terms Samples.libs (offer (codes "rB") (codes "/premium") (codes "1000000"))
      ≡ ok (record { scheme = exact; price = native 1000000 }))
    × (read_terms Samples.libs
          (requirements (offer (codes "rB") (codes "/premium") (codes "1000000")))
        ≡ ok (record { scheme = upto; price = native 1000000 }))
read_terms-offer_example =
    read_terms-offer Samples.libs (codes "rB") (codes "/premium") (codes "1000000") 1000000
      valid_merchant priced

-- A wallet of the key K that signs with S, and encodes one transaction as B1.
abbrev keys : Keys
keys = record { account = str (codes "rA"); secret = str (codes "seed") }

abbrev draft : Draft
draft = draft_for (str (codes "rA")) (offer (codes "rB") (codes "/premium") (codes "1000000")) 100 7

abbrev wallet : Wallet
wallet = record {
  derive_keypair = λ seed. some (codes "K", codes "P");
  derive_address = λ public. some (codes "rA");
  encode_for_signing = λ d public. some (codes "M");
  sign = λ message private. some (codes "S");
  encode = λ d public signature.
      if text_eq public (codes "K") && text_eq signature (codes "S")
      then some (codes "B1")
      else none;
}

abbrev ledger : Ledger
ledger = record { validated = some 100; sequence = λ account. some 7 }

signed :
    blob_for wallet ledger keys (offer (codes "rB") (codes "/premium") (codes "1000000"))
    ≡ ok (codes "B1")
unfolding blob_for text_eq sign_payment draft_for
signed = refl

abbrev agent_libs : Libs
agent_libs = record Samples.libs {
  decode = λ blob.
      if text_eq blob (codes "B1") then some (tx_of draft (codes "K") (codes "S")) else none;
  derive_address = some wallet.derive_address;
}

decodes :
    (public signature : Text)
    → wallet.encode draft public signature ≡ some (codes "B1")
    → agent_libs.decode (codes "B1") ≡ some (tx_of draft public signature)
unfolding text_eq
decodes public signature h =
    elim (Bool-cases (text_eq public (codes "K") && text_eq signature (codes "S"))) [
      | inl e ↦
          let (k, s) = &&_true (text_eq public (codes "K")) (text_eq signature (codes "S")) e in
          rw (text_eq_sound public (codes "K") k, text_eq_sound signature (codes "S") s) refl
      | inr e ↦ absurd (cc (rw e at h))
    ]

filled_signature :
    (message private signature : Text)
    → wallet.sign message private ≡ some signature
    → (length signature == 0) ≡ false
filled_signature message private signature h =
    let same : codes "S" ≡ signature = cc (h) in subst (λ t. (length t == 0) ≡ false) same refl

agree : Agree wallet agent_libs draft (codes "B1")
unfolding verify_tx_signature
agree = record {
  filled = refl;
  decodes = decodes;
  signs = filled_signature;
  verifies = refl;
  derives = refl;
}

blob_for-accepted_example :
    (v : Verified) × (verify_exact agent_libs 21338
        (payload_of (codes "B1"))
        (requirements (offer (codes "rB") (codes "/premium") (codes "1000000")))
      ≡ ok v)
    × (v.amount ≡ decimal 1000000)
    × (v.payer ≡ some (codes "rA"))
unfolding is_valid_r_address valid_address_text
blob_for-accepted_example =
    blob_for-accepted agent_libs wallet ledger keys (codes "rB") (codes "/premium")
      (codes "1000000") 1000000 100 7 (codes "B1") refl priced refl refl signed agree

without_padding-IsTrimmed_example :
    (end : ℕ) × (without_padding (codes "12000000") ≡ take end (codes "12000000"))
    × IsTrimmed (codes "12000000") (codes "12000000") end
without_padding-IsTrimmed_example = without_padding-IsTrimmed (codes "12000000")

abbrev vm_run : Run
vm_run = record { degraded = false; emitted = codes "12" ∷ [] }

abbrev parse : Text → List Read
parse t = EmitVm.field (codes "Amount") ∷ EmitVm.throws ∷ []
