-- ===== src/Demo/Agent/Pays.antt =====
-- What the agent signs for an offer of the resource server passes the check of the facilitator.
use xahc.Prelude.{
  ℕ, ◌≡◌, refl, sym, ap, ◌∙◌, Bool, true, false, Option, none, some, [], ◌⊎◌, ◌==◌, leb, length,
  arith, Bool-cases, Option-cases, inl, inr,
}
use xahc.Prelude.Text.{Text, codes, text_eq, text_eq_refl, text_eq_sound}
use xahc.Digits.{decimal}
use xahc.Message.{ok}
use xahc.Js.{Value, str, as_text}
use xahc.Libs.{Libs, Tx, is_valid_r_address, verify_tx_signature, derive_address_from_pub_key}
use xahc.Amount.Drops.{parse_strict_drops}
use xahc.Verify.{
  Verified, same_text, upto, native, drops, bind_key, check_signature, check_paid, check_fields,
  tx_blob, replay_key_for, amount_text, verify_exact,
}
use xahc.Demo.Resource.{offer, requirements, payload_of}
use xahc.Demo.Resource.Terms.{read_terms-offer}
use xahc.Demo.Agent.{Wallet, Ledger, Keys, Draft, draft_for, sign_payment, blob_for}

-- A signed draft, as the codec decodes it.
abbrev pub tx_of : Draft → Text → Text → Tx
tx_of d public signature = record {
  transaction_type = some (codes "Payment");
  network_id = some d.network_id;
  account = as_text d.account;
  destination = as_text d.destination;
  flags = some d.flags;
  amount = d.amount;
  last_ledger_sequence = some d.last_ledger_sequence;
  sequence = some d.sequence;
  invoice_id = none;
  signing_pub_key = some public;
  txn_signature = some signature;
  signers = [];
}

-- How a blob came about.
pub record IsSigned (wallet : Wallet) (d : Draft) (seed : Value) (blob : Text) : Type 0 where
  pub public : Text
  pub private : Text
  pub message : Text
  pub signature : Text
  pub account : Text
  pub pair : wallet.derive_keypair seed ≡ some (public, private)
  pub address : wallet.derive_address public ≡ some account
  pub own : same_text (some account) d.account ≡ true
  pub signed : wallet.sign message private ≡ some signature
  pub encoded : wallet.encode d public signature ≡ some blob

sign_payment-IsSigned :
    (wallet : Wallet) (d : Draft) (seed : Value) (blob : Text)
    → sign_payment wallet d seed ≡ ok blob
    → IsSigned wallet d seed blob
unfolding sign_payment
sign_payment-IsSigned wallet d seed blob h = elim (Option-cases (wallet.derive_keypair seed)) [
  | inl e ↦ absurd (ground (arith, e))
  | inr ((public, private), e) ↦ elim (Option-cases (wallet.derive_address public)) [
    | inl f ↦ absurd (ground (arith, e, f))
    | inr (account, f) ↦ elim (Option-cases (wallet.encode_for_signing d public)) [
      | inl m ↦ absurd (ground (arith, e, f, m))
      | inr (message, m) ↦ elim (Option-cases (wallet.sign message private)) [
        | inl s ↦ absurd (ground (arith, e, f, m, s))
        | inr (signature, s) ↦ record {
          public = public;
          private = private;
          message = message;
          signature = signature;
          account = account;
          pair = e;
          address = f;
          own = ground (arith, e, f, m, s);
          signed = s;
          encoded = ground (arith, e, f, m, s);
        }
      ]
    ]
  ]
]

blob_for-IsSigned :
    (wallet : Wallet) (ledger : Ledger) (keys : Keys) (accept : Value) (blob : Text)
    (current sequence : ℕ)
    → ledger.validated ≡ some current
    → ledger.sequence keys.account ≡ some sequence
    → blob_for wallet ledger keys accept ≡ ok blob
    → IsSigned wallet (draft_for keys.account accept current sequence) keys.secret blob
unfolding blob_for
blob_for-IsSigned wallet ledger keys accept blob current sequence e f h =
    sign_payment-IsSigned wallet (draft_for keys.account accept current sequence) keys.secret blob
      (ground (arith, e, f))

same_text_sound : (t : Text) (v : Value) → same_text (some t) v ≡ true → as_text v ≡ some t
same_text_sound t v h = elim (Option-cases (as_text v)) [
  | inl e ↦ absurd (ground (arith, e))
  | inr (u, e) ↦ e ∙ ap some (sym (text_eq_sound t u (ground (arith, e))))
]

bind_key_own :
    (o : Option Text) (account : Text)
    → (o ≡ none) ⊎ (o ≡ some account)
    → (b : Bool) × (bind_key o (some account) ≡ ok b)
unfolding bind_key
bind_key_own o account (inl e) = (false, rw e refl)
bind_key_own o account (inr e) = (true, rw (e, text_eq_refl account) refl)

module _ (libs : Libs) (merchant path price : Text) (max : ℕ) (blob account public signature : Text)
    (current sequence : ℕ) (payer : Value) where
  abbrev signed_tx : Tx
  signed_tx = tx_of (draft_for payer (offer merchant path price) current sequence) public signature

  -- The checks of verifyExact that need no signature.
  check_fields_own : check_fields 21338 (requirements (offer merchant path price)) signed_tx ≡ ok tt
  unfolding check_fields draft_for requirements offer text_eq
  check_fields_own = rw (text_eq_refl merchant) refl

  check_paid_own :
      parse_strict_drops (str price) ≡ some max
      → check_paid libs (record { scheme = upto; price = native max }) signed_tx.amount
        ≡ ok (drops max)
  unfolding check_paid draft_for offer
  check_paid_own h = let at_most : leb max max ≡ true = ground arith in rw (h, at_most) refl

  check_signature_own :
      (length signature == 0) ≡ false
      → as_text payer ≡ some account
      → verify_tx_signature libs blob ≡ some true
      → (derive_address_from_pub_key libs (some public) ≡ none)
        ⊎ (derive_address_from_pub_key libs (some public) ≡ some account)
      → (b : Bool) × (check_signature libs blob signed_tx ≡ ok b)
  unfolding check_signature draft_for
  check_signature_own hs ha hv hd =
      let (b, own) = bind_key_own _ account hd in (b, ground (arith, hs, ha, hv, own))

  verify_exact_own :
      (length blob == 0) ≡ false
      → is_valid_r_address libs (str merchant) ≡ true
      → parse_strict_drops (str price) ≡ some max
      → libs.decode blob ≡ some signed_tx
      → (b : Bool) → check_signature libs blob signed_tx ≡ ok b
      → (v : Verified) × (verify_exact libs 21338
            (payload_of blob)
            (requirements (offer merchant path price))
          ≡ ok v)
        × (v.amount ≡ decimal max)
        × (v.payer ≡ as_text payer)
  unfolding verify_exact tx_blob amount_text draft_for
  verify_exact_own hb hm hp hd b hs =
      let terms = (read_terms-offer libs merchant path price max hm hp).1 in
      (
        record {
          payer = as_text payer;
          amount = decimal max;
          asset = none;
          scheme = upto;
          signature_verified = b;
          replay_id = replay_key_for signed_tx;
        },
        rw (hb, terms, hd, check_fields_own, check_paid_own hp, hs) refl,
        refl,
        refl,
      )

-- What the agent's packages and those of the facilitator have to do with each other, for a draft and its
-- blob: the codec decodes what it encoded, the signature is there and verifies, and addresses are
-- derived alike.
pub record Agree (wallet : Wallet) (libs : Libs) (d : Draft) (blob : Text) : Type 0 where
  pub filled : (length blob == 0) ≡ false
  pub decodes :
      (public signature : Text)
      → wallet.encode d public signature ≡ some blob
      → libs.decode blob ≡ some (tx_of d public signature)
  pub signs :
      (message private signature : Text)
      → wallet.sign message private ≡ some signature
      → (length signature == 0) ≡ false
  pub verifies : verify_tx_signature libs blob ≡ some true
  pub derives : libs.derive_address ≡ some wallet.derive_address

derived :
    (libs : Libs) (wallet : Wallet) (public account : Text)
    → libs.derive_address ≡ some wallet.derive_address
    → wallet.derive_address public ≡ some account
    → (derive_address_from_pub_key libs (some public) ≡ none)
      ⊎ (derive_address_from_pub_key libs (some public) ≡ some account)
unfolding derive_address_from_pub_key
derived libs wallet public account h a = elim (Bool-cases (length public == 0)) [
  | inl e ↦ inl (ground (arith, e))
  | inr e ↦ inr (ground (arith, e, h, a))
]

-- What the agent signs for an offer of the resource server with a valid merchant and price, verifyExact
-- accepts against the requirements that the resource server sends, where the packages of the two agree:
-- as a payment of exactly the price by the agent's account.
pub blob_for-accepted :
    (libs : Libs) (wallet : Wallet) (ledger : Ledger) (keys : Keys) (merchant path price : Text)
    (max current sequence : ℕ) (blob : Text)
    → is_valid_r_address libs (str merchant) ≡ true
    → parse_strict_drops (str price) ≡ some max
    → ledger.validated ≡ some current
    → ledger.sequence keys.account ≡ some sequence
    → blob_for wallet ledger keys (offer merchant path price) ≡ ok blob
    → Agree wallet libs (draft_for keys.account (offer merchant path price) current sequence) blob
    → (v : Verified) × (verify_exact libs 21338
          (payload_of blob)
          (requirements (offer merchant path price))
        ≡ ok v)
      × (v.amount ≡ decimal max)
      × (v.payer ≡ as_text keys.account)
unfolding draft_for
blob_for-accepted libs wallet ledger keys merchant path price max current sequence blob hm hp e f h
      agree =
    let s =
      blob_for-IsSigned wallet ledger keys (offer merchant path price) blob current sequence e f
        h in
    let (b, checked) =
      check_signature_own libs merchant path price max blob s.account s.public s.signature current
        sequence keys.account (agree.signs s.message s.private s.signature s.signed)
        (same_text_sound s.account keys.account s.own) agree.verifies
        (derived libs wallet s.public s.account agree.derives s.address) in
    verify_exact_own libs merchant path price max blob s.account s.public s.signature current
      sequence keys.account agree.filled hm hp (agree.decodes s.public s.signature s.encoded) b
      checked
