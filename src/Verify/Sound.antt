-- ===== src/Verify/Sound.antt =====
-- verifyExact accepts only payments that meet the requirements.
use xahc.Prelude.{ℕ, ◌≡◌, ap, sym, subst, ◌∙◌, true, Bool, some, inl, inr, Option-cases, arith}
use xahc.Prelude.Text.{Text}
use xahc.Message.{ok, Check-cases}
use xahc.Js.{Value, prop, as_text}
use xahc.Libs.{Libs, Tx, is_valid_r_address}
use xahc.Verify.{
  Scheme, Price, Paid, Terms, Verified, tx_blob, read_scheme, read_price, read_terms, is_present,
  check_fields, check_paid, check_signature, replay_key_for, amount_text, asset_of, verify_exact,
}
use xahc.Verify.Accepts.{
  IsPrice, Pays, IsPaymentTo, IsBound, read_price_sound, check_paid_sound, check_fields_sound,
  check_signature-IsBound,
}

-- A payment that meets the requirements, and the report about it.
pub record IsAccepted (libs : Libs) (network : ℕ) (payload req : Value) (r : Verified)
    : Type 0 where
  pub blob : Text
  pub tx : Tx
  pub price : Price
  pub paid : Paid
  pub blob_given : as_text (prop "txBlob" payload) ≡ some blob
  pub decoded : libs.decode blob ≡ some tx
  pub address : is_valid_r_address libs (prop "payTo" req) ≡ true
  pub scheme : read_scheme (prop "scheme" req) ≡ ok r.scheme
  pub priced : IsPrice libs req price
  pub fields : IsPaymentTo network req tx
  pub pays : Pays libs r.scheme tx.amount price paid
  pub expires : is_present tx.last_ledger_sequence ≡ true
  pub signed : check_signature libs blob tx ≡ ok r.signature_verified
  pub payer : r.payer ≡ tx.account
  pub amount : r.amount ≡ amount_text paid
  pub asset : r.asset ≡ asset_of price
  pub replay_id : r.replay_id ≡ replay_key_for tx

-- The stages of a run that accepts.
pub record Stages (libs : Libs) (network : ℕ) (payload req : Value) (r : Verified) : Type 0 where
  pub blob : Text
  pub scheme : Scheme
  pub price : Price
  pub tx : Tx
  pub paid : Paid
  pub bound : Bool
  pub got_blob : tx_blob payload ≡ ok blob
  pub got_terms : read_terms libs req ≡ ok (record { scheme = scheme; price = price })
  pub got_tx : libs.decode blob ≡ some tx
  pub got_fields : check_fields network req tx ≡ ok tt
  pub got_paid : check_paid libs (record { scheme = scheme; price = price }) tx.amount ≡ ok paid
  pub got_expiry : is_present tx.last_ledger_sequence ≡ true
  pub got_bound : check_signature libs blob tx ≡ ok bound
  pub result : ◌≡◌ {A = Verified} r (record {
    payer = tx.account;
    amount = amount_text paid;
    asset = asset_of price;
    scheme = scheme;
    signature_verified = bound;
    replay_id = replay_key_for tx;
  })

verify_exact-Stages :
    (libs : Libs) (network : ℕ) (payload req : Value) (r : Verified)
    → verify_exact libs network payload req ≡ ok r
    → Stages libs network payload req r
unfolding verify_exact
verify_exact-Stages libs network payload req r h = elim (Check-cases (tx_blob payload)) [
  | inl (e, f) ↦ absurd (ground (arith, f))
  | inr (blob, f1) ↦ elim (Check-cases (read_terms libs req)) [
    | inl (e, f) ↦ absurd (ground (arith, f1, f))
    | inr (terms, f2) ↦ elim (Option-cases (libs.decode blob)) [
      | inl f ↦ absurd (ground (arith, f1, f2, f))
      | inr (tx, f3) ↦ elim (Check-cases (check_paid libs terms tx.amount)) [
        | inl (e, f) ↦ absurd (ground (arith, f1, f2, f3, f))
        | inr (paid, f4) ↦ elim (Check-cases (check_signature libs blob tx)) [
          | inl (e, f) ↦ absurd (ground (arith, f1, f2, f3, f4, f))
          | inr (bound, f5) ↦ record {
            blob = blob;
            scheme = terms.scheme;
            price = terms.price;
            tx = tx;
            paid = paid;
            bound = bound;
            got_blob = f1;
            got_terms = f2;
            got_tx = f3;
            got_fields = ground (arith, f1, f2, f3, f4, f5);
            got_paid = f4;
            got_expiry = ground (arith, f1, f2, f3, f4, f5);
            got_bound = f5;
            result = ground (arith, f1, f2, f3, f4, f5);
          }
        ]
      ]
    ]
  ]
]

tx_blob_sound :
    (payload : Value) (blob : Text)
    → tx_blob payload ≡ ok blob
    → as_text (prop "txBlob" payload) ≡ some blob
unfolding tx_blob
tx_blob_sound payload blob h = elim (Option-cases (as_text (prop "txBlob" payload))) [
  | inl e ↦ absurd (ground (arith, e))
  | inr (t, e) ↦ ground (arith, e)
]

read_terms_sound :
    (libs : Libs) (req : Value) (terms : Terms)
    → read_terms libs req ≡ ok terms
    → (is_valid_r_address libs (prop "payTo" req) ≡ true)
      × (read_scheme (prop "scheme" req) ≡ ok terms.scheme)
      × (read_price libs req ≡ ok terms.price)
unfolding read_terms
read_terms_sound libs req terms h = elim (Check-cases (read_scheme (prop "scheme" req))) [
  | inl (e, f) ↦ absurd (ground (arith, f))
  | inr (s, f1) ↦ elim (Check-cases (read_price libs req)) [
    | inl (e, f) ↦ absurd (ground (arith, f1, f))
    | inr (p, f2) ↦ (ground (arith, f1, f2), ground (arith, f1, f2), ground (arith, f1, f2))
  ]
]

pub verify_exact_sound :
    (libs : Libs) (network : ℕ) (payload req : Value) (r : Verified)
    → verify_exact libs network payload req ≡ ok r
    → IsAccepted libs network payload req r
verify_exact_sound libs network payload req r h =
    let s = verify_exact-Stages libs network payload req r h in
    let terms = read_terms_sound libs req _ s.got_terms in
    let price = read_price_sound libs req s.price terms.2 in
    let scheme : s.scheme ≡ r.scheme = ap (λ x. x.scheme) (sym s.result) in
    record {
      blob = s.blob;
      tx = s.tx;
      price = s.price;
      paid = s.paid;
      blob_given = tx_blob_sound payload s.blob s.got_blob;
      decoded = s.got_tx;
      address = terms.0;
      scheme = terms.1 ∙ ap ok scheme;
      priced = price;
      fields = check_fields_sound network req s.tx s.got_fields;
      pays =
          subst (λ x. Pays libs x s.tx.amount s.price s.paid) scheme
            (check_paid_sound libs req s.scheme s.price s.tx.amount s.paid price s.got_paid);
      expires = s.got_expiry;
      signed = s.got_bound ∙ ap (λ x. ok x.signature_verified) (sym s.result);
      payer = ap (λ x. x.payer) s.result;
      amount = ap (λ x. x.amount) s.result;
      asset = ap (λ x. x.asset) s.result;
      replay_id = ap (λ x. x.replay_id) s.result;
    }

-- A payment that is reported with a verified signature is a single-signature one, its signature
-- verifies, and the signing key is that of the payer.
pub verify_exact-IsBound :
    (libs : Libs) (network : ℕ) (payload req : Value) (r : Verified)
    → verify_exact libs network payload req ≡ ok r
    → r.signature_verified ≡ true
    → (blob : Text) × (tx : Tx) × (as_text (prop "txBlob" payload) ≡ some blob)
      × (libs.decode blob ≡ some tx)
      × IsBound libs blob tx
      × (r.payer ≡ tx.account)
verify_exact-IsBound libs network payload req r h v =
    let k = verify_exact_sound libs network payload req r h in
    (
      k.blob,
      k.tx,
      k.blob_given,
      k.decoded,
      check_signature-IsBound libs k.blob k.tx (k.signed ∙ ap ok v),
      k.payer,
    )
