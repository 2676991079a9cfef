-- ===== src/Verify/Accepts.antt =====
-- What verifyExact accepts: its stages against a description of an acceptable payment.
use xahc.Prelude.{
  ℕ, ◌≤◌, ◌≡◌, refl, ap, ◌∙◌, true, false, Option, none, some, inl, inr, Option-cases, arith,
  ==_iff,
}
use xahc.Prelude.Text.{Text, codes, text_eq_iff}
use xahc.Message.{ok, Check-cases}
use xahc.Js.{Value, str, prop, is_nullish}
use xahc.Libs.{Libs, Tx, valid_address_text, verify_tx_signature, derive_address_from_pub_key}
use xahc.Amount.Drops.{parse_strict_drops}
use xahc.Amount.Token.{TokenValue, parse_token_value}
use xahc.Amount.Token.Order.{cmp_token_value-eq}
use xahc.Amount.Currency.{canonicalize_currency}
use xahc.Amount.Issued.{Asset, check_issued_amount}
use xahc.Amount.Issued.Accepts.{IsIssued, check_issued_amount_sound}
use xahc.Verify.{
  Scheme, exact, Price, native, issued, Paid, drops, token, asset_texts, read_price, is_text_of,
  same_text, is_number, is_present, is_multisig, partial_payment, check_fields, check_native,
  check_issued, check_paid, check_signature,
}

-- The price that the requirements state.
pub data IsPrice (libs : Libs) (req : Value) : Price → Type 0 where
  in_drops :
      {max : ℕ}
      → is_nullish (prop "asset" req) ≡ true
      → parse_strict_drops (prop "maxAmountRequired" req) ≡ some max
      → IsPrice libs req (native max)
  in_token :
      {asset : Asset} {max : TokenValue}
      → asset_texts (prop "asset" req) ≡ some asset
      → is_present (canonicalize_currency (str asset.currency)) ≡ true
      → valid_address_text libs asset.issuer ≡ true
      → parse_token_value (prop "maxAmountRequired" req) ≡ some max
      → IsPrice libs req (issued asset max)

pub read_price_sound :
    (libs : Libs) (req : Value) (p : Price) → read_price libs req ≡ ok p → IsPrice libs req p
unfolding read_price
read_price_sound libs req (native max) h = in_drops (ground arith) (ground arith)
read_price_sound libs req (issued asset max) h =
    in_token (ground arith) (ground arith) (ground arith) (ground arith)

-- The amount that a price allows: at most the maximum, and under `exact` the maximum itself.
pub data Pays (libs : Libs) (scheme : Scheme) (amount : Value) : Price → Paid → Type 0 where
  in_drops :
      {max n : ℕ}
      → parse_strict_drops amount ≡ some n
      → n ≤ max
      → (scheme ≡ exact → n ≡ max)
      → Pays libs scheme amount (native max) (drops n)
  in_token :
      {asset : Asset} {max v : TokenValue}
      → IsIssued libs amount asset max v
      → (scheme ≡ exact → v ≡ max)
      → Pays libs scheme amount (issued asset max) (token v)

check_native_sound :
    (libs : Libs) (scheme : Scheme) (max : ℕ) (amount : Value) (paid : Paid)
    → check_native scheme max amount ≡ ok paid
    → Pays libs scheme amount (native max) paid
unfolding check_native
check_native_sound libs scheme max amount (drops n) h =
    in_drops (ground arith) (ground arith) (λ e. ground arith)
check_native_sound libs scheme max amount (token v) h = absurd (ground arith)

check_issued_sound :
    (libs : Libs) (scheme : Scheme) (asset : Asset) (max : TokenValue) (amount limit : Value)
    (paid : Paid)
    → parse_token_value limit ≡ some max
    → check_issued libs scheme asset max amount ≡ ok paid
    → Pays libs scheme amount (issued asset max) paid
unfolding check_issued
check_issued_sound libs scheme asset max amount limit (drops n) l h =
    elim (Check-cases (check_issued_amount libs amount asset max)) [
      | inl (e, r) ↦ absurd (ground (arith, r))
      | inr (v, r) ↦ absurd (ground (arith, r))
    ]
check_issued_sound libs scheme asset max amount limit (token v) l h =
    elim (Check-cases (check_issued_amount libs amount asset max)) [
      | inl (e, r) ↦ absurd (ground (arith, r))
      | inr (x, r) ↦
          let same : x ≡ v = ground (arith, r) in
          let accepted : check_issued_amount libs amount asset max ≡ ok v = r ∙ ap ok same in
          let k = check_issued_amount_sound libs amount asset max v accepted in
          in_token k (λ e.
            cmp_token_value-eq (str k.texts.value) limit v max k.value l (ground (arith, r, e)))
    ]

pub check_paid_sound :
    (libs : Libs) (req : Value) (scheme : Scheme) (price : Price) (amount : Value) (paid : Paid)
    → IsPrice libs req price
    → check_paid libs (record { scheme = scheme; price = price }) amount ≡ ok paid
    → Pays libs scheme amount price paid
unfolding check_paid
check_paid_sound libs req scheme (native max) amount paid p h =
    check_native_sound libs scheme max amount paid h
check_paid_sound libs req scheme (issued asset max) amount paid (in_token s c v l) h =
    check_issued_sound libs scheme asset max amount (prop "maxAmountRequired" req) paid l h

-- The fixed fields of an accepted transaction.
pub record IsPaymentTo (network : ℕ) (req : Value) (tx : Tx) : Type 0 where
  pub pay_to : Text
  pub wanted : prop "payTo" req ≡ str pay_to
  pub payment : tx.transaction_type ≡ some (codes "Payment")
  pub network_id : tx.network_id ≡ some network
  pub destination : tx.destination ≡ some pay_to
  pub whole : partial_payment tx.flags ≡ false

is_text_of_sound : (s : Option Text) (t : Text) → is_text_of s t ≡ true → s ≡ some t
is_text_of_sound none t h = cc
is_text_of_sound (some s) t h = cc ((text_eq_iff s t).0 h)

is_number_sound : (s : Option ℕ) (n : ℕ) → is_number s n ≡ true → s ≡ some n
is_number_sound none n h = cc
is_number_sound (some m) n h = cc ((==_iff m n).0 h)

same_text_sound :
    (s : Option Text) (v : Value) → same_text s v ≡ true → (t : Text) × (v ≡ str t) × (s ≡ some t)
same_text_sound s (str t) h = (t, refl, is_text_of_sound s t h)
same_text_sound s _ h = absurd (cc)

pub check_fields_sound :
    (network : ℕ) (req : Value) (tx : Tx)
    → check_fields network req tx ≡ ok tt
    → IsPaymentTo network req tx
unfolding check_fields
check_fields_sound network req tx h =
    let found = same_text_sound tx.destination (prop "payTo" req) (ground arith) in
    record {
      pay_to = found.0;
      wanted = found.1;
      payment = is_text_of_sound _ _ (ground arith);
      network_id = is_number_sound _ _ (ground arith);
      destination = found.2;
      whole = ground arith;
    }

-- A signature that is reported as verified is a single one, verifies by its key, and the key is that
-- of the account.
pub record IsBound (libs : Libs) (blob : Text) (tx : Tx) : Type 0 where
  pub owner : Text
  pub single : is_multisig tx ≡ false
  pub verified : verify_tx_signature libs blob ≡ some true
  pub derived : derive_address_from_pub_key libs tx.signing_pub_key ≡ some owner
  pub account : tx.account ≡ some owner

pub check_signature-IsBound :
    (libs : Libs) (blob : Text) (tx : Tx)
    → check_signature libs blob tx ≡ ok true
    → IsBound libs blob tx
unfolding check_signature
check_signature-IsBound libs blob tx h =
    elim (Option-cases (derive_address_from_pub_key libs tx.signing_pub_key)) [
      | inl e ↦ absurd (ground (arith, e))
      | inr (owner, e) ↦ record {
        owner = owner;
        single = ground (arith, e);
        verified = ground (arith, e);
        derived = e;
        account = is_text_of_sound _ _ (ground (arith, e));
      }
    ]
