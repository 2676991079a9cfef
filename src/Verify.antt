-- ===== src/Verify.antt =====
-- verifyExact of x402-xahau/server.mjs: the offline checks of a signed payment against the payment
-- requirements. Each stage is a function that fails with the reason of the source.
pub mod Accepts
pub mod Sound
use Prim.Native.Nat.{Ordering}
use xahc.Prelude.{
  ℕ, ◌/◌, ◌%◌, String, Bool, true, false, not, ◌&&◌, ◌||◌, Option, none, some, List, [], ◌∷◌, ◌++◌,
  ltb, leb, ◌==◌, if◌then◌else◌, length,
}
use xahc.Prelude.Text.{Text, codes, text_eq}
use xahc.Message.{Check, ok, err, Message, says, said, ◌>>=◌, ◌>>◌, require, present}
use xahc.Js.{Value, str, prop, as_text, is_object, is_plain_object, is_nullish}
use xahc.Libs.{
  Libs, Tx, is_valid_r_address, valid_address_text, verify_tx_signature,
  derive_address_from_pub_key,
}
use xahc.Digits.{decimal}
use xahc.Amount.Drops.{parse_strict_drops}
use xahc.Amount.Token.{TokenValue, parse_token_value, cmp_token_value}
use xahc.Amount.Token.Print.{token_value_to_string}
use xahc.Amount.Currency.{canonicalize_currency}
use xahc.Amount.Issued.{Asset, check_issued_amount}

pub data Scheme : Type 0 where
  exact upto : Scheme

-- maxAmountRequired, in drops or in units of the asset.
pub data Price : Type 0 where
  native : ℕ → Price
  issued : Asset → TokenValue → Price

-- The amount that the payment commits to.
pub data Paid : Type 0 where
  drops : ℕ → Paid
  token : TokenValue → Paid

pub record Terms : Type 0 where
  pub scheme : Scheme
  pub price : Price

-- The result { isValid: true, ... }.
pub record Verified : Type 0 where
  pub payer : Option Text
  pub amount : Text
  pub asset : Option Asset
  pub scheme : Scheme
  pub signature_verified : Bool
  pub replay_id : Text

-- payload.txBlob, if it is a text that is not empty.
unfoldable pub tx_blob : Value → Check Text
tx_blob payload = do
  blob ← present (as_text (prop "txBlob" payload)) (says "missing txBlob")
  require (not (length blob == 0)) (says "missing txBlob")
  ok blob

abbrev unknown_scheme : Message
unknown_scheme = says "incomplete payment requirements (unknown scheme; expected 'exact' or 'upto')"

scheme_of_text : Option Text → Check Scheme
scheme_of_text none = err unknown_scheme
scheme_of_text (some t) =
    if text_eq t (codes "exact")
    then ok exact
    else if text_eq t (codes "upto")
    then ok upto
    else err unknown_scheme

unfoldable pub read_scheme : Value → Check Scheme
unfolding scheme_of_text
read_scheme v = if is_nullish v then ok upto else scheme_of_text (as_text v)

texts_of_asset : Option Text → Option Text → Option Asset
texts_of_asset none i = none
texts_of_asset (some c) none = none
texts_of_asset (some c) (some i) = some (record { currency = c; issuer = i })

-- An object, not an array, with texts for currency and issuer.
unfoldable pub asset_texts : Value → Option Asset
unfolding texts_of_asset
asset_texts a =
    if is_plain_object a
    then texts_of_asset (as_text (prop "currency" a)) (as_text (prop "issuer" a))
    else none

native_price : Value → Check Price
native_price req = do
  max ←
      present (parse_strict_drops (prop "maxAmountRequired" req))
        (says "incomplete payment requirements (maxAmountRequired missing/invalid)")
  ok (native max)

issued_price : Libs → Value → Check Price
issued_price libs req = do
  asset ←
      present (asset_texts (prop "asset" req))
        (says "incomplete payment requirements (asset malformed)")
  canonical ←
      present (canonicalize_currency (str asset.currency))
        (says "incomplete payment requirements (asset.currency invalid)")
  require (valid_address_text libs asset.issuer)
      (says "incomplete payment requirements (asset.issuer invalid)")
  max ←
      present (parse_token_value (prop "maxAmountRequired" req))
        (says "incomplete payment requirements (maxAmountRequired missing/invalid token value)")
  ok (issued asset max)

unfoldable pub read_price : Libs → Value → Check Price
unfolding native_price issued_price
read_price libs req =
    if is_nullish (prop "asset" req) then native_price req else issued_price libs req

-- (1) The requirements are complete before any field is trusted.
unfoldable pub read_terms : Libs → Value → Check Terms
read_terms libs req = do
  require (is_object req) (says "incomplete payment requirements")
  require (is_valid_r_address libs (prop "payTo" req))
      (says "incomplete payment requirements (payTo missing/invalid)")
  scheme ← read_scheme (prop "scheme" req)
  price ← read_price libs req
  ok (record { scheme = scheme; price = price })

abbrev pub is_text_of : Option Text → Text → Bool
is_text_of none t = false
is_text_of (some s) t = text_eq s t

-- s === v, for a text or undefined s and a text v.
abbrev pub same_text : Option Text → Value → Bool
same_text s v = elim (as_text v) [ none ↦ false | some t ↦ is_text_of s t ]

abbrev pub is_number : Option ℕ → ℕ → Bool
is_number none n = false
is_number (some m) n = m == n

-- Number(tx.Flags || 0) & tfPartialPayment, the bit of weight 2 ^ 17.
abbrev pub partial_payment : Option ℕ → Bool
partial_payment none = false
partial_payment (some flags) = flags / 0x00020000 % 2 == 1

abbrev pub is_present {ℓ} : {A : Type ℓ} → Option A → Bool
is_present none = false
is_present (some a) = true

abbrev pub is_upto : Scheme → Bool
is_upto exact = false
is_upto upto = true

-- (5) The fixed fields of the transaction.
unfoldable pub check_fields : ℕ → Value → Tx → Check (Unit {0})
check_fields network req tx = do
  require (is_text_of tx.transaction_type (codes "Payment")) (says "not a Payment")
  require (is_number tx.network_id network) (said "NetworkID != " network "")
  require (same_text tx.destination (prop "payTo" req)) (says "Destination != payTo")
  require (not (partial_payment tx.flags)) (says "tfPartialPayment not allowed")

abbrev not_exact : Message
not_exact = says "Amount != maxAmountRequired (scheme: exact)"

check_native : Scheme → ℕ → Value → Check Paid
check_native scheme max amount = do
  require (is_present (as_text amount))
      (says "asset mismatch: native XAH required but Amount is an issued amount")
  paid ←
      present (parse_strict_drops amount) (says "Amount malformed (must be positive drops string)")
  require (leb paid max) (says "Amount > maxAmountRequired")
  require (is_upto scheme || paid == max) not_exact
  ok (drops paid)

abbrev pub same_value : TokenValue → TokenValue → Bool
same_value a b = elim (cmp_token_value a b) [ Ordering.eq ↦ true | _ ↦ false ]

check_issued : Libs → Scheme → Asset → TokenValue → Value → Check Paid
check_issued libs scheme asset max amount = do
  require (not (is_present (as_text amount)))
      (says "asset mismatch: issued amount required but Amount is native XAH")
  paid ← check_issued_amount libs amount asset max
  require (is_upto scheme || same_value paid max) not_exact
  ok (token paid)

-- The two shapes of Amount, by the required asset.
unfoldable pub check_paid : Libs → Terms → Value → Check Paid
unfolding check_native check_issued
check_paid libs terms amount = elim terms.price [
  | native max ↦ check_native terms.scheme max amount
  | issued asset max ↦ check_issued libs terms.scheme asset max amount
]

-- Array.isArray(tx.Signers) && tx.Signers.length > 0
abbrev pub is_multisig : Tx → Bool
is_multisig tx = elim tx.signers [ [] ↦ false | s ∷ rest ↦ true ]

abbrev pub has_text : Option Text → Bool
has_text none = false
has_text (some t) = not (length t == 0)

-- (2b) The key of a signature that verified belongs to Account, or cannot be derived.
unfoldable pub bind_key : Option Text → Option Text → Check Bool
bind_key none account = ok false
bind_key (some derived) account =
    if is_text_of account derived then ok true else err (says "signature does not match Account")

single_signature : Libs → Text → Tx → Check Bool
unfolding bind_key
single_signature libs blob tx = elim (verify_tx_signature libs blob) [
  | none ↦ ok false
  | some false ↦ err (says "invalid signature")
  | some true ↦ bind_key (derive_address_from_pub_key libs tx.signing_pub_key) tx.account
]

-- (2) Whether the signature is bound to the payer offline; a multisig is left to the ledger.
unfoldable pub check_signature : Libs → Text → Tx → Check Bool
unfolding single_signature
check_signature libs blob tx = do
  require (has_text tx.txn_signature || is_multisig tx) (says "unsigned (no TxnSignature/Signers)")
  if is_multisig tx then ok false else single_signature libs blob tx

-- `${text}`, where an absent field reads undefined.
abbrev pub show_text : Option Text → Text
show_text none = codes "undefined"
show_text (some t) = t

abbrev pub show_number : Option ℕ → Text
show_number none = codes "undefined"
show_number (some n) = decimal n

-- InvoiceID if there is one, else Account and Sequence.
unfoldable pub replay_key_for : Tx → Text
replay_key_for tx =
    if has_text tx.invoice_id
    then codes "inv:" ++ show_text tx.invoice_id
    else codes "acct:" ++ (show_text tx.account ++ (codes ":" ++ show_number tx.sequence))

abbrev pub asset_of : Price → Option Asset
asset_of (native max) = none
asset_of (issued asset max) = some asset

unfoldable pub amount_text : Paid → Text
amount_text (drops n) = decimal n
amount_text (token v) = token_value_to_string v

unfoldable pub verify_exact : Libs → ℕ → Value → Value → Check Verified
verify_exact libs network payload req = do
  blob ← tx_blob payload
  terms ← read_terms libs req
  tx ← present (libs.decode blob) (says "undecodable txBlob")
  check_fields network req tx
  paid ← check_paid libs terms tx.amount
  require (is_present tx.last_ledger_sequence)
      (says "missing LastLedgerSequence (no expiry window)")
  bound ← check_signature libs blob tx
  ok (record {
    payer = tx.account;
    amount = amount_text paid;
    asset = asset_of terms.price;
    scheme = terms.scheme;
    signature_verified = bound;
    replay_id = replay_key_for tx;
  })
