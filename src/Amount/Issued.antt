-- ===== src/Amount/Issued.antt =====
-- Issued amounts: checkIssuedAmount of x402-xahau/server.mjs.
pub mod Accepts
use Prim.Native.Nat.{Ordering}
use xahc.Prelude.{Bool, true, false, not, ◌&&◌, Option, none, some, ◌≡◌, arith}
use xahc.Prelude.Text.{Text, text_eq}
use xahc.Message.{Check, ok, err, says, ◌>>=◌, ◌>>◌, require, present}
use xahc.Js.{Value, str, prop, as_text, is_plain_object}
use xahc.Libs.{Libs, valid_address_text}
use xahc.Amount.Token.{TokenValue, parse_token_value, cmp_token_value}
use xahc.Amount.Currency.{canonicalize_currency}

-- The required asset, once its shape is checked.
pub record Asset : Type 0 where
  pub currency : Text
  pub issuer : Text

-- An issued amount { currency, issuer, value } whose three fields are texts.
pub record IssuedTexts : Type 0 where
  pub currency : Text
  pub issuer : Text
  pub value : Text

unfoldable pub issued_texts : Value → Option IssuedTexts
issued_texts v = elim (as_text (prop "currency" v)) [
  | none ↦ none
  | some c ↦ elim (as_text (prop "issuer" v)) [
    | none ↦ none
    | some i ↦ elim (as_text (prop "value" v)) [
      | none ↦ none
      | some x ↦ some (record { currency = c; issuer = i; value = x })
    ]
  ]
]

-- The two canonical codes are there and equal.
abbrev pub same_currency : Option Text → Text → Bool
same_currency none want = false
same_currency (some got) want = text_eq got want

abbrev pub exceeds : TokenValue → TokenValue → Bool
exceeds v max = elim (cmp_token_value v max) [ Ordering.gt ↦ true | _ ↦ false ]

unfoldable pub check_issued_amount : Libs → Value → Asset → TokenValue → Check TokenValue
check_issued_amount libs amount asset max = do
  require (is_plain_object amount) (says "Amount must be an issued-amount object for this asset")
  a ←
      present (issued_texts amount)
        (says "Amount issued-amount object malformed (currency/issuer/value)")
  want ← present (canonicalize_currency (str asset.currency)) (says "asset.currency malformed")
  require (same_currency (canonicalize_currency (str a.currency)) want)
      (says "Amount.currency != asset.currency")
  require (valid_address_text libs a.issuer) (says "Amount.issuer malformed")
  require (text_eq a.issuer asset.issuer) (says "Amount.issuer != asset.issuer")
  v ←
      present (parse_token_value (str a.value))
        (says "Amount.value malformed or out of token range")
  require (not (exceeds v max)) (says "Amount.value > maxAmountRequired")
  ok v
