-- ===== src/Settle/Outcome.antt =====
-- The terminal outcome of a settlement in settle of x402-xahau/server.mjs: what was delivered against
-- what is required.
use Prim.Native.Nat.{Ordering}
use xahc.Prelude.{ℕ, Bool, true, false, not, ◌&&◌, Option, none, some, if◌then◌else◌, ltb}
use xahc.Prelude.Text.{Text, codes, text_eq}
use xahc.Message.{Message, says, code, Check, ok, err, ◌>>=◌, ◌>>◌, require, present}
use xahc.Js.{Value, str, obj, field, end, null, prop, as_text, or_else, is_plain_object}
use xahc.Digits.{decimal, value_of}
use xahc.Amount.Drops.{strict_drops}
use xahc.Amount.Token.{TokenValue, parse_token_value, cmp_token_value}
use xahc.Amount.Token.Print.{token_value_to_string}
use xahc.Amount.Currency.{canonicalize_currency}
use xahc.Amount.Issued.{Asset, IssuedTexts, issued_texts, same_currency}
use xahc.Settle.Submit.{Response}

-- What a settlement must deliver: drops, or units of an asset. The last is null where the amount of
-- the report cannot be parsed again.
pub data Required : Type 0 where
  drops : ℕ → Required
  units : Asset → Option TokenValue → Required

pub data Delivered : Type 0 where
  drops_text : Text → Delivered
  issued_text : IssuedTexts → Delivered

delivered_amount : Value → Value
delivered_amount meta = or_else (prop "delivered_amount" meta) (prop "DeliveredAmount" meta)

drops_of : Option Text → Option ℕ
drops_of none = none
drops_of (some t) = if strict_drops t then some (value_of t) else none

unfoldable pub delivered_drops : Value → Option ℕ
unfolding delivered_amount drops_of
delivered_drops meta = drops_of (as_text (delivered_amount meta))

unfoldable pub delivered_issued : Value → Option IssuedTexts
unfolding delivered_amount
delivered_issued meta =
    let d = delivered_amount meta in if is_plain_object d then issued_texts d else none

unreadable : Message
unreadable = says "could not read delivered_amount"

short : Message
short = says "delivered_amount < required"

-- The code that was delivered is there and is the one that is required.
abbrev pub same_code : Option Text → Option Text → Bool
same_code got none = false
same_code got (some want) = same_currency got want

-- cmpTokenValue(a, b) < 0
abbrev pub below : TokenValue → TokenValue → Bool
below a b = elim (cmp_token_value a b) [ Ordering.lt ↦ true | _ ↦ false ]

abbrev pub covers : Option TokenValue → TokenValue → Bool
covers none delivered = false
covers (some required) delivered = not (below delivered required)

unfoldable pub check_units : Asset → Option TokenValue → Value → Check Delivered
unfolding unreadable short
check_units asset required meta = do
  d ← present (delivered_issued meta) unreadable
  require
      (same_code (canonicalize_currency (str d.currency))
          (canonicalize_currency (str asset.currency))
        && text_eq d.issuer asset.issuer)
      (says "delivered_amount asset mismatch")
  v ← present (parse_token_value (str d.value)) unreadable
  require (covers required v) short
  ok (
      issued_text
        (record { currency = d.currency; issuer = d.issuer; value = token_value_to_string v }))

unfoldable pub check_drops : ℕ → Value → Check Delivered
unfolding unreadable short
check_drops required meta = do
  n ← present (delivered_drops meta) unreadable
  require (not (ltb n required)) short
  ok (drops_text (decimal n))

-- The outcome of a transaction that is on the ledger: what it delivered, or why it failed.
unfoldable pub outcome : Required → Response → Check Delivered
unfolding check_units check_drops
outcome required r =
    if not (text_eq r.code (codes "tesSUCCESS")) then err (code r.code) else elim required [
      | drops n ↦ check_drops n r.meta
      | units asset v ↦ check_units asset v r.meta
    ]

-- { currency, issuer, value }
abbrev pub issued_value : IssuedTexts → Value
issued_value a = obj (
    field "currency" (str a.currency)
      (field "issuer" (str a.issuer) (field "value" (str a.value) end)))

-- receipt.delivered ?? null
unfoldable pub delivered_value : Option Delivered → Value
delivered_value none = null
delivered_value (some (drops_text t)) = str t
delivered_value (some (issued_text a)) = issued_value a

-- receipt.required
unfoldable pub required_value : Required → Value
required_value (drops n) = str (decimal n)
required_value (units asset none) = null
required_value (units asset (some v)) =
    issued_value
      (record { currency = asset.currency; issuer = asset.issuer; value = token_value_to_string v })

-- receipt.asset
unfoldable pub asset_value : Option Asset → Value
asset_value none = null
asset_value (some a) = obj (field "currency" (str a.currency) (field "issuer" (str a.issuer) end))
