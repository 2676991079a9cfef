-- ===== src/Amount/Issued/Accepts.antt =====
-- What checkIssuedAmount accepts.
use Prim.Native.Nat.{Ordering}
use xahc.Prelude.{true, some, none, ◌≡◌, ◌≢◌, arith, Option, Option-cases, inl, inr}
use xahc.Prelude.Text.{Text, text_eq_iff}
use xahc.Message.{ok}
use xahc.Js.{Value, str, is_plain_object}
use xahc.Libs.{Libs, valid_address_text}
use xahc.Amount.Token.{TokenValue, parse_token_value, cmp_token_value}
use xahc.Amount.Currency.{canonicalize_currency}
use xahc.Amount.Issued.{Asset, IssuedTexts, issued_texts, same_currency, check_issued_amount}

-- The amount is an object of three texts in the required currency and of the required issuer, whose
-- value is `v` and at most the maximum.
pub record IsIssued (libs : Libs) (amount : Value) (asset : Asset) (max v : TokenValue)
    : Type 0 where
  pub texts : IssuedTexts
  pub currency : Text
  pub shape : is_plain_object amount ≡ true
  pub read : issued_texts amount ≡ some texts
  pub wanted : canonicalize_currency (str asset.currency) ≡ some currency
  pub given : canonicalize_currency (str texts.currency) ≡ some currency
  pub issuer : texts.issuer ≡ asset.issuer
  pub valid : valid_address_text libs texts.issuer ≡ true
  pub value : parse_token_value (str texts.value) ≡ some v
  pub ceiling : cmp_token_value v max ≢ Ordering.gt

same_currency-eq :
    (got : Option Text) (want : Text) → same_currency got want ≡ true → got ≡ some want
same_currency-eq none want h = cc
same_currency-eq (some got) want h = cc ((text_eq_iff got want).0 h)

-- An accepted amount is an object of three texts, of the required currency and issuer, whose value is
-- the result and does not exceed the maximum.
pub check_issued_amount_sound :
    (libs : Libs) (amount : Value) (asset : Asset) (max v : TokenValue)
    → check_issued_amount libs amount asset max ≡ ok v
    → IsIssued libs amount asset max v
unfolding check_issued_amount
check_issued_amount_sound libs amount asset max v h = elim (Option-cases (issued_texts amount)) [
  | inl e ↦ absurd (ground (arith, e))
  | inr (a, ea) ↦ elim (Option-cases (canonicalize_currency (str asset.currency))) [
    | inl e ↦ absurd (ground (arith, ea, e))
    | inr (want, ew) ↦ elim (Option-cases (parse_token_value (str a.value))) [
      | inl e ↦ absurd (ground (arith, ea, ew, e))
      | inr (x, ex) ↦ record {
        texts = a;
        currency = want;
        shape = ground (arith, ea, ew, ex);
        read = ea;
        wanted = ew;
        given = same_currency-eq _ want (ground (arith, ea, ew, ex));
        issuer = (text_eq_iff _ _).0 (ground (arith, ea, ew, ex));
        valid = ground (arith, ea, ew, ex);
        value = ground (arith, ea, ew, ex);
        ceiling = ground (arith, ea, ew, ex);
      }
    ]
  ]
]
