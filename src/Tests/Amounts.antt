-- ===== src/Tests/Amounts.antt =====
-- Amounts in concrete texts.
use Prim.Native.Nat.{Ordering, compare}
use xahc.Prelude.{◌≡◌, ◌↔◌, refl, some, arith}
use xahc.Prelude.Int.{pos, negsuc, ◌+ℤ◌, ◌-ℤ◌}
use xahc.Prelude.Text.{Text, codes, text_eq}
use xahc.Digits.{value_of, decimal}
use xahc.Message.{ok}
use xahc.Js.{str, Value, obj, field, end}
use xahc.Libs.{valid_address_text}
use xahc.Amount.Drops.{
  IsDrops, parse_strict_drops, parse_strict_drops_iff, parse_strict_drops-decimal,
}
use xahc.Amount.Token.{
  TokenValue, span_digits, strip_leading, strip_trailing, parse_token_value, cmp_token_value,
}
use xahc.Amount.Token.Print.{token_value_to_string}
use xahc.Amount.Token.Canonical.{IsCanonical, parse_token_value-IsCanonical}
use xahc.Amount.Token.RoundTrip.{parse_token_value-to_string}
use xahc.Amount.Token.Order.{in_units, cmp_token_value-in_units}
use xahc.Amount.Currency.{canonicalize_currency}
use xahc.Amount.Issued.{Asset, issued_texts, check_issued_amount}
use xahc.Amount.Issued.Accepts.{IsIssued, check_issued_amount_sound}
use xahc.Tests.Samples.{libs}

thousand : parse_strict_drops (str (codes "1000")) ≡ some 1000
unfolding parse_strict_drops value_of
thousand = refl

parse_strict_drops_iff_example :
    (parse_strict_drops (str (codes "1000")) ≡ some 1000) ↔ IsDrops (str (codes "1000")) 1000
parse_strict_drops_iff_example = parse_strict_drops_iff (str (codes "1000")) 1000

printed : parse_strict_drops (str (decimal 42)) ≡ some 42
printed = parse_strict_drops-decimal 42 (omega arith) (omega arith)

abbrev half : TokenValue
half = record { mant = 15; exp = negsuc 0 }

half_parsed : parse_token_value (str (codes "1.50")) ≡ some half
unfolding parse_token_value span_digits strip_leading strip_trailing value_of ◌+ℤ◌ ◌-ℤ◌
half_parsed = refl

parse_token_value-IsCanonical_example : IsCanonical half
parse_token_value-IsCanonical_example =
    parse_token_value-IsCanonical (str (codes "1.50")) half half_parsed

parse_token_value-to_string_example :
    parse_token_value (str (token_value_to_string half)) ≡ some half
parse_token_value-to_string_example =
    parse_token_value-to_string (str (codes "1.50")) half half_parsed

cmp_token_value-in_units_example :
    cmp_token_value half (record { mant = 2; exp = pos 0 })
    ≡ compare (in_units (negsuc 0) half) (in_units (negsuc 0) (record { mant = 2; exp = pos 0 }))
cmp_token_value-in_units_example =
    cmp_token_value-in_units half (record { mant = 2; exp = pos 0 }) (negsuc 0) (omega arith)
      (omega arith)

equal : cmp_token_value half half ≡ Ordering.eq
unfolding cmp_token_value
equal = refl

abbrev dollar : Text
dollar = codes "0000000000000000000000005553440000000000"

usd : canonicalize_currency (str (codes "USD")) ≡ some dollar
unfolding canonicalize_currency
usd = refl

abbrev asset : Asset
asset = record { currency = codes "USD"; issuer = codes "rI" }

abbrev amount : Value
amount = obj (
    field "currency" (str (codes "USD"))
      (field "issuer" (str (codes "rI")) (field "value" (str (codes "1.50")) end)))

pays : check_issued_amount libs amount asset half ≡ ok half
unfolding check_issued_amount canonicalize_currency valid_address_text text_eq cmp_token_value
    parse_token_value span_digits strip_leading strip_trailing value_of ◌+ℤ◌ ◌-ℤ◌ issued_texts
pays = refl

check_issued_amount_sound_example : IsIssued libs amount asset half half
check_issued_amount_sound_example = check_issued_amount_sound libs amount asset half half pays
