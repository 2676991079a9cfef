-- ===== src/Amount/Token/Print.antt =====
-- tokenValueToString of x402-xahau/server.mjs.
use xahc.Prelude.{◌-◌, suc, ◌∷◌, ◌++◌, ltb, if◌then◌else◌, length, take, drop, replicate}
use xahc.Prelude.Int.{ℤ, pos, negsuc}
use xahc.Prelude.Text.{Text}
use xahc.Digits.{decimal}
use xahc.Amount.Token.{TokenValue}

-- The digits with the decimal point set by the exponent.
unfoldable pub print_digits : Text → ℤ → Text
print_digits digits (pos n) = digits ++ replicate n b'0'
print_digits digits (negsuc n) =
    if ltb (suc n) (length digits)
    then (let i = length digits - suc n in take i digits ++ (b'.' ∷ drop i digits))
    else b'0' ∷ b'.' ∷ (replicate (suc n - length digits) b'0' ++ digits)

unfoldable pub token_value_to_string : TokenValue → Text
unfolding print_digits
token_value_to_string v = print_digits (decimal v.mant) v.exp
