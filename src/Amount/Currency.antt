-- ===== src/Amount/Currency.antt =====
-- Currency codes: canonicalizeCurrency of x402-xahau/server.mjs.
pub mod Canonical
use xahc.Prelude.{
  ℕ, ◌+◌, ◌-◌, ◌/◌, ◌%◌, Bool, true, false, not, ◌&&◌, ◌||◌, Option, none, some, [], ◌∷◌, ◌++◌, ltb,
  leb, ◌==◌, if◌then◌else◌, all, length, map, replicate,
}
use xahc.Prelude.Text.{Text, codes, text_eq}
use xahc.Js.{Value, as_text}

-- [0-9a-fA-F]
abbrev pub is_hex : ℕ → Bool
is_hex c = leb 48 c && leb c 57 || (leb 97 c && leb c 102 || leb 65 c && leb c 70)

-- toUpperCase, on hexadecimal digits.
abbrev pub upper_hex : ℕ → ℕ
upper_hex c = if leb 97 c && leb c 102 then c - 32 else c

-- [\x20-\x7E]
abbrev pub is_printable : ℕ → Bool
is_printable c = leb 32 c && leb c 126

-- A digit of Buffer.toString("hex").toUpperCase().
abbrev pub hex_digit : ℕ → ℕ
hex_digit n = if ltb n 10 then 48 + n else 55 + n

unfoldable pub hex_bytes : Text → Text
hex_bytes [] = []
hex_bytes (b ∷ t) = hex_digit (b / 16) ∷ hex_digit (b % 16) ∷ hex_bytes t

-- The 20 bytes of a standard code: the three characters at offset 12.
unfoldable pub standard_bytes : Text → Text
standard_bytes cur = replicate 12 0 ++ (cur ++ replicate 5 0)

currency_of_text : Text → Option Text
unfolding hex_bytes standard_bytes text_eq
currency_of_text cur =
    if length cur == 40 && all is_hex cur
    then (let hex = map upper_hex cur in if all (λ c. c == 48) hex then none else some hex)
    else if length cur == 3 && all is_printable cur
    then (if text_eq cur (codes "XRP") then none else some (hex_bytes (standard_bytes cur)))
    else none

unfoldable pub canonicalize_currency : Value → Option Text
unfolding currency_of_text
canonicalize_currency v = elim (as_text v) [ none ↦ none | some t ↦ currency_of_text t ]
