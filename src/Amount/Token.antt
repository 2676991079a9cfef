-- ===== src/Amount/Token.antt =====
-- Issued amounts: parseTokenValue and cmpTokenValue of x402-xahau/server.mjs.
pub mod Canonical
pub mod Print
pub mod RoundTrip
pub mod Order
use Prim.Native.Nat.{compare, Ordering}
use xahc.Prelude.{
  ℕ, suc, ◌*◌, ◌^◌, Bool, true, false, not, ◌&&◌, ◌||◌, Option, none, some, [], ◌∷◌, ◌++◌, ltb,
  ◌==◌, if◌then◌else◌, all, length,
}
use xahc.Prelude.Int.{ℤ, pos, negsuc, ◌+ℤ◌, ◌-ℤ◌, ltb_ℤ, gap, sub_ℕ}
use xahc.Prelude.Text.{Text}
use xahc.Js.{Value, as_text}
use xahc.Digits.{is_digit, value_of}

-- mant * 10 ^ exp; the sign of a payment value is always 1.
pub record TokenValue : Type 0 where
  pub mant : ℕ
  pub exp : ℤ

abbrev pub token_exp_min : ℤ
token_exp_min = negsuc 95

abbrev pub token_exp_max : ℤ
token_exp_max = pos 80

abbrev pub token_max_mant_digits : ℕ
token_max_mant_digits = 16

-- The longest prefix of digits, and the rest.
unfoldable pub span_digits : Text → Text × Text
span_digits [] = ([], [])
span_digits (c ∷ t) =
    let (digits, rest) = span_digits t in if is_digit c then (c ∷ digits, rest) else ([], c ∷ t)

-- The groups of /^([0-9]+)(?:\.([0-9]+))?(?:[eE]([+-]?[0-9]+))?$/, the third read as a number.
pub record Groups : Type 0 where
  pub int_part : Text
  pub frac_part : Text
  pub exp_part : ℤ

unfoldable pub non_empty : Text → Bool
non_empty [] = false
non_empty (c ∷ t) = true

-- [0-9]+$, as a number. JavaScript rounds a huge one to a double or to Infinity: such an exponent is
-- out of range either way.
exp_digits : Text → Option ℕ
exp_digits t = if non_empty t && all is_digit t then some (value_of t) else none

-- [+-]?[0-9]+$
signed_exp : Text → Option ℤ
signed_exp [] = none
signed_exp (c ∷ t) =
    if c == b'-'
    then elim (exp_digits t) [ none ↦ none | some n ↦ some (sub_ℕ 0 n) ]
    else if c == b'+'
    then elim (exp_digits t) [ none ↦ none | some n ↦ some (pos n) ]
    else elim (exp_digits (c ∷ t)) [ none ↦ none | some n ↦ some (pos n) ]

-- (?:[eE]([+-]?[0-9]+))?$
exponent : Text → Option ℤ
exponent [] = some (pos 0)
exponent (c ∷ t) = if c == b'e' || c == b'E' then signed_exp t else none

-- (?:\.([0-9]+))? and what follows. A dot with no digit behind it fails the whole match.
fraction : Text → Option (Text × Text)
fraction [] = some ([], [])
fraction (c ∷ t) =
    if c == b'.'
    then (let (digits, rest) = span_digits t in
        if non_empty digits then some (digits, rest) else none)
    else some ([], c ∷ t)

pub match_value : Text → Option Groups
unfolding non_empty exp_digits signed_exp exponent fraction
match_value t =
    let (int, rest) = span_digits t in
    if non_empty int
    then elim (fraction rest) [
      | none ↦ none
      | some (frac, tail) ↦ elim (exponent tail) [
        | none ↦ none
        | some e ↦ some (record { int_part = int; frac_part = frac; exp_part = e })
      ]
    ]
    else none

-- digits.replace(/^0+/, "")
unfoldable pub strip_leading : Text → Text
strip_leading [] = []
strip_leading (c ∷ t) = if c == 48 then strip_leading t else c ∷ t

-- A text without the zeros at its end, and their number.
unfoldable pub strip_zeros : Text → Text × ℕ
unfolding non_empty
strip_zeros [] = ([], 0)
strip_zeros (c ∷ t) =
    let (kept, n) = strip_zeros t in
    if not (non_empty kept) && c == 48 then ([], suc n) else (c ∷ kept, n)

-- The loop over the trailing zeros stops at index 0: the first digit stays.
unfoldable pub strip_trailing : Text → Text × ℕ
unfolding strip_zeros
strip_trailing [] = ([], 0)
strip_trailing (c ∷ t) = let (kept, n) = strip_zeros t in (c ∷ kept, n)

-- The value of digits without leading zeros and the exponent of their last one.
normalise_stripped : Text → ℤ → Option TokenValue
normalise_stripped [] exp = none
normalise_stripped (c ∷ t) exp =
    let (kept, trailing) = strip_trailing (c ∷ t) in
    let exp' = exp +ℤ pos trailing in
    let mant = value_of kept in
    let norm_exp = exp' +ℤ sub_ℕ (length kept) token_max_mant_digits in
    if ltb token_max_mant_digits (length kept)
    then none
    else if mant == 0
    then none
    else if ltb_ℤ norm_exp token_exp_min || ltb_ℤ token_exp_max norm_exp
    then none
    else some (record { mant = mant; exp = exp' })

-- What follows the match: the digits and the exponent of their last one.
pub normalise : Text → ℤ → Option TokenValue
unfolding normalise_stripped
normalise digits exp = normalise_stripped (strip_leading digits) exp

token_of_text : Text → Option TokenValue
unfolding match_value normalise
token_of_text t = elim (match_value t) [
  | none ↦ none
  | some m ↦ normalise (m.int_part ++ m.frac_part) (m.exp_part -ℤ pos (length m.frac_part))
]

unfoldable pub parse_token_value : Value → Option TokenValue
unfolding token_of_text
parse_token_value v = elim (as_text v) [ none ↦ none | some t ↦ token_of_text t ]

-- Align to the lower exponent and compare the integers; lt, eq, gt are -1, 0, 1.
unfoldable pub cmp_token_value : TokenValue → TokenValue → Ordering
cmp_token_value a b =
    let e : ℤ = if ltb_ℤ a.exp b.exp then a.exp else b.exp in
    compare (a.mant * 10 ^ gap a.exp e) (b.mant * 10 ^ gap b.exp e)
