-- ===== src/Amount/Token/Canonical.antt =====
-- The values that parseTokenValue returns are canonical: digits with no zero at either end, at most
-- 16 of them, and an exponent in the ledger's range.
use xahc.Prelude.{
  ℕ, ◌<◌, ◌≡◌, refl, true, false, some, Option-cases, inl, inr, [], ◌∷◌, ◌++◌, arith, ◌==◌, all,
  all-append, length,
}
use xahc.Prelude.Int.{ℤ, pos, ◌+ℤ◌, ◌-ℤ◌, sub_ℕ, ltb_ℤ}
use xahc.Prelude.Text.{Text}
use xahc.Js.{Value, str}
use xahc.Digits.{is_digit, value_of}
use xahc.Amount.Token.{
  TokenValue, Groups, token_exp_min, token_exp_max, token_max_mant_digits, span_digits, fraction,
  match_value, strip_leading, strip_zeros, strip_trailing, normalise_stripped, normalise,
  token_of_text, parse_token_value,
}

abbrev pub norm_exp : ℕ → ℤ → ℤ
norm_exp digits exp = exp +ℤ sub_ℕ digits token_max_mant_digits

-- The canonical form, by the digits of the mantissa.
pub record IsCanonical (v : TokenValue) : Type 0 where
  pub first : ℕ
  pub others : Text
  pub mant : v.mant ≡ value_of (first ∷ others)
  pub digits : all is_digit (first ∷ others) ≡ true
  pub leading : (first == 48) ≡ false
  pub trailing : strip_zeros others ≡ (others, 0)
  pub short : length others < token_max_mant_digits
  pub low : ltb_ℤ (norm_exp (length (first ∷ others)) v.exp) token_exp_min ≡ false
  pub high : ltb_ℤ token_exp_max (norm_exp (length (first ∷ others)) v.exp) ≡ false

strip_zeros-digits : (t : Text) → all is_digit t ≡ true → all is_digit (strip_zeros t).0 ≡ true
unfolding strip_zeros
strip_zeros-digits [] h = refl
strip_zeros-digits (c ∷ t) h = ground (arith, strip_zeros-digits t)

strip_zeros_idem : (t : Text) → strip_zeros (strip_zeros t).0 ≡ ((strip_zeros t).0, 0)
unfolding strip_zeros
strip_zeros_idem [] = refl
strip_zeros_idem (c ∷ t) = ground (arith, strip_zeros_idem t)

strip_leading-digits :
    (t : Text) (c : ℕ) (u : Text)
    → strip_leading t ≡ c ∷ u
    → all is_digit t ≡ true
    → (all is_digit (c ∷ u) ≡ true) × ((c == 48) ≡ false)
unfolding strip_leading
strip_leading-digits [] c u e h = ground arith
strip_leading-digits (d ∷ t) c u e h = ground (arith, strip_leading-digits t c u)

normalise_stripped-IsCanonical :
    (c : ℕ) (t : Text) (e : ℤ) (v : TokenValue)
    → normalise_stripped (c ∷ t) e ≡ some v
    → all is_digit (c ∷ t) ≡ true
    → (c == 48) ≡ false
    → IsCanonical v
unfolding normalise_stripped strip_trailing
normalise_stripped-IsCanonical c t e v h digits leading = record {
  first = c;
  others = (strip_zeros t).0;
  mant = ground arith;
  digits = ground (arith, strip_zeros-digits t);
  leading = leading;
  trailing = strip_zeros_idem t;
  short = ground arith;
  low = ground arith;
  high = ground arith;
}

stripped-IsCanonical :
    (t s : Text) (e : ℤ) (v : TokenValue)
    → strip_leading t ≡ s
    → normalise_stripped s e ≡ some v
    → all is_digit t ≡ true
    → IsCanonical v
unfolding normalise_stripped
stripped-IsCanonical t [] e v q h digits = absurd (cc)
stripped-IsCanonical t (c ∷ u) e v q h digits =
    let facts = strip_leading-digits t c u q digits in
    normalise_stripped-IsCanonical c u e v h facts.0 facts.1

normalise-IsCanonical :
    (t : Text) (e : ℤ) (v : TokenValue)
    → normalise t e ≡ some v
    → all is_digit t ≡ true
    → IsCanonical v
unfolding normalise
normalise-IsCanonical t e v h digits = stripped-IsCanonical t (strip_leading t) e v refl h digits

span_digits-digits : (t : Text) → all is_digit (span_digits t).0 ≡ true
unfolding span_digits
span_digits-digits [] = refl
span_digits-digits (c ∷ t) = ground (arith, span_digits-digits t)

fraction-digits : (t frac rest : Text) → fraction t ≡ some (frac, rest) → all is_digit frac ≡ true
unfolding fraction
fraction-digits [] frac rest h = ground arith
fraction-digits (c ∷ t) frac rest h = ground (arith, span_digits-digits t)

match_value-digits :
    (t : Text) (m : Groups)
    → match_value t ≡ some m
    → all is_digit (m.int_part ++ m.frac_part) ≡ true
unfolding match_value
match_value-digits t m h = elim (Option-cases (fraction (span_digits t).1)) [
  | inl e ↦ ground (arith, e)
  | inr ((frac, tail), e) ↦ ground (
    arith,
    e,
    all-append is_digit (span_digits t).0 frac,
    span_digits-digits t,
    fraction-digits (span_digits t).1 frac tail,
  )
]

token_of_text-IsCanonical : (t : Text) (v : TokenValue) → token_of_text t ≡ some v → IsCanonical v
unfolding token_of_text
token_of_text-IsCanonical t v h = elim (Option-cases (match_value t)) [
  | inl e ↦ absurd (cc)
  | inr (m, e) ↦
      normalise-IsCanonical (m.int_part ++ m.frac_part) (m.exp_part -ℤ pos (length m.frac_part)) v
        (ground (arith, e)) (match_value-digits t m e)
]

-- An accepted value is in the canonical form: a mantissa of at most 16 digits without a zero at
-- either end, and a normalised exponent within the ledger's range.
pub parse_token_value-IsCanonical :
    (w : Value) (v : TokenValue) → parse_token_value w ≡ some v → IsCanonical v
unfolding parse_token_value
parse_token_value-IsCanonical (str t) v h = token_of_text-IsCanonical t v h
parse_token_value-IsCanonical _ v h = ground arith
