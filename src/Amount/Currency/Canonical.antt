-- ===== src/Amount/Currency/Canonical.antt =====
-- The canonical form of a currency code is its own canonical form.
use mathlib.Core.List.{map}
use xahc.Prelude.{
  ℕ, ◌+◌, ◌/◌, ◌%◌, ◌<◌, ◌≡◌, refl, Bool, true, false, ◌&&◌, some, [], ◌∷◌, arith, ltb, ◌==◌, all,
  length, Bool-cases, inl, inr, &&_true, ==_iff, subst, ◌∙◌, ltb→lt,
}
use xahc.Prelude.Text.{Text}
use xahc.Js.{Value, str}
use xahc.Amount.Currency.{
  is_hex, upper_hex, is_printable, hex_digit, hex_bytes, standard_bytes, currency_of_text,
  canonicalize_currency,
}

-- 40 upper-case hexadecimal digits, not all of them 0.
pub record IsCurrency (t : Text) : Type 0 where
  pub size : length t ≡ 40
  pub hex : all is_hex t ≡ true
  pub upper : map upper_hex t ≡ t
  pub nonzero : all (λ c. c == 48) t ≡ false

length-map-upper : (t : Text) → length (map upper_hex t) ≡ length t
length-map-upper [] = refl
length-map-upper (c ∷ t) = omega (arith, length-map-upper t)

upper_hex_facts :
    (c : ℕ)
    → is_hex c ≡ true
    → (is_hex (upper_hex c) ≡ true) × (upper_hex (upper_hex c) ≡ upper_hex c)
upper_hex_facts c h = ground arith

all_hex-upper : (t : Text) → all is_hex t ≡ true → all is_hex (map upper_hex t) ≡ true
all_hex-upper [] h = refl
all_hex-upper (c ∷ t) h =
    let parts = &&_true _ _ h in rw ((upper_hex_facts c parts.0).0) (all_hex-upper t parts.1)

upper_idem : (t : Text) → all is_hex t ≡ true → map upper_hex (map upper_hex t) ≡ map upper_hex t
upper_idem [] h = refl
upper_idem (c ∷ t) h =
    let parts = &&_true (is_hex c) (all is_hex t) h in
    cc ((upper_hex_facts c parts.0).1, upper_idem t parts.1)

hex_digit_facts :
    (n : ℕ) → n < 16 → (is_hex (hex_digit n) ≡ true) × (upper_hex (hex_digit n) ≡ hex_digit n)
hex_digit_facts n h = ground arith

abbrev is_byte : ℕ → Bool
is_byte b = ltb b 256

length-hex_bytes : (t : Text) → length (hex_bytes t) ≡ length t + length t
unfolding hex_bytes
length-hex_bytes [] = refl
length-hex_bytes (b ∷ t) = omega (arith, length-hex_bytes t)

all_hex-hex_bytes : (t : Text) → all is_byte t ≡ true → all is_hex (hex_bytes t) ≡ true
unfolding hex_bytes
all_hex-hex_bytes [] h = refl
all_hex-hex_bytes (b ∷ t) h =
    let parts = &&_true _ _ h in
    let below = ltb→lt b 256 parts.0 in
    rw ((hex_digit_facts (b / 16) (omega arith)).0, (hex_digit_facts (b % 16) (omega arith)).0)
      (all_hex-hex_bytes t parts.1)

upper-hex_bytes : (t : Text) → all is_byte t ≡ true → map upper_hex (hex_bytes t) ≡ hex_bytes t
unfolding hex_bytes
upper-hex_bytes [] h = refl
upper-hex_bytes (b ∷ t) h =
    let parts = &&_true _ _ h in
    let below = ltb→lt b 256 parts.0 in
    cc (
      (hex_digit_facts (b / 16) (omega arith)).1,
      (hex_digit_facts (b % 16) (omega arith)).1,
      upper-hex_bytes t parts.1,
    )

-- The hexadecimal form of three printable characters.
standard-IsCurrency :
    (a b c : ℕ)
    → all is_printable (a ∷ b ∷ c ∷ []) ≡ true
    → IsCurrency (hex_bytes (standard_bytes (a ∷ b ∷ c ∷ [])))
unfolding standard_bytes
standard-IsCurrency a b c h =
    let bytes : all is_byte (standard_bytes (a ∷ b ∷ c ∷ [])) ≡ true = ground arith in
    record {
      size = length-hex_bytes (standard_bytes (a ∷ b ∷ c ∷ []));
      hex = all_hex-hex_bytes _ bytes;
      upper = upper-hex_bytes _ bytes;
      nonzero = unfold hex_bytes in ground arith;
    }

hex-IsCurrency :
    (cur : Text)
    → (length cur == 40 && all is_hex cur) ≡ true
    → all (λ c. c == 48) (map upper_hex cur) ≡ false
    → IsCurrency (map upper_hex cur)
hex-IsCurrency cur h nonzero =
    let parts = &&_true (length cur == 40) (all is_hex cur) h in
    record {
      size = length-map-upper cur ∙ (==_iff _ _).0 parts.0;
      hex = all_hex-upper cur parts.1;
      upper = upper_idem cur parts.1;
      nonzero = nonzero;
    }

three-IsCurrency :
    (cur t : Text)
    → currency_of_text cur ≡ some t
    → (length cur == 40 && all is_hex cur) ≡ false
    → IsCurrency t
unfolding currency_of_text
three-IsCurrency [] t h e = absurd (cc)
three-IsCurrency (a ∷ []) t h e = absurd (ground arith)
three-IsCurrency (a ∷ b ∷ []) t h e = absurd (ground arith)
three-IsCurrency (a ∷ b ∷ c ∷ []) t h e =
    let printable : all is_printable (a ∷ b ∷ c ∷ []) ≡ true = ground arith in
    let made : hex_bytes (standard_bytes (a ∷ b ∷ c ∷ [])) ≡ t = ground (arith, printable) in
    subst IsCurrency made (standard-IsCurrency a b c printable)
three-IsCurrency (a ∷ b ∷ c ∷ d ∷ cur) t h e = absurd (ground arith)

currency_of_text-IsCurrency : (cur t : Text) → currency_of_text cur ≡ some t → IsCurrency t
unfolding currency_of_text
currency_of_text-IsCurrency cur t h = elim (Bool-cases (length cur == 40 && all is_hex cur)) [
  | inr e ↦ three-IsCurrency cur t h e
  | inl e ↦ elim (Bool-cases (all (λ c. c == 48) (map upper_hex cur))) [
    | inl zero ↦ absurd (ground (arith, e, zero))
    | inr nonzero ↦
        let made : map upper_hex cur ≡ t = ground (arith, e, nonzero) in
        subst IsCurrency made (hex-IsCurrency cur e nonzero)
  ]
]

currency_of_text_self : (t : Text) → IsCurrency t → currency_of_text t ≡ some t
unfolding currency_of_text
currency_of_text_self t k = ground (arith, k.size, k.hex, k.upper, k.nonzero)

-- What a currency code is mapped to is canonical, and is mapped to itself: the three-character form
-- of a code and its hexadecimal form meet.
pub canonicalize_currency_idem :
    (v : Value) (t : Text)
    → canonicalize_currency v ≡ some t
    → IsCurrency t × (canonicalize_currency (str t) ≡ some t)
unfolding canonicalize_currency
canonicalize_currency_idem (str cur) t h =
    let k = currency_of_text-IsCurrency cur t h in (k, currency_of_text_self t k)
canonicalize_currency_idem _ t h = absurd (cc)
