-- ===== src/Amount/Drops.antt =====
-- Native amounts: parseStrictDrops of x402-xahau/server.mjs.
use xahc.Prelude.{
  ℕ, ◌*◌, ◌≤◌, ◌<◌, ◌≡◌, ◌↔◌, refl, Bool, true, false, not, ◌||◌, Option, none, some, [], ◌∷◌,
  arith, ltb, ◌==◌, if◌then◌else◌, all, length,
}
use xahc.Prelude.Text.{Text}
use xahc.Js.{Value, str, as_text}
use xahc.Digits.{
  is_digit, value_of, decimal, value_of-decimal, all_digits-decimal, length-decimal_pos,
}

-- 100e9 XAH in drops.
abbrev pub max_drops : ℕ
max_drops = 100_000_000_000 * 1_000_000

-- /^[0-9]+$/
abbrev pub strict_drops : Text → Bool
strict_drops [] = false
strict_drops (c ∷ t) = all is_digit (c ∷ t)

drops_of_text : Text → Option ℕ
drops_of_text t =
    if not (strict_drops t)
    then none
    else let n = value_of t in if n == 0 || ltb max_drops n then none else some n

unfoldable pub parse_strict_drops : Value → Option ℕ
unfolding drops_of_text
parse_strict_drops v = elim (as_text v) [ none ↦ none | some t ↦ drops_of_text t ]

strict_of_digits : (t : Text) → all is_digit t ≡ true → 0 < length t → strict_drops t ≡ true
strict_of_digits [] h p = elim p [ ]
strict_of_digits (c ∷ t) h p = h

-- A digit, by its code unit, and a text of digits.
abbrev pub Digits : Text → Type 0
Digits [] = Unit {0}
Digits (c ∷ t) = (48 ≤ c) × (c ≤ 57) × Digits t

all_digit-Digits : (t : Text) → all is_digit t ≡ true → Digits t
all_digit-Digits [] h = tt
all_digit-Digits (c ∷ t) h =
    (ground (arith, h), ground (arith, h), all_digit-Digits t (ground (arith, h)))

Digits-all_digit : (t : Text) → Digits t → all is_digit t ≡ true
Digits-all_digit [] d = refl
Digits-all_digit (c ∷ t) d = let rest = Digits-all_digit t d.2 in ground (arith, d.0, d.1, rest)

strict_drops-length : (t : Text) → strict_drops t ≡ true → 1 ≤ length t
strict_drops-length [] h = absurd (cc (h))
strict_drops-length (c ∷ t) h = omega arith

strict_drops-all : (t : Text) → strict_drops t ≡ true → all is_digit t ≡ true
strict_drops-all [] h = refl
strict_drops-all (c ∷ t) h = h

-- An amount of n drops: a text of the digits 0 to 9, at least one, of the value n, which is above 0 and
-- at most 100 billion XAH of a million drops.
pub record IsDrops (v : Value) (n : ℕ) : Type 0 where
  pub text : Text
  pub is_text : v ≡ str text
  pub some_digit : 1 ≤ length text
  pub digits : Digits text
  pub value : value_of text ≡ n
  pub positive : 1 ≤ n
  pub within : n ≤ 100_000_000_000_000_000

parse_strict_drops-IsDrops : (v : Value) (n : ℕ) → parse_strict_drops v ≡ some n → IsDrops v n
unfolding parse_strict_drops
parse_strict_drops-IsDrops (str t) n h =
    let strict : strict_drops t ≡ true = ground (arith, h) in
    record {
      text = t;
      is_text = refl;
      some_digit = strict_drops-length t strict;
      digits = all_digit-Digits t (strict_drops-all t strict);
      value = ground (arith, h);
      positive = ground (arith, h);
      within = ground (arith, h);
    }
parse_strict_drops-IsDrops _ n h = ground arith

-- Every text of digits whose value is above 0 and at most the supply is accepted with that value.
pub parse_strict_drops_complete : (v : Value) (n : ℕ) → IsDrops v n → parse_strict_drops v ≡ some n
unfolding parse_strict_drops
parse_strict_drops_complete v n d =
    let strict = strict_of_digits d.text (Digits-all_digit d.text d.digits) d.some_digit in
    rw d.is_text (ground (arith, strict, d.value, d.positive, d.within))

-- parseStrictDrops answers n to exactly the texts of one or more digits, and nothing else, whose value is
-- n, with n above 0 and at most 10 ^ 17.
pub parse_strict_drops_iff : (v : Value) (n : ℕ) → (parse_strict_drops v ≡ some n) ↔ IsDrops v n
parse_strict_drops_iff v n = (parse_strict_drops-IsDrops v n, parse_strict_drops_complete v n)

-- A printed amount in range is read back.
pub parse_strict_drops-decimal :
    (n : ℕ) → 0 < n → n ≤ max_drops → parse_strict_drops (str (decimal n)) ≡ some n
parse_strict_drops-decimal n p q = parse_strict_drops_complete (str (decimal n)) n (record {
  text = decimal n;
  is_text = refl;
  some_digit = length-decimal_pos n;
  digits = all_digit-Digits (decimal n) (all_digits-decimal n);
  value = value_of-decimal n;
  positive = p;
  within = q;
})
