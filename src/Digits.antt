-- ===== src/Digits.antt =====
-- Decimal digits: BigInt(text) and BigInt.prototype.toString on the texts that server.mjs reads and
-- prints.
use mathlib.Core.List.{append-nil, append_assoc}
use xahc.Prelude.{
  ℕ, zero, suc, ◌+◌, ◌-◌, ◌*◌, ◌/◌, ◌%◌, ◌≤◌, ◌<◌, ◌≡◌, refl, sym, ◌∙◌, Bool, true, false, ◌&&◌, [],
  ◌∷◌, ◌++◌, arith, ltb, leb, ◌==◌, if◌then◌else◌, all, length, all-append, length-append,
}
use xahc.Prelude.Text.{Text}

-- [0-9]
abbrev pub is_digit : ℕ → Bool
is_digit c = leb 48 c && leb c 57

-- The value of digits after those read so far.
unfoldable pub value_from : ℕ → Text → ℕ
value_from acc [] = acc
value_from acc (c ∷ t) = value_from (acc * 10 + (c - 48)) t

-- BigInt(t), for t of digits.
unfoldable pub value_of : Text → ℕ
unfolding value_from
value_of t = value_from 0 t

decimal_fuel : ℕ → ℕ → Text
decimal_fuel zero n = []
decimal_fuel (suc f) n =
    let high = decimal_fuel f (n / 10) in
    if ltb n 10 then (48 + n) ∷ [] else high ++ (48 + n % 10) ∷ []

-- n.toString(); the fuel is above n, and n falls to n / 10.
unfoldable pub decimal : ℕ → Text
unfolding decimal_fuel
decimal n = decimal_fuel (suc n) n

-- More fuel changes nothing.
decimal_fuel-enough : (f g n : ℕ) → n < f → n < g → decimal_fuel f n ≡ decimal_fuel g n
unfolding decimal_fuel
decimal_fuel-enough zero g n p q = absurd (omega arith)
decimal_fuel-enough (suc f) zero n p q = absurd (omega arith)
decimal_fuel-enough (suc f) (suc g) n p q = ground (arith, decimal_fuel-enough f g (n / 10))

-- One more digit behind a positive number.
pub decimal-snoc : (a d : ℕ) → 0 < a → d < 10 → decimal (a * 10 + d) ≡ decimal a ++ (48 + d) ∷ []
unfolding decimal
decimal-snoc a d p q =
    let quotient : (a * 10 + d) / 10 ≡ a = omega arith in
    let remainder : (a * 10 + d) % 10 ≡ d = omega arith in
    ground (arith, quotient, remainder, decimal_fuel-enough (a * 10 + d) (suc a) a)

decimal_digit : (d : ℕ) → d < 10 → decimal d ≡ (48 + d) ∷ []
unfolding decimal
decimal_digit d h = ground arith

-- Printing what was read gives back its digits, behind those of a positive start.
decimal-value_from :
    (acc : ℕ) (t : Text)
    → 0 < acc
    → all is_digit t ≡ true
    → decimal (value_from acc t) ≡ decimal acc ++ t
unfolding value_from
decimal-value_from acc [] p h = sym (append-nil (decimal acc))
decimal-value_from acc (c ∷ t) p h =
    let digit : is_digit c ≡ true = ground arith in
    let low : (c - 48 < 10) × (48 + (c - 48) ≡ c) = ground arith in
    decimal-value_from (acc * 10 + (c - 48)) t (omega arith) (ground arith)
    ∙ rw (decimal-snoc acc (c - 48) p low.0, low.1) (append_assoc (decimal acc) (c ∷ []) t)

-- So a text of digits without a leading zero is printed again as it was read.
pub decimal-value_of :
    (c : ℕ) (t : Text)
    → all is_digit (c ∷ t) ≡ true
    → (c == 48) ≡ false
    → decimal (value_of (c ∷ t)) ≡ c ∷ t
unfolding value_of
decimal-value_of c t h nonzero =
    let low : (0 < c - 48) × (c - 48 < 10) × (48 + (c - 48) ≡ c) = ground arith in
    let start : 0 * 10 + (c - 48) ≡ c - 48 = omega arith in
    rw start (
      decimal-value_from (c - 48) t low.0 (ground arith)
      ∙ rw (decimal_digit (c - 48) low.1, low.2) refl)

pub value_from-append :
    (acc : ℕ) (s t : Text) → value_from acc (s ++ t) ≡ value_from (value_from acc s) t
unfolding value_from
value_from-append acc [] t = refl
value_from-append acc (c ∷ s) t = value_from-append (acc * 10 + (c - 48)) s t

value_of-decimal_fuel : (f n : ℕ) → n < f → value_of (decimal_fuel f n) ≡ n
unfolding decimal_fuel value_of
value_of-decimal_fuel zero n h = absurd (omega arith)
value_of-decimal_fuel (suc f) n h = ground (
  arith,
  value_of-decimal_fuel f (n / 10),
  value_from-append 0 (decimal_fuel f (n / 10)) ((48 + n % 10) ∷ []),
)

-- Reading a printed number gives the number.
pub value_of-decimal : (n : ℕ) → value_of (decimal n) ≡ n
unfolding decimal
value_of-decimal n = value_of-decimal_fuel (suc n) n (omega arith)

all_digits-decimal_fuel : (f n : ℕ) → all is_digit (decimal_fuel f n) ≡ true
unfolding decimal_fuel
all_digits-decimal_fuel zero n = refl
all_digits-decimal_fuel (suc f) n = ground (
  arith,
  all_digits-decimal_fuel f (n / 10),
  all-append is_digit (decimal_fuel f (n / 10)) ((48 + n % 10) ∷ []),
)

pub all_digits-decimal : (n : ℕ) → all is_digit (decimal n) ≡ true
unfolding decimal
all_digits-decimal n = all_digits-decimal_fuel (suc n) n

-- A printed number is not the empty text.
pub length-decimal_pos : (n : ℕ) → 0 < length (decimal n)
unfolding decimal
length-decimal_pos n = ground (arith, length-append (decimal_fuel n (n / 10)) ((48 + n % 10) ∷ []))

pub value_from-ge : (acc : ℕ) (t : Text) → acc ≤ value_from acc t
unfolding value_from
value_from-ge acc [] = omega arith
value_from-ge acc (c ∷ t) = omega (arith, value_from-ge (acc * 10 + (c - 48)) t)

pub value_of-pos : (c : ℕ) (t : Text) → is_digit c ≡ true → (c == 48) ≡ false → 0 < value_of (c ∷ t)
unfolding value_of
value_of-pos c t h nonzero = ground (arith, value_from-ge (0 * 10 + (c - 48)) t)
