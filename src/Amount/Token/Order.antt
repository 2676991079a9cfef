-- ===== src/Amount/Token/Order.antt =====
-- cmpTokenValue is the exact order of the values mant * 10 ^ exp, and on values that parseTokenValue
-- returned its 0 is equality.
use Prim.Native.Nat.{compare, Ordering}
use native.Mathlib.Nat.{
  mul_assoc, mul-one, pow-zero, pow-suc, mul-lt-mul_of_pos_right, one-le-pow, mul-mod_left,
}
use xahc.Prelude.{
  ℕ, zero, suc, ◌+◌, ◌-◌, ◌*◌, ◌^◌, ◌%◌, ◌<◌, ◌≡◌, ◌≢◌, refl, sym, true, false, [], ◌∷◌, some, inl,
  inr, Bool-cases, arith, ltb→lt, not-ltb→le, ◌==◌, all,
}
use xahc.Prelude.Int.{ℤ, ltb_ℤ, gap, ◌≤ℤ◌, eq_of_parts}
use xahc.Prelude.Text.{Text}
use xahc.Js.{Value}
use xahc.Digits.{is_digit, value_from, value_of}
use xahc.Amount.Token.{TokenValue, strip_zeros, parse_token_value, cmp_token_value}
use xahc.Amount.Token.Canonical.{IsCanonical, parse_token_value-IsCanonical}

pow-add : (b m n : ℕ) → b ^ (m + n) ≡ b ^ m * b ^ n
pow-add b m zero = let e : m + zero ≡ m = omega arith in rw (e, pow-zero b) (sym (mul-one (b ^ m)))
pow-add b m (suc n) =
    let e : m + suc n ≡ suc (m + n) = omega arith in
    rw (e, pow-suc b (m + n), pow-suc b n, pow-add b m n) (mul_assoc (b ^ m) (b ^ n) b)

compare-mul : (x y k : ℕ) → 0 < k → compare (x * k) (y * k) ≡ compare x y
compare-mul x y k p = ground (
  arith,
  λ (h : x < y). mul-lt-mul_of_pos_right {k = k} h p,
  λ (h : y < x). mul-lt-mul_of_pos_right {k = k} h p,
)

-- mant * 10 ^ exp in units of 10 ^ e, for e at most exp.
abbrev pub in_units : ℤ → TokenValue → ℕ
in_units e v = v.mant * 10 ^ gap v.exp e

in_units-lower :
    (v : TokenValue) (m e : ℤ) → e ≤ℤ m → m ≤ℤ v.exp → in_units e v ≡ in_units m v * 10 ^ gap m e
in_units-lower v m e p q =
    let split : gap v.exp e ≡ gap v.exp m + gap m e = omega arith in
    rw (split, pow-add 10 (gap v.exp m) (gap m e))
      (sym (mul_assoc v.mant (10 ^ gap v.exp m) (10 ^ gap m e)))

pow_pos : (n : ℕ) → 0 < 10 ^ n
pow_pos n = one-le-pow n 10 (omega arith)

-- In units of any power of ten that divides both, the comparison is that of the two numbers.
pub cmp_token_value-in_units :
    (a b : TokenValue) (e : ℤ)
    → e ≤ℤ a.exp
    → e ≤ℤ b.exp
    → cmp_token_value a b ≡ compare (in_units e a) (in_units e b)
unfolding cmp_token_value
cmp_token_value-in_units a b e p q = elim (Bool-cases (ltb_ℤ a.exp b.exp)) [
  | inl h ↦
      rw (h, in_units-lower a a.exp e p (omega arith), in_units-lower b a.exp e p (ground arith))
        (sym (compare-mul _ _ (10 ^ gap a.exp e) (pow_pos (gap a.exp e))))
  | inr h ↦
      rw (h, in_units-lower a b.exp e q (ground arith), in_units-lower b b.exp e q (omega arith))
        (sym (compare-mul _ _ (10 ^ gap b.exp e) (pow_pos (gap b.exp e))))
]

strip_zeros-tail : (c : ℕ) (t : Text) → strip_zeros (c ∷ t) ≡ (c ∷ t, 0) → strip_zeros t ≡ (t, 0)
unfolding strip_zeros
strip_zeros-tail c t h = ground arith

last_digit :
    (acc c : ℕ) (t : Text)
    → strip_zeros (c ∷ t) ≡ (c ∷ t, 0)
    → all is_digit (c ∷ t) ≡ true
    → value_from acc (c ∷ t) % 10 ≢ 0
unfolding value_from strip_zeros
last_digit acc c [] h digits = ground arith
last_digit acc c (d ∷ t) h digits =
    last_digit (acc * 10 + (c - 48)) d t (strip_zeros-tail c (d ∷ t) h) (ground arith)

strip_zeros-item :
    (c : ℕ) (t : Text)
    → strip_zeros t ≡ (t, 0)
    → (c == 48) ≡ false
    → strip_zeros (c ∷ t) ≡ (c ∷ t, 0)
unfolding strip_zeros
strip_zeros-item c t h nonzero = ground arith

-- A canonical mantissa is no multiple of ten.
mant-IsCanonical : (v : TokenValue) → IsCanonical v → v.mant % 10 ≢ 0
unfolding value_of
mant-IsCanonical v k = rw k.mant (
    last_digit 0 k.first k.others (strip_zeros-item k.first k.others k.trailing k.leading) k.digits)

eq_of_scaled :
    (a b : TokenValue) (g : ℕ)
    → a.exp ≤ℤ b.exp
    → gap b.exp a.exp ≡ g
    → a.mant ≡ b.mant * 10 ^ g
    → a.mant % 10 ≢ 0
    → a ≡ b
eq_of_scaled a b zero p e h last =
    let exps : a.exp ≡ b.exp = eq_of_parts a.exp b.exp (omega arith) in
    ground (arith, exps, pow-zero 10, mul-one b.mant)
eq_of_scaled a b (suc g) p e h last = absurd (
    last (rw (h, pow-suc 10 g, ← mul_assoc b.mant (10 ^ g) 10) (mul-mod_left (b.mant * 10 ^ g) 10)))

eq_of_cmp :
    (a b : TokenValue)
    → a.exp ≤ℤ b.exp
    → a.mant % 10 ≢ 0
    → cmp_token_value a b ≡ Ordering.eq
    → a ≡ b
eq_of_cmp a b p last h =
    let none_left : gap a.exp a.exp ≡ 0 = omega arith in
    let scaled = cmp_token_value-in_units a b a.exp (omega arith) p in
    eq_of_scaled a b (gap b.exp a.exp) p refl
      (ground (arith, scaled, none_left, pow-zero 10, mul-one a.mant)) last

cmp_token_value_swap :
    (a b : TokenValue)
    → b.exp ≤ℤ a.exp
    → cmp_token_value a b ≡ Ordering.eq
    → cmp_token_value b a ≡ Ordering.eq
cmp_token_value_swap a b p h = ground (
  arith,
  cmp_token_value-in_units a b b.exp p (omega arith),
  cmp_token_value-in_units b a b.exp (omega arith) p,
)

-- Accepted values that compare as equal have the same mantissa and exponent.
pub cmp_token_value-eq :
    (s t : Value) (a b : TokenValue)
    → parse_token_value s ≡ some a
    → parse_token_value t ≡ some b
    → cmp_token_value a b ≡ Ordering.eq
    → a ≡ b
cmp_token_value-eq s t a b ps pt h =
    let last_a = mant-IsCanonical a (parse_token_value-IsCanonical s a ps) in
    let last_b = mant-IsCanonical b (parse_token_value-IsCanonical t b pt) in
    elim (Bool-cases (ltb_ℤ a.exp b.exp)) [
      | inl p ↦ eq_of_cmp a b (omega (arith, ltb→lt _ _ p)) last_a h
      | inr p ↦
          let q : b.exp ≤ℤ a.exp = omega (arith, not-ltb→le _ _ p) in
          sym (eq_of_cmp b a q last_b (cmp_token_value_swap a b q h))
    ]
