-- ===== src/Amount/Token/RoundTrip.antt =====
-- parseTokenValue reads back what tokenValueToString prints of a value that it returned.
use mathlib.Core.List.{append-nil}
use xahc.Prelude.{
  ℕ, zero, suc, ◌-◌, ◌≤◌, ◌<◌, ◌≡◌, refl, ap, ◌∙◌, true, false, some, inl, inr, [], ◌∷◌, ◌++◌,
  arith, ltb, not-ltb→le, ltb→lt, Bool-cases, &&_true, ◌==◌, all, all-append, all-take, all-drop,
  length, length-drop, length-append, length-replicate, take, drop, replicate, take-append-drop,
}
use xahc.Prelude.Int.{ℤ, pos, negsuc, ◌+ℤ◌, ◌-ℤ◌}
use xahc.Prelude.Text.{Text}
use xahc.Js.{Value, str}
use xahc.Digits.{is_digit, value_of-pos, decimal, decimal-value_of}
use xahc.Amount.Token.{
  TokenValue, span_digits, non_empty, match_value, strip_leading, strip_zeros, strip_trailing,
  normalise_stripped, normalise, token_of_text, parse_token_value,
}
use xahc.Amount.Token.Canonical.{IsCanonical, parse_token_value-IsCanonical}
use xahc.Amount.Token.Print.{print_digits, token_value_to_string}

all_digits-replicate : (n : ℕ) → all is_digit (replicate n b'0') ≡ true
all_digits-replicate zero = refl
all_digits-replicate (suc n) = all_digits-replicate n

span_digits-append :
    (s rest : Text)
    → all is_digit s ≡ true
    → span_digits rest ≡ ([], rest)
    → span_digits (s ++ rest) ≡ (s, rest)
unfolding span_digits
span_digits-append [] rest h r = r
span_digits-append (c ∷ s) rest h r = ground (arith, span_digits-append s rest)

match_value-digits :
    (s : Text)
    → all is_digit s ≡ true
    → non_empty s ≡ true
    → match_value s ≡ some (record { int_part = s; frac_part = []; exp_part = pos 0 })
unfolding match_value span_digits
match_value-digits s h p = ground (arith, span_digits-append s [] h refl, append-nil s)

match_value-dotted :
    (s t : Text)
    → all is_digit s ≡ true
    → non_empty s ≡ true
    → all is_digit t ≡ true
    → non_empty t ≡ true
    → match_value (s ++ (b'.' ∷ t))
      ≡ some (record { int_part = s; frac_part = t; exp_part = pos 0 })
unfolding match_value span_digits
match_value-dotted s t hs ps ht pt =
    ground (
      arith,
      span_digits-append s (b'.' ∷ t) hs refl,
      span_digits-append t [] ht refl,
      append-nil t,
    )

strip_leading-padded :
    (p c : ℕ) (t : Text) → (c == 48) ≡ false → strip_leading (replicate p b'0' ++ (c ∷ t)) ≡ c ∷ t
unfolding strip_leading
strip_leading-padded zero c t h = ground arith
strip_leading-padded (suc p) c t h = strip_leading-padded p c t h

strip_zeros-replicate : (n : ℕ) → strip_zeros (replicate n b'0') ≡ ([], n)
unfolding strip_zeros
strip_zeros-replicate zero = refl
strip_zeros-replicate (suc n) = rw (strip_zeros-replicate n)

strip_zeros-padded :
    (t : Text) (n : ℕ) → strip_zeros t ≡ (t, 0) → strip_zeros (t ++ replicate n b'0') ≡ (t, n)
unfolding strip_zeros
strip_zeros-padded [] n h = strip_zeros-replicate n
strip_zeros-padded (c ∷ t) n h =
    let tail : strip_zeros t ≡ (t, 0) = ground arith in ground (arith, strip_zeros-padded t n tail)

strip_trailing-padded :
    (c : ℕ) (t : Text) (n : ℕ)
    → strip_zeros t ≡ (t, 0)
    → strip_trailing (c ∷ (t ++ replicate n b'0')) ≡ (c ∷ t, n)
unfolding strip_trailing
strip_trailing-padded c t n h = rw (strip_zeros-padded t n h)

normalise_stripped-padded :
    (v : TokenValue) (k : IsCanonical v) (n : ℕ) (e : ℤ)
    → e +ℤ pos n ≡ v.exp
    → normalise_stripped (k.first ∷ (k.others ++ replicate n b'0')) e ≡ some v
unfolding normalise_stripped
normalise_stripped-padded v k n e h =
    let first_digit : is_digit k.first ≡ true = (&&_true _ _ k.digits).0 in
    let positive = value_of-pos k.first k.others first_digit k.leading in
    rw (strip_trailing-padded k.first k.others n k.trailing, h, ← k.mant)
      (ground (arith, k.mant, positive, k.low, k.high, k.short))

non_empty_of_length : (t : Text) (n : ℕ) → length t ≡ suc n → non_empty t ≡ true
unfolding non_empty
non_empty_of_length [] n h = absurd (omega arith)
non_empty_of_length (c ∷ t) n h = refl

non_empty-take : (i c : ℕ) (t : Text) → 0 < i → non_empty (take i (c ∷ t)) ≡ true
unfolding non_empty
non_empty-take zero c t h = elim h [ ]
non_empty-take (suc i) c t h = refl

-- Zeros in front of a canonical mantissa are dropped, and zeros behind it raise the exponent.
normalise-padded :
    (v : TokenValue) (k : IsCanonical v) (p n : ℕ) (e : ℤ)
    → e +ℤ pos n ≡ v.exp
    → normalise (replicate p b'0' ++ (k.first ∷ (k.others ++ replicate n b'0'))) e ≡ some v
unfolding normalise
normalise-padded v k p n e h =
    rw (strip_leading-padded p k.first (k.others ++ replicate n b'0') k.leading)
      (normalise_stripped-padded v k n e h)

token_of_text-normalise :
    (t int frac : Text)
    → match_value t ≡ some (record { int_part = int; frac_part = frac; exp_part = pos 0 })
    → token_of_text t ≡ normalise (int ++ frac) (pos 0 -ℤ pos (length frac))
unfolding token_of_text
token_of_text-normalise t int frac h = rw (h, token_of_text)

token_of_text-integer :
    (v : TokenValue) (k : IsCanonical v) (n : ℕ)
    → v.exp ≡ pos n
    → token_of_text (k.first ∷ (k.others ++ replicate n b'0')) ≡ some v
unfolding non_empty
token_of_text-integer v k n e =
    let digits : all is_digit (k.first ∷ (k.others ++ replicate n b'0')) ≡ true =
      ground (
        arith,
        k.digits,
        all-append is_digit k.others (replicate n b'0'),
        all_digits-replicate n,
      ) in
    let matched = match_value-digits _ digits refl in
    token_of_text-normalise _ _ _ matched
    ∙ rw (append-nil (k.first ∷ (k.others ++ replicate n b'0')))
        (normalise-padded v k 0 n (pos 0 -ℤ pos 0) (rw e (unfold ◌+ℤ◌ ◌-ℤ◌ in ground arith)))

-- The fractional digits shift the exponent down.
token_of_text-fraction :
    (v : TokenValue) (k : IsCanonical v) (p n : ℕ) (s t : Text)
    → v.exp ≡ negsuc n
    → s ++ t ≡ replicate p b'0' ++ (k.first ∷ k.others)
    → length t ≡ suc n
    → non_empty s ≡ true
    → all is_digit s ≡ true
    → all is_digit t ≡ true
    → token_of_text (s ++ (b'.' ∷ t)) ≡ some v
token_of_text-fraction v k p n s t e split len full hs ht =
    let shifted : pos 0 -ℤ pos (length t) +ℤ pos 0 ≡ v.exp =
      rw (e, len) (unfold ◌+ℤ◌ ◌-ℤ◌ in ground arith) in
    let matched = match_value-dotted s t hs full ht (non_empty_of_length t n len) in
    token_of_text-normalise _ s t matched
    ∙ rw (split, ← append-nil k.others) (normalise-padded v k p 0 (pos 0 -ℤ pos (length t)) shifted)

-- A point inside the digits.
print_digits_inside :
    (v : TokenValue) (k : IsCanonical v) (n : ℕ)
    → v.exp ≡ negsuc n
    → suc n < length (k.first ∷ k.others)
    → let i = length (k.first ∷ k.others) - suc n in
      token_of_text (take i (k.first ∷ k.others) ++ (b'.' ∷ drop i (k.first ∷ k.others))) ≡ some v
print_digits_inside v k n e h =
    let ds = k.first ∷ k.others in
    let i = length ds - suc n in
    token_of_text-fraction v k 0 n (take i ds) (drop i ds) e (take-append-drop i ds)
      (omega (arith, length-drop i ds)) (non_empty-take i k.first k.others (omega arith))
      (all-take is_digit i ds k.digits) (all-drop is_digit i ds k.digits)

-- A point in front of the digits.
print_digits_before :
    (v : TokenValue) (k : IsCanonical v) (n : ℕ)
    → v.exp ≡ negsuc n
    → length (k.first ∷ k.others) ≤ suc n
    → token_of_text (
        b'0'
        ∷ b'.'
        ∷ (replicate (suc n - length (k.first ∷ k.others)) b'0' ++ (k.first ∷ k.others)))
      ≡ some v
unfolding non_empty
print_digits_before v k n e h =
    let ds = k.first ∷ k.others in
    let p = suc n - length ds in
    let digits : all is_digit (replicate p b'0' ++ ds) ≡ true =
      rw (all-append is_digit (replicate p b'0') ds, all_digits-replicate p) k.digits in
    token_of_text-fraction v k (suc p) n (b'0' ∷ []) (replicate p b'0' ++ ds) e refl
      (omega (arith, length-append (replicate p b'0') ds, length-replicate {A = ℕ} p b'0')) refl
      refl digits

print_digits-IsCanonical :
    (v : TokenValue) (k : IsCanonical v) (e : ℤ)
    → v.exp ≡ e
    → token_of_text (print_digits (k.first ∷ k.others) e) ≡ some v
unfolding print_digits
print_digits-IsCanonical v k (pos n) e = token_of_text-integer v k n e
print_digits-IsCanonical v k (negsuc n) e =
    elim (Bool-cases (ltb (suc n) (length (k.first ∷ k.others)))) [
      | inl h ↦ rw h (print_digits_inside v k n e (ltb→lt _ _ h))
      | inr h ↦ rw h (print_digits_before v k n e (not-ltb→le _ _ h))
    ]

-- What is printed of an accepted value is read back as the same mantissa and exponent.
pub parse_token_value-to_string :
    (w : Value) (v : TokenValue)
    → parse_token_value w ≡ some v
    → parse_token_value (str (token_value_to_string v)) ≡ some v
unfolding parse_token_value token_value_to_string
parse_token_value-to_string w v h =
    let k = parse_token_value-IsCanonical w v h in
    let printed : decimal v.mant ≡ k.first ∷ k.others =
      ap decimal k.mant ∙ decimal-value_of k.first k.others k.digits k.leading in
    rw printed (print_digits-IsCanonical v k v.exp refl)
