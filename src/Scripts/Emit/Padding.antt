-- ===== src/Scripts/Emit/Padding.antt =====
-- What the loop of scripts/verify-emit.mjs takes off the end of a blob.
use xahc.Prelude.{
  ℕ, zero, suc, ◌+◌, ◌-◌, ◌≤◌, ◌≡◌, refl, sym, ap, ◌∙◌, subst, true, false, [], ◌∷◌, ◌++◌, arith,
  leb, length, take, drop, Bool-cases, &&_true, inl, inr,
}
use mathlib.Core.List.{append-nil, append_assoc}
use xahc.Prelude.Text.{Text, codes, text_eq, text_eq_sound}
use xahc.Scripts.Emit.{ends_in_zeros, trimmed_end, without_padding}

-- n zero bytes
abbrev pub zero_bytes : ℕ → Text
zero_bytes zero = []
zero_bytes (suc n) = codes "00" ++ zero_bytes n

take_add : (a b : ℕ) (t : Text) → take (a + b) t ≡ take a t ++ take b (drop a t)
take_add zero b t = let same : 0 + b ≡ b = omega arith in ap (λ n. take n t) same
take_add (suc a) b t =
    let same : suc a + b ≡ suc (a + b) = omega arith in
    ap (λ n. take n t) same ∙ under a b t (take_add a b)
  where
    under :
        (a b : ℕ) (t : Text)
        → ((u : Text) → take (a + b) u ≡ take a u ++ take b (drop a u))
        → take (suc (a + b)) t ≡ take (suc a) t ++ take b (drop (suc a) t)
    under a zero [] h = refl
    under a (suc b) [] h = refl
    under a b (c ∷ u) h = ap (λ x. c ∷ x) (h u)

take-length : (t : Text) → take (length t) t ≡ t
take-length [] = refl
take-length (c ∷ t) = ap (λ u. c ∷ u) (take-length t)

-- What stands where the loop ends.
pub record IsTrimmed (hex whole : Text) (end : ℕ) : Type 0 where
  pub bytes : ℕ
  pub split : whole ≡ take end hex ++ zero_bytes bytes
  pub done : ends_in_zeros hex end ≡ false

two_off :
    (hex : Text) (end : ℕ)
    → ends_in_zeros hex end ≡ true
    → (2 ≤ end) × (take end hex ≡ take (end - 2) hex ++ codes "00")
two_off hex end h =
    let (le, eq) = &&_true (leb 2 end) _ h in
    let room : 2 ≤ end = ground arith in
    let whole : end - 2 + 2 ≡ end = omega (arith, room) in
    let two : end - (end - 2) ≡ 2 = omega (arith, room) in
    let zeros =
      text_eq_sound _ (codes "00")
        (subst (λ n. text_eq (take n (drop (end - 2) hex)) (codes "00") ≡ true) two eq) in
    (
      room,
      subst (λ n. take n hex ≡ take (end - 2) hex ++ codes "00") whole
          (take_add (end - 2) 2 hex ∙ ap (λ u. take (end - 2) hex ++ u) zeros),
    )

zero_bytes-snoc : (n : ℕ) → codes "00" ++ zero_bytes n ≡ zero_bytes n ++ codes "00"
zero_bytes-snoc zero = refl
zero_bytes-snoc (suc n) = ap (λ u. codes "00" ++ u) (zero_bytes-snoc n)

trimmed_end-IsTrimmed :
    (fuel : ℕ) (hex : Text) (end : ℕ)
    → end ≤ fuel
    → IsTrimmed hex (take end hex) (trimmed_end fuel hex end)
unfolding trimmed_end
trimmed_end-IsTrimmed zero hex end h = record {
  bytes = 0;
  split = sym (append-nil (take end hex));
  done = let e : leb 2 end ≡ false = ground (arith, h) in rw e refl;
}
trimmed_end-IsTrimmed (suc fuel) hex end h = elim (Bool-cases (ends_in_zeros hex end)) [
  | inr e ↦ rw e (record { bytes = 0; split = sym (append-nil (take end hex)); done = e })
  | inl e ↦
      let (room, off) = two_off hex end e in
      let r = trimmed_end-IsTrimmed fuel hex (end - 2) (omega (arith, h, room)) in
      rw e (record {
        bytes = suc r.bytes;
        split =
            off
            ∙ ap (λ u. u ++ codes "00") r.split
            ∙ append_assoc _ (zero_bytes r.bytes) (codes "00")
            ∙ ap (λ u. take (trimmed_end fuel hex (end - 2)) hex ++ u)
                (sym (zero_bytes-snoc r.bytes));
        done = r.done;
      })
]

-- The blob that is decoded is the given one without zero bytes at its end: all of them are taken off,
-- in pairs of digits, and nothing else.
pub without_padding-IsTrimmed :
    (hex : Text) → (end : ℕ) × (without_padding hex ≡ take end hex) × IsTrimmed hex hex end
unfolding without_padding
without_padding-IsTrimmed hex =
    let r = trimmed_end-IsTrimmed (length hex) hex (length hex) (omega arith) in
    (
      trimmed_end (length hex) hex (length hex),
      refl,
      subst (λ u. IsTrimmed hex u (trimmed_end (length hex) hex (length hex))) (take-length hex) r,
    )
