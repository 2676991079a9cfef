-- ===== src/Rate/Memory/Sweep.antt =====
-- The sweep of the limiter in memory: forgetting idle buckets changes no decision.
use Prim.Native.Nat.{min}
use native.Mathlib.Nat.{mul-le-mul_right}
use xahc.Prelude.{
  ℕ, ◌+◌, ◌-◌, ◌*◌, ◌≤◌, ◌≡◌, refl, sym, ap, ◌∙◌, Bool, true, not, Option, none, some, List, [],
  ◌∷◌, arith, Bool-cases, inl, inr, leb,
}
use xahc.Prelude.Int.{ℤ, pos, pos_part, neg_part, ◌+ℤ◌, ◌-ℤ◌, eq_of_parts, ltb_ℤ}
use xahc.Prelude.Text.{Text, text_eq}
use xahc.Rate.Script.{Limit}
use xahc.Rate.Memory.{
  Used, Limiter, new_limiter, idle, sweep, swept, full, min_ℤ, found_bucket, refill, take_one,
  ok_in, ok,
}
use xahc.Store.Dict
use xahc.Store.Dict.{Dict}

-- No debt, and not used after `t`.
pub record IsUsed (t : ℕ) (b : Used) : Type 0 where
  pub debt : neg_part b.tokens ≡ 0
  pub past : b.ts ≤ t

nonneg : (a : ℤ) → neg_part a ≡ 0 → a ≡ pos (pos_part a)
nonneg a h = eq_of_parts a (pos (pos_part a)) (omega (arith, h))

add_pos : (a n : ℕ) → pos a +ℤ pos n ≡ pos (a + n)
unfolding ◌+ℤ◌
add_pos a n = ground arith

sub_zero : (a n : ℕ) → n ≡ 0 → pos a -ℤ pos n ≡ pos a
unfolding ◌-ℤ◌
sub_zero a n h = ground (arith, h)

sub_pos : (a n : ℕ) → n ≤ a → pos a -ℤ pos n ≡ pos (a - n)
unfolding ◌-ℤ◌
sub_pos a n h = ground (arith, h)

min_pos : (a b : ℕ) → min_ℤ (pos a) (pos b) ≡ pos (min a b)
min_pos a b = ground arith

-- Without a debt and a clock that went back, a refill is one of natural numbers.
refill_nat :
    (l : Limit) (t : ℕ) (b : Used)
    → IsUsed t b
    → refill l t b ≡ pos (min (l.max * l.window_ms) (pos_part b.tokens + (t - b.ts) * l.max))
unfolding refill
refill_nat l t b v =
    let past : b.ts - t ≡ 0 = omega (arith, v.past) in
    let back : (b.ts - t) * l.max ≡ 0 = rw past (omega arith) in
    let sum =
      ap (λ x. x +ℤ pos ((t - b.ts) * l.max)) (nonneg b.tokens v.debt)
      ∙ add_pos (pos_part b.tokens) ((t - b.ts) * l.max) in
    let gained =
      ap (λ x. x -ℤ pos ((b.ts - t) * l.max)) sum
      ∙ sub_zero (pos_part b.tokens + (t - b.ts) * l.max) ((b.ts - t) * l.max) back in
    ap (min_ℤ (full l)) gained
    ∙ min_pos (l.max * l.window_ms) (pos_part b.tokens + (t - b.ts) * l.max)

refill-idle :
    (l : Limit) (t : ℕ) (b : Used) → IsUsed t b → idle l t b ≡ true → refill l t b ≡ full l
refill-idle l t b v h =
    let long : l.window_ms ≤ t - b.ts = ground (arith, h) in
    let gain = mul-le-mul_right l.max long in
    let capped : min (l.max * l.window_ms) (pos_part b.tokens + (t - b.ts) * l.max)
        ≡ l.max * l.window_ms =
      omega (arith, gain) in
    refill_nat l t b v ∙ ap pos capped

fresh-IsUsed : (l : Limit) (t : ℕ) → IsUsed t (record { tokens = full l; ts = t })
fresh-IsUsed l t = record { debt = refl; past = omega arith }

refill_fresh : (l : Limit) (t : ℕ) → refill l t (found_bucket l t none) ≡ full l
refill_fresh l t =
    let capped : min (l.max * l.window_ms) (l.max * l.window_ms + (t - t) * l.max)
        ≡ l.max * l.window_ms =
      omega arith in
    refill_nat l t (found_bucket l t none) (fresh-IsUsed l t) ∙ ap pos capped

-- A request finds an idle bucket as it would find none.
take_one-idle :
    (l : Limit) (t : ℕ) (b : Used)
    → IsUsed t b
    → idle l t b ≡ true
    → take_one l t (some b) ≡ take_one l t none
unfolding take_one
take_one-idle l t b v h = rw (refill-idle l t b v h, refill_fresh l t) refl

take_nat :
    (l : Limit) (t n : ℕ) (found : Option Used)
    → refill l t (found_bucket l t found) ≡ pos n
    → IsUsed t (take_one l t found).1
unfolding take_one
take_nat l t n found h = elim (Bool-cases (ltb_ℤ (pos n) (pos l.window_ms))) [
  | inl e ↦ rw (h, e) (record { debt = refl; past = omega arith })
  | inr e ↦
      let rest = sub_pos n l.window_ms (ground (arith, e)) in
      rw (h, e, rest) (record { debt = refl; past = omega arith })
]

-- What the two limiters may hold under a key at `t`: the same bucket, or one that the sweep forgot.
data IsAlike (l : Limit) (t : ℕ) : Option Used → Option Used → Type 0 where
  both_absent : IsAlike l t none none
  same_bucket : (b : Used) → IsUsed t b → IsAlike l t (some b) (some b)
  forgotten : (b : Used) → IsUsed t b → idle l t b ≡ true → IsAlike l t none (some b)

abbrev Alike : Limit → ℕ → Dict Used → Dict Used → Type 0
Alike l t m m' = (k : Text) → IsAlike l t (Dict.get k m) (Dict.get k m')

later_IsUsed : (t u : ℕ) (b : Used) → t ≤ u → IsUsed t b → IsUsed u b
later_IsUsed t u b h v = record { debt = v.debt; past = omega (arith, v.past, h) }

later_IsAlike :
    (l : Limit) (t u : ℕ) {o o' : Option Used} → t ≤ u → IsAlike l t o o' → IsAlike l u o o'
later_IsAlike l t u h both_absent = both_absent
later_IsAlike l t u h (same_bucket b v) = same_bucket b (later_IsUsed t u b h v)
later_IsAlike l t u h (forgotten b v e) =
    forgotten b (later_IsUsed t u b h v) (ground (arith, h, e))

kept-IsAlike :
    (l : Limit) (t : ℕ) {o o' : Option Used}
    → IsAlike l t o o'
    → IsAlike l t (Dict.kept (λ b. not (idle l t b)) o) o'
kept-IsAlike l t both_absent = both_absent
kept-IsAlike l t (forgotten b v e) = forgotten b v e
kept-IsAlike l t (same_bucket b v) = elim (Bool-cases (idle l t b)) [
  | inl e ↦ rw e (forgotten b v e)
  | inr e ↦ rw e (same_bucket b v)
]

-- A request on alike buckets: one decision, and one bucket left.
take_alike :
    (l : Limit) (t : ℕ) {o o' : Option Used}
    → IsAlike l t o o'
    → (take_one l t o ≡ take_one l t o') × IsUsed t (take_one l t o').1
take_alike l t both_absent = (refl, take_nat l t (l.max * l.window_ms) none (refill_fresh l t))
take_alike l t (same_bucket b v) = (
  refl,
  take_nat l t (min (l.max * l.window_ms) (pos_part b.tokens + (t - b.ts) * l.max)) (some b)
      (refill_nat l t b v),
)
take_alike l t (forgotten b v e) = (
  sym (take_one-idle l t b v e),
  take_nat l t (l.max * l.window_ms) (some b) (refill-idle l t b v e),
)

-- Requests, by the client's address and the time, in the order of a clock that does not run back.
abbrev pub InOrder : ℕ → List (Text × ℕ) → Type 0
InOrder t [] = Unit {0}
InOrder t ((ip, now) ∷ later) = (t ≤ now) × InOrder now later

-- The limiter's decisions.
unfoldable pub decisions : Limit → List (Text × ℕ) → Limiter → List Bool
decisions l [] s = []
decisions l ((ip, now) ∷ later) s = let (allow, s') = ok l ip now s in allow ∷ decisions l later s'

-- Those of a limiter that forgets no bucket.
unfoldable pub unswept : Limit → List (Text × ℕ) → Dict Used → List Bool
unswept l [] m = []
unswept l ((ip, now) ∷ later) m = let (allow, m') = ok_in l ip now m in allow ∷ unswept l later m'

swept-Alike :
    (l : Limit) (now : ℕ) (s : Limiter) (m : Dict Used)
    → Alike l now s.buckets m
    → Alike l now (swept l now s).buckets m
unfolding swept sweep
swept-Alike l now s m h k = elim (Bool-cases (leb (s.last_sweep + l.window_ms) now)) [
  | inl e ↦ rw (e, Dict.get-keep (λ b. not (idle l now b)) k s.buckets) (kept-IsAlike l now (h k))
  | inr e ↦ rw e (h k)
]

set-Alike :
    (l : Limit) (now : ℕ) (ip : Text) (b : Used) (m m' : Dict Used)
    → Alike l now m m'
    → IsUsed now b
    → Alike l now (Dict.set ip b m) (Dict.set ip b m')
set-Alike l now ip b m m' h v k = elim (Bool-cases (text_eq ip k)) [
  | inl e ↦ rw (Dict.get-set ip k b m, Dict.get-set ip k b m', e) (same_bucket b v)
  | inr e ↦ rw (Dict.get-set ip k b m, Dict.get-set ip k b m', e) (h k)
]

decisions-Alike :
    (l : Limit) (t : ℕ) (requests : List (Text × ℕ)) (s : Limiter) (m : Dict Used)
    → InOrder t requests
    → Alike l t s.buckets m
    → decisions l requests s ≡ unswept l requests m
unfolding decisions unswept ok ok_in
decisions-Alike l t [] s m h a = refl
decisions-Alike l t ((ip, now) ∷ later) s m (h, hs) a =
    let s' = swept l now s in
    let alike = swept-Alike l now s m (λ k. later_IsAlike l t now h (a k)) in
    let (same, used) = take_alike l now (alike ip) in
    let b = (take_one l now (Dict.get ip m)).1 in
    let next = record s' { buckets = Dict.set ip b s'.buckets } in
    let rest =
      decisions-Alike l now later next (Dict.set ip b m) hs
        (set-Alike l now ip b s'.buckets m alike used) in
    rw same (ap (λ ds. (take_one l now (Dict.get ip m)).0 ∷ ds) rest)

-- With a clock that does not run back, the sweep of idle buckets changes no decision of the limiter in
-- memory: from the start it lets the same requests through as a limiter that forgets no client.
pub decisions-unswept :
    (l : Limit) (requests : List (Text × ℕ))
    → InOrder 0 requests
    → decisions l requests new_limiter ≡ unswept l requests []
unfolding Dict.get
decisions-unswept l requests h = decisions-Alike l 0 requests new_limiter [] h (λ k. both_absent)
