-- ===== src/Rate/Script/Skew.antt =====
-- Instances whose clocks differ: `ts` goes back to the slower clock at each of its requests, and the
-- faster clock refills the same time again.
use native.Mathlib.Nat.{mul-div_right}
use xahc.Prelude.{
  ℕ, zero, suc, ◌+◌, ◌-◌, ◌≤◌, ◌<◌, ◌≡◌, ◌∙◌, Bool, true, false, Option, some, List, [], ◌∷◌,
  if◌then◌else◌, arith, Bool-cases, inl, inr, leb, leb→le,
}
use xahc.Rate.Script.{scale, Limit, capacity, refilled, Stored, Keys, eval_script}
use xahc.Rate.Script.Bound.{allowed, eval_script_ts}
use xahc.Rate.Script.Retry.{allow_iff}

-- The clocks of two instances, one a window behind the other, in turn.
abbrev pub skewed : Limit → ℕ → ℕ → List ℕ
skewed l now zero = []
skewed l now (suc n) = now ∷ (now + l.window_ms) ∷ skewed l now n

skew_tokens :
    (redis : Keys) (l : Limit) (now : ℕ) (s : Stored)
    → s.bucket.ts ≡ now
    → 0 < l.max
    → 0 < l.window_ms
    → leb scale (refilled l (now + l.window_ms) (redis.hmget (now + l.window_ms) (some s))) ≡ true
unfolding refilled
skew_tokens redis l now s used h p = elim (Bool-cases (leb s.expiry (now + l.window_ms))) [
  | inl e ↦
      rw (redis.after (now + l.window_ms) s (leb→le s.expiry (now + l.window_ms) e)) (ground arith)
  | inr e ↦
      let elapsed : now + l.window_ms - s.bucket.ts ≡ l.window_ms = omega (arith, used) in
      let whole = mul-div_right (capacity l) p in
      rw (redis.before (now + l.window_ms) s (ground (arith, e)), elapsed, whole) (ground arith)
]

skew_refill :
    (redis : Keys) (l : Limit) (now : ℕ) (stored : Option Stored)
    → 0 < l.max
    → 0 < l.window_ms
    → (eval_script redis l (now + l.window_ms) (some (eval_script redis l now stored).1)).0.allow
      ≡ true
skew_refill redis l now stored h p =
    let s = (eval_script redis l now stored).1 in
    allow_iff redis l (now + l.window_ms) (some s)
    ∙ skew_tokens redis l now s (eval_script_ts redis l now stored) h p

if_le : (b : Bool) (n : ℕ) → n ≤ (if b then suc n else n)
if_le true n = omega arith
if_le false n = omega arith

-- The bound needs one clock: two instances whose clocks are a window apart let at least n of 2 n
-- requests through at the same two times, whatever n and the positive limit are.
pub allowed_skewed :
    (redis : Keys) (l : Limit) (now n : ℕ) (stored : Option Stored)
    → 0 < l.max
    → 0 < l.window_ms
    → n ≤ allowed redis l (skewed l now n) stored
unfolding allowed
allowed_skewed redis l now zero stored h p = omega arith
allowed_skewed redis l now (suc n) stored h p =
    let s = (eval_script redis l now stored).1 in
    let next = (eval_script redis l (now + l.window_ms) (some s)).1 in
    let rest = allowed_skewed redis l now n (some next) h p in
    let both =
      if_le (eval_script redis l now stored).0.allow
        (suc (allowed redis l (skewed l now n) (some next))) in
    rw (skew_refill redis l now stored h p) (omega (arith, rest, both))
