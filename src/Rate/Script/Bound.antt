-- ===== src/Rate/Script/Bound.antt =====
-- What the token bucket promises: a bound on the requests that it lets through, and that a request
-- which is refused passes after the time that the reply names.
use Prim.Native.Nat.{min}
use native.Mathlib.Nat.{add-mul, div-mul-le_self, mul-le-mul_right}
use xahc.Prelude.{
  ℕ, suc, ◌+◌, ◌-◌, ◌*◌, ◌/◌, ◌≤◌, ◌≡◌, refl, sym, ap, ◌∙◌, subst, Bool, true, false, Option, none,
  some, List, [], ◌∷◌, if◌then◌else◌, arith, Bool-cases, inl, inr, leb, leb→le,
}
use xahc.Rate.Script.{
  scale, Limit, capacity, ttl_ms, Bucket, Verdict, refilled, take_token, Stored, Keys, eval_script,
}

-- The requests of one client, by their times; the evaluations of the script, and how many are let
-- through.
unfoldable pub allowed : Keys → Limit → List ℕ → Option Stored → ℕ
allowed redis l [] stored = 0
allowed redis l (now ∷ later) stored =
    let (verdict, next) = eval_script redis l now stored in
    let rest = allowed redis l later (some next) in if verdict.allow then suc rest else rest

-- Times that do not run backwards, the last not after `end_`.
abbrev pub InTime : ℕ → List ℕ → ℕ → Type 0
InTime from [] until = from ≤ until
InTime from (now ∷ later) until = (from ≤ now) × InTime now later until

-- A bucket holds at most its capacity, and its life is twice the window from its last use.
pub record IsBucket (l : Limit) (s : Stored) : Type 0 where
  pub capped : s.bucket.tokens ≤ capacity l
  pub life : s.expiry ≡ s.bucket.ts + ttl_ms l

-- What is there at `now`, in tokens times the window.
refilled_weight :
    (redis : Keys) (l : Limit) (now : ℕ) (s : Stored)
    → IsBucket l s
    → s.bucket.ts ≤ now
    → refilled l now (redis.hmget now (some s)) * l.window_ms
      ≤ s.bucket.tokens * l.window_ms + (now - s.bucket.ts) * capacity l
unfolding refilled
refilled_weight redis l now s v h = elim (Bool-cases (leb s.expiry now)) [
  | inl e ↦
      let idle : l.window_ms ≤ now - s.bucket.ts = ground (arith, v.life, e) in
      rw (redis.after now s (leb→le s.expiry now e))
        (grind (arith, mul-le-mul_right (capacity l) idle))
  | inr e ↦
      let refill = (now - s.bucket.ts) * capacity l / l.window_ms in
      let whole = div-mul-le_self ((now - s.bucket.ts) * capacity l) l.window_ms in
      let capped : min (capacity l) (s.bucket.tokens + refill) ≤ s.bucket.tokens + refill =
        omega arith in
      rw (redis.before now s (ground (arith, e)))
        (grind (arith, whole, mul-le-mul_right l.window_ms capped))
]

-- What is taken and what is left is what was there.
weighed : Limit → Verdict × Bucket → ℕ
weighed l (v, b) = b.tokens * l.window_ms + (if v.allow then scale * l.window_ms else 0)

take_token_weight :
    (l : Limit) (now : ℕ) (stored : Option Bucket)
    → weighed l (take_token l now stored) ≡ refilled l now stored * l.window_ms
unfolding take_token weighed
take_token_weight l now stored = elim (Bool-cases (leb scale (refilled l now stored))) [
  | inl e ↦
      let t = refilled l now stored in
      let whole : (t - scale) + scale ≡ t = ground (arith, e) in
      rw e (sym (add-mul (t - scale) scale l.window_ms) ∙ ap (λ n. n * l.window_ms) whole)
  | inr e ↦ rw e (omega arith)
]

take_token_bucket :
    (l : Limit) (now : ℕ) (stored : Option Bucket)
    → ((take_token l now stored).1.tokens ≤ refilled l now stored)
      × ((take_token l now stored).1.ts ≡ now)
unfolding take_token
take_token_bucket l now stored = elim (Bool-cases (leb scale (refilled l now stored))) [
  | inl e ↦ rw e (omega arith, refl)
  | inr e ↦ rw e (omega arith, refl)
]

refilled_capped :
    (l : Limit) (now : ℕ) (stored : Option Bucket) → refilled l now stored ≤ capacity l
unfolding refilled
refilled_capped l now none = omega arith
refilled_capped l now (some b) = omega arith

-- Every evaluation leaves a bucket that is not over its capacity, used now, and with its whole life
-- ahead, whatever was stored.
pub eval_script-IsBucket :
    (redis : Keys) (l : Limit) (now : ℕ) (stored : Option Stored)
    → IsBucket l (eval_script redis l now stored).1
unfolding eval_script
eval_script-IsBucket redis l now stored =
    let (fewer, used) = take_token_bucket l now (redis.hmget now stored) in
    let cap = refilled_capped l now (redis.hmget now stored) in
    record { capped = omega (arith, fewer, cap); life = ap (λ t. t + ttl_ms l) (sym used) }

pub eval_script_ts :
    (redis : Keys) (l : Limit) (now : ℕ) (stored : Option Stored)
    → (eval_script redis l now stored).1.bucket.ts ≡ now
unfolding eval_script
eval_script_ts redis l now stored = (take_token_bucket l now (redis.hmget now stored)).1

-- The weight of a bucket, and what `times` of its passing cost.
eval_script_weight :
    (redis : Keys) (l : Limit) (now : ℕ) (stored : Option Stored)
    → (eval_script redis l now stored).1.bucket.tokens * l.window_ms
        + (if (eval_script redis l now stored).0.allow then scale * l.window_ms else 0)
      ≡ refilled l now (redis.hmget now stored) * l.window_ms
unfolding eval_script weighed
eval_script_weight redis l now stored = take_token_weight l now (redis.hmget now stored)

allowed_suc :
    (l : Limit) (b : Bool) (n : ℕ)
    → (if b then suc n else n) * (scale * l.window_ms)
      ≡ (if b then scale * l.window_ms else 0) + n * (scale * l.window_ms)
allowed_suc l true n = grind arith
allowed_suc l false n = omega arith

InTime-le : (from : ℕ) (times : List ℕ) (until : ℕ) → InTime from times until → from ≤ until
InTime-le from [] until h = h
InTime-le from (now ∷ later) until (h, hs) =
    let rest = InTime-le now later until hs in omega (arith, h, rest)

InTime-split :
    (l : Limit) (from now : ℕ) (later : List ℕ) (until : ℕ)
    → from ≤ now
    → InTime now later until
    → (until - from) * capacity l ≡ (now - from) * capacity l + (until - now) * capacity l
InTime-split l from now later until h hs =
    let rest = InTime-le now later until hs in
    let whole : until - from ≡ (now - from) + (until - now) = omega (arith, h, rest) in
    ap (λ n. n * capacity l) whole ∙ add-mul (now - from) (until - now) (capacity l)

-- The weight of the requests let through from a stored bucket.
allowed_weight :
    (redis : Keys) (l : Limit) (times : List ℕ) (until : ℕ) (s : Stored)
    → IsBucket l s
    → InTime s.bucket.ts times until
    → allowed redis l times (some s) * (scale * l.window_ms)
      ≤ s.bucket.tokens * l.window_ms + (until - s.bucket.ts) * capacity l
unfolding allowed
allowed_weight redis l [] until s v h = omega arith
allowed_weight redis l (now ∷ later) until s v (h, hs) =
    let next = (eval_script redis l now (some s)).1 in
    let used = eval_script_ts redis l now (some s) in
    let after = subst (λ t. InTime t later until) (sym used) hs in
    let rest =
      allowed_weight redis l later until next (eval_script-IsBucket redis l now (some s)) after in
    let paid = eval_script_weight redis l now (some s) in
    let there = refilled_weight redis l now s v h in
    let passed =
      allowed_suc l (eval_script redis l now (some s)).0.allow
        (allowed redis l later (some next)) in
    let split_time = InTime-split l s.bucket.ts now later until h hs in
    let tail =
      subst
        (λ t.
          allowed redis l later (some next) * (scale * l.window_ms)
          ≤ next.bucket.tokens * l.window_ms + (until - t) * capacity l)
        used rest in
    omega (arith, tail, paid, there, passed, split_time)

-- From a client's first request at `first` to `until`, with a clock that does not run back, the script
-- lets at most max * (1 + (until - first) / windowMs) requests through.
pub allowed_bound :
    (redis : Keys) (l : Limit) (first : ℕ) (later : List ℕ) (until : ℕ)
    → InTime first later until
    → allowed redis l (first ∷ later) none * l.window_ms ≤ l.max * (l.window_ms + (until - first))
unfolding allowed
allowed_bound redis l first later until h =
    let next = (eval_script redis l first none).1 in
    let used = eval_script_ts redis l first none in
    let after = subst (λ t. InTime t later until) (sym used) h in
    let rest =
      allowed_weight redis l later until next (eval_script-IsBucket redis l first none) after in
    let paid = eval_script_weight redis l first none in
    let passed =
      allowed_suc l (eval_script redis l first none).0.allow (allowed redis l later (some next)) in
    let cap = mul-le-mul_right l.window_ms (refilled_capped l first (redis.hmget first none)) in
    let tail =
      subst
        (λ t.
          allowed redis l later (some next) * (scale * l.window_ms)
          ≤ next.bucket.tokens * l.window_ms + (until - t) * capacity l)
        used rest in
    omega (arith, tail, paid, passed, cap)
