-- ===== src/Rate/Script/Retry.antt =====
-- What the script's reply to a refused request promises: the time after which the next one passes.
use Prim.Native.Nat.{min}
use native.Mathlib.Nat.{div-lt_iff_lt-mul, le-div_iff_mul-le, lt-div-mul-add, mul-le-mul_right}
use xahc.Prelude.{
  ℕ, ◌+◌, ◌-◌, ◌*◌, ◌/◌, ◌≤◌, ◌<◌, ◌≡◌, ◌↔◌, refl, sym, ◌∙◌, false, Option, some, arith, Bool-cases,
  inl, inr, leb, leb→le,
}
use xahc.Rate.Script.{
  scale, Limit, capacity, ttl_ms, Verdict, refilled, reset_of, take_token, Stored, Keys,
  eval_script,
}

-- What a refused request leaves: less than a token, and the time that the rest takes.
pub record IsRefused (l : Limit) (now : ℕ) (r : Verdict × Stored) : Type 0 where
  pub short : r.1.bucket.tokens < scale
  pub used : r.1.bucket.ts ≡ now
  pub life : r.1.expiry ≡ now + ttl_ms l
  pub reset : r.0.reset_ms ≡ reset_of l r.1.bucket.tokens

eval_script-IsRefused :
    (redis : Keys) (l : Limit) (now : ℕ) (stored : Option Stored)
    → (eval_script redis l now stored).0.allow ≡ false
    → IsRefused l now (eval_script redis l now stored)
unfolding eval_script take_token
eval_script-IsRefused redis l now stored h =
    elim (Bool-cases (leb scale (refilled l now (redis.hmget now stored)))) [
      | inl e ↦ absurd (ground (arith, e, h))
      | inr e ↦ rw e (record { short = ground (arith, e); used = refl; life = refl; reset = refl })
    ]

-- A request passes when a token is there.
pub allow_iff :
    (redis : Keys) (l : Limit) (now : ℕ) (stored : Option Stored)
    → (eval_script redis l now stored).0.allow ≡ leb scale (refilled l now (redis.hmget now stored))
unfolding eval_script take_token
allow_iff redis l now stored =
    elim (Bool-cases (leb scale (refilled l now (redis.hmget now stored)))) [
      | inl e ↦ rw e refl
      | inr e ↦ rw e refl
    ]

-- The reset is the least time in which the missing part of a token refills.
reset_of_least :
    (l : Limit) (t d : ℕ)
    → 0 < l.max
    → (reset_of l t ≤ d) ↔ ((scale - t) * l.window_ms ≤ d * capacity l)
reset_of_least l t d h =
    let need = (scale - t) * l.window_ms in
    let positive : 0 < capacity l = omega (arith, h) in
    let total = need + capacity l - 1 in
    let bound = d + 1 in
    let cap = capacity l in
    let enough = lt-div-mul-add {a = total} positive in
    (
      λ e. let scaled = mul-le-mul_right (capacity l) e in omega (arith, enough, scaled, positive),
      λ e.
          let next : need + capacity l - 1 < (d + 1) * capacity l = grind (arith, e, positive) in
          let least = (div-lt_iff_lt-mul {k = cap} {x = total} {y = bound} positive).1 next in
          omega (arith, least),
    )

leb_iff : (a b c d : ℕ) → (a ≤ b) ↔ (c ≤ d) → leb a b ≡ leb c d
leb_iff a b c d (f, g) = elim (Bool-cases (leb a b)) [
  | inl e ↦ let le = f (leb→le a b e) in ground (arith, le, e)
  | inr e ↦ elim (Bool-cases (leb c d)) [
    | inl e' ↦ let le = g (leb→le c d e') in absurd (ground (arith, le, e))
    | inr e' ↦ e ∙ sym e'
  ]
]

-- A bucket that lived out its time was idle for longer than the reset.
idle_reset : (l : Limit) (t d : ℕ) → 0 < l.max → l.window_ms ≤ d → reset_of l t ≤ d
idle_reset l t d h idle =
    let room : scale - t ≤ capacity l = omega (arith, h) in
    let filled = mul-le-mul_right l.window_ms room in
    let long = mul-le-mul_right (capacity l) idle in
    (reset_of_least l t d h).1 (omega (arith, filled, long))

refill_iff :
    (l : Limit) (t d : ℕ)
    → 0 < l.max
    → 0 < l.window_ms
    → (scale ≤ min (capacity l) (t + d * capacity l / l.window_ms)) ↔ (reset_of l t ≤ d)
refill_iff l t d h p =
    let (first, last) = reset_of_least l t d h in
    let w = l.window_ms in
    let short = scale - t in
    let gain = d * capacity l in
    let (up, down) = le-div_iff_mul-le {k = w} {x = short} {y = gain} p in
    let room : scale ≤ capacity l = omega (arith, h) in
    (
      λ e. let part : scale - t ≤ d * capacity l / l.window_ms = omega (arith, e) in last (up part),
      λ e. let part = down (first e) in omega (arith, room, part),
    )

-- The next request after a refused one.
next_request :
    (redis : Keys) (l : Limit) (now d : ℕ) (r : Verdict × Stored)
    → 0 < l.max
    → 0 < l.window_ms
    → IsRefused l now r
    → leb scale (refilled l (now + d) (redis.hmget (now + d) (some r.1))) ≡ leb r.0.reset_ms d
unfolding refilled
next_request redis l now d r h p v = elim (Bool-cases (leb r.1.expiry (now + d))) [
  | inl e ↦
      let idle : l.window_ms ≤ d = ground (arith, v.life, e) in
      let reset = idle_reset l r.1.bucket.tokens d h idle in
      rw (redis.after (now + d) r.1 (leb→le r.1.expiry (now + d) e)) (
        leb_iff scale (capacity l) r.0.reset_ms d
          (λ _. omega (arith, v.reset, reset), λ _. omega (arith, h)))
  | inr e ↦
      let elapsed : now + d - r.1.bucket.ts ≡ d = omega (arith, v.used) in
      rw (redis.before (now + d) r.1 (ground (arith, e)), elapsed, v.reset)
        (leb_iff scale (min (capacity l) (r.1.bucket.tokens + d * capacity l / l.window_ms))
          (reset_of l r.1.bucket.tokens) d (refill_iff l r.1.bucket.tokens d h p))
]

-- When the script refuses a request, the client's next request, `d` later, passes exactly if `d` is at
-- least the reset of that reply; the limit and the window are positive.
pub retry_exact :
    (redis : Keys) (l : Limit) (now d : ℕ) (stored : Option Stored)
    → 0 < l.max
    → 0 < l.window_ms
    → (eval_script redis l now stored).0.allow ≡ false
    → (eval_script redis l (now + d) (some (eval_script redis l now stored).1)).0.allow
      ≡ leb (eval_script redis l now stored).0.reset_ms d
retry_exact redis l now d stored h p refused =
    let r = eval_script redis l now stored in
    allow_iff redis l (now + d) (some r.1)
    ∙ next_request redis l now d r h p (eval_script-IsRefused redis l now stored refused)
