-- ===== src/Tests/Rates.antt =====
-- The rate limiters on concrete requests.
use xahc.Prelude.{
  ℕ, ◌+◌, ◌-◌, ◌*◌, ◌≤◌, ◌<◌, ◌≡◌, ◌↔◌, refl, Bool, true, false, Option, none, some, List, [], ◌∷◌,
  if◌then◌else◌, leb, arith, Bool-cases, inl, inr,
}
use xahc.Prelude.Text.{Text, codes}
use xahc.Rate.Script.{Limit, Bucket, Stored, Keys, eval_script}
use xahc.Rate.Script.Bound.{allowed, allowed_bound}
use xahc.Rate.Script.Retry.{retry_exact}
use xahc.Rate.Script.Skew.{skewed, allowed_skewed}
use xahc.Rate.Memory.{new_limiter, ok}
use xahc.Rate.Memory.Sweep.{decisions, unswept, decisions-unswept}
use xahc.Store.Dict

abbrev limit : Limit
limit = record { max = 2; window_ms = 1000 }

-- Keys that are there until they expire.
abbrev hmget : ℕ → Option Stored → Option Bucket
hmget now none = none
hmget now (some s) = if leb s.expiry now then none else some s.bucket

hmget_before : (now : ℕ) (s : Stored) → now < s.expiry → hmget now (some s) ≡ some s.bucket
hmget_before now s h = elim (Bool-cases (leb s.expiry now)) [
  | inl e ↦ absurd (ground (arith, e, h))
  | inr e ↦ rw e refl
]

hmget_after : (now : ℕ) (s : Stored) → s.expiry ≤ now → hmget now (some s) ≡ none
hmget_after now s h = elim (Bool-cases (leb s.expiry now)) [
  | inl e ↦ rw e refl
  | inr e ↦ absurd (ground (arith, e, h))
]

abbrev keys : Keys
keys = record { hmget = hmget; missing = λ now. refl; before = hmget_before; after = hmget_after }

allowed_bound_example :
    allowed keys limit (5000 ∷ 5000 ∷ 5001 ∷ 5600 ∷ []) none * 1000 ≤ 2 * (1000 + (6000 - 5000))
allowed_bound_example =
    allowed_bound keys limit 5000 (5000 ∷ 5001 ∷ 5600 ∷ []) 6000
      (omega arith, (omega arith, (omega arith, omega arith)))

three_allowed : allowed keys limit (5000 ∷ 5000 ∷ 5001 ∷ 5600 ∷ []) none ≡ 3
unfolding allowed eval_script xahc.Rate.Script.take_token xahc.Rate.Script.refilled
three_allowed = refl

abbrev drained : Stored
drained = record { bucket = record { tokens = 0; ts = 5000 }; expiry = 7000 }

retry_exact_example :
    (eval_script keys limit
      (5100 + 400)
      (some (eval_script keys limit 5100 (some drained)).1)).0.allow
    ≡ leb (eval_script keys limit 5100 (some drained)).0.reset_ms 400
unfolding eval_script xahc.Rate.Script.take_token xahc.Rate.Script.refilled
retry_exact_example =
    retry_exact keys limit 5100 400 (some drained) (omega arith) (omega arith) refl

allowed_skewed_example : 2 ≤ allowed keys limit (skewed limit 5000 2) (some drained)
allowed_skewed_example = allowed_skewed keys limit 5000 2 (some drained) (omega arith) (omega arith)

abbrev requests : List (Text × ℕ)
requests =
    (codes "a", 5000)
    ∷ (codes "a", 5000)
    ∷ (codes "a", 5100)
    ∷ (codes "b", 6100)
    ∷ (codes "a", 7000)
    ∷ []

decisions-unswept_example : decisions limit requests new_limiter ≡ unswept limit requests []
decisions-unswept_example =
    decisions-unswept limit requests
      (omega arith, (omega arith, (omega arith, (omega arith, (omega arith, tt)))))

third_refused : decisions limit requests new_limiter ≡ true ∷ true ∷ false ∷ true ∷ true ∷ []
unfolding decisions ok xahc.Rate.Memory.ok_in xahc.Rate.Memory.take_one xahc.Rate.Memory.refill
    xahc.Prelude.Int.◌-ℤ◌ xahc.Prelude.Int.◌+ℤ◌ Dict.get xahc.Rate.Memory.swept Dict.keep Dict.set
    xahc.Prelude.Text.text_eq
third_refused = refl
