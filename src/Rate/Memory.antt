-- ===== src/Rate/Memory.antt =====
-- InMemoryRateLimiter of x402-xahau/server.mjs. Tokens are exact: an integer number of tokens divided
-- by the window, where the program has the nearest double.
pub mod Sweep
use xahc.Prelude.{ℕ, ◌+◌, ◌-◌, ◌*◌, Bool, not, Option, none, some, [], ltb, leb, if◌then◌else◌}
use xahc.Prelude.Int.{ℤ, pos, ◌+ℤ◌, ◌-ℤ◌, ltb_ℤ}
use xahc.Prelude.Text.{Text}
use xahc.Rate.Script.{Limit}
use xahc.Store.Dict
use xahc.Store.Dict.{Dict}

-- { tokens, ts }, the tokens times the window.
pub record Used : Type 0 where
  pub tokens : ℤ
  pub ts : ℕ

pub record Limiter : Type 0 where
  pub buckets : Dict Used
  pub last_sweep : ℕ

abbrev pub new_limiter : Limiter
new_limiter = record { buckets = []; last_sweep = 0 }

-- now - b.ts >= this.windowMs
abbrev pub idle : Limit → ℕ → Used → Bool
idle l now b = leb (b.ts + l.window_ms) now

unfoldable pub sweep : Limit → ℕ → Dict Used → Dict Used
sweep l now m = Dict.keep (λ b. not (idle l now b)) m

unfoldable pub swept : Limit → ℕ → Limiter → Limiter
unfolding sweep
swept l now s =
    if leb (s.last_sweep + l.window_ms) now
    then record { buckets = sweep l now s.buckets; last_sweep = now }
    else s

abbrev pub min_ℤ : ℤ → ℤ → ℤ
min_ℤ a b = if ltb_ℤ b a then b else a

abbrev pub full : Limit → ℤ
full l = pos (l.max * l.window_ms)

abbrev pub found_bucket : Limit → ℕ → Option Used → Used
found_bucket l now none = record { tokens = full l; ts = now }
found_bucket l now (some b) = b

-- The tokens after the refill, which a clock that went back takes away again.
unfoldable pub refill : Limit → ℕ → Used → ℤ
refill l now b =
    min_ℤ (full l) (b.tokens +ℤ pos ((now - b.ts) * l.max) -ℤ pos ((b.ts - now) * l.max))

-- The decision, and the bucket that is left.
unfoldable pub take_one : Limit → ℕ → Option Used → Bool × Used
take_one l now found =
    let tokens = refill l now (found_bucket l now found) in
    if ltb_ℤ tokens (pos l.window_ms)
    then (Bool.false, record { tokens = tokens; ts = now })
    else (Bool.true, record { tokens = tokens -ℤ pos l.window_ms; ts = now })

unfoldable pub ok_in : Limit → Text → ℕ → Dict Used → Bool × Dict Used
ok_in l ip now m = let (allow, b) = take_one l now (Dict.get ip m) in (allow, Dict.set ip b m)

unfoldable pub ok : Limit → Text → ℕ → Limiter → Bool × Limiter
ok l ip now s =
    let s' = swept l now s in
    let (allow, m) = ok_in l ip now s'.buckets in (allow, record s' { buckets = m })
