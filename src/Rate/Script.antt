-- ===== src/Rate/Script.antt =====
-- REDIS_TOKEN_BUCKET_LUA of x402-xahau/server.mjs. Tokens are scaled integers; the numbers stay below
-- 2 ^ 53, where the arithmetic of Lua is exact. The key of a bucket expires after the time to live.
pub mod Bound
pub mod Retry
pub mod Skew
use Prim.Native.Nat.{min}
use xahc.Prelude.{
  ℕ, suc, ◌+◌, ◌-◌, ◌*◌, ◌/◌, Bool, true, false, Option, none, some, if◌then◌else◌, leb, ◌≤◌, ◌<◌,
  ◌≡◌,
}

-- RL_SCALE
abbrev pub scale : ℕ
scale = 1_000_000

pub record Limit : Type 0 where
  pub max : ℕ
  pub window_ms : ℕ

-- maxScaled
abbrev pub capacity : Limit → ℕ
capacity l = l.max * scale

-- ttlMs
abbrev pub ttl_ms : Limit → ℕ
ttl_ms l = l.window_ms * 2

-- The hash under a key.
pub record Bucket : Type 0 where
  pub tokens : ℕ
  pub ts : ℕ

pub record Verdict : Type 0 where
  pub allow : Bool
  pub reset_ms : ℕ

-- The tokens at `now`: an absent bucket is full, and a clock that went back adds nothing.
unfoldable pub refilled : Limit → ℕ → Option Bucket → ℕ
refilled l now none = capacity l
refilled l now (some b) = min (capacity l) (b.tokens + (now - b.ts) * capacity l / l.window_ms)

-- math.ceil(deficit * windowMs / maxScaled)
abbrev pub reset_of : Limit → ℕ → ℕ
reset_of l tokens = ((scale - tokens) * l.window_ms + capacity l - 1) / capacity l

unfoldable pub take_token : Limit → ℕ → Option Bucket → Verdict × Bucket
take_token l now stored =
    let tokens = refilled l now stored in
    if leb scale tokens
    then (record { allow = true; reset_ms = 0 }, record { tokens = tokens - scale; ts = now })
    else (
      record { allow = false; reset_ms = reset_of l tokens },
      record { tokens = tokens; ts = now },
    )

-- A stored bucket with the end of its life.
pub record Stored : Type 0 where
  pub bucket : Bucket
  pub expiry : ℕ

-- HMGET, of a key that a PEXPIRE may have ended: a key is there until it expires.
pub record Keys : Type 0 where
  pub hmget : ℕ → Option Stored → Option Bucket
  pub missing : (now : ℕ) → hmget now none ≡ none
  pub before : (now : ℕ) (s : Stored) → now < s.expiry → hmget now (some s) ≡ some s.bucket
  pub after : (now : ℕ) (s : Stored) → s.expiry ≤ now → hmget now (some s) ≡ none

-- One evaluation of the script: HMGET, the arithmetic, HSET and PEXPIRE.
unfoldable pub eval_script : Keys → Limit → ℕ → Option Stored → Verdict × Stored
eval_script redis l now stored =
    let (verdict, bucket) = take_token l now (redis.hmget now stored) in
    (verdict, record { bucket = bucket; expiry = now + ttl_ms l })
