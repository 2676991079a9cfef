-- ===== src/Http/Health.antt =====
-- buildHealth and metricsPrometheus of x402-xahau/server.mjs.
use xahc.Prelude.{
  ℕ, ◌/◌, String, Bool, true, false, not, ◌||◌, Option, none, some, List, [], ◌∷◌, ◌++◌,
  if◌then◌else◌, ◌==◌, length,
}
use xahc.Prelude.Int.{ℤ, pos, negsuc, sub_ℕ}
use xahc.Prelude.Text.{Text, codes, text_eq}
use xahc.Digits.{decimal}
use xahc.Metrics.{Metrics}
use xahc.Rate.Redis.{Backend, in_memory, in_redis}

-- The pooled client of the ledger: none yet, one without isConnected, or what isConnected does.
pub data Pooled : Type 0 where
  no_client no_method throws : Pooled
  connected : Bool → Pooled

-- What buildHealth looks at. `redis_status` is the status of the client of Redis, if there is a client;
-- `map_size` the size of the store's map, if the store has one.
pub record Process : Type 0 where
  pub network : Text
  pub network_id : ℕ
  pub now : ℕ
  pub boot : ℕ
  pub xahau_wss : Text
  pub redis_url : Text
  pub store : Backend
  pub rate_limiter : Backend
  pub redis_status : Option Text
  pub client : Pooled
  pub map_size : Option ℕ

pub record Internals : Type 0 where
  pub network_id : ℕ
  pub replay_store : Backend
  pub rate_limiter : Backend
  pub xrpl_configured : Bool
  pub replay_bindings : ℕ
  pub redis_connected : Option Bool
  pub xrpl_connected : Option Bool

pub data Status : Type 0 where
  up degraded : Status

pub record Health : Type 0 where
  pub status : Status
  pub network : Text
  pub uptime_sec : ℤ
  pub internals : Option Internals

-- !!text
abbrev pub is_set : Text → Bool
is_set t = not (length t == 0)

abbrev is_redis : Backend → Bool
is_redis in_memory = false
is_redis in_redis = true

is_ready : Option Text → Bool
is_ready none = false
is_ready (some s) = text_eq s (codes "ready")

or_zero : Option ℕ → ℕ
or_zero none = 0
or_zero (some n) = n

-- The answer of the pooled client; `none` is an exception.
is_connected : Pooled → Option Bool
is_connected no_client = some false
is_connected no_method = some false
is_connected throws = none
is_connected (connected b) = some b

redis_connected : Process → Option Bool
unfolding is_ready
redis_connected p =
    if is_set p.redis_url || (is_redis p.store || is_redis p.rate_limiter)
    then some (is_ready p.redis_status)
    else none

-- The internals up to the question to the pooled client.
before_client : Process → Internals
unfolding redis_connected
before_client p = record {
  network_id = p.network_id;
  replay_store = p.store;
  rate_limiter = p.rate_limiter;
  xrpl_configured = is_set p.xahau_wss;
  replay_bindings = 0;
  redis_connected = redis_connected p;
  xrpl_connected = none;
}

after_client : Process → Internals → Option Bool → Status × Internals
unfolding or_zero
after_client p i none = (degraded, i)
after_client p i (some b) =
    (up, record i { xrpl_connected = some b; replay_bindings = or_zero p.map_size })

checked : Process → Internals → Status × Internals
unfolding after_client is_connected or_zero
checked p i =
    if is_set p.xahau_wss
    then after_client p i (is_connected p.client)
    else (up, record i { replay_bindings = or_zero p.map_size })

-- Math.floor(ms / 1000)
seconds : ℤ → ℤ
seconds (pos n) = pos (n / 1000)
seconds (negsuc n) = negsuc (n / 1000)

minimal : Process → Health
unfolding seconds
minimal p = record {
  status = up;
  network = p.network;
  uptime_sec = seconds (sub_ℕ p.now p.boot);
  internals = none;
}

verbose : Process → Status × Internals → Health
unfolding minimal
verbose p (s, i) = record (minimal p) { status = s; internals = some i }

unfoldable pub build_health : Process → Bool → Health
unfolding minimal verbose checked before_client
build_health p authed = if authed then verbose p (checked p (before_client p)) else minimal p

-- The counters by name, in the order of `metrics`.
unfoldable pub entries : Metrics → List (String × ℕ)
entries m =
    ("verify_total", m.verify_total)
    ∷ ("settle_total", m.settle_total)
    ∷ ("settle_success", m.settle_success)
    ∷ ("settle_replayed", m.settle_replayed)
    ∷ ("settle_rejected", m.settle_rejected)
    ∷ ("settle_rejected_verify_failed", m.settle_rejected_verify_failed)
    ∷ ("settle_rejected_replay_inflight", m.settle_rejected_replay_inflight)
    ∷ ("settle_rejected_store_full", m.settle_rejected_store_full)
    ∷ ("settle_rejected_submit_ambiguous", m.settle_rejected_submit_ambiguous)
    ∷ ("settle_rejected_tem_rejected", m.settle_rejected_tem_rejected)
    ∷ ("settle_rejected_on_ledger_failure", m.settle_rejected_on_ledger_failure)
    ∷ ("settle_rejected_delivered_short", m.settle_rejected_delivered_short)
    ∷ ("settle_rejected_other", m.settle_rejected_other)
    ∷ ("rate_limited_total", m.rate_limited_total)
    ∷ ("body_too_large_total", m.body_too_large_total)
    ∷ []

-- lines.join("\n") + "\n"
prometheus_lines : List (String × ℕ) → Text
prometheus_lines [] = []
prometheus_lines ((k, v) ∷ rest) =
    let name = codes "x402_" ++ codes k in
    codes "# TYPE "
    ++ name
    ++ codes " counter\n"
    ++ name
    ++ codes " "
    ++ decimal v
    ++ codes "\n"
    ++ prometheus_lines rest

unfoldable pub metrics_prometheus : Metrics → Text
unfolding prometheus_lines
metrics_prometheus m = prometheus_lines (entries m)
