-- ===== src/Boot/Config.antt =====
-- validateConfig and createStore of x402-xahau/server.mjs, and the start of serve.
use xahc.Prelude.{
  ℕ, Bool, true, false, not, ◌&&◌, ◌||◌, Option, none, some, List, [], ◌∷◌, ◌++◌, if◌then◌else◌,
  leb, ◌==◌, length, ◌≡◌, refl, sym, ap, ◌∙◌, Bool-cases, inl, inr,
}
use xahc.Prelude.Text.{Text, codes, text_eq}
use xahc.Js.{Number, nat, other}
use xahc.Rate.Redis.{Backend, in_memory, in_redis, create_rate_limiter}

-- The variables that validateConfig reads; an unset one counts as the empty text.
pub record Environment : Type 0 where
  pub port : Text
  pub xahau_wss : Text
  pub xahau_network : Text
  pub xahau_network_id : Text
  pub redis_url : Text

-- Number of a text, the protocol of the URL of a text (`none` if URL throws), and the names that
-- every object inherits, under which NETWORK_IDS has a function.
pub record Platform : Type 0 where
  pub number : Text → Number
  pub protocol : Text → Option Text
  pub inherited : Text → Bool

pub data Fatal : Type 0 where
  invalid_port invalid_wss unknown_network : Fatal
  network_mismatch invalid_network_id invalid_redis_url : Fatal

pub data Warning : Type 0 where
  settle_disabled : Warning

pub record Validation : Type 0 where
  pub fatal : List Fatal
  pub warnings : List Warning

abbrev given : Text → Bool
given t = not (length t == 0)

-- if (given && !ok) fatal.push(f)
report : Bool → Bool → Fatal → List Fatal
report g ok f = if g && not ok then f ∷ [] else []

-- Number.isInteger(n) && low <= n && n <= high; no upper bound is `none`.
in_range : ℕ → Option ℕ → Number → Bool
in_range low high other = false
in_range low none (nat n) = leb low n
in_range low (some high) (nat n) = leb low n && leb n high

one_of : Option Text → Text → Text → Bool
one_of none a b = false
one_of (some p) a b = text_eq p a || text_eq p b

-- NETWORK_IDS[name]
pub data Known : Type 0 where
  id : ℕ → Known
  function unknown : Known

unfoldable pub network_ids : Platform → Text → Known
network_ids platform name =
    if text_eq name (codes "xahau")
    then id 21337
    else if text_eq name (codes "xahau-testnet")
    then id 21338
    else if platform.inherited name
    then function
    else unknown

same_number : ℕ → Number → Bool
same_number n other = false
same_number n (nat m) = n == m

-- Number(id) === known
agrees : Known → Number → Bool
unfolding same_number
agrees (id n) number = same_number n number
agrees function number = false
agrees unknown number = true

is_known : Known → Bool
is_known (id n) = true
is_known function = true
is_known unknown = false

network_errors : Platform → Environment → Known → List Fatal
unfolding report agrees is_known
network_errors platform env known =
    report (given env.xahau_network) (is_known known) unknown_network
    ++ report (given env.xahau_network && (is_known known && given env.xahau_network_id))
        (agrees known (platform.number env.xahau_network_id)) network_mismatch

unfoldable pub validate_config : Platform → Environment → Validation
unfolding report in_range one_of network_errors
validate_config platform env = record {
  fatal =
      report (given env.port) (in_range 1 (some 65535) (platform.number env.port)) invalid_port
      ++ report (given env.xahau_wss)
          (one_of (platform.protocol env.xahau_wss) (codes "ws:") (codes "wss:")) invalid_wss
      ++ network_errors platform env (network_ids platform env.xahau_network)
      ++ report (given env.xahau_network_id)
          (in_range 1 none (platform.number env.xahau_network_id)) invalid_network_id
      ++ report (given env.redis_url)
          (one_of (platform.protocol env.redis_url) (codes "redis:") (codes "rediss:"))
          invalid_redis_url;
  warnings = if given env.xahau_wss then [] else settle_disabled ∷ [];
}

-- createStore: `ioredis` is whether the module is installed, `none` the error that it is not.
unfoldable pub create_store : Text → Bool → Option Backend
create_store url ioredis =
    if given url then (if ioredis then some in_redis else none) else some in_memory

-- The start of serve: an exit, an exception, or a server with its store and its limiter.
pub data Started : Type 0 where
  exited raised : Started
  serving : Backend → Backend → Started

with_store : Text → Option Backend → Started
with_store url none = raised
with_store url (some in_memory) = serving in_memory (create_rate_limiter (some url) false)
with_store url (some in_redis) = serving in_redis (create_rate_limiter (some url) true)

after_check : Environment → Bool → List Fatal → Started
unfolding with_store
after_check env ioredis [] = with_store env.redis_url (create_store env.redis_url ioredis)
after_check env ioredis (f ∷ fs) = exited

unfoldable pub start : Platform → Environment → Bool → Started
unfolding after_check
start platform env ioredis = after_check env ioredis (validate_config platform env).fatal

-- The backends that a configuration asks for.
abbrev pub asked : Text → Backend
asked url = if given url then in_redis else in_memory

-- The start after a check without errors.
abbrev started : Bool → Bool → Started
started true true = serving in_redis in_redis
started true false = raised
started false ioredis = serving in_memory in_memory

no_client : (url : Text) → create_rate_limiter (some url) false ≡ in_memory
unfolding create_rate_limiter
no_client url = elim (Bool-cases (length url == 0)) [ inl e ↦ rw e refl | inr e ↦ rw e refl ]

with_client :
    (url : Text) → length url == 0 ≡ false → create_rate_limiter (some url) true ≡ in_redis
unfolding create_rate_limiter
with_client url e = rw e refl

after_check_nil :
    (env : Environment) (ioredis : Bool)
    → after_check env ioredis [] ≡ started (given env.redis_url) ioredis
unfolding after_check create_store create_rate_limiter with_store
after_check_nil env true = elim (Bool-cases (length env.redis_url == 0)) [
  | inl e ↦ rw e (ap (serving in_memory) (no_client env.redis_url))
  | inr e ↦
      let limiter : create_rate_limiter (some env.redis_url) true ≡ in_redis =
        with_client env.redis_url e in
      rw e (ap (serving in_redis) limiter)
]
after_check_nil env false = elim (Bool-cases (length env.redis_url == 0)) [
  | inl e ↦ rw e (ap (serving in_memory) (no_client env.redis_url))
  | inr e ↦ rw e refl
]

started_serving :
    (g ioredis : Bool) (s r : Backend)
    → started g ioredis ≡ serving s r
    → (s ≡ (if g then in_redis else in_memory)) × (r ≡ (if g then in_redis else in_memory))
started_serving true true s r h = (cc (h), cc (h))
started_serving true false s r h = absurd (cc (h))
started_serving false ioredis s r h = (cc (h), cc (h))

after_check_serving :
    (env : Environment) (ioredis : Bool) (fatal : List Fatal) (s r : Backend)
    → after_check env ioredis fatal ≡ serving s r
    → (fatal ≡ []) × (s ≡ asked env.redis_url) × (r ≡ asked env.redis_url)
unfolding after_check
after_check_serving env ioredis (f ∷ fs) s r h = absurd (cc (h))
after_check_serving env ioredis [] s r h =
    let (store, limiter) =
      started_serving (given env.redis_url) ioredis s r (sym (after_check_nil env ioredis) ∙ h) in
    (refl, store, limiter)

-- If the server serves, its configuration has no fatal error, and its store and its rate limiter are
-- both in Redis if X402_REDIS_URL is set, and both in memory if not: never one without the other.
pub start_serving :
    (platform : Platform) (env : Environment) (ioredis : Bool) (s r : Backend)
    → start platform env ioredis ≡ serving s r
    → ((validate_config platform env).fatal ≡ [])
      × (s ≡ asked env.redis_url)
      × (r ≡ asked env.redis_url)
unfolding start
start_serving platform env ioredis s r h =
    after_check_serving env ioredis (validate_config platform env).fatal s r h
