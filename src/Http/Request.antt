-- ===== src/Http/Request.antt =====
-- Requests and responses of the HTTP server in x402-xahau/server.mjs, its configuration and its state.
use xahc.Prelude.{
  ℕ, String, Bool, true, false, ◌&&◌, Option, none, some, List, [], ◌∷◌, if◌then◌else◌, ◌==◌,
  length, drop,
}
use xahc.Prelude.Text.{Text, codes, text_eq}
use xahc.Prelude.Search.{starts_with}
use xahc.Message.{Check}
use xahc.Js.{Value, undefined, null, bool, num, str, arr, obj, prop}
use xahc.Client.{client_ip}
use xahc.Verify.{Verified}
use xahc.Settle.Simulate.{Mcp, Simulation, unset, unreachable, not_ok, body}
use xahc.Settle.Effects.{
  Receipt, Reply, refused, dry_run, predicted_reject, settled, replayed, escaped, Env, World,
}
use xahc.Policy.{Readout}
use xahc.Policy.Params.{AddressCodec}
use xahc.Policy.State.{PolicyNode}
use xahc.Http.Auth.{Buffers}
use xahc.Http.Body.{Event, Parser}
use xahc.Http.Health.{Process, Health}

pub record Req : Type 0 where
  pub method : Text
  pub url : Text
  pub x402_secret : Option Text
  pub accept : Text
  pub remote_address : Option Text
  pub forwarded_for : Option Text
  pub events : List Event

pub data Content : Type 0 where
  error : String → Content
  health : Health → Content
  prometheus : Text → Content
  counters : List (String × ℕ) → Content
  supported : Text → Content
  pubkey : Text → Content
  policy : Readout → Content
  policy_unavailable : Text → Content
  found : Receipt → Content
  unknown : Content
  store_unavailable : Content
  simulation : Simulation → Content
  verified : Check Verified → Content
  settlement : Reply → Content

pub record Response : Type 0 where
  pub status : ℕ
  pub content : Content

-- What the server is configured with. `limiter` is the rate limiter in use, with its clock;
-- `policy_client` is the node, if getClient connects; decode_uri is decodeURIComponent, which may
-- throw; `env` holds what settle uses.
pub record Server (L : Type 0) : Type 0 where
  pub buffers : Buffers
  pub secret : Text
  pub trust_proxy_hops : ℕ
  pub limiter : Text → L → Bool × L
  pub parse : Parser
  pub decode_uri : Text → Option Text
  pub process : Process
  pub codec : AddressCodec
  pub policy_client : Option PolicyNode
  pub env : Env

-- The state that requests share.
pub record Site (S L : Type 0) : Type 0 where
  pub world : World S
  pub limits : L

abbrev pub method_is : String → Req → Bool
method_is m req = text_eq req.method (codes m)

-- req.method === m && req.url === path
abbrev pub is_at : String → String → Req → Bool
is_at m path req = method_is m req && text_eq req.url (codes path)

abbrev pub is_below : String → String → Req → Bool
is_below m path req = method_is m req && starts_with (codes path) req.url

-- split("?")[0]
before_query : Text → Text
before_query [] = []
before_query (c ∷ t) = if c == b'?' then [] else c ∷ before_query t

unfoldable pub last_part : String → Req → Text
unfolding before_query
last_part path req = before_query (drop (length (codes path)) req.url)

-- typeof of v.k: `none` is the exception of a member of null or undefined.
abbrev pub member : String → Value → Option Value
member k undefined = none
member k null = none
member k (bool b) = some (prop k (bool b))
member k (num n) = some (prop k (num n))
member k (str t) = some (prop k (str t))
member k (arr xs) = some (prop k (arr xs))
member k (obj fs) = some (prop k (obj fs))

-- v === true
abbrev pub is_true : Value → Bool
is_true (bool b) = b
is_true undefined = false
is_true null = false
is_true (num n) = false
is_true (str t) = false
is_true (arr xs) = false
is_true (obj fs) = false

-- out.retryable === true
abbrev pub is_retryable : Reply → Bool
is_retryable (refused r) = r.retryable
is_retryable (dry_run payer sim) = false
is_retryable (predicted_reject payer sim) = false
is_retryable (settled r) = false
is_retryable (replayed r) = false
is_retryable escaped = false

abbrev pub mcp_configured : Mcp → Bool
mcp_configured unset = false
mcp_configured unreachable = true
mcp_configured not_ok = true
mcp_configured (body v) = true

-- clientIp(req), the key of the rate limiter.
unfoldable pub client_key : {L : Type 0} → Server L → Req → Text
client_key server req = client_ip req.remote_address req.forwarded_for server.trust_proxy_hops

pub data Route : Type 0 where
  health_route metrics_route supported_route pubkey_route policy_route : Route
  status_route simulate_route verify_route settle_route no_route : Route

-- The route of a request, by the tests of the handler in their order.
unfoldable pub route_of : Req → Route
route_of req =
    if is_at "GET" "/health" req
    then health_route
    else if is_at "GET" "/metrics" req
    then metrics_route
    else if is_at "GET" "/supported" req
    then supported_route
    else if is_at "GET" "/pubkey" req
    then pubkey_route
    else if is_below "GET" "/policy/" req
    then policy_route
    else if is_below "GET" "/status/" req
    then status_route
    else if is_at "POST" "/simulate" req
    then simulate_route
    else if is_at "POST" "/verify" req
    then verify_route
    else if is_at "POST" "/settle" req
    then settle_route
    else no_route
