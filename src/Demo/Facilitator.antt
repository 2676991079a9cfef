-- ===== src/Demo/Facilitator.antt =====
-- x402-xahau/demo/facilitator-testnet.mjs: a launcher of verifyExact and settle with an HTTP surface,
-- a client of the ledger and a ledger fetcher of its own.
pub mod Mirrors
pub mod Serves
pub mod Settles
use xahc.Prelude.{
  ℕ, ◌+◌, ◌*◌, String, Bool, true, false, not, Option, none, some, List, [], ◌∷◌, ◌++◌, ltb, ◌==◌,
  if◌then◌else◌, length,
}
use xahc.Prelude.Text.{Text}
use xahc.Message.{Check, ok}
use xahc.Js.{Number, nat, other, Value, obj, end, prop, or_else, to_number}
use xahc.Node.{Node, ledger}
use xahc.Verify.{Verified, verify_exact}
use xahc.Store.Interface.{ReplayStore}
use xahc.Metrics.{settle_calls}
use xahc.Metrics
use xahc.Settle.Effects.{Receipt, Reply, escaped, Env, World, Stage, reply, count, ◌>>=◌, ◌>>◌}
use xahc.Settle.Before.{decoded, checked, verified, unconsumed}
use xahc.Settle.{configured, reply_of, settle}
use xahc.Http.Auth.{Buffers}
use xahc.Http.Body.{Event, on_data, on_end, on_error, Parser}
use xahc.Http.Request.{Req, is_at, member, is_retryable}

-- `pooled` is the client of an earlier request, with what isConnected answers, and `dial` a new client, if
-- its connection does not throw.
pub record Launcher : Type 0 where
  pub buffers : Buffers
  pub secret : Text
  pub parse : Parser
  pub pooled : Option (Bool × Node)
  pub dial : Option Node
  pub env : Env

-- getClient: `none` is an exception.
abbrev pub get_client : Option (Bool × Node) → Option Node → Option Node
get_client none dial = dial
get_client (some (true, node)) dial = some node
get_client (some (false, node)) dial = dial

unfoldable pub client_of : Launcher → Option Node
client_of l = get_client l.pooled l.dial

-- Number.isFinite(n) && n > 0 ? n : null
unfoldable pub index_of : Number → Option ℕ
index_of other = none
index_of (nat n) = if ltb 0 n then some n else none

-- currentValidatedLedger: the outer `none` is the exception of the request, which nothing catches.
unfoldable pub fetch_ledger : Node → Option (Option ℕ)
unfolding index_of
fetch_ledger node = elim (node ledger) [
  | none ↦ none
  | some r ↦
      let result = prop "result" r in
      some (
        index_of (
          to_number
            (or_else (prop "ledger_index" result) (prop "ledger_index" (prop "ledger" result)))))
]

-- authOk
unfoldable pub auth_ok : Buffers → Text → Option Text → Bool
auth_ok buffers secret provided = if length secret == 0 then true else elim provided [
  | none ↦ false
  | some t ↦
      if length t == 0
      then false
      else if not (length (buffers.from t) == length (buffers.from secret))
      then false
      else buffers.timing_safe_equal (buffers.from t) (buffers.from secret)
]

-- How the promise of readBody is settled.
pub data Outcome : Type 0 where
  parsed : Value → Outcome
  too_large invalid_json stream_error : Outcome

-- A promise is settled once; its executor goes on.
pub record Reader : Type 0 where
  pub chunks : List ℕ
  pub size : ℕ
  pub outcome : Option Outcome

first : Option Outcome → Outcome → Option Outcome
first (some o) p = some o
first none p = some p

json_outcome : Option Value → Outcome
json_outcome none = invalid_json
json_outcome (some v) = parsed v

unfoldable pub text_outcome : Parser → List ℕ → Outcome
unfolding json_outcome
text_outcome parse [] = parsed (obj end)
text_outcome parse (b ∷ bytes) = json_outcome (parse (b ∷ bytes))

unfoldable pub on_event : Parser → Event → Reader → Reader
unfolding first
on_event parse (on_data c) r =
    let n = r.size + length c in
    if ltb (64 * 1024) n
    then record r { size = n; outcome = first r.outcome too_large }
    else record r { size = n; chunks = r.chunks ++ c }
on_event parse on_end r = record r { outcome = first r.outcome (text_outcome parse r.chunks) }
on_event parse on_error r = record r { outcome = first r.outcome stream_error }

unfoldable pub read_from : Parser → List Event → Reader → Reader
read_from parse [] r = r
read_from parse (e ∷ es) r = read_from parse es (on_event parse e r)

unfoldable pub read_body : Parser → List Event → Option Outcome
read_body parse es = (read_from parse es (record { chunks = []; size = 0; outcome = none })).outcome

pub data Content : Type 0 where
  error : String → Content
  health kinds : Content
  verified_as : Check Verified → Content
  settlement : Reply → Content

pub record Response : Type 0 where
  pub status : ℕ
  pub content : Content

-- What a request comes to: its response, or none while its body does not end.
abbrev pub Handler : Type 0 → Type 0
Handler S = World S → Option Response × World S

-- What the fetcher answers; where it throws, settle does not come to an answer.
abbrev pub index_read : Option (Option ℕ) → Option ℕ
index_read none = none
index_read (some index) = index

-- The surroundings of settle: XAHAU_WSS is set, the client is the one of the launcher, the ledger is
-- read by its fetcher, and there are no flags.
unfoldable pub injected : Launcher → Node → Env
injected l node = record l.env {
  wss = true;
  client = ok node;
  dry_run = false;
  pre_sim_reject = false;
  get_ledger = λ c. index_read (fetch_ledger c);
}

module _ {S : Type 0} where
  unfoldable pub send : ℕ → Content → Handler S
  send status content w = (some (record { status = status; content = content }), w)

  unfoldable pub bad_request : Handler S
  bad_request = send 400 (error "bad request")

  unfoldable pub internal_error : Handler S
  internal_error = send 500 (error "internal error")

  unfoldable pub read_result : (Value → Handler S) → Option Outcome → Handler S
  read_result k none w = (none, w)
  read_result k (some (parsed v)) w = k v w
  read_result k (some too_large) w = bad_request w
  read_result k (some invalid_json) w = bad_request w
  read_result k (some stream_error) w = internal_error w

  unfoldable pub with_body : Launcher → Req → (Value → Handler S) → Handler S
  with_body l req k = read_result k (read_body l.parse req.events)

  unfoldable pub fields : (Value → Value → Handler S) → Option Value → Option Value → Handler S
  fields k none requirements = internal_error
  fields k (some payload) none = internal_error
  fields k (some payload) (some requirements) = k payload requirements

  -- b.paymentPayload and b.paymentRequirements
  unfoldable pub with_payment : Value → (Value → Value → Handler S) → Handler S
  with_payment b k = fields k (member "paymentPayload" b) (member "paymentRequirements" b)

  unfoldable pub post_verify : Launcher → Req → Handler S
  post_verify l req = with_body l req (λ b. with_payment b (λ payload requirements.
      send 200 (verified_as (verify_exact l.env.libs l.env.network payload requirements))))

  -- settle up to its call of a ledger fetcher that throws.
  unfoldable pub unread_ledger : ReplayStore Receipt S → Env → Value → Value → Stage S Reply
  unread_ledger st env payload req = do
    count settle_calls
    configured st env
    v ← verified env payload req
    unconsumed st env v
    blob ← checked Metrics.other v.payer (decoded env payload)
    reply escaped

  -- settle with the fetcher that is injected.
  unfoldable pub injected_settle :
      ReplayStore Receipt S → Launcher → Node → Value → Value → World S → Reply × World S
  injected_settle st l node payload req w = elim (fetch_ledger node) [
    | none ↦ reply_of st (unread_ledger st (injected l node) payload req w)
    | some index ↦ settle st (injected l node) payload req w
  ]

  unfoldable pub settle_reply : Reply × World S → Option Response × World S
  settle_reply (escaped, w) = internal_error w
  settle_reply (out, w) = send (if is_retryable out then 503 else 200) (settlement out) w

  unfoldable pub settle_with : ReplayStore Receipt S → Launcher → Value → Option Node → Handler S
  settle_with st l b none = internal_error
  settle_with st l b (some node) =
      with_payment b (λ payload req w. settle_reply (injected_settle st l node payload req w))

  unfoldable pub settle_body : ReplayStore Receipt S → Launcher → Value → Handler S
  settle_body st l b = settle_with st l b (client_of l)

  unfoldable pub post_settle : ReplayStore Receipt S → Launcher → Req → Handler S
  post_settle st l req w =
      if auth_ok l.buffers l.secret req.x402_secret
      then with_body l req (settle_body st l) w
      else send 401 (error "unauthorized") w

  unfoldable pub handle : ReplayStore Receipt S → Launcher → Req → Handler S
  handle st l req =
      if is_at "GET" "/health" req
      then send 200 health
      else if is_at "GET" "/supported" req
      then send 200 kinds
      else if is_at "POST" "/verify" req
      then post_verify l req
      else if is_at "POST" "/settle" req
      then post_settle st l req
      else send 404 (error "not found")
