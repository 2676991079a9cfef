-- ===== src/Tests/Serving.antt =====
-- Requests to the server: with and without the secret, over the limit, and a settlement.
use xahc.Prelude.{
  ℕ, ◌+◌, ◌*◌, ◌≡◌, ◌↔◌, true, false, ◌≢◌, refl, Bool, Option, none, some, [], ◌∷◌, if◌then◌else◌,
  ltb,
}
use xahc.Prelude.Text.{Text, codes, text_eq}
use xahc.Digits.{value_of, decimal}
use xahc.Js.{Value, obj, field, end, to_number}
use xahc.Metrics.{metric_inc}
use xahc.Libs.{
  is_valid_r_address, valid_address_text, verify_tx_signature, derive_address_from_pub_key,
}
use xahc.Node.{current_validated_ledger}
use xahc.Amount.Drops.{parse_strict_drops}
use xahc.Verify.{
  tx_blob, read_scheme, read_price, read_terms, check_fields, check_paid, check_signature,
  replay_key_for, amount_text, verify_exact,
}
use xahc.Client.{client_ip}
use xahc.Store.Window.{consumed_expiry_for, max_validity_ledgers}
use xahc.Store.Memory
use xahc.Store.Memory.{Memory}
use xahc.Store.Memory.Refines.{memory_store, memory_view, memory-IsReplayStore}
use xahc.Store.Dict
use xahc.Settle.{
  stages, start, opening, advised, attempt, prepare, authorize, secure, configured, reply_of,
  settle,
}
use xahc.Settle.Effects
use xahc.Settle.Effects.{Receipt}
use xahc.Settle.Before
use xahc.Settle.After
use xahc.Settle.Submit
use xahc.Settle.Outcome
use xahc.Http.Auth.{Buffers, auth_ok}
use xahc.Http.Body
use xahc.Http.Body.{
  Event, on_data, on_end, result_of, already_responded, read_body, read_body-sent, sent, joined,
}
use xahc.Http.Health.{Process, no_client}
use xahc.Http.Request.{Req, Server, Site, route_of, client_key}
use xahc.Http.Guards
use xahc.Http.Guards.{counted}
use xahc.Http.Routes
use xahc.Http.Routes.{handle}
use xahc.Http.Routes.Inner.{status_of}
use xahc.Http.Routes.Guarded.{needs_secret, is_authorized, asks_limiter}
use xahc.Http.Routes.Refused.{is_allowed, handle_unauthorized_iff, handle_limited_iff}
use xahc.Http.Routes.Fresh.{IsFresh, handle-IsFresh}
use xahc.Rate.Redis.{in_memory}
use xahc.Demo.Facilitator
use xahc.Demo.Facilitator.Serves.{launcher_of, by_server, by_launcher, handle-as_server}
use xahc.Tests.Samples.{node, env, payload, requirements, world}

abbrev buffers : Buffers
buffers = record { from = λ t. t; timing_safe_equal = text_eq }

abbrev process : Process
process = record {
  network = codes "xahau";
  network_id = 21337;
  now = 5000;
  boot = 1000;
  xahau_wss = codes "wss://n";
  redis_url = [];
  store = in_memory;
  rate_limiter = in_memory;
  redis_status = none;
  client = no_client;
  map_size = some 0;
}

-- A limiter that counts: it lets the first request through.
abbrev once : Text → ℕ → Bool × ℕ
once ip n = (ltb n 1, n + 1)

abbrev body : Value
body = obj (field "paymentPayload" payload (field "paymentRequirements" requirements end))

abbrev server : Server ℕ
server = record {
  buffers = buffers;
  secret = codes "s";
  trust_proxy_hops = 0;
  limiter = once;
  parse = λ bytes. some body;
  decode_uri = λ t. some t;
  process = process;
  codec = none;
  policy_client = none;
  env = env 1000;
}

abbrev post : Option Text → Req
post secret = record {
  method = codes "POST";
  url = codes "/settle";
  x402_secret = secret;
  accept = [];
  remote_address = none;
  forwarded_for = none;
  events = on_data (b'{' ∷ []) ∷ on_end ∷ [];
}

abbrev site : ℕ → Site (Memory Receipt) ℕ
site n = record { world = world; limits = n }

handle_unauthorized_iff_example :
    (status_of (handle (memory_store Receipt) server (post none) (site 0)).0 ≡ some 401) ↔ (
      (needs_secret (route_of (post none)) ≡ true)
      × (is_authorized (memory_store Receipt) server (post none) ≡ false))
handle_unauthorized_iff_example =
    handle_unauthorized_iff (memory_store Receipt) server (post none) (site 0)

handle_limited_iff_example :
    (status_of (handle (memory_store Receipt) server (post (some (codes "s"))) (site 1)).0
      ≡ some 429)
    ↔ ((asks_limiter
            (memory_store Receipt)
            server
            (post (some (codes "s")))
            (route_of (post (some (codes "s"))))
          ≡ true)
        × (is_allowed (memory_store Receipt) server (post (some (codes "s"))) (site 1) ≡ false))
handle_limited_iff_example =
    handle_limited_iff (memory_store Receipt) server (post (some (codes "s"))) (site 1)

read_body-sent_example :
    read_body (λ bytes. some body) (sent ((b'{' ∷ []) ∷ (b'}' ∷ []) ∷ []))
    ≡ some (
        if ltb (64 * 1024) 2
        then already_responded
        else result_of (λ bytes. some body) (b'{' ∷ b'}' ∷ []))
read_body-sent_example = read_body-sent (λ bytes. some body) ((b'{' ∷ []) ∷ (b'}' ∷ []) ∷ [])

submitted :
    (handle (memory_store Receipt) server (post (some (codes "s"))) (site 0)).1.world.submitted
    ≡ codes "B1" ∷ []
unfolding handle route_of Routes.run Routes.post_settle Routes.settle_body Routes.settle_reply
    Guards.authorized Guards.limited Guards.decided Guards.with_body Guards.read_result
    Guards.with_payment Guards.fields Guards.send client_key client_ip auth_ok read_body
    Body.read_from Body.on_event result_of settle stages start opening advised attempt prepare
    authorize secure configured reply_of Effects.◌>>=◌ Effects.◌>>◌ Effects.give Effects.count
    Effects.call Effects.send Effects.reply Effects.count_reject Before.opened Before.verified
    Before.advise Before.available_or_stop Before.asked Before.look_up Before.unconsumed
    Before.checked Before.claim Before.claimed Before.authority Before.admit Before.expiry_of
    After.finish After.submitted_as After.read_result After.conclude After.bind_hash After.classify
    Memory.is_consumed Memory.get Memory.reserve Memory.sweep Memory.put_binding Memory.set
    Memory.set_receipt Dict.get Dict.set Dict.keep Dict.delete verify_exact tx_blob read_terms
    read_scheme read_price check_fields check_paid check_signature replay_key_for amount_text
    is_valid_r_address valid_address_text verify_tx_signature derive_address_from_pub_key
    parse_strict_drops text_eq value_of decimal current_validated_ledger to_number
    max_validity_ledgers metric_inc Submit.read_response After.receipt_of Outcome.outcome
    After.required_of Outcome.delivered_drops consumed_expiry_for
submitted = refl

submits :
    (handle (memory_store Receipt) server (post (some (codes "s"))) (site 0)).1.world.submitted
    ≢ (site 0).world.submitted
submits e = cc (submitted, e)

handle-IsFresh_example :
    IsFresh (memory_store Receipt) (memory_view Receipt) server (post (some (codes "s"))) (site 0)
handle-IsFresh_example =
    handle-IsFresh (memory_store Receipt) (memory_view Receipt) server (post (some (codes "s")))
      (memory-IsReplayStore Receipt) (site 0) submits

abbrev post_to_settle : Req
post_to_settle = post (some (codes "s"))

-- The sample server and the launcher with its node answer one settlement alike.
handle-as_server_example :
    by_launcher (
      Facilitator.handle
        (memory_store Receipt)
        (launcher_of server node)
        post_to_settle
        (site 0).world)
    ≡ by_server (handle (memory_store Receipt) server post_to_settle (site 0))
unfolding client_key client_ip Facilitator.fetch_ledger to_number read_body Body.read_from
    Body.on_event result_of value_of
handle-as_server_example =
    handle-as_server (memory_store Receipt) server node post_to_settle body (site 0) (some 100) refl
      refl refl refl refl refl refl refl refl
