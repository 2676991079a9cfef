-- ===== src/Http/Routes.antt =====
-- The request handler of serve in x402-xahau/server.mjs: what each route checks, in its order, what it
-- changes, and its one response.
pub mod Inner
pub mod Guarded
pub mod Refused
pub mod Quiet
pub mod Submits
pub mod Fresh
use xahc.Prelude.{
  ℕ, String, Bool, true, false, ◌&&◌, Option, none, some, List, [], ◌∷◌, if◌then◌else◌, ◌==◌,
  length, drop,
}
use xahc.Prelude.Text.{Text, codes, text_eq}
use xahc.Prelude.Search.{starts_with, matches_word}
use xahc.Message.{Check}
use xahc.Js.{Value, undefined, null, bool, num, str, arr, obj, prop}
use xahc.Libs.{is_valid_r_address}
use xahc.Node.{current_validated_ledger}
use xahc.Client.{client_ip}
use xahc.Verify.{Verified, verify_exact}
use xahc.Metrics.{Metrics, Counter, verify_calls, rate_limited, body_too_large, metric_inc}
use xahc.Store.Interface.{ReplayStore, Answer, answered, failed}
use xahc.Settle.Simulate.{Mcp, Simulation, unset, unreachable, not_ok, body, simulate_payment}
use xahc.Settle.Effects.{
  Receipt, Reply, refused, dry_run, predicted_reject, settled, replayed, escaped, Env, World,
}
use xahc.Settle.{settle}
use xahc.Policy.{Readout, get_policy}
use xahc.Policy.Params.{AddressCodec}
use xahc.Policy.State.{PolicyNode}
use xahc.Http.Auth.{Buffers, auth_ok}
use xahc.Http.Body.{
  Event, Parser, Result, parsed, invalid_json, stream_error, already_responded, read_body,
}
use xahc.Http.Health.{Process, Health, build_health, entries, metrics_prometheus}
use xahc.Http.Request.{
  Req, Content, error, health, prometheus, counters, supported, pubkey, policy, policy_unavailable,
  found, unknown, store_unavailable, simulation, verified, settlement, Response, Server, Site,
  Route, health_route, metrics_route, supported_route, pubkey_route, policy_route, status_route,
  simulate_route, verify_route, settle_route, no_route, route_of, is_true, is_retryable,
  mcp_configured,
}
use xahc.Http.Guards.{
  Handler, send, fail, counted, authorized, limited, with_body, with_uri, with_payment,
}

module _ {S L : Type 0} where
  unfoldable pub get_health : Server L → Req → Handler S L
  get_health server req =
      send 200 (
        health (build_health server.process (auth_ok server.buffers server.secret req.x402_secret)))

  unfoldable pub get_metrics : Server L → Req → Handler S L
  get_metrics server req = authorized server req (λ s.
      if matches_word (codes "text/plain") req.accept
      then send 200 (prometheus (metrics_prometheus s.world.metrics)) s
      else send 200 (counters (entries s.world.metrics)) s)

  unfoldable pub get_pubkey : Server L → Req → Handler S L
  get_pubkey server req = limited server req (send 200 (pubkey server.env.crypto.public_hex))

  unfoldable pub policy_reply : AddressCodec → Text → Option PolicyNode → Handler S L
  policy_reply codec account none = send 503 (policy_unavailable account)
  policy_reply codec account (some client) = send 200 (policy (get_policy codec client account))

  unfoldable pub policy_for : Server L → Text → Handler S L
  policy_for server account s =
      if is_valid_r_address server.env.libs (str account)
      then (if server.env.wss
          then policy_reply server.codec account server.policy_client s
          else send 503 (error "node not configured (set XAHAU_WSS)") s)
      else send 400 (error "invalid account address") s

  unfoldable pub get_policy_route : Server L → Req → Handler S L
  get_policy_route server req =
      limited server req (with_uri server "/policy/" req (policy_for server))

  unfoldable pub receipt_reply : Answer (Option Receipt) → Handler S L
  receipt_reply failed = send 503 store_unavailable
  receipt_reply (answered none) = send 200 unknown
  receipt_reply (answered (some r)) = send 200 (found r)

  unfoldable pub looked_up : Site S L → Answer (Option Receipt) × S → Option Response × Site S L
  looked_up s (a, store) = receipt_reply a (record s { world = record s.world { store = store } })

  unfoldable pub status_for : ReplayStore Receipt S → Server L → Text → Handler S L
  status_for st server id s =
      if length id == 0
      then send 400 (error "missing id") s
      else looked_up s (st.get_receipt id server.env.now s.world.store)

  unfoldable pub get_status : ReplayStore Receipt S → Server L → Req → Handler S L
  get_status st server req =
      authorized server req
        (limited server req (with_uri server "/status/" req (status_for st server)))

  unfoldable pub simulate_body : Server L → Value → Handler S L
  simulate_body server b =
      with_payment b
        (λ payload requirements. send 200 (simulation (simulate_payment server.env.mcp)))

  unfoldable pub post_simulate : Server L → Req → Handler S L
  post_simulate server req s =
      if mcp_configured server.env.mcp
      then limited server req (with_body server req (simulate_body server)) s
      else send 404 (error "simulation not enabled (set X402_MCP_URL)") s

  unfoldable pub verify_body : Server L → Value → Handler S L
  verify_body server b s =
      with_payment b
        (λ payload requirements.
          send 200
            (verified (verify_exact server.env.libs server.env.network payload requirements)))
        (counted verify_calls s)

  unfoldable pub post_verify : Server L → Req → Handler S L
  post_verify server req = limited server req (with_body server req (verify_body server))

  unfoldable pub settle_reply : Site S L → Reply × World S → Option Response × Site S L
  settle_reply s (escaped, w) = fail 500 (record s { world = w })
  settle_reply s (out, w) =
      send (if is_retryable out then 503 else 200) (settlement out) (record s { world = w })

  -- settle with the two flags of the body.
  unfoldable pub settle_body : ReplayStore Receipt S → Server L → Value → Handler S L
  settle_body st server b = with_payment b (λ payload requirements s. settle_reply s (
      settle st
        (record server.env {
          dry_run = is_true (prop "dryRun" b);
          pre_sim_reject = is_true (prop "preSimReject" b);
          get_ledger = current_validated_ledger;
        })
        payload requirements s.world))

  unfoldable pub post_settle : ReplayStore Receipt S → Server L → Req → Handler S L
  post_settle st server req =
      authorized server req (limited server req (with_body server req (settle_body st server)))

  unfoldable pub run : ReplayStore Receipt S → Server L → Req → Route → Handler S L
  run st server req health_route = get_health server req
  run st server req metrics_route = get_metrics server req
  run st server req supported_route = send 200 (supported server.process.network)
  run st server req pubkey_route = get_pubkey server req
  run st server req policy_route = get_policy_route server req
  run st server req status_route = get_status st server req
  run st server req simulate_route = post_simulate server req
  run st server req verify_route = post_verify server req
  run st server req settle_route = post_settle st server req
  run st server req no_route = send 404 (error "not found")

  unfoldable pub handle : ReplayStore Receipt S → Server L → Req → Handler S L
  handle st server req = run st server req (route_of req)
