-- ===== src/Http/Routes/Quiet.antt =====
-- The handlers that submit nothing.
use xahc.Prelude.{
  ℕ, String, length, ◌==◌, ◌≡◌, ◌≢◌, refl, Bool, true, false, Option, none, some, Bool-cases,
  Option-cases, inl, inr,
}
use xahc.Prelude.Text.{Text, codes}
use xahc.Js.{Value, str}
use xahc.Libs.{is_valid_r_address}
use xahc.Verify.{verify_exact}
use xahc.Metrics.{verify_calls}
use xahc.Settle.Simulate.{simulate_payment}
use xahc.Prelude.Search.{matches_word}
use xahc.Store.Interface.{ReplayStore, Answer, answered, failed}
use xahc.Settle.Effects.{Receipt}
use xahc.Http.Auth.{auth_ok}
use xahc.Http.Body.{Result, parsed, invalid_json, stream_error, already_responded, read_body}
use xahc.Http.Request.{
  Req, error, simulation, verified, mcp_configured, Server, Site, Route, health_route,
  metrics_route, supported_route, pubkey_route, policy_route, status_route, simulate_route,
  verify_route, settle_route, no_route, client_key, member, last_part, Content,
}
use xahc.Http.Guards.{
  Handler, send, fail, counted, authorized, limited, decided, with_body, read_result, with_uri,
  decoded, with_payment, fields,
}
use xahc.Http.Routes.{
  get_health, get_metrics, get_pubkey, get_policy_route, policy_for, policy_reply, get_status,
  status_for, receipt_reply, looked_up, post_simulate, simulate_body, post_verify, verify_body, run,
}

module _ {S L : Type 0} where
  -- Nothing is submitted.
  abbrev pub Quiet : Handler S L → Type 0
  Quiet k = (s : Site S L) → (k s).1.world.submitted ≡ s.world.submitted

  authorized-Quiet :
      (server : Server L) (req : Req) (k : Handler S L) → Quiet k → Quiet (authorized server req k)
  unfolding authorized send
  authorized-Quiet server req k q s =
      elim (Bool-cases (auth_ok server.buffers server.secret req.x402_secret)) [
        | inl e ↦ rw e (q s)
        | inr e ↦ rw e refl
      ]

  decided-Quiet :
      (k : Handler S L)
      → Quiet k
      → (s : Site S L) (d : Bool × L) → (decided k s d).1.world.submitted ≡ s.world.submitted
  unfolding decided send counted
  decided-Quiet k q s (true, l) = q (record s { limits = l })
  decided-Quiet k q s (false, l) = refl

  limited-Quiet :
      (server : Server L) (req : Req) (k : Handler S L) → Quiet k → Quiet (limited server req k)
  unfolding limited
  limited-Quiet server req k q s =
      decided-Quiet k q s (server.limiter (client_key server req) s.limits)

  read_result-Quiet :
      (k : Value → Handler S L) (r : Option Result)
      → ((v : Value) → Quiet (k v))
      → Quiet (read_result k r)
  unfolding read_result send fail counted
  read_result-Quiet k none q s = refl
  read_result-Quiet k (some (parsed v)) q s = q v s
  read_result-Quiet k (some invalid_json) q s = refl
  read_result-Quiet k (some stream_error) q s = refl
  read_result-Quiet k (some already_responded) q s = refl

  with_body-Quiet :
      (server : Server L) (req : Req) (k : Value → Handler S L)
      → ((v : Value) → Quiet (k v))
      → Quiet (with_body server req k)
  unfolding with_body
  with_body-Quiet server req k q = read_result-Quiet k (read_body server.parse req.events) q

  decoded-Quiet :
      (k : Text → Handler S L) (o : Option Text) → ((t : Text) → Quiet (k t)) → Quiet (decoded k o)
  unfolding decoded fail send
  decoded-Quiet k none q s = refl
  decoded-Quiet k (some t) q s = q t s

  with_uri-Quiet :
      (server : Server L) (path : String) (req : Req) (k : Text → Handler S L)
      → ((t : Text) → Quiet (k t))
      → Quiet (with_uri server path req k)
  unfolding with_uri
  with_uri-Quiet server path req k q = decoded-Quiet k (server.decode_uri (last_part path req)) q

  fields-Quiet :
      (k : Value → Value → Handler S L) (o p : Option Value)
      → ((v w : Value) → Quiet (k v w))
      → Quiet (fields k o p)
  unfolding fields fail send
  fields-Quiet k none p q s = refl
  fields-Quiet k (some v) none q s = refl
  fields-Quiet k (some v) (some w) q s = q v w s

  send-Quiet : (status : ℕ) (c : Content) → Quiet (send status c)
  unfolding send
  send-Quiet status c s = refl

  policy_for-Quiet : (server : Server L) (account : Text) → Quiet (policy_for server account)
  unfolding policy_for policy_reply send
  policy_for-Quiet server account s =
      elim (Bool-cases (is_valid_r_address server.env.libs (str account))) [
        | inr e ↦ rw e refl
        | inl e ↦ elim (Bool-cases server.env.wss) [
          | inr e' ↦ rw (e, e') refl
          | inl e' ↦ elim (Option-cases server.policy_client) [
            | inl e'' ↦ rw (e, e', e'') refl
            | inr (client, e'') ↦ rw (e, e', e'') refl
          ]
        ]
      ]

  looked_up-Quiet :
      (s : Site S L) (a : Answer (Option Receipt) × S)
      → (looked_up s a).1.world.submitted ≡ s.world.submitted
  unfolding looked_up receipt_reply send
  looked_up-Quiet s (failed, store) = refl
  looked_up-Quiet s (answered none, store) = refl
  looked_up-Quiet s (answered (some r), store) = refl

  status_for-Quiet :
      (st : ReplayStore Receipt S) (server : Server L) (id : Text) → Quiet (status_for st server id)
  unfolding status_for send
  status_for-Quiet st server id s = elim (Bool-cases (length id == 0)) [
    | inl e ↦ rw e refl
    | inr e ↦ rw e (looked_up-Quiet s (st.get_receipt id server.env.now s.world.store))
  ]

  simulate_body-Quiet : (server : Server L) (v : Value) → Quiet (simulate_body server v)
  unfolding simulate_body with_payment
  simulate_body-Quiet server v =
      fields-Quiet (λ p r. send 200 (simulation (simulate_payment server.env.mcp)))
        (member "paymentPayload" v) (member "paymentRequirements" v) (λ p r s. send-Quiet _ _ s)

  post_simulate-Quiet : (server : Server L) (req : Req) → Quiet (post_simulate server req)
  unfolding post_simulate
  post_simulate-Quiet server req s =
      let k = with_body server req (simulate_body server) in
      let q = with_body-Quiet server req (simulate_body server) (simulate_body-Quiet server) in
      elim (Bool-cases (mcp_configured server.env.mcp)) [
        | inl e ↦ rw e (limited-Quiet server req k q s)
        | inr e ↦ rw e (send-Quiet 404 (error "simulation not enabled (set X402_MCP_URL)") s)
      ]

  verify_body-Quiet : (server : Server L) (v : Value) → Quiet (verify_body server v)
  unfolding verify_body with_payment counted
  verify_body-Quiet server v s =
      fields-Quiet
        (λ p r. send 200 (verified (verify_exact server.env.libs server.env.network p r)))
        (member "paymentPayload" v) (member "paymentRequirements" v) (λ p r s. send-Quiet _ _ s)
        (counted verify_calls s)

  get_metrics-Quiet : (server : Server L) (req : Req) → Quiet (get_metrics server req)
  unfolding get_metrics send
  get_metrics-Quiet server req = authorized-Quiet server req _ (λ s.
      elim (Bool-cases (matches_word (codes "text/plain") req.accept)) [
        | inl e ↦ rw e refl
        | inr e ↦ rw e refl
      ])

  module _ (st : ReplayStore Receipt S) (server : Server L) (req : Req) where
    -- The routes that submit nothing.
    pub run-Quiet : (r : Route) → r ≢ settle_route → Quiet (run st server req r)
    unfolding run get_health get_pubkey get_policy_route get_status post_verify
    run-Quiet health_route n = send-Quiet _ _
    run-Quiet metrics_route n = get_metrics-Quiet server req
    run-Quiet supported_route n = send-Quiet _ _
    run-Quiet pubkey_route n = limited-Quiet server req _ (send-Quiet _ _)
    run-Quiet policy_route n =
        limited-Quiet server req _
          (with_uri-Quiet server "/policy/" req (policy_for server) (policy_for-Quiet server))
    run-Quiet status_route n = authorized-Quiet server req _ (
        limited-Quiet server req _ (
          with_uri-Quiet server "/status/" req (status_for st server) (status_for-Quiet st server)))
    run-Quiet simulate_route n = post_simulate-Quiet server req
    run-Quiet verify_route n =
        limited-Quiet server req _ (with_body-Quiet server req _ (verify_body-Quiet server))
    run-Quiet settle_route n = absurd (n refl)
    run-Quiet no_route n = send-Quiet _ _
