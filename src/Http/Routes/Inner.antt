-- ===== src/Http/Routes/Inner.antt =====
-- What the handlers behind the secret and the rate limiter answer: never the responses of these two.
use xahc.Prelude.{
  not, ◌&&◌, ℕ, String, length, ◌==◌, ◌≡◌, refl, Bool, true, Option, none, some, Bool-cases,
  Option-cases, inl, inr,
}
use xahc.Prelude.Text.{Text}
use xahc.Js.{Value, str}
use xahc.Libs.{is_valid_r_address}
use xahc.Verify.{verify_exact}
use xahc.Metrics.{verify_calls}
use xahc.Settle.Simulate.{simulate_payment}
use xahc.Store.Interface.{ReplayStore, Answer, answered, failed}
use xahc.Settle.Effects.{
  Receipt, Reply, refused, dry_run, predicted_reject, settled, replayed, escaped, World,
}
use xahc.Http.Body.{Result, parsed, invalid_json, stream_error, already_responded, read_body}
use xahc.Http.Request.{
  Req, simulation, verified, Server, Site, member, last_part, Content, Response, is_retryable,
}
use xahc.Http.Guards.{
  Handler, send, fail, counted, with_body, read_result, with_uri, decoded, with_payment, fields,
}
use xahc.Http.Routes.{
  policy_for, policy_reply, status_for, receipt_reply, looked_up, simulate_body, verify_body,
  settle_reply, settle_body,
}

abbrev pub status_of : Option Response → Option ℕ
status_of none = none
status_of (some r) = some r.status

-- Neither 401 nor 429.
abbrev pub inner : Option ℕ → Bool
inner none = true
inner (some n) = not (n == 401) && not (n == 429)

module _ {S L : Type 0} where
  abbrev pub Inner : Handler S L → Type 0
  Inner k = (s : Site S L) → inner (status_of (k s).0) ≡ true

  read_result-Inner :
      (k : Value → Handler S L) (r : Option Result)
      → ((v : Value) → Inner (k v))
      → Inner (read_result k r)
  unfolding read_result send fail counted
  read_result-Inner k none q s = refl
  read_result-Inner k (some (parsed v)) q s = q v s
  read_result-Inner k (some invalid_json) q s = refl
  read_result-Inner k (some stream_error) q s = refl
  read_result-Inner k (some already_responded) q s = refl

  pub with_body-Inner :
      (server : Server L) (req : Req) (k : Value → Handler S L)
      → ((v : Value) → Inner (k v))
      → Inner (with_body server req k)
  unfolding with_body
  with_body-Inner server req k q = read_result-Inner k (read_body server.parse req.events) q

  decoded-Inner :
      (k : Text → Handler S L) (o : Option Text) → ((t : Text) → Inner (k t)) → Inner (decoded k o)
  unfolding decoded fail send
  decoded-Inner k none q s = refl
  decoded-Inner k (some t) q s = q t s

  pub with_uri-Inner :
      (server : Server L) (path : String) (req : Req) (k : Text → Handler S L)
      → ((t : Text) → Inner (k t))
      → Inner (with_uri server path req k)
  unfolding with_uri
  with_uri-Inner server path req k q = decoded-Inner k (server.decode_uri (last_part path req)) q

  fields-Inner :
      (k : Value → Value → Handler S L) (o p : Option Value)
      → ((v w : Value) → Inner (k v w))
      → Inner (fields k o p)
  unfolding fields fail send
  fields-Inner k none p q s = refl
  fields-Inner k (some v) none q s = refl
  fields-Inner k (some v) (some w) q s = q v w s

  pub send-Inner : (status : ℕ) (c : Content) → inner (some status) ≡ true → Inner (send status c)
  unfolding send
  send-Inner status c h s = h

  pub policy_for-Inner : (server : Server L) (account : Text) → Inner (policy_for server account)
  unfolding policy_for policy_reply send
  policy_for-Inner server account s =
      elim (Bool-cases (is_valid_r_address server.env.libs (str account))) [
        | inr e ↦ rw e refl
        | inl e ↦ elim (Bool-cases server.env.wss) [
          | inr e' ↦ rw (e, e') refl
          | inl e' ↦ elim (Option-cases server.policy_client) [
            | inl e'' ↦ rw (e, e', e'') refl
            | inr (client, e'') ↦ rw (e, e', e'') refl
          ]
        ]
      ]

  looked_up-Inner :
      (s : Site S L) (a : Answer (Option Receipt) × S) → inner (status_of (looked_up s a).0) ≡ true
  unfolding looked_up receipt_reply send
  looked_up-Inner s (failed, store) = refl
  looked_up-Inner s (answered none, store) = refl
  looked_up-Inner s (answered (some r), store) = refl

  pub status_for-Inner :
      (st : ReplayStore Receipt S) (server : Server L) (id : Text) → Inner (status_for st server id)
  unfolding status_for send
  status_for-Inner st server id s = elim (Bool-cases (length id == 0)) [
    | inl e ↦ rw e refl
    | inr e ↦ rw e (looked_up-Inner s (st.get_receipt id server.env.now s.world.store))
  ]

  pub simulate_body-Inner : (server : Server L) (v : Value) → Inner (simulate_body server v)
  unfolding simulate_body with_payment
  simulate_body-Inner server v =
      fields-Inner (λ p r. send 200 (simulation (simulate_payment server.env.mcp)))
        (member "paymentPayload" v) (member "paymentRequirements" v)
        (λ p r s. send-Inner _ _ refl s)

  pub verify_body-Inner : (server : Server L) (v : Value) → Inner (verify_body server v)
  unfolding verify_body with_payment counted
  verify_body-Inner server v s =
      fields-Inner
        (λ p r. send 200 (verified (verify_exact server.env.libs server.env.network p r)))
        (member "paymentPayload" v) (member "paymentRequirements" v)
        (λ p r s. send-Inner _ _ refl s) (counted verify_calls s)

  settle_reply-Inner :
      (s : Site S L) (out : Reply × World S) → inner (status_of (settle_reply s out).0) ≡ true
  unfolding settle_reply send fail
  settle_reply-Inner s (escaped, w) = refl
  settle_reply-Inner s (refused r, w) = elim (Bool-cases (is_retryable (refused r))) [
    | inl e ↦ rw e refl
    | inr e ↦ rw e refl
  ]
  settle_reply-Inner s (dry_run p sim, w) = refl
  settle_reply-Inner s (predicted_reject p sim, w) = refl
  settle_reply-Inner s (settled r, w) = refl
  settle_reply-Inner s (replayed r, w) = refl

  pub settle_body-Inner :
      (st : ReplayStore Receipt S) (server : Server L) (v : Value) → Inner (settle_body st server v)
  unfolding settle_body with_payment
  settle_body-Inner st server v =
      fields-Inner _ (member "paymentPayload" v) (member "paymentRequirements" v)
        (λ p r s. settle_reply-Inner s _)
