-- ===== src/Demo/Facilitator/Serves.antt =====
-- The launcher settles as the server does: one request to /settle, sent to both.
use xahc.Prelude.{
  ℕ, ◌≡◌, refl, sym, ap, ltb, ◌==◌, arith, ◌∙◌, Bool, true, false, Option, none, some, Option-cases,
  Bool-cases, inl, inr,
}
use xahc.Prelude.Text.{codes, text_eq}
use xahc.Message.{ok}
use xahc.Js.{Value, prop, or_else, to_number, Number, nat, other}
use xahc.Node.{Node, positive, ledger, current_validated_ledger}
use xahc.Store.Interface.{ReplayStore}
use xahc.Settle.{settle}
use xahc.Settle.Effects.{
  Receipt, Reply, refused, dry_run, predicted_reject, settled, replayed, escaped, Env, World,
}
use xahc.Http.Auth
use xahc.Http.Body
use xahc.Http.Request
use xahc.Http.Request.{Req, Server, Site, settle_route, route_of, is_true, client_key, member}
use xahc.Http.Guards
use xahc.Http.Routes
use xahc.Demo.Facilitator.{
  Launcher, Content, error, verified_as, settlement, Response, fetch_ledger, index_read, index_of,
  injected, injected_settle, send, internal_error, read_result, with_body, fields, with_payment,
  settle_reply, settle_with, client_of, settle_body, post_settle, handle,
}
use xahc.Demo.Facilitator.Mirrors.{read_body-mirrors, auth_ok-mirrors}

-- The launcher with the configuration of a server, and a node.
abbrev pub launcher_of : {L : Type 0} → Server L → Node → Launcher
launcher_of server node = record {
  buffers = server.buffers;
  secret = server.secret;
  parse = server.parse;
  pooled = none;
  dial = some node;
  env = server.env;
}

-- A content that both show.
abbrev pub content_of : Request.Content → Option Content
content_of (Request.error m) = some (error m)
content_of (Request.verified c) = some (verified_as c)
content_of (Request.settlement r) = some (settlement r)
content_of (Request.health h) = none
content_of (Request.prometheus t) = none
content_of (Request.counters cs) = none
content_of (Request.supported t) = none
content_of (Request.pubkey t) = none
content_of (Request.policy r) = none
content_of (Request.policy_unavailable t) = none
content_of (Request.found r) = none
content_of Request.unknown = none
content_of Request.store_unavailable = none
content_of (Request.simulation s) = none

abbrev Answer : Type 0
Answer = Option (ℕ × Option Content)

abbrev response_of : Option Request.Response → Answer
response_of none = none
response_of (some r) = some (r.status, content_of r.content)

abbrev own_response : Option Response → Answer
own_response none = none
own_response (some r) = some (r.status, some r.content)

abbrev pub by_server : {S L : Type 0} → Option Request.Response × Site S L → Answer × World S
by_server (r, s) = (response_of r, s.world)

abbrev pub by_launcher : {S : Type 0} → Option Response × World S → Answer × World S
by_launcher (r, w) = (own_response r, w)

index_of-positive : (n : Number) → index_of n ≡ positive n
unfolding index_of positive
index_of-positive other = refl
index_of-positive (nat n) = elim (Bool-cases (n == 0)) [
  | inl e ↦ let none_below : ltb 0 n ≡ false = ground (arith, e) in rw (e, none_below) refl
  | inr e ↦ let below : ltb 0 n ≡ true = ground (arith, e) in rw (e, below) refl
]

-- The two fetchers read the same index from the same answer.
fetch_ledger-mirrors : (c : Node) → index_read (fetch_ledger c) ≡ current_validated_ledger c
unfolding fetch_ledger current_validated_ledger to_number positive
fetch_ledger-mirrors c = elim (Option-cases (c ledger)) [
  | inl e ↦ rw (fetch_ledger, e) refl
  | inr (r, e) ↦
      let result = prop "result" r in
      let index =
        or_else (prop "ledger_index" result) (prop "ledger_index" (prop "ledger" result)) in
      rw (fetch_ledger, e) (index_of-positive (to_number index))
]

same_ledger : ◌≡◌ {A = Node → Option ℕ} (λ c. index_read (fetch_ledger c)) current_validated_ledger
same_ledger i c = fetch_ledger-mirrors c i

same_env :
    (e : Env) (node : Node) (b c : Bool)
    → e.wss ≡ true
    → e.client ≡ ok node
    → b ≡ false
    → c ≡ false
    → ◌≡◌ {A = Env}
        (record e {
          wss = true;
          client = ok node;
          dry_run = false;
          pre_sim_reject = false;
          get_ledger = λ c. index_read (fetch_ledger c);
        })
        (record e { dry_run = b; pre_sim_reject = c; get_ledger = current_validated_ledger })
same_env e node b c hw hc hb hp = rw (hw, hc, hb, hp, same_ledger) refl

module _ {S L : Type 0} where
  settle_reply-same :
      (s : Site S L) (out : Reply × World S)
      → by_launcher (settle_reply out) ≡ by_server (Routes.settle_reply s out)
  unfolding settle_reply Routes.settle_reply send Guards.send internal_error Guards.fail
  settle_reply-same s (refused r, w) = refl
  settle_reply-same s (dry_run payer sim, w) = refl
  settle_reply-same s (predicted_reject payer sim, w) = refl
  settle_reply-same s (settled r, w) = refl
  settle_reply-same s (replayed r, w) = refl
  settle_reply-same s (escaped, w) = refl

  decided-passes :
      (k : Guards.Handler S L) (s : Site S L) (d : Bool × L)
      → d.0 ≡ true
      → Guards.decided k s d ≡ k (record s { limits = d.1 })
  unfolding Guards.decided
  decided-passes k s (true, l) h = refl
  decided-passes k s (false, l) h = cc (h)

  module _ (st : ReplayStore Receipt S) (server : Server L) (node : Node) (req : Req) where
    injected_settle-read :
        (payload requirements : Value) (w : World S) (index : Option ℕ)
        → fetch_ledger node ≡ some index
        → injected_settle st (launcher_of server node) node payload requirements w
          ≡ settle st (injected (launcher_of server node) node) payload requirements w
    unfolding injected_settle
    injected_settle-read payload requirements w index h = rw (injected_settle, h) refl

    fields-same :
        (o p : Option Value) (f : Env) (s : Site S L)
        → injected (launcher_of server node) node ≡ f
        → (index : Option ℕ) → fetch_ledger node ≡ some index
        → by_launcher (
            fields
              (λ payload req w.
                settle_reply (injected_settle st (launcher_of server node) node payload req w))
              o
              p
              s.world)
          ≡ by_server (
              Guards.fields
                (λ payload requirements s.
                  Routes.settle_reply s (settle st f payload requirements s.world))
                o
                p
                s)
    unfolding fields Guards.fields internal_error send Guards.fail Guards.send
    fields-same none p f s e index h = refl
    fields-same (some v) none f s e index h = refl
    fields-same (some v) (some r) f s e index h =
        ap (λ out. by_launcher (settle_reply out))
          (injected_settle-read v r s.world index h ∙ ap (λ x. settle st x v r s.world) e)
        ∙ settle_reply-same s (settle st f v r s.world)

    -- Both settle one body alike.
    body-same :
        (b : Value) (s : Site S L) (index : Option ℕ)
        → server.env.wss ≡ true
        → server.env.client ≡ ok node
        → fetch_ledger node ≡ some index
        → is_true (prop "dryRun" b) ≡ false
        → is_true (prop "preSimReject" b) ≡ false
        → by_launcher (settle_body st (launcher_of server node) b s.world)
          ≡ by_server (Routes.settle_body st server b s)
    unfolding settle_body settle_with client_of Routes.settle_body with_payment Guards.with_payment
        injected
    body-same b s index hw hc h hb hp =
        fields-same (member "paymentPayload" b) (member "paymentRequirements" b) _ s
          (same_env server.env node (is_true (prop "dryRun" b)) (is_true (prop "preSimReject" b)) hw
            hc hb hp)
          index h

    post-same :
        (b : Value) (s : Site S L)
        → (server.limiter (client_key server req) s.limits).0 ≡ true
        → Body.read_body server.parse req.events ≡ some (Body.parsed b)
        → ((t : Site S L)
            → by_launcher (settle_body st (launcher_of server node) b t.world)
              ≡ by_server (Routes.settle_body st server b t))
        → by_launcher (post_settle st (launcher_of server node) req s.world)
          ≡ by_server (Routes.post_settle st server req s)
    unfolding post_settle Routes.post_settle Guards.authorized Guards.limited with_body
        Guards.with_body read_result Guards.read_result send Guards.send
    post-same b s hl hr same =
        let own = read_body-mirrors server.parse req.events in
        let auth = auth_ok-mirrors server.buffers server.secret req.x402_secret in
        elim (Bool-cases (Auth.auth_ok server.buffers server.secret req.x402_secret)) [
          | inl e ↦ rw (auth, e, own, hr) (same _ ∙ sym (ap by_server (decided-passes _ s _ hl)))
          | inr e ↦ rw (auth, e) refl
        ]

    at_settle :
        req.method ≡ codes "POST"
        → req.url ≡ codes "/settle"
        → (route_of req ≡ settle_route)
          × (handle st (launcher_of server node) req ≡ post_settle st (launcher_of server node) req)
    unfolding route_of text_eq handle
    at_settle hm hu = (rw (hm, hu) refl, rw (hm, hu) refl)

    -- A request to /settle that the limiter of the server lets through, whose body is JSON without the
    -- flags dryRun and preSimReject: where the node answers the question for the ledger, the launcher
    -- responds as the server does and leaves the same store, counters and submissions.
    pub handle-as_server :
        (b : Value) (s : Site S L) (index : Option ℕ)
        → req.method ≡ codes "POST"
        → req.url ≡ codes "/settle"
        → server.env.wss ≡ true
        → server.env.client ≡ ok node
        → fetch_ledger node ≡ some index
        → (server.limiter (client_key server req) s.limits).0 ≡ true
        → Body.read_body server.parse req.events ≡ some (Body.parsed b)
        → is_true (prop "dryRun" b) ≡ false
        → is_true (prop "preSimReject" b) ≡ false
        → by_launcher (handle st (launcher_of server node) req s.world)
          ≡ by_server (Routes.handle st server req s)
    unfolding Routes.handle Routes.run
    handle-as_server b s index hm hu hw hc h hl hr hb hp =
        let (at, own) = at_settle hm hu in
        rw (at, own) (post-same b s hl hr (λ t. body-same b t index hw hc h hb hp))
