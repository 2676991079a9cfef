-- ===== src/Http/Routes/Submits.antt =====
-- Only a settlement submits a transaction.
use xahc.Prelude.{
  ◌≡◌, ◌≢◌, refl, subst, ◌⊎◌, Bool, true, false, Option, none, some, Bool-cases, inl, inr,
}
use xahc.Js.{Value}
use xahc.Store.Interface.{ReplayStore}
use xahc.Settle.Effects.{Receipt}
use xahc.Http.Auth.{auth_ok}
use xahc.Http.Body.{Result, parsed, invalid_json, stream_error, already_responded, read_body}
use xahc.Http.Request.{
  Req, Server, Site, Route, health_route, metrics_route, supported_route, pubkey_route,
  policy_route, status_route, simulate_route, verify_route, settle_route, no_route, route_of,
  client_key,
}
use xahc.Http.Guards.{
  Handler, send, fail, counted, authorized, limited, decided, with_body, read_result,
}
use xahc.Http.Routes.{post_settle, settle_body, run, handle}
use xahc.Http.Routes.Quiet.{run-Quiet}

module _ {S L : Type 0} where
  -- Something is submitted.
  abbrev pub Submits : Handler S L → Site S L → Type 0
  Submits k s = (k s).1.world.submitted ≢ s.world.submitted

  authorized-Submits :
      (server : Server L) (req : Req) (k : Handler S L) (s : Site S L)
      → Submits (authorized server req k) s
      → (auth_ok server.buffers server.secret req.x402_secret ≡ true) × Submits k s
  unfolding authorized send
  authorized-Submits server req k s n =
      elim (Bool-cases (auth_ok server.buffers server.secret req.x402_secret)) [
        | inl e ↦ (e, λ h. n (rw e h))
        | inr e ↦ absurd (n (rw e refl))
      ]

  decided-Submits :
      (k : Handler S L) (s : Site S L) (d : Bool × L)
      → (decided k s d).1.world.submitted ≢ s.world.submitted
      → (d.0 ≡ true) × Submits k (record s { limits = d.1 })
  unfolding decided send counted
  decided-Submits k s (true, l) n = (refl, n)
  decided-Submits k s (false, l) n = absurd (n refl)

  read_result-Submits :
      (k : Value → Handler S L) (r : Option Result) (s : Site S L)
      → Submits (read_result k r) s
      → (v : Value) × (r ≡ some (parsed v)) × Submits (k v) s
  unfolding read_result send fail counted
  read_result-Submits k none s n = absurd (n refl)
  read_result-Submits k (some (parsed v)) s n = (v, refl, n)
  read_result-Submits k (some invalid_json) s n = absurd (n refl)
  read_result-Submits k (some stream_error) s n = absurd (n refl)
  read_result-Submits k (some already_responded) s n = absurd (n refl)

  module _ (st : ReplayStore Receipt S) (server : Server L) (req : Req) where
    -- A request that may submit: to /settle, with the secret, let through by the rate limiter, and
    -- with a body that is JSON.
    pub record IsSettlement (s : Site S L) : Type 0 where
      pub at : route_of req ≡ settle_route
      pub secret : auth_ok server.buffers server.secret req.x402_secret ≡ true
      pub allowed : (server.limiter (client_key server req) s.limits).0 ≡ true
      pub body : Value
      pub read : read_body server.parse req.events ≡ some (parsed body)

    route_is : (r : Route) → (r ≡ settle_route) ⊎ (r ≢ settle_route)
    route_is settle_route = inl refl
    route_is health_route = inr (λ e. cc (e))
    route_is metrics_route = inr (λ e. cc (e))
    route_is supported_route = inr (λ e. cc (e))
    route_is pubkey_route = inr (λ e. cc (e))
    route_is policy_route = inr (λ e. cc (e))
    route_is status_route = inr (λ e. cc (e))
    route_is simulate_route = inr (λ e. cc (e))
    route_is verify_route = inr (λ e. cc (e))
    route_is no_route = inr (λ e. cc (e))

    -- A request that submits reaches settle with its body.
    pub handle-Body :
        (s : Site S L)
        → (handle st server req s).1.world.submitted ≢ s.world.submitted
        → (i : IsSettlement s) × Submits
            (settle_body st server i.body)
            (record s { limits = (server.limiter (client_key server req) s.limits).1 })
    unfolding handle run post_settle limited with_body
    handle-Body s n = elim (route_is (route_of req)) [
      | inl at ↦
          let sent = subst (λ r. Submits (run st server req r) s) at n in
          let body_handler = with_body server req (settle_body st server) in
          let (secret, n₁) =
            authorized-Submits server req (limited server req body_handler) s sent in
          let (allowed, n₂) =
            decided-Submits body_handler s (server.limiter (client_key server req) s.limits) n₁ in
          let (body, read, n₃) =
            read_result-Submits (settle_body st server) (read_body server.parse req.events) _ n₂ in
          (record { at = at; secret = secret; allowed = allowed; body = body; read = read }, n₃)
      | inr d ↦ absurd (n (run-Quiet st server req (route_of req) d s))
    ]

    -- Whatever a request is, it submits a transaction only if it is POST /settle with the shared
    -- secret, the rate limiter lets it through, and its body is read as JSON.
    pub handle-IsSettlement :
        (s : Site S L)
        → (handle st server req s).1.world.submitted ≢ s.world.submitted
        → IsSettlement s
    handle-IsSettlement s n = (handle-Body s n).0
