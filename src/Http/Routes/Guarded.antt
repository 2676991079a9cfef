-- ===== src/Http/Routes/Guarded.antt =====
-- What guards the routes: the shared secret and the rate limiter.
use xahc.Prelude.{◌≡◌, refl, ◌∙◌, Bool, true, false, Option, some}
use xahc.Store.Interface.{ReplayStore}
use xahc.Settle.Effects.{Receipt}
use xahc.Metrics.{rate_limited}
use xahc.Http.Auth.{auth_ok}
use xahc.Http.Request.{
  Req, error, Response, Server, Site, Route, health_route, metrics_route, supported_route,
  pubkey_route, policy_route, status_route, simulate_route, verify_route, settle_route, no_route,
  client_key, mcp_configured,
}
use xahc.Http.Guards.{Handler, send, counted, authorized, limited, decided}
use xahc.Http.Routes.{
  get_metrics, get_pubkey, get_policy_route, get_status, post_simulate, post_verify, post_settle,
  run,
}

-- The routes behind the shared secret.
abbrev pub needs_secret : Route → Bool
needs_secret metrics_route = true
needs_secret status_route = true
needs_secret settle_route = true
needs_secret health_route = false
needs_secret supported_route = false
needs_secret pubkey_route = false
needs_secret policy_route = false
needs_secret simulate_route = false
needs_secret verify_route = false
needs_secret no_route = false

module _ {S L : Type 0} (st : ReplayStore Receipt S) (server : Server L) (req : Req) where
  abbrev pub is_authorized : Bool
  is_authorized = auth_ok server.buffers server.secret req.x402_secret

  authorized-false :
      (k : Handler S L) (s : Site S L)
      → is_authorized ≡ false
      → authorized server req k s ≡ send 401 (error "unauthorized") s
  unfolding authorized
  authorized-false k s h = rw h refl

  pub run_unauthorized :
      (r : Route) (s : Site S L)
      → needs_secret r ≡ true
      → is_authorized ≡ false
      → run st server req r s ≡ send 401 (error "unauthorized") s
  unfolding run get_metrics get_status post_settle
  run_unauthorized metrics_route s p h = authorized-false _ s h
  run_unauthorized status_route s p h = authorized-false _ s h
  run_unauthorized settle_route s p h = authorized-false _ s h
  run_unauthorized health_route s p h = absurd (cc (p))
  run_unauthorized supported_route s p h = absurd (cc (p))
  run_unauthorized pubkey_route s p h = absurd (cc (p))
  run_unauthorized policy_route s p h = absurd (cc (p))
  run_unauthorized simulate_route s p h = absurd (cc (p))
  run_unauthorized verify_route s p h = absurd (cc (p))
  run_unauthorized no_route s p h = absurd (cc (p))

  -- Whether a route asks the rate limiter, once its own checks pass.
  abbrev pub asks_limiter : Route → Bool
  asks_limiter pubkey_route = true
  asks_limiter policy_route = true
  asks_limiter verify_route = true
  asks_limiter status_route = is_authorized
  asks_limiter settle_route = is_authorized
  asks_limiter simulate_route = mcp_configured server.env.mcp
  asks_limiter health_route = false
  asks_limiter metrics_route = false
  asks_limiter supported_route = false
  asks_limiter no_route = false

  -- The response to a request over the limit, and what it changes: the limiter and its counter.
  abbrev pub over_limit : Site S L → Option Response × Site S L
  over_limit s = (
    some (record { status = 429; content = error "rate limited" }),
    counted rate_limited
        (record s { limits = (server.limiter (client_key server req) s.limits).1 }),
  )

  decided-false :
      (k : Handler S L) (s : Site S L) (d : Bool × L)
      → d.0 ≡ false
      → decided k s d
        ≡ send 429 (error "rate limited") (counted rate_limited (record s { limits = d.1 }))
  unfolding decided
  decided-false k s (true, l) h = absurd (cc (h))
  decided-false k s (false, l) h = refl

  limited_denied :
      (k : Handler S L) (s : Site S L)
      → (server.limiter (client_key server req) s.limits).0 ≡ false
      → limited server req k s ≡ over_limit s
  unfolding limited send
  limited_denied k s h = decided-false k s (server.limiter (client_key server req) s.limits) h

  pub authorized-true :
      (k : Handler S L) (s : Site S L) → is_authorized ≡ true → authorized server req k s ≡ k s
  unfolding authorized
  authorized-true k s h = rw h refl

  pub run_limited :
      (r : Route) (s : Site S L)
      → asks_limiter r ≡ true
      → (server.limiter (client_key server req) s.limits).0 ≡ false
      → run st server req r s ≡ over_limit s
  unfolding run get_pubkey get_policy_route get_status post_simulate post_verify post_settle
  run_limited pubkey_route s p h = limited_denied _ s h
  run_limited policy_route s p h = limited_denied _ s h
  run_limited verify_route s p h = limited_denied _ s h
  run_limited status_route s p h = authorized-true _ s p ∙ limited_denied _ s h
  run_limited settle_route s p h = authorized-true _ s p ∙ limited_denied _ s h
  run_limited simulate_route s p h = rw p (limited_denied _ s h)
  run_limited health_route s p h = absurd (cc (p))
  run_limited metrics_route s p h = absurd (cc (p))
  run_limited supported_route s p h = absurd (cc (p))
  run_limited no_route s p h = absurd (cc (p))
