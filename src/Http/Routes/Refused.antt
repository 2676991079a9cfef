-- ===== src/Http/Routes/Refused.antt =====
-- When the server answers 401, and when 429, among all requests.
use xahc.Prelude.{
  ℕ, ◌≡◌, ◌↔◌, ◌⊎◌, refl, sym, ap, ◌∙◌, Bool, true, false, Option, some, Bool-cases, inl, inr,
  arith,
}
use xahc.Prelude.Text.{codes}
use xahc.Prelude.Search.{matches_word}
use xahc.Store.Interface.{ReplayStore}
use xahc.Settle.Effects.{Receipt}
use xahc.Http.Request.{
  Req, Server, Site, Route, health_route, metrics_route, supported_route, pubkey_route,
  policy_route, status_route, simulate_route, verify_route, settle_route, no_route, route_of,
  client_key, mcp_configured,
}
use xahc.Http.Guards.{Handler, send, authorized, limited, decided}
use xahc.Http.Routes.{
  get_health, get_metrics, get_pubkey, get_policy_route, policy_for, get_status, status_for,
  post_simulate, simulate_body, post_verify, post_settle, settle_body, run, handle,
}
use xahc.Http.Routes.Inner.{
  status_of, inner, Inner, send-Inner, with_body-Inner, with_uri-Inner, policy_for-Inner,
  status_for-Inner, simulate_body-Inner, verify_body-Inner, settle_body-Inner,
}
use xahc.Http.Routes.Guarded.{
  needs_secret, is_authorized, asks_limiter, run_unauthorized, run_limited,
}

apart {ℓ} : {A : Type ℓ} (o : Option ℕ) → o ≡ some 401 → o ≡ some 429 → A
apart o h g = let same = sym h ∙ g in absurd (ground (arith, same))

module _ {S L : Type 0} (st : ReplayStore Receipt S) (server : Server L) (req : Req) where
  abbrev pub is_allowed : Site S L → Bool
  is_allowed s = (server.limiter (client_key server req) s.limits).0

  abbrev authentic : Bool
  authentic = is_authorized st server req

  -- What may become of a request to a route.
  abbrev Verdict : Route → Site S L → Type 0
  Verdict r s =
      ((needs_secret r ≡ true) × (authentic ≡ false))
      ⊎ (((asks_limiter st server req r ≡ true) × (is_allowed s ≡ false))
          ⊎ (inner (status_of (run st server req r s).0) ≡ true))

  decided-Inner :
      (k : Handler S L) (s : Site S L) (d : Bool × L)
      → Inner k
      → d.0 ≡ true
      → inner (status_of (decided k s d).0) ≡ true
  unfolding decided
  decided-Inner k s (true, l) q h = q (record s { limits = l })
  decided-Inner k s (false, l) q h = absurd (cc (h))

  limited-Inner :
      (k : Handler S L) (s : Site S L)
      → Inner k
      → (is_allowed s ≡ false) ⊎ (inner (status_of (limited server req k s).0) ≡ true)
  unfolding limited
  limited-Inner k s q = elim (Bool-cases (is_allowed s)) [
    | inl e ↦ inr (decided-Inner k s (server.limiter (client_key server req) s.limits) q e)
    | inr e ↦ inl e
  ]

  -- A route that asks the limiter.
  asking :
      (r : Route) (s : Site S L)
      → asks_limiter st server req r ≡ true
      → (is_allowed s ≡ false) ⊎ (inner (status_of (run st server req r s).0) ≡ true)
      → Verdict r s
  asking r s a (inl d) = inr (inl (a, d))
  asking r s a (inr i) = inr (inr i)

  run_verdict : (r : Route) (s : Site S L) → Verdict r s
  unfolding run get_health get_metrics get_pubkey get_policy_route get_status post_simulate
      post_verify post_settle authorized
  run_verdict health_route s = inr (inr (send-Inner _ _ refl s))
  run_verdict metrics_route s = elim (Bool-cases authentic) [
    | inr e ↦ inl (refl, e)
    | inl e ↦ inr (
        inr (elim (Bool-cases (matches_word (codes "text/plain") req.accept)) [
          | inl m ↦ rw (e, m) (send-Inner _ _ refl s)
          | inr m ↦ rw (e, m) (send-Inner _ _ refl s)
        ]))
  ]
  run_verdict supported_route s = inr (inr (send-Inner _ _ refl s))
  run_verdict pubkey_route s = asking pubkey_route s refl (limited-Inner _ s (send-Inner _ _ refl))
  run_verdict policy_route s = asking policy_route s refl (
      limited-Inner _ s
        (with_uri-Inner server "/policy/" req (policy_for server) (policy_for-Inner server)))
  run_verdict status_route s = elim (Bool-cases authentic) [
    | inr e ↦ inl (refl, e)
    | inl e ↦ asking status_route s e (
        rw e (
          limited-Inner _ s (
            with_uri-Inner server "/status/" req (status_for st server)
              (status_for-Inner st server))))
  ]
  run_verdict simulate_route s = elim (Bool-cases (mcp_configured server.env.mcp)) [
    | inl e ↦ asking simulate_route s e (
        rw e (
          limited-Inner _ s
            (with_body-Inner server req (simulate_body server) (simulate_body-Inner server))))
    | inr e ↦ inr (inr (rw e (send-Inner _ _ refl s)))
  ]
  run_verdict verify_route s =
      asking verify_route s refl
        (limited-Inner _ s (with_body-Inner server req _ (verify_body-Inner server)))
  run_verdict settle_route s = elim (Bool-cases authentic) [
    | inr e ↦ inl (refl, e)
    | inl e ↦ asking settle_route s e (
        rw e (
          limited-Inner _ s
            (with_body-Inner server req (settle_body st server) (settle_body-Inner st server))))
  ]
  run_verdict no_route s = inr (inr (send-Inner _ _ refl s))

  -- The routes that refuse do so by their own status.
  status_401 :
      (r : Route) (s : Site S L)
      → needs_secret r ≡ true
      → authentic ≡ false
      → status_of (run st server req r s).0 ≡ some 401
  unfolding send
  status_401 r s p h = ap (λ x. status_of x.0) (run_unauthorized st server req r s p h)

  status_429 :
      (r : Route) (s : Site S L)
      → asks_limiter st server req r ≡ true
      → is_allowed s ≡ false
      → status_of (run st server req r s).0 ≡ some 429
  status_429 r s p h = ap (λ x. status_of x.0) (run_limited st server req r s p h)

  -- Among all requests, the server answers 401 to exactly those to /metrics, /status or /settle that do not
  -- pass the check of the shared secret.
  pub handle_unauthorized_iff :
      (s : Site S L)
      → (status_of (handle st server req s).0 ≡ some 401)
        ↔ ((needs_secret (route_of req) ≡ true) × (authentic ≡ false))
  unfolding handle
  handle_unauthorized_iff s = (
    λ h. elim (run_verdict (route_of req) s) [
      | inl v ↦ v
      | inr (inl (a, d)) ↦ apart _ h (status_429 (route_of req) s a d)
      | inr (inr i) ↦ absurd (cc (rw h at i))
    ],
    λ v. status_401 (route_of req) s v.0 v.1,
  )

  -- Among all requests, the server answers 429 to exactly those that the rate limiter refuses, on a route
  -- that asks it: /pubkey, /policy, /verify, /status and /settle with the secret, and /simulate where it is
  -- configured.
  pub handle_limited_iff :
      (s : Site S L)
      → (status_of (handle st server req s).0 ≡ some 429)
        ↔ ((asks_limiter st server req (route_of req) ≡ true) × (is_allowed s ≡ false))
  unfolding handle
  handle_limited_iff s = (
    λ h. elim (run_verdict (route_of req) s) [
      | inl v ↦ apart _ (status_401 (route_of req) s v.0 v.1) h
      | inr (inl v) ↦ v
      | inr (inr i) ↦ absurd (cc (rw h at i))
    ],
    λ v. status_429 (route_of req) s v.0 v.1,
  )
