-- ===== src/Http/Guards.antt =====
-- The steps that the routes of x402-xahau/server.mjs share: send, the shared secret, the rate limiter,
-- the body, and the responses to an exception.
use xahc.Prelude.{ℕ, String, Bool, true, false, Option, none, some, if◌then◌else◌, ◌==◌}
use xahc.Prelude.Text.{Text}
use xahc.Js.{Value}
use xahc.Metrics.{Counter, rate_limited, body_too_large, metric_inc}
use xahc.Http.Auth.{auth_ok}
use xahc.Http.Body.{Result, parsed, invalid_json, stream_error, already_responded, read_body}
use xahc.Http.Request.{Req, Content, error, Response, Server, Site, last_part, member, client_key}

-- What a request comes to: its response, or none while its body does not end.
abbrev pub Handler : Type 0 → Type 0 → Type 0
Handler S L = Site S L → Option Response × Site S L

module _ {S L : Type 0} where
  unfoldable pub send : ℕ → Content → Handler S L
  send status content s = (some (record { status = status; content = content }), s)

  unfoldable pub fail : ℕ → Handler S L
  fail status = send status (error (if status == 500 then "internal error" else "bad request"))

  unfoldable pub counted : Counter → Site S L → Site S L
  counted c s = record s { world = record s.world { metrics = metric_inc c s.world.metrics } }

  unfoldable pub authorized : Server L → Req → Handler S L → Handler S L
  authorized server req k s =
      if auth_ok server.buffers server.secret req.x402_secret
      then k s
      else send 401 (error "unauthorized") s

  unfoldable pub decided : Handler S L → Site S L → Bool × L → Option Response × Site S L
  decided k s (true, l) = k (record s { limits = l })
  decided k s (false, l) =
      send 429 (error "rate limited") (counted rate_limited (record s { limits = l }))

  unfoldable pub limited : Server L → Req → Handler S L → Handler S L
  limited server req k s = decided k s (server.limiter (client_key server req) s.limits)

  unfoldable pub read_result : (Value → Handler S L) → Option Result → Handler S L
  read_result k none s = (none, s)
  read_result k (some (parsed v)) s = k v s
  read_result k (some invalid_json) s = fail 400 s
  read_result k (some stream_error) s = fail 500 s
  read_result k (some already_responded) s =
      send 413 (error "request body too large") (counted body_too_large s)

  unfoldable pub with_body : Server L → Req → (Value → Handler S L) → Handler S L
  with_body server req k = read_result k (read_body server.parse req.events)

  unfoldable pub decoded : (Text → Handler S L) → Option Text → Handler S L
  decoded k none = fail 500
  decoded k (some t) = k t

  unfoldable pub with_uri : Server L → String → Req → (Text → Handler S L) → Handler S L
  with_uri server path req k = decoded k (server.decode_uri (last_part path req))

  unfoldable pub fields : (Value → Value → Handler S L) → Option Value → Option Value → Handler S L
  fields k none requirements = fail 500
  fields k (some payload) none = fail 500
  fields k (some payload) (some requirements) = k payload requirements

  -- b.paymentPayload and b.paymentRequirements
  unfoldable pub with_payment : Value → (Value → Value → Handler S L) → Handler S L
  with_payment b k = fields k (member "paymentPayload" b) (member "paymentRequirements" b)
