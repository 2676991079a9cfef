-- ===== src/Demo/Facilitator/Mirrors.antt =====
-- What the launcher has in common with the server, where facilitator-testnet.mjs says that it mirrors
-- server.mjs.
use xahc.Prelude.{
  ℕ, ◌+◌, ◌*◌, ◌≡◌, refl, ap, Option, none, some, List, [], ◌∷◌, ◌++◌, ltb, ◌==◌, length,
  Bool-cases, Option-cases, inl, inr,
}
use xahc.Prelude.Text.{Text}
use xahc.Http.Auth
use xahc.Http.Auth.{Buffers}
use xahc.Http.Body
use xahc.Http.Body.{Event, on_data, on_end, on_error, Parser, Result}
use xahc.Demo.Facilitator.{
  Outcome, parsed, too_large, invalid_json, stream_error, Reader, text_outcome, auth_ok, on_event,
  read_from, read_body,
}

-- The launcher rejects where the server answers 413.
abbrev pub outcome_of : Result → Outcome
outcome_of (Body.parsed v) = parsed v
outcome_of Body.invalid_json = invalid_json
outcome_of Body.stream_error = stream_error
outcome_of Body.already_responded = too_large

abbrev pub outcome_if : Option Result → Option Outcome
outcome_if none = none
outcome_if (some r) = some (outcome_of r)

-- The two readers of one stream: the same chunks while both read, the same outcome from then on.
abbrev Same : Body.Reader → Reader → Type 0
Same (Body.reading bytes n) r = (r.chunks ≡ bytes) × (r.size ≡ n) × (r.outcome ≡ none)
Same (Body.settled x) r = r.outcome ≡ some (outcome_of x)

on_event-settled :
    (parse : Parser) (e : Event) (x : Result) (r : Reader)
    → Same (Body.settled x) r
    → Same (Body.settled x) (on_event parse e r)
unfolding on_event
on_event-settled parse (on_data c) x r h = elim (Bool-cases (ltb (64 * 1024) (r.size + length c))) [
  | inl e ↦ rw (e, h) refl
  | inr e ↦ rw (e, h) refl
]
on_event-settled parse on_end x r h = rw h refl
on_event-settled parse on_error x r h = rw h refl

text_same :
    (parse : Parser) (bytes : List ℕ)
    → text_outcome parse bytes ≡ outcome_of (Body.result_of parse bytes)
unfolding Body.result_of text_outcome
text_same parse [] = refl
text_same parse (b ∷ bytes) = elim (Option-cases (parse (b ∷ bytes))) [
  | inl e ↦ rw e refl
  | inr (v, e) ↦ rw e refl
]

on_event-Same :
    (parse : Parser) (e : Event) (x : Body.Reader) (r : Reader)
    → Same x r
    → Same (Body.on_event parse e x) (on_event parse e r)
unfolding on_event Body.on_event
on_event-Same parse e (Body.settled x) r h = on_event-settled parse e x r h
on_event-Same parse (on_data c) (Body.reading bytes n) r (hc, hs, ho) =
    elim (Bool-cases (ltb (64 * 1024) (n + length c))) [
      | inl e ↦ rw (hs, e, ho) refl
      | inr e ↦ rw (hs, e) (ap (λ t. t ++ c) hc, refl, ho)
    ]
on_event-Same parse on_end (Body.reading bytes n) r (hc, hs, ho) =
    rw (ho, hc, text_same parse bytes) refl
on_event-Same parse on_error (Body.reading bytes n) r (hc, hs, ho) = rw ho refl

read_from-Same :
    (parse : Parser) (es : List Event) (x : Body.Reader) (r : Reader)
    → Same x r
    → Same (Body.read_from parse es x) (read_from parse es r)
unfolding read_from Body.read_from
read_from-Same parse [] x r h = h
read_from-Same parse (e ∷ es) x r h =
    read_from-Same parse es (Body.on_event parse e x) (on_event parse e r)
      (on_event-Same parse e x r h)

Same-finished : (x : Body.Reader) (r : Reader) → Same x r → r.outcome ≡ outcome_if (Body.finished x)
unfolding Body.finished
Same-finished (Body.reading bytes n) r h = h.2
Same-finished (Body.settled x) r h = h

-- Whatever events a request's stream brings, the reader of the launcher comes to what the server's
-- comes to, with a rejection where the server has answered 413.
pub read_body-mirrors :
    (parse : Parser) (es : List Event) → read_body parse es ≡ outcome_if (Body.read_body parse es)
unfolding read_body Body.read_body
read_body-mirrors parse es = Same-finished _ _ (read_from-Same parse es _ _ (refl, refl, refl))

-- authOk of the launcher is the server's.
pub auth_ok-mirrors :
    (buffers : Buffers) (secret : Text) (provided : Option Text)
    → auth_ok buffers secret provided ≡ Auth.auth_ok buffers secret provided
unfolding auth_ok Auth.auth_ok
auth_ok-mirrors buffers secret none = elim (Bool-cases (length secret == 0)) [
  | inl e ↦ rw e refl
  | inr e ↦ rw e refl
]
auth_ok-mirrors buffers secret (some t) = elim (Bool-cases (length secret == 0)) [
  | inl e ↦ rw e refl
  | inr e ↦ rw e refl
]
