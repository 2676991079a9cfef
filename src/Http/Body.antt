-- ===== src/Http/Body.antt =====
-- readBody of x402-xahau/server.mjs: a request's body, chunk by chunk, at most MAX_BODY_BYTES long.
use xahc.Prelude.{
  ℕ, ◌+◌, ◌*◌, ◌≤◌, ◌<◌, ◌≡◌, refl, sym, ap, ◌∙◌, Option, none, some, List, [], ◌∷◌, ◌++◌,
  if◌then◌else◌, ltb, length, length-append, lt→ltb, arith, Bool-cases, inl, inr,
}
use mathlib.Core.List.{append-nil, append_assoc}
use xahc.Js.{Value, obj, end}

-- MAX_BODY_BYTES
abbrev pub max_body_bytes : ℕ
max_body_bytes = 64 * 1024

-- The events of the request's stream; a chunk is a list of bytes.
pub data Event : Type 0 where
  on_data : List ℕ → Event
  on_end on_error : Event

-- How the promise of readBody is settled: a value, "invalid JSON" (statusCode 400), the error of the
-- stream, or ALREADY_RESPONDED, after a reply 413.
pub data Result : Type 0 where
  parsed : Value → Result
  invalid_json stream_error already_responded : Result

pub data Reader : Type 0 where
  reading : List ℕ → ℕ → Reader
  settled : Result → Reader

json_of : Option Value → Result
json_of none = invalid_json
json_of (some v) = parsed v

-- JSON.parse of the text in UTF-8: `none` is a text that is no JSON.
abbrev pub Parser : Type 0
Parser = List ℕ → Option Value

unfoldable pub result_of : Parser → List ℕ → Result
unfolding json_of
result_of parse [] = parsed (obj end)
result_of parse (b ∷ bytes) = json_of (parse (b ∷ bytes))

-- One event.
unfoldable pub on_event : Parser → Event → Reader → Reader
on_event parse e (settled r) = settled r
on_event parse (on_data c) (reading chunks size) =
    if ltb max_body_bytes (size + length c)
    then settled already_responded
    else reading (chunks ++ c) (size + length c)
on_event parse on_end (reading chunks size) = settled (result_of parse chunks)
on_event parse on_error (reading chunks size) = settled stream_error

unfoldable pub read_from : Parser → List Event → Reader → Reader
read_from parse [] r = r
read_from parse (e ∷ es) r = read_from parse es (on_event parse e r)

unfoldable pub finished : Reader → Option Result
finished (reading chunks size) = none
finished (settled r) = some r

-- The outcome, if the stream brought one; a promise is settled once.
unfoldable pub read_body : Parser → List Event → Option Result
unfolding finished
read_body parse es = finished (read_from parse es (reading [] 0))

-- The chunks of a body that is sent whole.
abbrev pub sent : List (List ℕ) → List Event
sent [] = on_end ∷ []
sent (c ∷ cs) = let rest = sent cs in on_data c ∷ rest

abbrev pub joined : List (List ℕ) → List ℕ
joined [] = []
joined (c ∷ cs) = let rest = joined cs in c ++ rest

read_from_settled :
    (parse : Parser) (es : List Event) (r : Result) → read_from parse es (settled r) ≡ settled r
unfolding read_from on_event
read_from_settled parse [] r = refl
read_from_settled parse (e ∷ es) r = read_from_settled parse es r

-- What a body sent whole comes to, by its length.
abbrev whole : Parser → List ℕ → Result
whole parse bytes =
    if ltb max_body_bytes (length bytes) then already_responded else result_of parse bytes

whole_long :
    (parse : Parser) (bytes rest : List ℕ)
    → max_body_bytes < length bytes
    → whole parse (bytes ++ rest) ≡ already_responded
whole_long parse bytes rest h =
    let total = length-append bytes rest in
    rw (lt→ltb max_body_bytes (length (bytes ++ rest)) (omega (arith, total, h))) refl

whole_short :
    (parse : Parser) (bytes : List ℕ)
    → length bytes ≤ max_body_bytes
    → whole parse bytes ≡ result_of parse bytes
whole_short parse bytes h = elim (Bool-cases (ltb max_body_bytes (length bytes))) [
  | inl e ↦ absurd (ground (arith, e, h))
  | inr e ↦ rw e refl
]

on_data_long :
    (parse : Parser) (c bytes : List ℕ) (n : ℕ)
    → max_body_bytes < n + length c
    → on_event parse (on_data c) (reading bytes n) ≡ settled already_responded
unfolding on_event
on_data_long parse c bytes n h = rw (lt→ltb max_body_bytes (n + length c) h) refl

on_data_short :
    (parse : Parser) (c bytes : List ℕ) (n : ℕ)
    → n + length c ≤ max_body_bytes
    → on_event parse (on_data c) (reading bytes n) ≡ reading (bytes ++ c) (n + length c)
unfolding on_event
on_data_short parse c bytes n h = elim (Bool-cases (ltb max_body_bytes (n + length c))) [
  | inl e ↦ absurd (ground (arith, e, h))
  | inr e ↦ rw e refl
]

read_from-sent :
    (parse : Parser) (cs : List (List ℕ)) (bytes : List ℕ) (n : ℕ)
    → n ≡ length bytes
    → n ≤ max_body_bytes
    → read_from parse (sent cs) (reading bytes n) ≡ settled (whole parse (bytes ++ joined cs))
unfolding read_from on_event
read_from-sent parse [] bytes n e h = ap settled (
    sym (whole_short parse bytes (omega (arith, e, h))) ∙ ap (whole parse) (sym (append-nil bytes)))
read_from-sent parse (c ∷ cs) bytes n e h =
    let all_of = append_assoc bytes c (joined cs) in
    let size = length-append bytes c in
    elim (Bool-cases (ltb max_body_bytes (n + length c))) [
      | inl l ↦
          let long : max_body_bytes < n + length c = ground (arith, l) in
          ap (read_from parse (sent cs)) (on_data_long parse c bytes n long)
          ∙ read_from_settled parse (sent cs) already_responded
          ∙ ap settled (
              sym (whole_long parse (bytes ++ c) (joined cs) (omega (arith, long, e, size)))
              ∙ ap (whole parse) all_of)
      | inr l ↦
          let short : n + length c ≤ max_body_bytes = ground (arith, l) in
          ap (read_from parse (sent cs)) (on_data_short parse c bytes n short)
          ∙ read_from-sent parse cs (bytes ++ c) (n + length c) (omega (arith, e, size)) short
          ∙ ap (λ t. settled (whole parse t)) all_of
    ]

-- A body that is sent whole, in whatever chunks, is answered by 413 exactly if it is longer than
-- MAX_BODY_BYTES, and else read as JSON, the empty one as {}.
pub read_body-sent :
    (parse : Parser) (chunks : List (List ℕ))
    → read_body parse (sent chunks)
      ≡ some (
          if ltb max_body_bytes (length (joined chunks))
          then already_responded
          else result_of parse (joined chunks))
unfolding read_body
read_body-sent parse chunks = ap finished (read_from-sent parse chunks [] 0 refl (omega arith))

-- What the reader buffers is counted, and at most MAX_BODY_BYTES long.
abbrev pub IsBounded : Reader → Type 0
IsBounded (reading bytes n) = (n ≡ length bytes) × (n ≤ max_body_bytes)
IsBounded (settled r) = Unit {0}

on_event-IsBounded :
    (parse : Parser) (e : Event) (r : Reader) → IsBounded r → IsBounded (on_event parse e r)
unfolding on_event
on_event-IsBounded parse e (settled r) v = tt
on_event-IsBounded parse (on_data c) (reading bytes n) (e, h) =
    elim (Bool-cases (ltb max_body_bytes (n + length c))) [
      | inl l ↦ rw l tt
      | inr l ↦ let size = length-append bytes c in rw l (omega (arith, e, size), ground (arith, l))
    ]
on_event-IsBounded parse on_end (reading bytes n) v = tt
on_event-IsBounded parse on_error (reading bytes n) v = tt

-- Whatever a client sends, however long, the server buffers at most MAX_BODY_BYTES of it.
pub read_from-IsBounded :
    (parse : Parser) (es : List Event) (r : Reader) → IsBounded r → IsBounded (read_from parse es r)
unfolding read_from
read_from-IsBounded parse [] r v = v
read_from-IsBounded parse (e ∷ es) r v =
    read_from-IsBounded parse es (on_event parse e r) (on_event-IsBounded parse e r v)
