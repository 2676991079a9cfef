-- ===== src/Settle/Submit.antt =====
-- What comes back from submitAndWait in settle of x402-xahau/server.mjs, and
-- submitDefinitelyNotApplied.
use xahc.Prelude.{
  ℕ, ◌-◌, Bool, true, false, not, ◌&&◌, ◌||◌, Option, none, some, [], ◌∷◌, if◌then◌else◌, ◌==◌, leb,
  length, drop,
}
use xahc.Prelude.Text.{Text, codes}
use xahc.Js.{Value, prop, as_text, or_else}
use xahc.Prelude.Search.{starts_with}

-- submitAndWait throws a value or resolves to one.
pub data Submitted : Type 0 where
  threw resolved : Value → Submitted

-- [A-Z]
abbrev is_upper : ℕ → Bool
is_upper c = leb b'A' c && leb c b'Z'

-- [A-Z_]
abbrev is_upper_or_low_line : ℕ → Bool
is_upper_or_low_line c = is_upper c || c == b'_'

-- \w
abbrev is_word : ℕ → Bool
is_word c = is_upper c || (leb b'a' c && leb c b'z' || (leb b'0' c && leb c b'9' || c == b'_'))

-- What the text starts with is no word character.
abbrev word_ends : Text → Bool
word_ends [] = true
word_ends (c ∷ t) = not (is_word c)

-- [A-Z_]{n}\b. A longest run is the only one that a word can end after.
abbrev run_ends : ℕ → Text → Bool
run_ends n [] = n == 0
run_ends n (c ∷ t) =
    let rest = run_ends (n - 1) t in
    if is_upper_or_low_line c then rest else n == 0 && not (is_word c)

-- tem[A-Z][A-Z_]{2}\b at the start of the text.
abbrev upper_then_run : Text → Bool
upper_then_run [] = false
upper_then_run (c ∷ t) = is_upper c && run_ends 2 t

abbrev token_here : Text → Bool
token_here t = starts_with (codes "tem") t && upper_then_run (drop 3 t)

-- /\btem[A-Z][A-Z_]{2}\b/, where `fresh` tells that no word character comes before.
abbrev tem_token : Bool → Text → Bool
tem_token fresh [] = false
tem_token fresh (c ∷ t) =
    let rest = tem_token (not (is_word c)) t in if fresh && token_here (c ∷ t) then true else rest

-- /^tem[A-Z]/
abbrev upper_first : Text → Bool
upper_first [] = false
upper_first (c ∷ t) = is_upper c

abbrev pub tem_code : Text → Bool
tem_code t = starts_with (codes "tem") t && upper_first (drop 3 t)

-- The engine result that an error carries: of its data, else its own if that is a text.
engine_result : Value → Value
engine_result e =
    let nested =
      or_else (prop "engine_result" (prop "data" e))
        (prop "engine_result" (prop "result" (prop "data" e))) in
    or_else nested (prop "engine_result" e)

message_of : Value → Text
message_of e = elim (as_text (prop "message" e)) [ none ↦ [] | some t ↦ t ]

-- Whether the error proves that nothing was applied: a preliminary tem code.
unfoldable pub submit_definitely_not_applied : Value → Bool
unfolding engine_result message_of
submit_definitely_not_applied e = elim (as_text (engine_result e)) [
  | some er ↦ tem_code er
  | none ↦ tem_token true (message_of e)
]

-- Unless the error proves otherwise, the transaction may be on the ledger.
abbrev pub maybe_applied : Submitted → Bool
maybe_applied (threw e) = not (submit_definitely_not_applied e)
maybe_applied (resolved r) = true

-- What a response that can be classified says.
pub record Response : Type 0 where
  pub code : Text
  pub hash : Value
  pub meta : Value

-- result.meta.TransactionResult, a text that is not empty, of a result that is an object.
unfoldable pub read_response : Value → Option Response
read_response r =
    let result = prop "result" r in
    let meta = prop "meta" result in
    elim (as_text (prop "TransactionResult" meta)) [
      | none ↦ none
      | some code ↦
          if length code == 0
          then none
          else some (record { code = code; hash = prop "hash" result; meta = meta })
    ]
