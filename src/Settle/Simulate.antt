-- ===== src/Settle/Simulate.antt =====
-- simulatePayment of x402-xahau/server.mjs: the advisory prediction of the payer's Hook. The request
-- to the simulator is a parameter: what came back.
use xahc.Prelude.{Bool, true, false, not, ◌||◌, none, some, if◌then◌else◌, String}
use xahc.Prelude.Text.{Text, codes}
use xahc.Prelude.Search.{starts_with}
use xahc.Js.{Value, bool, prop, as_text, or_else, undefined, null, num, str, arr, obj}

-- X402_MCP_URL unset, a request that throws or times out, a status that is not OK, a body.
pub data Mcp : Type 0 where
  unset unreachable not_ok : Mcp
  body : Value → Mcp

pub data Prediction : Type 0 where
  accept reject unknown : Prediction

pub data Simulation : Type 0 where
  unavailable : String → Simulation
  available : Prediction → Simulation

-- /^(tec|tem|tef|tel|ter)/
abbrev rejects : Text → Bool
rejects t =
    starts_with (codes "tec") t
    || (starts_with (codes "tem") t
        || (starts_with (codes "tef") t
            || (starts_with (codes "tel") t || starts_with (codes "ter") t)))

is_code : (Text → Bool) → Value → Bool
is_code p v = elim (as_text v) [ none ↦ false | some t ↦ p t ]

-- v === b
is_bool : Bool → Value → Bool
is_bool b (bool true) = b
is_bool b (bool false) = not b
is_bool b undefined = false
is_bool b null = false
is_bool b (num n) = false
is_bool b (str t) = false
is_bool b (arr xs) = false
is_bool b (obj fs) = false

-- An answer that is neither clearly accepting nor clearly rejecting predicts nothing.
unfoldable pub predict : Value → Prediction
unfolding is_code is_bool
predict answer =
    let engine =
      or_else (prop "engine_result" answer) (prop "engine_result" (prop "result" answer)) in
    let accepted = or_else (prop "accepted" answer) (prop "accepted" (prop "result" answer)) in
    if is_bool true accepted || is_code (starts_with (codes "tes")) engine
    then accept
    else if is_bool false accepted || is_code rejects engine
    then reject
    else unknown

unfoldable pub simulate_payment : Mcp → Simulation
simulate_payment unset = unavailable "simulation not configured (X402_MCP_URL unset)"
simulate_payment unreachable = unavailable "simulation unavailable"
simulate_payment not_ok = unavailable "simulation unavailable (mcp non-OK)"
simulate_payment (body v) = available (predict v)

-- sim.available === true && sim.prediction === "reject"
abbrev pub predicts_reject : Simulation → Bool
predicts_reject (unavailable note) = false
predicts_reject (available reject) = true
predicts_reject (available accept) = false
predicts_reject (available unknown) = false
