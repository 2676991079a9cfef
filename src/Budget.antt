-- ===== src/Budget.antt =====
-- The budget of the stateful guardrail Hook in x402-xahau/server.mjs: decode8ByteDropsHex,
-- decodePerLedgers, decodeStatefulStateValue and computeBudget. Amounts and ledgers are unsigned.
use xahc.Prelude.{
  ℕ, ◌+◌, ◌-◌, ◌*◌, ◌≤◌, ◌<◌, ◌≡◌, Bool, true, not, ◌||◌, ◌&&◌, Option, none, some, [], ◌∷◌,
  if◌then◌else◌, ltb, leb, ◌==◌, all, length, take, drop, arith, Option-cases, inl, inr,
}
use xahc.Prelude.Text.{Text}
use xahc.Js.{Value, as_text}
use xahc.Amount.Currency.{is_hex}
use xahc.Amount.Drops.{max_drops}

-- The value of a hexadecimal digit.
abbrev hex_digit : ℕ → ℕ
hex_digit c = if leb c b'9' then c - b'0' else if leb c b'F' then c - b'A' + 10 else c - b'a' + 10

-- BigInt("0x" + hex), from the value of the digits read so far.
unfoldable pub hex_value : ℕ → Text → ℕ
hex_value acc [] = acc
hex_value acc (c ∷ t) = hex_value (acc * 16 + hex_digit c) t

drops_of_hex : Text → Option ℕ
drops_of_hex t =
    if not (length t == 16 && all is_hex t)
    then none
    else if ltb max_drops (hex_value 0 t)
    then none
    else some (hex_value 0 t)

unfoldable pub decode_8_byte_drops_hex : Value → Option ℕ
unfolding drops_of_hex
decode_8_byte_drops_hex v = elim (as_text v) [ none ↦ none | some t ↦ drops_of_hex t ]

ledgers_of_hex : Text → Option ℕ
ledgers_of_hex t =
    if not (all is_hex t) || not (length t == 8 || length t == 16)
    then none
    else if hex_value 0 t == 0 || ltb 0xFFFFFFFFFFFFFFFF (hex_value 0 t)
    then none
    else some (hex_value 0 t)

unfoldable pub decode_per_ledgers : Value → Option ℕ
unfolding ledgers_of_hex
decode_per_ledgers v = elim (as_text v) [ none ↦ none | some t ↦ ledgers_of_hex t ]

pub record HookState : Type 0 where
  pub period_start : ℕ
  pub spent : ℕ

state_of_hex : Text → Option HookState
state_of_hex t =
    if length t == 32 && all is_hex t
    then some (record {
      period_start = hex_value 0 (take 16 t);
      spent = hex_value 0 (take 16 (drop 16 t));
    })
    else none

unfoldable pub decode_stateful_state_value : Value → Option HookState
unfolding state_of_hex
decode_stateful_state_value v = elim (as_text v) [ none ↦ none | some t ↦ state_of_hex t ]

-- The reply prints the four numbers in decimal.
pub record Budget : Type 0 where
  pub period_live : Bool
  pub spent_this_period : ℕ
  pub remaining : ℕ
  pub reset_in_ledgers : ℕ
  pub max_next_payment : ℕ

abbrev is_period_live : ℕ → ℕ → ℕ → Bool
is_period_live now start per = leb start now && ltb (now - start) per

unfoldable pub compute_budget : ℕ → HookState → ℕ → ℕ → ℕ → Budget
compute_budget now state lim plm per =
    let live = is_period_live now state.period_start per in
    let remaining =
      if not live then plm else if leb state.spent plm then plm - state.spent else 0 in
    record {
      period_live = live;
      spent_this_period = state.spent;
      remaining = remaining;
      reset_in_ledgers = if live then state.period_start + per - now else 0;
      max_next_payment = if ltb lim remaining then lim else remaining;
    }

-- Whatever the state of the Hook, the reported budget allows no payment above the limit of a payment or
-- that of a period, and a reset is at most a period ahead.
pub compute_budget_le :
    (now : ℕ) (state : HookState) (lim plm per : ℕ)
    → ((compute_budget now state lim plm per).max_next_payment ≤ lim)
      × ((compute_budget now state lim plm per).max_next_payment ≤ plm)
      × ((compute_budget now state lim plm per).reset_in_ledgers ≤ per)
unfolding compute_budget
compute_budget_le now state lim plm per = (ground arith, ground arith, ground arith)

-- In a live period whose spending is within its limit, the payment that the budget allows keeps it
-- there, and the reset is ahead.
pub compute_budget_spending :
    (now : ℕ) (state : HookState) (lim plm per : ℕ)
    → (compute_budget now state lim plm per).period_live ≡ true
    → state.spent ≤ plm
    → (state.spent + (compute_budget now state lim plm per).max_next_payment ≤ plm)
      × (0 < (compute_budget now state lim plm per).reset_in_ledgers)
unfolding compute_budget
compute_budget_spending now state lim plm per l h = (ground arith, ground arith)

-- A decoded limit is at most the supply.
pub decode_8_byte_drops_hex_le :
    (v : Value) (n : ℕ) → decode_8_byte_drops_hex v ≡ some n → n ≤ max_drops
unfolding decode_8_byte_drops_hex drops_of_hex
decode_8_byte_drops_hex_le v n h = elim (Option-cases (as_text v)) [
  | inl e ↦ absurd (ground (arith, e))
  | inr (t, e) ↦ ground (arith, e)
]
