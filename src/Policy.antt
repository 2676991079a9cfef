-- ===== src/Policy.antt =====
-- getPolicy and getStatefulPolicy of x402-xahau/server.mjs: the guardrail that an account has on the
-- ledger. Numbers are printed in decimal in the reply; a note is shown with the remark that the
-- destination lock could not be decoded, or without it.
pub mod Params
pub mod State
pub mod Backed
use xahc.Prelude.{
  ℕ, String, Bool, true, false, not, ◌&&◌, ◌||◌, Option, none, some, List, [], ◌∷◌, if◌then◌else◌,
  ltb, ◌==◌, length,
}
use xahc.Prelude.Text.{Text}
use xahc.Js.{Value, str, prop, as_array}
use xahc.Node.{current_validated_ledger, result_of}
use xahc.Budget.{
  HookState, Budget, compute_budget, decode_8_byte_drops_hex, decode_per_ledgers,
  decode_stateful_state_value,
}
use xahc.Policy.Params.{Guardrail, find_guardrail, AddressCodec, allowlist_of}
use xahc.Policy.State.{
  PolicyNode, HookStateRead, unreadable, absent, value, read_stateful_hook_state,
}

-- A note, and whether it says that the destination lock could not be decoded.
pub record Note : Type 0 where
  pub says : String
  pub undecoded_lock : Bool

-- The limits that could be decoded.
pub record Limits : Type 0 where
  pub per_tx_limit_drops : ℕ
  pub period_limit_drops : Option ℕ
  pub period_ledgers : Option ℕ
  pub allowlist : Option (List Text)

-- What is left of the period's budget: remaining is null, the whole of it, or as computed.
pub data Remaining : Type 0 where
  unknown : Remaining
  unopened : ℕ → ℕ → Remaining
  computed : ℕ → Budget → Remaining

pub data Policy : Type 0 where
  per_tx_only : ℕ → Option (List Text) → Note → Policy
  stateful : Limits → Remaining → Note → Policy

pub record Readout : Type 0 where
  pub account : Text
  pub guardrail_hook_present : Option Bool
  pub policy : Option Policy
  pub as_of_ledger : Option ℕ
  pub note : Option Note

abbrev plain : String → Note
plain s = record { says = s; undecoded_lock = false }

lock_undecoded : Option (List Text) → Bool
lock_undecoded none = false
lock_undecoded (some []) = true
lock_undecoded (some (a ∷ rest)) = false

-- text + dstNote
unfoldable pub noted : String → Option (List Text) → Note
unfolding lock_undecoded
noted s allowlist = record { says = s; undecoded_lock = lock_undecoded allowlist }

abbrev pub without_policy : Readout → String → Readout
without_policy out s = record out { note = some (plain s) }

abbrev pub with_policy : Readout → Policy → Readout
with_policy out p = record out { policy = some p }

-- What the state entry says of the budget.
unfoldable pub budget_of : ℕ → ℕ → ℕ → ℕ → Option HookState → Remaining × String
budget_of now lim plm per none = (
  unknown,
  "stateful guardrail: hook state value is malformed (not 16 bytes) — remaining budget unknown",
)
budget_of now lim plm per (some state) =
    let b = compute_budget now state lim plm per in
    (
      computed state.period_start b,
      (if b.period_live
          then "period budget read live from HookState"
          else "stored period has elapsed — the next payment opens a fresh period, so the full period budget is available"),
    )

unfoldable pub remaining_of : ℕ → ℕ → ℕ → ℕ → HookStateRead → Remaining × String
unfolding budget_of
remaining_of now lim plm per unreadable =
    (unknown, "stateful guardrail: could not read hook state — remaining budget unknown")
remaining_of now lim plm per absent = (
  unopened plm (if ltb lim plm then lim else plm),
  "no period opened yet — full period budget available",
)
remaining_of now lim plm per (value hex) =
    budget_of now lim plm per (decode_stateful_state_value (str hex))

-- With both limits of the period: the current ledger and the namespace are needed for the rest.
unfoldable pub live_budget :
    PolicyNode → Text → ℕ → ℕ → ℕ → Option ℕ → Option Text → Remaining × String
live_budget client account lim plm per none ns = (
  unknown,
  "stateful guardrail: could not read the current validated ledger — remaining budget unknown",
)
live_budget client account lim plm per (some now) none = (
  unknown,
  "stateful guardrail: Hook namespace unavailable — could not read period-budget state, remaining unknown",
)
live_budget client account lim plm per (some now) (some ns) =
    remaining_of now lim plm per (read_stateful_hook_state client account ns)

abbrev pub limits : ℕ → Option ℕ → Option ℕ → Option (List Text) → Limits
limits lim plm per allowlist = record {
  per_tx_limit_drops = lim;
  period_limit_drops = plm;
  period_ledgers = per;
  allowlist = allowlist;
}

-- A policy whose budget is unknown for the reason that the readout names too.
unfoldable pub undecided : Readout → Limits → Note → Readout
undecided out l n = record out { policy = some (stateful l unknown n); note = some n }

unfoldable pub decoded_policy :
    PolicyNode → Readout → ℕ → Option Text → Option (List Text) → Option ℕ → Option ℕ → Readout
unfolding live_budget
decoded_policy client out lim ns allowlist none per =
    undecided out (limits lim none per allowlist) (
      noted
        "stateful guardrail: PLM parameter present but could not be decoded — remaining budget unknown"
        allowlist)
decoded_policy client out lim ns allowlist (some plm) none =
    undecided out (limits lim (some plm) none allowlist) (
      noted
        "stateful guardrail: PER parameter present but could not be decoded — remaining budget unknown"
        allowlist)
decoded_policy client out lim ns allowlist (some plm) (some per) =
    let (remaining, s) = live_budget client out.account lim plm per out.as_of_ledger ns in
    with_policy out
      (stateful (limits lim (some plm) (some per) allowlist) remaining (noted s allowlist))

-- getStatefulPolicy
unfoldable pub get_stateful_policy :
    PolicyNode
    → Readout
    → ℕ
    → Option Text
    → Option (List Text)
    → Option Text
    → Option Text
    → Readout
get_stateful_policy client out lim ns allowlist none per =
    undecided out (limits lim none none allowlist)
      (plain "stateful guardrail detected but PLM parameter is missing — period budget unknown")
get_stateful_policy client out lim ns allowlist (some plm) none =
    undecided out (limits lim none none allowlist)
      (plain "stateful guardrail detected but PER parameter is missing — period budget unknown")
get_stateful_policy client out lim ns allowlist (some plm) (some per) =
    decoded_policy client out lim ns allowlist (decode_8_byte_drops_hex (str plm))
      (decode_per_ledgers (str per))

per_tx_note : String
per_tx_note =
    "per-tx spend cap (stateless guardrail). This is the maximum per transaction, NOT a cumulative remaining budget."

unfoldable pub is_given : Option Text → Bool
is_given none = false
is_given (some t) = true

unfoldable pub policy_of : AddressCodec → PolicyNode → Readout → Guardrail → Option ℕ → Readout
unfolding is_given per_tx_note
policy_of codec client out g none =
    without_policy out
      "guardrail LIM parameter present but its value could not be decoded as an 8-byte drops cap — policy unknown"
policy_of codec client out g (some lim) =
    let allowlist = allowlist_of codec g.dst in
    if is_given g.plm || is_given g.per
    then get_stateful_policy client out lim g.namespace_id allowlist g.plm g.per
    else with_policy out (per_tx_only lim allowlist (noted per_tx_note allowlist))

unfoldable pub found_policy : AddressCodec → PolicyNode → Readout → Option Guardrail → Readout
found_policy codec client out none =
    without_policy out
      "a Hook is installed but no recognizable guardrail policy (LIM parameter) was found — policy unknown"
found_policy codec client out (some g) =
    policy_of codec client out g (decode_8_byte_drops_hex (str g.lim))

unfoldable pub hooks_policy : AddressCodec → PolicyNode → Readout → Option (List Value) → Readout
unfolding found_policy
hooks_policy codec client out none =
    without_policy out "node returned no account_objects (policy unknown)"
hooks_policy codec client out (some []) =
    without_policy (record out { guardrail_hook_present = some false })
      "no Hook installed — there is no L1 spending policy on this account"
hooks_policy codec client out (some (h ∷ hs)) =
    found_policy codec client (record out { guardrail_hook_present = some true })
      (find_guardrail (h ∷ hs))

unfoldable pub answered_policy : AddressCodec → PolicyNode → Readout → Option Value → Readout
answered_policy codec client out none =
    without_policy out "node read failed — could not read account_objects (policy unknown)"
answered_policy codec client out (some r) =
    hooks_policy codec client out (as_array (prop "account_objects" (prop "result" r)))

-- getPolicy
unfoldable pub get_policy : AddressCodec → PolicyNode → Text → Readout
get_policy codec client account =
    let out : Readout = record {
      account = account;
      guardrail_hook_present = none;
      policy = none;
      as_of_ledger = current_validated_ledger client.node;
      note = none;
    } in
    answered_policy codec client out (client.validated_hooks account)
