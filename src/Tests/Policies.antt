-- ===== src/Tests/Policies.antt =====
-- The policy of an account with a guardrail, and the start of the server.
use xahc.Prelude.{◌+◌, ◌-◌, ◌*◌, ◌≤◌, ◌≡◌, refl, String, true, false, none, some, [], replicate}
use xahc.Prelude.Text.{Text, codes, text_eq}
use xahc.Js.{Value, str, obj, field, end, arr, item, no_items, other, to_number}
use xahc.Node.{current_validated_ledger}
use xahc.Store.Dict
use xahc.Budget.{
  HookState, compute_budget, decode_8_byte_drops_hex, decode_per_ledgers,
  decode_stateful_state_value, hex_value,
}
use xahc.Policy.{
  budget_of, remaining_of, live_budget, decoded_policy, get_stateful_policy, policy_of, is_given,
  found_policy, hooks_policy, answered_policy, get_policy,
}
use xahc.Policy.Params.{to_upper, hook_params_map, add_params, guardrail_of, nested, find_guardrail}
use xahc.Policy.State.{PolicyNode, found, read_stateful_hook_state}
use xahc.Policy.Backed.{remaining_shown, IsBacked, get_policy-IsBacked}
use xahc.Rate.Redis.{in_redis}
use xahc.Boot.Connect.{Limits, never, get_client, get_client_bounded}
use xahc.Boot.Config.{
  Environment, Platform, start, serving, validate_config, network_ids, create_store,
}
use xahc.Tests.Samples.{node}

abbrev param : String → String → Value
param name hex = obj (
    field "HookParameterName" (str (codes name)) (field "HookParameterValue" (str (codes hex)) end))

abbrev hook : Value
hook = obj (
    field "HookParameters"
      (arr (
        item (param "4C494D" "00000000000003e8")
          (item (param "504C4D" "0000000000001388") (item (param "504552" "00000064") no_items))))
      (field "HookNamespace" (str (replicate 64 b'a')) end))

abbrev hooks_answer : Value
hooks_answer =
    obj (field "result" (obj (field "account_objects" (arr (item hook no_items)) end)) end)

abbrev state_hex : Text
state_hex = codes "00000000000000320000000000000BB8"

abbrev client : PolicyNode
client = record {
  node = node;
  validated_hooks = λ account. some hooks_answer;
  ledger_entry = λ account ns. found (
      obj (
        field "result" (obj (field "node" (obj (field "HookStateData" (str state_hex) end)) end))
          end));
  account_namespace = λ account ns. none;
}

abbrev state : HookState
state = record { period_start = 50; spent = 3000 }

shown :
    remaining_shown (get_policy none client (codes "rA"))
    ≡ some (compute_budget 100 state 1000 5000 100).remaining
unfolding get_policy answered_policy hooks_policy found_policy policy_of get_stateful_policy
    decoded_policy live_budget remaining_of budget_of is_given current_validated_ledger to_number
    find_guardrail nested guardrail_of hook_params_map add_params to_upper Dict.get Dict.set text_eq
    decode_8_byte_drops_hex decode_per_ledgers hex_value read_stateful_hook_state
    decode_stateful_state_value
shown = refl

left : (compute_budget 100 state 1000 5000 100).remaining ≡ 2000
unfolding compute_budget
left = refl

get_policy-IsBacked_example :
    IsBacked client (codes "rA") (compute_budget 100 state 1000 5000 100).remaining
get_policy-IsBacked_example =
    get_policy-IsBacked none client (codes "rA") (compute_budget 100 state 1000 5000 100).remaining
      shown

abbrev limits : Limits
limits = record { timeout_ms = 8000; attempts = 3; backoff_ms = 500 }

get_client_bounded_example :
    ((get_client limits true true (λ c. false) (λ attempt. never) none).connects ≤ 3)
    × ((get_client limits true true (λ c. false) (λ attempt. never) none).elapsed
        ≤ 3 * 8000 + (3 - 1) * 500)
get_client_bounded_example =
    get_client_bounded limits true true (λ c. false) (λ attempt. never) none

takes : (get_client limits true true (λ c. false) (λ attempt. never) none).elapsed ≡ 25000
unfolding get_client xahc.Boot.Connect.connect_from xahc.Boot.Connect.with_timeout
takes = refl

abbrev platform : Platform
platform = record {
  number = λ t. other;
  protocol = λ t. some (codes "redis:");
  inherited = λ t. false;
}

abbrev environment : Environment
environment = record {
  port = [];
  xahau_wss = [];
  xahau_network = codes "xahau";
  xahau_network_id = [];
  redis_url = codes "redis://r";
}

served : start platform environment true ≡ serving in_redis in_redis
unfolding start validate_config network_ids text_eq create_store xahc.Rate.Redis.create_rate_limiter
served = refl
