-- ===== src/Policy/State.antt =====
-- readStatefulHookState of x402-xahau/server.mjs: the one entry of the guardrail's state, by a direct
-- lookup and then by a scan of the namespace.
use xahc.Prelude.{
  ℕ, zero, suc, Bool, false, ◌&&◌, ◌||◌, Option, none, some, List, [], ◌∷◌, ◌++◌, if◌then◌else◌,
  ◌==◌, length,
}
use xahc.Prelude.Text.{Text, codes, text_eq}
use xahc.Js.{Value, prop, as_text, as_array}
use xahc.Node.{Node}
use xahc.Prelude.Search.{matches_word}
use xahc.Policy.Params.{to_upper, is_hex_of}

-- A request that throws, with the message of its error; or its answer.
pub data Lookup : Type 0 where
  threw : Text → Lookup
  found : Value → Lookup

-- What the policy asks of the node: besides the validated ledger, the Hooks of an account
-- (account_objects), a state entry (ledger_entry) and the entries of a namespace (account_namespace).
pub record PolicyNode : Type 0 where
  pub node : Node
  pub validated_hooks : Text → Option Value
  pub ledger_entry : Text → Text → Lookup
  pub account_namespace : Text → Text → Option Value

-- "01".padStart(64, "0")
zeros : ℕ → Text
zeros zero = []
zeros (suc n) = b'0' ∷ zeros n

unfoldable pub stateful_state_key_hex : Text
unfolding zeros
stateful_state_key_hex = zeros 62 ++ codes "01"

pub data HookStateRead : Type 0 where
  unreadable absent : HookStateRead
  value : Text → HookStateRead

-- /entryNotFound|entry_not_found/i
unfoldable pub is_entry_not_found : Text → Bool
is_entry_not_found message =
    matches_word (codes "entrynotfound") message || matches_word (codes "entry_not_found") message

-- /^0*01$/, which makes the value of the key 1.
padded_one : Text → Bool
padded_one [] = false
padded_one (c ∷ t) = let rest = padded_one t in c == b'0' && (text_eq t (codes "1") || rest)

unfoldable pub is_state_key : Text → Bool
unfolding padded_one
is_state_key k = text_eq k stateful_state_key_hex || (text_eq k (codes "01") || padded_one k)

-- One entry, if it is the state's.
entry_value : Option Text → Option Text → Option Text
entry_value none data_ = none
entry_value (some k) none = none
entry_value (some k) (some v) = if is_state_key (to_upper k) then some (to_upper v) else none

scan_next : Option Text → HookStateRead → HookStateRead
scan_next none rest = rest
scan_next (some v) rest = value v

unfoldable pub scan : List Value → HookStateRead
unfolding entry_value scan_next
scan [] = absent
scan (e ∷ es) =
    let rest = scan es in
    scan_next (entry_value (as_text (prop "HookStateKey" e)) (as_text (prop "HookStateData" e)))
      rest

entries_of : Option (List Value) → HookStateRead
entries_of none = unreadable
entries_of (some es) = scan es

scan_answer : Option Value → HookStateRead
unfolding entries_of
scan_answer none = unreadable
scan_answer (some r) = entries_of (as_array (prop "namespace_entries" (prop "result" r)))

-- HookStateData of a direct lookup, if it is a text that is not empty.
entry_data : Option Text → HookStateRead → HookStateRead
entry_data none rest = rest
entry_data (some t) rest = if length t == 0 then rest else value (to_upper t)

entry_answer : Lookup → HookStateRead → HookStateRead
unfolding entry_data
entry_answer (threw message) rest = if is_entry_not_found message then absent else rest
entry_answer (found r) rest =
    entry_data (as_text (prop "HookStateData" (prop "node" (prop "result" r)))) rest

unfoldable pub read_stateful_hook_state : PolicyNode → Text → Text → HookStateRead
unfolding entry_answer scan_answer
read_stateful_hook_state client account namespace_id =
    if is_hex_of 64 namespace_id
    then (let ns = to_upper namespace_id in
        entry_answer (client.ledger_entry account ns)
          (scan_answer (client.account_namespace account ns)))
    else unreadable
