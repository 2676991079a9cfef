-- ===== src/Tests/Parts.antt =====
-- The store, the ledger's answers, the counters and the Hook executions on concrete inputs.
use xahc.Prelude.{
  ℕ, ◌≡◌, ◌≤◌, ◌+◌, ◌-◌, ◌*◌, refl, true, false, some, none, List, [], ◌∷◌, arith, length,
}
use xahc.Prelude.Text.{Text, codes, text_eq}
use xahc.Js.{Value, str, num, nat, obj, field, end, arr, no_items, item, to_number}
use xahc.Libs.{Tx, derive_address_from_pub_key, keypair_verify, encode_for_multisigning}
use xahc.Node.{
  Node, ledger, hook_objects, account_info, account_info_signer_lists, signer_list_objects,
  signer_list, fetch_signer_list, read_lists, read_entries,
}
use xahc.Authorize.{
  multisig, authorized, authorize_on_ledger, weights_of, weigh, sum_weights, read_signer,
}
use xahc.Authorize.Quorum.{Credits, Fresh, total, authorize_on_ledger-multisig}
use xahc.Store.Dict
use xahc.Store.Window.{
  defaults, max_validity_ledgers, consumed_expiry_for, consumed_expiry_for_window,
}
use xahc.Store.Memory
use xahc.Store.Memory.{Memory, full}
use xahc.Store.Interface.{IsReplayStore}
use xahc.Store.Memory.Refines.{memory_store, memory_view, memory-IsReplayStore}
use xahc.Store.Memory.Capacity.{reserve, release, run, Fits, run-Fits}
use xahc.Settle.Submit.{Response}
use xahc.Settle.After.{receipt_of, required_of}
use xahc.Settle.Outcome.{outcome, delivered_drops}
use xahc.Digits.{value_of}
use xahc.Authorize.{master}
use xahc.Budget.{HookState, compute_budget, decode_8_byte_drops_hex, hex_value}
use xahc.Client.{client_ip, parts, trim, client_ip_forged}
use xahc.Prelude.{◌++◌}
use xahc.Tests.Samples.{libs, env, requirements, report, plan, payment}

memory-IsReplayStore_example : IsReplayStore (memory_store ℕ) (memory_view ℕ)
memory-IsReplayStore_example = memory-IsReplayStore ℕ

abbrev small : Memory ℕ
small = record { bindings = []; receipts = []; max_entries = 1 }

run-Fits_example :
    Fits (run small (reserve (codes "a") 9 1 ∷ reserve (codes "b") 9 2 ∷ release (codes "a") ∷ []))
run-Fits_example =
    run-Fits small (reserve (codes "a") 9 1 ∷ reserve (codes "b") 9 2 ∷ release (codes "a") ∷ [])
      (omega arith)

abbrev filled : Memory ℕ
filled = record { bindings = (codes "a", 9) ∷ []; receipts = []; max_entries = 1 }

is_full : (Memory.reserve (codes "b") 9 2 filled).0 ≡ full
unfolding Memory.reserve Memory.sweep Dict.get Dict.keep text_eq
is_full = refl

in_bound : 120 - 100 ≤ max_validity_ledgers defaults
unfolding max_validity_ledgers
in_bound = omega arith

consumed_expiry_for_window_example :
    (0 + (120 - 100) * 4000 + 300000 ≤ consumed_expiry_for defaults (some 120) (some 100) 0)
    × (consumed_expiry_for defaults (some 120) (some 100) 0 ≤ 0 + 3600000)
consumed_expiry_for_window_example =
    consumed_expiry_for_window defaults 120 100 0 (omega arith) (omega arith) (omega arith) in_bound

abbrev meta : Value
meta = obj (field "delivered_amount" (str (codes "1000")) end)

abbrev paid_out : Response
paid_out = record { code = codes "tesSUCCESS"; hash = str (codes "H1"); meta = meta }

abbrev blocked : Response
blocked = record { code = codes "tecHOOK_REJECTED"; hash = str (codes "H1"); meta = meta }

succeeds : (receipt_of (env 1000) requirements report plan (some master) paid_out).success ≡ true
unfolding receipt_of outcome required_of delivered_drops text_eq value_of
succeeds = refl

fails : (receipt_of (env 1000) requirements report plan (some master) blocked).success ≡ false
unfolding receipt_of outcome required_of delivered_drops text_eq value_of
fails = refl

abbrev entry : Value
entry = obj (
    field "Signer"
      (obj (
        field "SigningPubKey" (str (codes "K"))
          (field "TxnSignature" (str (codes "S")) (field "Account" (str (codes "rA")) end))))
      end)

abbrev shared_payment : Tx
shared_payment = record payment { signers = entry ∷ entry ∷ [] }

abbrev listed : Value
listed = obj (
    field "SignerQuorum" (num (nat 1)) (
      field "SignerEntries"
        (arr (
          item
            (obj (
              field "SignerEntry"
                (obj (field "Account" (str (codes "rA")) (field "SignerWeight" (num (nat 1)) end)))
                end))
            no_items))
        end))

abbrev shared_node : Node
shared_node ledger = none
shared_node (hook_objects a) = none
shared_node (account_info a) = none
shared_node (account_info_signer_lists a) = some (
    obj (
      field "result"
        (obj
          (field "account_data" (obj (field "signer_lists" (arr (item listed no_items)) end)) end))
        end))
shared_node (signer_list_objects a) = none

confirmed : authorize_on_ledger libs shared_node shared_payment true ≡ authorized multisig
unfolding authorize_on_ledger fetch_signer_list read_lists read_entries sum_weights weigh
    read_signer weights_of Dict.get Dict.set derive_address_from_pub_key keypair_verify
    encode_for_multisigning text_eq to_number
confirmed = refl

authorize_on_ledger-multisig_example :
    (quorum : ℕ) × (signers : List (Text × ℕ)) × (cs : List (Text × ℕ)) × (fetch_signer_list
        shared_node shared_payment.account
      ≡ signer_list quorum signers)
    × Credits libs shared_payment (weights_of [] signers) cs
    × Fresh [] cs
    × (quorum ≤ total cs)
authorize_on_ledger-multisig_example =
    authorize_on_ledger-multisig libs shared_node shared_payment multisig confirmed

abbrev spending : HookState
spending = record { period_start = 90; spent = 300 }

is_live : (compute_budget 100 spending 500 1000 50).period_live ≡ true
unfolding compute_budget
is_live = refl

decoded_limit : decode_8_byte_drops_hex (str (codes "00000000000003E8")) ≡ some 1000
unfolding decode_8_byte_drops_hex hex_value
decoded_limit = refl

two_parts : length (parts (codes "1.1.1.1, 2.2.2.2")) ≡ 2
unfolding parts trim
two_parts = refl

client_ip_forged_example :
    client_ip none (some (codes "9.9.9.9" ++ b',' ∷ codes "1.1.1.1, 2.2.2.2")) 1
    ≡ client_ip none (some (codes "1.1.1.1, 2.2.2.2")) 1
client_ip_forged_example =
    client_ip_forged none (codes "9.9.9.9") (codes "1.1.1.1, 2.2.2.2") 1 (omega arith)
      (omega (arith, two_parts))
