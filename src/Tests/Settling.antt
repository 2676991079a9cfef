-- ===== src/Tests/Settling.antt =====
-- settle on the sample payment, with the in-memory store.
use xahc.Prelude.{true, ◌≤◌, ◌<◌, arith, some, ◌≡◌, ◌≢◌, refl, [], ◌∷◌}
use xahc.Prelude.Text.{Text, codes, text_eq}
use xahc.Digits.{value_of, decimal}
use xahc.Message.{ok}
use xahc.Js.{Value, str, obj, field, end, to_number, as_text, prop}
use xahc.Libs.{
  Tx, is_valid_r_address, valid_address_text, verify_tx_signature, derive_address_from_pub_key,
}
use xahc.Node.{current_validated_ledger}
use xahc.Amount.Drops.{parse_strict_drops}
use xahc.Verify.{
  tx_blob, read_scheme, read_price, read_terms, check_fields, check_paid, check_signature,
  replay_key_for, amount_text, verify_exact,
}
use xahc.Store.Window.{consumed_expiry_for, max_validity_ledgers}
use xahc.Settle.Before.{admit, expiry_of}
use xahc.Settle.Effects.{Receipt, settled}
use xahc.Settle.After.{receipt_of}
use xahc.Settle.Success.{IsPaid, settle-IsPaid}
use xahc.Settle.Submit.{Response}
use xahc.Authorize.{master}
use xahc.Store.Interface.{is_some}
use xahc.Verify.Accepts.{IsBound}
use xahc.Verify.Sound.{verify_exact-IsBound}
use xahc.Store.Memory.Refines.{memory_store, memory_view, memory-IsReplayStore}
use xahc.Settle.{
  stages, start, opening, advised, attempt, prepare, authorize, secure, configured, reply_of,
  settle,
}
use xahc.Settle.Once.{after, settle-Held, settle-once, settle-bound}
use xahc.Settle.Effects
use xahc.Settle.Before
use xahc.Settle.After
use xahc.Settle.Submit
use xahc.Settle.Outcome
use xahc.Store.Memory
use xahc.Store.Dict
use xahc.Metrics.{metric_inc}
use xahc.Tests.Samples.{libs, env, payload, requirements, report, plan, world, call}

accepted : verify_exact libs 21337 payload requirements ≡ ok report
unfolding verify_exact tx_blob read_terms read_scheme read_price check_fields check_paid
    check_signature replay_key_for amount_text is_valid_r_address valid_address_text
    verify_tx_signature derive_address_from_pub_key parse_strict_drops text_eq value_of decimal
accepted = refl

admitted : admit (env 1000) payload ≡ ok plan
unfolding admit text_eq current_validated_ledger to_number max_validity_ledgers
admitted = refl

sent : (after (memory_store Receipt) (call 1000) world).submitted ≡ codes "B1" ∷ []
unfolding settle stages start opening advised attempt prepare authorize secure configured reply_of
    Effects.◌>>=◌ Effects.◌>>◌ Effects.give Effects.count Effects.call Effects.send Effects.reply
    Effects.count_reject Before.opened Before.verified Before.advise Before.available_or_stop
    Before.asked Before.look_up Before.unconsumed Before.checked Before.claim Before.claimed
    Before.authority Before.admit Before.expiry_of After.finish After.submitted_as After.read_result
    After.conclude After.bind_hash After.classify Memory.is_consumed Memory.get Memory.reserve
    Memory.sweep Memory.put_binding Memory.set Memory.set_receipt Dict.get Dict.set Dict.keep
    Dict.delete verify_exact tx_blob read_terms read_scheme read_price check_fields check_paid
    check_signature replay_key_for amount_text is_valid_r_address valid_address_text
    verify_tx_signature derive_address_from_pub_key parse_strict_drops text_eq value_of decimal
    current_validated_ledger to_number max_validity_ledgers metric_inc Submit.read_response
    After.receipt_of Outcome.outcome After.required_of Outcome.delivered_drops
sent = refl

changed : (after (memory_store Receipt) (call 1000) world).submitted ≢ world.submitted
changed e = cc (sent, e)

in_order : (1000 ≤ 1000) × (1000 ≤ 1000)
in_order = (omega arith, omega arith)

in_time : 2000 < expiry_of (env 1000) plan
unfolding expiry_of consumed_expiry_for
in_time = omega arith

held :
    is_some (
      memory_view Receipt
        (after (memory_store Receipt) (call 1000) world).store
        2000
        (codes "acct:rA:7"))
    ≡ true
held =
    settle-Held (memory_store Receipt) (memory_view Receipt) (memory-IsReplayStore Receipt)
      (call 1000) report plan world accepted admitted refl changed 2000 (omega arith) in_time

settle-once_example :
    (after
      (memory_store Receipt)
      (call 2000)
      (after (memory_store Receipt) (call 1000) world)).submitted
    ≡ (after (memory_store Receipt) (call 1000) world).submitted
settle-once_example =
    settle-once (memory_store Receipt) (memory_view Receipt) (memory-IsReplayStore Receipt)
      (call 1000) report plan world in_order accepted admitted refl changed [] tt (call 2000) report
      accepted refl (omega arith) in_time

settle-bound_example :
    (after
      (memory_store Receipt)
      (call 2000)
      (after (memory_store Receipt) (call 1000) world)).submitted
    ≡ (after (memory_store Receipt) (call 1000) world).submitted
settle-bound_example =
    settle-bound (memory_store Receipt) (memory_view Receipt) (memory-IsReplayStore Receipt)
      (call 2000) report (after (memory_store Receipt) (call 1000) world) accepted held

verify_exact-IsBound_example :
    (blob : Text) × (tx : Tx) × (as_text (prop "txBlob" payload) ≡ some blob)
    × (libs.decode blob ≡ some tx)
    × IsBound libs blob tx
    × (report.payer ≡ tx.account)
verify_exact-IsBound_example =
    verify_exact-IsBound libs 21337 payload requirements report accepted refl

abbrev meta : Value
meta = obj (
    field "TransactionResult" (str (codes "tesSUCCESS"))
      (field "delivered_amount" (str (codes "1000")) end))

abbrev paid_out : Response
paid_out = record { code = codes "tesSUCCESS"; hash = str (codes "H1"); meta = meta }

-- The receipt of the first call.
abbrev receipt : Receipt
receipt = receipt_of (env 1000) requirements report plan (some master) paid_out

settles : (settle (memory_store Receipt) (env 1000) payload requirements world).0 ≡ settled receipt
unfolding settle stages start opening advised attempt prepare authorize secure configured reply_of
    Effects.◌>>=◌ Effects.◌>>◌ Effects.give Effects.count Effects.call Effects.send Effects.reply
    Effects.count_reject Before.opened Before.verified Before.advise Before.available_or_stop
    Before.asked Before.look_up Before.unconsumed Before.checked Before.claim Before.claimed
    Before.authority Before.admit Before.expiry_of After.finish After.submitted_as After.read_result
    After.conclude After.bind_hash After.classify Memory.is_consumed Memory.get Memory.reserve
    Memory.sweep Memory.put_binding Memory.set Memory.set_receipt Dict.get Dict.set Dict.keep
    Dict.delete verify_exact tx_blob read_terms read_scheme read_price check_fields check_paid
    check_signature replay_key_for amount_text is_valid_r_address valid_address_text
    verify_tx_signature derive_address_from_pub_key parse_strict_drops text_eq value_of decimal
    current_validated_ledger to_number max_validity_ledgers metric_inc Submit.read_response
    After.receipt_of Outcome.outcome After.required_of Outcome.delivered_drops
settles = refl

success : receipt.success ≡ true
unfolding After.receipt_of Outcome.outcome After.required_of Outcome.delivered_drops text_eq
    value_of
success = refl

settle-IsPaid_example : IsPaid (memory_store Receipt) (env 1000) payload requirements receipt
settle-IsPaid_example =
    settle-IsPaid (memory_store Receipt) (env 1000) payload requirements world receipt settles
      success
