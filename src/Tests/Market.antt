-- ===== src/Tests/Market.antt =====
-- The resource server over the launcher, with a payment of 1 XAH, and again with the same payment.
use xahc.Prelude.{◌≡◌, refl, true, none, some, List, [], ◌∷◌, if◌then◌else◌}
use xahc.Prelude.Text.{Text, codes, text_eq}
use xahc.Js.{Value, to_number, str, null, obj, field, end}
use xahc.Digits.{value_of, decimal}
use xahc.Metrics.{metric_inc}
use xahc.Libs.{
  Libs, Tx, is_valid_r_address, valid_address_text, verify_tx_signature,
  derive_address_from_pub_key,
}
use xahc.Node.{current_validated_ledger, guardrail_hook_present}
use xahc.Amount.Drops.{parse_strict_drops}
use xahc.Verify.{
  tx_blob, read_scheme, read_price, read_terms, check_fields, check_paid, check_signature, bind_key,
  replay_key_for, amount_text, verify_exact,
}
use xahc.Store.Window.{consumed_expiry_for, max_validity_ledgers}
use xahc.Store.Dict
use xahc.Store.Memory
use xahc.Store.Memory.{Memory}
use xahc.Settle.{
  stages, start, opening, advised, attempt, prepare, authorize, secure, configured, reply_of,
  settle,
}
use xahc.Settle.Effects
use xahc.Settle.Before
use xahc.Settle.After
use xahc.Settle.Submit
use xahc.Settle.Outcome
use xahc.Settle.Outcome.{drops_text}
use xahc.Demo.Facilitator
use xahc.Demo.Resource
use xahc.Demo.Market
use xahc.Store.Memory.Refines.{memory_store}
use xahc.Settle.Submit.{resolved}
use xahc.Settle.Effects.{Receipt, Env, World}
use xahc.Http.Body.{Event, on_data, on_end}
use xahc.Demo.Facilitator.{Launcher}
use xahc.Demo.Resource.{
  Shop, Req, Payment, premium, premium_plus, posted, requirements, offer, payload_of, serve, sold,
}
use xahc.Demo.Market.{through}
use xahc.Demo.Resource.Sale.{IsSale, serve-IsSale}
use xahc.Demo.Market.Earned.{IsEarned, serve-IsEarned}
use xahc.Authorize.{master}
use xahc.Tests.Samples.{payment, libs, node, env, world}

abbrev xah_payment : Tx
xah_payment = record payment { amount = str (codes "1000000"); network_id = some 21338 }

abbrev codec : Libs
codec = record libs {
  decode = λ blob. if text_eq blob (codes "B1") then some xah_payment else none;
}

abbrev delivered : Value
delivered = obj (
    field "result"
      (obj (
        field "hash" (str (codes "H1")) (
          field "meta"
            (obj (
              field "TransactionResult" (str (codes "tesSUCCESS"))
                (field "delivered_amount" (str (codes "1000000")) end)))
            end)))
      end)

abbrev shop : Shop
shop = record {
  merchant = codes "rB";
  facilitator_url = codes "http://f";
  secret = codes "s";
  parse = λ t. some (payload_of (codes "B1"));
}

abbrev cheap : Value
cheap = offer (codes "rB") (codes "/premium") (codes "1000000")

abbrev dear : Value
dear = offer (codes "rB") (codes "/premium-plus") (codes "10000000")

-- A launcher that reads every body as this one.
abbrev launcher : Value → Launcher
launcher accept = record {
  buffers = record { from = λ t. t; timing_safe_equal = text_eq };
  secret = codes "s";
  parse = λ bytes. some (posted (codes "B1") accept);
  pooled = none;
  dial = some node;
  env = record (env 1000) {
    network = 21338;
    libs = codec;
    submit_and_wait = λ blob. resolved delivered;
  };
}

abbrev wire : Value → List Event
wire v = on_data (b'{' ∷ []) ∷ on_end ∷ []

abbrev get : Text → Req
get path = record { method = codes "GET"; url = path; x_payment = some (codes "p") }

abbrev paid : Payment
paid = record {
  transaction = str (codes "H1");
  delivered = str (codes "1000000");
  guardrail_hook_present = null;
}

sold_premium :
    (serve
      (through (memory_store Receipt) (launcher cheap) wire)
      shop
      (get (codes "/premium"))
      world).0.content
    ≡ sold premium.content paid
unfolding serve text_eq Resource.serve_entry Resource.entry_for Resource.entry_in Resource.catalog
    Resource.sell Resource.payment_blob Resource.after_verify Resource.after_settle Resource.send
    Resource.facilitator_post Resource.secret_for Resource.posted Resource.offer
    Resource.requirements Resource.payment Resource.payment_requirements through Market.fetched
    Market.content_json Market.verified_json Market.reply_json Market.receipt_json
    Facilitator.handle Facilitator.post_verify Facilitator.post_settle Facilitator.auth_ok
    Facilitator.with_body Facilitator.read_result Facilitator.read_body Facilitator.read_from
    Facilitator.on_event Facilitator.text_outcome Facilitator.send Facilitator.fields
    Facilitator.with_payment Facilitator.settle_body Facilitator.settle_with Facilitator.client_of
    Facilitator.settle_reply Facilitator.injected_settle Facilitator.injected
    Facilitator.fetch_ledger settle stages start opening advised attempt prepare authorize secure
    configured reply_of Effects.◌>>=◌ Effects.◌>>◌ Effects.give Effects.count Effects.call
    Effects.send Effects.reply Effects.count_reject Before.opened Before.verified Before.advise
    Before.available_or_stop Before.asked Before.look_up Before.unconsumed Before.checked
    Before.claim Before.claimed Before.authority Before.admit Before.decoded Before.expiry_of
    After.finish After.submitted_as After.read_result After.conclude After.bind_hash After.classify
    Memory.is_consumed Memory.get Memory.reserve Memory.sweep Memory.put_binding Memory.set
    Memory.set_receipt Dict.get Dict.set Dict.keep Dict.delete verify_exact tx_blob read_terms
    read_scheme read_price check_fields check_paid check_signature replay_key_for amount_text
    is_valid_r_address valid_address_text verify_tx_signature derive_address_from_pub_key
    parse_strict_drops value_of decimal current_validated_ledger to_number max_validity_ledgers
    metric_inc Submit.read_response After.receipt_of Outcome.outcome After.required_of
    Outcome.delivered_drops consumed_expiry_for bind_key Outcome.delivered_value
    guardrail_hook_present
sold_premium = refl

serve-IsSale_example :
    IsSale
      (through (memory_store Receipt) (launcher cheap) wire)
      shop
      (get (codes "/premium"))
      world
      premium.content
      paid
serve-IsSale_example =
    serve-IsSale (through (memory_store Receipt) (launcher cheap) wire) shop
      (get (codes "/premium")) premium.content paid world sold_premium

serve-IsEarned_example :
    IsEarned
      (memory_store Receipt)
      (launcher cheap)
      shop
      (get (codes "/premium"))
      premium
      (codes "B1")
      world
unfolding Resource.entry_for Resource.entry_in Resource.catalog text_eq Resource.payment_blob
    Facilitator.read_body Facilitator.read_from Facilitator.on_event Facilitator.text_outcome
serve-IsEarned_example =
    serve-IsEarned (memory_store Receipt) (launcher cheap) shop wire (get (codes "/premium"))
      premium (codes "B1") world refl refl refl premium.content paid sold_premium

-- The receipt of the payment for /premium.
abbrev receipt : Receipt
receipt = record {
  success = true;
  transaction = str (codes "H1");
  error_reason = none;
  guardrail_hook_present = none;
  delivered = some (drops_text (codes "1000000"));
  payer = some (codes "rA");
  signature_verified = true;
  signature_source = some master;
  tx_hash = str (codes "H1");
  pay_to = some (codes "rB");
  required = Outcome.drops 1000000;
  asset = none;
  ts = 500;
  proof = none;
  hook_executions = [];
}

-- The answer of the launcher to a payment that it has settled.
abbrev kept : Receipt → Resource.Fetched
kept r = record { status = 200; json = some (Market.receipt_json r) }

abbrev store : Memory Receipt
store = record {
  bindings = (codes "acct:rA:7", 5000) ∷ [];
  receipts = (codes "acct:rA:7", (receipt, 5000)) ∷ [];
  max_entries = 10;
}

-- What was paid for /premium buys /premium-plus.
sold_again :
    (serve
      (through (memory_store Receipt) (launcher dear) wire)
      shop
      (get (codes "/premium-plus"))
      (record world { store = store })).0
    ≡ record { status = 200; content = sold premium_plus.content (Resource.payment (kept receipt)) }
unfolding serve text_eq Resource.serve_entry Resource.entry_for Resource.entry_in Resource.catalog
    Resource.sell Resource.payment_blob Resource.after_verify Resource.after_settle Resource.send
    Resource.facilitator_post Resource.secret_for Resource.posted Resource.offer
    Resource.requirements Resource.payment Resource.payment_requirements through Market.fetched
    Market.content_json Market.verified_json Market.reply_json Market.receipt_json
    Facilitator.handle Facilitator.post_verify Facilitator.post_settle Facilitator.auth_ok
    Facilitator.with_body Facilitator.read_result Facilitator.read_body Facilitator.read_from
    Facilitator.on_event Facilitator.text_outcome Facilitator.send Facilitator.fields
    Facilitator.with_payment Facilitator.settle_body Facilitator.settle_with Facilitator.client_of
    Facilitator.settle_reply Facilitator.injected_settle Facilitator.injected
    Facilitator.fetch_ledger settle stages start opening advised attempt prepare authorize secure
    configured reply_of Effects.◌>>=◌ Effects.◌>>◌ Effects.give Effects.count Effects.call
    Effects.send Effects.reply Effects.count_reject Before.opened Before.verified Before.advise
    Before.available_or_stop Before.asked Before.look_up Before.unconsumed Before.checked
    Before.claim Before.claimed Before.authority Before.admit Before.decoded Before.expiry_of
    After.finish After.submitted_as After.read_result After.conclude After.bind_hash After.classify
    Memory.is_consumed Memory.get Memory.reserve Memory.sweep Memory.put_binding Memory.set
    Memory.set_receipt Dict.get Dict.set Dict.keep Dict.delete verify_exact tx_blob read_terms
    read_scheme read_price check_fields check_paid check_signature replay_key_for amount_text
    is_valid_r_address valid_address_text verify_tx_signature derive_address_from_pub_key
    parse_strict_drops value_of decimal current_validated_ledger to_number max_validity_ledgers
    metric_inc Submit.read_response After.receipt_of Outcome.outcome After.required_of
    Outcome.delivered_drops consumed_expiry_for bind_key Outcome.delivered_value
    guardrail_hook_present Memory.get_receipt Before.answer_replay
sold_again = refl
