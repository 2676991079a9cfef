-- ===== src/Settle/After.antt =====
-- What settle of x402-xahau/server.mjs does once the key is reserved: submission, the reading of its
-- result, and the receipt.
use xahc.Prelude.{ℕ, Bool, true, false, not, ◌++◌, Option, none, some, if◌then◌else◌, ◌==◌, length}
use xahc.Prelude.Text.{Text, codes, text_eq}
use xahc.Digits.{value_of}
use xahc.Message.{Message, says, Check, ok, err}
use xahc.Js.{Value, str, num, nat, null, prop, as_text}
use xahc.Node.{guardrail_hook_present}
use xahc.Amount.Token.{parse_token_value}
use xahc.Verify.{Verified}
use xahc.Authorize.{Source}
use xahc.Store.Interface.{Answer, answered, failed, ReplayStore}
use xahc.Metrics.{submit_ambiguous, tem_rejected, on_ledger_failure, delivered_short, successes}
use xahc.Receipt.{Signable, Proof, sign_receipt}
use xahc.Hooks.{decode_hook_executions}
use xahc.Settle.Submit.{
  Submitted, threw, resolved, Response, read_response, submit_definitely_not_applied,
}
use xahc.Settle.Outcome.{
  Required, drops, units, Delivered, outcome, delivered_value, required_value, asset_value,
}
use xahc.Settle.Effects.{
  Receipt, Reply, settled, escaped, Env, Stage, give, reply, refuse, refusal, count, count_reject,
  call, send, ◌>>=◌, ◌>>◌,
}
use xahc.Settle.Before.{Plan, expiry_of}

-- required, or requiredTokenValue.
unfoldable pub required_of : Verified → Required
required_of v = elim v.asset [
  | none ↦ drops (value_of v.amount)
  | some a ↦ units a (parse_token_value (str v.amount))
]

-- a || null, for the hash of a response.
abbrev or_null : Value → Value
or_null v = elim (as_text v) [ none ↦ null | some t ↦ if length t == 0 then null else v ]

text_value : Option Text → Value
text_value none = null
text_value (some t) = str t

signable : Env → Value → Verified → Response → Option Delivered → Signable
unfolding text_value
signable env req v r delivered = record {
  network = str env.network_name;
  tx_hash = or_null r.hash;
  payer = text_value v.payer;
  pay_to = text_value (as_text (prop "payTo" req));
  asset = asset_value v.asset;
  delivered = delivered_value delivered;
  required = required_value (required_of v);
  ts = num (nat env.now);
}

delivered_of : Check Delivered → Option Delivered
delivered_of (err m) = none
delivered_of (ok d) = some d

reason_of : Check Delivered → Option Message
reason_of (err m) = some m
reason_of (ok d) = none

unfoldable pub succeeded : Check Delivered → Bool
succeeded (err m) = false
succeeded (ok d) = true

-- Only a success is signed.
unfoldable pub proof_of : Env → Value → Verified → Response → Check Delivered → Option Proof
unfolding signable
proof_of env req v r (err m) = none
proof_of env req v r (ok d) = sign_receipt env.crypto (signable env req v r (some d))

unfoldable pub is_confirmed : Option Source → Bool
is_confirmed none = false
is_confirmed (some s) = true

-- The terminal receipt.
unfoldable pub receipt_of : Env → Value → Verified → Plan → Option Source → Response → Receipt
unfolding delivered_of reason_of succeeded proof_of
receipt_of env req v plan source r =
    let o = outcome (required_of v) r in
    record {
      success = succeeded o;
      transaction = r.hash;
      error_reason = reason_of o;
      guardrail_hook_present = guardrail_hook_present plan.node plan.tx.account;
      delivered = delivered_of o;
      payer = v.payer;
      signature_verified = is_confirmed source;
      signature_source = source;
      tx_hash = or_null r.hash;
      pay_to = as_text (prop "payTo" req);
      required = required_of v;
      asset = v.asset;
      ts = env.now;
      proof = proof_of env req v r o;
      hook_executions = decode_hook_executions env.utf8 r.meta;
    }

module _ {S : Type 0} where
  -- The counter of a terminal outcome.
  unfoldable pub classify : Bool → Text → Stage S (Unit {0})
  classify true code = count successes
  classify false code =
      if not (text_eq code (codes "tesSUCCESS"))
      then count_reject on_ledger_failure
      else count_reject delivered_short

  -- The reservation stays: the transaction may be on the ledger.
  unfoldable pub ambiguous : Verified → Option Bool → Stage S Reply
  ambiguous v hook =
      refuse submit_ambiguous
        (record (refusal v.payer
          (says "submit result unknown — reservation retained until validity window expires")) {
            hook = some hook;
          })

  module _ (st : ReplayStore Receipt S) where
    unfoldable pub after_release : Verified → Option Bool → Answer (Unit {0}) → Stage S Reply
    after_release v hook failed = reply escaped
    after_release v hook (answered u) =
        refuse tem_rejected (record (refusal v.payer (says "submit rejected (tem, not applied)")) {
          hook = some hook;
        })

    -- Nothing was applied: the key is free again.
    unfoldable pub not_applied : Verified → Option Bool → Stage S Reply
    unfolding after_release
    not_applied v hook = call (st.release v.replay_id) >>= after_release v hook

    -- The binding of the hash, if there is one; a failure is ignored.
    unfoldable pub bind_hash : ℕ → ℕ → Option Text → Stage S (Unit {0})
    bind_hash expiry now none = give tt
    bind_hash expiry now (some hash) =
        if length hash == 0
        then give tt
        else call (st.set (codes "hash:" ++ hash) expiry now) >>= λ a. give tt

    -- The receipt, and its best-effort persistence.
    unfoldable pub conclude :
        Env → Value → Verified → Plan → Option Source → Response → Stage S Reply
    conclude env req v plan source r = do
      bind_hash (expiry_of env plan) env.now (as_text r.hash)
      let receipt = receipt_of env req v plan source r
      classify receipt.success r.code
      kept ← call (st.set_receipt v.replay_id receipt (expiry_of env plan))
      reply (settled receipt)

    unfoldable pub read_result :
        Env → Value → Verified → Plan → Option Source → Option Response → Stage S Reply
    read_result env req v plan source none =
        ambiguous v (guardrail_hook_present plan.node plan.tx.account)
    read_result env req v plan source (some r) = conclude env req v plan source r

    unfoldable pub submitted_as :
        Env → Value → Verified → Plan → Option Source → Submitted → Stage S Reply
    unfolding read_result
    submitted_as env req v plan source (threw e) =
        if submit_definitely_not_applied e
        then not_applied v (guardrail_hook_present plan.node plan.tx.account)
        else ambiguous v (guardrail_hook_present plan.node plan.tx.account)
    submitted_as env req v plan source (resolved r) =
        read_result env req v plan source (read_response r)

    -- client.submitAndWait, and what follows from it.
    unfoldable pub finish : Env → Value → Verified → Plan → Option Source → Stage S Reply
    finish env req v plan source = do
      send plan.blob
      submitted_as env req v plan source (env.submit_and_wait plan.blob)
