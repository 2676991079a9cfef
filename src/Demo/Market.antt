-- ===== src/Demo/Market.antt =====
-- The programs of x402-xahau/demo together: the resource server of resource-server.mjs, over the
-- launcher of facilitator-testnet.mjs as its facilitator.
pub mod Earned
use xahc.Prelude.{ℕ, Bool, true, false, Option, none, some, List, [], ◌++◌, if◌then◌else◌}
use xahc.Prelude.Text.{Text, codes}
use xahc.Digits.{decimal}
use xahc.Message.{Message, says, said, wraps, code, Check, ok, err}
use xahc.Js.{Value, undefined, null, bool, str, obj, end, field}
use xahc.Verify.{Verified}
use xahc.Store.Interface.{ReplayStore}
use xahc.Settle.Outcome.{Delivered, delivered_value}
use xahc.Settle.Effects.{
  Receipt, Refusal, Reply, refused, dry_run, predicted_reject, settled, replayed, escaped, World,
}
use xahc.Http.Body.{Event}
use xahc.Http.Request
use xahc.Demo.Facilitator
use xahc.Demo.Facilitator.{Launcher}
use xahc.Demo.Resource.{Fetched, Facilitator}

unfoldable pub message_text : Message → Text
message_text (says s) = codes s
message_text (said a n b) = codes a ++ (decimal n ++ codes b)
message_text (wraps a m) = let rest = message_text m in codes a ++ rest
message_text (code t) = t

abbrev hook_value : Option Bool → Value
hook_value none = null
hook_value (some b) = bool b

abbrev hook_field : Option (Option Bool) → Value
hook_field none = undefined
hook_field (some h) = hook_value h

abbrev reason_value : Option Message → Value
reason_value none = undefined
reason_value (some m) = str (message_text m)

abbrev delivered_field : Option Delivered → Value
delivered_field none = undefined
delivered_field (some d) = delivered_value (some d)

-- The fields of the launcher's JSON that the resource server reads.
unfoldable pub receipt_json : Receipt → Value
receipt_json r = obj (
    field "success" (bool r.success) (
      field "transaction" r.transaction (
        field "errorReason" (reason_value r.error_reason) (
          field "guardrailHookPresent" (hook_value r.guardrail_hook_present)
            (field "delivered" (delivered_field r.delivered) end)))))

refusal_json : Refusal → Value
refusal_json r = obj (
    field "success" (bool false) (
      field "transaction" (str []) (
        field "errorReason" (str (message_text r.reason))
          (field "guardrailHookPresent" (hook_field r.hook) end))))

unfoldable pub reply_json : Reply → Value
unfolding refusal_json
reply_json (settled r) = receipt_json r
reply_json (replayed r) = receipt_json r
reply_json (refused r) = refusal_json r
reply_json (dry_run payer sim) = obj (field "success" (bool false) end)
reply_json (predicted_reject payer sim) = obj (field "success" (bool false) end)
reply_json escaped = obj end

unfoldable pub verified_json : Check Verified → Value
verified_json (ok v) = obj (field "isValid" (bool true) (field "invalidReason" null end))
verified_json (err m) =
    obj (field "isValid" (bool false) (field "invalidReason" (str (message_text m)) end))

unfoldable pub content_json : Facilitator.Content → Value
content_json (Facilitator.error m) = obj (field "error" (str (codes m)) end)
content_json Facilitator.health = obj end
content_json Facilitator.kinds = obj end
content_json (Facilitator.verified_as c) = verified_json c
content_json (Facilitator.settlement r) = reply_json r

-- fetch gives up on a response that does not come.
unfoldable pub fetched :
    {S : Type 0} → Option Facilitator.Response × World S → Option Fetched × World S
fetched (none, w) = (none, w)
fetched (some r, w) = (some (record { status = r.status; json = some (content_json r.content) }), w)

abbrev pub post_of : Text → Option Text → List Event → Request.Req
post_of path secret events = record {
  method = codes "POST";
  url = path;
  x402_secret = secret;
  accept = [];
  remote_address = none;
  forwarded_for = none;
  events = events;
}

-- The launcher over HTTP; `wire` is the stream of a body, JSON.stringify in chunks.
unfoldable pub through :
    {S : Type 0} → ReplayStore Receipt S → Launcher → (Value → List Event) → Facilitator (World S)
through st l wire = record {
  post =
      λ path secret body w. fetched (Facilitator.handle st l (post_of path secret (wire body)) w);
}
