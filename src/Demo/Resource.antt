-- ===== src/Demo/Resource.antt =====
-- x402-xahau/demo/resource-server.mjs: it sells content for payments that a facilitator verifies and
-- settles.
pub mod Sale
pub mod Terms
use xahc.Prelude.{
  ℕ, String, Bool, true, false, not, ◌&&◌, Option, none, some, List, [], ◌∷◌, ◌++◌, ◌==◌,
  if◌then◌else◌, length, map,
}
use xahc.Prelude.Text.{Text, codes, text_eq}
use xahc.Js.{
  Value, null, str, num, nat, arr, obj, end, field, item, no_items, prop, as_text, or_else,
  or_value, is_truthy,
}

-- MERCHANT, FACILITATOR_URL and SHARED_SECRET. `parse` is JSON.parse of a text in base64.
pub record Shop : Type 0 where
  pub merchant : Text
  pub facilitator_url : Text
  pub secret : Text
  pub parse : Text → Option Value

pub record Entry : Type 0 where
  pub price_drops : Text
  pub label : Text
  pub content : Value

abbrev pub premium : Entry
premium = record {
  price_drops = codes "1000000";
  label = codes "premium";
  content = obj (
      field "resource" (str (codes "premium")) (
        field "data"
          (str (codes "The agent autonomously paid 1 XAH and unlocked the premium feed."))
          (field "secretInsight"
            (str (codes "x402 + Xahau Hooks = budget-enforced agentic payments.")) end)));
}

abbrev pub premium_plus : Entry
premium_plus = record {
  price_drops = codes "10000000";
  label = codes "premium-plus";
  content = obj (
      field "resource" (str (codes "premium-plus")) (
        field "data"
          (str (
            codes
              "If you can read this, the guardrail FAILED — the agent should never afford this."))
          end));
}

-- CATALOG
unfoldable pub catalog : List (Text × Entry)
catalog = (codes "/premium", premium) ∷ (codes "/premium-plus", premium_plus) ∷ []

-- CATALOG[url]; a URL starts with a slash, and no inherited name does.
unfoldable pub entry_in : List (Text × Entry) → Text → Option Entry
entry_in [] url = none
entry_in ((path, e) ∷ rest) url =
    let found = entry_in rest url in if text_eq path url then some e else found

-- The offer of a resource: accepts[0].
unfoldable pub offer : Text → Text → Text → Value
offer merchant path price = obj (
    field "scheme" (str (codes "exact")) (
      field "network" (str (codes "xahau")) (
        field "payTo" (str merchant) (
          field "maxAmountRequired" (str price) (
            field "resource" (str path) (
              field "description" (str (codes "Access to " ++ path)) (
                field "mimeType" (str (codes "application/json"))
                  (field "maxTimeoutSeconds" (num (nat 120)) end))))))))

-- paymentRequirements
unfoldable pub payment_requirements : Text → Text → Text → Value
payment_requirements merchant path price = obj (
    field "x402Version" (num (nat 2))
      (field "accepts" (arr (item (offer merchant path price) no_items)) end))

-- The requirements that the facilitator is sent.
unfoldable pub requirements : Value → Value
requirements accept = obj (
    field "payTo" (prop "payTo" accept) (
      field "maxAmountRequired" (prop "maxAmountRequired" accept) (
        field "network" (str (codes "xahau"))
          (field "maxTimeoutSeconds" (prop "maxTimeoutSeconds" accept) end))))

abbrev pub payload_of : Text → Value
payload_of blob = obj (field "txBlob" (str blob) end)

unfoldable pub posted : Text → Value → Value
posted blob accept = obj (
    field "paymentPayload" (payload_of blob)
      (field "paymentRequirements" (requirements accept) end))

-- A response of the facilitator; `none` is a body that is no JSON.
pub record Fetched : Type 0 where
  pub status : ℕ
  pub json : Option Value

-- fetch with POST: the path, the header x-x402-secret and the body. `none` is an exception.
pub record Facilitator (F : Type 0) : Type 0 where
  pub post : Text → Option Text → Value → F → Option Fetched × F

-- parsePaymentHeader: the blob of a payment.
some_blob : Option Text → Option Text
some_blob none = none
some_blob (some t) = if length t == 0 then none else some t

blob_of : Option Value → Option Text
unfolding some_blob
blob_of none = none
blob_of (some v) = some_blob (as_text (prop "txBlob" v))

unfoldable pub payment_blob : (Text → Option Value) → Option Text → Option Text
unfolding blob_of
payment_blob parse none = none
payment_blob parse (some h) = if length h == 0 then none else blob_of (parse h)

-- a || `facilitator ${path} HTTP ${status}`
pub data Reason : Type 0 where
  given : Value → Reason
  http : Text → ℕ → Reason

abbrev reason_or : Value → Text → ℕ → Reason
reason_or v path status = if is_truthy v then given v else http path status

-- What a settlement that failed is answered with. The page of the transaction, if there is one, is the
-- explorer's URL before it.
pub record Denial : Type 0 where
  pub reason : Reason
  pub transaction : Value
  pub guardrail_hook_present : Value
  pub explorer : Option Value

pub record Payment : Type 0 where
  pub transaction : Value
  pub delivered : Value
  pub guardrail_hook_present : Value

-- The bodies of the responses. `challenge` has the header x-accept-payment, `sold` the header
-- x-payment-response, in base64, of the transaction and what was delivered.
pub data Content : Type 0 where
  health : Text → Text → List Text → Content
  not_found internal_error : Content
  challenge : Value → Content
  verification_failed : Reason → Value → Content
  settlement_failed : Denial → Value → Content
  sold : Value → Payment → Content

pub record Response : Type 0 where
  pub status : ℕ
  pub content : Content

pub record Req : Type 0 where
  pub method : Text
  pub url : Text
  pub x_payment : Option Text

-- The entry that a request is for.
unfoldable pub entry_for : Req → Option Entry
entry_for req = if text_eq req.method (codes "GET") then entry_in catalog req.url else none

-- r.json().catch(() => ({}))
abbrev pub json_of : Fetched → Value
json_of a = elim a.json [ none ↦ obj end | some v ↦ v ]

abbrev first_or_null : Value → Value
first_or_null v = or_value v null

-- A test of a response: 200, and a field that is truthy.
abbrev pub accepts : String → Fetched → Bool
accepts k a = a.status == 200 && is_truthy (prop k (json_of a))

unfoldable pub denial : Fetched → Denial
denial a =
    let json = json_of a in
    let transaction = prop "transaction" json in
    record {
      reason = reason_or (prop "errorReason" json) (codes "/settle") a.status;
      transaction = first_or_null transaction;
      guardrail_hook_present = or_else (prop "guardrailHookPresent" json) null;
      explorer = if is_truthy transaction then some transaction else none;
    }

unfoldable pub payment : Fetched → Payment
payment a =
    let json = json_of a in
    record {
      transaction = prop "transaction" json;
      delivered = prop "delivered" json;
      guardrail_hook_present = prop "guardrailHookPresent" json;
    }

-- The header x-x402-secret: it is sent to /settle only.
unfoldable pub secret_for : Shop → Text → Option Text
secret_for shop path =
    if not (length shop.secret == 0) && text_eq path (codes "/settle")
    then some shop.secret
    else none

module _ {F : Type 0} where
  unfoldable pub send : ℕ → Content → F → Response × F
  send status content f = (record { status = status; content = content }, f)

  unfoldable pub facilitator_post : Facilitator F → Shop → Text → Value → F → Option Fetched × F
  facilitator_post fac shop path body = fac.post path (secret_for shop path) body

  unfoldable pub after_settle : Entry → Value → Option Fetched × F → Response × F
  after_settle e reqs (none, f) = send 500 internal_error f
  after_settle e reqs (some a, f) =
      if not (accepts "success" a)
      then send 402 (settlement_failed (denial a) reqs) f
      else send 200 (sold e.content (payment a)) f

  unfoldable pub after_verify :
      Facilitator F → Shop → Entry → Value → Value → Option Fetched × F → Response × F
  after_verify fac shop e reqs body (none, f) = send 500 internal_error f
  after_verify fac shop e reqs body (some a, f) =
      if not (accepts "isValid" a)
      then send 402
          (verification_failed
            (reason_or (prop "invalidReason" (json_of a)) (codes "/verify") a.status) reqs)
          f
      else after_settle e reqs (facilitator_post fac shop (codes "/settle") body f)

  -- What follows from the payment that is presented, if one is.
  unfoldable pub sell : Facilitator F → Shop → Text → Entry → Option Text → F → Response × F
  sell fac shop path e none f =
      send 402 (challenge (payment_requirements shop.merchant path e.price_drops)) f
  sell fac shop path e (some blob) f =
      let body = posted blob (offer shop.merchant path e.price_drops) in
      after_verify fac shop e (payment_requirements shop.merchant path e.price_drops) body
        (facilitator_post fac shop (codes "/verify") body f)

  unfoldable pub serve_entry : Facilitator F → Shop → Req → Option Entry → F → Response × F
  serve_entry fac shop req none = send 404 not_found
  serve_entry fac shop req (some e) =
      sell fac shop req.url e (payment_blob shop.parse req.x_payment)

  unfoldable pub serve : Facilitator F → Shop → Req → F → Response × F
  serve fac shop req f =
      if text_eq req.method (codes "GET") && text_eq req.url (codes "/health")
      then send 200 (health shop.merchant shop.facilitator_url (map (λ p. p.0) catalog)) f
      else serve_entry fac shop req (entry_for req) f
