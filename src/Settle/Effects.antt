-- ===== src/Settle/Effects.antt =====
-- What settle of x402-xahau/server.mjs reads and changes, and its replies. A call reads its clock three
-- times: for the first look at the store, for the reservation, and for a receipt after a lost race.
use xahc.Prelude.{ℕ, Bool, true, false, Option, none, List, ◌∷◌}
use xahc.Prelude.Text.{Text}
use xahc.Message.{Message, says, Check}
use xahc.Js.{Value}
use xahc.Libs.{Libs}
use xahc.Store.Window.{Window}
use xahc.Node.{Node}
use xahc.Authorize.{Source}
use xahc.Receipt.{Crypto, Proof}
use xahc.Hooks.{Execution, Utf8}
use xahc.Metrics.{Metrics, Bucket, other, Counter, metric_inc, record_settle_reject}
use xahc.Settle.Simulate.{Mcp, Simulation}
use xahc.Settle.Submit.{Submitted}
use xahc.Settle.Outcome.{Delivered, Required}
use xahc.Amount.Issued.{Asset}

-- The terminal receipt: the on-ledger outcome of a payment that was submitted.
pub record Receipt : Type 0 where
  pub success : Bool
  pub transaction : Value
  pub error_reason : Option Message
  pub guardrail_hook_present : Option Bool
  pub delivered : Option Delivered
  pub payer : Option Text
  pub signature_verified : Bool
  pub signature_source : Option Source
  pub tx_hash : Value
  pub pay_to : Option Text
  pub required : Required
  pub asset : Option Asset
  pub ts : ℕ
  pub proof : Option Proof
  pub hook_executions : List Execution

-- A reply { success: false, transaction: "" } that is no receipt. `hook` is absent before the Hook
-- is looked for.
pub record Refusal : Type 0 where
  pub payer : Option Text
  pub reason : Message
  pub retryable : Bool
  pub in_flight : Bool
  pub hook : Option (Option Bool)

pub data Reply : Type 0 where
  refused : Refusal → Reply
  dry_run : Option Text → Simulation → Reply
  predicted_reject : Option Text → Simulation → Reply
  settled : Receipt → Reply
  replayed : Receipt → Reply
  -- An exception that leaves settle.
  escaped : Reply

-- The surroundings of one call. `client` is a connected node, or the message of getClient's error;
-- `get_ledger` is currentValidatedLedger, or the fetcher that is injected.
pub record Env : Type 0 where
  pub wss : Bool
  pub network : ℕ
  pub network_name : Text
  pub libs : Libs
  pub window : Window
  pub crypto : Crypto
  pub utf8 : Utf8
  pub mcp : Mcp
  pub dry_run : Bool
  pub pre_sim_reject : Bool
  pub client : Check Node
  pub get_ledger : Node → Option ℕ
  pub submit_and_wait : Text → Submitted
  pub read_at : ℕ
  pub now : ℕ
  pub reread_at : ℕ

pub record World (S : Type 0) : Type 0 where
  pub store : S
  pub metrics : Metrics
  pub submitted : List Text

pub data Exit {ℓ} (A : Type ℓ) : Type ℓ where
  stop : Reply → Exit A
  go : A → Exit A

-- A stage of settle: it ends the call with a reply, or goes on.
abbrev pub Stage {ℓ} : Type 0 → Type ℓ → Type ℓ
Stage S A = World S → Exit A × World S

module _ {S : Type 0} where
  abbrev pub resume {ℓ κ} :
      {A : Type ℓ} {B : Type κ} → (A → Stage S B) → Exit A × World S → Exit B × World S
  resume f (stop r, w) = (stop r, w)
  resume f (go a, w) = f a w

  infixl 5 ◌>>=◌ ◌>>◌
  unfoldable pub ◌>>=◌ {ℓ κ} : {A : Type ℓ} {B : Type κ} → Stage S A → (A → Stage S B) → Stage S B
  (m >>= f) w = resume f (m w)

  unfoldable pub ◌>>◌ {ℓ} : {B : Type ℓ} → Stage S (Unit {0}) → Stage S B → Stage S B
  (m >> k) w = resume (λ u. k) (m w)

  unfoldable pub give {ℓ} : {A : Type ℓ} → A → Stage S A
  give a w = (go a, w)

  unfoldable pub reply {ℓ} : {A : Type ℓ} → Reply → Stage S A
  reply r w = (stop r, w)

  unfoldable pub count : Counter → Stage S (Unit {0})
  count c w = (go tt, record w { metrics = metric_inc c w.metrics })

  unfoldable pub count_reject : Bucket → Stage S (Unit {0})
  count_reject b w = (go tt, record w { metrics = record_settle_reject b w.metrics })

  -- recordSettleReject(b); return { success: false, ... }
  unfoldable pub refuse {ℓ} : {A : Type ℓ} → Bucket → Refusal → Stage S A
  refuse b r w = (stop (refused r), record w { metrics = record_settle_reject b w.metrics })

  -- A call of the store.
  unfoldable pub call {ℓ} : {A : Type ℓ} → (S → A × S) → Stage S A
  call f w = let (a, s) = f w.store in (go a, record w { store = s })

  unfoldable pub send : Text → Stage S (Unit {0})
  send blob w = (go tt, record w { submitted = blob ∷ w.submitted })

abbrev pub refusal : Option Text → Message → Refusal
refusal payer reason = record {
  payer = payer;
  reason = reason;
  retryable = false;
  in_flight = false;
  hook = none;
}

-- settleStoreUnavailable
unfoldable pub settle_store_unavailable {ℓ} : {S : Type 0} {A : Type ℓ} → Option Text → Stage S A
settle_store_unavailable payer =
    refuse other (record (refusal payer (says "replay store unavailable")) { retryable = true })
