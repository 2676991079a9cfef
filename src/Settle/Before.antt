-- ===== src/Settle/Before.antt =====
-- What settle of x402-xahau/server.mjs does before it submits: the checks, the advice of the
-- simulation, the first look at the store, and the reservation.
use xahc.Prelude.{ℕ, ◌-◌, Bool, true, false, ◌&&◌, Option, none, some, if◌then◌else◌, ltb, leb}
use xahc.Prelude.Text.{Text}
use xahc.Message.{says, said, wraps, Check, ok, err}
use xahc.Js.{Value, prop, as_text}
use xahc.Libs.{Tx}
use xahc.Node.{Node}
use xahc.Verify.{Verified, verify_exact, is_multisig}
use xahc.Authorize.{Source, master, authorized, rejected, fallback, authorize_on_ledger}
use xahc.Store.Window.{max_validity_ledgers, consumed_expiry_for}
use xahc.Store.Memory.{Reserved, reserved, exists, full}
use xahc.Store.Interface.{Answer, answered, failed, ReplayStore}
use xahc.Metrics.{Bucket, verify_failed, replay_inflight, store_full, replays}
use xahc.Settle.Simulate.{simulate_payment, predicts_reject}
use xahc.Settle.Effects.{
  Receipt, dry_run, predicted_reject, replayed, escaped, Env, Stage, give, reply, refuse, refusal,
  count, call, ◌>>=◌, ◌>>◌, settle_store_unavailable,
}

-- The payment, decoded, and the ledgers of its window.
pub record Plan : Type 0 where
  pub blob : Text
  pub tx : Tx
  pub node : Node
  pub current : ℕ
  pub last : ℕ

unfoldable pub decoded : Env → Value → Check (Text × Tx)
decoded env payload = elim (as_text (prop "txBlob" payload)) [
  | none ↦ err (says "undecodable txBlob")
  | some blob ↦ elim (env.libs.decode blob) [
    | none ↦ err (says "undecodable txBlob")
    | some tx ↦ ok (blob, tx)
  ]
]

-- The bound on the window of the transaction.
in_window : Env → ℕ → Option ℕ → Check ℕ
in_window env current none = err (says "LastLedgerSequence not in the future")
in_window env current (some last) =
    if leb last current
    then err (says "LastLedgerSequence not in the future")
    else if ltb (max_validity_ledgers env.window) (last - current)
    then err (
        said "validity window too large (LastLedgerSequence > " (max_validity_ledgers env.window)
          " ledgers ahead)")
    else ok last

plan_on : Env → Text → Tx → Node → Check Plan
unfolding in_window
plan_on env blob tx node = elim (env.get_ledger node) [
  | none ↦ err (says "could not read current ledger (cannot bound validity window)")
  | some current ↦ elim (in_window env current tx.last_ledger_sequence) [
    | err m ↦ err m
    | ok last ↦ ok (record { blob = blob; tx = tx; node = node; current = current; last = last })
  ]
]

-- Decode, connect, and bound the window.
unfoldable pub admit : Env → Value → Check Plan
unfolding decoded plan_on
admit env payload = elim (decoded env payload) [
  | err m ↦ err m
  | ok (blob, tx) ↦ elim env.client [ err m ↦ err m | ok node ↦ plan_on env blob tx node ]
]

-- The source that confirms the signer: the offline check, or the ledger. `none` leaves the decision to
-- the ledger at submission.
unfoldable pub authority : Env → Verified → Plan → Check (Option Source)
authority env v p =
    if v.signature_verified
    then ok (some master)
    else elim (authorize_on_ledger env.libs p.node p.tx (is_multisig p.tx)) [
      | authorized s ↦ ok (some s)
      | rejected m ↦ err m
      | fallback ↦ ok none
    ]

unfoldable pub expiry_of : Env → Plan → ℕ
expiry_of env p = consumed_expiry_for env.window (some p.last) (some p.current) env.now

-- receipt.payer ?? v.payer
abbrev pub or_payer : Option Text → Option Text → Option Text
or_payer (some p) payer = some p
or_payer none payer = payer

module _ {S : Type 0} where
  -- A check that failed is counted in its bucket.
  unfoldable pub checked {ℓ} : {A : Type ℓ} → Bucket → Option Text → Check A → Stage S A
  checked b payer (err m) = refuse b (refusal payer m)
  checked b payer (ok a) = give a

  unfoldable pub opened : Check Verified → Stage S Verified
  opened (err m) = refuse verify_failed (refusal none (wraps "verify failed: " m))
  opened (ok v) = give v

  unfoldable pub verified : Env → Value → Value → Stage S Verified
  verified env payload req = opened (verify_exact env.libs env.network payload req)

  -- dryRun, and preSimReject with a prediction of a reject.
  unfoldable pub advise : Env → Verified → Stage S (Unit {0})
  advise env v =
      if env.dry_run
      then reply (dry_run v.payer (simulate_payment env.mcp))
      else if env.pre_sim_reject && predicts_reject (simulate_payment env.mcp)
      then reply (predicted_reject v.payer (simulate_payment env.mcp))
      else give tt

  unfoldable pub available_or_stop {ℓ} : {A : Type ℓ} → Option Text → Answer A → Stage S A
  available_or_stop payer failed = settle_store_unavailable payer
  available_or_stop payer (answered a) = give a

  -- The stored receipt, or the refusal of a payment whose outcome is open.
  unfoldable pub answer_replay {ℓ} : {A : Type ℓ} → Verified → Option Receipt → Stage S A
  answer_replay v none =
      refuse replay_inflight
        (record (refusal v.payer (says "replay: payment already consumed")) { in_flight = true })
  answer_replay v (some r) = do
    count replays
    reply (replayed (record r { payer = or_payer r.payer v.payer }))

  module _ (st : ReplayStore Receipt S) where
    unfoldable pub asked {ℓ} : {A : Type ℓ} → Option Text → (S → Answer A × S) → Stage S A
    asked payer f = do a ← call f; available_or_stop payer a

    unfoldable pub look_up : Env → Verified → Bool → Stage S (Unit {0})
    look_up env v false = give tt
    look_up env v true = asked v.payer (st.get_receipt v.replay_id env.read_at) >>= answer_replay v

    unfoldable pub unconsumed : Env → Verified → Stage S (Unit {0})
    unconsumed env v = asked v.payer (st.is_consumed v.replay_id env.read_at) >>= look_up env v

    -- After a lost race the receipt is read without a guard: a store that fails here ends the call
    -- with its exception.
    unfoldable pub lost_race : Env → Verified → Answer (Option Receipt) → Stage S (Unit {0})
    lost_race env v failed = reply escaped
    lost_race env v (answered r) = answer_replay v r

    unfoldable pub claimed : Env → Verified → Reserved → Stage S (Unit {0})
    claimed env v reserved = give tt
    claimed env v full =
        refuse store_full
          (record (refusal v.payer (says "replay store full, retry later")) { retryable = true })
    claimed env v exists = call (st.get_receipt v.replay_id env.reread_at) >>= lost_race env v

    unfoldable pub claim : Env → Verified → ℕ → Stage S (Unit {0})
    claim env v expiry = asked v.payer (st.reserve v.replay_id expiry env.now) >>= claimed env v
