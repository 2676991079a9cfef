-- ===== src/Settle.antt =====
-- settle of x402-xahau/server.mjs, by its stages.
pub mod Simulate
pub mod Submit
pub mod Outcome
pub mod Effects
pub mod Before
pub mod After
pub mod Laws
pub mod Along
pub mod Binding
pub mod Opening
pub mod Submission
pub mod Claim
pub mod Held
pub mod Once
pub mod Paid
pub mod Success
pub mod Race
pub mod OnRedis
use xahc.Prelude.{ℕ, Bool, Option, none, some, if◌then◌else◌}
use xahc.Message.{says}
use xahc.Js.{Value}
use xahc.Store.Interface.{ReplayStore}
use xahc.Metrics.{Bucket, verify_failed, other, settle_calls}
use Effects.{
  Reply, Receipt, Env, World, Exit, stop, go, Stage, give, refuse, refusal, count, ◌>>=◌, ◌>>◌,
}
use xahc.Verify.{Verified}
use xahc.Authorize.{Source}
use Before.{Plan, checked, verified, advise, unconsumed, admit, authority, expiry_of, claim}
use After.{finish}

module _ {S : Type 0} (st : ReplayStore Receipt S) where
  unfoldable pub configured : Env → Stage S (Unit {0})
  configured env =
      if env.wss then give tt else refuse other (refusal none (says "set XAHAU_WSS to settle"))

  unfoldable pub secure : Env → Value → Verified → Plan → Option Source → Stage S Reply
  secure env req v plan source = do
    claim st env v (expiry_of env plan)
    finish st env req v plan source

  unfoldable pub authorize : Env → Value → Verified → Plan → Stage S Reply
  authorize env req v plan = do
    source ← checked verify_failed v.payer (authority env v plan)
    secure env req v plan source

  unfoldable pub prepare : Env → Value → Value → Verified → Stage S Reply
  prepare env payload req v = do
    plan ← checked other v.payer (admit env payload)
    authorize env req v plan

  -- What follows once the payment is verified and no advice ends the call.
  unfoldable pub attempt : Env → Value → Value → Verified → Stage S Reply
  attempt env payload req v = do unconsumed st env v; prepare env payload req v

  unfoldable pub advised : Env → Value → Value → Verified → Stage S Reply
  advised env payload req v = do advise env v; attempt env payload req v

  unfoldable pub opening : Env → Value → Value → Stage S Reply
  opening env payload req = do v ← verified env payload req; advised env payload req v

  unfoldable pub start : Env → Value → Value → Stage S Reply
  start env payload req = do configured env; opening env payload req

  unfoldable pub stages : Env → Value → Value → Stage S Reply
  stages env payload req = do count settle_calls; start env payload req

  unfoldable pub reply_of : Exit Reply × World S → Reply × World S
  reply_of (stop r, w) = (r, w)
  reply_of (go r, w) = (r, w)

  unfoldable pub settle : Env → Value → Value → World S → Reply × World S
  unfolding reply_of
  settle env payload req w = reply_of (stages env payload req w)
