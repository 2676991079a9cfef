-- ===== src/Settle/Success.antt =====
-- What settle answers with a receipt of its own: the verified payment, the authority, and the answer of
-- the ledger that the receipt is made of.
pub mod Ensured
pub mod Before
pub mod After
use xahc.Prelude.{
  ℕ, ◌==◌, length, ◌≡◌, refl, sym, ap, ◌∙◌, subst, Bool, true, false, ◌&&◌, Option, none, some,
  Bool-cases, inl, inr,
}
use xahc.Prelude.Text.{Text, codes, text_eq}
use xahc.Settle.Simulate.{simulate_payment, predicts_reject}
use xahc.Message.{Check, ok, err}
use xahc.Js.{Value, as_text}
use xahc.Verify.{Verified, verify_exact}
use xahc.Authorize.{Source}
use xahc.Metrics.{Bucket, Counter, settle_calls, verify_failed, other}
use xahc.Store.Memory.{Reserved, reserved, exists, full}
use xahc.Store.Interface.{Answer, answered, failed, ReplayStore}
use xahc.Settle.Submit.{
  Submitted, threw, resolved, Response, read_response, submit_definitely_not_applied,
}
use xahc.Settle.Effects.{
  Receipt, Reply, refused, dry_run, predicted_reject, settled, replayed, escaped, Env, World, Exit,
  stop, go, Stage, resume, ◌>>=◌, ◌>>◌, give, reply, refuse, count, count_reject, call, send,
  settle_store_unavailable,
}
use xahc.Settle.Before.{
  Plan, admit, authority, expiry_of, checked, opened, verified, advise, available_or_stop, asked,
  answer_replay, look_up, unconsumed, lost_race, claimed, claim,
}
use xahc.Settle.After.{
  receipt_of, required_of, ambiguous, after_release, not_applied, bind_hash, classify, conclude,
  read_result, submitted_as, finish,
}
use xahc.Settle.{
  configured, secure, authorize, prepare, attempt, advised, opening, start, stages, reply_of,
  settle,
}
use xahc.Settle.Paid.{IsPaidOut, receipt_of-success}
use xahc.Settle.Success.Ensured.{
  IsSettlement, Backed, Meets, Any, Ensures, bind-Ensures, then-Ensures, call-Ensures, send-Ensures,
  count-Ensures,
}
use xahc.Settle.Success.Before.{
  opened-Ensures, checked-Ensures, advise-Ensures, unconsumed-Ensures, claim-Ensures,
  configured-Ensures,
}
use xahc.Settle.Success.After.{finish-Ensures}

module _ {S : Type 0} (st : ReplayStore Receipt S) (env : Env) (payload req : Value) where
  abbrev Good : Reply → Type 0
  Good = Backed env payload req

  module _ (v : Verified) (plan : Plan) (source : Option Source)
      (accepted : verify_exact env.libs env.network payload req ≡ ok v)
      (admitted : admit env payload ≡ ok plan) (trusted : authority env v plan ≡ ok source) where
    secure-Ensures : Ensures Good Good (secure st env req v plan source)
    unfolding secure
    secure-Ensures =
        then-Ensures Good Good _ _ (claim-Ensures st env payload req v (expiry_of env plan))
          (finish-Ensures st env payload req v plan source accepted admitted trusted)

  module _ (v : Verified) (accepted : verify_exact env.libs env.network payload req ≡ ok v) where
    authorize-Ensures :
        (plan : Plan)
        → admit env payload ≡ ok plan
        → Ensures Good Good (authorize st env req v plan)
    unfolding authorize
    authorize-Ensures plan admitted =
        bind-Ensures Good (λ s. authority env v plan ≡ ok s) Good _ _
          (checked-Ensures st env payload req verify_failed v.payer (authority env v plan))
          (λ source trusted. secure-Ensures v plan source accepted admitted trusted)

    prepare-Ensures : Ensures Good Good (prepare st env payload req v)
    unfolding prepare
    prepare-Ensures =
        bind-Ensures Good (λ p. admit env payload ≡ ok p) Good _ _
          (checked-Ensures st env payload req other v.payer (admit env payload)) authorize-Ensures

    attempt-Ensures : Ensures Good Good (attempt st env payload req v)
    unfolding attempt
    attempt-Ensures =
        then-Ensures Good Good _ _ (unconsumed-Ensures st env payload req v) prepare-Ensures

    advised-Ensures : Ensures Good Good (advised st env payload req v)
    unfolding advised
    advised-Ensures =
        then-Ensures Good Good _ _ (advise-Ensures st env payload req v) attempt-Ensures

  stages-Ensures : Ensures Good Good (stages st env payload req)
  unfolding stages start opening verified
  stages-Ensures = then-Ensures Good Good _ _ (count-Ensures Good settle_calls) (
      then-Ensures Good Good _ _ (configured-Ensures st env payload req) (
        bind-Ensures Good (λ v. verify_exact env.libs env.network payload req ≡ ok v) Good _ _
          (opened-Ensures st env payload req (verify_exact env.libs env.network payload req))
          advised-Ensures))

  pub reply_of-Good : (x : Exit Reply × World S) → Meets Good Good x.0 → Good (reply_of st x).0
  unfolding reply_of
  reply_of-Good (stop r, w) h = h
  reply_of-Good (go r, w) h = h

  -- A receipt that settle makes is of a payment that verifyExact accepts, that is within its window and
  -- authorized, and it is made of what submitAndWait resolves to.
  pub settle-IsSettlement :
      (w : World S) (r : Receipt)
      → (settle st env payload req w).0 ≡ settled r
      → IsSettlement env payload req r
  unfolding settle
  settle-IsSettlement w r h =
      subst Good h (reply_of-Good (stages st env payload req w) (stages-Ensures w))

  -- What the ledger reports of the payment that the receipt is about.
  pub record IsPaid (r : Receipt) : Type 0 where
    pub settlement : IsSettlement env payload req r
    pub code : text_eq settlement.response.code (codes "tesSUCCESS") ≡ true
    pub out : IsPaidOut (required_of settlement.v) settlement.response.meta

  pub IsSettlement-IsPaid :
      (r : Receipt) → IsSettlement env payload req r → r.success ≡ true → IsPaid r
  IsSettlement-IsPaid r s success =
      let (code, out) =
        receipt_of-success env req s.v s.plan s.source s.response
          (ap (λ x. x.success) (sym s.result) ∙ success) in
      record { settlement = s; code = code; out = out }

  -- When settle answers with a receipt of success of its own, verifyExact accepts the payment, and the
  -- ledger reports tesSUCCESS and a delivered amount that meets what the payment commits to.
  pub settle-IsPaid :
      (w : World S) (r : Receipt)
      → (settle st env payload req w).0 ≡ settled r
      → r.success ≡ true
      → IsPaid r
  settle-IsPaid w r h success = IsSettlement-IsPaid r (settle-IsSettlement w r h) success
