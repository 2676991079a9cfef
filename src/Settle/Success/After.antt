-- ===== src/Settle/Success/After.antt =====
-- A receipt that settle makes after it submits is of what submitAndWait resolves to.
use xahc.Prelude.{
  ℕ, ◌==◌, length, ◌≡◌, refl, Bool, true, false, Option, none, some, Bool-cases, inl, inr,
}
use xahc.Prelude.Text.{Text, codes, text_eq}
use xahc.Message.{ok}
use xahc.Js.{Value, as_text}
use xahc.Verify.{Verified, verify_exact}
use xahc.Authorize.{Source}
use xahc.Store.Interface.{Answer, answered, failed, ReplayStore}
use xahc.Settle.Submit.{
  Submitted, threw, resolved, Response, read_response, submit_definitely_not_applied,
}
use xahc.Settle.Effects.{Receipt, Reply, Env, ◌>>=◌, give, reply, refuse, count, count_reject, call}
use xahc.Settle.Before.{Plan, admit, authority, expiry_of}
use xahc.Settle.After.{
  receipt_of, ambiguous, after_release, not_applied, bind_hash, classify, conclude, read_result,
  submitted_as, finish,
}
use xahc.Settle.Success.Ensured.{
  IsSettlement, Backed, Any, Ensures, bind-Ensures, then-Ensures, call-Ensures, send-Ensures,
}

module _ {S : Type 0} (st : ReplayStore Receipt S) (env : Env) (payload req : Value) where
  abbrev Good : Reply → Type 0
  Good = Backed env payload req

  bind_hash-Ensures :
      (expiry now : ℕ) (h : Option Text) → Ensures Good Any (bind_hash st expiry now h)
  unfolding bind_hash give ◌>>=◌ call
  bind_hash-Ensures expiry now none w = tt
  bind_hash-Ensures expiry now (some h) w = elim (Bool-cases (length h == 0)) [
    | inl e ↦ rw e tt
    | inr e ↦ rw e tt
  ]

  classify-Ensures : (b : Bool) (code : Text) → Ensures {S = S} Good Any (classify b code)
  unfolding classify count count_reject
  classify-Ensures true code w = tt
  classify-Ensures false code w = elim (Bool-cases (text_eq code (codes "tesSUCCESS"))) [
    | inl e ↦ rw e tt
    | inr e ↦ rw e tt
  ]

  after_release-Ensures :
      (v : Verified) (hook : Option Bool) (a : Answer (Unit {0}))
      → Ensures Good Good (after_release st v hook a)
  unfolding after_release reply refuse
  after_release-Ensures v hook failed w = tt
  after_release-Ensures v hook (answered u) w = tt

  not_applied-Ensures :
      (v : Verified) (hook : Option Bool) → Ensures Good Good (not_applied st v hook)
  unfolding not_applied
  not_applied-Ensures v hook =
      bind-Ensures Good Any Good (call (st.release v.replay_id)) (after_release st v hook)
        (call-Ensures Good (st.release v.replay_id)) (λ a q. after_release-Ensures v hook a)

  module _ (v : Verified) (plan : Plan) (source : Option Source)
      (accepted : verify_exact env.libs env.network payload req ≡ ok v)
      (admitted : admit env payload ≡ ok plan) (trusted : authority env v plan ≡ ok source) where
    conclude-Ensures :
        (raw : Value) (response : Response)
        → env.submit_and_wait plan.blob ≡ resolved raw
        → read_response raw ≡ some response
        → Ensures Good Good (conclude st env req v plan source response)
    unfolding conclude reply
    conclude-Ensures raw response hs hr =
        let receipt = receipt_of env req v plan source response in
        let backed : IsSettlement env payload req receipt = record {
          v = v;
          plan = plan;
          source = source;
          raw = raw;
          response = response;
          accepted = accepted;
          admitted = admitted;
          trusted = trusted;
          submitted = hs;
          read = hr;
          result = refl;
        } in
        then-Ensures Good Good _ _
          (bind_hash-Ensures (expiry_of env plan) env.now (as_text response.hash))
          (then-Ensures Good Good _ _ (classify-Ensures receipt.success response.code) (
            bind-Ensures Good Any Good _ _
              (call-Ensures Good (st.set_receipt v.replay_id receipt (expiry_of env plan)))
              (λ a q w. backed)))

    read_result-Ensures :
        (raw : Value) (o : Option Response)
        → env.submit_and_wait plan.blob ≡ resolved raw
        → read_response raw ≡ o
        → Ensures Good Good (read_result st env req v plan source o)
    unfolding read_result ambiguous refuse
    read_result-Ensures raw none hs hr w = tt
    read_result-Ensures raw (some r) hs hr w = conclude-Ensures raw r hs hr w

    submitted_as-Ensures :
        (s : Submitted)
        → env.submit_and_wait plan.blob ≡ s
        → Ensures Good Good (submitted_as st env req v plan source s)
    unfolding submitted_as ambiguous refuse
    submitted_as-Ensures (threw e) hs w = elim (Bool-cases (submit_definitely_not_applied e)) [
      | inl d ↦ rw d (not_applied-Ensures v _ w)
      | inr d ↦ rw d tt
    ]
    submitted_as-Ensures (resolved raw) hs w = read_result-Ensures raw (read_response raw) hs refl w

    pub finish-Ensures : Ensures Good Good (finish st env req v plan source)
    unfolding finish
    finish-Ensures =
        then-Ensures Good Good _ _ (send-Ensures Good plan.blob)
          (submitted_as-Ensures (env.submit_and_wait plan.blob) refl)
