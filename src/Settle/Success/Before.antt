-- ===== src/Settle/Success/Before.antt =====
-- The steps of settle before it submits make no receipt of their own.
use xahc.Prelude.{ℕ, ◌≡◌, refl, Bool, true, false, ◌&&◌, Option, none, some, Bool-cases, inl, inr}
use xahc.Prelude.Text.{Text}
use xahc.Settle.Simulate.{simulate_payment, predicts_reject}
use xahc.Message.{Check, ok, err}
use xahc.Js.{Value}
use xahc.Verify.{Verified}
use xahc.Metrics.{Bucket}
use xahc.Store.Memory.{Reserved, reserved, exists, full}
use xahc.Store.Interface.{Answer, answered, failed, ReplayStore}
use xahc.Settle.Effects.{
  Receipt, Reply, Env, ◌>>◌, give, reply, refuse, count, call, settle_store_unavailable,
}
use xahc.Settle.Before.{
  checked, opened, advise, available_or_stop, asked, answer_replay, look_up, unconsumed, lost_race,
  claimed, claim,
}
use xahc.Settle.{configured}
use xahc.Settle.Success.Ensured.{Backed, Any, Ensures, bind-Ensures, call-Ensures}

module _ {S : Type 0} (st : ReplayStore Receipt S) (env : Env) (payload req : Value) where
  abbrev Good : Reply → Type 0
  Good = Backed env payload req

  pub opened-Ensures : (c : Check Verified) → Ensures {S = S} Good (λ v. c ≡ ok v) (opened c)
  unfolding opened refuse give
  opened-Ensures (err m) w = tt
  opened-Ensures (ok v) w = refl

  pub checked-Ensures :
      {A : Type 0} (b : Bucket) (payer : Option Text) (c : Check A)
      → Ensures {S = S} Good (λ a. c ≡ ok a) (checked b payer c)
  unfolding checked refuse give
  checked-Ensures b payer (err m) w = tt
  checked-Ensures b payer (ok a) w = refl

  pub advise-Ensures : (v : Verified) → Ensures {S = S} Good Any (advise env v)
  unfolding advise reply give
  advise-Ensures v w = elim (Bool-cases env.dry_run) [
    | inl e ↦ rw e tt
    | inr e ↦ elim (Bool-cases (env.pre_sim_reject && predicts_reject (simulate_payment env.mcp))) [
      | inl p ↦ rw (e, p) tt
      | inr p ↦ rw (e, p) tt
    ]
  ]

  available-Ensures :
      {A : Type 0} (payer : Option Text) (a : Answer A)
      → Ensures {S = S} Good Any (available_or_stop payer a)
  unfolding available_or_stop settle_store_unavailable refuse give
  available-Ensures payer failed w = tt
  available-Ensures payer (answered a) w = tt

  asked-Ensures :
      {A : Type 0} (payer : Option Text) (f : S → Answer A × S)
      → Ensures Good Any (asked st payer f)
  unfolding asked
  asked-Ensures payer f =
      bind-Ensures Good Any Any (call f) (available_or_stop payer) (call-Ensures Good f)
        (λ a q. available-Ensures payer a)

  answer_replay-Ensures :
      (v : Verified) (r : Option Receipt)
      → Ensures {S = S} {A = Unit {0}} Good Any (answer_replay v r)
  unfolding answer_replay refuse count reply ◌>>◌
  answer_replay-Ensures v none w = tt
  answer_replay-Ensures v (some r) w = tt

  look_up-Ensures : (v : Verified) (b : Bool) → Ensures Good Any (look_up st env v b)
  unfolding look_up give
  look_up-Ensures v false w = tt
  look_up-Ensures v true w =
      bind-Ensures Good Any Any (asked st v.payer (st.get_receipt v.replay_id env.read_at))
        (answer_replay v) (asked-Ensures v.payer (st.get_receipt v.replay_id env.read_at))
        (λ r q. answer_replay-Ensures v r) w

  pub unconsumed-Ensures : (v : Verified) → Ensures Good Any (unconsumed st env v)
  unfolding unconsumed
  unconsumed-Ensures v =
      bind-Ensures Good Any Any (asked st v.payer (st.is_consumed v.replay_id env.read_at))
        (look_up st env v) (asked-Ensures v.payer (st.is_consumed v.replay_id env.read_at))
        (λ b q. look_up-Ensures v b)

  lost_race-Ensures :
      (v : Verified) (a : Answer (Option Receipt)) → Ensures {S = S} Good Any (lost_race st env v a)
  unfolding lost_race reply
  lost_race-Ensures v failed w = tt
  lost_race-Ensures v (answered r) w = answer_replay-Ensures v r w

  claimed-Ensures : (v : Verified) (r : Reserved) → Ensures Good Any (claimed st env v r)
  unfolding claimed give refuse
  claimed-Ensures v reserved w = tt
  claimed-Ensures v full w = tt
  claimed-Ensures v exists w =
      bind-Ensures Good Any Any (call (st.get_receipt v.replay_id env.reread_at))
        (lost_race st env v) (call-Ensures Good (st.get_receipt v.replay_id env.reread_at))
        (λ a q. lost_race-Ensures v a) w

  pub claim-Ensures : (v : Verified) (expiry : ℕ) → Ensures Good Any (claim st env v expiry)
  unfolding claim
  claim-Ensures v expiry =
      bind-Ensures Good Any Any (asked st v.payer (st.reserve v.replay_id expiry env.now))
        (claimed st env v) (asked-Ensures v.payer (st.reserve v.replay_id expiry env.now))
        (λ r q. claimed-Ensures v r)

  pub configured-Ensures : Ensures Good Any (configured st env)
  unfolding configured give refuse
  configured-Ensures w = elim (Bool-cases env.wss) [ inl e ↦ rw e tt | inr e ↦ rw e tt ]
