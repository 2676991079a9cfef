-- ===== src/Settle/Held.antt =====
-- A bound key stays bound through a call of settle, whatever payment the call is for.
use xahc.Prelude.{ℕ, ◌≤◌, ◌≡◌, sym, subst, ◌++◌, arith, true, false, Option, Bool-cases, inl, inr}
use xahc.Prelude.Text.{Text, codes, text_eq, text_eq_iff}
use xahc.Js.{Value}
use xahc.Verify.{Verified}
use xahc.Authorize.{Source}
use xahc.Store.Interface.{ReplayStore, IsReplayStore, View, is_some}
use xahc.Metrics.{verify_failed, other}
use xahc.Settle.Submit.{maybe_applied}
use xahc.Settle.Effects.{Receipt, Env, World, call, send}
use xahc.Settle.Before.{Plan, admit, authority, expiry_of, checked, unconsumed, claim}
use xahc.Settle.After.{finish, submitted_as}
use xahc.Settle.{secure, authorize, prepare, attempt, settle}
use xahc.Settle.Laws.{
  Along, Untouched, Unsent, Alive, Alive-trans, Untouched-Alive, then-Along, bind-Along,
}
use xahc.Settle.Along.{
  unconsumed-Along, checked-Along, claim-Along, submitted_as-Along, maybe_applied-Along,
}
use xahc.Settle.Binding.{
  IsReplayKey, is_consumed-Alive, get_receipt-Alive, set_receipt-Alive, reserve-Alive, set-Alive,
  release-Alive,
}
use xahc.Settle.Opening.{then-step, settle-Attempt}
use xahc.Settle.Claim.{not_go, unconsumed-Stops}
use xahc.Settle.Submission.{InOrder}

module _ {S : Type 0} (st : ReplayStore Receipt S) (view : View S) (is : IsReplayStore st view)
    (k : Text) (key : IsReplayKey k) where
  quiet : (from : ℕ) (w w' : World S) → Untouched w w' → Unsent w w' → Alive view from k w w'
  quiet from w w' p q = Untouched-Alive view from k w w' p

  send-Alive : (from : ℕ) (blob : Text) → Along (Alive view from k) (send blob)
  unfolding send
  send-Alive from blob w t l h = h

  sets :
      (from at : ℕ)
      → at ≤ from
      → (hash : Text) (e : ℕ)
      → Along (Alive view from k) (call (st.set (codes "hash:" ++ hash) e at))
  sets from at l hash e = set-Alive view k st is from (codes "hash:" ++ hash) (key hash) e at l

  -- From the submission on, if the transaction may be on the ledger.
  pub finish-Alive :
      (env : Env) (req : Value) (v : Verified) (plan : Plan) (source : Option Source)
      → maybe_applied (env.submit_and_wait plan.blob) ≡ true
      → Along (Alive view env.now k) (finish st env req v plan source)
  unfolding finish
  finish-Alive env req v plan source m =
      let after = env.submit_and_wait plan.blob in
      then-Along (Alive view env.now k) (Alive-trans view env.now k) (send plan.blob)
        (submitted_as st env req v plan source after) (send-Alive env.now plan.blob)
        (maybe_applied-Along (Alive view env.now k) (Alive-trans view env.now k) (quiet env.now) st
          env (sets env.now env.now (omega arith)) req v plan source
          (λ r. set_receipt-Alive view k st is env.now v.replay_id r (expiry_of env plan)) after m)

  module _ (env : Env) (ordered : InOrder env) where
    abbrev Kept : World S → World S → Type 0
    Kept = Alive view env.reread_at k

    trans : (a b c : World S) → Kept a b → Kept b c → Kept a c
    trans = Alive-trans view env.reread_at k

    reads :
        (v : Verified) (at : ℕ)
        → at ≤ env.reread_at
        → Along Kept (call (st.get_receipt v.replay_id at))
    reads v at l = get_receipt-Alive view k st is env.reread_at v.replay_id at l

    unconsumed-Kept : (v : Verified) → Along Kept (unconsumed st env v)
    unconsumed-Kept v =
        unconsumed-Along Kept trans (quiet env.reread_at) st env v
          (reads v env.read_at (omega (arith, ordered))) (reads v env.reread_at (omega arith))
          (is_consumed-Alive view k st is env.reread_at v.replay_id env.read_at
            (omega (arith, ordered)))

    module _ (v : Verified) (differs : text_eq v.replay_id k ≡ false) where
      finish-Kept :
          (req : Value) (plan : Plan) (source : Option Source)
          → Along Kept (finish st env req v plan source)
      unfolding finish
      finish-Kept req plan source =
          then-Along Kept trans (send plan.blob) _ (send-Alive env.reread_at plan.blob) (
            submitted_as-Along Kept trans (quiet env.reread_at) st env
              (sets env.reread_at env.now (omega (arith, ordered))) req v plan source
              (λ r. set_receipt-Alive view k st is env.reread_at v.replay_id r (expiry_of env plan))
              (release-Alive view k st is env.reread_at v.replay_id differs)
              (env.submit_and_wait plan.blob))

      secure-Kept :
          (req : Value) (plan : Plan) (source : Option Source)
          → Along Kept (secure st env req v plan source)
      unfolding secure
      secure-Kept req plan source =
          then-Along Kept trans (claim st env v (expiry_of env plan)) _
            (claim-Along Kept trans (quiet env.reread_at) st env v
              (reads v env.read_at (omega (arith, ordered))) (reads v env.reread_at (omega arith))
              (expiry_of env plan)
              (reserve-Alive view k st is env.reread_at v.replay_id differs (expiry_of env plan)
                env.now (omega (arith, ordered))))
            (finish-Kept req plan source)

      authorize-Kept : (req : Value) (plan : Plan) → Along Kept (authorize st env req v plan)
      unfolding authorize
      authorize-Kept req plan =
          bind-Along Kept trans (checked verify_failed v.payer (authority env v plan))
            (secure st env req v plan)
            (checked-Along Kept trans (quiet env.reread_at) verify_failed v.payer
              (authority env v plan))
            (secure-Kept req plan)

      prepare-Kept : (payload req : Value) → Along Kept (prepare st env payload req v)
      unfolding prepare
      prepare-Kept payload req =
          bind-Along Kept trans (checked other v.payer (admit env payload)) (authorize st env req v)
            (checked-Along Kept trans (quiet env.reread_at) other v.payer (admit env payload))
            (authorize-Kept req)

      attempt-Kept : (payload req : Value) → Along Kept (attempt st env payload req v)
      unfolding attempt
      attempt-Kept payload req =
          then-Along Kept trans (unconsumed st env v) (prepare st env payload req v)
            (unconsumed-Kept v) (prepare-Kept payload req)

    -- An attempt on a key that is bound ends at the first look.
    bound-Kept :
        (v : Verified) (payload req : Value) (w : World S)
        → is_some (view w.store env.read_at v.replay_id) ≡ true
        → Kept w (attempt st env payload req v w).1
    unfolding attempt
    bound-Kept v payload req w l =
        elim (then-step st Kept (unconsumed st env v) (prepare st env payload req v)
          (unconsumed-Kept v) w) [
            | inl p ↦ p
            | inr (u, w1, p, e, g) ↦
                absurd (not_go st env v _ w1 (unconsumed-Stops st env v view w is l) e)
          ]

    -- A key that is bound at the first clock reading is bound later as before.
    pub settle-Alive :
        (payload req : Value) (w : World S)
        → is_some (view w.store env.read_at k) ≡ true
        → Kept w (settle st env payload req w).1
    settle-Alive payload req w l = elim (settle-Attempt st env payload req w) [
      | inl i ↦ quiet env.reread_at w (settle st env payload req w).1 i.0 i.1
      | inr a ↦ subst (Kept w) (sym a.result) (
          trans w a.w1 (attempt st env payload req a.v a.w1).1
            (quiet env.reread_at w a.w1 a.untouched a.unsent)
            (elim (Bool-cases (text_eq a.v.replay_id k)) [
              | inr d ↦ attempt-Kept a.v d payload req a.w1
              | inl d ↦
                  bound-Kept a.v payload req a.w1
                    (rw (a.untouched, (text_eq_iff a.v.replay_id k).0 d) l)
            ]))
    ]
