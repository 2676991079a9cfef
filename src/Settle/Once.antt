-- ===== src/Settle/Once.antt =====
-- A payment is submitted once: calls of settle one after the other on one store.
use xahc.Prelude.{
  ℕ, ◌≤◌, ◌<◌, ◌≡◌, ◌≢◌, refl, ap, sym, ◌∙◌, subst, arith, true, List, [], ◌∷◌, inl, inr, lt→ltb,
}
use xahc.Prelude.Text.{Text, text_eq_refl}
use xahc.Message.{ok}
use xahc.Js.{Value}
use xahc.Verify.{Verified, verify_exact}
use xahc.Verify.Sound.{verify_exact_sound}
use xahc.Store.Interface.{ReplayStore, IsReplayStore, View, is_some}
use xahc.Settle.Submit.{maybe_applied}
use xahc.Settle.Effects.{Receipt, Env, World}
use xahc.Settle.Before.{Plan, admit, expiry_of, unconsumed}
use xahc.Settle.{prepare, attempt, settle}
use xahc.Settle.Laws.{still, Unsent, Unsent-trans, call-Unsent}
use xahc.Settle.Along.{unconsumed-Along}
use xahc.Settle.Binding.{IsReplayKey, replay_key_for-IsReplayKey}
use xahc.Settle.Opening.{then-step, settle-Attempt}
use xahc.Settle.Claim.{not_go, unconsumed-Stops, claim-Binds}
use xahc.Settle.Submission.{InOrder, Submission, attempt-Submission}
use xahc.Settle.Held.{finish-Alive, settle-Alive}

pub record Call : Type 0 where
  pub env : Env
  pub payload : Value
  pub req : Value

-- Calls one after the other, from the time `from` on.
abbrev pub Ordered : ℕ → List Call → Type 0
Ordered from [] = Unit {0}
Ordered from (c ∷ cs) = (from ≤ c.env.read_at) × InOrder c.env × Ordered c.env.reread_at cs

-- The time that the last call ends.
abbrev pub ends : ℕ → List Call → ℕ
ends from [] = from
ends from (c ∷ cs) = ends c.env.reread_at cs

pub verified-IsReplayKey :
    (c : Call) (v : Verified)
    → verify_exact c.env.libs c.env.network c.payload c.req ≡ ok v
    → IsReplayKey v.replay_id
verified-IsReplayKey c v h =
    let a = verify_exact_sound c.env.libs c.env.network c.payload c.req v h in
    subst IsReplayKey (sym a.replay_id) (replay_key_for-IsReplayKey a.tx)

module _ {S : Type 0} (st : ReplayStore Receipt S) where
  abbrev pub after : Call → World S → World S
  after c w = (settle st c.env c.payload c.req w).1

  abbrev pub run : List Call → World S → World S
  run [] w = w
  run (c ∷ cs) w = run cs (after c w)

  module _ (view : View S) (is : IsReplayStore st view) where
    -- The key is bound from `from` until `expiry`.
    abbrev pub Held : Text → ℕ → ℕ → World S → Type 0
    Held k from expiry w = (t : ℕ) → from ≤ t → t < expiry → is_some (view w.store t k) ≡ true

    attempt-bound :
        (env : Env) (payload req : Value) (v : Verified) (w : World S)
        → is_some (view w.store env.read_at v.replay_id) ≡ true
        → Unsent w (attempt st env payload req v w).1
    unfolding attempt
    attempt-bound env payload req v w l =
        elim (then-step st Unsent (unconsumed st env v) (prepare st env payload req v)
          (unconsumed-Along Unsent Unsent-trans still st env v
            (call-Unsent (st.get_receipt v.replay_id env.read_at))
            (call-Unsent (st.get_receipt v.replay_id env.reread_at))
            (call-Unsent (st.is_consumed v.replay_id env.read_at)))
          w) [
            | inl p ↦ p
            | inr (u, w1, p, e, g) ↦ absurd (
                not_go st env v (unconsumed st env v w) w1 (unconsumed-Stops st env v view w is l)
                  e)
          ]

    -- On a store that meets the contract, a call for a verified payment whose key is bound when the
    -- call first reads the clock submits nothing.
    pub settle-bound :
        (c : Call) (v : Verified) (w : World S)
        → verify_exact c.env.libs c.env.network c.payload c.req ≡ ok v
        → is_some (view w.store c.env.read_at v.replay_id) ≡ true
        → (after c w).submitted ≡ w.submitted
    settle-bound c v w h l = elim (settle-Attempt st c.env c.payload c.req w) [
      | inl i ↦ i.1
      | inr a ↦
          let same : v ≡ a.v = cc (h, a.accepted) in
          ap (λ x. x.submitted) a.result
          ∙ attempt-bound c.env c.payload c.req a.v a.w1 (rw (a.untouched, sym same) l)
          ∙ a.unsent
    ]

    -- From the reservation on, the key of a submission that may be on the ledger is bound.
    Submission-Held :
        (c : Call) (v : Verified) (w w' : World S)
        → IsReplayKey v.replay_id
        → (s : Submission st Unsent c.env c.payload c.req v w w')
        → maybe_applied (c.env.submit_and_wait s.plan.blob) ≡ true
        → Held v.replay_id c.env.now (expiry_of c.env s.plan) w'
    Submission-Held c v w w' key s m t l b =
        let expiry = expiry_of c.env s.plan in
        let binds = claim-Binds st c.env v view expiry s.before s.w1 is s.claimed in
        let bound : is_some (view s.w1.store t v.replay_id) ≡ true =
          rw (binds.1 t v.replay_id l, text_eq_refl v.replay_id, lt→ltb t expiry b) refl in
        let kept =
          finish-Alive st view is v.replay_id key c.env c.req v s.plan s.source m s.w1 t l bound in
        subst (λ x. is_some (view x.store t v.replay_id) ≡ true) (sym s.result) kept

    -- On a store that meets the contract, a call for a verified payment that submits it, without an
    -- error that proves that nothing was applied, leaves its key bound from the reservation until the
    -- expiry of the transaction's window.
    pub settle-Held :
        (c : Call) (v : Verified) (plan : Plan) (w : World S)
        → verify_exact c.env.libs c.env.network c.payload c.req ≡ ok v
        → admit c.env c.payload ≡ ok plan
        → maybe_applied (c.env.submit_and_wait plan.blob) ≡ true
        → (after c w).submitted ≢ w.submitted
        → (t : ℕ) → c.env.now ≤ t
        → t < expiry_of c.env plan
        → is_some (view (after c w).store t v.replay_id) ≡ true
    settle-Held c v plan w h f m sent t l b = elim (settle-Attempt st c.env c.payload c.req w) [
      | inl i ↦ absurd (sent i.1)
      | inr a ↦ elim (attempt-Submission st c.env c.payload c.req a.v a.w1) [
        | inl p ↦ absurd (sent (ap (λ x. x.submitted) a.result ∙ p ∙ a.unsent))
        | inr s ↦
            let same : a.v ≡ v = cc (h, a.accepted) in
            let plan_same : s.plan ≡ plan = cc (f, s.admitted) in
            let key = verified-IsReplayKey c a.v a.accepted in
            let held = Submission-Held c a.v a.w1 _ key s (
              subst (λ p. maybe_applied (c.env.submit_and_wait p.blob) ≡ true) (sym plan_same) m) in
            subst (λ x. is_some (view x.store t v.replay_id) ≡ true) (sym a.result)
              (subst
                (λ x.
                  is_some (view (attempt st c.env c.payload c.req a.v a.w1).1.store t x.replay_id)
                  ≡ true)
                same (held t l (subst (λ p. t < expiry_of c.env p) (sym plan_same) b)))
      ]
    ]

    -- What is bound stays bound through later calls, for whatever payments.
    run-Held :
        (k : Text) (from expiry : ℕ) (cs : List Call) (w : World S)
        → IsReplayKey k
        → Ordered from cs
        → Held k from expiry w
        → Held k (ends from cs) expiry (run cs w)
    run-Held k from expiry [] w key o h = h
    run-Held k from expiry (c ∷ cs) w key o h =
        run-Held k c.env.reread_at expiry cs (after c w) key o.2 (λ t l b.
          settle-Alive st view is k key c.env o.1 c.payload c.req w
            (h c.env.read_at o.0 (omega (arith, o.1, l, b))) t l
            (h t (omega (arith, o.0, o.1, l)) b))

    -- On a store that meets the contract, and with a clock that does not run backwards: once a call has
    -- submitted a payment, and its error, if any, does not prove that nothing was applied, no call for
    -- a payment with the same replay key submits anything until the expiry of the binding, whatever
    -- calls come in between.
    pub settle-once :
        (first : Call) (v : Verified) (plan : Plan) (w : World S)
        → InOrder first.env
        → verify_exact first.env.libs first.env.network first.payload first.req ≡ ok v
        → admit first.env first.payload ≡ ok plan
        → maybe_applied (first.env.submit_and_wait plan.blob) ≡ true
        → (after first w).submitted ≢ w.submitted
        → (between : List Call) → Ordered first.env.reread_at between
        → (again : Call) (u : Verified)
        → verify_exact again.env.libs again.env.network again.payload again.req ≡ ok u
        → u.replay_id ≡ v.replay_id
        → ends first.env.reread_at between ≤ again.env.read_at
        → again.env.read_at < expiry_of first.env plan
        → (after again (run between (after first w))).submitted
          ≡ (run between (after first w)).submitted
    settle-once first v plan w o h f m sent between ob again u hu same l b =
        let key = verified-IsReplayKey first v h in
        let held = settle-Held first v plan w h f m sent in
        let later =
          run-Held v.replay_id first.env.reread_at (expiry_of first.env plan) between
            (after first w) key ob (λ t l' b'. held t (omega (arith, o, l')) b') in
        settle-bound again u (run between (after first w)) hu
          (rw same (later again.env.read_at l b))
