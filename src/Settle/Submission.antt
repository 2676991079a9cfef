-- ===== src/Settle/Submission.antt =====
-- The calls of settle that submit a payment, and what each has passed by then.
use xahc.Prelude.{ℕ, ◌≤◌, ◌≡◌, refl, ap, sym, subst, Option, ◌⊎◌, inl, inr}
use xahc.Prelude.Text.{Text}
use xahc.Message.{Check, ok, err}
use xahc.Js.{Value}
use xahc.Verify.{Verified}
use xahc.Authorize.{Source}
use xahc.Store.Interface.{ReplayStore}
use xahc.Metrics.{Bucket, verify_failed, other}
use xahc.Settle.Effects.{Receipt, Env, World, go, give, refuse, call}
use xahc.Settle.Before.{Plan, admit, authority, expiry_of, checked, unconsumed, claim}
use xahc.Settle.After.{finish}
use xahc.Settle.{secure, authorize, prepare, attempt}
use xahc.Settle.Laws.{still, Along, IsTransitive, Untouched, Unsent, Unsent-trans, call-Unsent}
use xahc.Settle.Along.{unconsumed-Along, checked-Along, claim-Along}
use xahc.Settle.Opening.{bind-step, then-step}

-- The clock does not run backwards in a call.
abbrev pub InOrder : Env → Type 0
InOrder env = (env.read_at ≤ env.now) × (env.now ≤ env.reread_at)

module _ {S : Type 0} (st : ReplayStore Receipt S) where
  -- A payment that goes to the ledger: what the call has passed by then. P relates the world at the
  -- start to the one before the reservation.
  pub record Submission (P : World S → World S → Type 0) (env : Env) (payload req : Value)
      (v : Verified) (w w' : World S) : Type 0 where
    pub plan : Plan
    pub source : Option Source
    pub before : World S
    pub w1 : World S
    pub admitted : admit env payload ≡ ok plan
    pub trusted : authority env v plan ≡ ok source
    pub arrived : P w before
    pub claimed : claim st env v (expiry_of env plan) before ≡ (go tt, w1)
    pub result : w' ≡ (finish st env req v plan source w1).1

  checked-go {ℓ} :
      {A : Type ℓ} (b : Bucket) (payer : Option Text) (c : Check A) (w w1 : World S) (a : A)
      → checked b payer c w ≡ (go a, w1)
      → c ≡ ok a
  unfolding checked give refuse
  checked-go b payer (ok u) w w1 a h = cc (h)
  checked-go b payer (err m) w w1 a h = cc (h)

  -- For a relation that the calls of the store before the submission keep.
  module _ (P : World S → World S → Type 0) (t : IsTransitive P)
      (quiet : (w w' : World S) → Untouched w w' → Unsent w w' → P w w') (env : Env)
      (payload req : Value) (v : Verified)
      (looks : Along P (call (st.is_consumed v.replay_id env.read_at)))
      (reads : Along P (call (st.get_receipt v.replay_id env.read_at)))
      (rereads : Along P (call (st.get_receipt v.replay_id env.reread_at)))
      (reserves : (e : ℕ) → Along P (call (st.reserve v.replay_id e env.now))) where
    abbrev Ending : World S → World S → Type 0
    Ending w x = P w x ⊎ Submission P env payload req v w x

    later : (w w1 x : World S) → P w w1 → Ending w1 x → Ending w x
    later w w1 x p (inl q) = inl (t w w1 x p q)
    later w w1 x p (inr s) = inr (record {
      plan = s.plan;
      source = s.source;
      before = s.before;
      w1 = s.w1;
      admitted = s.admitted;
      trusted = s.trusted;
      arrived = t w w1 s.before p s.arrived;
      claimed = s.claimed;
      result = s.result;
    })

    secure-Ending :
        (plan : Plan) (source : Option Source)
        → admit env payload ≡ ok plan
        → authority env v plan ≡ ok source
        → (w : World S) → Ending w (secure st env req v plan source w).1
    unfolding secure
    secure-Ending plan source f g w =
        elim (then-step st P (claim st env v (expiry_of env plan)) (finish st env req v plan source)
          (claim-Along P t quiet st env v reads rereads (expiry_of env plan)
            (reserves (expiry_of env plan)))
          w) [
            | inl p ↦ inl p
            | inr (u, w1, p, e, h) ↦ inr (record {
              plan = plan;
              source = source;
              before = w;
              w1 = w1;
              admitted = f;
              trusted = g;
              arrived = quiet w w refl refl;
              claimed = e;
              result = ap (λ r. r.1) h;
            })
          ]

    authorize-Ending :
        (plan : Plan)
        → admit env payload ≡ ok plan
        → (w : World S) → Ending w (authorize st env req v plan w).1
    unfolding authorize
    authorize-Ending plan f w =
        let check = checked verify_failed v.payer (authority env v plan) in
        elim (bind-step st P check (secure st env req v plan)
          (checked-Along P t quiet verify_failed v.payer (authority env v plan)) w) [
            | inl p ↦ inl p
            | inr (source, w1, p, e, h) ↦ later w w1 _ p (
                subst (λ r. Ending w1 r.1) (sym h)
                  (secure-Ending plan source f
                    (checked-go verify_failed v.payer (authority env v plan) w w1 source e) w1))
          ]

    prepare-Ending : (w : World S) → Ending w (prepare st env payload req v w).1
    unfolding prepare
    prepare-Ending w =
        elim (bind-step st P (checked other v.payer (admit env payload)) (authorize st env req v)
          (checked-Along P t quiet other v.payer (admit env payload)) w) [
            | inl p ↦ inl p
            | inr (plan, w1, p, e, h) ↦ later w w1 _ p (
                subst (λ r. Ending w1 r.1) (sym h)
                  (authorize-Ending plan (checked-go other v.payer (admit env payload) w w1 plan e)
                    w1))
          ]

    pub attempt-Ending : (w : World S) → Ending w (attempt st env payload req v w).1
    unfolding attempt
    attempt-Ending w =
        elim (then-step st P (unconsumed st env v) (prepare st env payload req v)
          (unconsumed-Along P t quiet st env v reads rereads looks) w) [
            | inl p ↦ inl p
            | inr (u, w1, p, e, h) ↦
                later w w1 _ p (subst (λ r. Ending w1 r.1) (sym h) (prepare-Ending w1))
          ]

  -- Until it submits, a call has submitted nothing.
  pub attempt-Submission :
      (env : Env) (payload req : Value) (v : Verified) (w : World S)
      → Unsent w (attempt st env payload req v w).1
        ⊎ Submission Unsent env payload req v w (attempt st env payload req v w).1
  attempt-Submission env payload req v =
      attempt-Ending Unsent Unsent-trans still env payload req v
        (call-Unsent (st.is_consumed v.replay_id env.read_at))
        (call-Unsent (st.get_receipt v.replay_id env.read_at))
        (call-Unsent (st.get_receipt v.replay_id env.reread_at))
        (λ e. call-Unsent (st.reserve v.replay_id e env.now))
