-- ===== src/Settle/Opening.antt =====
-- How a call of settle begins: until a verified payment is attempted, nothing but counters changes.
use xahc.Prelude.{◌≡◌, refl, ap, sym, ◌∙◌, subst, ◌⊎◌, inl, inr}
use xahc.Message.{Check, ok, err}
use xahc.Js.{Value}
use xahc.Verify.{Verified, verify_exact}
use xahc.Store.Interface.{ReplayStore}
use xahc.Metrics.{settle_calls}
use xahc.Settle.Effects.{
  Receipt, Reply, Env, World, Exit, stop, go, Stage, resume, ◌>>=◌, ◌>>◌, give, count, refuse,
}
use xahc.Settle.Before.{opened, verified, advise}
use xahc.Settle.{configured, reply_of, attempt, advised, opening, start, stages, settle}
use xahc.Settle.Laws.{Along, Unsent, Untouched}
use xahc.Settle.Along.{count-Along, configured-Along, opened-Along, advise-Along}

module _ {S : Type 0} (st : ReplayStore Receipt S) where
  reply_of-world : (r : Exit Reply × World S) → (reply_of st r).1 ≡ r.1
  unfolding reply_of
  reply_of-world (stop r, w) = refl
  reply_of-world (go r, w) = refl

  resume-cases {ℓ κ} :
      {A : Type ℓ} {B : Type κ} (f : A → Stage S B) (r : Exit A × World S)
      → ((resume f r).1 ≡ r.1)
        ⊎ ((a : A) × (w1 : World S) × (r ≡ (go a, w1)) × (resume f r ≡ f a w1))
  resume-cases f (stop r, w) = inl refl
  resume-cases f (go a, w) = inr (a, w, refl, refl)

  pub bind-cases {ℓ κ} :
      {A : Type ℓ} {B : Type κ} (m : Stage S A) (f : A → Stage S B) (w : World S)
      → (((m >>= f) w).1 ≡ (m w).1)
        ⊎ ((a : A) × (w1 : World S) × (m w ≡ (go a, w1)) × ((m >>= f) w ≡ f a w1))
  unfolding ◌>>=◌
  bind-cases m f w = resume-cases f (m w)

  pub then-cases {ℓ} :
      {B : Type ℓ} (m : Stage S (Unit {0})) (k : Stage S B) (w : World S)
      → (((m >> k) w).1 ≡ (m w).1)
        ⊎ ((u : Unit {0}) × (w1 : World S) × (m w ≡ (go u, w1)) × ((m >> k) w ≡ k w1))
  unfolding ◌>>◌
  then-cases m k w = resume-cases (λ u. k) (m w)

  abbrev Idle : World S → World S → Type 0
  Idle w w' = Untouched w w' × Unsent w w'

  Idle-trans : (a b c : World S) → Idle a b → Idle b c → Idle a c
  Idle-trans a b c p q = (q.0 ∙ p.0, q.1 ∙ p.1)

  idle : (w w' : World S) → Untouched w w' → Unsent w w' → Idle w w'
  idle w w' p q = (p, q)

  opened-go :
      (c : Check Verified) (w w1 : World S) (v : Verified) → opened c w ≡ (go v, w1) → c ≡ ok v
  unfolding opened give refuse
  opened-go (ok u) w w1 v h = cc (h)
  opened-go (err m) w w1 v h = cc (h)

  verified-Idle : (env : Env) (payload req : Value) → Along Idle (verified env payload req)
  unfolding verified
  verified-Idle env payload req =
      opened-Along Idle Idle-trans idle (verify_exact env.libs env.network payload req)

  verified-go :
      (env : Env) (payload req : Value) (w w1 : World S) (v : Verified)
      → verified env payload req w ≡ (go v, w1)
      → verify_exact env.libs env.network payload req ≡ ok v
  unfolding verified
  verified-go env payload req w w1 v h =
      opened-go (verify_exact env.libs env.network payload req) w w1 v h

  -- A relation that a stage keeps holds where the sequence ends, or where it goes on.
  module _ (P : World S → World S → Type 0) where
    pub bind-step {ℓ κ} :
        {A : Type ℓ} {B : Type κ} (m : Stage S A) (f : A → Stage S B)
        → Along P m
        → (w : World S)
        → P w ((m >>= f) w).1
          ⊎ ((a : A) × (w1 : World S) × P w w1 × (m w ≡ (go a, w1)) × ((m >>= f) w ≡ f a w1))
    bind-step m f p w = elim (bind-cases m f w) [
      | inl e ↦ inl (subst (P w) (sym e) (p w))
      | inr (a, w1, e, g) ↦ inr (a, w1, subst (P w) (ap (λ r. r.1) e) (p w), e, g)
    ]

    pub then-step {ℓ} :
        {B : Type ℓ} (m : Stage S (Unit {0})) (k : Stage S B)
        → Along P m
        → (w : World S)
        → P w ((m >> k) w).1
          ⊎ ((u : Unit {0}) × (w1 : World S) × P w w1 × (m w ≡ (go u, w1)) × ((m >> k) w ≡ k w1))
    then-step m k p w = elim (then-cases m k w) [
      | inl e ↦ inl (subst (P w) (sym e) (p w))
      | inr (u, w1, e, g) ↦ inr (u, w1, subst (P w) (ap (λ r. r.1) e) (p w), e, g)
    ]

  -- A call that attempts a verified payment.
  pub record Attempt (env : Env) (payload req : Value) (w w' : World S) : Type 0 where
    pub v : Verified
    pub w1 : World S
    pub accepted : verify_exact env.libs env.network payload req ≡ ok v
    pub untouched : Untouched w w1
    pub unsent : Unsent w w1
    pub result : w' ≡ (attempt st env payload req v w1).1

  abbrev Outcome : Env → Value → Value → World S → World S → Type 0
  Outcome env payload req w x = Idle w x ⊎ Attempt env payload req w x

  module _ (env : Env) (payload req : Value) where
    later :
        (w w1 x : World S) → Idle w w1 → Outcome env payload req w1 x → Outcome env payload req w x
    later w w1 x i (inl j) = inl (Idle-trans w w1 x i j)
    later w w1 x i (inr a) = inr (record {
      v = a.v;
      w1 = a.w1;
      accepted = a.accepted;
      result = a.result;
      untouched = a.untouched ∙ i.0;
      unsent = a.unsent ∙ i.1;
    })

    then-Outcome :
        (m : Stage S (Unit {0})) (k : Stage S Reply)
        → Along Idle m
        → ((w : World S) → Outcome env payload req w (k w).1)
        → (w : World S) → Outcome env payload req w ((m >> k) w).1
    then-Outcome m k p h w = elim (then-step Idle m k p w) [
      | inl i ↦ inl i
      | inr (u, w1, i, e, g) ↦
          later w w1 ((m >> k) w).1 i (subst (λ r. Outcome env payload req w1 r.1) (sym g) (h w1))
    ]

    advised-Outcome :
        (v : Verified)
        → verify_exact env.libs env.network payload req ≡ ok v
        → (w : World S) → Outcome env payload req w (advised st env payload req v w).1
    unfolding advised
    advised-Outcome v e =
        then-Outcome (advise env v) (attempt st env payload req v)
          (advise-Along Idle Idle-trans idle env v)
          (λ w. inr (record {
            v = v;
            w1 = w;
            accepted = e;
            untouched = refl;
            unsent = refl;
            result = refl;
          }))

    opening-Outcome : (w : World S) → Outcome env payload req w (opening st env payload req w).1
    unfolding opening
    opening-Outcome w =
        elim (bind-step Idle (verified env payload req) (advised st env payload req)
          (verified-Idle env payload req) w) [
            | inl i ↦ inl i
            | inr (v, w1, i, e, g) ↦ later w w1 _ i (
                subst (λ r. Outcome env payload req w1 r.1) (sym g)
                  (advised-Outcome v (verified-go env payload req w w1 v e) w1))
          ]

    start-Outcome : (w : World S) → Outcome env payload req w (start st env payload req w).1
    unfolding start
    start-Outcome =
        then-Outcome (configured st env) (opening st env payload req)
          (configured-Along Idle Idle-trans idle st env) opening-Outcome

    stages-Outcome : (w : World S) → Outcome env payload req w (stages st env payload req w).1
    unfolding stages
    stages-Outcome =
        then-Outcome (count settle_calls) (start st env payload req)
          (count-Along Idle Idle-trans idle settle_calls) start-Outcome

  -- How a call begins: it ends before the store is asked, or it attempts a verified payment.
  pub settle-Attempt :
      (env : Env) (payload req : Value) (w : World S)
      → (Untouched w (settle st env payload req w).1 × Unsent w (settle st env payload req w).1)
        ⊎ Attempt env payload req w (settle st env payload req w).1
  unfolding settle
  settle-Attempt env payload req w =
      let same = reply_of-world (stages st env payload req w) in
      subst (Outcome env payload req w) (sym same) (stages-Outcome env payload req w)
