-- ===== src/Settle/Success/Ensured.antt =====
-- What settle's stages end with: a predicate on replies that holds however the world is.
use xahc.Prelude.{◌≡◌, Option, some}
use xahc.Prelude.Text.{Text}
use xahc.Message.{ok}
use xahc.Js.{Value}
use xahc.Verify.{Verified, verify_exact}
use xahc.Authorize.{Source}
use xahc.Metrics.{Counter}
use xahc.Settle.Submit.{resolved, Response, read_response}
use xahc.Settle.Effects.{
  Receipt, Reply, refused, dry_run, predicted_reject, settled, replayed, escaped, Env, World, Exit,
  stop, go, Stage, resume, ◌>>=◌, ◌>>◌, count, call, send,
}
use xahc.Settle.Before.{Plan, admit, authority}
use xahc.Settle.After.{receipt_of}

-- A receipt of this call, and what it is made of.
pub record IsSettlement (env : Env) (payload req : Value) (r : Receipt) : Type 0 where
  pub v : Verified
  pub plan : Plan
  pub source : Option Source
  pub raw : Value
  pub response : Response
  pub accepted : verify_exact env.libs env.network payload req ≡ ok v
  pub admitted : admit env payload ≡ ok plan
  pub trusted : authority env v plan ≡ ok source
  pub submitted : env.submit_and_wait plan.blob ≡ resolved raw
  pub read : read_response raw ≡ some response
  pub result : r ≡ receipt_of env req v plan source response

abbrev pub Backed : Env → Value → Value → Reply → Type 0
Backed env payload req (settled r) = IsSettlement env payload req r
Backed env payload req (refused r) = Unit {0}
Backed env payload req (dry_run payer sim) = Unit {0}
Backed env payload req (predicted_reject payer sim) = Unit {0}
Backed env payload req (replayed r) = Unit {0}
Backed env payload req escaped = Unit {0}

abbrev pub Meets {ℓ} : {A : Type ℓ} → (Reply → Type 0) → (A → Type 0) → Exit A → Type 0
Meets P Q (stop r) = P r
Meets P Q (go a) = Q a

abbrev pub Any {ℓ} : {A : Type ℓ} → A → Type 0
Any a = Unit {0}

-- However the world is, the stage ends with a reply in P or goes on with a value in Q.
abbrev pub Ensures {ℓ} :
    {S : Type 0} {A : Type ℓ} → (Reply → Type 0) → (A → Type 0) → Stage S A → Type 0
Ensures {S = S} P Q m = (w : World S) → Meets P Q (m w).0

module _ {S : Type 0} (P : Reply → Type 0) where
  resume-Meets {ℓ κ} :
      {A : Type ℓ} {B : Type κ} (Q : A → Type 0) (R : B → Type 0) (f : A → Stage S B)
      (x : Exit A × World S)
      → Meets P Q x.0
      → ((a : A) → Q a → Ensures P R (f a))
      → Meets P R (resume f x).0
  resume-Meets Q R f (stop r, w) h g = h
  resume-Meets Q R f (go a, w) h g = g a h w

  pub bind-Ensures {ℓ κ} :
      {A : Type ℓ} {B : Type κ} (Q : A → Type 0) (R : B → Type 0) (m : Stage S A)
      (f : A → Stage S B)
      → Ensures P Q m
      → ((a : A) → Q a → Ensures P R (f a))
      → Ensures P R (m >>= f)
  unfolding ◌>>=◌
  bind-Ensures Q R m f h g w = resume-Meets Q R f (m w) (h w) g

  pub then-Ensures {ℓ} :
      {B : Type ℓ} (R : B → Type 0) (m : Stage S (Unit {0})) (k : Stage S B)
      → Ensures P Any m
      → Ensures P R k
      → Ensures P R (m >> k)
  unfolding ◌>>◌
  then-Ensures R m k h g w = resume-Meets Any R (λ u. k) (m w) (h w) (λ a q. g)

  pub call-Ensures : {A : Type 0} (f : S → A × S) → Ensures P Any (call f)
  unfolding call
  call-Ensures f w = tt

  pub send-Ensures : (blob : Text) → Ensures {S = S} P Any (send blob)
  unfolding send
  send-Ensures blob w = tt

  pub count-Ensures : (c : Counter) → Ensures {S = S} P Any (count c)
  unfolding count
  count-Ensures c w = tt
