-- ===== src/Message.antt =====
-- The messages of x402-xahau/server.mjs and checks that fail with one. A template literal keeps its
-- parts: `said a n b` is `${a}${n}${b}`, `wraps a m` is `${a}${m}`.
use xahc.Prelude.{ℕ, String, Bool, true, false, Option, none, some, ◌≡◌, refl, ◌⊎◌, inl, inr}
use xahc.Prelude.Text.{Text}

pub data Message : Type 0 where
  says : String → Message
  said : String → ℕ → String → Message
  wraps : String → Message → Message
  code : Text → Message

-- { error } or { value }: the early returns of a function that checks its input.
pub data Check {ℓ} (A : Type ℓ) : Type ℓ where
  ok : A → Check A
  err : Message → Check A

infixl 5 ◌>>=◌ ◌>>◌
abbrev pub ◌>>=◌ {ℓ κ} : {A : Type ℓ} {B : Type κ} → Check A → (A → Check B) → Check B
ok a >>= f = f a
err e >>= f = err e

abbrev pub ◌>>◌ {ℓ} : {B : Type ℓ} → Check (Unit {0}) → Check B → Check B
m >> k = m >>= λ _. k

-- if (!b) return error
abbrev pub require : Bool → Message → Check (Unit {0})
require true e = ok tt
require false e = err e

-- if (o === null) return error
abbrev pub present {ℓ} : {A : Type ℓ} → Option A → Message → Check A
present none e = err e
present (some a) e = ok a

pub Check-cases {ℓ} :
    {A : Type ℓ} (c : Check A) → ((e : Message) × (c ≡ err e)) ⊎ ((a : A) × (c ≡ ok a))
Check-cases (ok a) = inr (a, refl)
Check-cases (err e) = inl (e, refl)
