-- ===== src/Http/Auth.antt =====
-- authOk of x402-xahau/server.mjs: the shared secret of a request.
use xahc.Prelude.{
  ℕ, ◌≡◌, ◌≢◌, ◌↔◌, ap, inl, inr, Bool, true, false, not, Option, none, some, List, if◌then◌else◌,
  ◌==◌, length, arith, Bool-cases, ==_iff,
}
use xahc.Prelude.Text.{Text}

-- Buffer.from of a text, and crypto.timingSafeEqual.
pub record Buffers : Type 0 where
  pub from : Text → List ℕ
  pub timing_safe_equal : List ℕ → List ℕ → Bool

-- SHARED_SECRET, if one is configured.
abbrev pub configured : Text → Bool
configured secret = not (length secret == 0)

provided_ok : Buffers → Text → Option Text → Bool
provided_ok buffers secret none = false
provided_ok buffers secret (some provided) =
    if length provided == 0
    then false
    else if not (length (buffers.from provided) == length (buffers.from secret))
    then false
    else buffers.timing_safe_equal (buffers.from provided) (buffers.from secret)

-- `provided` is the header x-x402-secret, if it is a text.
unfoldable pub auth_ok : Buffers → Text → Option Text → Bool
unfolding provided_ok
auth_ok buffers secret provided =
    if configured secret then provided_ok buffers secret provided else true

-- The two buffers of one length are equal: what timingSafeEqual answers.
abbrev pub IsExact : Buffers → Type 0
IsExact buffers =
    (a b : List ℕ) → length a ≡ length b → (buffers.timing_safe_equal a b ≡ true) ↔ (a ≡ b)

-- A request shows the secret: it sends a text that is not empty, and whose bytes are the secret's.
abbrev pub ShowsSecret : Buffers → Text → Option Text → Type 0
ShowsSecret buffers secret none = ⊥
ShowsSecret buffers secret (some t) = (length t ≢ 0) × (buffers.from t ≡ buffers.from secret)

provided_ok_iff :
    (buffers : Buffers) (secret : Text) (provided : Option Text)
    → IsExact buffers
    → (provided_ok buffers secret provided ≡ true) ↔ ShowsSecret buffers secret provided
unfolding provided_ok
provided_ok_iff buffers secret none exact = (λ h. cc (h), λ v. absurd v)
provided_ok_iff buffers secret (some t) exact =
    let a = buffers.from t in
    let b = buffers.from secret in
    elim (Bool-cases (length t == 0)) [
      | inl e ↦ rw e (λ h. absurd (cc (h)), λ (v, _). absurd (v ((==_iff (length t) 0).0 e)))
      | inr e ↦ elim (Bool-cases (length a == length b)) [
        | inl e' ↦
            let (sound, complete) = exact a b ((==_iff (length a) (length b)).0 e') in
            rw (e, e')
              (λ h. (λ z. absurd (ground (arith, e, z)), sound h), λ (_, same). complete same)
        | inr e' ↦
            rw (e, e')
              (
                λ h. absurd (cc (h)),
                λ (_, same). let eq = ap length same in absurd (ground (arith, e', eq)),
              )
      ]
    ]

-- With a secret configured, a request is authorized exactly if it sends the secret, byte for byte.
pub auth_ok_iff :
    (buffers : Buffers) (secret : Text) (provided : Option Text)
    → IsExact buffers
    → length secret ≢ 0
    → (auth_ok buffers secret provided ≡ true) ↔ ShowsSecret buffers secret provided
unfolding auth_ok
auth_ok_iff buffers secret provided exact h = elim (Bool-cases (length secret == 0)) [
  | inl e ↦ absurd (h ((==_iff (length secret) 0).0 e))
  | inr e ↦ rw e (provided_ok_iff buffers secret provided exact)
]
