-- ===== src/Settle/Laws.antt =====
-- Reasoning about the stages of settle: what every step keeps, a sequence of stages keeps.
use xahc.Prelude.{ℕ, ◌≤◌, ◌≡◌, refl, ap, ◌∙◌, true}
use xahc.Prelude.Text.{Text}
use xahc.Store.Interface.{View, is_some}
use xahc.Settle.Effects.{World, Exit, stop, go, Stage, resume, ◌>>=◌, ◌>>◌, call}

module _ {S : Type 0} where
  -- A relation between the world before a stage and the world after it.
  abbrev pub Along {ℓ} : {A : Type ℓ} → (World S → World S → Type 0) → Stage S A → Type 0
  Along P m = (w : World S) → P w (m w).1

  abbrev pub IsTransitive : (World S → World S → Type 0) → Type 0
  IsTransitive P = (a b c : World S) → P a b → P b c → P a c

  module _ (P : World S → World S → Type 0) (t : IsTransitive P) where
    resume-Along {ℓ κ} :
        {A : Type ℓ} {B : Type κ} (f : A → Stage S B)
        → ((a : A) → Along P (f a))
        → (w : World S) (r : Exit A × World S) → P w r.1
        → P w (resume f r).1
    resume-Along f h w (stop r, w1) p = p
    resume-Along f h w (go a, w1) p = t w w1 (f a w1).1 p (h a w1)

    pub bind-Along {ℓ κ} :
        {A : Type ℓ} {B : Type κ} (m : Stage S A) (f : A → Stage S B)
        → Along P m
        → ((a : A) → Along P (f a))
        → Along P (m >>= f)
    unfolding ◌>>=◌
    bind-Along m f p h w = resume-Along f h w (m w) (p w)

    pub then-Along {ℓ} :
        {B : Type ℓ} (m : Stage S (Unit {0})) (k : Stage S B)
        → Along P m
        → Along P k
        → Along P (m >> k)
    unfolding ◌>>◌
    then-Along m k p h w = resume-Along (λ u. k) (λ u. h) w (m w) (p w)

  -- No payment is submitted.
  abbrev pub Unsent : World S → World S → Type 0
  Unsent w w' = w'.submitted ≡ w.submitted

  -- The store is as before.
  abbrev pub Untouched : World S → World S → Type 0
  Untouched w w' = w'.store ≡ w.store

  pub still : (w w' : World S) → Untouched w w' → Unsent w w' → Unsent w w'
  still w w' p q = q

  pub Unsent-trans : IsTransitive Unsent
  Unsent-trans a b c p q = q ∙ p

  -- A key that is bound at a time from `from` on stays so.
  module _ (view : View S) (from : ℕ) (k : Text) where
    abbrev pub Alive : World S → World S → Type 0
    Alive w w' =
        (t : ℕ) → from ≤ t → is_some (view w.store t k) ≡ true → is_some (view w'.store t k) ≡ true

    pub Alive-trans : IsTransitive Alive
    Alive-trans a b c p q t l h = q t l (p t l h)

    pub Untouched-Alive : (w w' : World S) → Untouched w w' → Alive w w'
    Untouched-Alive w w' e t l h = ap (λ s. is_some (view s t k)) e ∙ h

    pub call-Alive {ℓ} :
        {A : Type ℓ} (f : S → A × S)
        → ((s : S) (t : ℕ)
            → from ≤ t
            → is_some (view s t k) ≡ true
            → is_some (view (f s).1 t k) ≡ true)
        → Along Alive (call f)
    unfolding call
    call-Alive f h w t l = h w.store t l

  pub call-Unsent {ℓ} : {A : Type ℓ} (f : S → A × S) → Along Unsent (call f)
  unfolding call
  call-Unsent f w = refl
