-- ===== src/Store/Interface.antt =====
-- The contract of a replay store, as x402-xahau/server.mjs states it above its backends: what settle
-- may rely on, whichever backend is active. A call may fail (a backend that is down): whether it took
-- effect is then open, but it drops no live binding of another key.
use xahc.Prelude.{ℕ, ◌≤◌, ◌≡◌, Bool, true, false, Option, none, some, if◌then◌else◌}
use xahc.Prelude.Text.{Text, text_eq}
use xahc.Store.Memory.{Reserved, reserved, exists, full, live}

pub data Answer {ℓ} (A : Type ℓ) : Type ℓ where
  answered : A → Answer A
  failed : Answer A

-- The calls, each from a state of the backend to its answer and the next state.
pub record ReplayStore (R S : Type 0) : Type 0 where
  pub is_consumed : Text → ℕ → S → Answer Bool × S
  pub get_receipt : Text → ℕ → S → Answer (Option R) × S
  pub reserve : Text → ℕ → ℕ → S → Answer Reserved × S
  pub set : Text → ℕ → ℕ → S → Answer Bool × S
  pub release : Text → S → Answer (Unit {0}) × S
  pub set_receipt : Text → R → ℕ → S → Answer (Unit {0}) × S

-- What a backend holds at a time: the expiry of a key whose binding is live.
abbrev pub View : Type 0 → Type 0
View S = S → ℕ → Text → Option ℕ

abbrev pub is_some : Option ℕ → Bool
is_some none = false
is_some (some e) = true

-- What is bound at a time is bound at every earlier time: bindings run out, and none begins later.
abbrev pub Fades : {S : Type 0} → View S → Type 0
Fades {S = S} view =
    (s : S) (k : Text) (t u : ℕ) → t ≤ u → is_some (view s u k) ≡ true → is_some (view s t k) ≡ true

-- A binding that runs out at `expiry`, seen at `t`.
abbrev pub until : ℕ → ℕ → Option ℕ
until expiry t = if live t expiry then some expiry else none

module _ {S : Type 0} (view : View S) where
  -- From `now` on, every binding that was live is live as before.
  abbrev pub Keeps : ℕ → S → S → Type 0
  Keeps now s s' = (t : ℕ) (k : Text) → now ≤ t → view s' t k ≡ view s t k

  -- From `now` on, no live binding is gone.
  abbrev pub Grows : ℕ → S → S → Type 0
  Grows now s s' =
      (t : ℕ) (k : Text) → now ≤ t → is_some (view s t k) ≡ true → is_some (view s' t k) ≡ true

  -- From `now` on, `key` is bound until `expiry`, and every other binding is as before.
  abbrev pub Binds : Text → ℕ → ℕ → S → S → Type 0
  Binds key expiry now s s' =
      (t : ℕ) (k : Text)
      → now ≤ t
      → view s' t k ≡ (if text_eq key k then until expiry t else view s t k)

  abbrev pub ReserveResult : Text → ℕ → ℕ → S → Answer Reserved × S → Type 0
  ReserveResult key expiry now s (answered reserved, s') =
      (view s now key ≡ none) × Binds key expiry now s s'
  ReserveResult key expiry now s (answered exists, s') =
      (is_some (view s now key) ≡ true) × Keeps now s s'
  ReserveResult key expiry now s (answered full, s') = (view s now key ≡ none) × Keeps now s s'
  ReserveResult key expiry now s (failed, s') = Grows now s s'

  abbrev pub ConsumedResult : Text → ℕ → S → Answer Bool × S → Type 0
  ConsumedResult key now s (answered b, s') = (b ≡ is_some (view s now key)) × Keeps now s s'
  ConsumedResult key now s (failed, s') = Grows now s s'

  -- A live binding of another key.
  abbrev pub GrowsBut : Text → ℕ → S → S → Type 0
  GrowsBut key now s s' =
      (t : ℕ) (k : Text)
      → now ≤ t
      → text_eq key k ≡ false
      → is_some (view s t k) ≡ true
      → is_some (view s' t k) ≡ true

  abbrev pub SetResult : Text → ℕ → ℕ → S → Answer Bool × S → Type 0
  SetResult key expiry now s (answered true, s') = Binds key expiry now s s'
  SetResult key expiry now s (answered false, s') = Keeps now s s'
  SetResult key expiry now s (failed, s') = GrowsBut key now s s'

  abbrev pub ReleaseResult : Text → ℕ → S → Answer (Unit {0}) × S → Type 0
  ReleaseResult key now s (answered u, s') =
      (t : ℕ) (k : Text) → now ≤ t → view s' t k ≡ (if text_eq key k then none else view s t k)
  ReleaseResult key now s (failed, s') = GrowsBut key now s s'

-- The contract.
pub record IsReplayStore {R S : Type 0} (st : ReplayStore R S) (view : View S) : Type 0 where
  pub consumes : (k : Text) (now : ℕ) (s : S) → ConsumedResult view k now s (st.is_consumed k now s)
  pub reserves :
      (k : Text) (e now : ℕ) (s : S) → ReserveResult view k e now s (st.reserve k e now s)
  pub sets : (k : Text) (e now : ℕ) (s : S) → SetResult view k e now s (st.set k e now s)
  pub releases : (k : Text) (now : ℕ) (s : S) → ReleaseResult view k now s (st.release k s)
  pub reads : (k : Text) (now : ℕ) (s : S) → Keeps view now s (st.get_receipt k now s).1
  pub records : (k : Text) (r : R) (e now : ℕ) (s : S) → Keeps view now s (st.set_receipt k r e s).1
