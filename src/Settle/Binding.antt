-- ===== src/Settle/Binding.antt =====
-- What the store's contract says of settle's calls: which bindings stay alive.
use xahc.Prelude.{ℕ, ◌≤◌, ◌≡◌, refl, ap, ◌∙◌, ◌++◌, arith, Bool, true, false, Bool-cases, inl, inr}
use xahc.Prelude.Text.{Text, codes, text_eq}
use xahc.Libs.{Tx}
use xahc.Verify.{replay_key_for, has_text}
use xahc.Store.Memory.{Reserved, reserved, exists, full}
use xahc.Store.Interface.{
  ReplayStore, IsReplayStore, Answer, answered, failed, View, is_some, Keeps, Binds, ReserveResult,
  ConsumedResult, SetResult, ReleaseResult,
}
use xahc.Settle.Effects.{Receipt, call}
use xahc.Settle.Laws.{Along, Alive, call-Alive}

-- A key that no hash is bound under.
abbrev pub IsReplayKey : Text → Type 0
IsReplayKey k = (hash : Text) → text_eq (codes "hash:" ++ hash) k ≡ false

pub replay_key_for-IsReplayKey : (tx : Tx) → IsReplayKey (replay_key_for tx)
unfolding replay_key_for text_eq
replay_key_for-IsReplayKey tx hash = elim (Bool-cases (has_text tx.invoice_id)) [
  | inl e ↦ rw e refl
  | inr e ↦ rw e refl
]

module _ {S : Type 0} (view : View S) (k : Text) where
  -- The key is alive after, at a time that it is alive before.
  abbrev pub StaysAt : ℕ → S → S → Type 0
  StaysAt t s s' = is_some (view s t k) ≡ true → is_some (view s' t k) ≡ true

  pub keeps : (at t : ℕ) (s s' : S) → Keeps view at s s' → at ≤ t → StaysAt t s s'
  keeps at t s s' h l a = ap is_some (h t k l) ∙ a

  pub consumed-stays :
      (key : Text) (at t : ℕ) (s : S) (r : Answer Bool × S)
      → ConsumedResult view key at s r
      → at ≤ t
      → StaysAt t s r.1
  consumed-stays key at t s (answered b, s') h l = keeps at t s s' h.1 l
  consumed-stays key at t s (failed, s') h l = h t k l

  -- A write of another key.
  module _ (key : Text) (differs : text_eq key k ≡ false) where
    pub binds : (e at t : ℕ) (s s' : S) → Binds view key e at s s' → at ≤ t → StaysAt t s s'
    binds e at t s s' h l a = ground (arith, h t k l, differs)

    pub reserve-stays :
        (e at t : ℕ) (s : S) (r : Answer Reserved × S)
        → ReserveResult view key e at s r
        → at ≤ t
        → StaysAt t s r.1
    reserve-stays e at t s (answered reserved, s') h l = binds e at t s s' h.1 l
    reserve-stays e at t s (answered exists, s') h l = keeps at t s s' h.1 l
    reserve-stays e at t s (answered full, s') h l = keeps at t s s' h.1 l
    reserve-stays e at t s (failed, s') h l = h t k l

    pub set-stays :
        (e at t : ℕ) (s : S) (r : Answer Bool × S)
        → SetResult view key e at s r
        → at ≤ t
        → StaysAt t s r.1
    set-stays e at t s (answered true, s') h l = binds e at t s s' h l
    set-stays e at t s (answered false, s') h l = keeps at t s s' h l
    set-stays e at t s (failed, s') h l = h t k l differs

    pub release-stays :
        (at t : ℕ) (s : S) (r : Answer (Unit {0}) × S)
        → ReleaseResult view key at s r
        → at ≤ t
        → StaysAt t s r.1
    release-stays at t s (answered u, s') h l a = ground (arith, h t k l, differs)
    release-stays at t s (failed, s') h l a = h t k l differs a

  module _ (st : ReplayStore Receipt S) (is : IsReplayStore st view) (from : ℕ) where
    pub is_consumed-Alive :
        (key : Text) (at : ℕ) → at ≤ from → Along (Alive view from k) (call (st.is_consumed key at))
    is_consumed-Alive key at l = call-Alive view from k (st.is_consumed key at) (λ s t b.
        consumed-stays key at t s (st.is_consumed key at s) (is.consumes key at s) (omega arith))

    pub get_receipt-Alive :
        (key : Text) (at : ℕ) → at ≤ from → Along (Alive view from k) (call (st.get_receipt key at))
    get_receipt-Alive key at l =
        call-Alive view from k (st.get_receipt key at)
          (λ s t b. keeps at t s (st.get_receipt key at s).1 (is.reads key at s) (omega arith))

    pub set_receipt-Alive :
        (key : Text) (r : Receipt) (e : ℕ)
        → Along (Alive view from k) (call (st.set_receipt key r e))
    set_receipt-Alive key r e =
        call-Alive view from k (st.set_receipt key r e)
          (λ s t b. keeps from t s (st.set_receipt key r e s).1 (is.records key r e from s) b)

    module _ (key : Text) (differs : text_eq key k ≡ false) where
      pub reserve-Alive :
          (e at : ℕ) → at ≤ from → Along (Alive view from k) (call (st.reserve key e at))
      reserve-Alive e at l = call-Alive view from k (st.reserve key e at) (λ s t b.
          reserve-stays key differs e at t s (st.reserve key e at s) (is.reserves key e at s)
            (omega arith))

      pub set-Alive : (e at : ℕ) → at ≤ from → Along (Alive view from k) (call (st.set key e at))
      set-Alive e at l = call-Alive view from k (st.set key e at) (λ s t b.
          set-stays key differs e at t s (st.set key e at s) (is.sets key e at s) (omega arith))

      pub release-Alive : Along (Alive view from k) (call (st.release key))
      release-Alive = call-Alive view from k (st.release key) (λ s t b.
          release-stays key differs from t s (st.release key s) (is.releases key from s) b)
