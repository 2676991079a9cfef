-- ===== src/Settle/Race/Unique.antt =====
-- However calls of settle interleave, no two of them have submitted one payment within its window.
use xahc.Prelude.{
  ℕ, ◌≤◌, ◌<◌, ◌≡◌, ◌≢◌, refl, sym, ap, ◌∙◌, subst, true, ◌++◌, arith, Bool-cases, ◌⊎◌, inl, inr,
}
use xahc.Prelude.Text.{codes, text_eq, text_eq_iff}
use xahc.Store.Interface.{ReplayStore, IsReplayStore, View, Fades, is_some, ReserveResult}
use xahc.Settle.Effects.{Receipt}
use xahc.Settle.Once.{verified-IsReplayKey}
use xahc.Settle.Binding.{keeps, consumed-stays, set-stays, release-stays}
use xahc.Settle.Race.{
  Holder, key, expiry, free, sent, Shared, moved, stored, moves, Step, InTime, ReleasesInTime,
  ticks, counts, looks, reads, tries, claims, submits, binds as binds_hash, keeps as keeps_receipt,
  releases, Reach, here, next,
}
use xahc.Settle.Race.Exclusive.{
  Holds, moved_cases, IsExclusive, changed, relabelled, later, reserve-Leaves, claims-IsExclusive,
}

module _ {S : Type 0} (view : View S) (fades : Fades view) where
  -- A release before the reservation has run out: no other live reservation has its key.
  module _ (s : Shared S) (i : ℕ) (h : Holder) (x : Holds (s.phase i) h)
      (in_time : s.clock < expiry h) (inv : IsExclusive view s) (st : ReplayStore Receipt S)
      (is : IsReplayStore st view) where
    abbrev gone : S
    gone = (st.release (key h) s.world.store).1

    others : (j : ℕ) (g : Holder) → Holds (moved i free s.phase j) g → (i ≢ j) × Holds (s.phase j) g
    others j g y = elim (moved_cases i j free s.phase g y) [
      | inl (_, none_held) ↦ absurd none_held
      | inr (d, z) ↦ (λ e. d (sym e), z)
    ]

    released_bound :
        (j : ℕ) (g : Holder)
        → i ≢ j
        → Holds (s.phase j) g
        → (t : ℕ) → s.clock ≤ t
        → t < expiry g
        → is_some (view gone t (key g)) ≡ true
    released_bound j g d z t at lt = elim (Bool-cases (text_eq (key h) (key g))) [
      | inl e ↦ absurd (elim (inv.single i j h g d x z ((text_eq_iff (key h) (key g)).0 e)) [
        | inl a ↦ omega (arith, a, in_time)
        | inr b ↦ omega (arith, b, at, lt)
      ])
      | inr e ↦
          release-stays view (key g) (key h) e s.clock t s.world.store
            (st.release (key h) s.world.store) (is.releases (key h) s.clock s.world.store) at
            (inv.bound j g z t at lt)
    ]

    releases-IsExclusive : IsExclusive view (moves i free (stored gone s))
    releases-IsExclusive = record {
      keyed = λ j g y. inv.keyed j g (others j g y).1;
      bound = λ j g y t. released_bound j g (others j g y).0 (others j g y).1 t;
      single = λ j l g f d y z. inv.single j l g f d (others j g y).1 (others l f z).1;
    }

  module _ (st : ReplayStore Receipt S) (is : IsReplayStore st view) where
    Step-IsExclusive :
        {s t : Shared S} (step : Step st s t)
        → InTime st step
        → IsExclusive view s
        → IsExclusive view t
    Step-IsExclusive (ticks s t l) o inv = later view s t l inv
    Step-IsExclusive (counts s w e u) o inv =
        changed view s w (λ k t ik now at a. ap (λ x. is_some (view x t k)) e ∙ a) inv
    Step-IsExclusive (looks s k at old) o inv =
        changed view s _
          (λ k' t ik now l.
            consumed-stays view k' k at t s.world.store (st.is_consumed k at s.world.store)
              (is.consumes k at s.world.store) (omega (arith, old, l)))
          inv
    Step-IsExclusive (reads s k at old) o inv =
        changed view s _
          (λ k' t ik now l.
            keeps view k' at t s.world.store (st.get_receipt k at s.world.store).1
              (is.reads k at s.world.store) (omega (arith, old, l)))
          inv
    Step-IsExclusive (tries s k e at old) o inv =
        changed view s _
          (reserve-Leaves view fades k e at s.clock s.world.store (st.reserve k e at s.world.store)
            old (is.reserves k e at s.world.store))
          inv
    Step-IsExclusive (claims s i h store f a p past r) o inv =
        claims-IsExclusive view fades s i h store (verified-IsReplayKey h.call h.v a) past
          (subst (ReserveResult view (key h) (expiry h) h.call.env.now s.world.store) r
            (is.reserves (key h) (expiry h) h.call.env.now s.world.store))
          inv
    Step-IsExclusive (submits s i h e) o inv =
        changed view _ _ (λ k t ik now at a. a)
          (relabelled view s (moved i (sent h) s.phase)
            (λ j g x. elim (moved_cases i j (sent h) s.phase g x) [
              | inl (same, y) ↦
                  subst (λ n. Holds (s.phase n) g) (sym same) (subst (λ p. Holds p g) (sym e) y)
              | inr (_, y) ↦ y
            ])
            inv)
    Step-IsExclusive (binds_hash s hash e at old) o inv =
        changed view s _
          (λ k t ik now l.
            set-stays view k (codes "hash:" ++ hash) (ik hash) e at t s.world.store
              (st.set (codes "hash:" ++ hash) e at s.world.store)
              (is.sets (codes "hash:" ++ hash) e at s.world.store) (omega (arith, old, l)))
          inv
    Step-IsExclusive (keeps_receipt s k r e) o inv =
        changed view s _
          (λ k' t ik now at.
            keeps view k' s.clock t s.world.store (st.set_receipt k r e s.world.store).1
              (is.records k r e s.clock s.world.store) at)
          inv
    Step-IsExclusive (releases s i h e f a d) l inv =
        releases-IsExclusive s i h (subst (λ p. Holds p h) (sym f) refl) l inv st is

    Reach-IsExclusive :
        {s t : Shared S}
        → IsExclusive view s
        → (r : Reach st s t) → ReleasesInTime st r
        → IsExclusive view t
    Reach-IsExclusive inv here l = inv
    Reach-IsExclusive inv (next r step) l = Step-IsExclusive step l.1 (Reach-IsExclusive inv r l.0)

    none_held : (s : Shared S) → ((i : ℕ) → s.phase i ≡ free) → IsExclusive view s
    none_held s f =
        let never : (i : ℕ) (h : Holder) → Holds (s.phase i) h → ⊥ =
          λ i h x. subst (λ p. Holds p h) (f i) x in
        record {
          keyed = λ i h x. absurd (never i h x);
          bound = λ i h x t at in_time. absurd (never i h x);
          single = λ i j h g d x y e. absurd (never i h x);
        }

    -- On a store that meets the contract, from a state in which no call holds a reservation, and however
    -- the calls interleave between their calls of the store, if no key is released after its reservation
    -- has run out: of two calls that have submitted payments with one replay key, and have not released
    -- it, one's binding has expired.
    pub Reach-single :
        {s t : Shared S}
        → ((i : ℕ) → s.phase i ≡ free)
        → (r : Reach st s t) → ReleasesInTime st r
        → (i j : ℕ) (h g : Holder) → i ≢ j
        → t.phase i ≡ sent h
        → t.phase j ≡ sent g
        → key h ≡ key g
        → (expiry h ≤ t.clock) ⊎ (expiry g ≤ t.clock)
    Reach-single {s = s} f r l i j h g d x y e =
        (Reach-IsExclusive (none_held s f) r l).single i j h g d
          (subst (λ p. Holds p h) (sym x) refl) (subst (λ p. Holds p g) (sym y) refl) e
