-- ===== src/Settle/Race/Exclusive.antt =====
-- The reservations of calls of settle that interleave exclude each other.
use xahc.Prelude.{
  ℕ, ◌≤◌, ◌<◌, ◌≡◌, ◌≢◌, refl, sym, ap, ◌∙◌, subst, true, ◌==◌, ltb, arith, Bool-cases, ==_iff,
  lt→ltb, ◌⊎◌, inl, inr,
}
use xahc.Prelude.Text.{Text, text_eq, text_eq_iff, text_eq_refl}
use xahc.Store.Memory.{Reserved, reserved, exists, full}
use xahc.Store.Interface.{Answer, answered, failed, View, Fades, is_some, ReserveResult}
use xahc.Settle.Effects.{World}
use xahc.Settle.Binding.{IsReplayKey, StaysAt, keeps, reserve-stays}
use xahc.Settle.Race.{Holder, key, expiry, Phase, free, holding, sent, Shared, moved, stored, moves}

-- The call at this phase has the reservation of the holder.
abbrev pub Holds : Phase → Holder → Type 0
Holds free h = ⊥
Holds (holding g) h = g ≡ h
Holds (sent g) h = g ≡ h

pub moved_cases :
    (i j : ℕ) (p : Phase) (phase : ℕ → Phase) (h : Holder)
    → Holds (moved i p phase j) h
    → ((j ≡ i) × Holds p h) ⊎ ((j ≢ i) × Holds (phase j) h)
moved_cases i j p phase h x = elim (Bool-cases (j == i)) [
  | inl e ↦ inl ((==_iff j i).0 e, rw e at x)
  | inr e ↦ inr (λ same. absurd (ground (arith, e, same)), rw e at x)
]

module _ {S : Type 0} (view : View S) where
  -- Every reservation that has not run out is bound, and of two calls that have reserved one key at
  -- most one has a reservation that has not run out.
  pub record IsExclusive (s : Shared S) : Type 0 where
    pub keyed : (i : ℕ) (h : Holder) → Holds (s.phase i) h → IsReplayKey (key h)
    pub bound :
        (i : ℕ) (h : Holder)
        → Holds (s.phase i) h
        → (t : ℕ) → s.clock ≤ t
        → t < expiry h
        → is_some (view s.world.store t (key h)) ≡ true
    pub single :
        (i j : ℕ) (h g : Holder)
        → i ≢ j
        → Holds (s.phase i) h
        → Holds (s.phase j) g
        → key h ≡ key g
        → (expiry h ≤ s.clock) ⊎ (expiry g ≤ s.clock)

  -- What a change of the store leaves: a key that is bound now is bound later as before.
  abbrev pub Leaves : ℕ → S → S → Type 0
  Leaves clock s s' =
      (k : Text) (t : ℕ)
      → IsReplayKey k
      → is_some (view s clock k) ≡ true
      → clock ≤ t
      → StaysAt view k t s s'

  pub changed :
      (s : Shared S) (w : World S)
      → Leaves s.clock s.world.store w.store
      → IsExclusive s
      → IsExclusive (record s { world = w })
  changed s w l inv = record {
    keyed = inv.keyed;
    bound = λ i h x t at in_time.
        l (key h) t (inv.keyed i h x)
          (inv.bound i h x s.clock (omega arith) (omega (arith, at, in_time))) at
          (inv.bound i h x t at in_time);
    single = inv.single;
  }

  -- Reservations move from phase to phase, or end.
  pub relabelled :
      (s : Shared S) (phase : ℕ → Phase)
      → ((j : ℕ) (g : Holder) → Holds (phase j) g → Holds (s.phase j) g)
      → IsExclusive s
      → IsExclusive (record s { phase = phase })
  relabelled s phase f inv = record {
    keyed = λ i h x. inv.keyed i h (f i h x);
    bound = λ i h x. inv.bound i h (f i h x);
    single = λ i j h g d x y. inv.single i j h g d (f i h x) (f j g y);
  }

  pub later :
      (s : Shared S) (t : ℕ) → s.clock ≤ t → IsExclusive s → IsExclusive (record s { clock = t })
  later s t l inv = record {
    keyed = inv.keyed;
    bound = λ i h x u at. inv.bound i h x u (omega (arith, l, at));
    single = λ i j h g d x y e. elim (inv.single i j h g d x y e) [
      | inl a ↦ inl (omega (arith, a, l))
      | inr b ↦ inr (omega (arith, b, l))
    ];
  }

module _ {S : Type 0} (view : View S) (fades : Fades view) where
  -- A reservation, whatever it comes to, leaves what is bound.
  pub reserve-Leaves :
      (k : Text) (e at clock : ℕ) (s : S) (r : Answer Reserved × S)
      → at ≤ clock
      → ReserveResult view k e at s r
      → Leaves view clock s r.1
  reserve-Leaves k e at clock s r old h k' t ik now l = elim (Bool-cases (text_eq k k')) [
    | inr d ↦ reserve-stays view k' k d e at t s r h (omega (arith, old, l))
    | inl same ↦ own r h (
        fades s k at clock old
          (subst (λ x. is_some (view s clock x) ≡ true) (sym ((text_eq_iff k k').0 same)) now))
  ]
    where
      own :
          (r : Answer Reserved × S)
          → ReserveResult view k e at s r
          → is_some (view s at k) ≡ true
          → StaysAt view k' t s r.1
      own (answered reserved, s') h n = absurd (cc (h.0, n))
      own (answered exists, s') h n = keeps view k' at t s s' h.1 (omega (arith, old, l))
      own (answered full, s') h n = keeps view k' at t s s' h.1 (omega (arith, old, l))
      own (failed, s') h n = h t k' (omega (arith, old, l))

  -- A reservation that succeeds.
  module _ (s : Shared S) (i : ℕ) (h : Holder) (store : S) (ik : IsReplayKey (key h))
      (past : h.call.env.now ≤ s.clock)
      (r : ReserveResult view
        (key h)
        (expiry h)
        h.call.env.now
        s.world.store
        (answered reserved, store))
      (inv : IsExclusive view s) where
    leaves : Leaves view s.clock s.world.store store
    leaves =
        reserve-Leaves (key h) (expiry h) h.call.env.now s.clock s.world.store
          (answered reserved, store) past r

    -- Another reservation of the key has run out, since the key was free.
    outdated : (j : ℕ) (g : Holder) → Holds (s.phase j) g → key h ≡ key g → expiry g ≤ s.clock
    outdated j g x e = elim (Bool-cases (ltb s.clock (expiry g))) [
      | inr o ↦ ground (arith, o)
      | inl o ↦
          let now = inv.bound j g x s.clock (omega arith) (ground (arith, o)) in
          let bound = fades s.world.store (key g) h.call.env.now s.clock past now in
          absurd (cc (e, bound, r.0))
    ]

    own_bound : (t : ℕ) → s.clock ≤ t → t < expiry h → is_some (view store t (key h)) ≡ true
    own_bound t at in_time =
        rw
          (
            r.1 t (key h) (omega (arith, past, at)),
            text_eq_refl (key h),
            lt→ltb t (expiry h) in_time,
          )
          refl

    old : IsExclusive view (stored store s)
    old = changed view s (record s.world { store = store }) leaves inv

    pub claims-IsExclusive : IsExclusive view (moves i (holding h) (stored store s))
    claims-IsExclusive = record {
      keyed = λ j g x. elim (moved_cases i j (holding h) s.phase g x) [
        | inl (_, same) ↦ subst (λ g. IsReplayKey (key g)) same ik
        | inr (_, y) ↦ inv.keyed j g y
      ];
      bound = λ j g x t at in_time. elim (moved_cases i j (holding h) s.phase g x) [
        | inl (_, same) ↦
            subst (λ g. t < expiry g → is_some (view store t (key g)) ≡ true) same (own_bound t at)
              in_time
        | inr (_, y) ↦ old.bound j g y t at in_time
      ];
      single = λ j l g f d x y e. elim (moved_cases i j (holding h) s.phase g x) [
        | inl (ej, same) ↦ elim (moved_cases i l (holding h) s.phase f y) [
          | inl (el, _) ↦ absurd (d (ej ∙ sym el))
          | inr (_, z) ↦ inr (outdated l f z (ap key same ∙ e))
        ]
        | inr (_, w) ↦ elim (moved_cases i l (holding h) s.phase f y) [
          | inl (_, same) ↦ inl (outdated j g w (ap key same ∙ sym e))
          | inr (_, z) ↦ inv.single j l g f d w z e
        ]
      ];
    }
