-- ===== src/Store/Memory/Capacity.antt =====
-- The hard cap of InMemoryStore.
use xahc.Prelude.{
  ℕ, ◌≤◌, ◌<◌, ◌≡◌, false, not, ◌&&◌, List, [], ◌∷◌, inl, inr, Option-cases, arith, length,
}
use xahc.Prelude.Text.{Text}
use xahc.Store.Dict
use xahc.Store.Dict.{Dict, length-keep-le, length-delete-le, length-set, get-keep, kept}
use xahc.Store.Memory
use xahc.Store.Memory.{
  Memory, Reserved, reserved, exists, full, live, is_live, has, has_room, sweep, put_binding,
}

-- The calls that change the store.
pub data Call (R : Type 0) : Type 0 where
  reserve : Text → ℕ → ℕ → Call R
  set : Text → ℕ → ℕ → Call R
  get : Text → ℕ → Call R
  release : Text → Call R
  get_receipt : Text → ℕ → Call R
  set_receipt : Text → R → ℕ → Call R

module _ {R : Type 0} where
  pub step : Memory R → Call R → Memory R
  step s (reserve k e now) = (Memory.reserve k e now s).1
  step s (set k e now) = (Memory.set k e now s).1
  step s (get k now) = (Memory.get k now s).1
  step s (release k) = Memory.release k s
  step s (get_receipt k now) = (Memory.get_receipt k now s).1
  step s (set_receipt k r e) = Memory.set_receipt k r e s

  pub run : Memory R → List (Call R) → Memory R
  run s [] = s
  run s (c ∷ cs) = run (step s c) cs

  abbrev pub Fits : Memory R → Type 0
  Fits s = length s.bindings ≤ s.max_entries

  put-Fits :
      (k : Text) (e : ℕ) (s : Memory R)
      → Fits s
      → (not (has_room s) && not (has k s.bindings)) ≡ false
      → Fits (put_binding k e s)
  unfolding put_binding
  put-Fits k e s f h = elim (Option-cases (Dict.get k s.bindings)) [
    | inl m ↦ ground (arith, m, length-set k e s.bindings)
    | inr (x, m) ↦ ground (arith, m, length-set k e s.bindings)
  ]

  sweep-Fits : (now : ℕ) (s : Memory R) → Fits s → Fits (sweep now s)
  unfolding sweep
  sweep-Fits now s f = omega (arith, length-keep-le (live now) s.bindings)

  reserve-Fits : (k : Text) (e now : ℕ) (s : Memory R) → Fits s → Fits (Memory.reserve k e now s).1
  unfolding Memory.reserve
  reserve-Fits k e now s f =
      ground (arith, sweep-Fits now s f, put-Fits k e (sweep now s) (sweep-Fits now s f))

  set-Fits : (k : Text) (e now : ℕ) (s : Memory R) → Fits s → Fits (Memory.set k e now s).1
  unfolding Memory.set
  set-Fits k e now s f =
      ground (arith, sweep-Fits now s f, put-Fits k e (sweep now s) (sweep-Fits now s f))

  step-Fits : (s : Memory R) (c : Call R) → Fits s → Fits (step s c)
  unfolding step
  step-Fits s (reserve k e now) f = reserve-Fits k e now s f
  step-Fits s (set k e now) f = set-Fits k e now s f
  step-Fits s (get k now) f = unfold Memory.get in ground (arith, length-delete-le k s.bindings)
  step-Fits s (release k) f = unfold Memory.release in omega (arith, length-delete-le k s.bindings)
  step-Fits s (get_receipt k now) f = unfold Memory.get_receipt in ground arith
  step-Fits s (set_receipt k r e) f = unfold Memory.set_receipt in f

  -- Whatever the calls, a store within its cap stays within it.
  pub run-Fits : (s : Memory R) (cs : List (Call R)) → Fits s → Fits (run s cs)
  unfolding run
  run-Fits s [] f = f
  run-Fits s (c ∷ cs) f = run-Fits (step s c) cs (step-Fits s c f)

-- Every binding is live.
abbrev pub AllLive : ℕ → Dict ℕ → Type 0
AllLive now [] = Unit
AllLive now ((k, e) ∷ m) = (now < e) × AllLive now m

delete-AllLive : (now : ℕ) (k : Text) (m : Dict ℕ) → AllLive now m → AllLive now (Dict.delete k m)
unfolding Dict.delete
delete-AllLive now k [] h = tt
delete-AllLive now k ((j, e) ∷ m) h = ground (arith, delete-AllLive now k m h.1)

keep-AllLive : (now : ℕ) (m : Dict ℕ) → AllLive now (Dict.keep (live now) m)
unfolding Dict.keep
keep-AllLive now [] = tt
keep-AllLive now ((k, e) ∷ m) =
    ground (
      arith,
      keep-AllLive now m,
      delete-AllLive now k (Dict.keep (live now) m) (keep-AllLive now m),
    )

-- A new key is refused only by a store that holds as many live bindings as its cap allows, and they
-- are still there.
pub reserve_full :
    {R : Type 0} (k : Text) (e now : ℕ) (s : Memory R)
    → (Memory.reserve k e now s).0 ≡ full
    → (s.max_entries ≤ length (Memory.reserve k e now s).1.bindings)
      × AllLive now (Memory.reserve k e now s).1.bindings
unfolding Memory.reserve sweep
reserve_full k e now s h = ground (arith, keep-AllLive now s.bindings)
