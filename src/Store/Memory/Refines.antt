-- ===== src/Store/Memory/Refines.antt =====
-- InMemoryStore meets the contract of a replay store, and never fails.
use xahc.Prelude.{
  ℕ, ◌≤◌, ◌≡◌, refl, ◌∙◌, true, false, not, ◌&&◌, Option, none, some, inl, inr, Bool-cases, arith,
}
use xahc.Prelude.Text.{Text, text_eq_iff}
use xahc.Store.Dict
use xahc.Store.Dict.{get-set, get-delete, get-keep, kept}
use xahc.Store.Interface.{
  Answer, answered, ReplayStore, View, Fades, is_some, Keeps, Binds, ReserveResult, ConsumedResult,
  SetResult, ReleaseResult, IsReplayStore,
}
use xahc.Store.Memory
use xahc.Store.Memory.{
  Memory, Reserved, reserved, exists, full, live, is_live, has, has_room, sweep, put_binding,
}

abbrev pub memory_view : (R : Type 0) → View (Memory R)
memory_view R s t k = kept (live t) (Dict.get k s.bindings)

abbrev answer : {A S : Type 0} → A × S → Answer A × S
answer (a, s) = (answered a, s)

abbrev pub memory_store : (R : Type 0) → ReplayStore R (Memory R)
memory_store R = record {
  is_consumed = λ k now s. answer (Memory.is_consumed k now s);
  get_receipt = λ k now s. answer (Memory.get_receipt k now s);
  reserve = λ k e now s. answer (Memory.reserve k e now s);
  set = λ k e now s. answer (Memory.set k e now s);
  release = λ k s. (answered tt, Memory.release k s);
  set_receipt = λ k r e s. (answered tt, Memory.set_receipt k r e s);
}

-- What has expired stays expired.
kept-kept :
    (now t : ℕ) (o : Option ℕ) → now ≤ t → kept (live t) (kept (live now) o) ≡ kept (live t) o
kept-kept now t none h = refl
kept-kept now t (some e) h = ground arith

kept-dead : (now : ℕ) (o : Option ℕ) → is_live now o ≡ false → kept (live now) o ≡ none
kept-dead now none h = refl
kept-dead now (some e) h = ground arith

is_some-kept : (now : ℕ) (o : Option ℕ) → is_some (kept (live now) o) ≡ is_live now o
is_some-kept now none = refl
is_some-kept now (some e) = ground arith

kept-fades :
    (t u : ℕ) (o : Option ℕ)
    → t ≤ u
    → is_some (kept (live u) o) ≡ true
    → is_some (kept (live t) o) ≡ true
kept-fades t u none l h = h
kept-fades t u (some e) l h = ground (arith, l)

-- Bindings in memory run out, and none begins later.
pub memory-Fades : (R : Type 0) → Fades (memory_view R)
memory-Fades R s k t u l h = kept-fades t u (Dict.get k s.bindings) l h

module _ {R : Type 0} where
  sweep-Keeps : (now : ℕ) (s : Memory R) → Keeps (memory_view R) now s (sweep now s)
  unfolding sweep
  sweep-Keeps now s t k h =
      rw (get-keep (live now) k s.bindings) (kept-kept now t (Dict.get k s.bindings) h)

  put-Binds :
      (key : Text) (expiry now : ℕ) (s : Memory R)
      → Binds (memory_view R) key expiry now s (put_binding key expiry (sweep now s))
  unfolding put_binding
  put-Binds key expiry now s t k h =
      ground (arith, get-set key k expiry (sweep now s).bindings, sweep-Keeps now s t k h)

  reserve-meets :
      (key : Text) (expiry now : ℕ) (s : Memory R)
      → ReserveResult (memory_view R) key expiry now s (answer (Memory.reserve key expiry now s))
  unfolding Memory.reserve
  reserve-meets key expiry now s = elim (Bool-cases (is_live now (Dict.get key s.bindings))) [
    | inl l ↦ rw (l, Memory.reserve) (is_some-kept now (Dict.get key s.bindings) ∙ l, λ t k h. refl)
    | inr d ↦
        let absent = kept-dead now (Dict.get key s.bindings) d in
        elim (Bool-cases (not (has_room (sweep now s)) && not (has key (sweep now s).bindings))) [
          | inl f ↦ rw (d, f, Memory.reserve) (absent, sweep-Keeps now s)
          | inr r ↦ rw (d, r, Memory.reserve) (absent, put-Binds key expiry now s)
        ]
  ]

  get-Keeps :
      (key : Text) (now : ℕ) (s : Memory R) → Keeps (memory_view R) now s (Memory.get key now s).1
  unfolding Memory.get
  get-Keeps key now s t k h = ground (arith, get-delete key k s.bindings, text_eq_iff key k)

  found-get :
      (key : Text) (now : ℕ) (s : Memory R)
      → (Memory.is_consumed key now s).0 ≡ is_some (memory_view R s now key)
  unfolding Memory.is_consumed Memory.get
  found-get key now s = ground arith

  is_consumed-meets :
      (key : Text) (now : ℕ) (s : Memory R)
      → ConsumedResult (memory_view R) key now s (answer (Memory.is_consumed key now s))
  unfolding Memory.is_consumed
  is_consumed-meets key now s = (found-get key now s, get-Keeps key now s)

  set-meets :
      (key : Text) (expiry now : ℕ) (s : Memory R)
      → SetResult (memory_view R) key expiry now s (answer (Memory.set key expiry now s))
  unfolding Memory.set
  set-meets key expiry now s =
      elim (Bool-cases (not (has_room (sweep now s)) && not (has key (sweep now s).bindings))) [
        | inl f ↦ rw (f, Memory.set) (sweep-Keeps now s)
        | inr r ↦ rw (r, Memory.set) (put-Binds key expiry now s)
      ]

  release-meets :
      (key : Text) (now : ℕ) (s : Memory R)
      → ReleaseResult (memory_view R) key now s (answered tt, Memory.release key s)
  unfolding Memory.release
  release-meets key now s t k h = ground (arith, get-delete key k s.bindings)

  get_receipt-Keeps :
      (key : Text) (now : ℕ) (s : Memory R)
      → Keeps (memory_view R) now s (Memory.get_receipt key now s).1
  unfolding Memory.get_receipt
  get_receipt-Keeps key now s t k h = ground arith

  set_receipt-Keeps :
      (key : Text) (r : R) (e now : ℕ) (s : Memory R)
      → Keeps (memory_view R) now s (Memory.set_receipt key r e s)
  unfolding Memory.set_receipt
  set_receipt-Keeps key r e now s t k h = refl

-- InMemoryStore meets the contract: reserve is a test-and-set of live bindings, and no call drops or
-- changes a live binding but set of its key and release.
pub memory-IsReplayStore : (R : Type 0) → IsReplayStore (memory_store R) (memory_view R)
memory-IsReplayStore R = record {
  consumes = is_consumed-meets;
  reserves = reserve-meets;
  sets = set-meets;
  releases = release-meets;
  reads = get_receipt-Keeps;
  records = set_receipt-Keeps;
}
