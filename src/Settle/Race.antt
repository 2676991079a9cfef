-- ===== src/Settle/Race.antt =====
-- Calls of settle that interleave. The calls share the world and the clock; between two calls of the
-- store another call may go on, so a step is one call of the store, or one submission.
pub mod Exclusive
pub mod Unique
pub mod Runs
use xahc.Prelude.{ℕ, ◌≤◌, ◌<◌, ◌≡◌, true, Option, none, some, [], ◌∷◌, ◌++◌, ◌==◌, if◌then◌else◌}
use xahc.Prelude.Text.{Text, codes}
use xahc.Message.{ok}
use xahc.Js.{Value}
use xahc.Verify.{Verified, verify_exact}
use xahc.Store.Memory.{reserved}
use xahc.Store.Interface.{ReplayStore, answered}
use xahc.Settle.Submit.{threw, submit_definitely_not_applied}
use xahc.Settle.Effects.{Receipt, World}
use xahc.Settle.Before.{Plan, admit, expiry_of}
use xahc.Settle.Once.{Call}

-- A call that has reserved its key: its payment and the window.
pub record Holder : Type 0 where
  pub call : Call
  pub v : Verified
  pub plan : Plan

abbrev pub key : Holder → Text
key h = h.v.replay_id

abbrev pub expiry : Holder → ℕ
expiry h = expiry_of h.call.env h.plan

-- Where a call is: it holds no reservation, it has passed the reservation, or it has submitted.
pub data Phase : Type 0 where
  free : Phase
  holding sent : Holder → Phase

pub record Shared (S : Type 0) : Type 0 where
  pub clock : ℕ
  pub world : World S
  pub phase : ℕ → Phase

-- The phases after a step of the call i.
abbrev pub moved : ℕ → Phase → (ℕ → Phase) → ℕ → Phase
moved i p phase j = if j == i then p else phase j

module _ {S : Type 0} where
  abbrev pub stored : S → Shared S → Shared S
  stored store s = record s { world = record s.world { store = store } }

  abbrev pub submitting : Text → Shared S → Shared S
  submitting blob s = record s { world = record s.world { submitted = blob ∷ s.world.submitted } }

  abbrev pub moves : ℕ → Phase → Shared S → Shared S
  moves i p s = record s { phase = moved i p s.phase }

  module _ (st : ReplayStore Receipt S) where
    -- What the calls and the clock may do next. A call uses a reading `at` of the clock, which may be old
    -- by then. To read the store, to count, or to reserve without going on, a call may be anywhere.
    pub data Step : Shared S → Shared S → Type 0 where
      ticks : (s : Shared S) (t : ℕ) → s.clock ≤ t → Step s (record s { clock = t })
      counts :
          (s : Shared S) (w : World S)
          → w.store ≡ s.world.store
          → w.submitted ≡ s.world.submitted
          → Step s (record s { world = w })
      looks :
          (s : Shared S) (k : Text) (at : ℕ)
          → at ≤ s.clock
          → Step s (stored (st.is_consumed k at s.world.store).1 s)
      reads :
          (s : Shared S) (k : Text) (at : ℕ)
          → at ≤ s.clock
          → Step s (stored (st.get_receipt k at s.world.store).1 s)
      tries :
          (s : Shared S) (k : Text) (e at : ℕ)
          → at ≤ s.clock
          → Step s (stored (st.reserve k e at s.world.store).1 s)
      claims :
          (s : Shared S) (i : ℕ) (h : Holder) (store : S)
          → s.phase i ≡ free
          → verify_exact h.call.env.libs h.call.env.network h.call.payload h.call.req ≡ ok h.v
          → admit h.call.env h.call.payload ≡ ok h.plan
          → h.call.env.now ≤ s.clock
          → st.reserve (key h) (expiry h) h.call.env.now s.world.store ≡ (answered reserved, store)
          → Step s (moves i (holding h) (stored store s))
      submits :
          (s : Shared S) (i : ℕ) (h : Holder)
          → s.phase i ≡ holding h
          → Step s (moves i (sent h) (submitting h.plan.blob s))
      binds :
          (s : Shared S) (hash : Text) (e at : ℕ)
          → at ≤ s.clock
          → Step s (stored (st.set (codes "hash:" ++ hash) e at s.world.store).1 s)
      keeps :
          (s : Shared S) (k : Text) (r : Receipt) (e : ℕ)
          → Step s (stored (st.set_receipt k r e s.world.store).1 s)
      releases :
          (s : Shared S) (i : ℕ) (h : Holder) (e : Value)
          → s.phase i ≡ sent h
          → h.call.env.submit_and_wait h.plan.blob ≡ threw e
          → submit_definitely_not_applied e ≡ true
          → Step s (moves i free (stored (st.release (key h) s.world.store).1 s))

    pub data Reach (s : Shared S) : Shared S → Type 0 where
      here : Reach s s
      next : {t u : Shared S} → Reach s t → Step t u → Reach s u

    -- A reservation that is released has not run out.
    abbrev pub InTime : {s t : Shared S} → Step s t → Type 0
    InTime (ticks s t l) = Unit {0}
    InTime (counts s w e u) = Unit {0}
    InTime (looks s k at l) = Unit {0}
    InTime (reads s k at l) = Unit {0}
    InTime (tries s k e at l) = Unit {0}
    InTime (claims s i h store f a p l r) = Unit {0}
    InTime (submits s i h f) = Unit {0}
    InTime (binds s hash e at l) = Unit {0}
    InTime (keeps s k r e) = Unit {0}
    InTime (releases s i h e f a d) = s.clock < expiry h

    -- Every release of a run is in time.
    abbrev pub ReleasesInTime : {s t : Shared S} → Reach s t → Type 0
    ReleasesInTime here = Unit {0}
    ReleasesInTime (next r step) = ReleasesInTime r × InTime step
