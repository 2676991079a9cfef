-- ===== src/Settle/Race/Runs.antt =====
-- A call of settle that runs alone is a run of the steps of Race.
use xahc.Prelude.{
  ℕ, ◌≤◌, ◌<◌, ◌≡◌, refl, sym, ap, ◌∙◌, subst, Bool, true, Option, ◌∷◌, ◌++◌, ◌==◌, arith,
  Bool-cases, inl, inr,
}
use xahc.Prelude.Text.{Text, codes}
use xahc.Message.{ok}
use xahc.Js.{Value}
use xahc.Verify.{Verified, verify_exact}
use xahc.Authorize.{Source}
use xahc.Store.Interface.{ReplayStore}
use xahc.Settle.Submit.{Submitted, threw, resolved, maybe_applied, submit_definitely_not_applied}
use xahc.Node.{guardrail_hook_present}
use xahc.Settle.Effects.{Receipt, World, go, call, send, ◌>>=◌, ◌>>◌}
use xahc.Settle.Before.{Plan, admit, expiry_of, claim}
use xahc.Settle.After.{submitted_as, not_applied, after_release, finish}
use xahc.Settle.{attempt, settle}
use xahc.Settle.Laws.{Along, IsTransitive, Untouched, Unsent}
use xahc.Settle.Along.{maybe_applied-Along, after_release-Along}
use xahc.Settle.Opening.{settle-Attempt}
use xahc.Settle.Claim.{claim-reserved}
use xahc.Settle.Submission.{InOrder, attempt-Ending}
use xahc.Settle.Once.{Call}
use xahc.Settle.Race.{
  Holder, key, expiry, Phase, free, holding, sent, Shared, moved, stored, submitting, moves, Step,
  InTime, ReleasesInTime, counts, looks, reads, tries, claims, submits, binds, keeps, releases,
  Reach, here, next,
}

moved_here : (i : ℕ) (p : Phase) (phase : ℕ → Phase) → moved i p phase i ≡ p
moved_here i p phase = let same : (i == i) ≡ true = ground arith in rw same refl

module _ {S : Type 0} (st : ReplayStore Receipt S) where
  -- A run that releases keys in time.
  abbrev pub OnTime : Shared S → Shared S → Type 0
  OnTime s t = (r : Reach st s t) × ReleasesInTime st r

  then_next : {s t u : Shared S} → OnTime s t → (step : Step st t u) → InTime st step → OnTime s u
  then_next p step l = (next p.0 step, (p.1, l))

  Reach-trans :
      {s t u : Shared S} → OnTime s t → (q : Reach st t u) → ReleasesInTime st q → OnTime s u
  Reach-trans p here l = p
  Reach-trans p (next q step) l = then_next (Reach-trans p q l.0) step l.1

  OnTime-trans : {s t u : Shared S} → OnTime s t → OnTime t u → OnTime s u
  OnTime-trans p q = Reach-trans p q.0 q.1

  one : {s t : Shared S} (step : Step st s t) → InTime st step → OnTime s t
  one step l = then_next (here, tt) step l

  -- The state with this world.
  abbrev with_world : Shared S → World S → Shared S
  with_world s w = record s { world = w }

  module _ (s : Shared S) where
    -- From world to world, with the phases and the clock as they are.
    abbrev Steps : World S → World S → Type 0
    Steps w w' = OnTime (with_world s w) (with_world s w')

    Steps-trans : IsTransitive Steps
    Steps-trans a b c p q = OnTime-trans p q

    quiet : (w w' : World S) → Untouched w w' → Unsent w w' → Steps w w'
    quiet w w' p q = one (counts (with_world s w) w' p q) tt

    looks-Steps : (k : Text) (at : ℕ) → at ≤ s.clock → Along Steps (call (st.is_consumed k at))
    unfolding call
    looks-Steps k at l w = one (looks (with_world s w) k at l) tt

    reads-Steps : (k : Text) (at : ℕ) → at ≤ s.clock → Along Steps (call (st.get_receipt k at))
    unfolding call
    reads-Steps k at l w = one (reads (with_world s w) k at l) tt

    tries-Steps : (k : Text) (e at : ℕ) → at ≤ s.clock → Along Steps (call (st.reserve k e at))
    unfolding call
    tries-Steps k e at l w = one (tries (with_world s w) k e at l) tt

    binds-Steps :
        (hash : Text) (e at : ℕ)
        → at ≤ s.clock
        → Along Steps (call (st.set (codes "hash:" ++ hash) e at))
    unfolding call
    binds-Steps hash e at l w = one (binds (with_world s w) hash e at l) tt

    keeps-Steps : (k : Text) (r : Receipt) (e : ℕ) → Along Steps (call (st.set_receipt k r e))
    unfolding call
    keeps-Steps k r e w = one (keeps (with_world s w) k r e) tt

  -- A run that releases in time and ends in this world, at the same time.
  abbrev pub Run : Shared S → World S → Type 0
  Run s w = (t : Shared S) × OnTime s t × (t.world ≡ w) × (t.clock ≡ s.clock)

  -- What follows a submission.
  module _ (s : Shared S) (i : ℕ) (h : Holder) (source : Option Source)
      (at_sent : s.phase i ≡ sent h) (past : h.call.env.now ≤ s.clock)
      (in_time : s.clock < expiry h) where
    abbrev following : Submitted → World S
    following x = (submitted_as st h.call.env h.call.req h.v h.plan source x s.world).1

    maybe_run : (x : Submitted) → maybe_applied x ≡ true → Run s (following x)
    maybe_run x m = (
      with_world s (following x),
      maybe_applied-Along (Steps s) (Steps-trans s) (quiet s) st h.call.env
          (λ hash e. binds-Steps s hash e h.call.env.now past) h.call.req h.v h.plan source
          (λ r. keeps-Steps s h.v.replay_id r (expiry h)) x m s.world,
      refl,
      refl,
    )

    not_applied_run :
        (e : Value) (hook : Option Bool)
        → h.call.env.submit_and_wait h.plan.blob ≡ threw e
        → submit_definitely_not_applied e ≡ true
        → Run s (not_applied st h.v hook s.world).1
    unfolding not_applied ◌>>=◌ call
    not_applied_run e hook submitted definite =
        let r = st.release (key h) s.world.store in
        let s1 = moves i free (stored r.1 s) in
        let after = (after_release st h.v hook r.0 s1.world).1 in
        (
          with_world s1 after,
          OnTime-trans (one (releases s i h e at_sent submitted definite) in_time)
              (after_release-Along (Steps s1) (Steps-trans s1) (quiet s1) st h.v hook r.0 s1.world),
          refl,
          refl,
        )

    definite_world :
        (e : Value)
        → submit_definitely_not_applied e ≡ true
        → submitted_as st h.call.env h.call.req h.v h.plan source (threw e) s.world
          ≡ not_applied st h.v (guardrail_hook_present h.plan.node h.plan.tx.account) s.world
    unfolding submitted_as
    definite_world e d = rw d refl

    submitted_run :
        (x : Submitted) → h.call.env.submit_and_wait h.plan.blob ≡ x → Run s (following x)
    submitted_run (resolved raw) e = maybe_run (resolved raw) refl
    submitted_run (threw err) e = elim (Bool-cases (submit_definitely_not_applied err)) [
      | inl d ↦
          subst (Run s) (ap (λ r. r.1) (sym (definite_world err d))) (not_applied_run err _ e d)
      | inr d ↦ maybe_run (threw err) (rw d refl)
    ]

  -- A call that submits, from where it reserves its key.
  module _ (s : Shared S) (i : ℕ) (c : Call) (v : Verified) (before : World S)
      (accepted : verify_exact c.env.libs c.env.network c.payload c.req ≡ ok v)
      (past : c.env.now ≤ s.clock) (at_free : s.phase i ≡ free) where
    submission_run :
        (plan : Plan) (source : Option Source) (w1 : World S)
        → admit c.env c.payload ≡ ok plan
        → s.clock < expiry_of c.env plan
        → claim st c.env v (expiry_of c.env plan) before ≡ (go tt, w1)
        → Run (with_world s before) (finish st c.env c.req v plan source w1).1
    unfolding finish ◌>>◌ send
    submission_run plan source w1 admitted in_time claimed =
        let h : Holder = record { call = c; v = v; plan = plan } in
        let (reserve, same) = claim-reserved st c.env v (expiry_of c.env plan) before w1 claimed in
        let s1 = moves i (holding h) (stored w1.store (with_world s before)) in
        let s2 = moves i (sent h) (submitting plan.blob s1) in
        let (t, run, world, clock) =
          submitted_run s2 i h source (moved_here i (sent h) s1.phase) past in_time
            (c.env.submit_and_wait plan.blob) refl in
        (
          t,
          OnTime-trans
              (then_next
                (one
                  (claims (with_world s before) i h w1.store at_free accepted admitted past reserve)
                  tt)
                (submits s1 i h (moved_here i (holding h) s.phase)) tt)
              run,
          world
              ∙ ap
                  (λ x.
                    (submitted_as st c.env c.req v plan source (c.env.submit_and_wait plan.blob)
                      (record x { submitted = plan.blob ∷ x.submitted })).1)
                  (sym same),
          clock,
        )

  module _ (s : Shared S) (i : ℕ) (c : Call) (ordered : InOrder c.env)
      (past : c.env.reread_at ≤ s.clock) (at_free : s.phase i ≡ free)
      (in_time : (plan : Plan)
        → admit c.env c.payload ≡ ok plan
        → s.clock < expiry_of c.env plan) where
    attempt_run :
        (v : Verified) (w : World S)
        → verify_exact c.env.libs c.env.network c.payload c.req ≡ ok v
        → Run (with_world s w) (attempt st c.env c.payload c.req v w).1
    attempt_run v w accepted =
        elim (attempt-Ending st (Steps s) (Steps-trans s) (quiet s) c.env c.payload c.req v
          (looks-Steps s v.replay_id c.env.read_at (omega (arith, ordered, past)))
          (reads-Steps s v.replay_id c.env.read_at (omega (arith, ordered, past)))
          (reads-Steps s v.replay_id c.env.reread_at past)
          (λ e. tries-Steps s v.replay_id e c.env.now (omega (arith, ordered, past))) w) [
            | inl p ↦ (with_world s (attempt st c.env c.payload c.req v w).1, p, refl, refl)
            | inr b ↦
                let (t, run, world, clock) =
                  submission_run s i c v b.before accepted (omega (arith, ordered, past)) at_free
                    b.plan b.source b.w1 b.admitted (in_time b.plan b.admitted) b.claimed in
                (t, OnTime-trans b.arrived run, world ∙ sym b.result, clock)
          ]

    -- A call of settle, from its first step to its last, is a run of the steps of Race from the same world
    -- to the same world, and it releases its key in time, if its clock does not run backwards and the run
    -- comes to its end before the reservation runs out.
    pub settle_run : Run s (settle st c.env c.payload c.req s.world).1
    settle_run = elim (settle-Attempt st c.env c.payload c.req s.world) [
      | inl (untouched, unsent) ↦ (
        with_world s (settle st c.env c.payload c.req s.world).1,
        quiet s s.world _ untouched unsent,
        refl,
        refl,
      )
      | inr a ↦
          let (t, run, world, clock) = attempt_run a.v a.w1 a.accepted in
          (
            t,
            OnTime-trans (quiet s s.world a.w1 a.untouched a.unsent) run,
            world ∙ sym a.result,
            clock,
          )
    ]
