-- ===== src/Boot/Shutdown/Orderly.antt =====
-- Every exit of the server is orderly, whatever happens in whatever order.
use native.Mathlib.Nat.{mul-le-mul_right}
use xahc.Prelude.{
  ℕ, suc, ◌*◌, ◌≤◌, ◌≡◌, refl, Bool, true, false, Option, none, some, arith, Bool-cases, inl, inr,
}
use xahc.Boot.Shutdown.{
  Backends, one_if, close_backends, Process, booted, on_request, on_signal, on_closed, on_timeout,
  on_backends_closed, on_connected, connect, closings, is_called, Step, request, finish, signal,
  all_closed, timeout, after_closed, after_timeout, Steps, here, later, IsExit, IsOrderly,
}

none-IsExit : (p : Process) (o : Option ℕ) → o ≡ none → IsExit p o
none-IsExit p none e = tt
none-IsExit p (some code) e = absurd (cc (e))

one_if_le : (b : Bool) → one_if b ≤ 1
one_if_le true = omega arith
one_if_le false = omega arith

one_if-true : (b : Bool) → b ≡ true → one_if b ≡ 1
one_if-true true e = refl
one_if-true false e = absurd (cc (e))

signalled : (p : Process) → IsOrderly p → p.shutting_down ≡ true → 1 ≤ p.signals
signalled p v h = let begun = v.begun in ground (arith, begun, h)

on_signal-IsOrderly : (p : Process) → IsOrderly p → p.exit_code ≡ none → IsOrderly (on_signal p)
unfolding on_signal
on_signal-IsOrderly p v e = elim (Bool-cases p.shutting_down) [
  | inl h ↦
      let once = signalled p v h in
      let drained = v.drained in
      rw h (record {
        begun = ground arith;
        drained = omega (arith, drained);
        quit = v.quit;
        exit = omega (arith, once);
      })
  | inr h ↦
      let drained = v.drained in
      let q : Process = record p { signals = suc p.signals; shutting_down = true } in
      rw h (record {
        begun = ground arith;
        drained = omega (arith, drained);
        quit = v.quit;
        exit = none-IsExit q p.exit_code e;
      })
]

after-IsOrderly : (p : Process) → IsOrderly p → 1 ≤ closings p → IsOrderly (on_backends_closed p)
unfolding on_backends_closed
after-IsOrderly p v n =
    let drained = v.drained in
    let quits = mul-le-mul_right (one_if (is_called p.backends.redis)) n in
    record {
      begun = v.begun;
      drained = v.drained;
      quit = v.quit;
      exit = (omega (arith, drained, n), n, omega (arith, quits, v.quit));
    }

-- closeBackends, once more.
one_more :
    (p : Process) (n : ℕ)
    → IsOrderly p
    → n ≡ suc (closings p)
    → (close_backends p.backends).quits ≡ n * one_if (is_called p.backends.redis)
unfolding close_backends
one_more p n v e = rw e (grind (arith, v.quit))

step-IsOrderly : {p q : Process} → IsOrderly p → Step p q → IsOrderly q
unfolding on_request on_closed on_timeout on_connected close_backends
step-IsOrderly v (request p e) = record {
  begun = v.begun;
  drained = v.drained;
  quit = v.quit;
  exit = none-IsExit (on_request p) p.exit_code e;
}
step-IsOrderly v (finish p n e h) = record {
  begun = v.begun;
  drained = v.drained;
  quit = v.quit;
  exit = none-IsExit (record p { in_flight = n }) p.exit_code e;
}
step-IsOrderly v (connect p c e) = record {
  begun = v.begun;
  drained = v.drained;
  quit = v.quit;
  exit = none-IsExit (on_connected c p) p.exit_code e;
}
step-IsOrderly v (signal p e) = on_signal-IsOrderly p v e
step-IsOrderly v (all_closed p e h c) =
    let once = signalled p v h in
    let one = one_if_le p.timed_out in
    record {
      begun = v.begun;
      drained = omega (arith, once, one);
      quit = one_more p (closings (on_closed p)) v (rw c (omega arith));
      exit = none-IsExit (on_closed p) p.exit_code e;
    }
step-IsOrderly v (timeout p e h t) =
    let once = signalled p v h in
    let one = one_if_le p.closed in
    record {
      begun = v.begun;
      drained = omega (arith, once, one);
      quit = one_more p (closings (on_timeout p)) v (rw t (omega arith));
      exit = none-IsExit (on_timeout p) p.exit_code e;
    }
step-IsOrderly v (after_closed p e c) =
    let one = one_if-true p.closed c in after-IsOrderly p v (omega (arith, one))
step-IsOrderly v (after_timeout p e t) =
    let one = one_if-true p.timed_out t in after-IsOrderly p v (omega (arith, one))

booted-IsOrderly : (b : Backends) → b.quits ≡ 0 → IsOrderly (booted b)
booted-IsOrderly b e = record {
  begun = refl;
  drained = omega arith;
  quit = omega (arith, e);
  exit = tt;
}

-- Whatever requests, signals, callbacks and timeouts come, in whatever order: if the server has exited
-- normally, a signal has come and closeBackends has run, which has quit Redis if there is a connection to
-- quit; if it was forced to exit, two signals have come.
pub steps-IsOrderly : (b : Backends) {q : Process} → b.quits ≡ 0 → Steps (booted b) q → IsOrderly q
steps-IsOrderly b e here = booted-IsOrderly b e
steps-IsOrderly b e (later ps s) = step-IsOrderly (steps-IsOrderly b e ps) s
