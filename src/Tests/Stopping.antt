-- ===== src/Tests/Stopping.antt =====
-- A server that is told to stop while a request is in flight.
use xahc.Prelude.{◌≡◌, refl, true}
use xahc.Boot.Shutdown.{
  Backends, closes, throws, Process, booted, on_request, on_signal, on_closed, on_backends_closed,
  close_backends, request, finish, signal, all_closed, after_closed, Steps, here, later, IsOrderly,
}
use xahc.Boot.Shutdown.Orderly.{steps-IsOrderly}

abbrev backends : Backends
backends = record { client = throws; redis = closes; disconnects = 0; quits = 0 }

abbrev stopping : Process
stopping = record (booted backends) { signals = 1; shutting_down = true }

abbrev busy : Process
busy = record stopping { in_flight = 1 }

abbrev stopped : Process
stopped = on_backends_closed (on_closed stopping)

drain : Steps (booted backends) stopped
unfolding on_request on_signal on_closed
drain =
    later
      (later
        (later (later (later here (signal (booted backends) refl)) (request stopping refl))
          (finish busy 0 refl refl))
        (all_closed stopping refl refl refl))
      (after_closed (on_closed stopping) refl refl)

steps-IsOrderly_example : IsOrderly stopped
steps-IsOrderly_example = steps-IsOrderly backends refl drain

both_closed : (close_backends backends).disconnects ≡ 1
unfolding close_backends
both_closed = refl
