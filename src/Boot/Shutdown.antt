-- ===== src/Boot/Shutdown.antt =====
-- The graceful shutdown of serve in x402-xahau/server.mjs, and closeBackends: a state, what each
-- callback does to it, and the order in which Node may call them.
pub mod Orderly
use xahc.Prelude.{
  ℕ, zero, suc, ◌+◌, ◌*◌, ◌≤◌, ◌≡◌, refl, Bool, true, false, Option, none, some, if◌then◌else◌,
  arith, Bool-cases, inl, inr, leb, ltb,
}

-- A connection: none, one without the method that closes it, or one whose method returns or throws.
pub data Connection : Type 0 where
  no_connection no_method closes throws : Connection

-- Whether the method is called.
abbrev pub is_called : Connection → Bool
is_called no_connection = false
is_called no_method = false
is_called closes = true
is_called throws = true

pub record Backends : Type 0 where
  pub client : Connection
  pub redis : Connection
  pub disconnects : ℕ
  pub quits : ℕ

abbrev one_if : Bool → ℕ
one_if true = 1
one_if false = 0

-- closeBackends: each connection under its own guard, so that an exception of one is not the other's.
unfoldable pub close_backends : Backends → Backends
close_backends b = record {
  client = no_connection;
  redis = b.redis;
  disconnects = b.disconnects + one_if (is_called b.client);
  quits = b.quits + one_if (is_called b.redis);
}

-- `closed` and `timed_out` are whether the callback of server.close and the timer of the drain have
-- been called; `signals` counts the signals; `exit_code` is there once the process has exited.
pub record Process : Type 0 where
  pub in_flight : ℕ
  pub shutting_down : Bool
  pub signals : ℕ
  pub closed : Bool
  pub timed_out : Bool
  pub backends : Backends
  pub exit_code : Option ℕ

abbrev pub booted : Backends → Process
booted b = record {
  in_flight = 0;
  shutting_down = false;
  signals = 0;
  closed = false;
  timed_out = false;
  backends = b;
  exit_code = none;
}

-- server.on("request") and res.on("finish")
unfoldable pub on_request : Process → Process
on_request p = record p { in_flight = suc p.in_flight }

-- shutdown(signal)
unfoldable pub on_signal : Process → Process
on_signal p =
    if p.shutting_down
    then record p { signals = suc p.signals; exit_code = some 1 }
    else record p { signals = suc p.signals; shutting_down = true }

-- The callback of server.close and that of the timer, up to the end of closeBackends.
unfoldable pub on_closed : Process → Process
on_closed p = record p { closed = true; backends = close_backends p.backends }

unfoldable pub on_timeout : Process → Process
on_timeout p = record p { timed_out = true; backends = close_backends p.backends }

-- process.exit(0), after closeBackends.
unfoldable pub on_backends_closed : Process → Process
on_backends_closed p = record p { exit_code = some 0 }

-- getClient, of a request that is in flight, pools a new client.
unfoldable pub on_connected : Connection → Process → Process
on_connected c p = record p { backends = record p.backends { client = c } }

-- What may happen next. The callback of server.close and the timer come once, after a first signal. A
-- response that is aborted is not finished, so that requests may seem in flight at any time.
pub data Step : Process → Process → Type 0 where
  request : (p : Process) → p.exit_code ≡ none → Step p (on_request p)
  finish :
      (p : Process) (n : ℕ)
      → p.exit_code ≡ none
      → p.in_flight ≡ suc n
      → Step p (record p { in_flight = n })
  connect : (p : Process) (c : Connection) → p.exit_code ≡ none → Step p (on_connected c p)
  signal : (p : Process) → p.exit_code ≡ none → Step p (on_signal p)
  all_closed :
      (p : Process)
      → p.exit_code ≡ none
      → p.shutting_down ≡ true
      → p.closed ≡ false
      → Step p (on_closed p)
  timeout :
      (p : Process)
      → p.exit_code ≡ none
      → p.shutting_down ≡ true
      → p.timed_out ≡ false
      → Step p (on_timeout p)
  after_closed :
      (p : Process) → p.exit_code ≡ none → p.closed ≡ true → Step p (on_backends_closed p)
  after_timeout :
      (p : Process) → p.exit_code ≡ none → p.timed_out ≡ true → Step p (on_backends_closed p)

pub data Steps (p : Process) : Process → Type 0 where
  here : Steps p p
  later : {q r : Process} → Steps p q → Step q r → Steps p r

-- How often closeBackends has run, and how often it closes the connection to Redis.
abbrev pub closings : Process → ℕ
closings p = one_if p.closed + one_if p.timed_out

-- What an exit means: a normal one follows a signal and closeBackends, which has quit Redis if there is
-- a connection to quit; a forced one follows two signals.
abbrev pub IsExit : Process → Option ℕ → Type 0
IsExit p none = Unit {0}
IsExit p (some zero) =
    (1 ≤ p.signals) × (1 ≤ closings p) × (one_if (is_called p.backends.redis) ≤ p.backends.quits)
IsExit p (some (suc code)) = 2 ≤ p.signals

pub record IsOrderly (p : Process) : Type 0 where
  pub begun : p.shutting_down ≡ leb 1 p.signals
  pub drained : closings p ≤ 2 * p.signals
  pub quit : p.backends.quits ≡ closings p * one_if (is_called p.backends.redis)
  pub exit : IsExit p p.exit_code
