-- ===== src/Boot/Connect.antt =====
-- getClient and withTimeout of x402-xahau/server.mjs: a bounded number of bounded attempts. The time of
-- a call of disconnect, which is awaited, is not counted.
use xahc.Prelude.{
  ℕ, zero, suc, ◌+◌, ◌-◌, ◌*◌, ◌≤◌, ◌≡◌, Bool, true, false, Option, none, some, List, [], ◌∷◌,
  if◌then◌else◌, ltb, arith, Bool-cases, inl, inr,
}

-- A promise: it is kept or broken after some time, or never settles.
pub data Promise : Type 0 where
  kept_after broken_after : ℕ → Promise
  never : Promise

-- Promise.race with a timer: whether the promise is kept in time, and when the race ends.
unfoldable pub with_timeout : Promise → ℕ → Bool × ℕ
with_timeout never ms = (false, ms)
with_timeout (kept_after t) ms = if ltb t ms then (true, t) else (false, ms)
with_timeout (broken_after t) ms = if ltb t ms then (false, t) else (false, ms)

-- CONNECT_TIMEOUT_MS, CONNECT_ATTEMPTS and CONNECT_BACKOFF_MS
pub record Limits : Type 0 where
  pub timeout_ms : ℕ
  pub attempts : ℕ
  pub backoff_ms : ℕ

-- The clients that getClient builds are known by their attempts; `pooled` is the one from before.
pub data Client : Type 0 where
  pooled : Client
  built : ℕ → Client

pub data Failure : Type 0 where
  wss_not_set not_installed : Failure
  connect_failed : Failure

pub data Connected : Type 0 where
  client : Client → Connected
  failure : Failure → Connected

-- What a call comes to: the client or the error, the client that is pooled then, the clients that it
-- called connect and disconnect of, and the time it waited.
pub record Outcome : Type 0 where
  pub result : Connected
  pub pool : Option Client
  pub connects : ℕ
  pub disconnects : List Client
  pub elapsed : ℕ

abbrev ended : Connected → Option Client → Outcome
ended result pool = record {
  result = result;
  pool = pool;
  connects = 0;
  disconnects = [];
  elapsed = 0;
}

-- An attempt that failed, before the rest.
after_failure : Limits → ℕ → ℕ → Outcome → Outcome
after_failure l attempt t rest = record rest {
  connects = suc rest.connects;
  disconnects = built attempt ∷ rest.disconnects;
  elapsed = t + (if ltb attempt l.attempts then l.backoff_ms else 0) + rest.elapsed;
}

tried : Limits → ℕ → Bool × ℕ → Outcome → Outcome
unfolding after_failure
tried l attempt (false, t) rest = after_failure l attempt t rest
tried l attempt (true, t) rest = record (ended (client (built attempt)) (some (built attempt))) {
  connects = 1;
  elapsed = t;
}

-- The loop from `attempt` on, with `left` attempts left.
unfoldable pub connect_from : Limits → (ℕ → Promise) → ℕ → ℕ → Outcome
unfolding tried
connect_from l connect zero attempt = ended (failure connect_failed) none
connect_from l connect (suc left) attempt =
    let rest = connect_from l connect left (suc attempt) in
    tried l attempt (with_timeout (connect attempt) l.timeout_ms) rest

rebuild : Limits → (ℕ → Promise) → Option Client → Outcome
rebuild l connect none = connect_from l connect l.attempts 1
rebuild l connect (some c) =
    let out = connect_from l connect l.attempts 1 in
    record out { disconnects = c ∷ out.disconnects }

reuse : Limits → (ℕ → Promise) → (Client → Bool) → Option Client → Outcome
unfolding rebuild
reuse l connect is_connected none = rebuild l connect none
reuse l connect is_connected (some c) =
    if is_connected c then ended (client c) (some c) else rebuild l connect (some c)

-- getClient: `connect` is what the promise of each attempt does.
unfoldable pub get_client :
    Limits → Bool → Bool → (Client → Bool) → (ℕ → Promise) → Option Client → Outcome
unfolding reuse
get_client l wss installed is_connected connect pool =
    if wss
    then (if installed
        then reuse l connect is_connected pool
        else ended (failure not_installed) pool)
    else ended (failure wss_not_set) pool

with_timeout_le : (p : Promise) (ms : ℕ) → (with_timeout p ms).1 ≤ ms
unfolding with_timeout
with_timeout_le never ms = omega arith
with_timeout_le (kept_after t) ms = ground arith
with_timeout_le (broken_after t) ms = ground arith

-- The bound on an outcome of `left` attempts, the last one without a pause after it.
abbrev IsWithin : Limits → ℕ → Outcome → Type 0
IsWithin l left out =
    (out.connects ≤ left) × (out.elapsed ≤ left * l.timeout_ms + (left - 1) * l.backoff_ms)

pause_le : (a n b : ℕ) → (if ltb a n then b else 0) ≤ b
pause_le a n b = ground arith

tried-IsWithin :
    (l : Limits) (left attempt : ℕ) (r : Bool × ℕ) (rest : Outcome)
    → attempt + left ≡ l.attempts
    → r.1 ≤ l.timeout_ms
    → IsWithin l left rest
    → IsWithin l (suc left) (tried l attempt r rest)
unfolding tried after_failure
tried-IsWithin l left attempt (true, t) rest e h (n, w) = (omega arith, grind (arith, h))
tried-IsWithin l zero attempt (false, t) rest e h (n, w) =
    (omega (arith, n), ground (arith, e, h, w))
tried-IsWithin l (suc left) attempt (false, t) rest e h (n, w) =
    let pause = pause_le attempt l.attempts l.backoff_ms in
    (omega (arith, n), grind (arith, h, w, pause))

connect_from-IsWithin :
    (l : Limits) (connect : ℕ → Promise) (left attempt : ℕ)
    → attempt + left ≡ suc l.attempts
    → IsWithin l left (connect_from l connect left attempt)
unfolding connect_from
connect_from-IsWithin l connect zero attempt e = (omega arith, omega arith)
connect_from-IsWithin l connect (suc left) attempt e =
    tried-IsWithin l left attempt (with_timeout (connect attempt) l.timeout_ms)
      (connect_from l connect left (suc attempt)) (omega (arith, e))
      (with_timeout_le (connect attempt) l.timeout_ms)
      (connect_from-IsWithin l connect left (suc attempt) (omega (arith, e)))

rebuild-IsWithin :
    (l : Limits) (connect : ℕ → Promise) (pool : Option Client)
    → IsWithin l l.attempts (rebuild l connect pool)
unfolding rebuild
rebuild-IsWithin l connect none = connect_from-IsWithin l connect l.attempts 1 (omega arith)
rebuild-IsWithin l connect (some c) = connect_from-IsWithin l connect l.attempts 1 (omega arith)

reuse-IsWithin :
    (l : Limits) (is_connected : Client → Bool) (connect : ℕ → Promise) (pool : Option Client)
    → IsWithin l l.attempts (reuse l connect is_connected pool)
unfolding reuse
reuse-IsWithin l is_connected connect none = rebuild-IsWithin l connect none
reuse-IsWithin l is_connected connect (some c) = elim (Bool-cases (is_connected c)) [
  | inl e ↦ rw e (omega arith, omega arith)
  | inr e ↦ rw e (rebuild-IsWithin l connect (some c))
]

-- Whatever the node does, even if it never answers, getClient comes to an end: after at most
-- CONNECT_ATTEMPTS connections, each of at most CONNECT_TIMEOUT_MS, and the pauses between them.
pub get_client_bounded :
    (l : Limits) (wss installed : Bool) (is_connected : Client → Bool) (connect : ℕ → Promise)
    (pool : Option Client)
    → ((get_client l wss installed is_connected connect pool).connects ≤ l.attempts)
      × ((get_client l wss installed is_connected connect pool).elapsed
          ≤ l.attempts * l.timeout_ms + (l.attempts - 1) * l.backoff_ms)
unfolding get_client
get_client_bounded l false installed is_connected connect pool = (omega arith, omega arith)
get_client_bounded l true false is_connected connect pool = (omega arith, omega arith)
get_client_bounded l true true is_connected connect pool =
    reuse-IsWithin l is_connected connect pool
