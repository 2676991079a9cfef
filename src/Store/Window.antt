-- ===== src/Store/Window.antt =====
-- consumedExpiryFor of x402-xahau/server.mjs and the bound on the window of a transaction.
use Prim.Native.Nat.{max}
use native.Mathlib.Nat.{div-mul-le_self, le-div_iff_mul-le, mul-le-mul_right}
use xahc.Prelude.{ℕ, ◌+◌, ◌-◌, ◌*◌, ◌/◌, ◌≤◌, ◌<◌, Option, none, some, arith, ltb, if◌then◌else◌}

-- The settings that the environment gives, with the defaults of the source in `defaults`.
pub record Window : Type 0 where
  pub replay_ttl_ms : ℕ
  pub ledger_close_ms : ℕ
  pub margin_ms : ℕ

abbrev pub defaults : Window
defaults = record {
  replay_ttl_ms = 60 * 60 * 1000;
  ledger_close_ms = 4000;
  margin_ms = 5 * 60 * 1000;
}

-- The largest gap that is accepted, at least 1. A time to live below the margin leaves nothing.
unfoldable pub max_validity_ledgers : Window → ℕ
max_validity_ledgers w = max 1 ((w.replay_ttl_ms - w.margin_ms) / w.ledger_close_ms)

-- The end of a binding: that of the transaction's window with a margin, or the flat time to live
-- where no ledger is known.
unfoldable pub consumed_expiry_for : Window → Option ℕ → Option ℕ → ℕ → ℕ
consumed_expiry_for w (some last) (some current) now =
    if ltb current last
    then now + (last - current) * w.ledger_close_ms + w.margin_ms
    else now + w.replay_ttl_ms
consumed_expiry_for w none current now = now + w.replay_ttl_ms
consumed_expiry_for w (some last) none now = now + w.replay_ttl_ms

-- A binding outlives every ledger of the window that closes in its time, and for a window that
-- settle accepts it ends within the time to live, if that leaves room for one ledger.
pub consumed_expiry_for_window :
    (w : Window) (last current now : ℕ)
    → 0 < w.ledger_close_ms
    → w.ledger_close_ms + w.margin_ms ≤ w.replay_ttl_ms
    → current < last
    → last - current ≤ max_validity_ledgers w
    → (now + (last - current) * w.ledger_close_ms + w.margin_ms
        ≤ consumed_expiry_for w (some last) (some current) now)
      × (consumed_expiry_for w (some last) (some current) now ≤ now + w.replay_ttl_ms)
unfolding consumed_expiry_for max_validity_ledgers
consumed_expiry_for_window w last current now p q lt h =
    let rounds = (w.replay_ttl_ms - w.margin_ms) / w.ledger_close_ms in
    let whole : rounds * w.ledger_close_ms ≤ w.replay_ttl_ms - w.margin_ms =
      div-mul-le_self (w.replay_ttl_ms - w.margin_ms) w.ledger_close_ms in
    let one : 1 ≤ rounds = (le-div_iff_mul-le p).1 (omega arith) in
    let fits : last - current ≤ rounds = omega arith in
    let scaled = mul-le-mul_right w.ledger_close_ms fits in ground (arith, whole, scaled)
