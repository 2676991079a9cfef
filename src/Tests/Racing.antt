-- ===== src/Tests/Racing.antt =====
-- Two calls of settle for one payment, the second long after the first, and one call alone.
use xahc.Prelude.{ℕ, ◌≤◌, ◌<◌, ◌≡◌, ◌⊎◌, refl, subst, arith}
use xahc.Prelude.Text.{codes, text_eq}
use xahc.Digits.{value_of, decimal}
use xahc.Message.{ok}
use xahc.Js.{Value, str, obj, field, end, to_number}
use xahc.Settle.Submit.{threw, submit_definitely_not_applied}
use xahc.Libs.{
  is_valid_r_address, valid_address_text, verify_tx_signature, derive_address_from_pub_key,
}
use xahc.Node.{current_validated_ledger}
use xahc.Amount.Drops.{parse_strict_drops}
use xahc.Verify.{
  tx_blob, read_scheme, read_price, read_terms, check_fields, check_paid, check_signature,
  replay_key_for, amount_text, verify_exact,
}
use xahc.Store.Window.{consumed_expiry_for, max_validity_ledgers}
use xahc.Store.Dict
use xahc.Store.Memory
use xahc.Store.Memory.{Memory}
use xahc.Store.Memory.Refines.{memory_store, memory_view, memory-IsReplayStore, memory-Fades}
use xahc.Settle.Before.{Plan, admit, expiry_of}
use xahc.Settle.Effects.{Receipt}
use xahc.Settle.{settle}
use xahc.Settle.Race.{
  Holder, expiry, free, holding, sent, Shared, stored, submitting, moves, ticks, claims, submits,
  releases, ReleasesInTime, Reach, here, next,
}
use xahc.Settle.Race.Unique.{Reach-single}
use xahc.Settle.Race.Runs.{Run, settle_run}
use xahc.Tests.Samples.{libs, payload, requirements, report, plan, env, world, call}

accepted : verify_exact libs 21337 payload requirements ≡ ok report
unfolding verify_exact tx_blob read_terms read_scheme read_price check_fields check_paid
    check_signature replay_key_for amount_text is_valid_r_address valid_address_text
    verify_tx_signature derive_address_from_pub_key parse_strict_drops text_eq value_of decimal
accepted = refl

admitted : (at : ℕ) → admit (env at) payload ≡ ok plan
unfolding admit text_eq current_validated_ledger to_number max_validity_ledgers
admitted at = refl

abbrev holder : ℕ → Holder
holder at = record { call = call at; v = report; plan = plan }

abbrev start : Shared (Memory Receipt)
start = record { clock = 1000; world = world; phase = λ i. free }

-- The store after the reservation of a call.
abbrev reserved_at : ℕ → Memory Receipt → Memory Receipt
reserved_at at s = (Memory.reserve (codes "acct:rA:7") (expiry (holder at)) at s).1

abbrev claim_at : ℕ → ℕ → Shared (Memory Receipt) → Shared (Memory Receipt)
claim_at i at s = moves i (holding (holder at)) (stored (reserved_at at s.world.store) s)

abbrev sent_at : ℕ → ℕ → Shared (Memory Receipt) → Shared (Memory Receipt)
sent_at i at s = moves i (sent (holder at)) (submitting (codes "B1") (claim_at i at s))

abbrev later : Shared (Memory Receipt) → Shared (Memory Receipt)
later s = record s { clock = 9000000 }

twice : Reach (memory_store Receipt) start (sent_at 1 9000000 (later (sent_at 0 1000 start)))
unfolding Memory.reserve Memory.sweep Memory.put_binding Dict.get Dict.set Dict.keep text_eq
    expiry_of consumed_expiry_for
twice =
    let first = sent_at 0 1000 start in
    next
      (next
        (next
          (next
            (next here (
              claims start 0 (holder 1000) (reserved_at 1000 world.store) refl accepted
                (admitted 1000) (omega arith) refl))
            (submits (claim_at 0 1000 start) 0 (holder 1000) refl))
          (ticks first 9000000 (omega arith)))
        (claims (later first) 1 (holder 9000000) (reserved_at 9000000 first.world.store) refl
          accepted (admitted 9000000) (omega arith) refl))
      (submits (claim_at 1 9000000 (later first)) 1 (holder 9000000) refl)

twice-ReleasesInTime : ReleasesInTime (memory_store Receipt) twice
unfolding twice
twice-ReleasesInTime = (((((tt, tt), tt), tt), tt), tt)

Reach-single_example : (expiry (holder 1000) ≤ 9000000) ⊎ (expiry (holder 9000000) ≤ 9000000)
Reach-single_example =
    Reach-single (memory_view Receipt) (memory-Fades Receipt) (memory_store Receipt)
      (memory-IsReplayStore Receipt) (λ i. refl) twice twice-ReleasesInTime 0 1 (holder 1000)
      (holder 9000000) (λ e. absurd (omega (arith, e))) refl refl refl

-- A release that comes late: the call 0 is told that its payment was not applied after its reservation has
-- run out, and releases the key that the call 1 has reserved by then; the call 2 reserves it again, and
-- both have submitted while their reservations last.
abbrev tem : Value
tem = obj (field "data" (obj (field "engine_result" (str (codes "temMALFORMED")) end)) end)

abbrev failing : Holder
failing = record (holder 1000) {
  call = record (call 1000) { env = record (env 1000) { submit_and_wait = λ blob. threw tem } };
}

abbrev claim_by : ℕ → Holder → Shared (Memory Receipt) → Shared (Memory Receipt)
claim_by i h s = moves i (holding h) (stored (reserved_at h.call.env.now s.world.store) s)

abbrev sent_by : ℕ → Holder → Shared (Memory Receipt) → Shared (Memory Receipt)
sent_by i h s = moves i (sent h) (submitting (codes "B1") (claim_by i h s))

abbrev both : Shared (Memory Receipt)
both = sent_by 1 (holder 9000000) (later (sent_by 0 failing start))

abbrev freed : Shared (Memory Receipt)
freed = moves 0 free (stored (Memory.release (codes "acct:rA:7") both.world.store) both)

late_release : Reach (memory_store Receipt) start (sent_by 2 (holder 9000000) freed)
unfolding Memory.reserve Memory.sweep Memory.put_binding Memory.release Dict.get Dict.set Dict.keep
    Dict.delete text_eq expiry_of consumed_expiry_for submit_definitely_not_applied admit
late_release =
    let first = sent_by 0 failing start in
    let again = later first in
    next
      (next
        (next
          (next
            (next
              (next
                (next
                  (next here (
                    claims start 0 failing (reserved_at 1000 world.store) refl accepted
                      (admitted 1000) (omega arith) refl))
                  (submits (claim_by 0 failing start) 0 failing refl))
                (ticks first 9000000 (omega arith)))
              (claims again 1 (holder 9000000) (reserved_at 9000000 again.world.store) refl accepted
                (admitted 9000000) (omega arith) refl))
            (submits (claim_by 1 (holder 9000000) again) 1 (holder 9000000) refl))
          (releases both 0 failing tem refl refl refl))
        (claims freed 2 (holder 9000000) (reserved_at 9000000 freed.world.store) refl accepted
          (admitted 9000000) (omega arith) refl))
      (submits (claim_by 2 (holder 9000000) freed) 2 (holder 9000000) refl)

in_time : (p : Plan) → admit (env 1000) payload ≡ ok p → 1000 < expiry_of (env 1000) p
unfolding expiry_of consumed_expiry_for
in_time p h =
    let same : plan ≡ p = cc (admitted 1000, h) in
    subst (λ q. 1000 < expiry_of (env 1000) q) same (omega arith)

settle_run_example :
    Run
      (memory_store Receipt)
      start
      (settle (memory_store Receipt) (env 1000) payload requirements world).1
settle_run_example =
    settle_run (memory_store Receipt) start 0 (call 1000) (omega arith, omega arith) (omega arith)
      refl in_time
