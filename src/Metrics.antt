-- ===== src/Metrics.antt =====
-- The counters of x402-xahau/server.mjs: metrics, metricInc and recordSettleReject.
use xahc.Prelude.{ℕ, suc, ◌+◌, ◌≡◌, arith}

-- The causes that settle counts a rejection under.
pub data Bucket : Type 0 where
  verify_failed replay_inflight store_full submit_ambiguous : Bucket
  tem_rejected on_ledger_failure delivered_short other : Bucket

pub record Metrics : Type 0 where
  pub verify_total : ℕ
  pub settle_total : ℕ
  pub settle_success : ℕ
  pub settle_replayed : ℕ
  pub settle_rejected : ℕ
  pub settle_rejected_verify_failed : ℕ
  pub settle_rejected_replay_inflight : ℕ
  pub settle_rejected_store_full : ℕ
  pub settle_rejected_submit_ambiguous : ℕ
  pub settle_rejected_tem_rejected : ℕ
  pub settle_rejected_on_ledger_failure : ℕ
  pub settle_rejected_delivered_short : ℕ
  pub settle_rejected_other : ℕ
  pub rate_limited_total : ℕ
  pub body_too_large_total : ℕ

-- The counters that metricInc is called with.
pub data Counter : Type 0 where
  verify_calls settle_calls successes replays rejections rate_limited body_too_large : Counter
  rejected_by : Bucket → Counter

unfoldable pub metric_inc : Counter → Metrics → Metrics
metric_inc verify_calls m = record m { verify_total = suc m.verify_total }
metric_inc settle_calls m = record m { settle_total = suc m.settle_total }
metric_inc successes m = record m { settle_success = suc m.settle_success }
metric_inc replays m = record m { settle_replayed = suc m.settle_replayed }
metric_inc rejections m = record m { settle_rejected = suc m.settle_rejected }
metric_inc rate_limited m = record m { rate_limited_total = suc m.rate_limited_total }
metric_inc body_too_large m = record m { body_too_large_total = suc m.body_too_large_total }
metric_inc (rejected_by verify_failed) m = record m {
  settle_rejected_verify_failed = suc m.settle_rejected_verify_failed;
}
metric_inc (rejected_by replay_inflight) m = record m {
  settle_rejected_replay_inflight = suc m.settle_rejected_replay_inflight;
}
metric_inc (rejected_by store_full) m = record m {
  settle_rejected_store_full = suc m.settle_rejected_store_full;
}
metric_inc (rejected_by submit_ambiguous) m = record m {
  settle_rejected_submit_ambiguous = suc m.settle_rejected_submit_ambiguous;
}
metric_inc (rejected_by tem_rejected) m = record m {
  settle_rejected_tem_rejected = suc m.settle_rejected_tem_rejected;
}
metric_inc (rejected_by on_ledger_failure) m = record m {
  settle_rejected_on_ledger_failure = suc m.settle_rejected_on_ledger_failure;
}
metric_inc (rejected_by delivered_short) m = record m {
  settle_rejected_delivered_short = suc m.settle_rejected_delivered_short;
}
metric_inc (rejected_by other) m = record m { settle_rejected_other = suc m.settle_rejected_other }

unfoldable pub record_settle_reject : Bucket → Metrics → Metrics
record_settle_reject b m = metric_inc (rejected_by b) (metric_inc rejections m)

-- The sum of the breakdown.
abbrev pub breakdown : Metrics → ℕ
breakdown m =
    m.settle_rejected_verify_failed + m.settle_rejected_replay_inflight
    + m.settle_rejected_store_full + m.settle_rejected_submit_ambiguous
    + m.settle_rejected_tem_rejected + m.settle_rejected_on_ledger_failure
    + m.settle_rejected_delivered_short + m.settle_rejected_other

-- If the breakdown sums to the total of rejections, it does so after another recorded rejection.
pub record_settle_reject-breakdown :
    (b : Bucket) (m : Metrics)
    → m.settle_rejected ≡ breakdown m
    → (record_settle_reject b m).settle_rejected ≡ breakdown (record_settle_reject b m)
unfolding record_settle_reject metric_inc
record_settle_reject-breakdown verify_failed m h = ground arith
record_settle_reject-breakdown replay_inflight m h = ground arith
record_settle_reject-breakdown store_full m h = ground arith
record_settle_reject-breakdown submit_ambiguous m h = ground arith
record_settle_reject-breakdown tem_rejected m h = ground arith
record_settle_reject-breakdown on_ledger_failure m h = ground arith
record_settle_reject-breakdown delivered_short m h = ground arith
record_settle_reject-breakdown other m h = ground arith
