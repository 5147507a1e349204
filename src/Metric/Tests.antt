-- ===== src/Metric/Tests.antt =====
-- libp-link-metric.c: runs on concrete estimates.
use libp.Base.{[], ◌∷◌, ◌*◌, ◌+◌, ◌≤◌, ◌≡◌, min, max, arith, refl}
use libp.Metric.{LinkMetric, update_tx, update_tx_fail, update_rx, metric, num_metrics}
use libp.Metric.Bounds.{IsValid, update_tx-IsValid}
use libp.Metric.Exact.{average, samples, updates, metric_of, metric-updates}
use libp.Metric.Average.{update_tx_between, repeat_tx, repeat_tx_settles}

abbrev good_link : LinkMetric
good_link = record {
  children_accumulator = 8;
  num_children = 0;
  etx_accumulator = 16;
  num_estimates = 3;
}

good_link-IsValid : IsValid good_link
good_link-IsValid = record {
  counted = omega arith;
  bounded = omega arith;
  positive = λ h. omega arith;
}

update_tx_test : (update_tx good_link 4).etx_accumulator ≡ 22
unfolding update_tx
update_tx_test = refl

update_tx_fail_test : update_tx_fail good_link 128 ≡ good_link
unfolding update_tx_fail update_tx
update_tx_fail_test = refl

num_metrics_test : num_metrics (update_rx (update_tx good_link 4)) ≡ 4
unfolding num_metrics update_rx update_tx
num_metrics_test = refl

update_tx_between_example :
    (min 16 (8 * 4) ≤ (update_tx good_link 4).etx_accumulator)
    × ((update_tx good_link 4).etx_accumulator ≤ max 16 (8 * 4))
update_tx_between_example =
    update_tx_between good_link 4 (omega arith) (omega arith) good_link-IsValid (omega arith)

repeat_tx_settles_example :
    ((repeat_tx 2040 good_link 4).etx_accumulator ≤ 8 * 4)
    × (8 * 4 ≤ (repeat_tx 2040 good_link 4).etx_accumulator + 2)
repeat_tx_settles_example =
    repeat_tx_settles 2040 good_link 4 (omega arith) (omega arith) good_link-IsValid (omega arith)
      (omega arith)

update_tx-IsValid_example : IsValid (update_tx good_link 4)
update_tx-IsValid_example = update_tx-IsValid good_link 4 (omega arith) good_link-IsValid

metric-updates_example :
    metric (updates good_link (4 ∷ 0 ∷ 2 ∷ []))
    ≡ metric_of (samples (average good_link) (4 ∷ 0 ∷ 2 ∷ []))
metric-updates_example =
    metric-updates good_link (4 ∷ 0 ∷ 2 ∷ []) (omega arith, (omega arith, (omega arith, tt)))
      good_link-IsValid
