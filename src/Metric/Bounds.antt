-- ===== src/Metric/Bounds.antt =====
-- libp-link-metric.c: the ranges that the estimates keep.
use libp.Base.{ℕ, ◌*◌, ◌≤◌, ◌<◌, ◌≡◌, ◌≢◌, arith, u8, ◌==◌, if◌then◌else◌}
use libp.Metric.{LinkMetric, new, update_tx, update_tx_fail, metric}

-- An estimate lies between one transmission and 255, so no sum of the average wraps.
pub record IsValid (lm : LinkMetric) : Type 0 where
  pub counted : lm.num_estimates ≤ 255
  pub bounded : lm.etx_accumulator ≤ 2040
  pub positive : lm.num_estimates ≢ 0 → 8 ≤ lm.etx_accumulator

pub new-IsValid : (lm : LinkMetric) → IsValid lm → IsValid (new lm)
unfolding new
new-IsValid lm v = ground arith

-- `libp_link_metric_update_tx` with a `uint8_t` count keeps an estimate valid: at most 255
-- samples, an average of at most 2040, and one of at least 8 once there is a sample.
pub update_tx-IsValid :
    (lm : LinkMetric) (tx : ℕ) → tx < 256 → IsValid lm → IsValid (update_tx lm tx)
unfolding update_tx
update_tx-IsValid lm tx h v = ground arith

pub update_tx_fail-IsValid :
    (lm : LinkMetric) (tx : ℕ) → IsValid lm → IsValid (update_tx_fail lm tx)
unfolding update_tx_fail
update_tx_fail-IsValid lm tx v = update_tx-IsValid lm (u8 (tx * 2)) (omega arith) v

-- The metric of a valid estimate is 128 before the first sample and the average from then on, and
-- lies between 8 and 2040.
pub metric_bounds :
    (lm : LinkMetric)
    → IsValid lm
    → (metric lm ≡ (if lm.num_estimates == 0 then 128 else lm.etx_accumulator))
      × (8 ≤ metric lm)
      × (metric lm ≤ 2040)
unfolding metric
metric_bounds lm v = ground arith
