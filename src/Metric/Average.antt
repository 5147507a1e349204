-- ===== src/Metric/Average.antt =====
-- libp-link-metric.c: how the moving average follows the samples.
use libp.Base.{ℕ, zero, suc, ◌+◌, ◌-◌, ◌*◌, ◌≤◌, ◌<◌, ◌≡◌, ◌≢◌, refl, arith, min, max}
use libp.Metric.{LinkMetric, new, update_tx, metric}
use libp.Metric.Bounds.{IsValid, update_tx-IsValid}

-- For a valid estimate that has a sample and a nonzero `uint8_t` count `tx`, the average after
-- `libp_link_metric_update_tx` lies between the old one and the sample `8 * tx`.
pub update_tx_between :
    (lm : LinkMetric) (tx : ℕ)
    → 0 < tx
    → tx < 256
    → IsValid lm
    → lm.num_estimates ≢ 0
    → (min lm.etx_accumulator (8 * tx) ≤ (update_tx lm tx).etx_accumulator)
      × ((update_tx lm tx).etx_accumulator ≤ max lm.etx_accumulator (8 * tx))
unfolding update_tx
update_tx_between lm tx p h v n = ground arith

-- From the same valid estimate, a higher `uint8_t` count of transmissions never gives a lower
-- metric than a lower count that is not 0.
update_tx_mono :
    (lm : LinkMetric) (a b : ℕ)
    → 0 < a
    → a ≤ b
    → b < 256
    → IsValid lm
    → metric (update_tx lm a) ≤ metric (update_tx lm b)
unfolding update_tx metric
update_tx_mono lm a b p h hb v = ground arith

-- `k` samples of the same count.
pub repeat_tx : ℕ → LinkMetric → ℕ → LinkMetric
repeat_tx zero lm tx = lm
repeat_tx (suc k) lm tx = repeat_tx k (update_tx lm tx) tx

-- A sample brings the estimate nearer, until it is at the sample or at most two units below.
update_tx_step :
    (lm : LinkMetric) (tx : ℕ)
    → 0 < tx
    → tx < 256
    → IsValid lm
    → lm.num_estimates ≢ 0
    → ((update_tx lm tx).etx_accumulator ≤ max (lm.etx_accumulator - 1) (8 * tx))
      × (min (lm.etx_accumulator + 1) (8 * tx - 2) ≤ (update_tx lm tx).etx_accumulator)
      × ((update_tx lm tx).num_estimates ≢ 0)
unfolding update_tx
update_tx_step lm tx p h v n = ground arith

repeat_tx_step :
    (k : ℕ) (lm : LinkMetric) (tx : ℕ)
    → 0 < tx
    → tx < 256
    → IsValid lm
    → lm.num_estimates ≢ 0
    → ((repeat_tx k lm tx).etx_accumulator ≤ max (lm.etx_accumulator - k) (8 * tx))
      × (min (lm.etx_accumulator + k) (8 * tx - 2) ≤ (repeat_tx k lm tx).etx_accumulator)
unfolding repeat_tx
repeat_tx_step zero lm tx p h v n = omega arith
repeat_tx_step (suc k) lm tx p h v n =
    let step = update_tx_step lm tx p h v n in
    omega
      (arith, step, repeat_tx_step k (update_tx lm tx) tx p h (update_tx-IsValid lm tx h v) step.2)

-- From a valid estimate that has a sample, 2040 or more samples of the same nonzero `uint8_t`
-- count `tx` bring the average to `8 * tx`, less at most two units.
pub repeat_tx_settles :
    (k : ℕ) (lm : LinkMetric) (tx : ℕ)
    → 0 < tx
    → tx < 256
    → IsValid lm
    → lm.num_estimates ≢ 0
    → 2040 ≤ k
    → ((repeat_tx k lm tx).etx_accumulator ≤ 8 * tx)
      × (8 * tx ≤ (repeat_tx k lm tx).etx_accumulator + 2)
repeat_tx_settles k lm tx p h v n long = omega (arith, repeat_tx_step k lm tx p h v n, v.bounded)

-- `libp_link_metric_new` sets the counts of children, and those alone.
pub new_lem : (lm : LinkMetric) → new lm ≡ record lm { num_children = 0; children_accumulator = 8 }
unfolding new
new_lem lm = refl
