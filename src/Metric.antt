-- ===== src/Metric.antt =====
-- libp-link-metric.h and libp-link-metric.c: the estimate of a link's quality. The functions take
-- the structure that the source's pointer names; its callers pass the address of a field, never
-- NULL. An estimate is held in units of an eighth of a transmission.
pub mod Bounds
pub mod Average
pub mod Exact
mod Tests
use libp.Base.{ℕ, ◌+◌, ◌-◌, ◌*◌, ◌/◌, ◌==◌, Bool, if◌then◌else◌, ltb, u8, u16, u32}

-- LIBP_LINK_METRIC_UNIT, INITIAL_LINK_METRIC, LIBP_LINK_METRIC_ALPHA, MAX_ESTIMATES.
abbrev pub unit : ℕ
unit = 8

abbrev pub initial_link_metric : ℕ
initial_link_metric = 16

abbrev pub alpha : ℕ
alpha = (3 * unit) / 8

abbrev pub max_estimates : ℕ
max_estimates = 255

-- `struct libp_link_metric`.
pub record LinkMetric : Type 0 where
  pub children_accumulator : ℕ
  pub num_children : ℕ
  pub etx_accumulator : ℕ
  pub num_estimates : ℕ

-- `libp_link_metric_new`.
pub new : LinkMetric → LinkMetric
new lm = record lm { num_children = 0; children_accumulator = unit }

-- The first sample also starts the average.
abbrev started : LinkMetric → ℕ → ℕ
started lm tx = if lm.num_estimates == 0 then u32 (tx * unit) else lm.etx_accumulator

abbrev averaged : ℕ → ℕ → ℕ
averaged etx tx = u32 (u32 (tx * unit) * alpha + etx * (unit - alpha)) / unit

-- `libp_link_metric_update_tx`: `tx` is a `uint8_t`.
pub update_tx : LinkMetric → ℕ → LinkMetric
update_tx lm tx = if tx == 0 then lm else record lm {
  etx_accumulator = averaged (started lm tx) tx;
  num_estimates =
      if ltb lm.num_estimates max_estimates then u8 (lm.num_estimates + 1) else lm.num_estimates;
}

-- `libp_link_metric_update_tx_fail`: the doubled count becomes a `uint8_t` at the call.
pub update_tx_fail : LinkMetric → ℕ → LinkMetric
unfolding update_tx
update_tx_fail lm tx = update_tx lm (u8 (tx * 2))

-- `libp_link_metric_update_rx` has an empty body.
pub update_rx : LinkMetric → LinkMetric
update_rx lm = lm

-- `libp_link_metric`: the result is a `uint16_t`.
unfoldable pub metric : LinkMetric → ℕ
metric lm =
    if lm.num_estimates == 0 then u16 (initial_link_metric * unit) else u16 lm.etx_accumulator

-- `libp_link_metric_num_metrics`.
unfoldable pub num_metrics : LinkMetric → ℕ
num_metrics lm = lm.num_estimates
