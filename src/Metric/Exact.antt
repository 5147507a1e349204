-- ===== src/Metric/Exact.antt =====
-- libp-link-metric.c: the estimates against the moving average that they stand for, over numbers
-- with no width.
use libp.Base.{
  ℕ, ◌+◌, ◌*◌, ◌/◌, ◌≡◌, ◌<◌, ◌==◌, if◌then◌else◌, arith, List, [], ◌∷◌, Option, none, some, refl,
  ap, ◌∙◌,
}
use libp.Metric.{LinkMetric, update_tx, metric}
use libp.Metric.Bounds.{IsValid, update_tx-IsValid}

-- The average after each sample, in eighths of a transmission: the first sample, and then three
-- eighths of the sample and five of the average, rounded down. A count of 0 is no sample.
unfoldable pub sampled : Option ℕ → ℕ → Option ℕ
sampled e tx =
    if tx == 0 then e else some (elim e [ none ↦ 8 * tx | some x ↦ (3 * (8 * tx) + 5 * x) / 8 ])

unfoldable pub samples : Option ℕ → List ℕ → Option ℕ
unfolding sampled
samples e [] = e
samples e (tx ∷ txs) = samples (sampled e tx) txs

-- The average that an estimate holds.
unfoldable pub average : LinkMetric → Option ℕ
average lm = if lm.num_estimates == 0 then none else some lm.etx_accumulator

unfoldable pub updates : LinkMetric → List ℕ → LinkMetric
updates lm [] = lm
updates lm (tx ∷ txs) = updates (update_tx lm tx) txs

average-update_tx :
    (lm : LinkMetric) (tx : ℕ)
    → tx < 256
    → IsValid lm
    → average (update_tx lm tx) ≡ sampled (average lm) tx
unfolding average update_tx sampled
average-update_tx lm tx h v = ground arith

abbrev pub AreCounts : List ℕ → Type 0
AreCounts [] = Unit {0}
AreCounts (tx ∷ txs) = (tx < 256) × AreCounts txs

average-updates :
    (lm : LinkMetric) (txs : List ℕ)
    → AreCounts txs
    → IsValid lm
    → average (updates lm txs) ≡ samples (average lm) txs
unfolding updates samples
average-updates lm [] h v = refl
average-updates lm (tx ∷ txs) h v =
    average-updates (update_tx lm tx) txs h.1 (update_tx-IsValid lm tx h.0 v)
    ∙ ap (λ e. samples e txs) (average-update_tx lm tx h.0 v)

updates-IsValid :
    (lm : LinkMetric) (txs : List ℕ) → AreCounts txs → IsValid lm → IsValid (updates lm txs)
unfolding updates
updates-IsValid lm [] h v = v
updates-IsValid lm (tx ∷ txs) h v =
    updates-IsValid (update_tx lm tx) txs h.1 (update_tx-IsValid lm tx h.0 v)

abbrev pub metric_of : Option ℕ → ℕ
metric_of none = 128
metric_of (some e) = e

metric-average : (lm : LinkMetric) → IsValid lm → metric lm ≡ metric_of (average lm)
unfolding average metric
metric-average lm v = ground arith

-- From a valid estimate, after any sequence of `uint8_t` counts `libp_link_metric` is what the
-- moving average over numbers with no width gives, in eighths of a transmission: 128 before the
-- first sample, then the first sample, and from then on three eighths of the sample and five
-- eighths of the average, rounded down, where a count of 0 is no sample.
pub metric-updates :
    (lm : LinkMetric) (txs : List ℕ)
    → AreCounts txs
    → IsValid lm
    → metric (updates lm txs) ≡ metric_of (samples (average lm) txs)
metric-updates lm txs h v =
    metric-average (updates lm txs) (updates-IsValid lm txs h v)
    ∙ ap metric_of (average-updates lm txs h v)
