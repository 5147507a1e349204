-- ===== src/Neighbour.antt =====
-- libp-neighbour.h and libp-neighbour.c: the table of radio neighbours. The structures live in one
-- block of eight, `mem`, and keep their contents while they are free; the list links them by their
-- index. A pointer is an index, and `Option ℕ` where the source lets it be NULL.
pub mod Lookup
pub mod Choice
pub mod Inv
pub mod Add
pub mod Store
pub mod Remove
pub mod Periodic
pub mod Overdue
pub mod Count
pub mod View
pub mod Abstract
pub mod Shown
pub mod Refine
pub mod Tests
use libp.Base.{
  ℕ, zero, suc, ◌+◌, ◌*◌, ◌-◌, ◌==◌, Bool, if◌then◌else◌, ltb, Option, none, some, List, [], ◌∷◌,
  u8, u16, tail, is_some,
}
use libp.Contiki.{Contiki}
use libp.Metric
use libp.Metric.{LinkMetric}

-- MAX_LIBP_NEIGHBOURS, LIBP_MAX_DEPTH, MAX_AGE, MAX_LM_AGE.
abbrev pub max_neighbours : ℕ
max_neighbours = 8

abbrev pub max_depth : ℕ
max_depth = Metric.unit * 64 - 1

abbrev pub max_age : ℕ
max_age = 180

abbrev pub max_lm_age : ℕ
max_lm_age = 10

module _ ⦃os : Contiki⦄ where
  open os use {
    Chain, items, list_init, list_add, list_remove, list_pop, list_length, Pool, memb_init,
    memb_alloc, memb_free, Timer, timer_set, timer_expired, clock_second,
  }

  -- `struct libp_neighbour`, less the link that the list library owns.
  pub record Neighbour : Type 0 where
    pub addr : ℕ
    pub rtmetric : ℕ
    pub age : ℕ
    pub lm_age : ℕ
    pub penalty : ℕ
    pub lm : LinkMetric
    pub congested_timer : Timer

  -- The block `libp_neighbours_mem`, the list of `struct libp_neighbour_list`, and the flag of
  -- `libp_neighbour_init`.
  pub record Table : Type 0 where
    pub mem : ℕ → Neighbour
    pub pool : Pool
    pub chain : Chain
    pub initialized : ℕ

  abbrev pub write : (ℕ → Neighbour) → ℕ → Neighbour → ℕ → Neighbour
  write m p n q = if p == q then n else m q

  abbrev pub update : Table → ℕ → (Neighbour → Neighbour) → Table
  update t p f = record t { mem = write t.mem p (f (t.mem p)) }

  -- `libp_neighbour_init`.
  pub init : Table → Table
  init t = if t.initialized == 0 then record t { initialized = 1; pool = memb_init } else t

  -- `libp_neighbour_list_new` sets the list; the timer that it starts is armed by the caller.
  pub list_new : Table → Table
  list_new t = record t { chain = list_init }

  -- `libp_neighbour_list_find`.
  unfoldable pub find_in : (ℕ → Neighbour) → List ℕ → ℕ → Option ℕ
  find_in m [] a = none
  find_in m (p ∷ ps) a = if (m p).addr == a then some p else find_in m ps a

  unfoldable pub find : Table → ℕ → Option ℕ
  unfolding find_in
  find t a = find_in t.mem (items t.chain) a

  -- The search of `libp_neighbour_list_add` for the neighbour with the highest rtmetric.
  pub worst_in : (ℕ → Neighbour) → List ℕ → Option ℕ → ℕ → Option ℕ × ℕ
  worst_in m [] w rt = (w, rt)
  worst_in m (p ∷ ps) w rt =
      worst_in m ps (if ltb rt (m p).rtmetric then some p else w)
        (if ltb rt (m p).rtmetric then (m p).rtmetric else rt)

  -- A structure for a new neighbour: a free one, linked, or else the worst on the list.
  pub recycle : Table → ℕ → Option ℕ
  unfolding worst_in
  recycle t nrtmetric =
      let (worst_neighbour, worst_rtmetric) = worst_in t.mem (items t.chain) none 0 in
      if ltb nrtmetric worst_rtmetric then worst_neighbour else none

  pub allocate : Table → ℕ → Option ℕ × Table
  allocate t nrtmetric =
      let (n, pool') = memb_alloc t.pool in
      elim n [
        | some p ↦ (some p, record t { pool = pool'; chain = list_add t.chain p })
        | none ↦ (recycle t nrtmetric, record t { pool = pool' })
      ]

  pub pick : Table → ℕ → ℕ → Option ℕ × Table
  pick t a nrtmetric = elim (find t a) [ some p ↦ (some p, t) | none ↦ allocate t nrtmetric ]

  abbrev pub restart : ℕ → ℕ → Neighbour → Neighbour
  restart a nrtmetric n = record n {
    age = 0;
    addr = a;
    rtmetric = nrtmetric;
    lm = Metric.new n.lm;
    lm_age = 0;
    penalty = 0;
  }

  -- `libp_neighbour_list_add`: the result tells whether the neighbour is on the list.
  pub add : Table → ℕ → ℕ → Bool × Table
  add t a nrtmetric =
      let (n, t') = pick t a nrtmetric in
      elim n [ some p ↦ (Bool.true, update t' p (restart a nrtmetric)) | none ↦ (Bool.false, t') ]

  -- `libp_neighbour_list_remove`.
  abbrev pub unlink : Table → ℕ → Table
  unlink t p = record t { chain = list_remove t.chain p; pool = memb_free t.pool p }

  pub remove : Table → ℕ → Table
  remove t a = elim (find t a) [ some p ↦ unlink t p | none ↦ t ]

  -- `libp_neighbour_rtmetric_link_metric` of a neighbour, as a `uint16_t`.
  unfoldable pub cost : Neighbour → ℕ
  cost n = u16 (n.rtmetric + Metric.metric n.lm)

  -- `libp_neighbour_list_best`.
  unfoldable pub best_in : (ℕ → Neighbour) → List ℕ → Option ℕ → ℕ → Option ℕ
  best_in m [] best rt = best
  best_in m (p ∷ ps) best rt =
      best_in m ps (if ltb (cost (m p)) rt then some p else best)
        (if ltb (cost (m p)) rt then cost (m p) else rt)

  unfoldable pub best : Table → Option ℕ
  unfolding best_in
  best t = best_in t.mem (items t.chain) none max_depth

  -- `libp_neighbour_list`, `libp_neighbour_rtmetric`.
  pub list : Table → Chain
  list t = t.chain

  pub rtmetric_of : Table → Option ℕ → ℕ
  rtmetric_of t none = 0
  rtmetric_of t (some p) = (t.mem p).rtmetric

  -- `libp_neighbour_list_num`, `libp_neighbour_list_get`.
  pub num : Table → ℕ
  num t = list_length t.chain

  pub get_in : List ℕ → (i k : ℕ) → Option ℕ
  get_in [] i k = none
  get_in (p ∷ ps) i k = if i == k then some p else get_in ps (i + 1) k

  pub get : Table → ℕ → Option ℕ
  unfolding get_in
  get t k = get_in (items t.chain) 0 k

  abbrev freed : Pool → Option ℕ → Pool
  freed m none = m
  freed m (some p) = memb_free m p

  -- `libp_neighbour_list_purge`, with a bound on the rounds; `none` means that it was too low.
  pub purge_loop : ℕ → Table → Option Table
  purge_loop zero t = none
  purge_loop (suc k) t =
      let (popped, c) = list_pop t.chain in
      let rest = purge_loop k (record t { chain = c; pool = freed t.pool popped }) in
      elim (items t.chain) [ [] ↦ some t | _ ↦ rest ]

  pub purge : Table → Option Table
  unfolding purge_loop
  purge t = purge_loop (list_length t.chain + 1) t

  -- The two loops of `periodic`. In the second a removal starts again at the element behind the
  -- new head. `k` bounds the removals; `none` means that it was too low.
  pub older : (ℕ → Neighbour) → List ℕ → ℕ → Neighbour
  older m [] = m
  older m (p ∷ ps) =
      older
        (write m p (record (m p) { age = u16 ((m p).age + 1); lm_age = u16 ((m p).lm_age + 1) })) ps

  abbrev pub renewed : Neighbour → Neighbour
  renewed n = if n.lm_age == max_lm_age then record n { lm = Metric.new n.lm; lm_age = 0 } else n

  pub sweep : ℕ → Table → List ℕ → Option Table
  sweep k t [] = some t
  sweep zero t (p ∷ ps) =
      let rest = sweep zero (update t p renewed) ps in
      if (t.mem p).age == max_age then none else rest
  sweep (suc k) t (p ∷ ps) =
      let rest = sweep (suc k) (update t p renewed) ps in
      let again = sweep k (unlink (update t p renewed) p) (tail (items (list_remove t.chain p))) in
      if (t.mem p).age == max_age then again else rest

  -- `periodic`, less the timer that it sets again, which is the caller's.
  pub periodic : Table → Option Table
  unfolding sweep older
  periodic t =
      let aged = record t { mem = older t.mem (items t.chain) } in
      sweep (list_length t.chain) aged (items t.chain)

  -- The operations on one neighbour do nothing at NULL.
  abbrev pub at : Table → Option ℕ → (Neighbour → Neighbour) → Table
  at t none f = t
  at t (some p) f = update t p f

  -- `libp_neighbour_update_rtmetric`.
  unfoldable pub update_rtmetric : Table → Option ℕ → ℕ → Table
  update_rtmetric t n rtmetric = at t n (λ x. record x { rtmetric = rtmetric; age = 0 })

  -- `libp_neighbour_tx`, `libp_neighbour_rx`, `libp_neighbour_tx_fail`: a count becomes a
  -- `uint8_t` at the call of the link metric.
  pub tx : Table → Option ℕ → ℕ → Table
  tx t n num_tx =
      at t n (λ x. record x { lm = Metric.update_tx x.lm (u8 num_tx); lm_age = 0; age = 0 })

  pub rx : Table → Option ℕ → Table
  rx t n = at t n (λ x. record x { lm = Metric.update_rx x.lm; age = 0 })

  pub tx_fail : Table → Option ℕ → ℕ → Table
  tx_fail t n num_tx =
      at t n (λ x. record x { lm = Metric.update_tx_fail x.lm (u8 num_tx); lm_age = 0; age = 0 })

  -- `libp_neighbour_set_congested`, `libp_neighbour_is_congested`.
  pub set_congested : Table → Option ℕ → (now : ℕ) → Table
  set_congested t n now =
      at t n (λ x. record x { congested_timer = timer_set now (clock_second * 240) })

  pub is_congested : Neighbour → (now : ℕ) → Bool
  is_congested n now = if timer_expired now n.congested_timer then Bool.false else Bool.true

  -- `libp_neighbour_link_metric`, with the CONGESTION_PENALTY.
  pub link_metric : Neighbour → (now : ℕ) → ℕ
  unfolding is_congested
  link_metric n now =
      if is_congested n now then u16 (Metric.metric n.lm + 8 * Metric.unit) else Metric.metric n.lm
