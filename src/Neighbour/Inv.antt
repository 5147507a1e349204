-- ===== src/Neighbour/Inv.antt =====
-- libp-neighbour.c: what every operation keeps of the table.
use libp.Base.{
  ◌<◌, ℕ, ◌≡◌, ◌+◌, inl, inr, refl, ◌==◌, true, Option, none, some, has, arith, ◌≤◌, Bool-cases, u8,
}
use libp.Contiki.{Contiki, ListLaws}
use libp.Metric
use libp.Metric.{LinkMetric}
use libp.Metric.Bounds.{metric_bounds, new-IsValid, update_tx-IsValid, update_tx_fail-IsValid}
use libp.Neighbour.{
  Neighbour, Table, write, update, find, cost, init, list_new, update_rtmetric, tx, tx_fail,
  set_congested, at,
}
use libp.Neighbour.Lookup.{Apart, find_in_self, Apart-write_addr}

module _ ⦃os : Contiki⦄ where
  open os use {items, allocated, memb_alloc, memb_free}

  -- The listed structures are allocated structures of the block and stand for different addresses, and the estimates of
  -- all structures, the free ones too, are in range.
  pub record IsValid (t : Table) : Type 0 where
    pub held : (p : ℕ) → has p (items t.chain) ≡ true → allocated t.pool p ≡ true
    pub within : (p : ℕ) → has p (items t.chain) ≡ true → p < 8
    pub apart : Apart t.mem (items t.chain)
    pub metrics : (p : ℕ) → Metric.Bounds.IsValid (t.mem p).lm

  pub write-metrics :
      (m : ℕ → Neighbour) (p : ℕ) (n : Neighbour)
      → Metric.Bounds.IsValid n.lm
      → ((q : ℕ) → Metric.Bounds.IsValid (m q).lm)
      → (q : ℕ) → Metric.Bounds.IsValid (write m p n q).lm
  write-metrics m p n v h q = elim (Bool-cases (p == q)) [ inl e ↦ rw e v | inr e ↦ rw e (h q) ]

  -- A listed structure is the one that its address finds.
  pub find_self :
      (t : Table) (p : ℕ)
      → IsValid t
      → has p (items t.chain) ≡ true
      → find t (t.mem p).addr ≡ some p
  unfolding find
  find_self t p i on = find_in_self t.mem (items t.chain) p i.apart on

  -- A cost with no wrap-around.
  pub cost_bounds :
      (n : Neighbour)
      → Metric.Bounds.IsValid n.lm
      → n.rtmetric ≤ 60000
      → (n.rtmetric + 8 ≤ cost n) × (cost n ≤ n.rtmetric + 2040)
  unfolding cost
  cost_bounds n v h = omega (arith, metric_bounds n.lm v)

  -- A change of one structure that keeps its address.
  pub update-IsValid :
      (t : Table) (p : ℕ) (f : Neighbour → Neighbour)
      → (f (t.mem p)).addr ≡ (t.mem p).addr
      → Metric.Bounds.IsValid (f (t.mem p)).lm
      → IsValid t
      → IsValid (update t p f)
  update-IsValid t p f same v i = record {
    held = i.held;
    within = i.within;
    apart = Apart-write_addr t.mem (items t.chain) p (f (t.mem p)) same i.apart;
    metrics = write-metrics t.mem p (f (t.mem p)) v i.metrics;
  }

  -- The operations on one neighbour, at NULL too.
  at-IsValid :
      (t : Table) (n : Option ℕ) (f : Neighbour → Neighbour)
      → ((x : Neighbour) → (f x).addr ≡ x.addr)
      → ((x : Neighbour) → Metric.Bounds.IsValid x.lm → Metric.Bounds.IsValid (f x).lm)
      → IsValid t
      → IsValid (at t n f)
  at-IsValid t none f same v i = i
  at-IsValid t (some p) f same v i =
      update-IsValid t p f (same (t.mem p)) (v (t.mem p) (i.metrics p)) i

  pub update_rtmetric-IsValid :
      (t : Table) (n : Option ℕ) (rtmetric : ℕ) → IsValid t → IsValid (update_rtmetric t n rtmetric)
  unfolding update_rtmetric
  update_rtmetric-IsValid t n rtmetric = at-IsValid t n _ (λ x. refl) (λ x v. v)

  pub tx-IsValid : (t : Table) (n : Option ℕ) (k : ℕ) → IsValid t → IsValid (tx t n k)
  unfolding tx
  tx-IsValid t n k = at-IsValid t n _ (λ x. refl) (λ x. update_tx-IsValid x.lm (u8 k) (omega arith))

  pub tx_fail-IsValid : (t : Table) (n : Option ℕ) (k : ℕ) → IsValid t → IsValid (tx_fail t n k)
  unfolding tx_fail
  tx_fail-IsValid t n k = at-IsValid t n _ (λ x. refl) (λ x. update_tx_fail-IsValid x.lm (u8 k))

  pub set_congested-IsValid :
      (t : Table) (n : Option ℕ) (now : ℕ) → IsValid t → IsValid (set_congested t n now)
  unfolding set_congested
  set_congested-IsValid t n now = at-IsValid t n _ (λ x. refl) (λ x v. v)

-- The table that `libp_open` makes.
pub opened-IsValid :
    ⦃os : Contiki⦄ (lists : ListLaws) (t : Table)
    → ((p : ℕ) → Metric.Bounds.IsValid (t.mem p).lm)
    → IsValid (init (list_new t))
unfolding init list_new
opened-IsValid ⦃os⦄ lists t v = elim (Bool-cases (t.initialized == 0)) [
  | inl e ↦ rw e (record {
    held = λ p on. ground (arith, lists.items-init);
    within = λ p on. ground (arith, lists.items-init);
    apart = rw (lists.items-init) tt;
    metrics = v;
  })
  | inr e ↦ rw e (record {
    held = λ p on. ground (arith, lists.items-init);
    within = λ p on. ground (arith, lists.items-init);
    apart = rw (lists.items-init) tt;
    metrics = v;
  })
]
