-- ===== src/Conn/Choose.antt =====
-- libp.c: the parent that `update_parent` leaves and the rtmetric that follows from it.
use libp.Base.{ℕ, ◌+◌, ◌≤◌, ◌<◌, ◌≡◌, ◌≢◌, ◌⊎◌, ◌∙◌, inl, inr, true, arith, none, some, has, subst}
use libp.Contiki.{Contiki}
use libp.Neighbour
use libp.Neighbour.{Neighbour, Table}
use libp.Neighbour.Choice.{IsBest, best-IsBest}
use libp.Neighbour.Inv.{IsValid, find_self, cost_bounds}
use libp.Rime.{Rime}
use libp.Conn.{Node}
use libp.Conn.Route.{update_parent, rtmetric_compute, update_rtmetric, sane_rtmetric}
use libp.Conn.Frame.{Updated, update_rtmetric-Updated, update_parent-Routed}

module _ ⦃os : Contiki⦄ where
  open os use {items}

  -- No neighbour has a cost below RTMETRIC_MAX.
  abbrev pub NoRoute : Table → Type 0
  NoRoute t = (q : ℕ) → has q (items t.chain) ≡ true → 511 ≤ Neighbour.cost (t.mem q)

  -- The address is that of the neighbour `p`, and none is better by more than 12.
  abbrev pub NearBest : Table → (parent p : ℕ) → Type 0
  NearBest t parent p =
      (Neighbour.find t parent ≡ some p)
      × ((q : ℕ)
          → has q (items t.chain) ≡ true
          → Neighbour.cost (t.mem p) ≤ Neighbour.cost (t.mem q) + 12)

module _ ⦃os : Contiki⦄ ⦃rime : Rime⦄ where
  open os use {items}

  pub update_parent_cases :
      (c : Node)
      → let t = c.neighbour_list in
        ((Neighbour.best t ≡ none) × ((update_parent c).parent ≡ 0))
        ⊎ ((b : ℕ) × (Neighbour.best t ≡ some b)
            × (((update_parent c).parent ≡ (t.mem b).addr)
                ⊎ ((p : ℕ) × (Neighbour.find t c.parent ≡ some p)
                    × ((update_parent c).parent ≡ c.parent)
                    × (Neighbour.cost (t.mem p) ≤ Neighbour.cost (t.mem b) + 12))))
  unfolding update_parent
  update_parent_cases c = ground arith

  -- After `update_parent` the node has no parent and no neighbour is worth one, or its parent is a
  -- neighbour that costs at most 12 more than any.
  pub update_parent-NearBest :
      (c : Node)
      → IsValid c.neighbour_list
      → (((update_parent c).parent ≡ 0) × NoRoute c.neighbour_list)
        ⊎ ((p : ℕ) × NearBest c.neighbour_list (update_parent c).parent p)
  update_parent-NearBest c i = elim (update_parent_cases c) [
    | inl (e, z) ↦ inl (z, subst (IsBest c.neighbour_list) e (best-IsBest c.neighbour_list))
    | inr (b, e, inl at) ↦
        let (on, lt, least) = subst (IsBest c.neighbour_list) e (best-IsBest c.neighbour_list) in
        inr (b, (rw at (find_self c.neighbour_list b i on), λ q onq. omega (arith, least q onq)))
    | inr (b, e, inr (p, f, same, near)) ↦
        let (on, lt, least) = subst (IsBest c.neighbour_list) e (best-IsBest c.neighbour_list) in
        inr (p, (rw same f, λ q onq. omega (arith, near, least q onq)))
  ]

  switch_cases :
      (c : Node) (p : ℕ)
      → Neighbour.find c.neighbour_list c.parent ≡ some p
      → (update_parent c).parent ≢ c.parent
      → let t = c.neighbour_list in
        ((Neighbour.best t ≡ none) × ((update_parent c).parent ≡ 0))
        ⊎ ((b : ℕ) × (Neighbour.best t ≡ some b)
            × ((update_parent c).parent ≡ (t.mem b).addr)
            × (Neighbour.cost (t.mem b) + 12 < Neighbour.cost (t.mem p)))
  unfolding update_parent
  switch_cases c p f moved = ground arith

  -- With a valid table, `update_parent` gives up a listed parent only for none, when no listed
  -- neighbour costs less than 511, or for a listed neighbour whose cost is lower by more than 12:
  -- a difference of 12, 1.5 units, is not enough.
  pub update_parent_hysteresis :
      (c : Node) (p : ℕ)
      → IsValid c.neighbour_list
      → Neighbour.find c.neighbour_list c.parent ≡ some p
      → (update_parent c).parent ≢ c.parent
      → (((update_parent c).parent ≡ 0) × NoRoute c.neighbour_list)
        ⊎ ((b : ℕ) × (Neighbour.find c.neighbour_list (update_parent c).parent ≡ some b)
            × (Neighbour.cost (c.neighbour_list.mem b) + 12
                < Neighbour.cost (c.neighbour_list.mem p)))
  update_parent_hysteresis c p i f moved = elim (switch_cases c p f moved) [
    | inl (e, z) ↦ inl (z, subst (IsBest c.neighbour_list) e (best-IsBest c.neighbour_list))
    | inr (b, e, at, lt) ↦
        let (on, low, least) = subst (IsBest c.neighbour_list) e (best-IsBest c.neighbour_list) in
        inr (b, rw at (find_self c.neighbour_list b i on), lt)
  ]

  compute-none :
      (c : Node) → Neighbour.find c.neighbour_list c.parent ≡ none → rtmetric_compute c ≡ 511
  unfolding rtmetric_compute
  compute-none c e = ground arith

  compute-some :
      (c : Node) (p : ℕ)
      → Neighbour.find c.neighbour_list c.parent ≡ some p
      → rtmetric_compute c ≡ Neighbour.cost (c.neighbour_list.mem p)
  unfolding rtmetric_compute
  compute-some c p e = ground arith

  -- The route that a node which is no sink has after `update_rtmetric`.
  abbrev pub Route : Table → Node → Type 0
  Route t c' =
      ((c'.parent ≡ 0) × (c'.rtmetric ≡ 511) × NoRoute t)
      ⊎ ((p : ℕ) × NearBest t c'.parent p
          × (c'.rtmetric ≡ Neighbour.cost (t.mem p))
          × ((t.mem p).rtmetric + 8 ≤ c'.rtmetric))

  -- The neighbours' rtmetrics are those of a network, far below the wrap-around, and none of them
  -- stands for the null address.
  pub record IsSane (t : Table) : Type 0 where
    pub valid : IsValid t
    pub small : (q : ℕ) → (t.mem q).rtmetric ≤ 60000
    pub none_null : Neighbour.find t 0 ≡ none

  pub sane_of_none :
      (c : Node) → Neighbour.find c.neighbour_list c.parent ≡ none → sane_rtmetric c ≡ 511
  sane_of_none c e = rw (compute-none c e)

  pub sane_of_some :
      (c : Node) (p : ℕ)
      → Neighbour.find c.neighbour_list c.parent ≡ some p
      → 8 ≤ Neighbour.cost (c.neighbour_list.mem p)
      → sane_rtmetric c ≡ Neighbour.cost (c.neighbour_list.mem p)
  sane_of_some c p e h = rw (compute-some c p e) (ground arith)

  pub table_kept : (c : Node) → (update_parent c).neighbour_list ≡ c.neighbour_list
  table_kept c = let open_frame = update_parent-Routed c in open_frame.kept.table

  -- `update_rtmetric`, at a node that is no sink and whose table is valid with no neighbour at the
  -- null address and rtmetrics of at most 60000, leaves one of two routes: no parent, the rtmetric
  -- 511 and no listed neighbour that costs less than 511; or a listed parent that costs at most 12
  -- more than any listed neighbour, with the parent's cost as the rtmetric, which exceeds the
  -- parent's own rtmetric by 8 or more.
  pub update_rtmetric-Route :
      (c : Node)
      → IsSane c.neighbour_list
      → c.rtmetric ≢ 0
      → Route c.neighbour_list (update_rtmetric c)
  update_rtmetric-Route c s h = elim (update_parent-NearBest c s.valid) [
    | inl (z, none_worth) ↦
        let lost : Neighbour.find (update_parent c).neighbour_list (update_parent c).parent ≡ none =
          rw (table_kept c, z) s.none_null in
        inl (u.parent ∙ z, u.rtmetric ∙ sane_of_none (update_parent c) lost, none_worth)
    | inr (p, (found, near)) ↦
        let bounds = cost_bounds (c.neighbour_list.mem p) (s.valid.metrics p) (s.small p) in
        let here : Neighbour.find (update_parent c).neighbour_list (update_parent c).parent
            ≡ some p =
          rw (table_kept c) found in
        let same : c'.rtmetric ≡ Neighbour.cost (c.neighbour_list.mem p) =
          u.rtmetric
          ∙ sane_of_some (update_parent c) p here (rw (table_kept c) (omega (arith, bounds)))
          ∙ rw (table_kept c) in
        inr (p, (rw u.parent found, near), same, omega (arith, same, bounds))
  ]
    where
      c' : Node
      c' = update_rtmetric c

      u : Updated c c'
      u = update_rtmetric-Updated c h
