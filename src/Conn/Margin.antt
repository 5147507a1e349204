-- ===== src/Conn/Margin.antt =====
-- libp.c: the margin of `update_parent`, for a parent that has lost its route.
use libp.Base.{ℕ, ◌+◌, ◌≤◌, ◌<◌, ◌≡◌, ◌≢◌, ◌∙◌, ap, arith, some}
use libp.Contiki.{Contiki}
use libp.Neighbour
use libp.Neighbour.Inv.{cost_bounds}
use libp.Rime.{Rime}
use libp.Conn.{Node}
use libp.Conn.Route.{update_parent, update_rtmetric}
use libp.Conn.Choose.{IsSane, sane_of_some, table_kept}
use libp.Conn.Frame.{update_rtmetric-Updated}

module _ ⦃os : Contiki⦄ ⦃rime : Rime⦄ where
  stays :
      (c : Node) (p b : ℕ)
      → Neighbour.find c.neighbour_list c.parent ≡ some p
      → Neighbour.best c.neighbour_list ≡ some b
      → Neighbour.cost (c.neighbour_list.mem p) ≤ Neighbour.cost (c.neighbour_list.mem b) + 12
      → (update_parent c).parent ≡ c.parent
  unfolding update_parent
  stays c p b f e l = ground arith

  -- At a node that is no sink, with a sane table, a listed parent whose rtmetric is 511 or more,
  -- which is to say no route, stays the parent in `update_rtmetric` when it costs at most 12 more
  -- than the best neighbour, although that one has a route; and the node's rtmetric is then above
  -- 511.
  pub lost_parent_stays :
      (c : Node) (p b : ℕ)
      → IsSane c.neighbour_list
      → c.rtmetric ≢ 0
      → Neighbour.find c.neighbour_list c.parent ≡ some p
      → 511 ≤ (c.neighbour_list.mem p).rtmetric
      → Neighbour.best c.neighbour_list ≡ some b
      → Neighbour.cost (c.neighbour_list.mem p) ≤ Neighbour.cost (c.neighbour_list.mem b) + 12
      → ((update_rtmetric c).parent ≡ c.parent) × (511 < (update_rtmetric c).rtmetric)
  lost_parent_stays c p b s z f lost e l =
      let u = update_rtmetric-Updated c z in
      let same = stays c p b f e l in
      let bounds = cost_bounds (c.neighbour_list.mem p) (s.valid.metrics p) (s.small p) in
      let here : Neighbour.find (update_parent c).neighbour_list (update_parent c).parent ≡ some p =
        rw (table_kept c, same) f in
      let rtmetric =
        sane_of_some (update_parent c) p here (rw (table_kept c) (omega (arith, bounds)))
        ∙ ap (λ t. Neighbour.cost (t.mem p)) (table_kept c) in
      (u.parent ∙ same, omega (arith, u.rtmetric, rtmetric, bounds, lost))
