-- ===== src/Conn/Route.antt =====
-- libp.c: `update_parent`, `rtmetric_compute` and `update_rtmetric`.
use libp.Base.{ℕ, ◌+◌, ◌==◌, ◌&&◌, not, if◌then◌else◌, ltb, Option, none, some, u32}
use libp.Contiki.{Contiki}
use libp.Neighbour
use libp.Rime.{Rime}
use libp.Conn.{
  Node, Stats, emit, count, announcement_bump, announcement_set_value, addr_null, rtmetric_sink,
  rtmetric_max, significant_rtmetric_parent_change,
}
use libp.Conn.Send.{send_queued_packet}

module _ ⦃os : Contiki⦄ ⦃rime : Rime⦄ where
  abbrev pub bump_advertisement : Node → Node
  bump_advertisement c = emit announcement_bump c

  abbrev pub found_route : Stats → Stats
  found_route s = record s { foundroute = u32 (s.foundroute + 1) }

  abbrev pub new_parent : Stats → Stats
  new_parent s = record s { newparent = u32 (s.newparent + 1) }

  abbrev pub lost_route : Stats → Stats
  lost_route s = record s { routelost = u32 (s.routelost + 1) }

  -- `current` is the present parent's structure and `b` the best neighbour's.
  abbrev pub switch_parent : Node → Option ℕ → ℕ → Node
  switch_parent c current b =
      let t = c.neighbour_list in
      let moved = record c { parent = (t.mem b).addr } in
      elim current [
        | none ↦ bump_advertisement (count found_route moved)
        | some p ↦
            if ltb (Neighbour.cost (t.mem b) + significant_rtmetric_parent_change)
              (Neighbour.cost (t.mem p))
            then bump_advertisement (count new_parent moved)
            else c
      ]

  abbrev pub no_parent : Node → Node
  no_parent c = record (if c.parent == addr_null then c else count lost_route c) {
    parent = addr_null;
  }

  -- `update_parent`.
  unfoldable pub update_parent : Node → Node
  update_parent c = elim (Neighbour.best c.neighbour_list) [
    | none ↦ no_parent c
    | some b ↦ switch_parent c (Neighbour.find c.neighbour_list c.parent) b
  ]

  -- `rtmetric_compute`.
  unfoldable pub rtmetric_compute : Node → ℕ
  rtmetric_compute c = elim (Neighbour.find c.neighbour_list c.parent) [
    | none ↦ rtmetric_max
    | some n ↦ Neighbour.cost (c.neighbour_list.mem n)
  ]

  -- The new rtmetric, which is never that of a sink.
  abbrev pub sane_rtmetric : Node → ℕ
  sane_rtmetric c = if rtmetric_compute c == rtmetric_sink then rtmetric_max else rtmetric_compute c

  abbrev pub announce : Node → Node
  announce c = if c.is_router == 0 then c else emit (announcement_set_value c.rtmetric) c

  -- A node that had no route and has one sends what is queued.
  abbrev pub resume : (old_rtmetric : ℕ) → Node → Node
  resume old c =
      if (old == rtmetric_max) && not (c.rtmetric == rtmetric_max) then send_queued_packet c else c

  -- `update_rtmetric`.
  unfoldable pub update_rtmetric : Node → Node
  update_rtmetric c =
      if c.rtmetric == rtmetric_sink
      then c
      else let c1 = update_parent c in
        resume c.rtmetric (announce (record c1 { rtmetric = sane_rtmetric c1 }))
