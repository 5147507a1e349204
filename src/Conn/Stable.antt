-- ===== src/Conn/Stable.antt =====
-- libp.c: once chosen, a route stays while the neighbour table does.
use native.Mathlib.Decide.{ℕ_discrete}
use libp.Base.{ℕ, ◌+◌, ◌≤◌, ◌≡◌, ◌≢◌, ◌∙◌, inl, inr, sym, ap, refl, subst, none, some, arith}
use libp.Contiki.{Contiki}
use libp.Neighbour
use libp.Neighbour.{Table}
use libp.Neighbour.Choice.{IsBest, best-IsBest}
use libp.Neighbour.Inv.{IsValid, find_self}
use libp.Rime.{Rime}
use libp.Conn.{Node}
use libp.Conn.Route.{update_parent, rtmetric_compute, sane_rtmetric, update_rtmetric}
use libp.Conn.Choose.{update_parent_cases, table_kept}
use libp.Conn.Frame.{update_rtmetric-Updated, update_rtmetric-sink, update_rtmetric-Settled}

module _ ⦃os : Contiki⦄ ⦃rime : Rime⦄ where
  -- The choice depends on the table and the parent only.
  pub update_parent-same :
      (c d : Node)
      → d.neighbour_list ≡ c.neighbour_list
      → d.parent ≡ c.parent
      → (update_parent d).parent ≡ (update_parent c).parent
  unfolding update_parent
  update_parent-same c d t p = ground arith

  pub sane-same :
      (c d : Node)
      → d.neighbour_list ≡ c.neighbour_list
      → d.parent ≡ c.parent
      → sane_rtmetric d ≡ sane_rtmetric c
  unfolding rtmetric_compute
  sane-same c d t p = ground arith

  stays_none :
      (c : Node)
      → Neighbour.best c.neighbour_list ≡ none
      → c.parent ≡ 0
      → (update_parent c).parent ≡ c.parent
  unfolding update_parent
  stays_none c e p = ground arith

  stays_near :
      (c : Node) (p b : ℕ)
      → Neighbour.best c.neighbour_list ≡ some b
      → Neighbour.find c.neighbour_list c.parent ≡ some p
      → Neighbour.cost (c.neighbour_list.mem p) ≤ Neighbour.cost (c.neighbour_list.mem b) + 12
      → (update_parent c).parent ≡ c.parent
  unfolding update_parent
  stays_near c p b e f near = ground arith

  update_parent-stable :
      (c : Node)
      → IsValid c.neighbour_list
      → (update_parent (update_parent c)).parent ≡ (update_parent c).parent
  update_parent-stable c i = elim (update_parent_cases c) [
    | inl (e, z) ↦ stays_none (update_parent c) (ap Neighbour.best (table_kept c) ∙ e) z
    | inr (b, e, inl at) ↦
        let on = subst (IsBest c.neighbour_list) e (best-IsBest c.neighbour_list) in
        stays_near (update_parent c) b b (ap Neighbour.best (table_kept c) ∙ e)
          (rw (table_kept c, at) (find_self c.neighbour_list b i on.0)) (omega arith)
    | inr (b, e, inr (p, f, same, near)) ↦
        stays_near (update_parent c) p b (ap Neighbour.best (table_kept c) ∙ e)
          (rw (table_kept c, same) f) (rw (table_kept c) near)
  ]

  -- The node has the route that `update_rtmetric` leaves.
  pub record IsSettled (c : Node) : Type 0 where
    pub parent : (update_parent c).parent ≡ c.parent
    pub rtmetric : c.rtmetric ≡ sane_rtmetric c

  update_rtmetric-IsSettled :
      (c : Node) → IsValid c.neighbour_list → c.rtmetric ≢ 0 → IsSettled (update_rtmetric c)
  update_rtmetric-IsSettled c i h =
      let u = update_rtmetric-Updated c h in
      let same = u.kept.table ∙ sym (table_kept c) in
      record {
        parent =
            update_parent-same (update_parent c) (update_rtmetric c) same u.parent
            ∙ update_parent-stable c i
            ∙ sym u.parent;
        rtmetric = u.rtmetric ∙ sym (sane-same (update_parent c) (update_rtmetric c) same u.parent);
      }

  -- With a valid table, a second `update_rtmetric` leaves the parent and the rtmetric that the
  -- first one chose.
  pub update_rtmetric_twice :
      (c : Node)
      → IsValid c.neighbour_list
      → ((update_rtmetric (update_rtmetric c)).parent ≡ (update_rtmetric c).parent)
        × ((update_rtmetric (update_rtmetric c)).rtmetric ≡ (update_rtmetric c).rtmetric)
  update_rtmetric_twice c i = elim (ℕ_discrete c.rtmetric 0) [
    | yes z ↦ rw (update_rtmetric-sink c z, update_rtmetric-sink c z) (refl, refl)
    | no h ↦
        let d = update_rtmetric c in
        let s = update_rtmetric-IsSettled c i h in
        let k = update_rtmetric-Settled c in
        let u = update_rtmetric-Updated d (k.no_sink h) in
        (
          u.parent ∙ s.parent,
          u.rtmetric ∙ sane-same d (update_parent d) (table_kept d) s.parent ∙ sym s.rtmetric,
        )
  ]
