-- ===== src/Network.antt =====
-- libp.c at many nodes: where the parents lead, when every node knows its parent's rtmetric as it is.
pub mod Message
pub mod Idle
pub mod Relay
pub mod Flight
pub mod Source
pub mod Arrival
pub mod Journey
pub mod Handover
mod Tests
use libp.Base.{
  ℕ, zero, suc, ◌+◌, ◌*◌, ◌≤◌, ◌<◌, ◌≡◌, ◌≢◌, ◌∙◌, ◌⊎◌, inl, inr, sym, ap, refl, subst, Option,
  none, some, arith, ◌==◌, if◌then◌else◌, Bool-cases, ==_iff,
}
use libp.Contiki.{Contiki}
use libp.Neighbour
use libp.Rime.{Rime}
use libp.Conn.{Node}
use libp.Conn.Route.{update_rtmetric}
use libp.Conn.Frame.{Updated, update_rtmetric-Updated}
use libp.Conn.Choose.{IsSane, Route, NearBest, update_rtmetric-Route}

module _ ⦃os : Contiki⦄ ⦃rime : Rime⦄ where
  -- The node at each address.
  abbrev pub Net : Type 0
  Net = ℕ → Node

  -- The node at which the parents lead to a sink, in fewer than `k` hops.
  unfoldable pub follow : ℕ → Net → ℕ → Option ℕ
  follow zero net a = none
  follow (suc k) net a =
      let rest = follow k net (net a).parent in if (net a).rtmetric == 0 then some a else rest

  -- Every node but a sink is as `update_rtmetric` leaves it, and the rtmetric that it holds of its
  -- parent is the parent's.
  pub record IsCurrent (net : Net) : Type 0 where
    pub chosen :
        (a : ℕ)
        → (net a).rtmetric ≢ 0
        → (c : Node) × IsSane c.neighbour_list × (c.rtmetric ≢ 0) × (net a ≡ update_rtmetric c)
    pub heard :
        (a p : ℕ)
        → Neighbour.find (net a).neighbour_list (net a).parent ≡ some p
        → ((net a).neighbour_list.mem p).rtmetric ≡ (net (net a).parent).rtmetric

  update_rtmetric-own :
      (c : Node)
      → IsSane c.neighbour_list
      → c.rtmetric ≢ 0
      → Route (update_rtmetric c).neighbour_list (update_rtmetric c)
  update_rtmetric-own c s h =
      let u = update_rtmetric-Updated c h in
      subst (λ t. Route t (update_rtmetric c)) (sym u.kept.table) (update_rtmetric-Route c s h)

  own-Route :
      (net : Net) (a : ℕ)
      → IsCurrent net
      → (net a).rtmetric ≢ 0
      → Route (net a).neighbour_list (net a)
  own-Route net a cur h =
      let (c, s, hc, e) = cur.chosen a h in
      subst (λ d. Route d.neighbour_list d) (sym e) (update_rtmetric-own c s hc)

  -- A parent is nearer to the sink by 8 or more.
  nearer :
      (net : Net) (a : ℕ)
      → IsCurrent net
      → (net a).rtmetric ≢ 0
      → (net a).rtmetric < 511
      → (net (net a).parent).rtmetric + 8 ≤ (net a).rtmetric
  nearer net a cur h lt = elim (own-Route net a cur h) [
    | inl (z, far, _) ↦ absurd (omega arith)
    | inr (p, near, _, above) ↦ omega (arith, above, cur.heard a p near.0)
  ]

  -- In a network where every node with an rtmetric other than 0 is as `update_rtmetric` leaves a
  -- node with a sane table, and the rtmetric that a node holds of its listed parent is the one
  -- that the parent has, the parents lead from a node whose rtmetric is below 511 and below `8 *
  -- k` to a node with the rtmetric 0 in fewer than `k` hops.
  pub follow_reaches :
      (k : ℕ) (net : Net) (a : ℕ)
      → IsCurrent net
      → (net a).rtmetric < 511
      → (net a).rtmetric < 8 * k
      → (s : ℕ) × (follow k net a ≡ some s) × ((net s).rtmetric ≡ 0)
  unfolding follow
  follow_reaches zero net a cur lt h = absurd (omega arith)
  follow_reaches (suc k) net a cur lt h = elim (Bool-cases ((net a).rtmetric == 0)) [
    | inl z ↦ (a, rw (z, follow), (==_iff (net a).rtmetric 0).0 z)
    | inr z ↦
        let step = nearer net a cur (ground arith) lt in
        let (s, run, end) =
          follow_reaches k net (net a).parent cur (omega (arith, step)) (omega (arith, step)) in
        (s, rw (z, follow) run, end)
  ]
