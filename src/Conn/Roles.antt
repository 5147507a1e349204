-- ===== src/Conn/Roles.antt =====
-- libp.c: what `libp_set_sink` makes of a node, and what it forgets.
use libp.Base.{ℕ, ◌*◌, ◌≡◌, ◌≢◌, inl, inr, refl, ◌==◌, arith, ◌∷◌, Bool-cases, ==_iff, some}
use libp.Contiki.{Contiki}
use libp.Rime.{Rime, QueueLaws}
use libp.Conn.{Node, emit, announcement_set_value, announcement_bump, ctimer_stop, retransmission}
use libp.Conn.Api.{set_sink, become_sink}
use libp.Conn.Beacon.{send_beacon, broadcast_recv}
use libp.Conn.Beacon.Timed.{beaconed, send_beacon-beaconed}
use libp.Conn.Frame.{update_rtmetric-Settled, update_rtmetric-sink}
use libp.Conn.Sequence.{len-drain_len}

module _ ⦃os : Contiki⦄ ⦃rime : Rime⦄ (queues : QueueLaws) where
  -- The node before its routing is updated.
  abbrev announced : Node → Node
  announced c = emit (announcement_set_value 0) (become_sink c)

  abbrev demoted : Node → Node
  demoted c = emit (announcement_set_value 511) (record c { rtmetric = 511 })

  -- `libp_set_sink` with a nonzero argument leaves the node with the rtmetric 0, with `is_sink`
  -- set and with an empty queue; it has bumped the advertisement, stopped the retransmission
  -- timer, announced 0 and bumped again, and called nothing else.
  set_sink_on :
      (c : Node) (k : ℕ)
      → k ≢ 0
      → ((set_sink c k).rtmetric ≡ 0)
        × ((set_sink c k).is_sink ≡ 1)
        × (rime.len (set_sink c k).send_queue ≡ 0)
        × ((set_sink c k).effects
            ≡ announcement_bump
              ∷ announcement_set_value 0
              ∷ ctimer_stop retransmission
              ∷ announcement_bump
              ∷ c.effects)
  unfolding set_sink
  set_sink_on c k h = elim (Bool-cases (k == 0)) [
    | inl e ↦ absurd (h ((==_iff k 0).0 e))
    | inr e ↦
        rw (e, update_rtmetric-sink (announced c) refl)
          (
            refl,
            refl,
            len-drain_len queues (rime.len c.send_queue) c.send_queue (omega arith),
            refl,
          )
  ]

  -- A sink that is told to be one no more gives up the rtmetric of a sink, but goes on as a sink
  -- where the code asks `is_sink`.
  set_sink_off :
      (c : Node) → c.is_sink ≡ 1 → ((set_sink c 0).rtmetric ≢ 0) × ((set_sink c 0).is_sink ≡ 1)
  unfolding set_sink
  set_sink_off c h = ground (arith, update_rtmetric-Settled (demoted c))

  -- After `libp_set_sink` with 0 at a sink, a beacon that the node hears changes nothing, and a
  -- beacon that it sends sets the beacon period of a sink.
  pub set_sink_off-beacons :
      (c : Node)
      → c.is_sink ≡ 1
      → (broadcast_recv (set_sink c 0) ≡ some (set_sink c 0))
        × ((d : Node) × (send_beacon (set_sink c 0) ≡ some d)
            × (d.beacon_period ≡ 30 * os.clock_second))
  unfolding broadcast_recv
  set_sink_off-beacons c h =
      let d = set_sink c 0 in
      let off = set_sink_off c h in
      (ground (arith, off), (beaconed d, send_beacon-beaconed d, ground (arith, off)))
