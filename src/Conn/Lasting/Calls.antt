-- ===== src/Conn/Lasting/Calls.antt =====
-- libp.c: a node's life without `libp_set_sink`.
use libp.Base.{
  ℕ, ◌*◌, ◌%◌, ◌≡◌, ◌∙◌, inl, inr, refl, sym, subst, ap, ◌==◌, ◌&&◌, Bool, true, false, arith,
  Bool-cases, none, some, Option-cases, List, [], ◌∷◌,
}
use libp.Contiki.{Contiki, ListLaws, MembLaws}
use libp.Neighbour
use libp.Neighbour.{Table}
use libp.Rime.{Rime, max_rexmit}
use libp.Conn.{
  Node, count, emit, draw, drawn, ctimer_set, proactive_probing, probe, ack_flags_congested,
  ack_flags_rtmetric_needs_update, forward_lifetime, rebroadcast_time,
}
use libp.Conn.Route.{update_rtmetric}
use libp.Conn.Beacon.Timed.{
  timed, beaconed, rebroadcast, set_beacon_period-some, send_beacon-beaconed,
  broadcast_recv-rebroadcast,
}
use libp.Conn.Fault.{Unless, faults, ends, none-some, Unless-then}
use libp.Conn.Probe.{
  enqueue_dummy_packet, unknown_in, probe_neighbour, probe_unknown, proactive_probing_callback,
}
use libp.Conn.Api.{send, originated, next_eseqno, enqueue_own, close}
use libp.Conn.Lasting.{
  As, same, if-As, send_queued_packet-As, update_rtmetric-As, node_packet_sent-As,
  retransmit_callback-As, retransmit_not_sent_callback-As,
}
use libp.Conn.Lasting.Packets.{node_packet_received-As, received_announcement-As}
use mathlib.Core.Option.{some-injective}
use libp.Conn.Api.{purge, neighbour_periodic_callback}
use libp.Conn.Inv.{Good}
use libp.Conn.Run.{
  Event, packet_received, packet_sent, announced, beacon_heard, fires, sends, sets_sink,
  sets_beacon_period, purges, closes, passes, fire, step, run, step-Good, run-step, run-none,
  divides, any_divides,
}
use libp.Conn.{Callback, retransmit, retransmit_not_sent, neighbour_periodic, age_neighbours}
use libp.Conn as Conn

module _ ⦃os : Contiki⦄ ⦃rime : Rime⦄ where
  -- The events that are no call of `libp_set_sink`.
  abbrev pub keeps_role : Event → Bool
  keeps_role (sets_sink k) = false
  keeps_role _ = true

  unfoldable pub keep_role : List Event → Bool
  keep_role [] = true
  keep_role (e ∷ es) = keeps_role e && keep_role es

  module _ (s : Bool) (f : ℕ) where
    pub timed-As : (c : Node) (period : ℕ) → As s f c → As s f (timed c period)
    timed-As c period g = ground arith

    beaconed-As : (c : Node) → As s f c → As s f (beaconed c)
    beaconed-As c g = ground arith

    rebroadcast-As : (c : Node) → As s f c → As s f (rebroadcast c)
    rebroadcast-As c g = ground (arith, timed-As c (rebroadcast_time * os.clock_second) g)

    enqueue_dummy_packet-As :
        (c : Node) (rexmits : ℕ) → As s f c → As s f (enqueue_dummy_packet c rexmits).1
    unfolding enqueue_dummy_packet
    enqueue_dummy_packet-As c rexmits g = ground arith

    parent-As : (c : Node) (a : ℕ) → As s f c → As s f (record c { parent = a })
    parent-As c a g = ground arith

    probe_neighbour-As : (c : Node) (a : ℕ) → As s f c → As s f (probe_neighbour c a)
    probe_neighbour-As c a g =
        let g1 = enqueue_dummy_packet-As (record c { parent = a }) 15 (parent-As c a g) in
        parent-As _ c.parent (if-As s f _ _ _ (send_queued_packet-As s f _ g1) g1)

    probe_unknown-As : (c : Node) → As s f c → As s f (probe_unknown c)
    probe_unknown-As c g =
        elim (Option-cases
          (unknown_in c.neighbour_list.mem (os.items c.neighbour_list.chain) c.rtmetric)) [
            | inl e ↦ rw (e, probe_unknown) g
            | inr (n, e) ↦
                rw (e, probe_unknown) (probe_neighbour-As c (c.neighbour_list.mem n).addr g)
          ]

    abbrev armed : Node → Node
    armed c = emit (ctimer_set proactive_probing (draw c % os.clock_second * 60) probe) (drawn c)

    armed-As : (c : Node) → As s f c → As s f (armed c)
    armed-As c g = ground arith

    probe_if_idle-As :
        (c : Node)
        → As s f c
        → As s f (elim (rime.first c.send_queue) [ none ↦ probe_unknown c | some i ↦ c ])
    probe_if_idle-As c g = ground (arith, probe_unknown-As c g)

    proactive_probing_callback-As : (c : Node) → As s f c → As s f (proactive_probing_callback c)
    unfolding proactive_probing_callback
    proactive_probing_callback-As c g =
        let g1 = armed-As c g in if-As s f _ _ _ (probe_if_idle-As (armed c) g1) g1

    enqueue_own-As : (c : Node) → As s f c → As s f (enqueue_own c).1
    enqueue_own-As c g =
        elim (Bool-cases
          (rime.enqueue c.calls c.send_queue (rime.hdralloc c.packetbuf 4)
            (forward_lifetime (rime.attr (rime.hdralloc c.packetbuf 4) max_rexmit))).0) [
              | inl e ↦ rw (e, enqueue_own) (send_queued_packet-As s f _ (ground arith))
              | inr e ↦ rw (e, enqueue_own) (ground arith)
            ]

    pub send-As : (c : Node) (rexmits : ℕ) → As s f c → As s f (send c rexmits).1
    unfolding send
    send-As c rexmits g =
        let d = record c {
          packetbuf = originated c.packetbuf c.eseqno rexmits;
          eseqno = next_eseqno c.eseqno;
        } in
        let gd = same s f c d refl refl g in
        elim (Bool-cases (c.rtmetric == 0)) [
          | inl e ↦ rw e (ground arith)
          | inr e ↦ rw e (enqueue_own-As d gd)
        ]

    close-As : (c : Node) → As s f c → As s f (close c)
    unfolding close
    close-As c g = ground arith

    abbrev purged : Node → Table → Node
    purged c t = record (update_rtmetric (record c { neighbour_list = t; parent = 0 })) {
      parent = 0;
    }

    purge-As : (c d : Node) → purge c ≡ some d → As s f c → As s f d
    unfolding purge
    purge-As c d e g = elim (Option-cases (Neighbour.purge c.neighbour_list)) [
      | inl n ↦ let never : purge c ≡ none = rw (n, purge) refl in absurd (none-some never e)
      | inr (t, ends_at) ↦
          let is_purged : purge c ≡ some (purged c t) = rw (ends_at, purge) refl in
          subst (As s f) (some-injective (purged c t) d (sym is_purged ∙ e)) (
            parent-As _ 0 (
              update_rtmetric-As s f (record c { neighbour_list = t; parent = 0 })
                (same s f c _ refl refl g)))
    ]

    abbrev aged : Node → Table → Node
    aged c t =
        emit (ctimer_set neighbour_periodic (os.clock_second * 60) age_neighbours)
          (record c { neighbour_list = t })

    periodic-As : (c d : Node) → neighbour_periodic_callback c ≡ some d → As s f c → As s f d
    unfolding neighbour_periodic_callback
    periodic-As c d e g = elim (Option-cases (Neighbour.periodic c.neighbour_list)) [
      | inl n ↦
          let never : neighbour_periodic_callback c ≡ none =
            rw (n, neighbour_periodic_callback) refl in
          absurd (none-some never e)
      | inr (t, ends_at) ↦
          let is_aged : neighbour_periodic_callback c ≡ some (aged c t) =
            rw (ends_at, neighbour_periodic_callback) refl in
          subst (As s f) (some-injective (aged c t) d (sym is_aged ∙ e)) (same s f c _ refl refl g)
    ]

    into : (c d : Node) → As s f c → some c ≡ some d → As s f d
    into c d g e = subst (As s f) (some-injective c d e) g

    fire-As : (c d : Node) (k : Callback) → fire c k ≡ some d → As s f c → As s f d
    fire-As c d retransmit e g = into _ d (retransmit_callback-As s f c g) e
    fire-As c d retransmit_not_sent e g = into _ d (retransmit_not_sent_callback-As s f c g) e
    fire-As c d Conn.send_beacon e g = into _ d (beaconed-As c g) (sym (send_beacon-beaconed c) ∙ e)
    fire-As c d probe e g = into _ d (proactive_probing_callback-As c g) e
    fire-As c d age_neighbours e g = periodic-As c d e g

    pub step-As :
        (c d : Node) (e : Event) → keeps_role e ≡ true → step c e ≡ some d → As s f c → As s f d
    unfolding step
    step-As c d (packet_received b) h e g =
        into _ d
          (node_packet_received-As s f _ (same s f c (record c { packetbuf = b }) refl refl g)) e
    step-As c d (packet_sent b k) h e g =
        into _ d (node_packet_sent-As s f (record c { packetbuf = b }) k (same s f c _ refl refl g))
          e
    step-As c d (announced from value) h e g =
        into _ d (received_announcement-As s f c from value g) e
    step-As c d beacon_heard h e g =
        into _ d (rebroadcast-As c g) (sym (broadcast_recv-rebroadcast c) ∙ e)
    step-As c d (fires k) h e g = fire-As c d k e g
    step-As c d (sends b k) h e g =
        into _ d (send-As (record c { packetbuf = b }) k (same s f c _ refl refl g)) e
    step-As c d (sets_sink k) h e g = cc
    step-As c d (sets_beacon_period k) h e g =
        into _ d (timed-As c k g) (ap some (set_beacon_period-some c d k e))
    step-As c d purges h e g = purge-As c d e g
    step-As c d closes h e g = into _ d (close-As c g) e
    step-As c d (passes time q) h e g = into _ d (same s f c _ refl refl g) e

  -- Both the node's state and its role.
  pub record Lasts (s : Bool) (f : ℕ) (c : Node) : Type 0 where
    pub good : Good c
    pub role : As s f c

module _ ⦃os : Contiki⦄ ⦃rime : Rime⦄ (lists : ListLaws) (memb : MembLaws 8) where
  pub step-Lasts :
      (s : Bool) (f : ℕ) (c : Node) (e : Event)
      → keeps_role e ≡ true
      → Lasts s f c
      → Unless (divides e) (step c e) (Lasts s f)
  step-Lasts s f c e h g = elim (step-Good lists memb c e g.good) [
    | faults d is ↦ faults d is
    | ends d c1 is good ↦
        ends d c1 is (record { good = good; role = step-As s f c c1 e h is g.role })
  ]

  run-Lasts :
      (s : Bool) (f : ℕ) (c : Node) (es : List Event)
      → keep_role es ≡ true
      → Lasts s f c
      → Unless (any_divides es) (run c es) (Lasts s f)
  unfolding run keep_role any_divides
  run-Lasts s f c [] h g = ends refl c refl g
  run-Lasts s f c (e ∷ es) h g =
      Unless-then (step-Lasts s f c e (ground arith) g) (run-none lists memb c e es) (λ c1 is g1.
        subst (λ r. Unless (any_divides es) r (Lasts s f)) (sym (run-step lists memb c c1 e es is))
          (run-Lasts s f c1 es (ground arith) g1))

  -- A node in a good state, on any sequence of events without a call of `libp_set_sink`, faults,
  -- by a division by zero, if its beacon period is set to 1 among them; and if it is not, the
  -- handlers reach their end, a node whose rtmetric is 0 keeps it, no other node's becomes 0, and
  -- `is_sink` stays.
  pub run_keeps_sinks :
      (c : Node) (es : List Event)
      → Good c
      → keep_role es ≡ true
      → Unless
          (any_divides es)
          (run c es)
          (λ d. ((d.rtmetric == 0) ≡ (c.rtmetric == 0)) × (d.is_sink ≡ c.is_sink))
  run_keeps_sinks c es good h =
      elim (run-Lasts (c.rtmetric == 0) c.is_sink c es h
        (record { good = good; role = record { rtmetric = refl; is_sink = refl } })) [
          | faults d is ↦ faults d is
          | ends d c1 is g ↦ ends d c1 is (g.role.rtmetric, g.role.is_sink)
        ]
