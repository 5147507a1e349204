-- ===== src/Conn/Calls.antt =====
-- libp.c: the beacons, the probing and the functions of the interface keep a node's state good.
use libp.Base.{
  ℕ, ◌*◌, ◌%◌, ◌<◌, ◌≡◌, inl, inr, ◌==◌, if◌then◌else◌, arith, none, some, Bool-cases, Option-cases,
}
use libp.Contiki.{Contiki, ListLaws, MembLaws}
use libp.Neighbour
use libp.Neighbour.{Table}
use libp.Neighbour.Inv.{IsValid}
use libp.Neighbour.Periodic.{periodic-IsValid}
use libp.Neighbour.Remove.{purge_lem}
use libp.Rime.{Rime, max_rexmit}
use libp.Conn.{
  Node, emit, draw, drawn, ctimer_set, proactive_probing, neighbour_periodic, age_neighbours, probe,
  forward_lifetime, rebroadcast_time,
}
use libp.Conn.Beacon.Timed.{timed, beaconed, rebroadcast}
use libp.Conn.Probe.{
  enqueue_dummy_packet, probe_neighbour, probe_unknown, unknown_in, proactive_probing_callback,
}
use libp.Conn.Api.{
  originated, send, next_eseqno, enqueue_own, deliver_own, set_sink, become_sink, close, purge,
  neighbour_periodic_callback,
}
use libp.Conn.Inv.{Good, with_table, send_queued_packet-Good, update_rtmetric-Good}
use libp.Conn.Handlers.{if-Good, emit-Good}

module _ ⦃os : Contiki⦄ ⦃rime : Rime⦄ where
  open os use {items}

  pub timed-Good : (c : Node) (period : ℕ) → Good c → Good (timed c period)
  timed-Good c period g = ground arith

  pub beaconed-Good : (c : Node) → Good c → Good (beaconed c)
  beaconed-Good c g = ground arith

  pub rebroadcast-Good : (c : Node) → Good c → Good (rebroadcast c)
  rebroadcast-Good c g = ground (arith, timed-Good c (rebroadcast_time * os.clock_second) g)

  parent-Good : (c : Node) (a : ℕ) → Good c → Good (record c { parent = a })
  parent-Good c a g = ground arith

  enqueue_dummy_packet-Good :
      (c : Node) (rexmits : ℕ) → Good c → Good (enqueue_dummy_packet c rexmits).1
  unfolding enqueue_dummy_packet
  enqueue_dummy_packet-Good c rexmits g = ground arith

  probe_neighbour-Good : (c : Node) (a : ℕ) → Good c → Good (probe_neighbour c a)
  probe_neighbour-Good c a g =
      let g1 = enqueue_dummy_packet-Good (record c { parent = a }) 15 (parent-Good c a g) in
      parent-Good _ c.parent (if-Good _ _ _ (send_queued_packet-Good _ g1) g1)

  probe_unknown-Good : (c : Node) → Good c → Good (probe_unknown c)
  probe_unknown-Good c g =
      elim (Option-cases
        (unknown_in c.neighbour_list.mem (items c.neighbour_list.chain) c.rtmetric)) [
          | inl e ↦ rw (e, probe_unknown) g
          | inr (n, e) ↦
              rw (e, probe_unknown) (probe_neighbour-Good c (c.neighbour_list.mem n).addr g)
        ]

  -- The node once its timer is set again.
  abbrev armed : Node → Node
  armed c = emit (ctimer_set proactive_probing (draw c % os.clock_second * 60) probe) (drawn c)

  armed-Good : (c : Node) → Good c → Good (armed c)
  armed-Good c g = ground arith

  probe_if_idle-Good :
      (c : Node)
      → Good c
      → Good (elim (rime.first c.send_queue) [ none ↦ probe_unknown c | some i ↦ c ])
  probe_if_idle-Good c g = ground (arith, probe_unknown-Good c g)

  pub proactive_probing_callback-Good : (c : Node) → Good c → Good (proactive_probing_callback c)
  unfolding proactive_probing_callback
  proactive_probing_callback-Good c g =
      let g1 = armed-Good c g in if-Good _ _ _ (probe_if_idle-Good (armed c) g1) g1

  next_eseqno-lt : (e : ℕ) → next_eseqno e < 256
  next_eseqno-lt e = ground arith

  originate-Good :
      (c : Node) (b : rime.Buf) (e : ℕ)
      → e < 256
      → Good c
      → Good (record c { packetbuf = b; eseqno = e })
  originate-Good c b e h g = ground arith

  deliver_own-Good : (c : Node) → Good c → Good (deliver_own c)
  deliver_own-Good c g = ground arith

  enqueue_own-Good : (c : Node) → Good c → Good (enqueue_own c).1
  enqueue_own-Good c g =
      elim (Bool-cases
        (rime.enqueue c.calls c.send_queue (rime.hdralloc c.packetbuf 4)
          (forward_lifetime (rime.attr (rime.hdralloc c.packetbuf 4) max_rexmit))).0) [
            | inl e ↦ rw (e, enqueue_own) (send_queued_packet-Good _ (ground arith))
            | inr e ↦ rw (e, enqueue_own) (ground arith)
          ]

  pub send-Good : (c : Node) (rexmits : ℕ) → Good c → Good (send c rexmits).1
  unfolding send
  send-Good c rexmits g =
      let g1 =
        originate-Good c (originated c.packetbuf c.eseqno rexmits) (next_eseqno c.eseqno)
          (next_eseqno-lt c.eseqno) g in
      elim (Bool-cases (c.rtmetric == 0)) [
        | inl e ↦ rw e (deliver_own-Good _ g1)
        | inr e ↦ rw e (enqueue_own-Good _ g1)
      ]

  set_role-Good :
      (c : Node) (should_be_sink : ℕ)
      → Good c
      → Good (if should_be_sink == 0 then record c { rtmetric = 511 } else become_sink c)
  set_role-Good c b g = ground arith

  pub set_sink-Good : (c : Node) (should_be_sink : ℕ) → Good c → Good (set_sink c should_be_sink)
  unfolding set_sink
  set_sink-Good c b g = emit-Good _ _ (update_rtmetric-Good _ (emit-Good _ _ (set_role-Good c b g)))

  pub close-Good : (c : Node) → Good c → Good (close c)
  unfolding close
  close-Good c g = ground arith

module _ ⦃os : Contiki⦄ ⦃rime : Rime⦄ (lists : ListLaws) (memb : MembLaws 8) where
  purged-IsValid :
      (t : Table) → IsValid t → (t' : Table) × (Neighbour.purge t ≡ some t') × IsValid t'
  purged-IsValid t i =
      let (t', run, empty, same, free) = purge_lem lists memb t in
      (
        t',
        run,
        record {
          held = λ p on. ground (arith, empty);
          within = λ p on. ground (arith, empty);
          apart = rw empty tt;
          metrics = rw same i.metrics;
        },
      )

  -- `libp_purge` and the timer of the neighbour table end, and keep the state good.
  pub purge-Good : (c : Node) → Good c → (c' : Node) × (purge c ≡ some c') × Good c'
  unfolding purge
  purge-Good c g =
      let (t', run, v) = purged-IsValid c.neighbour_list g.table in
      (
        _,
        rw (run, purge),
        parent-Good _ 0 (update_rtmetric-Good _ (parent-Good _ 0 (with_table c t' g v))),
      )

  pub neighbour_periodic_callback-Good :
      (c : Node) → Good c → (c' : Node) × (neighbour_periodic_callback c ≡ some c') × Good c'
  unfolding neighbour_periodic_callback
  neighbour_periodic_callback-Good c g =
      let (t', run, v) = periodic-IsValid lists memb c.neighbour_list g.table in
      (
        emit (ctimer_set neighbour_periodic (os.clock_second * 60) age_neighbours)
            (record c { neighbour_list = t' }),
        rw (run, neighbour_periodic_callback),
        emit-Good _ _ (with_table c t' g v),
      )
