-- ===== src/Conn/Inv.antt =====
-- libp.c: what every handler keeps of a node's state.
use libp.Base.{ℕ, ◌+◌, ◌<◌, ◌≡◌, inl, inr, ◌==◌, arith, Bool-cases, Option-cases, u8}
use libp.Contiki.{Contiki}
use libp.Neighbour
use libp.Neighbour.{Table}
use libp.Neighbour.Inv.{IsValid, tx_fail-IsValid}
use libp.Rime.{Rime}
use libp.Conn.{Node}
use libp.Conn.Send.{send_packet, send_queued_packet, send_next_packet, send_ack}
use libp.Conn.Route.{announce, resume, sane_rtmetric, update_parent, update_rtmetric}
use libp.Conn.Timers.{
  retransmit_loaded, follow_parent, retransmit_item, timedout, node_packet_sent,
  retransmit_current_packet, retransmit_callback, retransmit_not_sent_callback,
}
use libp.Conn.Recent.{IsRing}

module _ ⦃os : Contiki⦄ ⦃rime : Rime⦄ where
  -- The neighbour table is valid, the ring of recent packets is whole, the counters are bytes, and
  -- only a node that was made a sink has a sink's rtmetric.
  pub record Good (c : Node) : Type 0 where
    pub table : IsValid c.neighbour_list
    pub ring : IsRing c
    pub seqno : c.seqno < 256
    pub eseqno : c.eseqno < 256
    pub transmissions : c.transmissions < 256
    pub max_rexmits : c.max_rexmits < 256
    pub sink : c.rtmetric ≡ 0 → c.is_sink ≡ 1

  pub send_queued_packet-Good : (c : Node) → Good c → Good (send_queued_packet c)
  unfolding send_queued_packet send_packet
  send_queued_packet-Good c g = ground arith

  pub send_next_packet-Good : (c : Node) → Good c → Good (send_next_packet c)
  unfolding send_next_packet
  send_next_packet-Good c g = send_queued_packet-Good _ (ground arith)

  pub send_ack-Good : (c : Node) (to flags : ℕ) → Good c → Good (send_ack c to flags)
  unfolding send_ack
  send_ack-Good c to flags g = ground arith

  update_parent-Good : (c : Node) → Good c → Good (update_parent c)
  unfolding update_parent
  update_parent-Good c g = ground arith

  announce-Good : (c : Node) → Good c → Good (announce (record c { rtmetric = sane_rtmetric c }))
  announce-Good c g = ground arith

  resume-Good : (old : ℕ) (c : Node) → Good c → Good (resume old c)
  resume-Good old c g = ground (arith, send_queued_packet-Good c g)

  pub update_rtmetric-Good : (c : Node) → Good c → Good (update_rtmetric c)
  unfolding update_rtmetric
  update_rtmetric-Good c g = elim (Bool-cases (c.rtmetric == 0)) [
    | inl e ↦ rw e g
    | inr e ↦
        rw e (resume-Good c.rtmetric _ (announce-Good (update_parent c) (update_parent-Good c g)))
  ]

  -- A change of the neighbour table that keeps it valid.
  pub with_table :
      (c : Node) (t : Table) → Good c → IsValid t → Good (record c { neighbour_list = t })
  with_table c t g v = record {
    table = v;
    ring = record { places = g.ring.places; index = g.ring.index };
    seqno = g.seqno;
    eseqno = g.eseqno;
    transmissions = g.transmissions;
    max_rexmits = g.max_rexmits;
    sink = g.sink;
  }

  timedout-Good : (c : Node) → Good c → Good (timedout c)
  unfolding timedout
  timedout-Good c g =
      let n = Neighbour.find c.neighbour_list c.current_parent in
      send_next_packet-Good _ (
        update_rtmetric-Good _ (
          with_table (record c { sending = 0 }) _ (ground arith)
            (tx_fail-IsValid c.neighbour_list n c.max_rexmits g.table)))

  pub node_packet_sent-Good :
      (c : Node) (transmissions : ℕ) → Good c → Good (node_packet_sent c transmissions)
  unfolding node_packet_sent
  node_packet_sent-Good c k g =
      ground (
        arith,
        timedout-Good (record c { transmissions = u8 (c.transmissions + k) }) (ground arith),
      )

  retransmit_loaded-Good : (c : Node) → Good c → Good (retransmit_loaded c)
  unfolding send_packet
  retransmit_loaded-Good c g = ground arith

  follow_parent-Good :
      (c : Node) (b : rime.Buf) → Good c → Good (follow_parent (record c { packetbuf = b }))
  follow_parent-Good c b g = ground arith

  retransmit_item-Good : (c : Node) (i : rime.Item) → Good c → Good (retransmit_item c i)
  retransmit_item-Good c i g = elim (Option-cases (rime.queuebuf i)) [
    | inl e ↦ rw (e, retransmit_item) g
    | inr (q, e) ↦
        rw (e, retransmit_item)
          (retransmit_loaded-Good _ (
            follow_parent-Good (update_rtmetric c) (rime.to_packetbuf q)
              (update_rtmetric-Good c g)))
  ]

  retransmit_current_packet-Good : (c : Node) → Good c → Good (retransmit_current_packet c)
  unfolding retransmit_current_packet
  retransmit_current_packet-Good c g = elim (Option-cases (rime.first c.send_queue)) [
    | inl e ↦ rw (e, retransmit_current_packet) g
    | inr (i, e) ↦ rw (e, retransmit_current_packet) (retransmit_item-Good c i g)
  ]

  pub retransmit_callback-Good : (c : Node) → Good c → Good (retransmit_callback c)
  unfolding retransmit_callback
  retransmit_callback-Good c g = ground (
    arith,
    timedout-Good c g,
    retransmit_current_packet-Good (record c { sending = 0 }) (ground arith),
  )

  pub retransmit_not_sent_callback-Good :
      (c : Node) → Good c → Good (retransmit_not_sent_callback c)
  unfolding retransmit_not_sent_callback
  retransmit_not_sent_callback-Good c g = retransmit_callback-Good _ (ground arith)
