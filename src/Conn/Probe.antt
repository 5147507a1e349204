-- ===== src/Conn/Probe.antt =====
-- libp.c: `enqueue_dummy_packet` and `proactive_probing_callback`.
use libp.Base.{
  ℕ, ◌+◌, ◌*◌, ◌%◌, ◌==◌, Bool, false, not, ◌&&◌, if◌then◌else◌, ltb, Option, none, some, List, [],
  ◌∷◌, u16,
}
use libp.Contiki.{Contiki}
use libp.Metric
use libp.Neighbour
use libp.Neighbour.{Neighbour}
use libp.Rime.{Rime, epacket_id, hops, ttl, max_rexmit, esender}
use libp.Conn.{
  Node, emit, draw, drawn, ctimer_set, proactive_probing, probe, forward_lifetime, header_size,
  rtmetric_sink, rtmetric_max, proactive_probing_rexmits,
}
use libp.Conn.Send.{send_queued_packet}

module _ ⦃os : Contiki⦄ ⦃rime : Rime⦄ where
  open os use {items, clock_second}
  open rime use {Buf, set_attr, set_addr, clear, hdralloc, first, enqueue, node_addr}

  -- The dummy packet. `c->eseqno - 1` is an `int`, which becomes 16 bits wide where it is stored.
  abbrev pub dummy_packet : Buf → (eseqno rexmits : ℕ) → Buf
  dummy_packet b eseqno rexmits =
      let b1 = set_attr (clear b) epacket_id (u16 (eseqno + 65535)) in
      let b2 = set_addr b1 esender node_addr in
      let b3 = set_attr b2 hops 1 in
      let b4 = set_attr b3 ttl 1 in
      let b5 = set_attr b4 max_rexmit rexmits in hdralloc b5 header_size

  -- `enqueue_dummy_packet`: whether the packet was queued.
  unfoldable pub enqueue_dummy_packet : Node → (rexmits : ℕ) → Bool × Node
  enqueue_dummy_packet c rexmits =
      let c1 = record c { packetbuf = dummy_packet c.packetbuf c.eseqno rexmits } in
      let (ok, q) = enqueue c1.calls c1.send_queue c1.packetbuf (forward_lifetime rexmits) in
      elim (Neighbour.find c1.neighbour_list c1.parent) [
        | none ↦ (false, c1)
        | some n ↦ (ok, record c1 { calls = c1.calls + 1; send_queue = q })
      ]

  -- A neighbour that would be nearer to the sink, with no estimate of its link.
  abbrev pub is_unknown : Neighbour → (rtmetric : ℕ) → Bool
  is_unknown n rtmetric = ltb (n.rtmetric + Metric.unit) rtmetric && (Metric.num_metrics n.lm == 0)

  unfoldable pub unknown_in : (ℕ → Neighbour) → List ℕ → (rtmetric : ℕ) → Option ℕ
  unknown_in m [] rtmetric = none
  unknown_in m (p ∷ ps) rtmetric =
      if is_unknown (m p) rtmetric then some p else unknown_in m ps rtmetric

  -- The parent is replaced for the time of the call.
  abbrev pub probe_neighbour : Node → (addr : ℕ) → Node
  probe_neighbour c addr =
      let (queued, c1) =
        enqueue_dummy_packet (record c { parent = addr }) proactive_probing_rexmits in
      let c2 = if queued then send_queued_packet c1 else c1 in record c2 { parent = c.parent }

  abbrev pub probe_unknown : Node → Node
  probe_unknown c =
      let t = c.neighbour_list in
      elim (unknown_in t.mem (items t.chain) c.rtmetric) [
        | none ↦ c
        | some n ↦ probe_neighbour c (t.mem n).addr
      ]

  -- `proactive_probing_callback`.
  unfoldable pub proactive_probing_callback : Node → Node
  proactive_probing_callback c =
      let c1 = emit (ctimer_set proactive_probing (draw c % clock_second * 60) probe) (drawn c) in
      if not (c1.rtmetric == rtmetric_sink) && not (c1.rtmetric == rtmetric_max)
      then (elim (first c1.send_queue) [ none ↦ probe_unknown c1 | some i ↦ c1 ])
      else c1
