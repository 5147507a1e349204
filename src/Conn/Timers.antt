-- ===== src/Conn/Timers.antt =====
-- libp.c: `timedout`, `node_packet_sent` and the retransmission callbacks.
use libp.Base.{ℕ, ◌+◌, ◌-◌, ◌/◌, ◌%◌, ◌==◌, if◌then◌else◌, ltb, leb, none, some, u8, u16, u32}
use libp.Contiki.{Contiki}
use libp.Neighbour
use libp.Rime.{Rime, packet_id, packet_type, reliable, max_mac_transmissions}
use libp.Conn.{
  Node, emit, count, draw, drawn, ctimer_set, retransmission, retransmit, rexmit_time,
  max_mac_rexmits,
}
use libp.Conn.Send.{send_packet, send_next_packet, header_of}
use libp.Conn.Route.{update_rtmetric}

module _ ⦃os : Contiki⦄ ⦃rime : Rime⦄ where
  open rime use {attr, set_attr, set_header, to_packetbuf, queuebuf, first, type_data}

  -- `timedout`.
  unfoldable pub timedout : Node → Node
  timedout c =
      let n = Neighbour.find c.neighbour_list c.current_parent in
      let c1 = record c {
        sending = 0;
        neighbour_list = Neighbour.tx_fail c.neighbour_list n c.max_rexmits;
      } in
      send_next_packet (update_rtmetric c1)

  abbrev pub count_timedout : Node → Node
  count_timedout c = count (λ s. record s { timedout = u32 (s.timedout + 1) }) c

  -- `node_packet_sent`: the MAC layer reports `transmissions`.
  unfoldable pub node_packet_sent : Node → (transmissions : ℕ) → Node
  node_packet_sent c transmissions =
      let c1 = record c { transmissions = u8 (c.transmissions + transmissions) } in
      let later =
        emit (ctimer_set retransmission (rexmit_time / 2 + draw c1 % (rexmit_time / 2)) retransmit)
          (drawn c1) in
      if attr c.packetbuf packet_type == type_data
      then (if leb c1.max_rexmits c1.transmissions then count_timedout (timedout c1) else later)
      else c

  -- The packet of `retransmit_current_packet`, made ready for another transmission. The difference
  -- is an `int`, which becomes 16 bits wide where it is stored.
  abbrev pub again : rime.Buf → (max_rexmits transmissions seqno rtmetric : ℕ) → rime.Buf
  again b max_rexmits transmissions seqno rtmetric =
      let b1 = set_attr b reliable 1 in
      let b2 = set_attr b1 max_mac_transmissions (
        if ltb (transmissions + max_mac_rexmits) max_rexmits
        then max_mac_rexmits
        else u16 (max_rexmits + 65536 - transmissions)) in
      let b3 = set_attr b2 packet_id seqno in set_header b3 (header_of 0 rtmetric)

  -- A parent found meanwhile takes over, and the count starts again.
  abbrev pub follow_parent : Node → Node
  follow_parent c =
      if c.current_parent == c.parent
      then c
      else record c { current_parent = c.parent; transmissions = 0 }

  abbrev pub retransmit_loaded : Node → Node
  retransmit_loaded c = elim (Neighbour.find c.neighbour_list c.current_parent) [
    | none ↦ c
    | some n ↦
        send_packet
          (record c {
            sending = 1;
            packetbuf = again c.packetbuf c.max_rexmits c.transmissions c.seqno c.rtmetric;
          })
          (c.neighbour_list.mem n).addr
  ]

  abbrev pub retransmit_item : Node → rime.Item → Node
  retransmit_item c i = elim (queuebuf i) [
    | none ↦ c
    | some q ↦
        let c1 = update_rtmetric c in
        retransmit_loaded (follow_parent (record c1 { packetbuf = to_packetbuf q }))
  ]

  -- `retransmit_current_packet`.
  unfoldable pub retransmit_current_packet : Node → Node
  retransmit_current_packet c = elim (first c.send_queue) [
    | none ↦ c
    | some i ↦ retransmit_item c i
  ]

  -- `retransmit_callback`.
  unfoldable pub retransmit_callback : Node → Node
  retransmit_callback c =
      if leb c.max_rexmits c.transmissions
      then count_timedout (timedout c)
      else retransmit_current_packet (record c { sending = 0 })

  -- `retransmit_not_sent_callback`.
  unfoldable pub retransmit_not_sent_callback : Node → Node
  retransmit_not_sent_callback c =
      retransmit_callback
        (record c { transmissions = u8 (c.transmissions + (max_mac_rexmits + 1)) })
