-- ===== src/Conn/Send.antt =====
-- libp.c: `send_packet`, `send_queued_packet`, `send_next_packet` and `send_ack`.
use libp.Base.{ℕ, ◌+◌, ◌*◌, ◌%◌, ◌^◌, ◌==◌, if◌then◌else◌, ltb, none, some, u8, u32}
use libp.Contiki.{Contiki}
use libp.Neighbour
use libp.Rime.{
  Rime, Header, packet_id, packet_type, reliable, ereliable, max_mac_transmissions, max_rexmit,
  receiver,
}
use libp.Conn.{
  Node, emit, count, unicast_send, ctimer_set, ctimer_stop, retransmission, retransmit_not_sent,
  rexmit_time, max_mac_rexmits, max_ack_mac_rexmits, header_size,
}

module _ ⦃os : Contiki⦄ ⦃rime : Rime⦄ where
  open rime use {
    attr, set_attr, set_addr, clear, set_datalen, set_header, to_packetbuf, queuebuf, first,
    dequeue, type_ack, packet_id_bits,
  }

  abbrev pub header_of : (flags rtmetric : ℕ) → Header
  header_of flags rtmetric = record { flags = flags; dummy = 0; rtmetric = rtmetric }

  -- `send_packet` to the neighbour at address `to`.
  unfoldable pub send_packet : Node → (to : ℕ) → Node
  send_packet c to =
      let timed = emit (ctimer_set retransmission (16 * rexmit_time) retransmit_not_sent) c in
      let stamped = record timed { send_time = c.clock_time } in
      emit (unicast_send stamped.packetbuf to) stamped

  -- The packet of `send_queued_packet`, made ready for the first transmission.
  abbrev pub outgoing : rime.Buf → (max_rexmits seqno rtmetric : ℕ) → rime.Buf
  outgoing b max_rexmits seqno rtmetric =
      let b1 = set_attr b reliable 1 in
      let b2 =
        set_attr b1 max_mac_transmissions
          (if ltb max_mac_rexmits max_rexmits then max_mac_rexmits else max_rexmits) in
      let b3 = set_attr b2 packet_id seqno in set_header b3 (header_of 0 rtmetric)

  abbrev pub transmit_first : Node → ℕ → Node
  transmit_first c to =
      let limit = u8 (attr c.packetbuf max_rexmit) in
      send_packet
        (record c {
          sending = 1;
          current_parent = c.parent;
          transmissions = 0;
          max_rexmits = limit;
          stats = record (c.stats) { datasent = u32 (c.stats.datasent + 1) };
          packetbuf = outgoing c.packetbuf limit c.seqno c.rtmetric;
        })
        to

  -- Once the queued packet is in the packet buffer.
  abbrev pub send_loaded : Node → Node
  send_loaded c = elim (Neighbour.find c.neighbour_list c.parent) [
    | none ↦ c
    | some n ↦ transmit_first c (c.neighbour_list.mem n).addr
  ]

  abbrev pub send_item : Node → rime.Item → Node
  send_item c i = elim (queuebuf i) [
    | none ↦ c
    | some q ↦ send_loaded (record c { packetbuf = to_packetbuf q })
  ]

  -- `send_queued_packet`.
  unfoldable pub send_queued_packet : Node → Node
  send_queued_packet c =
      if c.sending == 0
      then (elim (first c.send_queue) [ none ↦ c | some i ↦ send_item c i ])
      else c

  -- `send_next_packet`.
  unfoldable pub send_next_packet : Node → Node
  send_next_packet c =
      let c1 = record c {
        send_queue = dequeue c.send_queue;
        seqno = u8 ((c.seqno + 1) % 2 ^ packet_id_bits);
      } in
      let c2 = emit (ctimer_stop retransmission) c1 in
      send_queued_packet (record c2 { sending = 0; transmissions = 0 })

  -- The acknowledgement that `send_ack` puts into the packet buffer.
  abbrev pub ack_packet : rime.Buf → (to flags rtmetric : ℕ) → rime.Buf
  ack_packet b to flags rtmetric =
      let b1 = set_datalen (clear b) header_size in
      let b2 = set_header b1 (header_of (u8 flags) rtmetric) in
      let b3 = set_addr b2 receiver to in
      let b4 = set_attr b3 packet_type type_ack in
      let b5 = set_attr b4 reliable 0 in
      let b6 = set_attr b5 ereliable 0 in
      let b7 = set_attr b6 packet_id (attr b packet_id) in
      set_attr b7 max_mac_transmissions max_ack_mac_rexmits

  -- `send_ack`.
  unfoldable pub send_ack : Node → (to flags : ℕ) → Node
  send_ack c to flags =
      let c1 = record c { packetbuf = ack_packet c.packetbuf to flags c.rtmetric } in
      let c2 = emit (unicast_send c1.packetbuf to) c1 in
      count (λ s. record s { acksent = u32 (s.acksent + 1) }) c2
