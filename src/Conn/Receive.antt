-- ===== src/Conn/Receive.antt =====
-- libp.c: `add_packet_to_recent_packets`, `node_packet_received` and `received_announcement`.
use Prim.Native.Nat.{bit_or}
use libp.Base.{
  ℕ, ◌+◌, ◌-◌, ◌/◌, ◌%◌, ◌==◌, Bool, false, not, ◌&&◌, ◌||◌, if◌then◌else◌, ltb, leb, Option, none,
  some, List, [], ◌∷◌, set, u8, u32,
}
use libp.Contiki.{Contiki}
use libp.Neighbour
use libp.Rime.{Rime, Header, packet_type, epacket_id, hops, ttl, max_rexmit, sender, esender}
use libp.Conn.{
  Node, RecentPacket, emit, count, on_buf, deliver, max_sending_queue, forward_lifetime,
  min_available_queue_entries, num_recent_packets, header_size, rtmetric_sink, rtmetric_max,
  ack_flags_congested, ack_flags_dropped, ack_flags_lifetime_exceeded,
  ack_flags_rtmetric_needs_update,
}
use libp.Conn.Send.{send_ack, send_queued_packet}
use libp.Conn.Route.{update_rtmetric, bump_advertisement}
use libp.Conn.Ack.{handle_ack, got_ack}

module _ ⦃os : Contiki⦄ ⦃rime : Rime⦄ where
  open rime use {
    attr, set_attr, addr, header, datalen, hdrreduce, to_packetbuf, queuebuf_new, len, enqueue,
    type_data, type_ack,
  }

  -- What is remembered of the packet in the packet buffer.
  abbrev pub recent_packet : rime.Buf → RecentPacket
  recent_packet b = record { originator = addr b esender; eseqno = u8 (attr b epacket_id) }

  -- `add_packet_to_recent_packets`.
  unfoldable pub add_packet_to_recent_packets : Node → Node
  add_packet_to_recent_packets c =
      if ltb header_size (datalen c.packetbuf)
      then record c {
        recent_packets =
            set c.recent_packets c.recent_packet_ptr (some (recent_packet c.packetbuf));
        recent_packet_ptr = (c.recent_packet_ptr + 1) % num_recent_packets;
      }
      else c

  -- The search of `node_packet_received` for a duplicate.
  abbrev pub same_packet : Option RecentPacket → (originator eseqno : ℕ) → Bool
  same_packet none originator eseqno = false
  same_packet (some r) originator eseqno = (r.eseqno == eseqno) && (r.originator == originator)

  unfoldable pub is_recent : List (Option RecentPacket) → (originator eseqno : ℕ) → Bool
  is_recent [] originator eseqno = false
  is_recent (r ∷ rs) originator eseqno =
      same_packet r originator eseqno || is_recent rs originator eseqno

  abbrev pub is_duplicate : Node → Bool
  is_duplicate c =
      is_recent c.recent_packets (addr c.packetbuf esender) (attr c.packetbuf epacket_id)

  -- The packet has arrived at the sink.
  abbrev pub deliver_packet : Node → Node
  deliver_packet c =
      let c1 = on_buf (λ b. hdrreduce b header_size) c in
      let b = c1.packetbuf in
      if ltb 0 (datalen b) && c1.has_recv
      then emit (deliver (addr b esender) (u8 (attr b epacket_id)) (u8 (attr b hops))) c1
      else c1

  abbrev pub ack_at_sink : Node → (ack_to : ℕ) → Node
  ack_at_sink c ack_to =
      let counted = record c { calls = c.calls + 1 } in
      elim (queuebuf_new c.calls c.packetbuf) [
        | none ↦ count (λ s. record s { ackdrop = u32 (s.ackdrop + 1) }) counted
        | some q ↦ on_buf (λ b. to_packetbuf q) (send_ack counted ack_to 0)
      ]

  unfoldable pub receive_at_sink : Node → (ack_to : ℕ) → Node
  receive_at_sink c ack_to = deliver_packet (ack_at_sink (add_packet_to_recent_packets c) ack_to)

  -- The packet goes on towards the sink, if the queue has room.
  abbrev pub one_hop_on : Node → Node
  one_hop_on c =
      let c1 = on_buf (λ b. set_attr b hops (attr b hops + 1)) c in
      on_buf (λ b. set_attr b ttl (attr b ttl - 1)) c1

  abbrev pub drop_packet : Node → (ack_to flags : ℕ) → Node
  drop_packet c ack_to flags =
      count (λ s. record s { qdrop = u32 (s.qdrop + 1) })
        (send_ack c ack_to (bit_or (bit_or flags ack_flags_dropped) ack_flags_congested))

  abbrev pub enqueue_forward : Node → (ack_to flags : ℕ) → Node
  enqueue_forward c ack_to flags =
      let (ok, q) =
        enqueue c.calls c.send_queue c.packetbuf (forward_lifetime (attr c.packetbuf max_rexmit)) in
      let c1 = record c { calls = c.calls + 1; send_queue = q } in
      if ok
      then send_queued_packet (send_ack (add_packet_to_recent_packets c1) ack_to flags)
      else drop_packet c1 ack_to flags

  unfoldable pub forward : Node → Header → (ack_to flags : ℕ) → Node
  forward c hdr ack_to flags =
      let flags' =
        if leb hdr.rtmetric c.rtmetric
        then bit_or flags ack_flags_rtmetric_needs_update
        else flags in
      let c1 = one_hop_on c in
      if leb (len c1.send_queue + min_available_queue_entries) max_sending_queue
      then enqueue_forward c1 ack_to flags'
      else drop_packet c1 ack_to flags'

  abbrev pub expire : Node → (ack_to flags : ℕ) → Node
  expire c ack_to flags =
      count (λ s. record s { ttldrop = u32 (s.ttldrop + 1) })
        (send_ack c ack_to (bit_or (bit_or flags ack_flags_dropped) ack_flags_lifetime_exceeded))

  -- A packet that was not received before.
  unfoldable pub receive_new : Node → Header → (ack_to flags : ℕ) → Node
  receive_new c hdr ack_to flags =
      if c.rtmetric == rtmetric_sink
      then receive_at_sink c ack_to
      else if ltb 1 (attr c.packetbuf ttl) && not (c.rtmetric == rtmetric_max)
      then forward c hdr ack_to flags
      else if leb (attr c.packetbuf ttl) 1
      then expire c ack_to flags
      else c

  -- A queue that is half full makes the acknowledgement say so.
  abbrev pub congestion_flag : Node → ℕ
  congestion_flag c =
      if leb (max_sending_queue / 2) (len c.send_queue) then bit_or 0 ack_flags_congested else 0

  abbrev pub again_received : Node → (ack_to flags : ℕ) → Node
  again_received c ack_to flags =
      count (λ s. record s { duprecv = u32 (s.duprecv + 1) }) (send_ack c ack_to flags)

  unfoldable pub receive_data : Node → Header → Node
  receive_data c hdr =
      let c1 = count (λ s. record s { datarecv = u32 (s.datarecv + 1) }) c in
      let ack_to = addr c1.packetbuf sender in
      if is_duplicate c1
      then again_received c1 ack_to (congestion_flag c1)
      else receive_new c1 hdr ack_to (congestion_flag c1)

  -- The rtmetric in the header is the sender's.
  abbrev pub learn : Node → Header → Node
  learn c hdr = elim (Neighbour.find c.neighbour_list (addr c.packetbuf sender)) [
    | none ↦ c
    | some n ↦ update_rtmetric (record c {
      neighbour_list = Neighbour.update_rtmetric c.neighbour_list (some n) hdr.rtmetric;
    })
  ]

  -- `node_packet_received`.
  unfoldable pub node_packet_received : Node → Node
  node_packet_received c =
      let hdr = header c.packetbuf in
      let c1 = learn c hdr in
      if attr c1.packetbuf packet_type == type_data
      then receive_data c1 hdr
      else if attr c1.packetbuf packet_type == type_ack
      then count got_ack (handle_ack c1)
      else c1

  -- `received_announcement`, of the rtmetric `value` (a `uint16_t`) from the neighbour at `from`.
  abbrev pub lost_neighbour : Node → ℕ → (value : ℕ) → Node
  lost_neighbour c n value =
      if (value == rtmetric_max) && not ((c.neighbour_list.mem n).rtmetric == rtmetric_max)
      then bump_advertisement c
      else c

  abbrev pub meet : Node → (from value : ℕ) → Node
  meet c from value = elim (Neighbour.find c.neighbour_list from) [
    | none ↦
        if ltb value c.rtmetric
        then record c { neighbour_list = (Neighbour.add c.neighbour_list from value).1 }
        else c
    | some n ↦
        let c1 = lost_neighbour c n value in
        record c1 { neighbour_list = Neighbour.update_rtmetric c1.neighbour_list (some n) value }
  ]

  unfoldable pub received_announcement : Node → (from value : ℕ) → Node
  received_announcement c from value = update_rtmetric (meet c from value)
