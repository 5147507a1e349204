-- ===== src/Conn/Handlers.antt =====
-- libp.c: the handlers of packets, announcements, beacons and calls keep a node's state good.
use libp.Base.{
  ℕ, ◌+◌, ◌≡◌, ◌⊎◌, inl, inr, if◌then◌else◌, Bool, true, false, arith, Option, none, some,
  Option-cases, u16, u32,
}
use libp.Contiki.{Contiki, ListLaws, MembLaws}
use libp.Neighbour
use libp.Neighbour.{Table}
use libp.Neighbour.Inv.{tx-IsValid, update_rtmetric-IsValid, set_congested-IsValid}
use libp.Neighbour.Add.{add-IsValid}
use libp.Rime.{Rime, Header, sender}
use libp.Conn.{Node, Stats, Effect, count, emit, ack_flags_congested}
use libp.Conn.Route.{update_rtmetric}
use libp.Conn.Ack.{
  flag, at_least_one, transmitted, credit, congested, penalise, dispose, accept_ack, handle_ack,
  got_ack,
}
use libp.Conn.Receive.{
  add_packet_to_recent_packets, ack_at_sink, deliver_packet, receive_at_sink, drop_packet,
  enqueue_forward, forward, one_hop_on, expire, receive_new, receive_data, learn,
  node_packet_received, lost_neighbour, meet, received_announcement,
}
use libp.Conn.Recent.{add-IsRing}
use libp.Conn.Inv.{
  Good, with_table, send_queued_packet-Good, send_next_packet-Good, send_ack-Good,
  update_rtmetric-Good,
}

module _ ⦃os : Contiki⦄ ⦃rime : Rime⦄ where
  open rime use {addr, attr}

  -- Nothing depends on the statistics, the effects or the packet buffer.
  pub if-Good : (b : Bool) (c d : Node) → Good c → Good d → Good (if b then c else d)
  if-Good true c d g h = g
  if-Good false c d g h = h

  stats-Good : (c : Node) (s : Stats) → Good c → Good (record c { stats = s })
  stats-Good c s g = ground arith

  pub emit-Good : (e : Effect) (c : Node) → Good c → Good (emit e c)
  emit-Good e c g = ground arith

  pub buf-Good : (c : Node) (b : rime.Buf) → Good c → Good (record c { packetbuf = b })
  buf-Good c b g = ground arith

  queue-Good :
      (c : Node) (k : ℕ) (q : rime.Queue) → Good c → Good (record c { calls = k; send_queue = q })
  queue-Good c k q g = ground arith

  transmitted-Good : (c : Node) (n : Option ℕ) (k : ℕ) → Good c → Good (transmitted c n k)
  transmitted-Good c n k g = with_table c _ g (tx-IsValid c.neighbour_list n (u16 k) g.table)

  credit-Good : (c : Node) (n : Option ℕ) (rtmetric : ℕ) → Good c → Good (credit c n rtmetric)
  credit-Good c none rtmetric g = g
  credit-Good c (some n) rtmetric g =
      let g1 = transmitted-Good c (some n) c.transmissions g in
      update_rtmetric-Good _ (
        with_table (transmitted c (some n) c.transmissions) _ g1
          (update_rtmetric-IsValid _ (some n) rtmetric g1.table))

  congested-Good : (c : Node) (n : Option ℕ) → Good c → Good (congested c n)
  congested-Good c none g = update_rtmetric-Good c g
  congested-Good c (some n) g = update_rtmetric-Good _ (
      transmitted-Good _ (some n) _
        (with_table c _ g (set_congested-IsValid c.neighbour_list (some n) c.clock_time g.table)))

  penalise-Good : (c : Node) (n : Option ℕ) → Good c → Good (penalise c n)
  penalise-Good c n g =
      ground (arith, update_rtmetric-Good _ (transmitted-Good c n c.max_rexmits g))

  dispose-Good : (c : Node) (n : Option ℕ) (flags : ℕ) → Good c → Good (dispose c n flags)
  dispose-Good c n flags g = ground (arith, send_next_packet-Good c g, penalise-Good c n g)

  at_least_one-Good : (c : Node) → Good c → Good (at_least_one c)
  at_least_one-Good c g = ground arith

  accept_ack-Good : (c : Node) (msg : Header) (from : ℕ) → Good c → Good (accept_ack c msg from)
  unfolding accept_ack
  accept_ack-Good c msg from g = if-Good _ _ _ (emit-Good _ _ g4) g4
    where
      c1 : Node
      c1 = at_least_one (count got_ack c)

      n : Option ℕ
      n = Neighbour.find c1.neighbour_list from

      c2 : Node
      c2 = credit c1 n msg.rtmetric

      g2 : Good c2
      g2 = credit-Good c1 n msg.rtmetric (at_least_one-Good _ (stats-Good c _ g))

      c3 : Node
      c3 = if flag msg.flags ack_flags_congested then congested c2 n else c2

      g4 : Good (dispose c3 n msg.flags)
      g4 = dispose-Good c3 n msg.flags (if-Good _ _ _ (congested-Good c2 n g2) g2)

  handle_ack-Good : (c : Node) → Good c → Good (handle_ack c)
  unfolding handle_ack
  handle_ack-Good c g =
      ground (arith, accept_ack-Good c (rime.header c.packetbuf) (addr c.packetbuf sender) g)

  add-Good : (c : Node) → Good c → Good (add_packet_to_recent_packets c)
  unfolding add_packet_to_recent_packets
  add-Good c g = ground (arith, add-IsRing c g.ring)

  ack_at_sink-Good : (c : Node) (to : ℕ) → Good c → Good (ack_at_sink c to)
  ack_at_sink-Good c to g =
      ground (arith, send_ack-Good (record c { calls = c.calls + 1 }) to 0 (ground arith))

  deliver_packet-Good : (c : Node) → Good c → Good (deliver_packet c)
  deliver_packet-Good c g = ground arith

  receive_at_sink-Good : (c : Node) (to : ℕ) → Good c → Good (receive_at_sink c to)
  unfolding receive_at_sink
  receive_at_sink-Good c to g = deliver_packet-Good _ (ack_at_sink-Good _ to (add-Good c g))

  drop_packet-Good : (c : Node) (to flags : ℕ) → Good c → Good (drop_packet c to flags)
  drop_packet-Good c to flags g = stats-Good _ _ (send_ack-Good c to _ g)

  enqueue_forward-Good : (c : Node) (to flags : ℕ) → Good c → Good (enqueue_forward c to flags)
  enqueue_forward-Good c to flags g =
      let g1 = queue-Good c (c.calls + 1) _ g in
      if-Good _ _ _ (send_queued_packet-Good _ (send_ack-Good _ to flags (add-Good _ g1)))
        (drop_packet-Good _ to flags g1)

  forward-Good : (c : Node) (hdr : Header) (to flags : ℕ) → Good c → Good (forward c hdr to flags)
  unfolding forward
  forward-Good c hdr to flags g =
      let g1 : Good (one_hop_on c) = buf-Good c (one_hop_on c).packetbuf g in
      if-Good _ _ _ (enqueue_forward-Good (one_hop_on c) to _ g1)
        (drop_packet-Good (one_hop_on c) to _ g1)

  expire-Good : (c : Node) (to flags : ℕ) → Good c → Good (expire c to flags)
  expire-Good c to flags g = stats-Good _ _ (send_ack-Good c to _ g)

  receive_new-Good :
      (c : Node) (hdr : Header) (to flags : ℕ) → Good c → Good (receive_new c hdr to flags)
  unfolding receive_new
  receive_new-Good c hdr to flags g =
      if-Good _ _ _ (receive_at_sink-Good c to g)
        (if-Good _ _ _ (forward-Good c hdr to flags g) (if-Good _ _ _ (expire-Good c to flags g) g))

  receive_data-Good : (c : Node) (hdr : Header) → Good c → Good (receive_data c hdr)
  unfolding receive_data
  receive_data-Good c hdr g =
      let g1 = stats-Good c (record (c.stats) { datarecv = u32 (c.stats.datarecv + 1) }) g in
      if-Good _ _ _ (stats-Good _ _ (send_ack-Good _ _ _ g1)) (receive_new-Good _ hdr _ _ g1)

  learn_cases :
      (c : Node) (hdr : Header)
      → (learn c hdr ≡ c)
        ⊎ ((n : ℕ) × (learn c hdr
              ≡ update_rtmetric (record c {
                neighbour_list = Neighbour.update_rtmetric c.neighbour_list (some n) hdr.rtmetric;
              })))
  learn_cases c hdr =
      elim (Option-cases (Neighbour.find c.neighbour_list (addr c.packetbuf sender))) [
        | inl e ↦ inl (rw (e, learn))
        | inr (n, e) ↦ inr (n, rw (e, learn))
      ]

  learn-Good : (c : Node) (hdr : Header) → Good c → Good (learn c hdr)
  learn-Good c hdr g = elim (learn_cases c hdr) [
    | inl e ↦ rw e g
    | inr (n, e) ↦ rw e (
        update_rtmetric-Good _ (
          with_table c _ g
            (update_rtmetric-IsValid c.neighbour_list (some n) hdr.rtmetric g.table)))
  ]

  pub node_packet_received-Good : (c : Node) → Good c → Good (node_packet_received c)
  unfolding node_packet_received
  node_packet_received-Good c g =
      let g1 = learn-Good c (rime.header c.packetbuf) g in
      if-Good _ _ _ (receive_data-Good _ _ g1)
        (if-Good _ _ _ (stats-Good _ _ (handle_ack-Good _ g1)) g1)

  lost_neighbour-Good : (c : Node) (n value : ℕ) → Good c → Good (lost_neighbour c n value)
  lost_neighbour-Good c n value g = if-Good _ _ _ (emit-Good _ c g) g

module _ ⦃os : Contiki⦄ ⦃rime : Rime⦄ (lists : ListLaws) (memb : MembLaws 8) where
  meet-Good : (c : Node) (from value : ℕ) → Good c → Good (meet c from value)
  meet-Good c from value g = elim (Option-cases (Neighbour.find c.neighbour_list from)) [
    | inl e ↦
        rw (e, meet)
          (if-Good _ _ _
            (with_table c _ g (add-IsValid lists memb c.neighbour_list from value g.table)) g)
    | inr (n, e) ↦
        let g1 = lost_neighbour-Good c n value g in
        rw (e, meet) (with_table _ _ g1 (update_rtmetric-IsValid _ (some n) value g1.table))
  ]

  pub received_announcement-Good :
      (c : Node) (from value : ℕ) → Good c → Good (received_announcement c from value)
  unfolding received_announcement
  received_announcement-Good c from value g = update_rtmetric-Good _ (meet-Good c from value g)
