-- ===== src/Conn/Lasting/Packets.antt =====
-- libp.c: the handlers of packets and announcements leave sinks sinks, and other nodes what they are.
use libp.Base.{
  ℕ, ◌+◌, inl, inr, refl, if◌then◌else◌, Bool, arith, Option, none, some, Option-cases, u32,
}
use libp.Contiki.{Contiki}
use libp.Neighbour
use libp.Neighbour.{Table}
use libp.Rime.{Rime, Header, sender}
use libp.Conn.{Node, count, ack_flags_congested, ack_flags_rtmetric_needs_update}
use libp.Conn.Route.{update_rtmetric, bump_advertisement}
use libp.Conn.Ack.{
  flag, at_least_one, transmitted, credit, congested, penalise, dispose, accept_ack, handle_ack,
  got_ack,
}
use libp.Conn.Receive.{
  add_packet_to_recent_packets, ack_at_sink, deliver_packet, receive_at_sink, drop_packet,
  enqueue_forward, forward, one_hop_on, expire, receive_new, receive_data, learn,
  node_packet_received, meet, received_announcement,
}
use libp.Conn.Lasting.{
  As, same, stats-As, if-As, send_queued_packet-As, update_rtmetric-As, send_next_packet-As,
  send_ack-As,
}

module _ ⦃os : Contiki⦄ ⦃rime : Rime⦄ (s : Bool) (f : ℕ) where
  open rime use {addr, attr}

  credit-As : (c : Node) (n : Option ℕ) (rtmetric : ℕ) → As s f c → As s f (credit c n rtmetric)
  credit-As c none rtmetric g = g
  credit-As c (some n) rtmetric g = update_rtmetric-As s f _ (same s f c _ refl refl g)

  congested-As : (c : Node) (n : Option ℕ) → As s f c → As s f (congested c n)
  congested-As c none g = update_rtmetric-As s f c g
  congested-As c (some n) g = update_rtmetric-As s f _ (same s f c _ refl refl g)

  penalise-As : (c : Node) (n : Option ℕ) → As s f c → As s f (penalise c n)
  penalise-As c n g =
      let d = transmitted c n c.max_rexmits in
      same s f (update_rtmetric d) _ refl refl (update_rtmetric-As s f d (same s f c d refl refl g))

  dispose-As : (c : Node) (n : Option ℕ) (flags : ℕ) → As s f c → As s f (dispose c n flags)
  dispose-As c n flags g = ground (arith, send_next_packet-As s f c g, penalise-As c n g)

  at_least_one-As : (c : Node) → As s f c → As s f (at_least_one c)
  at_least_one-As c g = ground arith

  accept_ack-As : (c : Node) (msg : Header) (from : ℕ) → As s f c → As s f (accept_ack c msg from)
  unfolding accept_ack
  accept_ack-As c msg from g =
      let c1 = at_least_one (count got_ack c) in
      let n = Neighbour.find c1.neighbour_list from in
      let c2 = credit c1 n msg.rtmetric in
      let g2 =
        credit-As c1 n msg.rtmetric
          (at_least_one-As (count got_ack c) (same s f c _ refl refl g)) in
      let c3 = if flag msg.flags ack_flags_congested then congested c2 n else c2 in
      let g4 = dispose-As c3 n msg.flags (
        if-As s f (flag msg.flags ack_flags_congested) (congested c2 n) c2 (congested-As c2 n g2)
          g2) in
      let c4 = dispose c3 n msg.flags in
      if-As s f (flag msg.flags ack_flags_rtmetric_needs_update) (bump_advertisement c4) c4
        (same s f c4 _ refl refl g4) g4

  handle_ack-As : (c : Node) → As s f c → As s f (handle_ack c)
  unfolding handle_ack
  handle_ack-As c g =
      ground (arith, accept_ack-As c (rime.header c.packetbuf) (addr c.packetbuf sender) g)

  add-As : (c : Node) → As s f c → As s f (add_packet_to_recent_packets c)
  unfolding add_packet_to_recent_packets
  add-As c g = ground arith

  ack_at_sink-As : (c : Node) (to : ℕ) → As s f c → As s f (ack_at_sink c to)
  ack_at_sink-As c to g =
      ground (arith, send_ack-As s f (record c { calls = c.calls + 1 }) to 0 (ground arith))

  deliver_packet-As : (c : Node) → As s f c → As s f (deliver_packet c)
  deliver_packet-As c g = ground arith

  receive_at_sink-As : (c : Node) (to : ℕ) → As s f c → As s f (receive_at_sink c to)
  unfolding receive_at_sink
  receive_at_sink-As c to g = deliver_packet-As _ (ack_at_sink-As _ to (add-As c g))

  drop_packet-As : (c : Node) (to flags : ℕ) → As s f c → As s f (drop_packet c to flags)
  drop_packet-As c to flags g = stats-As s f _ _ (send_ack-As s f c to _ g)

  enqueue_forward-As : (c : Node) (to flags : ℕ) → As s f c → As s f (enqueue_forward c to flags)
  enqueue_forward-As c to flags g =
      if-As s f _ _ _
        (send_queued_packet-As s f _
          (send_ack-As s f _ to flags (add-As _ (same s f c _ refl refl g))))
        (drop_packet-As _ to flags (same s f c _ refl refl g))

  forward-As : (c : Node) (hdr : Header) (to flags : ℕ) → As s f c → As s f (forward c hdr to flags)
  unfolding forward
  forward-As c hdr to flags g =
      let g1 = same s f c (one_hop_on c) refl refl g in
      if-As s f _ _ _ (enqueue_forward-As (one_hop_on c) to _ g1)
        (drop_packet-As (one_hop_on c) to _ g1)

  expire-As : (c : Node) (to flags : ℕ) → As s f c → As s f (expire c to flags)
  expire-As c to flags g = stats-As s f _ _ (send_ack-As s f c to _ g)

  receive_new-As :
      (c : Node) (hdr : Header) (to flags : ℕ) → As s f c → As s f (receive_new c hdr to flags)
  unfolding receive_new
  receive_new-As c hdr to flags g =
      if-As s f _ _ _ (receive_at_sink-As c to g)
        (if-As s f _ _ _ (forward-As c hdr to flags g) (if-As s f _ _ _ (expire-As c to flags g) g))

  receive_data-As : (c : Node) (hdr : Header) → As s f c → As s f (receive_data c hdr)
  unfolding receive_data
  receive_data-As c hdr g =
      let g1 = stats-As s f c (record (c.stats) { datarecv = u32 (c.stats.datarecv + 1) }) g in
      if-As s f _ _ _ (stats-As s f _ _ (send_ack-As s f _ _ _ g1)) (receive_new-As _ hdr _ _ g1)

  learn-As : (c : Node) (hdr : Header) → As s f c → As s f (learn c hdr)
  learn-As c hdr g =
      elim (Option-cases (Neighbour.find c.neighbour_list (addr c.packetbuf sender))) [
        | inl e ↦ rw (e, learn) g
        | inr (n, e) ↦ rw (e, learn) (update_rtmetric-As s f _ (same s f c _ refl refl g))
      ]

  pub node_packet_received-As : (c : Node) → As s f c → As s f (node_packet_received c)
  unfolding node_packet_received
  node_packet_received-As c g =
      let g1 = learn-As c (rime.header c.packetbuf) g in
      if-As s f _ _ _ (receive_data-As _ _ g1)
        (if-As s f _ _ _ (stats-As s f _ _ (handle_ack-As _ g1)) g1)

  meet-As : (c : Node) (from value : ℕ) → As s f c → As s f (meet c from value)
  meet-As c from value g = ground arith

  pub received_announcement-As :
      (c : Node) (from value : ℕ) → As s f c → As s f (received_announcement c from value)
  unfolding received_announcement
  received_announcement-As c from value g = update_rtmetric-As s f _ (meet-As c from value g)
