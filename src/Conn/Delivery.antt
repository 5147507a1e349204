-- ===== src/Conn/Delivery.antt =====
-- libp.c: what becomes of a received packet: acknowledgements, duplicates, hops, and packets that
-- nobody takes.
use libp.Base.{
  ℕ, ◌+◌, ◌-◌, ◌≤◌, ◌<◌, ◌≡◌, ◌≢◌, ◌∙◌, refl, if◌then◌else◌, Bool, true, false, arith, Option, none,
  some, ◌∷◌, u32,
}
use libp.Contiki.{Contiki}
use libp.Neighbour
use libp.Rime.{Rime, Header, BufLaws, hops, ttl, sender, packet_type}
use libp.Conn.{Node, unicast_send, count, ack_flags_congested}
use libp.Conn.Send.{send_next_packet, send_ack, ack_packet}
use libp.Conn.Ack.{
  is_awaited, flag, at_least_one, transmitted, credit, congested, dispose, accept_ack, handle_ack,
  got_ack,
}
use libp.Conn.Receive.{
  one_hop_on, is_duplicate, congestion_flag, receive_new, receive_data, learn, node_packet_received,
}
use libp.Conn.Frame.{acks-send_queued_packet, acks-update_rtmetric}

module _ ⦃os : Contiki⦄ ⦃rime : Rime⦄ where
  open rime use {attr, addr, header, type_data, type_ack}

  abbrev acks : Node → ℕ
  acks c = c.stats.ackrecv

  acks-send_next : (c : Node) → acks (send_next_packet c) ≡ acks c
  unfolding send_next_packet
  acks-send_next c = acks-send_queued_packet _

  acks-credit : (c : Node) (n : Option ℕ) (rtmetric : ℕ) → acks (credit c n rtmetric) ≡ acks c
  acks-credit c none rtmetric = refl
  acks-credit c (some n) rtmetric = acks-update_rtmetric _

  acks-congested : (c : Node) (n : Option ℕ) → acks (congested c n) ≡ acks c
  acks-congested c none = acks-update_rtmetric c
  acks-congested c (some n) = acks-update_rtmetric _

  acks-dispose : (c : Node) (n : Option ℕ) (flags : ℕ) → acks (dispose c n flags) ≡ acks c
  acks-dispose c n flags =
      ground (arith, acks-send_next c, acks-update_rtmetric (transmitted c n c.max_rexmits))

  acks-if :
      (b : Bool) (c d : Node) (k : ℕ) → acks c ≡ k → acks d ≡ k → acks (if b then c else d) ≡ k
  acks-if true c d k h g = h
  acks-if false c d k h g = g

  acks-accept :
      (c : Node) (msg : Header) (from : ℕ) → acks (accept_ack c msg from) ≡ u32 (acks c + 1)
  unfolding accept_ack
  acks-accept c msg from = acks-if _ _ _ _ h4 h4
    where
      c1 : Node
      c1 = at_least_one (count got_ack c)

      n : Option ℕ
      n = Neighbour.find c1.neighbour_list from

      c2 : Node
      c2 = credit c1 n msg.rtmetric

      c3 : Node
      c3 = if flag msg.flags ack_flags_congested then congested c2 n else c2

      h1 : acks c1 ≡ u32 (acks c + 1)
      h1 = ground arith

      h2 : acks c2 ≡ u32 (acks c + 1)
      h2 = acks-credit c1 n msg.rtmetric ∙ h1

      h4 : acks (dispose c3 n msg.flags) ≡ u32 (acks c + 1)
      h4 =
          acks-dispose c3 n msg.flags
          ∙ acks-if (flag msg.flags ack_flags_congested) (congested c2 n) c2 _
              (acks-congested c2 n ∙ h2) h2

  -- An awaited acknowledgement is counted once by `handle_ack`, any other as a bad one, which has
  -- no other effect.
  handle_ack_lem :
      (c : Node)
      → (is_awaited c ≡ true → acks (handle_ack c) ≡ u32 (acks c + 1))
        × (is_awaited c ≡ false
            → handle_ack c ≡ count (λ s. record s { badack = u32 (s.badack + 1) }) c)
  unfolding handle_ack
  handle_ack_lem c =
      (λ e. rw e (acks-accept c (header c.packetbuf) (addr c.packetbuf sender)), λ e. rw e)

  -- Where the two packet types differ, an awaited acknowledgement, as the packet buffer shows it
  -- after the sender's rtmetric is learned, makes `node_packet_received` count `ackrecv` up twice.
  pub acks-received :
      (c : Node)
      → type_data ≢ type_ack
      → attr (learn c (header c.packetbuf)).packetbuf packet_type ≡ type_ack
      → is_awaited (learn c (header c.packetbuf)) ≡ true
      → acks (node_packet_received c) ≡ u32 (u32 (acks (learn c (header c.packetbuf)) + 1) + 1)
  unfolding node_packet_received
  acks-received c ne t e =
      let d = learn c (header c.packetbuf) in ground (arith, (handle_ack_lem d).0 e)

  -- A data packet that the ring recognises is acknowledged to its sender and counted as a
  -- duplicate; it is not delivered, and the queue, the ring and the neighbour table stay as they
  -- were.
  pub receive_data-duplicate :
      (c : Node) (hdr : Header)
      → is_duplicate c ≡ true
      → let d = receive_data c hdr in
        let ack = ack_packet c.packetbuf (addr c.packetbuf sender) (congestion_flag c) c.rtmetric in
        (d.effects ≡ unicast_send ack (addr c.packetbuf sender) ∷ c.effects)
        × (d.send_queue ≡ c.send_queue)
        × (d.recent_packets ≡ c.recent_packets)
        × (d.stats.duprecv ≡ u32 (c.stats.duprecv + 1))
        × (d.neighbour_list ≡ c.neighbour_list)
  unfolding receive_data send_ack
  receive_data-duplicate c hdr e = rw e (refl, refl, refl, refl, refl)

  -- A node with no route takes no notice of a new packet that has hops left: it sends no
  -- acknowledgement, and no statistic but the number of packets received tells of it.
  pub receive_data-unrouted :
      (c : Node) (hdr : Header)
      → is_duplicate c ≡ false
      → c.rtmetric ≡ 511
      → 1 < attr c.packetbuf ttl
      → receive_data c hdr ≡ count (λ s. record s { datarecv = u32 (s.datarecv + 1) }) c
  unfolding receive_data receive_new
  receive_data-unrouted c hdr e r h = rw e (ground arith)

module _ ⦃os : Contiki⦄ ⦃rime : Rime⦄ (bufs : BufLaws) where
  open rime use {attr}

  -- Of a packet with a 16-bit time to live above 1 and fewer than 65535 hops, forwarding makes one
  -- with the time to live one lower and the same sum of hops and time to live.
  pub one_hop_on_lem :
      (c : Node)
      → 1 < attr c.packetbuf ttl
      → attr c.packetbuf ttl ≤ 65535
      → attr c.packetbuf hops < 65535
      → (attr (one_hop_on c).packetbuf hops + attr (one_hop_on c).packetbuf ttl
          ≡ attr c.packetbuf hops + attr c.packetbuf ttl)
        × (attr (one_hop_on c).packetbuf ttl + 1 ≡ attr c.packetbuf ttl)
  one_hop_on_lem c h t s =
      let b = c.packetbuf in
      let b1 = rime.set_attr b hops (attr b hops + 1) in
      ground (
        arith,
        bufs.attr-set_attr b hops hops (attr b hops + 1),
        bufs.attr-set_attr b hops ttl (attr b hops + 1),
        bufs.attr-set_attr b1 ttl ttl (attr b1 ttl - 1),
        bufs.attr-set_attr b1 ttl hops (attr b1 ttl - 1),
      )
