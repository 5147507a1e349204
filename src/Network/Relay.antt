-- ===== src/Network/Relay.antt =====
-- libp.c: a node that has nothing to send receives a data packet, and sends it on to its parent.
use libp.Base.{
  ℕ, ◌+◌, ◌≤◌, ◌<◌, ◌≡◌, ◌≢◌, ◌∙◌, sym, ap, subst, true, false, ==_refl, Bool, some, arith, leb, u8,
}
use libp.Contiki.{Contiki}
use libp.Neighbour
use libp.Rime.{
  Rime, Header, BufLaws, LengthLaws, QueueLaws, FifoLaws, epacket_id, packet_type, ttl, max_rexmit,
  sender, esender,
}
use libp.Conn.{Node, forward_lifetime, max_sending_queue, min_available_queue_entries}
use libp.Conn.Send.{outgoing, send_ack, send_queued_packet}
use libp.Conn.Receive.{
  add_packet_to_recent_packets, is_duplicate, is_recent, congestion_flag, learn, one_hop_on,
  forward, receive_data, node_packet_received,
}
use libp.Conn.Received.{counted, to_new, new_forwarded}
use libp.Conn.Outcome.{forward_flags}
use libp.Network.Message.{
  message, further, Fits, message-copy, message-outgoing, message-one_hop_on,
}
use libp.Network.Idle.{
  IsIdle, HasParent, Learned, last_sent, learn-Learned, send_queued_packet-last_sent,
}

module _ ⦃os : Contiki⦄ ⦃rime : Rime⦄ where
  open rime use {Buf, attr, addr, header, first, len, enqueue, queuebuf, to_packetbuf, type_data}

  -- The attempt to put the packet, one hop on, into the queue.
  abbrev pub attempt : Node → Bool × rime.Queue
  attempt c =
      let b = (one_hop_on c).packetbuf in
      enqueue c.calls c.send_queue b (forward_lifetime (attr b max_rexmit))

  -- The node, when it gets the data packet in `b`, is free to send it on to the address `to`: it has
  -- nothing to send and does not know the packet; once it has learned the sender's rtmetric it has
  -- a route and that parent; and the queue takes the packet.
  pub record Relays (c : Node) (b : Buf) (to : ℕ) : Type 0 where
    pub idle : IsIdle c
    pub new : is_recent c.recent_packets (addr b esender) (attr b epacket_id) ≡ false
    pub no_sink : (learn (record c { packetbuf = b }) (header b)).rtmetric ≢ 0
    pub has_route : (learn (record c { packetbuf = b }) (header b)).rtmetric ≢ 511
    pub parent : HasParent (learn (record c { packetbuf = b }) (header b)) to
    pub taken : (attempt (learn (record c { packetbuf = b }) (header b))).0 ≡ true

  -- The node that has queued the packet and acknowledged it.
  abbrev queued : Node → Header → Node
  queued d hdr =
      send_ack
        (add_packet_to_recent_packets
          (record (one_hop_on (counted d)) { calls = d.calls + 1; send_queue = (attempt d).1 }))
        (addr d.packetbuf sender) (forward_flags d hdr)

  queued_keeps :
      (d : Node) (hdr : Header)
      → ((queued d hdr).sending ≡ d.sending)
        × ((queued d hdr).send_queue ≡ (attempt d).1)
        × ((queued d hdr).neighbour_list ≡ d.neighbour_list)
        × ((queued d hdr).parent ≡ d.parent)
  unfolding send_ack add_packet_to_recent_packets
  queued_keeps d hdr = ground arith

  queued-HasParent :
      (d : Node) (hdr : Header) (to : ℕ) → HasParent d to → HasParent (queued d hdr) to
  queued-HasParent d hdr to h =
      let k = queued_keeps d hdr in
      subst
        (λ t. (n : ℕ) × (Neighbour.find t (queued d hdr).parent ≡ some n) × ((t.mem n).addr ≡ to))
        (sym k.2)
        (subst
          (λ a.
            (n : ℕ) × (Neighbour.find d.neighbour_list a ≡ some n)
            × ((d.neighbour_list.mem n).addr ≡ to))
          (sym k.3) h)

  is_new :
      (c d : Node) (b : Buf)
      → Learned c d
      → is_recent c.recent_packets (addr b esender) (attr b epacket_id) ≡ false
      → d.packetbuf ≡ b
      → is_duplicate d ≡ false
  is_new c d b l new same = rw (l.recent, same) new

  has_room :
      (d : Node)
      → min_available_queue_entries ≤ max_sending_queue
      → len d.send_queue ≡ 0
      → leb (len d.send_queue + min_available_queue_entries) max_sending_queue ≡ true
  has_room d room e = ground arith

  forward_queued :
      (d : Node) (hdr : Header)
      → is_duplicate d ≡ false
      → d.rtmetric ≢ 0
      → d.rtmetric ≢ 511
      → 1 < attr d.packetbuf ttl
      → leb (len d.send_queue + min_available_queue_entries) max_sending_queue ≡ true
      → (attempt d).0 ≡ true
      → receive_data d hdr ≡ send_queued_packet (queued d hdr)
  unfolding forward
  forward_queued d hdr new z r l room ok =
      to_new d hdr new
      ∙ new_forwarded (counted d) hdr (addr d.packetbuf sender) (congestion_flag d) z r l
      ∙ rw (room, ok)

  pub to_data :
      (c : Node)
      → attr (learn c (header c.packetbuf)).packetbuf packet_type ≡ type_data
      → node_packet_received c ≡ receive_data (learn c (header c.packetbuf)) (header c.packetbuf)
  unfolding node_packet_received
  to_data c e = rw (e, ==_refl type_data)

module _ ⦃os : Contiki⦄ ⦃rime : Rime⦄ (bufs : BufLaws) (lengths : LengthLaws) (queues : QueueLaws)
    (fifo : FifoLaws) where
  open rime use {Buf, attr, addr, header, first, len, type_data}

  -- What the node that has queued the packet sends.
  queued-last_sent :
      (d : Node) (hdr : Header) (to : ℕ)
      → IsIdle d
      → HasParent d to
      → (attempt d).0 ≡ true
      → Fits (message d.packetbuf)
      → 1 < attr d.packetbuf ttl
      → (p : Buf) × (last_sent (send_queued_packet (queued d hdr)).effects ≡ some (p, to))
        × (message p ≡ further (message d.packetbuf))
  queued-last_sent d hdr to idle parent ok fits l =
      let b = (one_hop_on d).packetbuf in
      let (i, q, head, held, attrs, addrs, length) =
        fifo.first-enqueue d.calls d.send_queue b (forward_lifetime (attr b max_rexmit)) idle.empty
          ok in
      let k = queued_keeps d hdr in
      let b' = rime.to_packetbuf q in
      (
        outgoing b' (u8 (attr b' max_rexmit)) (queued d hdr).seqno (queued d hdr).rtmetric,
        send_queued_packet-last_sent (queued d hdr) i q to (k.0 ∙ idle.sending)
            (ap first k.1 ∙ head) held (queued-HasParent d hdr to parent),
        message-outgoing bufs lengths b' (u8 (attr b' max_rexmit)) (queued d hdr).seqno
              (queued d hdr).rtmetric
            ∙ message-copy b' b attrs addrs length
            ∙ message-one_hop_on bufs lengths d fits l,
      )

  pub relay :
      (c : Node) (b : Buf) (to : ℕ)
      → min_available_queue_entries ≤ max_sending_queue
      → Relays c b to
      → attr b packet_type ≡ type_data
      → Fits (message b)
      → 1 < attr b ttl
      → (p : Buf) × (last_sent (node_packet_received (record c { packetbuf = b })).effects
          ≡ some (p, to))
        × (message p ≡ further (message b))
  relay c b to room r kind fits l =
      let c' = record c { packetbuf = b } in
      let hdr = header b in
      let d = learn c' hdr in
      let learned =
        learn-Learned c' hdr (record { sending = r.idle.sending; empty = r.idle.empty }) in
      let same = learned.buffer in
      let (p, sends, says) =
        queued-last_sent d hdr to learned.idle r.parent r.taken
          (subst (λ x. Fits (message x)) (sym same) fits)
          (subst (λ x. 1 < attr x ttl) (sym same) l) in
      (
        p,
        ap (λ x. last_sent x.effects)
              (to_data c' (ap (λ x. attr x packet_type) same ∙ kind)
                ∙ forward_queued d hdr (is_new c' d b learned r.new same) r.no_sink r.has_route
                    (subst (λ x. 1 < attr x ttl) (sym same) l)
                    (has_room d room (queues.first-none d.send_queue learned.idle.empty)) r.taken)
            ∙ sends,
        says ∙ ap (λ x. further (message x)) same,
      )
