-- ===== src/Network/Source.antt =====
-- libp.c: what `libp_send` of a node with nothing to send sends.
use libp.Base.{
  ℕ, ◌+◌, ◌<◌, ◌≡◌, ◌≢◌, ◌∙◌, refl, ap, Bool, true, false, ◌==◌, if◌then◌else◌, some, length, arith,
  ltb, u8,
}
use libp.Contiki.{Contiki}
use libp.Rime.{Rime, BufLaws, LengthLaws, FifoLaws, packet_type, max_rexmit}
use libp.Conn.{Node, forward_lifetime}
use libp.Conn.Send.{outgoing, send_queued_packet}
use libp.Conn.Api.{originated, next_eseqno, send}
use libp.Network.Message.{Message, message, message-copy, message-outgoing, message-originated}
use libp.Network.Idle.{IsIdle, HasParent, last_sent, send_queued_packet-last_sent}

module _ ⦃os : Contiki⦄ ⦃rime : Rime⦄ where
  open rime use {Buf, attr, addr, header, hdralloc, enqueue, node_addr, totlen}

  -- The attempt of `libp_send` to put its packet into the queue.
  abbrev pub own_packet : Node → (rexmits : ℕ) → Buf
  own_packet c rexmits = hdralloc (originated c.packetbuf c.eseqno rexmits) 4

  abbrev pub own_attempt : Node → (rexmits : ℕ) → Bool × rime.Queue
  own_attempt c rexmits =
      let b = own_packet c rexmits in
      enqueue c.calls c.send_queue b (forward_lifetime (attr b max_rexmit))

  -- What the packet says of itself.
  abbrev pub own_message : Node → (rexmits : ℕ) → Message
  own_message c rexmits = record {
    originator = node_addr;
    number = c.eseqno;
    hops = 1;
    ttl = 15;
    rexmits = if ltb 31 rexmits then 31 else rexmits;
    kind = attr c.packetbuf packet_type;
    size = totlen (own_packet c rexmits);
  }

  -- The node that has queued its packet.
  abbrev own_queued : Node → (rexmits : ℕ) → Node
  own_queued c rexmits = record c {
    packetbuf = own_packet c rexmits;
    eseqno = next_eseqno c.eseqno;
    calls = c.calls + 1;
    send_queue = (own_attempt c rexmits).1;
  }

  pub send_queues :
      (c : Node) (rexmits : ℕ)
      → c.rtmetric ≢ 0
      → (own_attempt c rexmits).0 ≡ true
      → send c rexmits ≡ (1, send_queued_packet (own_queued c rexmits))
  unfolding send
  send_queues c rexmits z ok =
      let far_off : (c.rtmetric == 0) ≡ false = ground arith in rw (far_off, ok) refl

module _ ⦃os : Contiki⦄ ⦃rime : Rime⦄ (bufs : BufLaws) (lengths : LengthLaws)
    (fifo : FifoLaws) where
  open rime use {Buf, attr, addr, node_addr, type_data, totlen, to_packetbuf, first, packet_id_bits}

  -- What `libp_send` sends.
  pub own-last_sent :
      (c : Node) (rexmits to : ℕ)
      → IsIdle c
      → HasParent c to
      → c.rtmetric ≢ 0
      → c.eseqno < 256
      → (own_attempt c rexmits).0 ≡ true
      → (p : Buf) × (last_sent (send c rexmits).1.effects ≡ some (p, to))
        × (message p ≡ own_message c rexmits)
  own-last_sent c rexmits to idle parent z low ok =
      let b = own_packet c rexmits in
      let x = own_queued c rexmits in
      let (i, q, head, held, attrs, addrs, length) =
        fifo.first-enqueue c.calls c.send_queue b (forward_lifetime (attr b max_rexmit)) idle.empty
          ok in
      let b' = to_packetbuf q in
      (
        outgoing b' (u8 (attr b' max_rexmit)) x.seqno x.rtmetric,
        ap (λ r. last_sent r.1.effects) (send_queues c rexmits z ok)
            ∙ send_queued_packet-last_sent x i q to idle.sending head held parent,
        message-outgoing bufs lengths b' (u8 (attr b' max_rexmit)) x.seqno x.rtmetric
            ∙ message-copy b' b attrs addrs length
            ∙ message-originated bufs lengths c.packetbuf c.eseqno rexmits low,
      )
