-- ===== src/Network/Journey.antt =====
-- libp.c at many nodes: from `libp_send` at a packet's originator, through `node_packet_received` at
-- each node that sends it on, to the receive callback at a sink.
use libp.Base.{
  ℕ, ◌+◌, ◌^◌, ◌≤◌, ◌<◌, ◌≡◌, ◌≢◌, ◌∙◌, sym, ap, subst, true, false, List, length, arith,
}
use libp.Contiki.{Contiki}
use libp.Rime.{Rime, BufLaws, LengthLaws, QueueLaws, FifoLaws, DataLaws, ConfigLaws, packet_type}
use libp.Conn.{Node, max_sending_queue, min_available_queue_entries}
use libp.Conn.Receive.{is_recent}
use libp.Conn.Api.{send}
use libp.Network.Message.{message, Fits, AirLaws}
use libp.Network.Idle.{IsIdle, HasParent}
use libp.Network.Flight.{Stop, Flight, flies, flies-last_sent, lands, Way, far, far-Fits, along}
use libp.Conn.Sequence.{pow_bounds}
use libp.Network.Source.{own_packet, own_attempt, own_message, own-last_sent, send_queues}
use libp.Network.Arrival.{Brings, lands-Brings}

module _ ⦃os : Contiki⦄ ⦃rime : Rime⦄ where
  open rime use {Buf, attr, node_addr, packet_id_bits, type_data, totlen}

  -- A node with nothing to send, and with a parent, whose queue takes the packet that `libp_send`
  -- makes of the data in the packet buffer.
  pub record Starts (c : Node) (rexmits to : ℕ) : Type 0 where
    pub idle : IsIdle c
    pub parent : HasParent c to
    pub no_sink : c.rtmetric ≢ 0
    pub number : c.eseqno < 2 ^ packet_id_bits
    pub kind : attr c.packetbuf packet_type ≡ type_data
    pub size : 4 < totlen (own_packet c rexmits)
    pub taken : (own_attempt c rexmits).0 ≡ true

  -- A sink with a receive callback, where the packet goes and which does not know it.
  pub record Awaits (s : Stop) (f : Flight) (originator number : ℕ) : Type 0 where
    pub there : s.address ≡ f.to
    pub sink : s.node.rtmetric ≡ 0
    pub has_recv : s.node.has_recv ≡ true
    pub new : is_recent s.node.recent_packets originator number ≡ false

  own_message-Fits :
      (c : Node) (rexmits to : ℕ)
      → type_data < 2
      → Starts c rexmits to
      → Fits (own_message c rexmits)
  own_message-Fits c rexmits to bit s = record {
    number = s.number;
    counted = omega arith;
    alive = omega arith;
    limit = omega arith;
    rexmits = ground arith;
    kind = omega (arith, s.kind);
  }

module _ ⦃os : Contiki⦄ ⦃rime : Rime⦄ (bufs : BufLaws) (lengths : LengthLaws) (queues : QueueLaws)
    (fifo : FifoLaws) (data_laws : DataLaws) (config : ConfigLaws) (air : rime.Buf → ℕ → rime.Buf)
    (airs : AirLaws air) where
  open rime use {Buf, attr, node_addr, packet_id_bits, type_data, totlen}

  -- When a node with nothing to send and with a parent calls `libp_send`, at an rtmetric other
  -- than 0, and its queue takes the packet, `libp_send` returns 1 and the packet is on its way. If
  -- up to fourteen nodes lie on the way, each with nothing to send, with a parent and a route once
  -- it has learned the sender's rtmetric, with room for the packet, and without having seen it,
  -- and then a sink with a receive callback that has not seen it, the sink's
  -- `node_packet_received` calls the callback once, as its last call, with the originator's
  -- address, the packet's number and the number of hops, one more than the nodes between. The
  -- packet has to be a data packet longer than a header, its number within the bits of a packet
  -- id; attributes cross the radio with the bits that COLLECT_ATTRIBUTES gives them.
  pub send-arrives :
      (c : Node) (rexmits from to : ℕ) (stops : List Stop) (s : Stop) (f : Flight)
      → min_available_queue_entries ≤ max_sending_queue
      → type_data < 2
      → Starts c rexmits to
      → Way air (flies from c.packetbuf (send c rexmits).1) stops f
      → length stops ≤ 14
      → Awaits s f node_addr c.eseqno
      → ((send c rexmits).0 ≡ 1)
        × Brings s.node node_addr c.eseqno (1 + length stops) (lands air s f)
  send-arrives c rexmits from to stops s f room bit start way few w =
      let low = (pow_bounds packet_id_bits config.some_bits config.byte_bits).1 in
      let number : c.eseqno < 256 = omega (arith, low, start.number) in
      let (p, sends, says) =
        own-last_sent bufs lengths fifo c rexmits to start.idle start.parent start.no_sink number
          start.taken in
      let m = own_message c rexmits in
      let off = flies from c.packetbuf (send c rexmits).1 in
      let starts : message off.packet ≡ m =
        ap (λ x. message x.packet) (flies-last_sent from c.packetbuf (send c rexmits).1 p to sends)
        ∙ says in
      let fits = own_message-Fits c rexmits to bit start in
      let ends : message f.packet ≡ far (length stops) m =
        along bufs lengths queues fifo air airs off f stops room way (subst Fits (sym starts) fits)
          (ap (λ x. x.kind) starts ∙ start.kind) (omega (arith, ap (λ x. x.ttl) starts, few))
        ∙ ap (far (length stops)) starts in
      (
        ap (λ r. r.0) (send_queues c rexmits start.no_sink start.taken),
        lands-Brings data_laws air airs s f (far (length stops) m) ends w.sink w.has_recv
            (far-Fits (length stops) m fits (omega (arith, few))) number start.kind start.size
            w.new,
      )
