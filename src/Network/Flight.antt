-- ===== src/Network/Flight.antt =====
-- libp.c at the nodes along a packet's way: each gets it in `node_packet_received` and sends it on.
use libp.Base.{
  ℕ, suc, ◌+◌, ◌-◌, ◌≤◌, ◌<◌, ◌≡◌, ◌∙◌, sym, ap, subst, none, some, List, [], ◌∷◌, length, arith,
}
use libp.Contiki.{Contiki}
use libp.Rime.{Rime, BufLaws, LengthLaws, QueueLaws, FifoLaws}
use libp.Conn.{Node, max_sending_queue, min_available_queue_entries}
use libp.Conn.Receive.{node_packet_received}
use libp.Network.Message.{Message, message, further, Fits, further-Fits, AirLaws, message-air}
use libp.Network.Idle.{last_sent}
use libp.Network.Relay.{Relays, relay}

module _ ⦃os : Contiki⦄ ⦃rime : Rime⦄ where
  open rime use {Buf, attr, addr, header, hdralloc, enqueue, node_addr, totlen}

  -- A node as the packet finds it, and its address.
  pub record Stop : Type 0 where
    pub address : ℕ
    pub node : Node

  -- A packet in the air.
  pub record Flight : Type 0 where
    pub packet : Buf
    pub from : ℕ
    pub to : ℕ

  -- The flight on which the last call of the node at `from` sends a packet; without such a call `b`
  -- stays where it is.
  abbrev pub flies : (from : ℕ) → Buf → Node → Flight
  flies from b c = elim (last_sent c.effects) [
    | none ↦ record { packet = b; from = from; to = from }
    | some (p, to) ↦ record { packet = p; from = from; to = to }
  ]

  module _ (air : Buf → ℕ → Buf) where
    -- The packet arrives.
    abbrev pub lands : Stop → Flight → Node
    lands s f = node_packet_received (record (s.node) { packetbuf = air f.packet f.from })

    abbrev pub leaves : Stop → Flight → Flight
    leaves s f = flies s.address f.packet (lands s f)

    -- The stops lie on the packet's way, and at each the node is free to send it on.
    pub data Way : Flight → List Stop → Flight → Type 0 where
      here : (f : Flight) → Way f [] f
      on :
          (f g : Flight) (s : Stop) (stops : List Stop) (to : ℕ)
          → s.address ≡ f.to
          → Relays s.node (air f.packet f.from) to
          → Way (leaves s f) stops g
          → Way f (s ∷ stops) g

  -- The message after some hops.
  abbrev pub far : ℕ → Message → Message
  far n m = record m { hops = m.hops + n; ttl = m.ttl - n }

  far-zero : (m : Message) → far 0 m ≡ m
  far-zero m = ground arith

  far-further : (n : ℕ) (m : Message) → far n (further m) ≡ far (suc n) m
  far-further n m = ground arith

  pub far-Fits : (n : ℕ) (m : Message) → Fits m → n < m.ttl → Fits (far n m)
  far-Fits n m f l = record {
    number = f.number;
    counted = omega (arith, f.counted);
    alive = omega (arith, l);
    limit = omega (arith, f.limit, l);
    rexmits = f.rexmits;
    kind = f.kind;
  }

  pub flies-last_sent :
      (from : ℕ) (b : Buf) (c : Node) (p : Buf) (to : ℕ)
      → last_sent c.effects ≡ some (p, to)
      → flies from b c ≡ record { packet = p; from = from; to = to }
  flies-last_sent from b c p to e = rw (e, flies)

module _ ⦃os : Contiki⦄ ⦃rime : Rime⦄ (bufs : BufLaws) (lengths : LengthLaws) (queues : QueueLaws)
    (fifo : FifoLaws) (air : rime.Buf → ℕ → rime.Buf) (airs : AirLaws air) where
  open rime use {Buf, attr, type_data}

  -- One stop.
  leaves-message :
      (s : Stop) (f : Flight) (to : ℕ)
      → min_available_queue_entries ≤ max_sending_queue
      → Relays s.node (air f.packet f.from) to
      → Fits (message f.packet)
      → (message f.packet).kind ≡ type_data
      → 1 < (message f.packet).ttl
      → message (leaves air s f).packet ≡ further (message f.packet)
  leaves-message s f to room r fits kind l =
      let b = air f.packet f.from in
      let same = message-air air f.packet f.from airs fits in
      let (p, sends, says) =
        relay bufs lengths queues fifo s.node b to room r (ap (λ x. x.kind) same ∙ kind)
          (subst Fits (sym same) fits) (omega (arith, ap (λ x. x.ttl) same)) in
      ap (λ x. message x.packet) (flies-last_sent s.address f.packet (lands air s f) p to sends)
      ∙ says
      ∙ ap further same

  -- All of them.
  pub along :
      (f g : Flight) (stops : List Stop)
      → min_available_queue_entries ≤ max_sending_queue
      → Way air f stops g
      → Fits (message f.packet)
      → (message f.packet).kind ≡ type_data
      → length stops < (message f.packet).ttl
      → message g.packet ≡ far (length stops) (message f.packet)
  along f g stops room (here _) fits kind l = sym (far-zero (message f.packet))
  along f g stops room (on _ _ s rest to at r way) fits kind l =
      let step = leaves-message s f to room r fits kind (omega (arith, l)) in
      along (leaves air s f) g rest room way
        (subst Fits (sym step) (further-Fits (message f.packet) fits (omega (arith, l))))
        (ap (λ x. x.kind) step ∙ kind) (omega (arith, ap (λ x. x.ttl) step, l))
      ∙ ap (far (length rest)) step
      ∙ far-further (length rest) (message f.packet)
