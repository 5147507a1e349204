-- ===== src/Conn/Outcome.antt =====
-- libp.c: what becomes of a data packet that a node other than a sink receives.
use Prim.Native.Nat.{bit_or}
use libp.Base.{
  ℕ, ◌+◌, ◌≤◌, ◌<◌, ◌≡◌, ◌≢◌, ◌⊎◌, inl, inr, true, false, List, [], ◌∷◌, arith, ◌==◌, leb,
  if◌then◌else◌, u32, Bool-cases, Option-cases,
}
use libp.Contiki.{Contiki}
use libp.Neighbour
use libp.Rime.{Rime, Header, ttl, sender}
use libp.Conn.{
  Node, Effect, unicast_send, ack_flags_congested, ack_flags_dropped, ack_flags_lifetime_exceeded,
  ack_flags_rtmetric_needs_update,
}
use libp.Conn.Send.{ack_packet, send_item, send_loaded, send_packet, send_queued_packet}
use libp.Conn.Receive.{add_packet_to_recent_packets, is_duplicate, congestion_flag, one_hop_on}

module _ ⦃os : Contiki⦄ ⦃rime : Rime⦄ where
  open rime use {attr, addr, len}

  -- The call was made.
  abbrev pub Made : Effect → List Effect → Type 0
  Made e [] = ⊥
  Made e (x ∷ xs) = (e ≡ x) ⊎ Made e xs

  -- The sender of `c`'s packet was sent an acknowledgement with the given flags, made in the packet
  -- buffer that held `b`.
  abbrev pub Answers : Node → rime.Buf → (flags : ℕ) → Node → Type 0
  Answers c b flags d =
      let to = addr c.packetbuf sender in
      Made (unicast_send (ack_packet b to flags c.rtmetric) to) d.effects

  -- A neighbour that is not farther from the sink has to be told the node's rtmetric.
  abbrev pub forward_flags : Node → Header → ℕ
  forward_flags c hdr =
      if leb hdr.rtmetric c.rtmetric
      then bit_or (congestion_flag c) ack_flags_rtmetric_needs_update
      else congestion_flag c

  -- What reception made of `c`, by the five ways that it takes.
  pub data Outcome (c : Node) (hdr : Header) (d : Node) : Type 0 where
    duplicate :
        is_duplicate c ≡ true
        → Answers c c.packetbuf (congestion_flag c) d
        → d.send_queue ≡ c.send_queue
        → d.recent_packets ≡ c.recent_packets
        → d.stats.duprecv ≡ u32 (c.stats.duprecv + 1)
        → Outcome c hdr d
    forwarded :
        is_duplicate c ≡ false
        → 1 < attr c.packetbuf ttl
        → c.rtmetric ≢ 511
        → Answers c (one_hop_on c).packetbuf (forward_flags c hdr) d
        → len d.send_queue ≡ len c.send_queue + 1
        → d.recent_packets ≡ (add_packet_to_recent_packets (one_hop_on c)).recent_packets
        → Outcome c hdr d
    dropped :
        is_duplicate c ≡ false
        → 1 < attr c.packetbuf ttl
        → c.rtmetric ≢ 511
        → Answers c
            (one_hop_on c).packetbuf
            (bit_or (bit_or (forward_flags c hdr) ack_flags_dropped) ack_flags_congested)
            d
        → len d.send_queue ≡ len c.send_queue
        → d.recent_packets ≡ c.recent_packets
        → d.stats.qdrop ≡ u32 (c.stats.qdrop + 1)
        → Outcome c hdr d
    expired :
        is_duplicate c ≡ false
        → attr c.packetbuf ttl ≤ 1
        → Answers c c.packetbuf
            (bit_or (bit_or (congestion_flag c) ack_flags_dropped) ack_flags_lifetime_exceeded)
            d
        → d.send_queue ≡ c.send_queue
        → d.recent_packets ≡ c.recent_packets
        → d.stats.ttldrop ≡ u32 (c.stats.ttldrop + 1)
        → Outcome c hdr d
    unrouted :
        is_duplicate c ≡ false
        → 1 < attr c.packetbuf ttl
        → c.rtmetric ≡ 511
        → d.effects ≡ c.effects
        → d.send_queue ≡ c.send_queue
        → d.recent_packets ≡ c.recent_packets
        → Outcome c hdr d

  -- What the node sends from its queue comes on top.
  send_loaded-Made : (e : Effect) (c : Node) → Made e c.effects → Made e (send_loaded c).effects
  unfolding send_packet
  send_loaded-Made e c h = elim (Option-cases (Neighbour.find c.neighbour_list c.parent)) [
    | inl f ↦ rw (f, send_loaded) h
    | inr (n, f) ↦ rw (f, send_loaded) (inr (inr h))
  ]

  send_item-Made :
      (e : Effect) (c : Node) (i : rime.Item) → Made e c.effects → Made e (send_item c i).effects
  send_item-Made e c i h = elim (Option-cases (rime.queuebuf i)) [
    | inl f ↦ rw (f, send_item) h
    | inr (q, f) ↦
        rw (f, send_item) (send_loaded-Made e (record c { packetbuf = rime.to_packetbuf q }) h)
  ]

  pub send_queued_packet-Made :
      (e : Effect) (c : Node) → Made e c.effects → Made e (send_queued_packet c).effects
  unfolding send_queued_packet
  send_queued_packet-Made e c h = elim (Bool-cases (c.sending == 0)) [
    | inr z ↦ rw (z, Made) h
    | inl z ↦ elim (Option-cases (rime.first c.send_queue)) [
      | inl f ↦ rw (z, f, Made) h
      | inr (i, f) ↦ rw (z, f, Made) (send_item-Made e c i h)
    ]
  ]

  -- What remembering a packet leaves, and what it takes into account.
  pub added_keeps :
      (c : Node)
      → ((add_packet_to_recent_packets c).packetbuf ≡ c.packetbuf)
        × ((add_packet_to_recent_packets c).send_queue ≡ c.send_queue)
        × ((add_packet_to_recent_packets c).rtmetric ≡ c.rtmetric)
  unfolding add_packet_to_recent_packets
  added_keeps c = ground arith

  pub added_recent :
      (c d : Node)
      → d.packetbuf ≡ c.packetbuf
      → d.recent_packets ≡ c.recent_packets
      → d.recent_packet_ptr ≡ c.recent_packet_ptr
      → (add_packet_to_recent_packets d).recent_packets
        ≡ (add_packet_to_recent_packets c).recent_packets
  unfolding add_packet_to_recent_packets
  added_recent c d b r p = ground arith
