-- ===== src/Conn/Sink.antt =====
-- libp.c: the data packets that a sink receives.
use libp.Base.{
  ℕ, ◌+◌, ◌<◌, ◌≡◌, ◌⊎◌, inl, inr, refl, sym, subst, ◌∙◌, ap, true, false, arith, ltb, List, [],
  ◌∷◌, Bool-cases, Option-cases, u8,
}
use libp.Contiki.{Contiki}
use libp.Rime.{Rime, Header, DataLaws, esender, epacket_id, hops, sender}
use libp.Conn.{Node, Effect, deliver}
use libp.Conn.Send.{send_ack}
use libp.Conn.Received.{counted}
use libp.Conn.Receive.{
  add_packet_to_recent_packets, is_duplicate, receive_data, receive_new, receive_at_sink,
  deliver_packet, ack_at_sink, again_received, congestion_flag,
}

module _ ⦃os : Contiki⦄ ⦃rime : Rime⦄ where
  open rime use {Buf, datalen, addr, attr, header}

  -- The calls of the receive callback.
  unfoldable pub deliveries : List Effect → ℕ
  deliveries [] = 0
  deliveries (deliver o s h ∷ es) = deliveries es + 1
  deliveries (_ ∷ es) = deliveries es

  abbrev pub delivered : Buf → Effect
  delivered b = deliver (addr b esender) (u8 (attr b epacket_id)) (u8 (attr b hops))

  -- The packet in `b` is delivered, as the last call, and once.
  unfoldable pub Delivers : Node → Buf → Node → Type 0
  Delivers c b d =
      (es : List Effect) × (d.effects ≡ delivered b ∷ es) × (deliveries es ≡ deliveries c.effects)

  -- What a reception leaves of a sink: the ring as it was, or with the packet in it.
  pub record Same (c d : Node) : Type 0 where
    pub recent : d.recent_packets ≡ c.recent_packets
    pub index : d.recent_packet_ptr ≡ c.recent_packet_ptr
    pub rtmetric : d.rtmetric ≡ c.rtmetric

  Same-trans : {c d e : Node} → Same c d → Same d e → Same c e
  Same-trans k l = ground arith

  ack_at_sink-Same : (c : Node) (to : ℕ) → Same c (ack_at_sink c to)
  unfolding send_ack
  ack_at_sink-Same c to = elim (Option-cases (rime.queuebuf_new c.calls c.packetbuf)) [
    | inl e ↦ rw (e, ack_at_sink) (record { recent = refl; index = refl; rtmetric = refl })
    | inr (q, e) ↦ rw (e, ack_at_sink) (record { recent = refl; index = refl; rtmetric = refl })
  ]

  deliver_packet-Same : (c : Node) → Same c (deliver_packet c)
  deliver_packet-Same c = ground arith

  at_sink-Same : (c : Node) (to : ℕ) → Same (add_packet_to_recent_packets c) (receive_at_sink c to)
  unfolding receive_at_sink
  at_sink-Same c to =
      let x = add_packet_to_recent_packets c in
      Same-trans (ack_at_sink-Same x to) (deliver_packet-Same (ack_at_sink x to))

  again :
      (c : Node) (hdr : Header)
      → is_duplicate c ≡ true
      → receive_data c hdr
        ≡ again_received (counted c) (addr c.packetbuf sender) (congestion_flag c)
  unfolding receive_data
  again c hdr e = rw e refl

  anew :
      (c : Node) (hdr : Header)
      → is_duplicate c ≡ false
      → c.rtmetric ≡ 0
      → receive_data c hdr ≡ receive_at_sink (counted c) (addr c.packetbuf sender)
  unfolding receive_data receive_new
  anew c hdr e z = rw (e, z) refl

  added-Same :
      (c : Node) → Same (add_packet_to_recent_packets c) (add_packet_to_recent_packets (counted c))
  unfolding add_packet_to_recent_packets
  added-Same c = elim (Bool-cases (ltb 4 (datalen c.packetbuf))) [
    | inl e ↦ rw e (record { recent = refl; index = refl; rtmetric = refl })
    | inr e ↦ rw e (record { recent = refl; index = refl; rtmetric = refl })
  ]

  pub receive_new-Same :
      (c : Node) (hdr : Header)
      → is_duplicate c ≡ false
      → c.rtmetric ≡ 0
      → Same (add_packet_to_recent_packets c) (receive_data c hdr)
  receive_new-Same c hdr e z =
      rw (anew c hdr e z)
        (Same-trans (added-Same c) (at_sink-Same (counted c) (addr c.packetbuf sender)))

  pub receive_data-Same :
      (c : Node) (hdr : Header)
      → c.rtmetric ≡ 0
      → Same c (receive_data c hdr) ⊎ Same (add_packet_to_recent_packets c) (receive_data c hdr)
  unfolding send_ack
  receive_data-Same c hdr z = elim (Bool-cases (is_duplicate c)) [
    | inl e ↦ inl (rw (again c hdr e) (record { recent = refl; index = refl; rtmetric = refl }))
    | inr e ↦ inr (receive_new-Same c hdr e z)
  ]

  pub deliveries-again :
      (c : Node) (hdr : Header)
      → is_duplicate c ≡ true
      → deliveries (receive_data c hdr).effects ≡ deliveries c.effects
  unfolding deliveries send_ack
  deliveries-again c hdr e = rw (again c hdr e) refl

module _ ⦃os : Contiki⦄ ⦃rime : Rime⦄ (data_laws : DataLaws) where
  open rime use {Buf, datalen, addr, attr, header}

  deliver_lem :
      (c : Node)
      → 4 < datalen c.packetbuf
      → c.has_recv ≡ true
      → (deliver_packet c).effects ≡ delivered c.packetbuf ∷ c.effects
  deliver_lem c big recv =
      let b = c.packetbuf in
      let some_data : ltb 0 (datalen (rime.hdrreduce b 4)) ≡ true =
        ground (arith, data_laws.datalen-hdrreduce b 4) in
      rw
        (
          some_data,
          recv,
          data_laws.addr-hdrreduce b 4 esender,
          data_laws.attr-hdrreduce b 4 epacket_id,
          data_laws.attr-hdrreduce b 4 hops,
        )
        refl

  -- The acknowledgement delivers nothing, and the packet is in the buffer after it.
  ack_at_sink_keeps :
      (c : Node) (to : ℕ)
      → ((ack_at_sink c to).packetbuf ≡ c.packetbuf)
        × ((ack_at_sink c to).has_recv ≡ c.has_recv)
        × (deliveries (ack_at_sink c to).effects ≡ deliveries c.effects)
  unfolding send_ack deliveries
  ack_at_sink_keeps c to = elim (Option-cases (rime.queuebuf_new c.calls c.packetbuf)) [
    | inl e ↦ rw (e, ack_at_sink) (refl, refl, refl)
    | inr (q, e) ↦
        rw (e, ack_at_sink) (data_laws.to_packetbuf-new c.calls c.packetbuf q e, refl, refl)
  ]

  added_keeps :
      (c : Node)
      → ((add_packet_to_recent_packets c).packetbuf ≡ c.packetbuf)
        × ((add_packet_to_recent_packets c).has_recv ≡ c.has_recv)
        × ((add_packet_to_recent_packets c).effects ≡ c.effects)
  unfolding add_packet_to_recent_packets
  added_keeps c = ground arith

  at_sink-Delivers :
      (c : Node) (to : ℕ)
      → 4 < datalen c.packetbuf
      → c.has_recv ≡ true
      → Delivers c c.packetbuf (receive_at_sink c to)
  unfolding receive_at_sink Delivers
  at_sink-Delivers c to big recv =
      let x = add_packet_to_recent_packets c in
      let y = ack_at_sink x to in
      let (b1, r1, e1) = added_keeps c in
      let (b2, r2, e2) = ack_at_sink_keeps x to in
      let same : y.packetbuf ≡ c.packetbuf = b2 ∙ b1 in
      (
        y.effects,
        deliver_lem y (subst (λ b. 4 < datalen b) (sym same) big) (r2 ∙ r1 ∙ recv)
            ∙ ap (λ b. delivered b ∷ y.effects) same,
        e2 ∙ ap deliveries e1,
      )

  pub receive-Delivers :
      (c : Node) (hdr : Header)
      → c.rtmetric ≡ 0
      → 4 < datalen c.packetbuf
      → c.has_recv ≡ true
      → is_duplicate c ≡ false
      → Delivers c c.packetbuf (receive_data c hdr)
  unfolding Delivers
  receive-Delivers c hdr z big recv new =
      rw (anew c hdr new z) (at_sink-Delivers (counted c) (addr c.packetbuf sender) big recv)
