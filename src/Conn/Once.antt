-- ===== src/Conn/Once.antt =====
-- libp.c: a sink delivers a packet once.
use libp.Base.{
  ℕ, zero, suc, ◌≤◌, ◌<◌, ◌≡◌, ◌⊎◌, inl, inr, sym, ◌∙◌, ap, true, false, arith, none, some, List,
  [], ◌∷◌, length, get_or,
}
use libp.Contiki.{Contiki}
use libp.Rime.{Rime, Header, DataLaws, esender, epacket_id}
use libp.Conn.{Node, RecentPacket}
use libp.Conn.Receive.{add_packet_to_recent_packets, recent_packet, is_duplicate, receive_data}
use libp.Conn.Recent.{IsRing, Holds, Holds-step, Holds-added, is_recent-here}
use libp.Conn.Sink.{
  Same, receive_new-Same, receive_data-Same, deliveries, deliveries-again, Delivers,
  receive-Delivers,
}

module _ ⦃os : Contiki⦄ ⦃rime : Rime⦄ where
  open rime use {Buf, datalen, addr, attr, header}

  -- The packets of the given buffers arrive, one after the other.
  unfoldable pub receives : List Buf → Node → Node
  receives [] c = c
  receives (b ∷ bs) c = receives bs (receive_data (record c { packetbuf = b }) (header b))

  Holds-Same : (c d : Node) (i k : ℕ) (r : RecentPacket) → Holds c i k r → Same c d → Holds d i k r
  Holds-Same c d i k r h s = record {
    ring = record {
      places = ap length s.recent ∙ h.ring.places;
      index = omega (arith, s.index, h.ring.index);
    };
    entry = ap (λ rs. get_or rs i none) s.recent ∙ h.entry;
    place = h.place;
    ahead = omega (arith, s.index, h.ahead);
    left = h.left;
  }

  added-rtmetric : (c : Node) → (add_packet_to_recent_packets c).rtmetric ≡ c.rtmetric
  unfolding add_packet_to_recent_packets
  added-rtmetric c = ground arith

  receive-rtmetric : (c : Node) (hdr : Header) → c.rtmetric ≡ 0 → (receive_data c hdr).rtmetric ≡ 0
  receive-rtmetric c hdr z = elim (receive_data-Same c hdr z) [
    | inl s ↦ s.rtmetric ∙ z
    | inr s ↦ s.rtmetric ∙ added-rtmetric c ∙ z
  ]

  receive-Holds :
      (c : Node) (b : Buf) (i k : ℕ) (r : RecentPacket)
      → c.rtmetric ≡ 0
      → Holds c i (suc k) r
      → let d = receive_data (record c { packetbuf = b }) (header b) in
        Holds d i k r ⊎ Holds d i (suc k) r
  receive-Holds c b i k r z h =
      let x = record c { packetbuf = b } in
      let d = receive_data x (header b) in
      elim (receive_data-Same x (header b) z) [
        | inl s ↦ inr (
            Holds-Same x d i (suc k) r
              (record {
                ring = record { places = h.ring.places; index = h.ring.index };
                entry = h.entry;
                place = h.place;
                ahead = h.ahead;
                left = h.left;
              })
              s)
        | inr s ↦ elim (Holds-step c b i k r h) [
          | inl h' ↦ inl (Holds-Same (add_packet_to_recent_packets x) d i k r h' s)
          | inr h' ↦ inr (Holds-Same (add_packet_to_recent_packets x) d i (suc k) r h' s)
        ]
      ]

  receives-entry :
      (bs : List Buf) (c : Node) (i k : ℕ) (r : RecentPacket)
      → c.rtmetric ≡ 0
      → Holds c i k r
      → length bs ≤ k
      → get_or (receives bs c).recent_packets i none ≡ some r
  unfolding receives
  receives-entry [] c i k r z h l = h.entry
  receives-entry (b ∷ bs) c i zero r z h l = absurd (omega arith)
  receives-entry (b ∷ bs) c i (suc k) r z h l =
      let d = receive_data (record c { packetbuf = b }) (header b) in
      let zd = receive-rtmetric (record c { packetbuf = b }) (header b) z in
      elim (receive-Holds c b i k r z h) [
        | inl h' ↦ receives-entry bs d i k r zd h' (omega arith)
        | inr h' ↦ receives-entry bs d i (suc k) r zd h' (omega arith)
      ]

  -- The packet with this originator and number is known.
  known :
      (c : Node) (b : Buf) (i : ℕ) (r : RecentPacket)
      → get_or c.recent_packets i none ≡ some r
      → r.originator ≡ addr b esender
      → r.eseqno ≡ attr b epacket_id
      → is_duplicate (record c { packetbuf = b }) ≡ true
  known c b i r e o n =
      is_recent-here c.recent_packets i (addr b esender) (attr b epacket_id) r e o n

module _ ⦃os : Contiki⦄ ⦃rime : Rime⦄ (data_laws : DataLaws) where
  open rime use {Buf, datalen, addr, attr, header}

  -- At a sink with a whole ring of recent packets and a receive callback, a data packet with more
  -- data than a header and a number of one byte, which the ring does not recognise, is delivered
  -- once, by the last call that its reception makes; a copy of it, with its originator and number,
  -- that arrives after up to fifteen more data packets is not delivered.
  pub receives_once :
      (c : Node) (b b' : Buf) (bs : List Buf)
      → c.rtmetric ≡ 0
      → IsRing c
      → c.has_recv ≡ true
      → 4 < datalen b
      → attr b epacket_id < 256
      → is_duplicate (record c { packetbuf = b }) ≡ false
      → length bs ≤ 15
      → addr b' esender ≡ addr b esender
      → attr b' epacket_id ≡ attr b epacket_id
      → let d = receives (b ∷ []) c in
        let e = receives bs d in
        Delivers c b d × (deliveries (receives (b' ∷ []) e).effects ≡ deliveries e.effects)
  unfolding receives Delivers
  receives_once c b b' bs z ring recv big byte new few same_origin same_number =
      let x = record c { packetbuf = b } in
      let d = receive_data x (header b) in
      let e = receives bs d in
      let h =
        Holds-Same (add_packet_to_recent_packets x) d c.recent_packet_ptr 15 (recent_packet b)
          (Holds-added x (record { places = ring.places; index = ring.index }) big)
          (receive_new-Same x (header b) new z) in
      let entry =
        receives-entry bs d c.recent_packet_ptr 15 (recent_packet b)
          (receive-rtmetric x (header b) z) h few in
      (
        receive-Delivers data_laws x (header b) z big recv new,
        deliveries-again (record e { packetbuf = b' }) (header b')
            (known e b' c.recent_packet_ptr (recent_packet b) entry (sym same_origin)
              (omega (arith, same_number))),
      )
