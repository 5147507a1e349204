-- ===== src/Conn/Recent.antt =====
-- libp.c: the ring of recent packets recognises a packet for as long as it holds it.
use libp.Base.{
  ℕ, zero, suc, ◌+◌, ◌%◌, ◌≤◌, ◌<◌, ◌≡◌, ◌⊎◌, inl, inr, refl, ==_refl, true, ltb, arith, Option,
  none, some, List, [], ◌∷◌, Bool-cases, length, get_or, length-set, get_or-set_self, get_or-set_ne,
  u8,
}
use libp.Contiki.{Contiki}
use libp.Rime.{Rime, esender, epacket_id}
use libp.Conn.{Node, RecentPacket}
use libp.Conn.Receive.{add_packet_to_recent_packets, recent_packet, is_recent}

module _ ⦃os : Contiki⦄ ⦃rime : Rime⦄ where
  open rime use {Buf, datalen, addr, attr}

  -- The ring has its sixteen places, and the index is one of them.
  pub record IsRing (c : Node) : Type 0 where
    pub places : length c.recent_packets ≡ 16
    pub index : c.recent_packet_ptr < 16

  pub add-IsRing : (c : Node) → IsRing c → IsRing (add_packet_to_recent_packets c)
  unfolding add_packet_to_recent_packets
  add-IsRing c r =
      ground
        (arith, length-set c.recent_packets c.recent_packet_ptr (some (recent_packet c.packetbuf)))

  -- The packets of the given buffers, one after the other.
  unfoldable pub add_packets : Node → List Buf → Node
  add_packets c [] = c
  add_packets c (b ∷ bs) =
      add_packets (add_packet_to_recent_packets (record c { packetbuf = b })) bs

  pub is_recent-here :
      (rs : List (Option RecentPacket)) (i o e : ℕ) (r : RecentPacket)
      → get_or rs i none ≡ some r
      → r.originator ≡ o
      → r.eseqno ≡ e
      → is_recent rs o e ≡ true
  unfolding is_recent
  is_recent-here [] i o e r h ho he = cc
  is_recent-here (x ∷ rs) zero o e r h ho he = ground (arith, ==_refl o, ==_refl e)
  is_recent-here (x ∷ rs) (suc i) o e r h ho he = ground (arith, is_recent-here rs i o e r h ho he)

  -- An entry stays while the index has not come round to it: `k` places are left.
  pub record Holds (c : Node) (i k : ℕ) (r : RecentPacket) : Type 0 where
    pub ring : IsRing c
    pub entry : get_or c.recent_packets i none ≡ some r
    pub place : i < 16
    pub ahead : (c.recent_packet_ptr + k) % 16 ≡ i
    pub left : k < 16

  pub Holds-step :
      (c : Node) (b : Buf) (i k : ℕ) (r : RecentPacket)
      → Holds c i (suc k) r
      → (Holds (add_packet_to_recent_packets (record c { packetbuf = b })) i k r)
        ⊎ (Holds (add_packet_to_recent_packets (record c { packetbuf = b })) i (suc k) r)
  unfolding add_packet_to_recent_packets
  Holds-step c b i k r h = elim (Bool-cases (ltb 4 (datalen b))) [
    | inl big ↦ inl (
        ground (
          arith,
          big,
          length-set c.recent_packets c.recent_packet_ptr (some (recent_packet b)),
          get_or-set_ne c.recent_packets c.recent_packet_ptr i (some (recent_packet b)) none,
        ))
    | inr small ↦ inr (ground (arith, small))
  ]

  Holds-packets :
      (bs : List Buf) (c : Node) (i k : ℕ) (r : RecentPacket)
      → Holds c i k r
      → length bs ≤ k
      → get_or (add_packets c bs).recent_packets i none ≡ some r
  unfolding add_packets
  Holds-packets [] c i k r h l = h.entry
  Holds-packets (b ∷ bs) c i zero r h l = absurd (omega arith)
  Holds-packets (b ∷ bs) c i (suc k) r h l = elim (Holds-step c b i k r h) [
    | inl h' ↦ Holds-packets bs _ i k r h' (omega arith)
    | inr h' ↦ Holds-packets bs _ i (suc k) r h' (omega arith)
  ]

  pub Holds-added :
      (c : Node)
      → IsRing c
      → 4 < datalen c.packetbuf
      → Holds (add_packet_to_recent_packets c) c.recent_packet_ptr 15 (recent_packet c.packetbuf)
  unfolding add_packet_to_recent_packets
  Holds-added c r big = ground (
    arith,
    length-set c.recent_packets c.recent_packet_ptr (some (recent_packet c.packetbuf)),
    get_or-set_self c.recent_packets c.recent_packet_ptr (some (recent_packet c.packetbuf)) none,
  )

  -- In a ring of sixteen places with its index in range, a packet with more data than a header
  -- that was added is recognised by its originator and number, also after up to fifteen more
  -- packets.
  pub is_recent-add_packets :
      (c : Node) (bs : List Buf)
      → IsRing c
      → 4 < datalen c.packetbuf
      → length bs ≤ 15
      → is_recent
          (add_packets (add_packet_to_recent_packets c) bs).recent_packets
          (addr c.packetbuf esender)
          (u8 (attr c.packetbuf epacket_id))
        ≡ true
  is_recent-add_packets c bs r big l =
      is_recent-here (add_packets (add_packet_to_recent_packets c) bs).recent_packets
        c.recent_packet_ptr (addr c.packetbuf esender) (u8 (attr c.packetbuf epacket_id))
        (recent_packet c.packetbuf)
        (Holds-packets bs (add_packet_to_recent_packets c) c.recent_packet_ptr 15
          (recent_packet c.packetbuf) (Holds-added c r big) l)
        refl refl
