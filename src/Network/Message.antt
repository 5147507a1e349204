-- ===== src/Network/Message.antt =====
-- libp.c: what a data packet carries from node to node, and the attributes that cross the radio
-- (COLLECT_ATTRIBUTES).
use libp.Base.{
  ℕ, ◌+◌, ◌-◌, ◌%◌, ◌^◌, ◌≤◌, ◌<◌, ◌≡◌, ◌∙◌, refl, Option, none, some, arith, if◌then◌else◌, ltb,
  u16,
}
use native.Mathlib.Nat.{mod-eq_of_lt}
use libp.Contiki.{Contiki}
use libp.Rime.{
  Rime, Attr, AddrAttr, BufLaws, LengthLaws, epacket_id, packet_id, packet_type, hops, ttl,
  max_rexmit, esender,
}
use libp.Conn.{Node}
use libp.Conn.Send.{outgoing}
use libp.Conn.Receive.{one_hop_on}
use libp.Conn.Api.{originated}

module _ ⦃os : Contiki⦄ ⦃rime : Rime⦄ where
  open rime use {Buf, attr, addr, datalen, totlen, hdralloc, node_addr, packet_id_bits}

  -- The widths in bits of the attributes in COLLECT_ATTRIBUTES.
  unfoldable pub attribute_bits : Attr → Option ℕ
  attribute_bits epacket_id = some packet_id_bits
  attribute_bits packet_id = some packet_id_bits
  attribute_bits ttl = some 4
  attribute_bits hops = some 4
  attribute_bits max_rexmit = some 5
  attribute_bits packet_type = some 1
  attribute_bits _ = none

  -- What a data packet says of itself, on the whole of its way.
  pub record Message : Type 0 where
    pub originator : ℕ
    pub number : ℕ
    pub hops : ℕ
    pub ttl : ℕ
    pub rexmits : ℕ
    pub kind : ℕ
    pub size : ℕ

  abbrev pub message : Buf → Message
  message b = record {
    originator = addr b esender;
    number = attr b epacket_id;
    hops = attr b hops;
    ttl = attr b ttl;
    rexmits = attr b max_rexmit;
    kind = attr b packet_type;
    size = totlen b;
  }

  -- One node further on the way.
  abbrev pub further : Message → Message
  further m = record m { hops = m.hops + 1; ttl = m.ttl - 1 }

  -- The message fits the attributes, and its hops and its time to live those of a packet under way.
  pub record Fits (m : Message) : Type 0 where
    pub number : m.number < 2 ^ packet_id_bits
    pub counted : 1 ≤ m.hops
    pub alive : 1 ≤ m.ttl
    pub limit : m.hops + m.ttl ≤ 16
    pub rexmits : m.rexmits < 32
    pub kind : m.kind < 2

  -- What the radio and Rime do to a packet: each attribute crosses with the bits that it has.
  pub record AirLaws (air : Buf → ℕ → Buf) : Type 0 where
    pub attr-air :
        (b : Buf) (from : ℕ) (k : Attr) (w : ℕ)
        → attribute_bits k ≡ some w
        → attr (air b from) k ≡ attr b k % 2 ^ w
    pub esender-air : (b : Buf) (from : ℕ) → addr (air b from) esender ≡ addr b esender
    pub datalen-air : (b : Buf) (from : ℕ) → datalen (air b from) ≡ totlen b
    pub totlen-air : (b : Buf) (from : ℕ) → totlen (air b from) ≡ totlen b

  pub further-Fits : (m : Message) → Fits m → 1 < m.ttl → Fits (further m)
  further-Fits m f l = record {
    number = f.number;
    counted = omega arith;
    alive = omega arith;
    limit = omega (arith, f.limit);
    rexmits = f.rexmits;
    kind = f.kind;
  }

  Message-same :
      (m n : Message)
      → m.originator ≡ n.originator
      → m.number ≡ n.number
      → m.hops ≡ n.hops
      → m.ttl ≡ n.ttl
      → m.rexmits ≡ n.rexmits
      → m.kind ≡ n.kind
      → m.size ≡ n.size
      → m ≡ n
  Message-same m n a b c d e f g = ground arith

  -- A packet with the same attributes, addresses and length says the same.
  pub message-copy :
      (b b' : Buf)
      → ((k : Attr) → attr b k ≡ attr b' k)
      → ((k : AddrAttr) → addr b k ≡ addr b' k)
      → totlen b ≡ totlen b'
      → message b ≡ message b'
  message-copy b b' e f g =
      Message-same (message b) (message b') (f esender) (e epacket_id) (e hops) (e ttl)
        (e max_rexmit) (e packet_type) g

  pub message-air :
      (air : Buf → ℕ → Buf) (b : Buf) (from : ℕ)
      → AirLaws air
      → Fits (message b)
      → message (air b from) ≡ message b
  unfolding attribute_bits
  message-air air b from laws f =
      Message-same _ _ (laws.esender-air b from)
        (laws.attr-air b from epacket_id packet_id_bits refl ∙ mod-eq_of_lt f.number)
        (omega (arith, laws.attr-air b from hops 4 refl))
        (omega (arith, laws.attr-air b from ttl 4 refl))
        (omega (arith, laws.attr-air b from max_rexmit 5 refl))
        (omega (arith, laws.attr-air b from packet_type 1 refl)) (laws.totlen-air b from)

module _ ⦃os : Contiki⦄ ⦃rime : Rime⦄ (bufs : BufLaws) (lengths : LengthLaws) where
  open rime use {Buf, attr, addr, datalen, totlen, hdralloc, node_addr, packet_id_bits}

  pub message-outgoing :
      (b : Buf) (limit seqno rtmetric : ℕ) → message (outgoing b limit seqno rtmetric) ≡ message b
  message-outgoing b limit seqno rtmetric = simp (
    bufs.attr-set_attr, bufs.attr-set_header, bufs.addr-set_attr, lengths.addr-set_header,
    lengths.totlen-set_attr, lengths.totlen-set_header,
  )

  pub message-one_hop_on :
      (c : Node)
      → Fits (message c.packetbuf)
      → 1 < attr c.packetbuf ttl
      → message (one_hop_on c).packetbuf ≡ further (message c.packetbuf)
  message-one_hop_on c f l =
      let b = c.packetbuf in
      let counted : attr (one_hop_on c).packetbuf hops ≡ u16 (attr b hops + 1) =
        simp (bufs.attr-set_attr) in
      let lives : attr (one_hop_on c).packetbuf ttl ≡ u16 (attr b ttl - 1) =
        simp (bufs.attr-set_attr) in
      Message-same (message (one_hop_on c).packetbuf) (further (message b))
        (simp (bufs.addr-set_attr)) (simp (bufs.attr-set_attr)) (omega (arith, f.limit, counted))
        (omega (arith, f.limit, lives)) (simp (bufs.attr-set_attr)) (simp (bufs.attr-set_attr))
        (simp (lengths.totlen-set_attr))

  -- The packet of `libp_send`, with the room for its header.
  pub message-originated :
      (b : Buf) (eseqno rexmits : ℕ)
      → eseqno < 256
      → let b' = hdralloc (originated b eseqno rexmits) 4 in
        message b' ≡ record {
          originator = node_addr;
          number = eseqno;
          hops = 1;
          ttl = 15;
          rexmits = if ltb 31 rexmits then 31 else rexmits;
          kind = attr b packet_type;
          size = totlen b';
        }
  message-originated b eseqno rexmits l =
      let b' = hdralloc (originated b eseqno rexmits) 4 in
      let number : attr b' epacket_id ≡ u16 eseqno =
        simp (bufs.attr-hdralloc, bufs.attr-set_attr, bufs.attr-set_addr) in
      let limit : attr b' max_rexmit ≡ u16 (if ltb 31 rexmits then 31 else rexmits) =
        simp (bufs.attr-hdralloc, bufs.attr-set_attr) in
      Message-same _ _ (simp (lengths.addr-hdralloc, bufs.addr-set_attr, bufs.addr-set_addr))
        (omega (arith, number)) (simp (bufs.attr-hdralloc, bufs.attr-set_attr))
        (simp (bufs.attr-hdralloc, bufs.attr-set_attr)) (ground (arith, limit))
        (simp (bufs.attr-hdralloc, bufs.attr-set_attr, bufs.attr-set_addr)) refl
