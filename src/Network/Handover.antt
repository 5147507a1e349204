-- ===== src/Network/Handover.antt =====
-- libp.c at two nodes: a node sends a packet to its parent, and gets the parent's acknowledgement.
use libp.Base.{
  ℕ, ◌+◌, ◌≡◌, ◌≢◌, ◌≤◌, ◌<◌, inl, inr, refl, ap, ◌∙◌, ◌/◌, Bool, true, false, leb, if◌then◌else◌,
  arith, u8, u16, ==_refl, subst,
}
use Prim.Native.Nat.{bit_or}
use libp.Contiki.{Contiki}
use libp.Rime.{Rime, Header, BufLaws, QueueLaws, sender, packet_id, ttl}
use libp.Conn.{
  Node, unicast_send, max_sending_queue, ack_flags_congested, ack_flags_dropped,
  ack_flags_lifetime_exceeded, ack_flags_rtmetric_needs_update,
}
use libp.Conn.Send.{ack_packet, outgoing}
use libp.Conn.Ack.{is_awaited, handle_ack}
use libp.Conn.Acked.{is_done, Stays, GoesOn, Disposes, handle_ack-Disposes}
use libp.Conn.Receive.{receive_data, is_duplicate, one_hop_on, congestion_flag}
use libp.Conn.Outcome.{
  Made, Outcome, duplicate, forwarded, dropped, expired, unrouted, forward_flags,
}
use libp.Conn.Received.{receive_data-Outcome}

module _ ⦃os : Contiki⦄ ⦃rime : Rime⦄ where
  open rime use {len, attr, addr, header}

  -- What arrives of a packet that the node at `from` sent: its header and its packet id, under the
  -- sender's address.
  pub record Carries (p : rime.Buf) (from : ℕ) (p' : rime.Buf) : Type 0 where
    pub same_header : header p' ≡ header p
    pub same_id : attr p' packet_id ≡ attr p packet_id
    pub by : addr p' sender ≡ from

  -- Where the packet is after the acknowledgement. A packet that was not among the recent ones, and
  -- had time to live, went over into the queue or stayed; one that was among them had gone over
  -- before; one that was not, and had no time left, went out of time.
  pub data Handover (a a' b b' : Node) : Type 0 where
    over :
        is_duplicate b ≡ false
        → 1 < attr b.packetbuf ttl
        → len b'.send_queue ≡ len b.send_queue + 1
        → GoesOn a a'
        → Handover a a' b b'
    known : is_duplicate b ≡ true → b'.send_queue ≡ b.send_queue → GoesOn a a' → Handover a a' b b'
    late :
        is_duplicate b ≡ false
        → attr b.packetbuf ttl ≤ 1
        → b'.send_queue ≡ b.send_queue
        → GoesOn a a'
        → Handover a a' b b'
    kept :
        is_duplicate b ≡ false
        → 1 < attr b.packetbuf ttl
        → len b'.send_queue ≡ len b.send_queue
        → Stays a a'
        → Handover a a' b b'

  -- The acknowledgement that `b` sends, and what `a` makes of it.
  abbrev pub Settles : Node → Node → Node → ℕ → Type 0
  Settles a b b' to =
      (p : rime.Buf) × Made (unicast_send p (addr b.packetbuf sender)) b'.effects
      × ((p' : rime.Buf)
          → Carries p to p'
          → Handover a (handle_ack (record a { packetbuf = p' })) b b')

  -- The flags of the acknowledgements.
  abbrev flags_if : (crowded nearer : Bool) → ℕ
  flags_if crowded nearer =
      let flags = if crowded then bit_or 0 ack_flags_congested else 0 in
      if nearer then bit_or flags ack_flags_rtmetric_needs_update else flags

  abbrev crowded : Node → Bool
  crowded c = leb (max_sending_queue / 2) (len c.send_queue)

  is_done-taken : (a b : Bool) → is_done (u8 (flags_if a b)) ≡ true
  is_done-taken true true = refl
  is_done-taken true false = refl
  is_done-taken false true = refl
  is_done-taken false false = refl

  is_done-dropped :
      (a b : Bool)
      → is_done (u8 (bit_or (bit_or (flags_if a b) ack_flags_dropped) ack_flags_congested)) ≡ false
  is_done-dropped true true = refl
  is_done-dropped true false = refl
  is_done-dropped false true = refl
  is_done-dropped false false = refl

  is_done-expired :
      (a : Bool)
      → is_done
          (u8 (bit_or (bit_or (flags_if a false) ack_flags_dropped) ack_flags_lifetime_exceeded))
        ≡ true
  is_done-expired true = refl
  is_done-expired false = refl

  Disposes-done :
      (flags : ℕ) (c c' : Node) → Disposes flags c c' → is_done flags ≡ true → GoesOn c c'
  Disposes-done flags c c' (inl (e, g)) h = g
  Disposes-done flags c c' (inr (e, s)) h = absurd (ground arith)

  Disposes-not :
      (flags : ℕ) (c c' : Node) → Disposes flags c c' → is_done flags ≡ false → Stays c c'
  Disposes-not flags c c' (inl (e, g)) h = absurd (ground arith)
  Disposes-not flags c c' (inr (e, s)) h = s

module _ ⦃os : Contiki⦄ ⦃rime : Rime⦄ (bufs : BufLaws) (queues : QueueLaws) where
  open rime use {len, attr, addr, header}

  header-ack_packet :
      (b : rime.Buf) (to flags r : ℕ) → (header (ack_packet b to flags r)).flags ≡ u8 flags
  header-ack_packet b to flags r =
      simp (bufs.header-set_attr, bufs.header-set_addr, bufs.header-set_header)

  id-ack_packet :
      (b : rime.Buf) (to flags r : ℕ)
      → attr (ack_packet b to flags r) packet_id ≡ u16 (attr b packet_id)
  id-ack_packet b to flags r = simp (bufs.attr-set_attr)

  id-one_hop_on : (c : Node) → attr (one_hop_on c).packetbuf packet_id ≡ attr c.packetbuf packet_id
  id-one_hop_on c = simp (bufs.attr-set_attr)

  -- The acknowledgement of the packet under way is the awaited one, with the flags it was sent with.
  arrives :
      (a : Node) (b p' : rime.Buf) (from to flags r : ℕ)
      → attr b packet_id ≡ a.seqno
      → a.seqno < 65536
      → a.current_parent ≡ to
      → Carries (ack_packet b from flags r) to p'
      → let a' = record a { packetbuf = p' } in
        (is_awaited a' ≡ true) × ((header p').flags ≡ u8 flags)
  arrives a b p' from to flags r id low cur k = (
    ground (arith, k.by, k.same_id, id-ack_packet b from flags r, ==_refl to, ==_refl a.seqno),
    ap (λ h. h.flags) k.same_header ∙ header-ack_packet b from flags r,
  )

  -- What the sender of the packet does with the acknowledgement, by its flags.
  answered :
      (a : Node) (b p' : rime.Buf) (from to flags r : ℕ)
      → attr b packet_id ≡ a.seqno
      → a.seqno < 65536
      → a.current_parent ≡ to
      → Carries (ack_packet b from flags r) to p'
      → Disposes (u8 flags) a (handle_ack (record a { packetbuf = p' }))
  answered a b p' from to flags r id low cur k =
      let a' = record a { packetbuf = p' } in
      let (awaited, same) = arrives a b p' from to flags r id low cur k in
      subst (λ f. Disposes f a' (handle_ack a')) same (handle_ack-Disposes queues a' awaited)

  -- From what is done with the acknowledgement to what becomes of the packet.
  settle_by :
      (a b b' : Node) (p : rime.Buf) (to flags : ℕ)
      → attr p packet_id ≡ a.seqno
      → a.seqno < 65536
      → a.current_parent ≡ to
      → Made
          (unicast_send
            (ack_packet p (addr b.packetbuf sender) flags b.rtmetric)
            (addr b.packetbuf sender))
          b'.effects
      → ((a' : Node) → Disposes (u8 flags) a a' → Handover a a' b b')
      → Settles a b b' to
  settle_by a b b' p to flags id low cur made h =
      let from = addr b.packetbuf sender in
      (
        ack_packet p from flags b.rtmetric,
        made,
        λ p' k.
            h (handle_ack (record a { packetbuf = p' }))
              (answered a p p' from to flags b.rtmetric id low cur k),
      )

  settle :
      (a b b' : Node) (hdr : Header) (to : ℕ)
      → b.rtmetric ≢ 511
      → attr b.packetbuf packet_id ≡ a.seqno
      → a.seqno < 65536
      → a.current_parent ≡ to
      → Outcome b hdr b'
      → Settles a b b' to
  settle a b b' hdr to r id low cur (duplicate e made queue recent n) =
      let flags = congestion_flag b in
      settle_by a b b' b.packetbuf to flags id low cur made
        (λ a' d. known e queue (Disposes-done (u8 flags) a a' d (is_done-taken (crowded b) false)))
  settle a b b' hdr to r id low cur (forwarded e l nr made queue recent) =
      let flags = forward_flags b hdr in
      settle_by a b b' (one_hop_on b).packetbuf to flags (id-one_hop_on b ∙ id) low cur made
        (λ a' d. over e l queue (
          Disposes-done (u8 flags) a a' d
            (is_done-taken (crowded b) (leb hdr.rtmetric b.rtmetric))))
  settle a b b' hdr to r id low cur (dropped e l nr made queue recent n) =
      let flags = bit_or (bit_or (forward_flags b hdr) ack_flags_dropped) ack_flags_congested in
      settle_by a b b' (one_hop_on b).packetbuf to flags (id-one_hop_on b ∙ id) low cur made
        (λ a' d. kept e l queue (
          Disposes-not (u8 flags) a a' d
            (is_done-dropped (crowded b) (leb hdr.rtmetric b.rtmetric))))
  settle a b b' hdr to r id low cur (expired e l made queue recent n) =
      let flags =
        bit_or (bit_or (congestion_flag b) ack_flags_dropped) ack_flags_lifetime_exceeded in
      settle_by a b b' b.packetbuf to flags id low cur made
        (λ a' d. late e l queue (Disposes-done (u8 flags) a a' d (is_done-expired (crowded b))))
  settle a b b' hdr to r id low cur (unrouted e l nr made queue recent) = absurd (r nr)

  id-outgoing :
      (q : rime.Buf) (limit seqno r : ℕ) → attr (outgoing q limit seqno r) packet_id ≡ u16 seqno
  id-outgoing q limit seqno r = simp (bufs.attr-set_header, bufs.attr-set_attr)

  -- When a packet that a node made ready for its first transmission arrives at another node, whose
  -- rtmetric is neither 0 nor 511, that node's `receive_data` sends an acknowledgement to the
  -- address that the packet came from; and when the acknowledgement arrives at the packet's
  -- sender, whose current parent that node is and whose sequence number has 16 bits, `handle_ack`
  -- takes the first packet off its queue and uses up the sequence number where the packet was
  -- queued, was a duplicate of one of that node's recent packets, or was no duplicate and had a
  -- time to live of at most 1, and leaves both where it was no duplicate, had a longer time to
  -- live, and was not queued.
  pub receive_data-Settles :
      (a b : Node) (q : rime.Buf) (limit from to : ℕ)
      → Carries (outgoing q limit a.seqno a.rtmetric) from b.packetbuf
      → b.rtmetric ≢ 0
      → b.rtmetric ≢ 511
      → a.seqno < 65536
      → a.current_parent ≡ to
      → Settles a b (receive_data b (header b.packetbuf)) to
  receive_data-Settles a b q limit from to k z r low cur =
      let hdr = header b.packetbuf in
      settle a b (receive_data b hdr) hdr to r
        (omega (arith, k.same_id, id-outgoing q limit a.seqno a.rtmetric)) low cur
        (receive_data-Outcome queues b hdr z)
