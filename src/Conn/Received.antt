-- ===== src/Conn/Received.antt =====
-- libp.c: which way a data packet takes, at a node other than a sink.
use native.Mathlib.Decide.{dec_lt, ℕ_discrete}
use libp.Base.{
  ℕ, ◌+◌, ◌≤◌, ◌<◌, ◌≡◌, ◌≢◌, ◌∙◌, inl, inr, sym, ap, refl, subst, Bool, true, false, arith, leb,
  if◌then◌else◌, u32, Bool-cases,
}
use libp.Contiki.{Contiki}
use libp.Rime.{Rime, Header, QueueLaws, ttl, max_rexmit, sender}
use libp.Conn.{Node, forward_lifetime, min_available_queue_entries, max_sending_queue, unicast_send}
use libp.Conn.Send.{ack_packet, send_ack, send_queued_packet}
use libp.Conn.Receive.{
  add_packet_to_recent_packets, is_duplicate, congestion_flag, one_hop_on, forward, drop_packet,
  expire, receive_new, receive_data,
}
use libp.Conn.Delivery.{receive_data-unrouted}
use libp.Conn.Outcome.{
  Outcome, duplicate, forwarded, dropped, expired, unrouted, forward_flags, send_queued_packet-Made,
  added_keeps, added_recent,
}
use libp.Conn.Frame.{send_queued_packet-Sent}

module _ ⦃os : Contiki⦄ ⦃rime : Rime⦄ where
  open rime use {attr, addr}

  abbrev pub counted : Node → Node
  counted c = record c { stats = record (c.stats) { datarecv = u32 (c.stats.datarecv + 1) } }

  -- A packet that is not known goes to `receive_new`.
  pub to_new :
      (c : Node) (hdr : Header)
      → is_duplicate c ≡ false
      → receive_data c hdr
        ≡ receive_new (counted c) hdr (addr c.packetbuf sender) (congestion_flag c)
  unfolding receive_data
  to_new c hdr e = rw e refl

  new_expired :
      (c : Node) (hdr : Header) (to flags : ℕ)
      → c.rtmetric ≢ 0
      → attr c.packetbuf ttl ≤ 1
      → receive_new c hdr to flags ≡ expire c to flags
  unfolding receive_new
  new_expired c hdr to flags h l = ground arith

  pub new_forwarded :
      (c : Node) (hdr : Header) (to flags : ℕ)
      → c.rtmetric ≢ 0
      → c.rtmetric ≢ 511
      → 1 < attr c.packetbuf ttl
      → receive_new c hdr to flags ≡ forward c hdr to flags
  unfolding receive_new
  new_forwarded c hdr to flags h r l = ground arith

module _ ⦃os : Contiki⦄ ⦃rime : Rime⦄ (queues : QueueLaws) where
  open rime use {attr, addr, len}

  duplicate_lem :
      (c : Node) (hdr : Header) → is_duplicate c ≡ true → Outcome c hdr (receive_data c hdr)
  unfolding receive_data send_ack
  duplicate_lem c hdr e = duplicate e (rw e (inl refl)) (rw e refl) (rw e refl) (rw e refl)

  expired_lem :
      (c : Node) (hdr : Header)
      → is_duplicate c ≡ false
      → c.rtmetric ≢ 0
      → attr c.packetbuf ttl ≤ 1
      → Outcome c hdr (receive_data c hdr)
  unfolding send_ack
  expired_lem c hdr e h l =
      subst (Outcome c hdr)
        (sym (
          to_new c hdr e
          ∙ new_expired (counted c) hdr (addr c.packetbuf sender) (congestion_flag c) h l))
        (expired e l (inl refl) refl refl refl)

  unrouted_lem :
      (c : Node) (hdr : Header)
      → is_duplicate c ≡ false
      → c.rtmetric ≡ 511
      → 1 < attr c.packetbuf ttl
      → Outcome c hdr (receive_data c hdr)
  unrouted_lem c hdr e r l =
      subst (Outcome c hdr) (sym (receive_data-unrouted c hdr e r l))
        (unrouted e l r refl refl refl)

  -- The two ways of a packet that has to go on, from the node with the packet one hop on.
  dropped_lem :
      (c : Node) (hdr : Header) (q : rime.Queue) (k : ℕ)
      → is_duplicate c ≡ false
      → 1 < attr c.packetbuf ttl
      → c.rtmetric ≢ 511
      → len q ≡ len c.send_queue
      → Outcome c hdr (
          drop_packet
            (record (one_hop_on (counted c)) { calls = k; send_queue = q })
            (addr c.packetbuf sender)
            (forward_flags c hdr))
  unfolding send_ack
  dropped_lem c hdr q k e l r same = dropped e l r (inl refl) same refl refl

  forwarded_lem :
      (c : Node) (hdr : Header) (q : rime.Queue) (k : ℕ)
      → is_duplicate c ≡ false
      → 1 < attr c.packetbuf ttl
      → c.rtmetric ≢ 511
      → len q ≡ len c.send_queue + 1
      → Outcome c hdr (
          send_queued_packet (
            send_ack
              (add_packet_to_recent_packets
                (record (one_hop_on (counted c)) { calls = k; send_queue = q }))
              (addr c.packetbuf sender)
              (forward_flags c hdr)))
  unfolding send_ack
  forwarded_lem c hdr q k e l r more =
      let d = record (one_hop_on (counted c)) { calls = k; send_queue = q } in
      let to = addr c.packetbuf sender in
      let x = send_ack (add_packet_to_recent_packets d) to (forward_flags c hdr) in
      let sent = send_queued_packet-Sent x in
      let (buf, queue, rt) = added_keeps d in
      forwarded e l r
        (send_queued_packet-Made _ x (
          inl (
            ap (λ b. unicast_send (ack_packet b to (forward_flags c hdr) c.rtmetric) to) (sym buf)
            ∙ ap
                (λ n.
                  unicast_send
                    (ack_packet (add_packet_to_recent_packets d).packetbuf to (forward_flags c hdr)
                      n)
                    to)
                (sym rt))))
        (ap len (sent.queue ∙ queue) ∙ more)
        (sent.kept.recent ∙ added_recent (one_hop_on c) d refl refl refl)

  -- The attempt to put the packet into the queue.
  abbrev attempt : Node → Bool × rime.Queue
  attempt c =
      let b = (one_hop_on c).packetbuf in
      rime.enqueue c.calls c.send_queue b (forward_lifetime (attr b max_rexmit))

  len-attempt :
      (c : Node) (b : Bool)
      → (attempt c).0 ≡ b
      → len (attempt c).1 ≡ len c.send_queue + (if b then 1 else 0)
  len-attempt c b e =
      let p = (one_hop_on c).packetbuf in
      queues.len-enqueue c.calls c.send_queue p (forward_lifetime (attr p max_rexmit))
      ∙ ap (λ ok. len c.send_queue + (if ok then 1 else 0)) e

  forward_lem :
      (c : Node) (hdr : Header)
      → is_duplicate c ≡ false
      → c.rtmetric ≢ 511
      → 1 < attr c.packetbuf ttl
      → Outcome c hdr (forward (counted c) hdr (addr c.packetbuf sender) (congestion_flag c))
  unfolding forward
  forward_lem c hdr e r l =
      elim (Bool-cases (leb (len c.send_queue + min_available_queue_entries) max_sending_queue)) [
        | inr full ↦ rw full (dropped_lem c hdr c.send_queue c.calls e l r refl)
        | inl room ↦ elim (Bool-cases (attempt c).0) [
          | inl ok ↦
              rw (room, ok)
                (forwarded_lem c hdr (attempt c).1 (c.calls + 1) e l r (len-attempt c true ok))
          | inr no_room ↦
              rw (room, no_room)
                (dropped_lem c hdr (attempt c).1 (c.calls + 1) e l r
                  (omega (arith, len-attempt c false no_room)))
        ]
      ]

  goes_on_lem :
      (c : Node) (hdr : Header)
      → is_duplicate c ≡ false
      → c.rtmetric ≢ 0
      → c.rtmetric ≢ 511
      → 1 < attr c.packetbuf ttl
      → Outcome c hdr (receive_data c hdr)
  goes_on_lem c hdr e z r l =
      subst (Outcome c hdr)
        (sym (
          to_new c hdr e
          ∙ new_forwarded (counted c) hdr (addr c.packetbuf sender) (congestion_flag c) z r l))
        (forward_lem c hdr e r l)

  -- A data packet that reaches a node whose rtmetric is not 0 meets one of five outcomes. A
  -- duplicate is acknowledged and counted. Otherwise, with a time to live above 1 and an rtmetric
  -- other than 511, it is queued, remembered and acknowledged, or dropped, acknowledged as dropped
  -- at a congested node, and counted; with a time to live of at most 1 it is acknowledged as
  -- dropped with its lifetime exceeded, and counted; and with a time to live above 1 and the
  -- rtmetric 511 nothing is sent. In all cases but the queued one the queue is as long as before
  -- and the ring of recent packets stays.
  pub receive_data-Outcome :
      (c : Node) (hdr : Header) → c.rtmetric ≢ 0 → Outcome c hdr (receive_data c hdr)
  receive_data-Outcome c hdr z = elim (Bool-cases (is_duplicate c)) [
    | inl e ↦ duplicate_lem c hdr e
    | inr e ↦ elim (dec_lt 1 (attr c.packetbuf ttl)) [
      | no l ↦ expired_lem c hdr e z (omega arith)
      | yes l ↦ elim (ℕ_discrete c.rtmetric 511) [
        | yes r ↦ unrouted_lem c hdr e r l
        | no r ↦ goes_on_lem c hdr e z r l
      ]
    ]
  ]
