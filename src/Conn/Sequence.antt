-- ===== src/Conn/Sequence.antt =====
-- libp.c: the queue and the sequence numbers of a node's packets.
use native.Mathlib.Decide.{dec_lt}
use native.Mathlib.Nat.{mod-eq_of_lt}
use libp.Base.{
  ℕ, zero, suc, ◌+◌, ◌-◌, ◌/◌, ◌%◌, ◌^◌, ◌≤◌, ◌<◌, ◌≡◌, ◌≢◌, ◌⊎◌, inl, inr, refl, ◌==◌, arith, ◌∷◌,
  Bool-cases, Option-cases, u8, ==_iff,
}
use libp.Contiki.{Contiki}
use libp.Neighbour
use libp.Rime.{Rime, max_rexmit, QueueLaws, ConfigLaws}
use libp.Conn.{Node, ctimer_stop, retransmission, forward_lifetime}
use libp.Conn.Send.{send_next_packet, send_packet}
use libp.Conn.Route.{update_rtmetric}
use libp.Conn.Timers.{timedout, retransmit_callback, retransmit_current_packet, retransmit_item}
use libp.Conn.Api.{originated, drain, drain_len, next_eseqno, send, enqueue_own}
use libp.Conn.Frame.{update_rtmetric-Settled, send_queued_packet-Sent}

pub pow_bounds : (b : ℕ) → 0 < b → b ≤ 8 → (2 ≤ 2 ^ b) × (2 ^ b ≤ 256)
pow_bounds zero h l = absurd (omega arith)
pow_bounds (suc zero) h l = omega arith
pow_bounds (suc (suc zero)) h l = omega arith
pow_bounds (suc (suc (suc zero))) h l = omega arith
pow_bounds (suc (suc (suc (suc zero)))) h l = omega arith
pow_bounds (suc (suc (suc (suc (suc zero))))) h l = omega arith
pow_bounds (suc (suc (suc (suc (suc (suc zero)))))) h l = omega arith
pow_bounds (suc (suc (suc (suc (suc (suc (suc zero))))))) h l = omega arith
pow_bounds (suc (suc (suc (suc (suc (suc (suc (suc zero)))))))) h l = omega arith
pow_bounds (suc (suc (suc (suc (suc (suc (suc (suc (suc b))))))))) h l = absurd (omega arith)

wrapped_cases :
    (e m : ℕ)
    → 2 ≤ m
    → e < m
    → ((e + 1 < m) × ((e + 1) % m ≡ e + 1)) ⊎ ((e + 1 ≡ m) × ((e + 1) % m ≡ 0))
wrapped_cases e m h l = elim (dec_lt (e + 1) m) [
  | yes p ↦ inl (p, mod-eq_of_lt p)
  | no p ↦ inr (omega arith, grind arith)
]

module _ ⦃os : Contiki⦄ ⦃rime : Rime⦄ (queues : QueueLaws) where
  open rime use {len, dequeue, first, packet_id_bits}

  -- The node of `send_next_packet` before it sends, and that of `timedout` before it routes.
  abbrev dequeued : Node → Node
  dequeued c = record c {
    send_queue = dequeue c.send_queue;
    seqno = u8 ((c.seqno + 1) % 2 ^ packet_id_bits);
    effects = ctimer_stop retransmission ∷ c.effects;
    sending = 0;
    transmissions = 0;
  }

  abbrev failed : Node → Node
  failed c = record c {
    sending = 0;
    neighbour_list =
        Neighbour.tx_fail c.neighbour_list (Neighbour.find c.neighbour_list c.current_parent)
          c.max_rexmits;
  }

  -- `send_next_packet` drops the first packet and takes the next sequence number.
  pub send_next_packet_lem :
      (c : Node)
      → (len (send_next_packet c).send_queue ≡ len c.send_queue - 1)
        × ((send_next_packet c).seqno ≡ u8 ((c.seqno + 1) % 2 ^ packet_id_bits))
  unfolding send_next_packet
  send_next_packet_lem c =
      ground (arith, send_queued_packet-Sent (dequeued c), queues.len-dequeue c.send_queue)

  timedout_lem :
      (c : Node)
      → (len (timedout c).send_queue ≡ len c.send_queue - 1)
        × ((timedout c).seqno ≡ u8 ((c.seqno + 1) % 2 ^ packet_id_bits))
  unfolding timedout
  timedout_lem c =
      ground (
        arith,
        update_rtmetric-Settled (failed c),
        send_next_packet_lem (update_rtmetric (failed c)),
      )

  -- The loop of `libp_close` ends with an empty queue, within as many rounds as it has packets.
  len-drain : (k : ℕ) (q : rime.Queue) → len q ≤ k → len (drain k q) ≡ 0
  unfolding drain
  len-drain zero q h = omega arith
  len-drain (suc k) q h = elim (Option-cases (first q)) [
    | inl e ↦ rw (e, drain) (queues.first-none q e)
    | inr (i, e) ↦ rw (e, drain) (len-drain k (dequeue q) (omega (arith, queues.len-dequeue q)))
  ]

  pub len-drain_len : (k : ℕ) (q : rime.Queue) → len q ≤ k → len (drain_len k q) ≡ 0
  unfolding drain_len
  len-drain_len zero q h = omega arith
  len-drain_len (suc k) q h = ground (arith, queues.len-dequeue q, len-drain_len k (dequeue q))

  retransmit_item_keeps :
      (c : Node) (i : rime.Item)
      → ((retransmit_item c i).send_queue ≡ c.send_queue) × ((retransmit_item c i).seqno ≡ c.seqno)
  unfolding send_packet
  retransmit_item_keeps c i = ground (arith, update_rtmetric-Settled c)

  retransmit_current_keeps :
      (c : Node)
      → ((retransmit_current_packet c).send_queue ≡ c.send_queue)
        × ((retransmit_current_packet c).seqno ≡ c.seqno)
  unfolding retransmit_current_packet
  retransmit_current_keeps c = elim (Option-cases (first c.send_queue)) [
    | inl e ↦ rw (e, retransmit_current_packet) (refl, refl)
    | inr (i, e) ↦ rw (e, retransmit_current_packet) (retransmit_item_keeps c i)
  ]

  -- When the retransmission timer fires, a packet that was sent as often as allowed leaves the
  -- queue and the sequence number goes on by one within its bits; otherwise the queue and the
  -- sequence number stay.
  pub retransmit_callback_lem :
      (c : Node)
      → ((c.max_rexmits ≤ c.transmissions)
          × (len (retransmit_callback c).send_queue ≡ len c.send_queue - 1)
          × ((retransmit_callback c).seqno ≡ u8 ((c.seqno + 1) % 2 ^ packet_id_bits)))
        ⊎ ((c.transmissions < c.max_rexmits)
            × ((retransmit_callback c).send_queue ≡ c.send_queue)
            × ((retransmit_callback c).seqno ≡ c.seqno))
  unfolding retransmit_callback
  retransmit_callback_lem c = elim (dec_lt c.transmissions c.max_rexmits) [
    | yes h ↦ inr (ground (arith, h, retransmit_current_keeps (record c { sending = 0 })))
    | no h ↦ inl (ground (arith, h, timedout_lem c))
  ]

  enqueue_own-eseqno : (c : Node) → (enqueue_own c).1.eseqno ≡ c.eseqno
  enqueue_own-eseqno c =
      let b = rime.hdralloc c.packetbuf 4 in
      let life = forward_lifetime (rime.attr b max_rexmit) in
      ground (
        arith,
        send_queued_packet-Sent (record c {
          packetbuf = b;
          calls = c.calls + 1;
          send_queue = (rime.enqueue c.calls c.send_queue b life).1;
        }),
      )

  -- What `libp_send` answers, and what becomes of the packet.
  enqueue_own_lem :
      (c : Node)
      → (((enqueue_own c).0 ≡ 1) × (len (enqueue_own c).1.send_queue ≡ len c.send_queue + 1))
        ⊎ (((enqueue_own c).0 ≡ 0) × (len (enqueue_own c).1.send_queue ≡ len c.send_queue))
  enqueue_own_lem c =
      let b = rime.hdralloc c.packetbuf 4 in
      let life = forward_lifetime (rime.attr b max_rexmit) in
      elim (Bool-cases (rime.enqueue c.calls c.send_queue b life).0) [
        | inl e ↦ inl (
          rw (e, enqueue_own) refl,
          ground (
            arith,
            e,
            queues.len-enqueue c.calls c.send_queue b life,
            send_queued_packet-Sent (record c {
              packetbuf = b;
              calls = c.calls + 1;
              send_queue = (rime.enqueue c.calls c.send_queue b life).1;
            }),
          ),
        )
        | inr e ↦ inr (
          rw (e, enqueue_own) refl,
          ground (arith, e, queues.len-enqueue c.calls c.send_queue b life),
        )
      ]

  -- `libp_send` takes the next sequence number for the node's packets on every path. At an
  -- rtmetric of 0 it returns 1 and leaves the queue; at any other it returns 1 with the queue one
  -- longer, or 0 with the queue as long as before.
  pub send_lem :
      (c : Node) (rexmits : ℕ)
      → ((send c rexmits).1.eseqno ≡ next_eseqno c.eseqno)
        × (((c.rtmetric ≡ 0)
              × ((send c rexmits).0 ≡ 1)
              × ((send c rexmits).1.send_queue ≡ c.send_queue))
            ⊎ ((c.rtmetric ≢ 0)
                × ((((send c rexmits).0 ≡ 1)
                      × (len (send c rexmits).1.send_queue ≡ len c.send_queue + 1))
                    ⊎ (((send c rexmits).0 ≡ 0)
                        × (len (send c rexmits).1.send_queue ≡ len c.send_queue)))))
  unfolding send
  send_lem c rexmits =
      let d = record c {
        packetbuf = originated c.packetbuf c.eseqno rexmits;
        eseqno = next_eseqno c.eseqno;
      } in
      elim (Bool-cases (c.rtmetric == 0)) [
        | inl e ↦
            let z = (==_iff c.rtmetric 0).0 e in rw e (ground arith, inl (z, refl, ground arith))
        | inr e ↦ rw e (enqueue_own-eseqno d, inr (ground arith, enqueue_own_lem d))
      ]

module _ ⦃os : Contiki⦄ ⦃rime : Rime⦄ (config : ConfigLaws) where
  open rime use {packet_id_bits}

  -- Of a number within the bits of a packet id, `libp_send` makes the next one within these bits,
  -- never 0: the successor, or half of the space when it is used up.
  next_eseqno_lem :
      (e : ℕ)
      → e < 2 ^ packet_id_bits
      → (next_eseqno e ≢ 0)
        × (next_eseqno e < 2 ^ packet_id_bits)
        × ((next_eseqno e ≡ e + 1)
            ⊎ ((e + 1 ≡ 2 ^ packet_id_bits) × (next_eseqno e ≡ 2 ^ packet_id_bits / 2)))
  next_eseqno_lem e h =
      let bounds = pow_bounds packet_id_bits config.some_bits config.byte_bits in
      elim (wrapped_cases e (2 ^ packet_id_bits) bounds.0 h) [
        | inl (lt, same) ↦ ground (arith, bounds, same, lt)
        | inr (eq, wrap) ↦ ground (arith, bounds, wrap, eq)
      ]
