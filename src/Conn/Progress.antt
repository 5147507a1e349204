-- ===== src/Conn/Progress.antt =====
-- libp.c: the retransmissions of a packet end.
use native.Mathlib.Decide.{dec_lt}
use libp.Base.{
  ℕ, zero, suc, ◌+◌, ◌-◌, ◌*◌, ◌%◌, ◌^◌, ◌≤◌, ◌<◌, ◌≡◌, ◌≢◌, ◌∙◌, inl, inr, sym, ap, refl, ==_iff,
  subst, arith, ◌==◌, u8, Bool-cases, Option-cases,
}
use libp.Contiki.{Contiki}
use libp.Rime.{Rime, QueueLaws}
use libp.Conn.{Node}
use libp.Conn.Send.{send_packet}
use libp.Conn.Route.{update_parent, sane_rtmetric, update_rtmetric, announce, resume}
use libp.Conn.Timers.{
  retransmit_not_sent_callback, retransmit_callback, retransmit_current_packet, retransmit_item,
  retransmit_loaded, follow_parent,
}
use libp.Conn.Sequence.{retransmit_callback_lem}
use libp.Conn.Stable.{IsSettled, update_parent-same, sane-same}

module _ ⦃os : Contiki⦄ ⦃rime : Rime⦄ where
  open rime use {len, first, queuebuf, packet_id_bits}

  -- What a retransmission leaves of a settled node.
  record Same (c c' : Node) : Type 0 where
    table : c'.neighbour_list ≡ c.neighbour_list
    parent : c'.parent ≡ c.parent
    current : c'.current_parent ≡ c.current_parent
    rtmetric : c'.rtmetric ≡ c.rtmetric
    transmissions : c'.transmissions ≡ c.transmissions
    limit : c'.max_rexmits ≡ c.max_rexmits
    queue : c'.send_queue ≡ c.send_queue
    seqno : c'.seqno ≡ c.seqno

  -- A settled node whose packet goes to its parent.
  pub record IsSteady (c : Node) : Type 0 where
    pub settled : IsSettled c
    pub current : c.current_parent ≡ c.parent
    pub no_sink : c.rtmetric ≢ 0

  Same-refl : (c : Node) → Same c c
  Same-refl c = ground arith

  Same-trans : (c d e : Node) → Same c d → Same d e → Same c e
  Same-trans c d e k l = ground arith

  Same-IsSteady : (c c' : Node) → IsSteady c → Same c c' → IsSteady c'
  Same-IsSteady c c' s k = record {
    settled = record {
      parent = update_parent-same c c' k.table k.parent ∙ s.settled.parent ∙ sym k.parent;
      rtmetric = k.rtmetric ∙ s.settled.rtmetric ∙ sym (sane-same c c' k.table k.parent);
    };
    current = k.current ∙ s.current ∙ sym k.parent;
    no_sink = ground (arith, k.rtmetric, s.no_sink);
  }

  update_parent-Same : (c : Node) → (update_parent c).parent ≡ c.parent → Same c (update_parent c)
  unfolding update_parent
  update_parent-Same c p = ground arith

  resume_not : (old : ℕ) (c : Node) → c.rtmetric ≡ old → resume old c ≡ c
  resume_not old c e = ground arith

  announce-Same :
      (c : Node) (r : ℕ) → r ≡ c.rtmetric → Same c (announce (record c { rtmetric = r }))
  announce-Same c r e = ground arith

  update_rtmetric-Same : (c : Node) → IsSteady c → Same c (update_rtmetric c)
  unfolding update_rtmetric
  update_rtmetric-Same c s = elim (Bool-cases (c.rtmetric == 0)) [
    | inl z ↦ absurd (s.no_sink ((==_iff c.rtmetric 0).0 z))
    | inr z ↦ rw z (subst (Same c) (sym (resume_not c.rtmetric x known.rtmetric)) known)
  ]
    where
      d : Node
      d = update_parent c

      x : Node
      x = announce (record d { rtmetric = sane_rtmetric d })

      k : Same c d
      k = update_parent-Same c s.settled.parent

      known : Same c x
      known = Same-trans c d x k (
          announce-Same d (sane_rtmetric d)
            (sane-same c d k.table k.parent ∙ sym s.settled.rtmetric ∙ sym k.rtmetric))

  load-Same :
      (c : Node) (b : rime.Buf)
      → c.current_parent ≡ c.parent
      → Same c (retransmit_loaded (follow_parent (record c { packetbuf = b })))
  unfolding send_packet
  load-Same c b e = ground arith

  retransmit_item-Same : (c : Node) (i : rime.Item) → IsSteady c → Same c (retransmit_item c i)
  retransmit_item-Same c i s = elim (Option-cases (queuebuf i)) [
    | inl e ↦ rw (e, retransmit_item) (Same-refl c)
    | inr (q, e) ↦
        let k = update_rtmetric-Same c s in
        rw (e, retransmit_item)
          (Same-trans c (update_rtmetric c) _ k (
            load-Same (update_rtmetric c) (rime.to_packetbuf q)
              (k.current ∙ s.current ∙ sym k.parent)))
  ]

  retransmit_current_packet-Same : (c : Node) → IsSteady c → Same c (retransmit_current_packet c)
  unfolding retransmit_current_packet
  retransmit_current_packet-Same c s = elim (Option-cases (first c.send_queue)) [
    | inl e ↦ rw (e, retransmit_current_packet) (Same-refl c)
    | inr (i, e) ↦ rw (e, retransmit_current_packet) (retransmit_item-Same c i s)
  ]

  -- The node of a firing before it retransmits.
  abbrev ready : Node → Node
  ready c = record c { transmissions = c.transmissions + 3; sending = 0 }

  ready-IsSteady : (c : Node) → IsSteady c → IsSteady (ready c)
  ready-IsSteady c s = record {
    settled = record {
      parent = update_parent-same c (ready c) refl refl ∙ s.settled.parent;
      rtmetric = s.settled.rtmetric ∙ sym (sane-same c (ready c) refl refl);
    };
    current = s.current;
    no_sink = s.no_sink;
  }

  fires_again :
      (c : Node)
      → c.transmissions + 3 < c.max_rexmits
      → c.max_rexmits ≤ 253
      → retransmit_not_sent_callback c ≡ retransmit_current_packet (ready c)
  unfolding retransmit_not_sent_callback retransmit_callback
  fires_again c h b = ground arith

  again-Same :
      (c : Node)
      → IsSteady c
      → c.transmissions + 3 < c.max_rexmits
      → c.max_rexmits ≤ 253
      → Same (ready c) (retransmit_not_sent_callback c)
  again-Same c s h b =
      subst (Same (ready c)) (sym (fires_again c h b))
        (retransmit_current_packet-Same (ready c) (ready-IsSteady c s))

  -- The timer fires `k` times.
  unfoldable pub fired : ℕ → Node → Node
  fired zero c = c
  fired (suc k) c = fired k (retransmit_not_sent_callback c)

module _ ⦃os : Contiki⦄ ⦃rime : Rime⦄ (queues : QueueLaws) where
  open rime use {len, packet_id_bits}

  fires_last :
      (c : Node)
      → c.transmissions ≤ 252
      → c.max_rexmits ≤ c.transmissions + 3
      → (len (retransmit_not_sent_callback c).send_queue ≡ len c.send_queue - 1)
        × ((retransmit_not_sent_callback c).seqno ≡ u8 ((c.seqno + 1) % 2 ^ packet_id_bits))
  unfolding retransmit_not_sent_callback
  fires_last c b h = ground (
    arith,
    retransmit_callback_lem queues (record c { transmissions = u8 (c.transmissions + 3) }),
  )

  -- At a node that is no sink, settled on its route, with the current packet under way to its
  -- parent, at most 252 transmissions and a limit of at most 253 and of at most `3 * (k + 1)`
  -- above the transmissions, `retransmit_not_sent_callback` leaves the queue one packet shorter,
  -- or empty as it was, after at most `k + 1` calls, and the sequence number has gone on by one
  -- within its bits.
  pub retransmission_ends :
      (k : ℕ) (c : Node)
      → IsSteady c
      → c.transmissions ≤ 252
      → c.max_rexmits ≤ 253
      → c.max_rexmits ≤ c.transmissions + 3 * suc k
      → (j : ℕ) × (j ≤ suc k)
        × (len (fired j c).send_queue ≡ len c.send_queue - 1)
        × ((fired j c).seqno ≡ u8 ((c.seqno + 1) % 2 ^ packet_id_bits))
  unfolding fired
  retransmission_ends zero c s b m h =
      let (l, n) = fires_last c b (omega arith) in (1, omega arith, l, n)
  retransmission_ends (suc k) c s b m h = elim (dec_lt (c.transmissions + 3) c.max_rexmits) [
    | no last ↦ let (l, n) = fires_last c b (omega arith) in (1, omega arith, l, n)
    | yes more ↦
        let x = again-Same c s more m in
        let (j, small, l, n) =
          retransmission_ends k (retransmit_not_sent_callback c)
            (Same-IsSteady (ready c) (retransmit_not_sent_callback c) (ready-IsSteady c s) x)
            (omega (arith, x.transmissions)) (omega (arith, x.limit))
            (omega (arith, x.transmissions, x.limit)) in
        (
          suc j,
          omega arith,
          l ∙ ap (λ q. len q - 1) x.queue,
          n ∙ ap (λ q. u8 ((q + 1) % 2 ^ packet_id_bits)) x.seqno,
        )
  ]
