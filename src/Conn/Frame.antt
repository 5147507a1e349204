-- ===== src/Conn/Frame.antt =====
-- libp.c: what sending and routing leave alone.
use native.Mathlib.Decide.{ℕ_discrete}
use libp.Base.{ℕ, ◌≡◌, ◌≢◌, ◌∙◌, inl, inr, ==_iff, Bool-cases, refl, ◌==◌, arith}
use libp.Contiki.{Contiki}
use libp.Rime.{Rime}
use libp.Conn.{Node}
use libp.Conn.Send.{send_packet, send_queued_packet, send_ack}
use libp.Conn.Route.{announce, resume, sane_rtmetric, update_parent, update_rtmetric}

module _ ⦃os : Contiki⦄ ⦃rime : Rime⦄ where
  -- The parts of the state that neither sending a packet nor choosing a parent changes.
  pub record Kept (c c' : Node) : Type 0 where
    pub table : c'.neighbour_list ≡ c.neighbour_list
    pub recent : c'.recent_packets ≡ c.recent_packets
    pub recent_ptr : c'.recent_packet_ptr ≡ c.recent_packet_ptr
    pub own : c'.eseqno ≡ c.eseqno
    pub router : c'.is_router ≡ c.is_router
    pub sink : c'.is_sink ≡ c.is_sink
    pub recv : c'.has_recv ≡ c.has_recv
    pub acks : c'.stats.ackrecv ≡ c.stats.ackrecv
    pub received : c'.stats.datarecv ≡ c.stats.datarecv

  Kept-trans : {c d e : Node} → Kept c d → Kept d e → Kept c e
  Kept-trans k l = ground arith

  -- Sending the first packet of the queue also leaves the route and the queue alone.
  pub record Sent (c c' : Node) : Type 0 where
    pub kept : Kept c c'
    pub parent : c'.parent ≡ c.parent
    pub rtmetric : c'.rtmetric ≡ c.rtmetric
    pub seqno : c'.seqno ≡ c.seqno
    pub queue : c'.send_queue ≡ c.send_queue

  pub send_queued_packet-Sent : (c : Node) → Sent c (send_queued_packet c)
  unfolding send_queued_packet send_packet
  send_queued_packet-Sent c = ground arith

  send_ack-Sent : (c : Node) (to flags : ℕ) → Sent c (send_ack c to flags)
  unfolding send_ack
  send_ack-Sent c to flags = ground arith

  -- Choosing a parent touches the route and nothing of the traffic.
  pub record Routed (c c' : Node) : Type 0 where
    pub kept : Kept c c'
    pub rtmetric : c'.rtmetric ≡ c.rtmetric
    pub seqno : c'.seqno ≡ c.seqno
    pub queue : c'.send_queue ≡ c.send_queue
    pub sending : c'.sending ≡ c.sending
    pub buffer : c'.packetbuf ≡ c.packetbuf

  pub update_parent-Routed : (c : Node) → Routed c (update_parent c)
  unfolding update_parent
  update_parent-Routed c = ground arith

  -- The node of `update_rtmetric` before it resumes sending.
  abbrev pub chosen : Node → Node
  chosen c = announce (record (update_parent c) { rtmetric = sane_rtmetric (update_parent c) })

  -- What `update_rtmetric` does at a node that is no sink.
  pub record Updated (c c' : Node) : Type 0 where
    pub kept : Kept c c'
    pub parent : c'.parent ≡ (update_parent c).parent
    pub rtmetric : c'.rtmetric ≡ sane_rtmetric (update_parent c)
    pub seqno : c'.seqno ≡ c.seqno
    pub queue : c'.send_queue ≡ c.send_queue

  chosen-Updated : (c : Node) → Updated c (chosen c)
  chosen-Updated c = ground (arith, update_parent-Routed c)

  resume-Sent : (old : ℕ) (c : Node) → Sent c (resume old c)
  resume-Sent old c = ground (arith, send_queued_packet-Sent c)

  Updated-Sent : {c d e : Node} → Updated c d → Sent d e → Updated c e
  Updated-Sent u s = record {
    kept = Kept-trans u.kept s.kept;
    parent = s.parent ∙ u.parent;
    rtmetric = s.rtmetric ∙ u.rtmetric;
    seqno = s.seqno ∙ u.seqno;
    queue = s.queue ∙ u.queue;
  }

  pub update_rtmetric-Updated : (c : Node) → c.rtmetric ≢ 0 → Updated c (update_rtmetric c)
  unfolding update_rtmetric
  update_rtmetric-Updated c h = elim (Bool-cases (c.rtmetric == 0)) [
    | inl e ↦ absurd (h ((==_iff c.rtmetric 0).0 e))
    | inr e ↦ rw e (Updated-Sent (chosen-Updated c) (resume-Sent c.rtmetric (chosen c)))
  ]

  -- A sink keeps its state.
  pub update_rtmetric-sink : (c : Node) → c.rtmetric ≡ 0 → update_rtmetric c ≡ c
  unfolding update_rtmetric
  update_rtmetric-sink c h = rw ((==_iff c.rtmetric 0).1 h)

  -- The part of this that holds for every node.
  pub record Settled (c c' : Node) : Type 0 where
    pub kept : Kept c c'
    pub seqno : c'.seqno ≡ c.seqno
    pub queue : c'.send_queue ≡ c.send_queue
    pub sink : c.rtmetric ≡ 0 → c'.rtmetric ≡ 0
    pub no_sink : c.rtmetric ≢ 0 → c'.rtmetric ≢ 0

  settle : (c c' : Node) → c.rtmetric ≢ 0 → Updated c c' → Settled c c'
  settle c c' h u = record {
    kept = u.kept;
    seqno = u.seqno;
    queue = u.queue;
    sink = λ z. absurd (h z);
    no_sink = λ _. ground (arith, u.rtmetric);
  }

  Kept-refl : (c : Node) → Kept c c
  Kept-refl c = ground arith

  pub update_rtmetric-Settled : (c : Node) → Settled c (update_rtmetric c)
  update_rtmetric-Settled c = elim (ℕ_discrete c.rtmetric 0) [
    | yes e ↦
        rw (update_rtmetric-sink c e) (record {
          kept = Kept-refl c;
          seqno = refl;
          queue = refl;
          sink = λ z. z;
          no_sink = λ h. h;
        })
    | no h ↦ settle c (update_rtmetric c) h (update_rtmetric-Updated c h)
  ]

  -- The count of acknowledgements, which neither of them touches.
  pub acks-send_queued_packet : (c : Node) → (send_queued_packet c).stats.ackrecv ≡ c.stats.ackrecv
  acks-send_queued_packet c = let s = send_queued_packet-Sent c in s.kept.acks

  pub acks-update_rtmetric : (c : Node) → (update_rtmetric c).stats.ackrecv ≡ c.stats.ackrecv
  acks-update_rtmetric c = let s = update_rtmetric-Settled c in s.kept.acks
