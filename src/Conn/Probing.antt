-- ===== src/Conn/Probing.antt =====
-- libp.c: `proactive_probing_callback`.
use libp.Base.{
  ℕ, ◌+◌, ◌*◌, ◌%◌, ◌≤◌, ◌<◌, ◌≡◌, ◌≢◌, ◌⊎◌, inl, inr, refl, ap, ◌∙◌, Bool, true, false, ◌==◌,
  ==_refl, if◌then◌else◌, none, some, List, [], ◌∷◌, has, arith, Bool-cases, Option-cases,
}
use libp.Contiki.{Contiki}
use libp.Neighbour
use libp.Neighbour.{Neighbour}
use libp.Metric.{num_metrics}
use libp.Rime.{Rime, QueueLaws}
use libp.Conn.{
  Node, forward_lifetime, emit, draw, drawn, ctimer_set, proactive_probing, probe,
  proactive_probing_rexmits,
}
use libp.Conn.Probe.{
  dummy_packet, enqueue_dummy_packet, unknown_in, probe_neighbour, probe_unknown,
  proactive_probing_callback,
}
use libp.Conn.Send.{send_queued_packet}
use libp.Conn.Frame.{send_queued_packet-Sent}

module _ ⦃os : Contiki⦄ ⦃rime : Rime⦄ where
  open os use {items}
  open rime use {first, len}

  -- A listed neighbour that would be nearer to the sink, with no estimate of its link.
  abbrev pub Candidate : Node → ℕ → Type 0
  Candidate c n =
      let x = c.neighbour_list.mem n in
      (has n (items c.neighbour_list.chain) ≡ true)
      × (x.rtmetric + 8 < c.rtmetric)
      × (x.lm.num_estimates ≡ 0)

  -- What probing leaves of a node: its route and its table, and at most one packet in a queue that
  -- was empty.
  pub record Probed (c d : Node) : Type 0 where
    pub parent : d.parent ≡ c.parent
    pub rtmetric : d.rtmetric ≡ c.rtmetric
    pub table : d.neighbour_list ≡ c.neighbour_list
    pub queue :
        (d.send_queue ≡ c.send_queue)
        ⊎ ((n : ℕ) × Candidate c n
            × (c.rtmetric ≢ 511)
            × (first c.send_queue ≡ none)
            × (len d.send_queue ≤ 1))

  unknown_in-some :
      (m : ℕ → Neighbour) (ps : List ℕ) (r n : ℕ)
      → unknown_in m ps r ≡ some n
      → (has n ps ≡ true) × ((m n).rtmetric + 8 < r) × ((m n).lm.num_estimates ≡ 0)
  unfolding unknown_in num_metrics
  unknown_in-some m [] r n e = cc
  unknown_in-some m (p ∷ ps) r n e = ground (arith, unknown_in-some m ps r n, ==_refl p)

module _ ⦃os : Contiki⦄ ⦃rime : Rime⦄ (queues : QueueLaws) where
  open os use {items, clock_second}
  open rime use {first, len, enqueue}

  -- The dummy packet goes into the queue, or the queue is as long as before.
  record Tried (c d : Node) : Type 0 where
    rtmetric : d.rtmetric ≡ c.rtmetric
    table : d.neighbour_list ≡ c.neighbour_list
    queue : len d.send_queue ≤ len c.send_queue + 1

  enqueue-Tried : (c : Node) (rexmits : ℕ) → Tried c (enqueue_dummy_packet c rexmits).1
  unfolding enqueue_dummy_packet
  enqueue-Tried c rexmits = elim (Option-cases (Neighbour.find c.neighbour_list c.parent)) [
    | inl e ↦
        rw (e, enqueue_dummy_packet) (record { rtmetric = refl; table = refl; queue = omega arith })
    | inr (n, e) ↦
        rw (e, enqueue_dummy_packet)
          (record {
            rtmetric = refl;
            table = refl;
            queue = ground (
              arith,
              queues.len-enqueue c.calls c.send_queue (dummy_packet c.packetbuf c.eseqno rexmits)
                  (forward_lifetime rexmits),
            );
          })
  ]

  Tried-sent : (c d : Node) (b : Bool) → Tried c d → Tried c (if b then send_queued_packet d else d)
  Tried-sent c d true t =
      let s = send_queued_packet-Sent d in
      record {
        rtmetric = s.rtmetric ∙ t.rtmetric;
        table = s.kept.table ∙ t.table;
        queue = omega (arith, ap len s.queue, t.queue);
      }
  Tried-sent c d false t = t

  probe-Tried : (c : Node) (addr : ℕ) → Tried c (probe_neighbour c addr)
  probe-Tried c addr =
      let x : Node = record c { parent = addr } in
      let (queued, d) = enqueue_dummy_packet x proactive_probing_rexmits in
      let t = Tried-sent x d queued (enqueue-Tried x proactive_probing_rexmits) in
      record { rtmetric = t.rtmetric; table = t.table; queue = t.queue }

  probe_unknown-Probed :
      (c : Node) → c.rtmetric ≢ 511 → first c.send_queue ≡ none → Probed c (probe_unknown c)
  probe_unknown-Probed c route idle =
      let t = c.neighbour_list in
      elim (Option-cases (unknown_in t.mem (items t.chain) c.rtmetric)) [
        | inl e ↦
            rw (e, probe_unknown)
              (record { parent = refl; rtmetric = refl; table = refl; queue = inl refl })
        | inr (n, e) ↦
            let tried = probe-Tried c (t.mem n).addr in
            rw (e, probe_unknown)
              (record {
                parent = refl;
                rtmetric = tried.rtmetric;
                table = tried.table;
                queue = inr (
                  n,
                  unknown_in-some t.mem (items t.chain) c.rtmetric n e,
                  route,
                  idle,
                  omega (arith, tried.queue, queues.first-none c.send_queue idle),
                );
              })
      ]

  -- The node once the timer is set again.
  abbrev armed : Node → Node
  armed c = emit (ctimer_set proactive_probing (draw c % clock_second * 60) probe) (drawn c)

  Probed-armed : (c d : Node) → Probed (armed c) d → Probed c d
  Probed-armed c d p = record {
    parent = p.parent;
    rtmetric = p.rtmetric;
    table = p.table;
    queue = p.queue;
  }

  nothing : (c : Node) → Probed c (armed c)
  nothing c = record { parent = refl; rtmetric = refl; table = refl; queue = inl refl }

  -- `proactive_probing_callback` leaves the parent, the rtmetric and the neighbour table as they
  -- are; and it leaves the packet queue as it is, or the queue was empty, the rtmetric is not 511,
  -- a listed neighbour with no estimate of its link has an rtmetric lower than the node's by more
  -- than 8, and the queue then has at most one packet.
  pub proactive_probing_callback-Probed : (c : Node) → Probed c (proactive_probing_callback c)
  unfolding proactive_probing_callback
  proactive_probing_callback-Probed c = elim (Bool-cases (c.rtmetric == 0)) [
    | inl z ↦ rw z (nothing c)
    | inr z ↦ elim (Bool-cases (c.rtmetric == 511)) [
      | inl m ↦ rw (z, m) (nothing c)
      | inr m ↦ elim (Option-cases (first c.send_queue)) [
        | inl e ↦
            rw (z, m, e)
              (Probed-armed c (probe_unknown (armed c))
                (probe_unknown-Probed (armed c) (ground arith) e))
        | inr (i, e) ↦ rw (z, m, e) (nothing c)
      ]
    ]
  ]
