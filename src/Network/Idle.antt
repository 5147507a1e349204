-- ===== src/Network/Idle.antt =====
-- libp.c: a node with nothing to send learns a neighbour's rtmetric, and sends its first packet.
use libp.Base.{
  ℕ, ◌≡◌, refl, sym, subst, ◌==◌, ==_iff, Bool-cases, Option-cases, Option, none, some, List, [],
  ◌∷◌, arith, inl, inr, u8,
}
use libp.Contiki.{Contiki}
use libp.Neighbour
use libp.Rime.{Rime, Header, max_rexmit, sender}
use libp.Conn.{Node, Effect, unicast_send}
use libp.Conn.Send.{outgoing, send_item, send_loaded, send_packet, send_queued_packet}
use libp.Conn.Route.{resume, update_rtmetric}
use libp.Conn.Frame.{chosen, update_parent-Routed}
use libp.Conn.Receive.{learn}

module _ ⦃os : Contiki⦄ ⦃rime : Rime⦄ where
  open rime use {Buf, attr, addr, header, first, len, enqueue, queuebuf, to_packetbuf, type_data}

  -- The packet that the last call sends, and to whom.
  unfoldable pub last_sent : List Effect → Option (Buf × ℕ)
  last_sent [] = none
  last_sent (unicast_send b to ∷ es) = some (b, to)
  last_sent (_ ∷ es) = none

  -- A node with nothing to send.
  pub record IsIdle (c : Node) : Type 0 where
    pub sending : c.sending ≡ 0
    pub empty : first c.send_queue ≡ none

  -- The node has the parent at the address `to`.
  abbrev pub HasParent : Node → (to : ℕ) → Type 0
  HasParent c to =
      (n : ℕ) × (Neighbour.find c.neighbour_list c.parent ≡ some n)
      × ((c.neighbour_list.mem n).addr ≡ to)

  -- What learning the sender's rtmetric leaves of a node with nothing to send.
  pub record Learned (c d : Node) : Type 0 where
    pub idle : IsIdle d
    pub buffer : d.packetbuf ≡ c.packetbuf
    pub recent : d.recent_packets ≡ c.recent_packets

  idle_sends : (c : Node) → IsIdle c → send_queued_packet c ≡ c
  unfolding send_queued_packet
  idle_sends c i = elim (Bool-cases (c.sending == 0)) [
    | inl e ↦ rw (e, i.empty) refl
    | inr e ↦ rw e refl
  ]

  resume_idle : (old : ℕ) (c : Node) → IsIdle c → resume old c ≡ c
  resume_idle old c i = ground (arith, idle_sends c i)

  chosen-Learned : (c : Node) → IsIdle c → Learned c (chosen c)
  chosen-Learned c i =
      let r = update_parent-Routed c in
      record {
        idle = record {
          sending = ground (arith, r.sending, i.sending);
          empty = ground (arith, r.queue, i.empty);
        };
        buffer = ground (arith, r.buffer);
        recent = ground (arith, r.kept.recent);
      }

  update_rtmetric-Learned : (c : Node) → IsIdle c → Learned c (update_rtmetric c)
  unfolding update_rtmetric
  update_rtmetric-Learned c i = elim (Bool-cases (c.rtmetric == 0)) [
    | inl e ↦ rw e (record { idle = i; buffer = refl; recent = refl })
    | inr e ↦
        let l = chosen-Learned c i in
        rw e (subst (Learned c) (sym (resume_idle c.rtmetric (chosen c) l.idle)) l)
  ]

  pub learn-Learned : (c : Node) (hdr : Header) → IsIdle c → Learned c (learn c hdr)
  learn-Learned c hdr i =
      elim (Option-cases (Neighbour.find c.neighbour_list (addr c.packetbuf sender))) [
        | inl e ↦ rw (e, learn) (record { idle = i; buffer = refl; recent = refl })
        | inr (n, e) ↦
            let l =
              update_rtmetric-Learned
                (record c {
                  neighbour_list = Neighbour.update_rtmetric c.neighbour_list (some n) hdr.rtmetric;
                })
                (record { sending = i.sending; empty = i.empty }) in
            rw (e, learn) (record { idle = l.idle; buffer = l.buffer; recent = l.recent })
      ]

  -- The first packet of the queue goes to the parent.
  pub send_queued_packet-last_sent :
      (c : Node) (i : rime.Item) (q : rime.Queuebuf) (to : ℕ)
      → c.sending ≡ 0
      → first c.send_queue ≡ some i
      → queuebuf i ≡ some q
      → HasParent c to
      → let b = to_packetbuf q in
        last_sent (send_queued_packet c).effects
        ≡ some (outgoing b (u8 (attr b max_rexmit)) c.seqno c.rtmetric, to)
  unfolding send_queued_packet send_packet last_sent
  send_queued_packet-last_sent c i q to s e f (n, g, a) =
      rw ((==_iff c.sending 0).1 s, e, send_item, f, send_item, send_loaded, g, a)
