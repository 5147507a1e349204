-- ===== src/Conn/Overwrite.antt =====
-- libp.c: `node_packet_received` learns the sender's rtmetric before it looks at the packet, and the
-- route that it finds thereby may send the queued packet from the same packet buffer.
use libp.Base.{
  ℕ, ◌≡◌, ◌≢◌, ◌⊎◌, ◌∙◌, inl, inr, refl, ◌==◌, ==_iff, Bool-cases, Option-cases, sym, subst, ap,
  arith, some, u8,
}
use libp.Contiki.{Contiki}
use libp.Neighbour
use libp.Rime.{Rime, Header, max_rexmit, sender}
use libp.Conn.{Node}
use libp.Conn.Send.{outgoing, send_item, send_loaded, send_packet, send_queued_packet}
use libp.Conn.Route.{resume, sane_rtmetric, update_parent, update_rtmetric}
use libp.Conn.Receive.{learn}
use libp.Conn.Frame.{chosen, send_queued_packet-Sent, update_parent-Routed, update_rtmetric-Updated}

module _ ⦃os : Contiki⦄ ⦃rime : Rime⦄ where
  open rime use {attr, addr, to_packetbuf, queuebuf, first}

  -- The buffer holds the queued packet, as it was queued or made ready for the first transmission.
  abbrev pub IsQueued : rime.Buf → (seqno rtmetric : ℕ) → rime.Queuebuf → Type 0
  IsQueued b seqno rtmetric q =
      (b ≡ to_packetbuf q)
      ⊎ (b ≡ outgoing (to_packetbuf q) (u8 (attr (to_packetbuf q) max_rexmit)) seqno rtmetric)

  send_loaded-IsQueued :
      (c : Node) (q : rime.Queuebuf)
      → c.packetbuf ≡ to_packetbuf q
      → IsQueued (send_loaded c).packetbuf c.seqno c.rtmetric q
  unfolding send_packet
  send_loaded-IsQueued c q e = elim (Option-cases (Neighbour.find c.neighbour_list c.parent)) [
    | inl f ↦ inl (rw (f, send_loaded) e)
    | inr (n, f) ↦ inr (rw (f, send_loaded, e) refl)
  ]

  send_queued_packet-IsQueued :
      (c : Node) (i : rime.Item) (q : rime.Queuebuf)
      → c.sending ≡ 0
      → first c.send_queue ≡ some i
      → queuebuf i ≡ some q
      → IsQueued (send_queued_packet c).packetbuf c.seqno c.rtmetric q
  unfolding send_queued_packet
  send_queued_packet-IsQueued c i q s e f =
      rw ((==_iff c.sending 0).1 s, e, send_item, f, send_item)
        (send_loaded-IsQueued (record c { packetbuf = to_packetbuf q }) q refl)

  chosen_keeps :
      (c : Node)
      → ((chosen c).sending ≡ c.sending)
        × ((chosen c).send_queue ≡ c.send_queue)
        × ((chosen c).rtmetric ≡ sane_rtmetric (update_parent c))
        × ((chosen c).seqno ≡ c.seqno)
  chosen_keeps c = ground (arith, update_parent-Routed c)

  resume-sends :
      (old : ℕ) (d : Node) → old ≡ 511 → d.rtmetric ≢ 511 → resume old d ≡ send_queued_packet d
  resume-sends old d lost found = ground arith

  resumes :
      (c : Node)
      → c.rtmetric ≡ 511
      → sane_rtmetric (update_parent c) ≢ 511
      → update_rtmetric c ≡ send_queued_packet (chosen c)
  unfolding update_rtmetric
  resumes c lost found = elim (Bool-cases (c.rtmetric == 0)) [
    | inl e ↦ absurd (ground arith)
    | inr e ↦
        rw e (resume-sends c.rtmetric (chosen c) lost (λ z. found (sym (chosen_keeps c).2 ∙ z)))
  ]

  IsQueued-same :
      (b : rime.Buf) (m n x y : ℕ) (q : rime.Queuebuf)
      → m ≡ x
      → n ≡ y
      → IsQueued b x y q
      → IsQueued b m n q
  IsQueued-same b m n x y q e f h = rw (e, f) h

  update_rtmetric-IsQueued :
      (c : Node) (i : rime.Item) (q : rime.Queuebuf)
      → c.rtmetric ≡ 511
      → (update_rtmetric c).rtmetric ≢ 511
      → c.sending ≡ 0
      → first c.send_queue ≡ some i
      → queuebuf i ≡ some q
      → IsQueued (update_rtmetric c).packetbuf c.seqno (update_rtmetric c).rtmetric q
  update_rtmetric-IsQueued c i q lost found s e f =
      let u = update_rtmetric-Updated c (ground arith) in
      let r = chosen_keeps c in
      let sent = send_queued_packet-Sent (chosen c) in
      subst (λ d. IsQueued d.packetbuf c.seqno d.rtmetric q)
        (sym (resumes c lost (λ z. found (u.rtmetric ∙ z))))
        (IsQueued-same _ _ _ _ _ q (sym r.3) sent.rtmetric
          (send_queued_packet-IsQueued (chosen c) i q (r.0 ∙ s) (ap first r.1 ∙ e) f))

  -- The node of `learn` when it updates its routing.
  abbrev told : Node → ℕ → Header → Node
  told c n hdr = record c {
    neighbour_list = Neighbour.update_rtmetric c.neighbour_list (some n) hdr.rtmetric;
  }

  learn-known :
      (c : Node) (n : ℕ) (hdr : Header)
      → Neighbour.find c.neighbour_list (addr c.packetbuf sender) ≡ some n
      → learn c hdr ≡ update_rtmetric (told c n hdr)
  learn-known c n hdr e = rw (e, learn) refl

  -- A node without a route that learns one from a received packet's header, and has a packet
  -- queued and none under way, goes on in `node_packet_received` with its own queued packet in the
  -- packet buffer, as it was queued or made ready for its first transmission, in place of the
  -- received one.
  pub learn-IsQueued :
      (c : Node) (n : ℕ) (i : rime.Item) (q : rime.Queuebuf)
      → Neighbour.find c.neighbour_list (addr c.packetbuf sender) ≡ some n
      → c.rtmetric ≡ 511
      → (learn c (rime.header c.packetbuf)).rtmetric ≢ 511
      → c.sending ≡ 0
      → first c.send_queue ≡ some i
      → queuebuf i ≡ some q
      → IsQueued
          (learn c (rime.header c.packetbuf)).packetbuf
          c.seqno
          (learn c (rime.header c.packetbuf)).rtmetric
          q
  learn-IsQueued c n i q known lost found s e f =
      let same = learn-known c n (rime.header c.packetbuf) known in
      subst (λ d. IsQueued d.packetbuf c.seqno d.rtmetric q) (sym same)
        (update_rtmetric-IsQueued (told c n (rime.header c.packetbuf)) i q lost
          (λ z. found (ap (λ d. d.rtmetric) same ∙ z)) s e f)
