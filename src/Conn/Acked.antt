-- ===== src/Conn/Acked.antt =====
-- libp.c: what `handle_ack` makes of the queue and the sequence number.
use libp.Base.{
  ℕ, ◌+◌, ◌-◌, ◌%◌, ◌^◌, ◌≡◌, ◌⊎◌, ◌∙◌, inl, inr, refl, ap, Bool, true, false, not, ◌||◌,
  if◌then◌else◌, Option, none, some, arith, u8,
}
use libp.Contiki.{Contiki}
use libp.Neighbour
use libp.Rime.{Rime, Header, QueueLaws, sender}
use libp.Conn.{
  Node, count, ack_flags_congested, ack_flags_dropped, ack_flags_lifetime_exceeded,
  ack_flags_rtmetric_needs_update,
}
use libp.Conn.Send.{send_next_packet}
use libp.Conn.Route.{update_rtmetric, bump_advertisement}
use libp.Conn.Ack.{
  is_awaited, flag, at_least_one, credit, congested, penalise, dispose, accept_ack, handle_ack,
  transmitted, got_ack,
}
use libp.Conn.Frame.{update_rtmetric-Settled}
use libp.Conn.Sequence.{send_next_packet_lem}

module _ ⦃os : Contiki⦄ ⦃rime : Rime⦄ where
  open rime use {len, packet_id_bits}

  -- The queue and the sequence number stay.
  abbrev pub Stays : Node → Node → Type 0
  Stays c c' = (c'.send_queue ≡ c.send_queue) × (c'.seqno ≡ c.seqno)

  -- The first packet is done with, and its sequence number used up.
  abbrev pub GoesOn : Node → Node → Type 0
  GoesOn c c' =
      (len c'.send_queue ≡ len c.send_queue - 1)
      × (c'.seqno ≡ u8 ((c.seqno + 1) % 2 ^ packet_id_bits))

  -- The parent took the packet, or gave it up for its lifetime.
  abbrev pub is_done : (flags : ℕ) → Bool
  is_done flags = not (flag flags ack_flags_dropped) || flag flags ack_flags_lifetime_exceeded

  -- What a disposal does, by the flags.
  abbrev pub Disposes : ℕ → Node → Node → Type 0
  Disposes flags c c' =
      ((is_done flags ≡ true) × GoesOn c c') ⊎ ((is_done flags ≡ false) × Stays c c')

module _ ⦃os : Contiki⦄ ⦃rime : Rime⦄ (queues : QueueLaws) where
  open rime use {len, packet_id_bits}

  update_rtmetric-Stays : (c : Node) → Stays c (update_rtmetric c)
  update_rtmetric-Stays c = ground (arith, update_rtmetric-Settled c)

  credit-Stays : (c : Node) (n : Option ℕ) (rtmetric : ℕ) → Stays c (credit c n rtmetric)
  credit-Stays c none rtmetric = (refl, refl)
  credit-Stays c (some n) rtmetric = update_rtmetric-Stays _

  congested-Stays : (c : Node) (n : Option ℕ) → Stays c (congested c n)
  congested-Stays c none = update_rtmetric-Stays c
  congested-Stays c (some n) = update_rtmetric-Stays _

  penalise-Stays : (c : Node) (n : Option ℕ) → Stays c (penalise c n)
  penalise-Stays c n = update_rtmetric-Stays (transmitted c n c.max_rexmits)

  if-Stays : (b : Bool) (c d : Node) → Stays c d → Stays c (if b then d else c)
  if-Stays true c d h = h
  if-Stays false c d h = (refl, refl)

  Disposes-if :
      (a b : Bool) (c x y : Node)
      → GoesOn c x
      → Stays c y
      → let r = if not a then x else if b then x else y in
        (((not a || b) ≡ true) × GoesOn c r) ⊎ (((not a || b) ≡ false) × Stays c r)
  Disposes-if true true c x y g s = inl (refl, g)
  Disposes-if true false c x y g s = inr (refl, s)
  Disposes-if false b c x y g s = inl (refl, g)

  dispose-Disposes : (c : Node) (n : Option ℕ) (flags : ℕ) → Disposes flags c (dispose c n flags)
  dispose-Disposes c n flags =
      Disposes-if (flag flags ack_flags_dropped) (flag flags ack_flags_lifetime_exceeded) c
        (send_next_packet c) (penalise c n) (send_next_packet_lem queues c) (penalise-Stays c n)

  Stays-trans : (c d e : Node) → Stays c d → Stays d e → Stays c e
  Stays-trans c d e (h, g) (h', g') = (h' ∙ h, g' ∙ g)

  Disposes-between :
      (flags : ℕ) (c d e f : Node) → Stays c d → Disposes flags d e → Stays e f → Disposes flags c f
  Disposes-between flags c d e f (h, g) (inl (done, (l, s))) (h', g') = inl (
    done,
    (ap len h' ∙ l ∙ ap (λ q. len q - 1) h, g' ∙ s ∙ ap (λ k. u8 ((k + 1) % 2 ^ packet_id_bits)) g),
  )
  Disposes-between flags c d e f (h, g) (inr (not_done, (l, s))) (h', g') =
      inr (not_done, (h' ∙ l ∙ h, g' ∙ s ∙ g))

  accept_ack-Disposes :
      (c : Node) (msg : Header) (from : ℕ) → Disposes msg.flags c (accept_ack c msg from)
  unfolding accept_ack
  accept_ack-Disposes c msg from =
      Disposes-between msg.flags c c3 c4
        (if flag msg.flags ack_flags_rtmetric_needs_update then bump_advertisement c4 else c4)
        before (dispose-Disposes c3 n msg.flags)
        (if-Stays (flag msg.flags ack_flags_rtmetric_needs_update) c4 (bump_advertisement c4)
          (refl, refl))
    where
      c1 : Node
      c1 = at_least_one (count got_ack c)

      n : Option ℕ
      n = Neighbour.find c1.neighbour_list from

      c2 : Node
      c2 = credit c1 n msg.rtmetric

      c3 : Node
      c3 = if flag msg.flags ack_flags_congested then congested c2 n else c2

      c4 : Node
      c4 = dispose c3 n msg.flags

      before : Stays c c3
      before =
          Stays-trans c c2 c3
            (Stays-trans c c1 c2 (ground arith, ground arith) (credit-Stays c1 n msg.rtmetric))
            (if-Stays (flag msg.flags ack_flags_congested) c2 (congested c2 n)
              (congested-Stays c2 n))

  -- An awaited acknowledgement that does not say the packet was dropped, or says that its lifetime
  -- was exceeded, takes the first packet off the queue and uses up its sequence number; one that
  -- says it was dropped, with lifetime left, leaves the queue and the sequence number.
  pub handle_ack-Disposes :
      (c : Node) → is_awaited c ≡ true → Disposes (rime.header c.packetbuf).flags c (handle_ack c)
  unfolding handle_ack
  handle_ack-Disposes c e =
      rw e (accept_ack-Disposes c (rime.header c.packetbuf) (rime.addr c.packetbuf sender))
