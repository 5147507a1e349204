-- ===== src/Conn/Ack.antt =====
-- libp.c: `handle_ack`.
use libp.Base.{
  ℕ, ◌+◌, ◌*◌, ◌/◌, ◌%◌, ◌==◌, Bool, not, ◌&&◌, if◌then◌else◌, Option, none, some, u16, u32,
}
use libp.Contiki.{Contiki}
use libp.Neighbour
use libp.Rime.{Rime, Header, packet_id, sender}
use libp.Conn.{
  Node, Stats, emit, count, draw, drawn, ctimer_set, retransmission, retransmit, rexmit_time,
  max_mac_rexmits, ack_flags_congested, ack_flags_dropped, ack_flags_lifetime_exceeded,
  ack_flags_rtmetric_needs_update,
}
use libp.Conn.Send.{send_next_packet}
use libp.Conn.Route.{update_rtmetric, bump_advertisement}

-- `flags & mask` for a mask of one bit.
abbrev pub flag : (flags mask : ℕ) → Bool
flag flags mask = (flags / mask) % 2 == 1

abbrev pub got_ack : Stats → Stats
got_ack s = record s { ackrecv = u32 (s.ackrecv + 1) }

module _ ⦃os : Contiki⦄ ⦃rime : Rime⦄ where
  open rime use {attr, addr, header}

  -- The counter of transmissions, when the link-layer acknowledgement was lost.
  abbrev pub at_least_one : Node → Node
  at_least_one c = if c.transmissions == 0 then record c { transmissions = max_mac_rexmits } else c

  abbrev pub transmitted : Node → Option ℕ → (num_tx : ℕ) → Node
  transmitted c n num_tx = record c {
    neighbour_list = Neighbour.tx c.neighbour_list n (u16 num_tx);
  }

  -- The parent's estimate and rtmetric.
  abbrev pub credit : Node → Option ℕ → (rtmetric : ℕ) → Node
  credit c none rtmetric = c
  credit c (some n) rtmetric =
      let c1 = transmitted c (some n) c.transmissions in
      update_rtmetric (record c1 {
        neighbour_list = Neighbour.update_rtmetric c1.neighbour_list (some n) rtmetric;
      })

  abbrev pub congested : Node → Option ℕ → Node
  congested c none = update_rtmetric c
  congested c (some n) =
      let c1 = record c {
        neighbour_list = Neighbour.set_congested c.neighbour_list (some n) c.clock_time;
      } in
      update_rtmetric (transmitted c1 (some n) (c1.max_rexmits * 2))

  -- The packet was dropped with time left: the parent is penalised and the packet sent again.
  abbrev pub penalise : Node → Option ℕ → Node
  penalise c n =
      let c1 = update_rtmetric (transmitted c n c.max_rexmits) in
      emit (ctimer_set retransmission (rexmit_time + draw c1 % rexmit_time) retransmit) (drawn c1)

  abbrev pub dispose : Node → Option ℕ → (flags : ℕ) → Node
  dispose c n flags =
      if not (flag flags ack_flags_dropped)
      then send_next_packet c
      else if flag flags ack_flags_lifetime_exceeded
      then send_next_packet c
      else penalise c n

  -- An acknowledgement of the packet under way, from the parent that it was sent to.
  unfoldable pub accept_ack : Node → Header → (from : ℕ) → Node
  accept_ack c msg from =
      let c1 = at_least_one (count got_ack c) in
      let n = Neighbour.find c1.neighbour_list from in
      let c2 = credit c1 n msg.rtmetric in
      let c3 = if flag msg.flags ack_flags_congested then congested c2 n else c2 in
      let c4 = dispose c3 n msg.flags in
      if flag msg.flags ack_flags_rtmetric_needs_update then bump_advertisement c4 else c4

  -- Whether the acknowledgement in the packet buffer is the awaited one.
  abbrev pub is_awaited : Node → Bool
  is_awaited c =
      (addr c.packetbuf sender == c.current_parent) && (attr c.packetbuf packet_id == c.seqno)

  -- `handle_ack`.
  unfoldable pub handle_ack : Node → Node
  handle_ack c =
      if is_awaited c
      then accept_ack c (header c.packetbuf) (addr c.packetbuf sender)
      else count (λ s. record s { badack = u32 (s.badack + 1) }) c
