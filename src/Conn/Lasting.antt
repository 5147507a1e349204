-- ===== src/Conn/Lasting.antt =====
-- libp.c: which nodes are sinks, while nothing calls `libp_set_sink`.
mod Packets
pub mod Calls
use libp.Base.{
  ℕ, ◌+◌, ◌*◌, ◌%◌, ◌≡◌, ◌≢◌, ◌∙◌, inl, inr, refl, sym, subst, ◌==◌, ==_iff, if◌then◌else◌, Bool,
  true, false, arith, Bool-cases, Option, none, some, Option-cases, List, [], ◌∷◌, u8, u16, u32,
}
use native.Mathlib.Decide.{ℕ_discrete}
use libp.Contiki.{Contiki, ListLaws, MembLaws}
use libp.Neighbour
use libp.Neighbour.{Table}
use libp.Rime.{Rime, Header, sender, max_rexmit}
use libp.Conn.{
  Node, Stats, count, emit, draw, drawn, ctimer_set, proactive_probing, probe, ack_flags_congested,
  ack_flags_rtmetric_needs_update, forward_lifetime,
}
use libp.Conn.Send.{send_packet, send_ack, send_queued_packet, send_next_packet}
use libp.Conn.Route.{update_rtmetric, bump_advertisement}
use libp.Conn.Timers.{
  timedout, count_timedout, node_packet_sent, follow_parent, retransmit_loaded, retransmit_item,
  retransmit_current_packet, retransmit_callback, retransmit_not_sent_callback,
}
use libp.Conn.Ack.{
  flag, at_least_one, transmitted, credit, congested, penalise, dispose, accept_ack, handle_ack,
  got_ack,
}
use libp.Conn.Receive.{
  add_packet_to_recent_packets, ack_at_sink, deliver_packet, receive_at_sink, drop_packet,
  enqueue_forward, forward, one_hop_on, expire, receive_new, receive_data, learn,
  node_packet_received, lost_neighbour, meet, received_announcement,
}
use libp.Conn.Beacon.{set_beacon_timer, set_beacon_period, send_beacon, broadcast_recv}
use libp.Conn.Probe.{
  enqueue_dummy_packet, unknown_in, probe_neighbour, probe_unknown, proactive_probing_callback,
}
use libp.Conn.Api.{send, originated, next_eseqno, enqueue_own, deliver_own, close}
use libp.Conn.Frame.{send_queued_packet-Sent, update_rtmetric-Settled}

module _ ⦃os : Contiki⦄ ⦃rime : Rime⦄ where
  open rime use {addr, attr}

  -- The node has a sink's rtmetric, or has not, and its flag.
  pub record As (s : Bool) (f : ℕ) (c : Node) : Type 0 where
    pub rtmetric : (c.rtmetric == 0) ≡ s
    pub is_sink : c.is_sink ≡ f

  module _ (s : Bool) (f : ℕ) where
    pub same : (c d : Node) → d.rtmetric ≡ c.rtmetric → d.is_sink ≡ c.is_sink → As s f c → As s f d
    same c d e k g = ground arith

    pub stats-As : (c : Node) (t : Stats) → As s f c → As s f (record c { stats = t })
    stats-As c t g = ground arith

    pub if-As : (b : Bool) (c d : Node) → As s f c → As s f d → As s f (if b then c else d)
    if-As true c d g h = g
    if-As false c d g h = h

    pub send_queued_packet-As : (c : Node) → As s f c → As s f (send_queued_packet c)
    send_queued_packet-As c g =
        let k = send_queued_packet-Sent c in same c _ k.rtmetric k.kept.sink g

    pub update_rtmetric-As : (c : Node) → As s f c → As s f (update_rtmetric c)
    update_rtmetric-As c g =
        let k = update_rtmetric-Settled c in ground (arith, k.sink, k.no_sink, k.kept.sink)

    pub send_next_packet-As : (c : Node) → As s f c → As s f (send_next_packet c)
    unfolding send_next_packet
    send_next_packet-As c g = send_queued_packet-As _ (same c _ refl refl g)

    pub send_ack-As : (c : Node) (to flags : ℕ) → As s f c → As s f (send_ack c to flags)
    unfolding send_ack
    send_ack-As c to flags g = same c _ refl refl g

    timedout-As : (c : Node) → As s f c → As s f (timedout c)
    unfolding timedout
    timedout-As c g = send_next_packet-As _ (update_rtmetric-As _ (same c _ refl refl g))

    pub node_packet_sent-As : (c : Node) (k : ℕ) → As s f c → As s f (node_packet_sent c k)
    unfolding node_packet_sent
    node_packet_sent-As c k g =
        let d = record c { transmissions = u8 (c.transmissions + k) } in
        ground (arith, timedout-As d (same c d refl refl g))

    retransmit_loaded-As : (c : Node) → As s f c → As s f (retransmit_loaded c)
    unfolding send_packet
    retransmit_loaded-As c g = ground arith

    follow_parent-As : (c : Node) → As s f c → As s f (follow_parent c)
    follow_parent-As c g = ground arith

    retransmit_item-As : (c : Node) (i : rime.Item) → As s f c → As s f (retransmit_item c i)
    retransmit_item-As c i g = elim (Option-cases (rime.queuebuf i)) [
      | inl e ↦ rw (e, retransmit_item) g
      | inr (q, e) ↦
          let d = record (update_rtmetric c) { packetbuf = rime.to_packetbuf q } in
          let gd = same (update_rtmetric c) d refl refl (update_rtmetric-As c g) in
          rw (e, retransmit_item) (retransmit_loaded-As (follow_parent d) (follow_parent-As d gd))
    ]

    retransmit_current_packet-As : (c : Node) → As s f c → As s f (retransmit_current_packet c)
    unfolding retransmit_current_packet
    retransmit_current_packet-As c g = elim (Option-cases (rime.first c.send_queue)) [
      | inl e ↦ rw (e, retransmit_current_packet) g
      | inr (i, e) ↦ rw (e, retransmit_current_packet) (retransmit_item-As c i g)
    ]

    pub retransmit_callback-As : (c : Node) → As s f c → As s f (retransmit_callback c)
    unfolding retransmit_callback
    retransmit_callback-As c g = ground (
      arith,
      timedout-As c g,
      retransmit_current_packet-As (record c { sending = 0 }) (same c _ refl refl g),
    )

    pub retransmit_not_sent_callback-As :
        (c : Node) → As s f c → As s f (retransmit_not_sent_callback c)
    unfolding retransmit_not_sent_callback
    retransmit_not_sent_callback-As c g = retransmit_callback-As _ (same c _ refl refl g)
