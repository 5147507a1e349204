-- ===== src/Conn/Api.antt =====
-- libp.c: the functions that an application calls, from `libp_open` to `get_libp_metric`.
use libp.Base.{
  ℕ, zero, suc, ◌+◌, ◌*◌, ◌/◌, ◌%◌, ◌^◌, ◌==◌, Bool, if◌then◌else◌, ltb, Option, none, some, u8,
  u16,
}
use libp.Contiki.{Contiki}
use libp.Neighbour
use libp.Rime.{Rime, epacket_id, hops, ttl, max_rexmit, esender}
use libp.Conn.{
  Node, emit, on_buf, draw, drawn, deliver, ctimer_set, ctimer_stop, retransmission,
  proactive_probing, neighbour_periodic, probe, age_neighbours, announcement_register,
  announcement_set_value, announcement_remove, unicast_open, broadcast_open, channel_set_attributes,
  unicast_close, broadcast_close, forward_lifetime, header_size, rtmetric_sink, rtmetric_max,
  max_hoplim, max_rexmits_limit, addr_null,
}
use libp.Conn.Send.{send_queued_packet}
use libp.Conn.Route.{update_rtmetric, bump_advertisement}

module _ ⦃os : Contiki⦄ ⦃rime : Rime⦄ where
  open os use {clock_second}
  open rime use {
    Buf, Queue, attr, set_attr, addr, set_addr, hdralloc, new_queue, first, len, enqueue, dequeue,
    node_addr, packet_id_bits,
  }

  abbrev pub announce_if_router : Node → Node
  announce_if_router c =
      if c.is_router == 0 then c else emit (announcement_set_value rtmetric_max) c

  -- `libp_open`. It leaves the fields that it does not name as they are.
  unfoldable pub open_conn : Node → (channels is_router : ℕ) → (has_recv : Bool) → Node
  open_conn c channels is_router has_recv =
      let c1 = emit (unicast_open (u16 (channels + 1))) c in
      let c2 = emit (broadcast_open (u16 (channels + 65535))) c1 in
      let c3 = emit (channel_set_attributes (u16 (channels + 1))) c2 in
      let c4 = record c3 {
        rtmetric = rtmetric_max;
        has_recv = has_recv;
        is_router = is_router;
        is_sink = 0;
        seqno = 10;
        eseqno = 0;
        send_queue = new_queue;
        neighbour_list = Neighbour.list_new c.neighbour_list;
      } in
      let c5 = emit (ctimer_set neighbour_periodic clock_second age_neighbours) c4 in
      let c6 = record c5 { neighbour_list = Neighbour.init c5.neighbour_list } in
      let c7 = announce_if_router (emit (announcement_register channels) c6) in
      emit (ctimer_set proactive_probing (draw c7 % clock_second * 60) probe) (drawn c7)

  -- The loops that empty the packet queue, with a bound on the rounds.
  unfoldable pub drain : ℕ → Queue → Queue
  drain zero q = q
  drain (suc k) q = let rest = drain k (dequeue q) in elim (first q) [ none ↦ q | some i ↦ rest ]

  unfoldable pub drain_len : ℕ → Queue → Queue
  drain_len zero q = q
  drain_len (suc k) q = let rest = drain_len k (dequeue q) in if ltb 0 (len q) then rest else q

  -- `libp_close`.
  unfoldable pub close : Node → Node
  close c =
      let c1 = emit broadcast_close (emit unicast_close (emit announcement_remove c)) in
      record c1 { send_queue = drain (len c1.send_queue) c1.send_queue }

  -- The sequence number behind `eseqno`, which skips 0 when it wraps.
  abbrev pub wrapped_eseqno : ℕ → ℕ
  wrapped_eseqno e = u8 ((e + 1) % 2 ^ packet_id_bits)

  abbrev pub next_eseqno : ℕ → ℕ
  next_eseqno e = if wrapped_eseqno e == 0 then u8 (2 ^ packet_id_bits / 2) else wrapped_eseqno e

  -- The attributes of a packet that the node originates.
  abbrev pub originated : Buf → (eseqno rexmits : ℕ) → Buf
  originated b eseqno rexmits =
      let b1 = set_attr b epacket_id eseqno in
      let b2 = set_addr b1 esender node_addr in
      let b3 = set_attr b2 hops 1 in
      let b4 = set_attr b3 ttl max_hoplim in
      set_attr b4 max_rexmit (if ltb max_rexmits_limit rexmits then max_rexmits_limit else rexmits)

  abbrev pub deliver_own : Node → Node
  deliver_own c =
      let c1 = on_buf (λ b. set_attr b hops 0) c in
      let b = c1.packetbuf in
      if c1.has_recv
      then emit (deliver (addr b esender) (u8 (attr b epacket_id)) (u8 (attr b hops))) c1
      else c1

  abbrev pub enqueue_own : Node → ℕ × Node
  enqueue_own c =
      let c1 = on_buf (λ b. hdralloc b header_size) c in
      let (ok, q) =
        enqueue c1.calls c1.send_queue c1.packetbuf
          (forward_lifetime (attr c1.packetbuf max_rexmit)) in
      let c2 = record c1 { calls = c1.calls + 1; send_queue = q } in
      if ok then (1, send_queued_packet c2) else (0, c2)

  -- `libp_send`, for `rexmits` that is not negative.
  unfoldable pub send : Node → (rexmits : ℕ) → ℕ × Node
  send c rexmits =
      let c1 = record c {
        packetbuf = originated c.packetbuf c.eseqno rexmits;
        eseqno = next_eseqno c.eseqno;
      } in
      if c1.rtmetric == rtmetric_sink then (1, deliver_own c1) else enqueue_own c1

  -- `libp_set_sink`.
  abbrev pub become_sink : Node → Node
  become_sink c =
      let c1 =
        bump_advertisement (record c { is_router = 1; rtmetric = rtmetric_sink; is_sink = 1 }) in
      emit (ctimer_stop retransmission)
        (record c1 { send_queue = drain_len (len c1.send_queue) c1.send_queue })

  unfoldable pub set_sink : Node → (should_be_sink : ℕ) → Node
  set_sink c should_be_sink =
      let c1 =
        if should_be_sink == 0 then record c { rtmetric = rtmetric_max } else become_sink c in
      let c2 = emit (announcement_set_value c1.rtmetric) c1 in
      bump_advertisement (update_rtmetric c2)

  -- `libp_parent`, `libp_depth`.
  unfoldable pub parent : Node → ℕ
  parent c = c.current_parent

  unfoldable pub depth : Node → ℕ
  depth c = c.rtmetric

  -- `libp_purge`; `none` is not reached, since the purge of the table ends.
  unfoldable pub purge : Node → Option Node
  purge c = elim (Neighbour.purge c.neighbour_list) [
    | none ↦ none
    | some t ↦
        let c1 = update_rtmetric (record c { neighbour_list = t; parent = addr_null }) in
        some (record c1 { parent = addr_null })
  ]

  -- The callback `periodic` of libp-neighbour.c, with the timer that it sets again.
  unfoldable pub neighbour_periodic_callback : Node → Option Node
  neighbour_periodic_callback c = elim (Neighbour.periodic c.neighbour_list) [
    | none ↦ none
    | some t ↦ some (
        emit (ctimer_set neighbour_periodic (clock_second * 60) age_neighbours)
          (record c { neighbour_list = t }))
  ]

  -- `get_libp_metric`.
  unfoldable pub get_metric : Node → ℕ
  get_metric c = elim (Neighbour.find c.neighbour_list c.current_parent) [
    | none ↦ 0
    | some n ↦ (c.neighbour_list.mem n).lm.num_estimates
  ]
